-- ===== src/Poller/Creation.antt =====
-- poller.go: a new poller. What epoll_create1(2) returns, an error or the kernel's state with the
-- new instance, and the channels, of which none is registered yet, are arguments.
use muduo_go.Prelude.{ℕ, ◌≡◌, refl, Option, none, some, [], arith}
use muduo_go.Channel.{Channel, channel_new}
use muduo_go.Poller.Polling.{Polling}
use muduo_go.Poller.Registration.{Epoll, IsConsistent}

-- `newPoller`; a nil poller, which comes with the error, is `none`. `active` is the loop's.
unfoldable pub new_poller : {A K : Type 0} → (ℕ → Channel A) → Option K → Option (Polling A K)
new_poller channel none = none
new_poller channel (some kernel) = some (record {
  poller = record { channel = channel; channel_map = λ fd. none; kernel = kernel };
  event_list = 16;
  active = [];
})

-- A new poller is consistent, when the new instance watches nothing and no channel was registered.
new_poller-IsConsistent :
    {A K : Type 0} (epoll : Epoll K) (channel : ℕ → Channel A) (kernel : K)
    → ((fd : ℕ) → epoll.interest kernel fd ≡ none)
    → ((c : ℕ) → (channel c).index ≡ channel_new)
    → (w : Polling A K) × (new_poller channel (some kernel) ≡ some w) × IsConsistent epoll w.poller
unfolding new_poller
new_poller-IsConsistent epoll channel kernel empty fresh = (
  _,
  refl,
  record {
    mapped = λ fd c e. ground arith;
    registered = λ c e. absurd (e (fresh c));
    watched = λ fd. empty fd;
  },
)
