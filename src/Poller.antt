-- ===== src/Poller.antt =====
-- poller.go: the map from file descriptors to channels and the calls of epoll_ctl, and the
-- operations of channel.go that go through it. A channel pointer is a number, its channel is looked
-- up in `channel`. The kernel is a parameter: its state `K`, and what `epoll_ctl` does to it; its
-- error result is only logged, so it is not modelled.
pub mod Registration
pub mod Removal
pub mod Polling
pub mod Creation
pub mod Tests
use muduo_go.Prelude.{
  ℕ, ◌≡◌, Bool, true, false, Option, none, some, if◌then◌else◌, Run, ok, panic, ◌>>=◌, ◌>>◌, assert,
  ◌==◌, ==_self, refl,
}
use muduo_go.Events.{with_read, with_write, without_write}
use muduo_go.Channel.{Channel, ChannelIndex, channel_new, channel_add, channel_del, is_none_event}

pub data CtlOp : Type 0 where
  ctl_add ctl_mod ctl_del : CtlOp

-- A Go map as a function, and an assignment to it.
unfoldable pub update {ℓ} : {V : Type ℓ} → (ℕ → V) → ℕ → V → ℕ → V
update m k v j = if j == k then v else m j

pub update_self {ℓ} : {V : Type ℓ} (m : ℕ → V) (k : ℕ) (v : V) → update m k v k ≡ v
unfolding update
update_self m k v = rw (==_self k)

-- `m[fd] == channel`
abbrev pub is_channel : ℕ → Option ℕ → Bool
is_channel p none = false
is_channel p (some q) = q == p

abbrev pub is_nil : Option ℕ → Bool
is_nil none = true
is_nil (some _) = false

pub record Poller (A K : Type 0) : Type 0 where
  pub channel : ℕ → Channel A
  pub channel_map : ℕ → Option ℕ
  pub kernel : K

-- The assertion on `idx`, and the test after it.
abbrev is_registered : ChannelIndex → Bool
is_registered channel_new = false
is_registered _ = true

module _ {A K : Type 0} (ctl : CtlOp → ℕ → ℕ → K → K) where
  -- `p.update(op, channel)`
  abbrev ctl_channel : CtlOp → ℕ → Poller A K → Poller A K
  ctl_channel op c p = let ch = p.channel c in record p { kernel = ctl op ch.fd ch.events p.kernel }

  -- `channel.index = i`
  abbrev set_index : ChannelIndex → ℕ → Poller A K → Poller A K
  set_index i c p = record p { channel = update p.channel c (record (p.channel c) { index = i }) }

  -- The branches of `updateChannel`, by the value of `idx`.
  update_by_index : ChannelIndex → ℕ → Poller A K → Run (Poller A K)
  update_by_index channel_new c p = do
    assert (is_nil (p.channel_map (p.channel c).fd))
    let q = record p { channel_map = update p.channel_map (p.channel c).fd (some c) }
    ok (ctl_channel ctl_add c (set_index channel_add c q))
  update_by_index channel_del c p = do
    assert (is_channel c (p.channel_map (p.channel c).fd))
    ok (ctl_channel ctl_add c (set_index channel_add c p))
  update_by_index channel_add c p = do
    assert (is_channel c (p.channel_map (p.channel c).fd))
    ok (
        if is_none_event (p.channel c)
        then set_index channel_del c (ctl_channel ctl_del c p)
        else ctl_channel ctl_mod c p)

  unfoldable pub update_channel : ℕ → Poller A K → Run (Poller A K)
  unfolding update_by_index
  update_channel c p = update_by_index (p.channel c).index c p

  abbrev ctl_if_added : ChannelIndex → ℕ → Poller A K → Poller A K
  ctl_if_added channel_add c p = ctl_channel ctl_del c p
  ctl_if_added _ c p = p

  unfoldable pub remove_channel : ℕ → Poller A K → Run (Poller A K)
  remove_channel c p = do
    let fd = (p.channel c).fd
    assert (is_channel c (p.channel_map fd))
    assert (is_registered (p.channel c).index)
    let q = record p { channel_map = update p.channel_map fd none }
    ok (set_index channel_new c (ctl_if_added (p.channel c).index c q))

  -- The operations of channel.go: a new value of `events`, then `update`.
  abbrev pub set_events : ℕ → ℕ → Poller A K → Poller A K
  set_events e c p = record p { channel = update p.channel c (record (p.channel c) { events = e }) }

  unfoldable pub update_events : ℕ → ℕ → Poller A K → Run (Poller A K)
  update_events e c p = update_channel c (set_events e c p)

  unfoldable pub enable_reading : ℕ → Poller A K → Run (Poller A K)
  enable_reading c p = update_events (with_read (p.channel c).events) c p

  unfoldable pub enable_writing : ℕ → Poller A K → Run (Poller A K)
  enable_writing c p = update_events (with_write (p.channel c).events) c p

  unfoldable pub disable_writing : ℕ → Poller A K → Run (Poller A K)
  disable_writing c p = update_events (without_write (p.channel c).events) c p

  unfoldable pub disable_all : ℕ → Poller A K → Run (Poller A K)
  disable_all c p = update_events 0 c p
