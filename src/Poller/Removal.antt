-- ===== src/Poller/Removal.antt =====
-- poller.go: removeChannel takes a channel out of the map, and out of the kernel's interest set.
use muduo_go.Prelude.{
  ℕ, ◌≡◌, ◌≢◌, refl, ◌∙◌, ap, none, some, if◌then◌else◌, ok, ◌==◌, arith, ==_self, Option-cases,
  inl, inr,
}
use muduo_go.Channel.{ChannelIndex, channel_new, channel_add, channel_del}
use muduo_go.Poller.{ctl_del, Poller, update, remove_channel}
use muduo_go.Poller.Registration.{Epoll, IsConsistent, wanted, wanted_at}

module _ {A K : Type 0} (epoll : Epoll K) where
  -- `q` is `p` with channel `c` out of the map and of the interest set.
  pub record Removed (c : ℕ) (p q : Poller A K) : Type 0 where
    pub channels :
        (d : ℕ)
        → q.channel d
          ≡ (if d == c then record (p.channel c) { index = channel_new } else p.channel d)
    pub map : (f : ℕ) → q.channel_map f ≡ (if f == (p.channel c).fd then none else p.channel_map f)
    pub interests :
        (f : ℕ)
        → epoll.interest q.kernel f
          ≡ (if f == (p.channel c).fd then none else epoll.interest p.kernel f)

  module _ (p : Poller A K) (v : IsConsistent epoll p) (c : ℕ)
      (own : p.channel_map (p.channel c).fd ≡ some c) where
    module _ (q : Poller A K) (s : Removed c p q) where
      removed_mapped :
          (f d : ℕ)
          → q.channel_map f ≡ some d
          → ((q.channel d).fd ≡ f) × ((q.channel d).index ≢ channel_new)
      removed_mapped f d h = ground (arith, s.map f, s.channels d, v.mapped f d)

      removed_registered :
          (d : ℕ) → (q.channel d).index ≢ channel_new → q.channel_map (q.channel d).fd ≡ some d
      removed_registered d h = ground (arith, s.map (q.channel d).fd, s.channels d, v.registered d)

      removed_watched : (f : ℕ) → epoll.interest q.kernel f ≡ wanted_at epoll q (q.channel_map f)
      removed_watched f = elim (Option-cases (p.channel_map f)) [
        | inl n ↦ ground (arith, s.map f, s.interests f, v.watched f)
        | inr (d, h) ↦
            ground (arith, s.map f, s.interests f, s.channels d, v.watched f, v.mapped f d h)
      ]

      removed-IsConsistent : IsConsistent epoll q
      removed-IsConsistent = record {
        mapped = removed_mapped;
        registered = removed_registered;
        watched = removed_watched;
      }

    interest_at :
        epoll.interest p.kernel (p.channel c).fd ≡ wanted (p.channel c).index (p.channel c).events
    interest_at = v.watched (p.channel c).fd ∙ ap (wanted_at epoll p) own

    abbrev Gone : ChannelIndex → Type 0
    Gone i = (q : Poller A K) × (remove_channel epoll.ctl c p ≡ ok q) × Removed c p q

    abbrev gone : K → Poller A K
    gone k = record {
      channel = update p.channel c (record (p.channel c) { index = channel_new });
      channel_map = update p.channel_map (p.channel c).fd none;
      kernel = k;
    }

    removed_by : (i : ChannelIndex) → (p.channel c).index ≡ i → i ≢ channel_new → Gone i
    removed_by channel_new h ne = absurd (ne refl)
    removed_by channel_add h ne = (
      gone (epoll.ctl ctl_del (p.channel c).fd (p.channel c).events p.kernel),
      (unfold remove_channel in simp (h, own, ==_self)),
      record {
        channels = λ d. unfold update in refl;
        map = λ f. unfold update in refl;
        interests = λ f.
            epoll.del_lem (p.channel c).fd (p.channel c).events (p.channel c).events p.kernel
              (interest_at ∙ ap (λ i. wanted i (p.channel c).events) h) f;
      },
    )
    removed_by channel_del h ne = (
      gone p.kernel,
      (unfold remove_channel in simp (h, own, ==_self)),
      record {
        channels = λ d. unfold update in refl;
        map = λ f. unfold update in refl;
        interests = λ f. ground (arith, interest_at, ap (λ i. wanted i (p.channel c).events) h);
      },
    )

-- From a consistent poller, `removeChannel` of a channel whose index is channelAdd or channelDel
-- does not panic. It leaves a consistent poller that differs only in that channel and its
-- descriptor: its index is channelNew, the map has no channel for the descriptor, and the kernel
-- has no interest in it.
pub remove_channel_keeps :
    {A K : Type 0} (epoll : Epoll K) (p : Poller A K) (c : ℕ)
    → IsConsistent epoll p
    → (p.channel c).index ≢ channel_new
    → (q : Poller A K) × (remove_channel epoll.ctl c p ≡ ok q)
      × Removed epoll c p q
      × IsConsistent epoll q
remove_channel_keeps epoll p c v old =
    let own = v.registered c old in
    let (q, run, s) = removed_by epoll p v c own (p.channel c).index refl old in
    (q, run, s, removed-IsConsistent epoll p v c own q s)
