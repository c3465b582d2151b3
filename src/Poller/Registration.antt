-- ===== src/Poller/Registration.antt =====
-- poller.go: the map, the `index` of the channels and the kernel's interest set agree.
use muduo_go.Prelude.{
  Bool-cases, ==_iff, Option-cases, ◌⊎◌, inl, inr, ℕ, ◌≡◌, ◌≢◌, refl, ◌∙◌, ap, false, Option, none,
  some, if◌then◌else◌, ok, ◌==◌, arith, ==_self,
}
use muduo_go.Channel.{Channel, ChannelIndex, channel_new, channel_add, channel_del}
use muduo_go.Poller.{
  CtlOp, ctl_add, ctl_mod, ctl_del, Poller, update, update_channel, update_events, update_self,
}

-- What epoll_ctl(2) documents: each descriptor of the interest set has a mask; ADD wants a
-- descriptor outside the set, MOD and DEL want one inside it, and none of them touches another.
pub record Epoll (K : Type 0) : Type 0 where
  pub ctl : CtlOp → ℕ → ℕ → K → K
  pub interest : K → ℕ → Option ℕ
  pub add_lem :
      (fd e : ℕ) (k : K)
      → interest k fd ≡ none
      → (j : ℕ) → interest (ctl ctl_add fd e k) j ≡ (if j == fd then some e else interest k j)
  pub mod_lem :
      (fd e old : ℕ) (k : K)
      → interest k fd ≡ some old
      → (j : ℕ) → interest (ctl ctl_mod fd e k) j ≡ (if j == fd then some e else interest k j)
  pub del_lem :
      (fd e old : ℕ) (k : K)
      → interest k fd ≡ some old
      → (j : ℕ) → interest (ctl ctl_del fd e k) j ≡ (if j == fd then none else interest k j)

-- The mask that a channel asks the kernel for.
abbrev pub wanted : ChannelIndex → ℕ → Option ℕ
wanted channel_add e = some e
wanted _ e = none

-- The index that an update of the events leads to.
abbrev pub next_index : ChannelIndex → ℕ → ChannelIndex
next_index channel_add e = if e == 0 then channel_del else channel_add
next_index _ e = channel_add

pub next_index-ne : (i : ChannelIndex) (e : ℕ) → next_index i e ≢ channel_new
next_index-ne channel_add e = ground arith
next_index-ne channel_new e = λ h. cc
next_index-ne channel_del e = λ h. cc

pub ChannelIndex-cases : (i : ChannelIndex) → (i ≡ channel_new) ⊎ (i ≢ channel_new)
ChannelIndex-cases channel_new = inl refl
ChannelIndex-cases channel_add = inr (λ h. cc)
ChannelIndex-cases channel_del = inr (λ h. cc)

module _ {A K : Type 0} (epoll : Epoll K) where
  abbrev pub wanted_at : Poller A K → Option ℕ → Option ℕ
  wanted_at p none = none
  wanted_at p (some c) = wanted (p.channel c).index (p.channel c).events

  pub record IsConsistent (p : Poller A K) : Type 0 where
    pub mapped :
        (fd c : ℕ)
        → p.channel_map fd ≡ some c
        → ((p.channel c).fd ≡ fd) × ((p.channel c).index ≢ channel_new)
    pub registered :
        (c : ℕ) → (p.channel c).index ≢ channel_new → p.channel_map (p.channel c).fd ≡ some c
    pub watched : (fd : ℕ) → epoll.interest p.kernel fd ≡ wanted_at p (p.channel_map fd)

  -- `q` is `p` with channel `c` in the map, its events and index set, and the kernel told.
  pub record Settled (c e : ℕ) (i : ChannelIndex) (p q : Poller A K) : Type 0 where
    pub channels :
        (d : ℕ)
        → q.channel d
          ≡ (if d == c then record (p.channel c) { events = e; index = i } else p.channel d)
    pub map :
        (f : ℕ) → q.channel_map f ≡ (if f == (p.channel c).fd then some c else p.channel_map f)
    pub interests :
        (f : ℕ)
        → epoll.interest q.kernel f
          ≡ (if f == (p.channel c).fd then wanted i e else epoll.interest p.kernel f)

  module _ (p : Poller A K) (v : IsConsistent p) (c e : ℕ) where
    abbrev IsFree : Type 0
    IsFree = (p.channel c).index ≡ channel_new → p.channel_map (p.channel c).fd ≡ none

    -- The descriptor of `c` belongs to no other channel.
    owner : IsFree → (d : ℕ) → p.channel_map (p.channel c).fd ≡ some d → d ≡ c
    owner free d h = elim (ChannelIndex-cases (p.channel c).index) [
      | inl new ↦ absurd (cc (free new))
      | inr old ↦ cc (v.registered c old)
    ]

    module _ (i : ChannelIndex) (q : Poller A K) (ne : i ≢ channel_new) (free : IsFree)
        (s : Settled c e i p q) where
      settled_mapped :
          (f d : ℕ)
          → q.channel_map f ≡ some d
          → ((q.channel d).fd ≡ f) × ((q.channel d).index ≢ channel_new)
      settled_mapped f d h = ground (arith, s.map f, s.channels d, v.mapped f d)

      settled_registered :
          (d : ℕ) → (q.channel d).index ≢ channel_new → q.channel_map (q.channel d).fd ≡ some d
      settled_registered d h =
          ground (arith, s.map (q.channel d).fd, s.channels d, v.registered d, owner free d)

      settled_watched : (f : ℕ) → epoll.interest q.kernel f ≡ wanted_at q (q.channel_map f)
      settled_watched f = elim (Option-cases (p.channel_map f)) [
        | inl n ↦ ground (arith, s.map f, s.interests f, s.channels c, v.watched f)
        | inr (d, h) ↦
            ground (
              arith,
              s.map f,
              s.interests f,
              s.channels c,
              s.channels d,
              v.watched f,
              v.mapped f d h,
            )
      ]

      settled-IsConsistent : IsConsistent q
      settled-IsConsistent = record {
        mapped = settled_mapped;
        registered = settled_registered;
        watched = settled_watched;
      }

    abbrev ch : Channel A
    ch = record (p.channel c) { events = e }

    -- The state after a call that sets the index to `i`.
    abbrev moved : ChannelIndex → (ℕ → Option ℕ) → K → Poller A K
    moved i m k = record {
      channel = update (update p.channel c ch) c (record ch { index = i });
      channel_map = m;
      kernel = k;
    }

    -- The three values of `idx`. The calls of the kernel are those that its laws allow.
    updated_new :
        (p.channel c).index ≡ channel_new
        → IsFree
        → (q : Poller A K) × (update_events epoll.ctl e c p ≡ ok q) × Settled c e channel_add p q
    updated_new new free = (
      moved channel_add (update p.channel_map ch.fd (some c))
          (epoll.ctl ctl_add ch.fd ch.events p.kernel),
      (unfold update_events update_channel in simp (update_self, new, free new)),
      record {
        channels = λ d. unfold update in ground arith;
        map = λ f. unfold update in ground arith;
        interests =
            λ f. epoll.add_lem ch.fd e p.kernel (v.watched ch.fd ∙ ap (wanted_at p) (free new)) f;
      },
    )

    own : (p.channel c).index ≢ channel_new → p.channel_map ch.fd ≡ some c
    own old = v.registered c old

    interest_at :
        (p.channel c).index ≢ channel_new
        → epoll.interest p.kernel ch.fd ≡ wanted (p.channel c).index (p.channel c).events
    interest_at old = v.watched ch.fd ∙ ap (wanted_at p) (own old)

    updated_del :
        (p.channel c).index ≡ channel_del
        → (q : Poller A K) × (update_events epoll.ctl e c p ≡ ok q) × Settled c e channel_add p q
    updated_del del =
        let old : (p.channel c).index ≢ channel_new = λ h. cc in
        (
          moved channel_add p.channel_map (epoll.ctl ctl_add ch.fd ch.events p.kernel),
          (unfold update_events update_channel in simp (update_self, del, own old, ==_self)),
          record {
            channels = λ d. unfold update in ground arith;
            map = λ f. ground (arith, own old);
            interests = λ f.
                epoll.add_lem ch.fd e p.kernel
                  (interest_at old ∙ ap (λ i. wanted i (p.channel c).events) del) f;
          },
        )

    updated_drop :
        (p.channel c).index ≡ channel_add
        → e ≡ 0
        → (q : Poller A K) × (update_events epoll.ctl e c p ≡ ok q) × Settled c e channel_del p q
    updated_drop add empty =
        let old : (p.channel c).index ≢ channel_new = λ h. cc in
        (
          moved channel_del p.channel_map (epoll.ctl ctl_del ch.fd ch.events p.kernel),
          (unfold update_events update_channel in simp (update_self, add, own old, ==_self, empty)),
          record {
            channels = λ d. unfold update in ground arith;
            map = λ f. ground (arith, own old);
            interests = λ f.
                epoll.del_lem ch.fd e (p.channel c).events p.kernel
                  (interest_at old ∙ ap (λ i. wanted i (p.channel c).events) add) f;
          },
        )

    updated_mod :
        (p.channel c).index ≡ channel_add
        → (e == 0) ≡ false
        → (q : Poller A K) × (update_events epoll.ctl e c p ≡ ok q) × Settled c e channel_add p q
    updated_mod add some_event =
        let old : (p.channel c).index ≢ channel_new = λ h. cc in
        (
          record {
            channel = update p.channel c ch;
            channel_map = p.channel_map;
            kernel = epoll.ctl ctl_mod ch.fd ch.events p.kernel;
          },
          (unfold update_events update_channel in
              simp (update_self, add, own old, ==_self, some_event)),
          record {
            channels = λ d. unfold update in ground arith;
            map = λ f. ground (arith, own old);
            interests = λ f.
                epoll.mod_lem ch.fd e (p.channel c).events p.kernel
                  (interest_at old ∙ ap (λ i. wanted i (p.channel c).events) add) f;
          },
        )

module _ {A K : Type 0} (epoll : Epoll K) (p : Poller A K) (v : IsConsistent epoll p) (c e : ℕ)
    (free : IsFree epoll p v c e) where
  abbrev Updated : ChannelIndex → Type 0
  Updated i =
      (q : Poller A K) × (update_events epoll.ctl e c p ≡ ok q)
      × Settled epoll c e (next_index i e) p q

  Updated-by : (i : ChannelIndex) → (p.channel c).index ≡ i → Updated i
  Updated-by channel_new h = updated_new epoll p v c e h free
  Updated-by channel_del h = updated_del epoll p v c e h
  Updated-by channel_add h = elim (Bool-cases (e == 0)) [
    | inl none_event ↦ rw none_event (updated_drop epoll p v c e h ((==_iff e 0).0 none_event))
    | inr some_event ↦ rw some_event (updated_mod epoll p v c e h some_event)
  ]

-- From a consistent poller, setting the events of channel `c` to `e` and calling `updateChannel`
-- does not panic, if `c` is in the map or no channel with its descriptor is. It leaves a consistent
-- poller that differs only in `c`: `c` is in the map with events `e`, its index is channelDel if it
-- was channelAdd and `e` is 0, and channelAdd otherwise, and the kernel's interest in its
-- descriptor is `e` at channelAdd and none at channelDel.
pub update_events_keeps :
    {A K : Type 0} (epoll : Epoll K) (p : Poller A K) (v : IsConsistent epoll p) (c e : ℕ)
    → ((p.channel c).index ≡ channel_new → p.channel_map (p.channel c).fd ≡ none)
    → (q : Poller A K) × (update_events epoll.ctl e c p ≡ ok q)
      × Settled epoll c e (next_index (p.channel c).index e) p q
      × IsConsistent epoll q
update_events_keeps epoll p v c e free =
    let (q, run, s) = Updated-by epoll p v c e free (p.channel c).index refl in
    (
      q,
      run,
      s,
      settled-IsConsistent epoll p v c e (next_index (p.channel c).index e) q (next_index-ne _ e)
          free s,
    )
