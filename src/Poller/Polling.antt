-- ===== src/Poller/Polling.antt =====
-- poller.go and eventloop.go: what epoll_wait reports, and the channels that are then active. The
-- pointer that an event carries is the channel's number. What epoll_wait(2) returns is an argument.
use mathlib.Core.Path.{subst}
use mathlib.Core.List.{Memᴰ}
use mathlib.Core.List.Memᴰ
use muduo_go.Prelude.{
  ℕ, ◌*◌, ◌≤◌, ◌≡◌, ◌≢◌, refl, sym, ap, ◌∙◌, List, [], ◌∷◌, ◌++◌, append_assoc, append-nil,
  if◌then◌else◌, Run, ok, ◌>>=◌, ◌>>◌, assert, leb, le→leb, ◌==◌, length, arith,
}
use muduo_go.Channel.{Channel}
use muduo_go.Poller.{Poller, update, update_self}

-- The events with their channels, or an error, which is EINTR or another one.
pub data WaitResult : Type 0 where
  events : List (ℕ × ℕ) → WaitResult
  interrupted failed : WaitResult

-- The poller with the length of its event list, and the loop's list of active channels.
pub record Polling (A K : Type 0) : Type 0 where
  pub poller : Poller A K
  pub event_list : ℕ
  pub active : List ℕ

module _ {A K : Type 0} where
  -- The body of the loop of fillActiveChannels.
  unfoldable pub activate : ℕ → ℕ → Polling A K → Polling A K
  activate c r w = record w {
    poller = record w.poller {
      channel = update w.poller.channel c (record (w.poller.channel c) { revents = r });
    };
    active = w.active ++ c ∷ [];
  }

  abbrev pub activate_all : List (ℕ × ℕ) → Polling A K → Polling A K
  activate_all [] w = w
  activate_all ((c, r) ∷ es) w = activate_all es (activate c r w)

  unfoldable pub fill_active_channels : List (ℕ × ℕ) → Polling A K → Run (Polling A K)
  fill_active_channels es w = do assert (leb (length es) w.event_list); ok (activate_all es w)

  abbrev pub grow : ℕ → Polling A K → Polling A K
  grow n w = if n == w.event_list then record w { event_list = w.event_list * 2 } else w

  unfoldable pub poll : WaitResult → Polling A K → Run (Polling A K)
  poll (events []) w = ok w
  poll (events (e ∷ es)) w = do t ← fill_active_channels (e ∷ es) w; ok (grow (length (e ∷ es)) t)
  poll interrupted w = ok w
  poll failed w = ok w

  -- `activeChannels.Init()` and `poll`, at the head of a round of Loop.
  unfoldable pub poll_round : WaitResult → Polling A K → Run (Polling A K)
  poll_round r w = poll r (record w { active = [] })

abbrev pub channels_of : List (ℕ × ℕ) → List ℕ
channels_of [] = []
channels_of ((c, r) ∷ es) = c ∷ channels_of es

-- No channel is reported twice.
abbrev pub NoneTwice : List (ℕ × ℕ) → Type 0
NoneTwice [] = Unit
NoneTwice ((c, r) ∷ es) = (¬ Memᴰ c (channels_of es)) × NoneTwice es

mem-channels_of : (es : List (ℕ × ℕ)) (d s : ℕ) → Memᴰ (d, s) es → Memᴰ d (channels_of es)
mem-channels_of [] d s m = elim m [ ]
mem-channels_of ((c, r) ∷ es) d s (Memᴰ.head e) = Memᴰ.head (ap (λ (x : ℕ × ℕ). x.0) e)
mem-channels_of ((c, r) ∷ es) d s (Memᴰ.tail m) = Memᴰ.tail (mem-channels_of es d s m)

module _ {A K : Type 0} where
  active-activate_all :
      (es : List (ℕ × ℕ)) (w : Polling A K)
      → (activate_all es w).active ≡ w.active ++ channels_of es
  unfolding activate
  active-activate_all [] w = sym (append-nil w.active)
  active-activate_all ((c, r) ∷ es) w =
      active-activate_all es (activate c r w) ∙ append_assoc w.active (c ∷ []) (channels_of es)

  event_list-activate_all :
      (es : List (ℕ × ℕ)) (w : Polling A K) → (activate_all es w).event_list ≡ w.event_list
  unfolding activate
  event_list-activate_all [] w = refl
  event_list-activate_all ((c, r) ∷ es) w = event_list-activate_all es (activate c r w)

  channel-activate :
      (c r d : ℕ) (w : Polling A K) → d ≢ c → (activate c r w).poller.channel d ≡ w.poller.channel d
  unfolding activate update
  channel-activate c r d w ne = ground arith

  channel-activate_all :
      (es : List (ℕ × ℕ)) (d : ℕ) (w : Polling A K)
      → ¬ Memᴰ d (channels_of es)
      → (activate_all es w).poller.channel d ≡ w.poller.channel d
  channel-activate_all [] d w no_event = refl
  channel-activate_all ((c, r) ∷ es) d w no_event =
      channel-activate_all es d (activate c r w) (λ m. no_event (Memᴰ.tail m))
      ∙ channel-activate c r d w (λ e. no_event (Memᴰ.head e))

  channel-activate_self :
      (c r : ℕ) (w : Polling A K)
      → (activate c r w).poller.channel c ≡ record (w.poller.channel c) { revents = r }
  unfolding activate
  channel-activate_self c r w =
      update_self w.poller.channel c (record (w.poller.channel c) { revents = r })

  reported :
      (es : List (ℕ × ℕ)) (d s : ℕ) (w : Polling A K)
      → NoneTwice es
      → Memᴰ (d, s) es
      → (activate_all es w).poller.channel d ≡ record (w.poller.channel d) { revents = s }
  reported [] d s w n m = elim m [ ]
  reported ((c, r) ∷ es) d s w (once, n) (Memᴰ.head e) =
      subst
        (λ (x : ℕ × ℕ).
          (activate_all es (activate c r w)).poller.channel x.0
          ≡ record (w.poller.channel x.0) { revents = x.1 })
        (sym e) (channel-activate_all es c (activate c r w) once ∙ channel-activate_self c r w)
  reported ((c, r) ∷ es) d s w (once, n) (Memᴰ.tail m) =
      reported es d s (activate c r w) n m
      ∙ ap (λ (ch : Channel A). record ch { revents = s })
          (channel-activate c r d w (λ e. once (Memᴰ.cast (sym e) (mem-channels_of es d s m))))

  channel-grow : (n : ℕ) (w : Polling A K) → (grow n w).poller ≡ w.poller
  channel-grow n w = ground arith

  active-grow : (n : ℕ) (w : Polling A K) → (grow n w).active ≡ w.active
  active-grow n w = ground arith

  -- When epoll_wait reports events of different channels, no more than the event list holds, the
  -- round's poll does not panic, the active channels are those of the events, in order, each has
  -- what was reported of it as its revents and all else as before, and the other channels stay.
  pub poll_round_lem :
      (e : ℕ × ℕ) (es : List (ℕ × ℕ)) (w : Polling A K)
      → NoneTwice (e ∷ es)
      → length (e ∷ es) ≤ w.event_list
      → (t : Polling A K) × (poll_round (events (e ∷ es)) w ≡ ok t)
        × (t.active ≡ channels_of (e ∷ es))
        × ((d s : ℕ)
            → Memᴰ (d, s) (e ∷ es)
            → t.poller.channel d ≡ record (w.poller.channel d) { revents = s })
        × ((d : ℕ) → ¬ Memᴰ d (channels_of (e ∷ es)) → t.poller.channel d ≡ w.poller.channel d)
  unfolding poll_round poll fill_active_channels
  poll_round_lem e es w n h =
      let v = record w { active = [] } in
      let t = activate_all (e ∷ es) v in
      let size = length (e ∷ es) in
      let same = channel-grow size t in
      (
        grow size t,
        rw (le→leb (length (e ∷ es)) w.event_list h) refl,
        active-grow size t ∙ active-activate_all (e ∷ es) v,
        (λ d s m. ap (λ q. q.channel d) same ∙ reported (e ∷ es) d s v n m),
        λ d m. ap (λ q. q.channel d) same ∙ channel-activate_all (e ∷ es) d v m,
      )
