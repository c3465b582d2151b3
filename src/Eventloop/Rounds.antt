-- ===== src/Eventloop/Rounds.antt =====
-- eventloop.go: each round handles what was reported in it, and Loop ends when it is told to.
mod Tests
use mathlib.Core.Path.{subst}
use mathlib.Core.List.{Memᴰ}
use mathlib.Core.List.Memᴰ
use muduo_go.Prelude.{
  ℕ, ◌+◌, ◌≤◌, ◌≡◌, ◌≢◌, refl, sym, ap, ◌∙◌, Bool, true, false, List, [], ◌∷◌, ◌++◌, Option, none,
  some, if◌then◌else◌, Bool-cases, inl, inr, ◌||◌, ◌&&◌, not, Run, ok, panic, ◌>>=◌, Post,
  Post-bind, of_ok, length, arith, append_assoc,
}
use muduo_go.Events.{
  poll_in, poll_pri, poll_out, poll_err, poll_hup, poll_nval, poll_rdhup, has_bit,
}
use muduo_go.Channel.{Channel, handle_event, call_if}
use muduo_go.Poller.Polling.{
  Polling, WaitResult, events, poll_round, channels_of, NoneTwice, poll_round_lem,
}
use muduo_go.Eventloop.Looping.{
  Looping, stop, destroy, shutdown, channel_of, dispatch, run_all, run_pending_tasks, round, leave,
  rounds, loop,
}

-- The channels have the same revents.
abbrev pub SameRevents : {A K U : Type 0} → Looping A K U → Looping A K U → Type 0
SameRevents s t = (c : ℕ) → (channel_of t c).revents ≡ (channel_of s c).revents

bind_cong :
    {A B : Type 0} (r : Run A) (f g : A → Run B) (P : A → Type 0)
    → Post r P
    → ((a : A) → P a → f a ≡ g a)
    → (r >>= f) ≡ (r >>= g)
bind_cong (ok a) f g P p h = h a p
bind_cong panic f g P p h = refl

if_true : {A : Type 0} (b : Bool) (x y : A) → b ≡ true → (if b then x else y) ≡ x
if_true b x y e = ground arith

if_false : {A : Type 0} (b : Bool) (x y : A) → b ≡ false → (if b then x else y) ≡ y
if_false b x y e = ground arith

Post-implies :
    {A : Type 0} (r : Run A) (P Q : A → Type 0) → Post r P → ((a : A) → P a → Q a) → Post r Q
Post-implies (ok a) P Q p h = h a p
Post-implies panic P Q p h = tt

-- Each event in turn, with its own bits.
abbrev pub handle_reported :
    {A K U : Type 0}
    → (A → Looping A K U → Run (Looping A K U))
    → List (ℕ × ℕ)
    → Looping A K U
    → Run (Looping A K U)
handle_reported run [] s = ok s
handle_reported run ((c, r) ∷ es) s =
    handle_event run (record (channel_of s c) { revents = r }) s >>= λ t. handle_reported run es t

module _ {A K U : Type 0} (run : A → Looping A K U → Run (Looping A K U))
    (keeps : (cb : A) (s : Looping A K U) → Post (run cb s) (SameRevents s)) where
  call_if-SameRevents :
      (b : Bool) (cb : Option A) (o s : Looping A K U)
      → SameRevents o s
      → Post (call_if run b cb s) (SameRevents o)
  call_if-SameRevents false cb o s e = e
  call_if-SameRevents true none o s e = e
  call_if-SameRevents true (some cb) o s e =
      Post-implies (run cb s) (SameRevents s) (SameRevents o) (keeps cb s) (λ t f c. f c ∙ e c)

  then-SameRevents :
      (b : Bool) (cb : Option A) (f : Looping A K U → Run (Looping A K U)) (o s : Looping A K U)
      → SameRevents o s
      → ((t : Looping A K U) → SameRevents o t → Post (f t) (SameRevents o))
      → Post (call_if run b cb s >>= f) (SameRevents o)
  then-SameRevents b cb f o s e h =
      Post-bind (call_if run b cb s) f (SameRevents o) (SameRevents o)
        (call_if-SameRevents b cb o s e) h

  handle_event-SameRevents :
      (ch : Channel A) (s : Looping A K U) → Post (handle_event run ch s) (SameRevents s)
  unfolding handle_event
  handle_event-SameRevents ch s =
      let r = ch.revents in
      let close = has_bit poll_hup r && not (has_bit poll_in r) in
      let error = has_bit poll_err r || has_bit poll_nval r in
      let read = has_bit poll_in r || has_bit poll_pri r || has_bit poll_rdhup r in
      let write = has_bit poll_out r in
      then-SameRevents close ch.close_callback
        (λ s1. call_if run error ch.error_callback s1 >>= λ s2.
          call_if run read ch.read_callback s2 >>= λ s3. call_if run write ch.write_callback s3)
        s s (λ c. refl)
        (λ s1 e1.
          then-SameRevents error ch.error_callback
            (λ s2.
              call_if run read ch.read_callback s2 >>= λ s3. call_if run write ch.write_callback s3)
            s s1 e1
            (λ s2 e2.
              then-SameRevents read ch.read_callback (λ s3. call_if run write ch.write_callback s3)
                s s2 e2 (λ s3 e3. call_if-SameRevents write ch.write_callback s s3 e3)))

  -- The channels hold what was reported of them.
  abbrev pub Holds : List (ℕ × ℕ) → Looping A K U → Type 0
  Holds es s = (d q : ℕ) → Memᴰ (d, q) es → (channel_of s d).revents ≡ q

  dispatch-reported :
      (run_task : ℕ → Looping A K U → Run (Looping A K U)) (es : List (ℕ × ℕ)) (s : Looping A K U)
      → Holds es s
      → dispatch run run_task (channels_of es) s ≡ handle_reported run es s
  dispatch-reported run_task [] s h = refl
  dispatch-reported run_task ((c, r) ∷ es) s h =
      ap
        (λ q. handle_event run (record (channel_of s c) { revents = q }) s >>= λ t.
          dispatch run run_task (channels_of es) t)
        (h c r (Memᴰ.head refl))
      ∙ bind_cong (handle_event run (record (channel_of s c) { revents = r }) s)
          (λ t. dispatch run run_task (channels_of es) t) (λ t. handle_reported run es t)
          (SameRevents s) (handle_event-SameRevents _ s)
          (λ t e. dispatch-reported run_task es t (λ d q m. e d ∙ h d q (Memᴰ.tail m)))

  -- A round in which epoll_wait reports events of different channels, no more than the event list
  -- holds, when no callback writes the revents of a channel: the poll does not panic, and the round
  -- is to call handleEvent for each event in the order of the events, each time on the channel as
  -- it is then and with the bits reported in this round, and then to run the pending tasks.
  pub round-reported :
      (run_task : ℕ → Looping A K U → Run (Looping A K U)) (e : ℕ × ℕ) (es : List (ℕ × ℕ))
      (s : Looping A K U)
      → NoneTwice (e ∷ es)
      → length (e ∷ es) ≤ s.polling.event_list
      → (p : Polling A K) × (poll_round (events (e ∷ es)) s.polling ≡ ok p)
        × (round run run_task (events (e ∷ es)) s ≡ (
            handle_reported run (e ∷ es) (record s { polling = p })
            >>= run_pending_tasks run run_task))
  unfolding round
  round-reported run_task e es s n h =
      let (p, poll, active, seen, others) = poll_round_lem e es s.polling n h in
      let t = record s { polling = p } in
      let reports : Holds (e ∷ es) t = λ d q m. ap (λ (ch : Channel A). ch.revents) (seen d q m) in
      (p, poll, rw poll (rw active (rw (dispatch-reported run_task (e ∷ es) t reports) refl)))

module _ {A K U : Type 0} (run : A → Looping A K U → Run (Looping A K U))
    (run_task : ℕ → Looping A K U → Run (Looping A K U)) where
  -- Where the loop waits, it goes on.
  waits-append :
      (s t : Looping A K U) (r : Run (Looping A K U))
      → t.quit ≡ false
      → (if s.quit then ok (leave s) else r) ≡ ok t
      → (s.quit ≡ false) × (r ≡ ok t)
  unfolding leave destroy shutdown
  waits-append s t r on e = elim (Bool-cases s.quit) [
    | inl y ↦
        let same = of_ok (leave s) t (sym (if_true s.quit (ok (leave s)) r y) ∙ e) in
        absurd (ground (arith, ap (λ (x : Looping A K U). x.quit) same))
    | inr n ↦ (n, sym (if_false s.quit (ok (leave s)) r n) ∙ e)
  ]

  bind_after :
      (m : Run (Looping A K U)) (f g : Looping A K U → Run (Looping A K U)) (t : Looping A K U)
      (w : Run (Looping A K U))
      → (m >>= f) ≡ ok t
      → ((u : Looping A K U) → f u ≡ ok t → g u ≡ w)
      → (m >>= g) ≡ w
  bind_after (ok u) f g t w e h = h u e
  bind_after panic f g t w e h = cc

  ok_if : (b : Bool) (x y : Looping A K U) → (if b then ok x else ok y) ≡ (ok (if b then x else y))
  ok_if true x y = refl
  ok_if false x y = refl

  rounds-append :
      (rs more : List WaitResult) (s t : Looping A K U)
      → rounds run run_task rs s ≡ ok t
      → t.quit ≡ false
      → rounds run run_task (rs ++ more) s ≡ rounds run run_task more t
  rounds-append [] more s t e on =
      let (n, same) = waits-append s t (ok s) on (ok_if s.quit (leave s) s ∙ e) in
      ap (λ u. rounds run run_task more u) (of_ok s t same)
  rounds-append (r ∷ rs) more s t e on =
      let (n, rest) =
        waits-append s t (round run run_task r s >>= λ u. rounds run run_task rs u) on e in
      if_false s.quit (ok (leave s))
        (round run run_task r s >>= λ u. rounds run run_task (rs ++ more) u) n
      ∙ bind_after (round run run_task r s) (λ u. rounds run run_task rs u)
          (λ u. rounds run run_task (rs ++ more) u) t (rounds run run_task more t) rest
          (λ u f. rounds-append rs more u t f on)

  rounds-last :
      (more : List WaitResult) (u : Looping A K U)
      → u.quit ≡ true
      → rounds run run_task more u ≡ ok (leave u)
  rounds-last [] u off = rw off refl
  rounds-last (r ∷ more) u off = rw off refl

  -- When the loop waits after some rounds, and a callback or a task of the next one stops it, Loop
  -- ends after this round, in which the tasks that were pending were run: it is not looping then,
  -- it has closed the eventfd and then the timerfd, and no other descriptor besides those that were
  -- closed before, and it does not poll again, whatever there would be to report.
  pub loop-leaves :
      (rs more : List WaitResult) (r : WaitResult) (s t u : Looping A K U)
      → loop run run_task rs s ≡ ok t
      → t.quit ≡ false
      → round run run_task r t ≡ ok u
      → u.quit ≡ true
      → (loop run run_task (rs ++ r ∷ more) s ≡ ok (leave u))
        × ((leave u).looping ≡ false)
        × ((leave u).closed ≡ u.closed ++ u.evt_fd ∷ u.timer_fd ∷ [])
  unfolding loop leave destroy shutdown
  loop-leaves rs more r s t u e on run_round off = (
    rounds-append rs (r ∷ more) (record s { looping = true; quit = false }) t e on
        ∙ if_false t.quit (ok (leave t))
            (round run run_task r t >>= λ v. rounds run run_task more v) on
        ∙ ap (λ m. m >>= λ v. rounds run run_task more v) run_round
        ∙ rounds-last more u off,
    refl,
    append_assoc u.closed (u.evt_fd ∷ []) (u.timer_fd ∷ []),
  )

  -- A loop that is stopped before Loop is called starts all the same.
  loop-forgets_stop :
      (rs : List WaitResult) (s : Looping A K U)
      → loop run run_task rs (stop s) ≡ loop run run_task rs s
  unfolding loop stop
  loop-forgets_stop rs s = refl
