-- ===== src/Eventloop/Deadlines.antt =====
-- eventloop.go and timer.go: what holds of the timers of a loop in every state that it reaches.
mod Tests
use mathlib.Core.Path.{subst}
use muduo_go.Prelude.{
  ℕ, ◌+◌, ◌<◌, ◌≤◌, ◌≡◌, refl, sym, ap, ◌∙◌, Option, none, some, List, [], ◌∷◌, ok, Run, ◌>>=◌,
  length, count, true, false, arith, of_ok, inl, inr, pos,
}
use muduo_go.Timer.{Heap, expire_of, get_and_remove_expired}
use muduo_go.Timer.Swap.{core, keys, expire-core}
use muduo_go.Timer.Expired.{Splits, earliest, get_and_remove_expired_lem}
use muduo_go.Timer.Rounds.{new_timer_task, reset_tasks, next_alarm, reset-tasks}
use muduo_go.Timer.Repeating.{Restored, reset_tasks-restores}
use muduo_go.Timer.Rearming.{expire-kept, waits_or_later}
use muduo_go.Eventloop.Scheduling.{
  Closure, add_later, cancel_later, TimerQueue, new_timer_queue, reset_timer_fd, run_closure,
  run_front, run_first, run_tasks, read_timer, Use, Call, do_use, do_run_first, do_read_timer,
  run_call,
}
use muduo_go.Eventloop.Alarm.{
  IsSound, adds, add-IsSound, cancel-IsSound, expired-IsSound, restored-IsSound,
}
use muduo_go.Eventloop.Charging.{IsCharged}
use muduo_go.Eventloop.Callbacks.{Extends, count-adds_first, run_use-Succeeds, run_tasks-Succeeds}

pub data Reach (q : TimerQueue) : TimerQueue → Type 0 where
  here : Reach q q
  next : {p r : TimerQueue} → Reach q p → (c : Call) (now : ℕ) → run_call c now p ≡ ok r → Reach q r

-- Between two steps.
abbrev IsReady : TimerQueue → Type 0
IsReady q = IsSound [] false q

new_timer_queue-IsReady : IsReady new_timer_queue
unfolding new_timer_queue new_timer_task
new_timer_queue-IsReady = record {
  heap = record { ordered = λ c p q. absurd (omega arith); indexed = λ c p. absurd (omega arith) };
  idle = λ b z. refl;
  timed = λ b e. ground arith;
  once = λ b. omega arith;
  unmade = λ b z. refl;
  charged = λ m. refl;
}

-- Without its first closure.
rest-IsReady :
    (c : Closure) (rest : List Closure) (q : TimerQueue)
    → q.pending_tasks ≡ c ∷ rest
    → IsReady q
    → IsReady (record q { pending_tasks = rest })
rest-IsReady c rest q e v = record {
  heap = v.heap;
  idle = v.idle;
  timed = v.timed;
  once = λ b. omega (arith, v.once b, count-adds_first b c rest q.pending_tasks e);
  unmade = λ b z. omega (arith, v.unmade b z, count-adds_first b c rest q.pending_tasks e);
  charged = v.charged;
}

abbrev Returns : Run TimerQueue → Type 0
Returns r = (p : TimerQueue) × (r ≡ ok p) × IsReady p

run_closure-Returns :
    (c : Closure) (rest : List Closure) (now : ℕ) (q : TimerQueue)
    → q.pending_tasks ≡ c ∷ rest
    → IsReady q
    → Returns (run_closure c now (record q { pending_tasks = rest }))
unfolding run_closure
run_closure-Returns (add_later a) rest now q e v =
    let p = record q { pending_tasks = rest } in
    let fewer = count-adds_first a (add_later a) rest q.pending_tasks e in
    let (alarm, h, run, _, w) =
      add-IsSound [] false a now p (rest-IsReady (add_later a) rest q e v)
        (ground (arith, v.unmade a, fewer)) (ground (arith, v.once a, fewer)) in
    (reset_timer_fd now alarm h p, rw run refl, w)
run_closure-Returns (cancel_later a) rest now q e v =
    let p = record q { pending_tasks = rest } in
    let (h, run, w) = cancel-IsSound a now p (rest-IsReady (cancel_later a) rest q e v) in
    (reset_timer_fd now none h p, rw run refl, w)

run_front-Returns :
    (cs : List Closure) (now : ℕ) (q : TimerQueue)
    → q.pending_tasks ≡ cs
    → IsReady q
    → Returns (run_front cs now q)
run_front-Returns [] now q e v = (q, refl, v)
run_front-Returns (c ∷ rest) now q e v = run_closure-Returns c rest now q e v

-- What handleRead does: `p` is the queue after the callbacks.
pub record Reads (calls : ℕ → List (Use × ℕ)) (now : ℕ) (q : TimerQueue) (expired : List ℕ)
    (g : Heap) (p r : TimerQueue) : Type 0 where
  pub splits : Splits now q.heap expired g
  pub callbacks : run_tasks calls expired (record q { heap = g }) ≡ ok p
  pub extends : Extends (record q { heap = g }) p
  pub restored : Restored now p.heap expired r.heap
  pub later : (b : ℕ) → b < q.made → 0 < count b r.heap.tasks → now < expire_of r.heap b

abbrev ReadsSoundly : (ℕ → List (Use × ℕ)) → ℕ → ℕ → TimerQueue → Type 0
ReadsSoundly calls now later q =
    (expired : List ℕ) × (g : Heap) × (p r : TimerQueue) × (read_timer calls now later q ≡ ok r)
    × Reads calls now q expired g p r
    × IsReady r

read_timer-Reads :
    (calls : ℕ → List (Use × ℕ)) (now later : ℕ) (q : TimerQueue)
    → IsReady q
    → ReadsSoundly calls now later q
unfolding read_timer
read_timer-Reads calls now later q v =
    let (expired, g, run, w) = get_and_remove_expired_lem now q.heap v.heap in
    let start = record q { heap = g } in
    let (p, runs, u, x) =
      run_tasks-Succeeds expired true calls expired start (expired-IsSound now q expired g v w) in
    let (f, resets, s) =
      reset_tasks-restores now expired p.heap u.heap (λ b. omega (arith, u.once b))
        (λ b l. omega (arith, u.once b)) in
    let (alarm, sets, y) = restored-IsSound now later p expired f u s in
    let alone : (b : ℕ) → count b p.heap.tasks + count b expired ≤ 1 =
      λ b. omega (arith, u.once b) in
    (
      expired,
      g,
      p,
      reset_timer_fd later alarm f p,
      rw run (rw runs (rw (reset-tasks now later p.heap f expired alarm resets sets) refl)),
      record {
        splits = w;
        callbacks = runs;
        extends = x;
        restored = s;
        later = λ b l n. elim (waits_or_later now p.heap f expired u.timed s alone b n) [
          | inr late ↦ late
          | inl waits ↦ omega (
            arith,
            w.later b (omega (arith, x.tasks b l)),
            expire-kept now p.heap f expired u.timed s alone b waits,
            expire-core (p.heap.task b) (g.task b) (x.cores b l),
            expire-core (g.task b) (q.heap.task b) (w.cores b),
          )
        ];
      },
      y,
    )

run_call-Returns : (c : Call) (now : ℕ) (q : TimerQueue) → IsReady q → Returns (run_call c now q)
unfolding run_call run_first
run_call-Returns (do_use u) now q v =
    let (p, run, w, _) = run_use-Succeeds [] false u now q v in (p, run, w)
run_call-Returns do_run_first now q v = run_front-Returns q.pending_tasks now q refl v
run_call-Returns (do_read_timer calls later) now q v =
    let (_, _, _, r, run, _, w) = read_timer-Reads calls now later q v in (r, run, w)

Reach-IsReady : {q p : TimerQueue} → Reach q p → IsReady q → IsReady p
Reach-IsReady here v = v
Reach-IsReady (next {p} {r} s c now run) v =
    let (d, runs, w) = run_call-Returns c now p (Reach-IsReady s v) in
    subst (λ x. IsReady x) (of_ok d r (sym runs ∙ run)) w

-- In every state of the timers of a new loop, each call of Schedule, ScheduleDelay,
-- ScheduleAtFixRate, their asynchronous forms and Cancel, each closure of theirs that the loop
-- runs, and each handleRead, whichever of these functions the callbacks of the timers call,
-- succeeds without a panic, whatever times are read. No task waits twice, or waits while a closure
-- is to add it.
pub calls_succeed :
    {q : TimerQueue}
    → Reach new_timer_queue q
    → (c : Call) (now : ℕ)
    → (p : TimerQueue) × (run_call c now q ≡ ok p)
      × ((b : ℕ) → count b p.heap.tasks + count b (adds p.pending_tasks) ≤ 1)
calls_succeed {q} r c now =
    let (p, run, v) = run_call-Returns c now q (Reach-IsReady r new_timer_queue-IsReady) in
    (p, run, λ b. omega (arith, v.once b))

charged_for :
    (now : ℕ) (h : Heap) (alarm : Option ℕ)
    → 0 < length h.tasks
    → IsCharged now h alarm
    → (d : ℕ) × (alarm ≡ some d) × (keys h 0 ≤ d) × (keys h 0 < d → d ≤ now + 100_000)
charged_for now h none p c = absurd (omega arith)
charged_for now h (some d) p c = let (low, high) = c p in (d, refl, low, high)

-- In every state of the timers of a new loop in which a task waits, the callbacks of the timers
-- being free to use them too, the descriptor was last set for a time at which the first task is
-- due, no other task being due before it, and that time is the first task's own or at most 100
-- microseconds after the latest time that resetTimerFd has read: no waiting task is forgotten.
pub no_lost_alarm :
    {q : TimerQueue}
    → Reach new_timer_queue q
    → 0 < length q.heap.tasks
    → (d : ℕ) × (q.alarm ≡ some d)
      × (keys q.heap 0 ≤ d)
      × (keys q.heap 0 < d → d ≤ q.clock + 100_000)
      × ((b : ℕ) → 0 < count b q.heap.tasks → keys q.heap 0 ≤ expire_of q.heap b)
no_lost_alarm {q} r p =
    let v = Reach-IsReady r new_timer_queue-IsReady in
    let (d, e, low, high) = charged_for q.clock q.heap q.alarm p (v.charged (λ m. ground arith)) in
    (d, e, low, high, earliest q.heap v.heap)
