-- ===== src/Eventloop/Callbacks.antt =====
-- eventloop.go and timer.go: what the calls of the scheduling functions, also by the callbacks of
-- the timers, leave as it was.
use native.Mathlib.Decide.{ℕ_discrete}
use muduo_go.Prelude.{
  ℕ, ◌+◌, ◌<◌, ◌≤◌, ◌≡◌, refl, ap, ◌∙◌, Bool, List, [], ◌∷◌, ◌++◌, ok, Run, ◌>>=◌, count,
  count-append, ℤ, pos, arith, Bool-cases, inl, inr,
}
use muduo_go.Timer.Swap.{core}
use muduo_go.Timer.Rounds.{new_timer_task, add_duration}
use muduo_go.Timer.Rearming.{new_timer_task-IsTimed}
use muduo_go.Timer.Adding.{add_task}
use muduo_go.Eventloop.Scheduling.{
  Closure, add_later, cancel_later, TimerQueue, reset_timer_fd, make, async_execute, add_timer,
  schedule, schedule_delay, schedule_at_fix_rate, async_schedule, async_schedule_delay,
  async_schedule_at_fix_rate, cancel_task, Use, do_schedule, do_schedule_delay,
  do_schedule_at_fix_rate, do_async_schedule, do_async_schedule_delay,
  do_async_schedule_at_fix_rate, do_cancel, run_use, run_uses, run_tasks,
}
use muduo_go.Eventloop.Alarm.{IsSound, adds, make-IsSound, add-IsSound}

adds-append : (cs ds : List Closure) → adds (cs ++ ds) ≡ adds cs ++ adds ds
adds-append [] ds = refl
adds-append (add_later a ∷ cs) ds = ap (λ xs. a ∷ xs) (adds-append cs ds)
adds-append (cancel_later a ∷ cs) ds = adds-append cs ds

count-adds :
    (b : ℕ) (cs : List Closure) (c : Closure)
    → count b (adds (cs ++ c ∷ [])) ≡ count b (adds cs) + count b (adds (c ∷ []))
count-adds b cs c =
    ap (count b) (adds-append cs (c ∷ [])) ∙ count-append b (adds cs) (adds (c ∷ []))

pub count-adds_first :
    (b : ℕ) (c : Closure) (rest cs : List Closure)
    → cs ≡ c ∷ rest
    → count b (adds cs) ≡ count b (adds (c ∷ [])) + count b (adds rest)
count-adds_first b c rest cs e =
    ap (λ ds. count b (adds ds)) e
    ∙ (ap (count b) (adds-append (c ∷ []) rest) ∙ count-append b (adds (c ∷ [])) (adds rest))

-- `p` has the tasks that were made before `q` as `q` has them.
pub record Extends (q p : TimerQueue) : Type 0 where
  pub made : q.made ≤ p.made
  pub tasks : (b : ℕ) → b < q.made → count b p.heap.tasks ≡ count b q.heap.tasks
  pub cores : (b : ℕ) → b < q.made → core (p.heap.task b) ≡ core (q.heap.task b)

Extends-refl : (q : TimerQueue) → Extends q q
Extends-refl q = record { made = omega arith; tasks = λ b p. refl; cores = λ b p. refl }

Extends-trans : (q p r : TimerQueue) → Extends q p → Extends p r → Extends q r
Extends-trans q p r v w = record {
  made = omega (arith, v.made, w.made);
  tasks = λ b l. w.tasks b (omega (arith, v.made)) ∙ v.tasks b l;
  cores = λ b l. w.cores b (omega (arith, v.made)) ∙ v.cores b l;
}

-- A closure may be given to AsyncExecute.
module _ (expired : List ℕ) (mid : Bool) where
  post_add-IsSound :
      (a : ℕ) (q : TimerQueue)
      → a < q.made
      → count a q.heap.tasks + count a (adds q.pending_tasks) + count a expired ≡ 0
      → IsSound expired mid q
      → IsSound expired mid (async_execute (add_later a) q)
  post_add-IsSound a q old z v = record {
    heap = v.heap;
    idle = v.idle;
    timed = v.timed;
    once = λ b. elim (ℕ_discrete a b) [
      | yes e ↦ ground (
        arith,
        count-adds b q.pending_tasks (add_later a),
        ap (λ x. count x q.heap.tasks + count x (adds q.pending_tasks) + count x expired) e,
        z,
      )
      | no ne ↦ ground (arith, count-adds b q.pending_tasks (add_later a), v.once b)
    ];
    unmade = λ b y. ground (arith, count-adds b q.pending_tasks (add_later a), v.unmade b y);
    charged = v.charged;
  }

  post_cancel-IsSound :
      (a : ℕ) (q : TimerQueue)
      → IsSound expired mid q
      → IsSound expired mid (async_execute (cancel_later a) q)
  post_cancel-IsSound a q v = record {
    heap = v.heap;
    idle = v.idle;
    timed = v.timed;
    once = λ b. omega (arith, count-adds b q.pending_tasks (cancel_later a), v.once b);
    unmade = λ b y. omega (arith, count-adds b q.pending_tasks (cancel_later a), v.unmade b y);
    charged = v.charged;
  }

  -- A call that does not panic, and what it leaves.
  abbrev pub Succeeds : TimerQueue → Run TimerQueue → Type 0
  Succeeds q r = (p : TimerQueue) × (r ≡ ok p) × IsSound expired mid p × Extends q p

  module _ (t : ℕ) (i : ℤ) (q : TimerQueue) (v : IsSound expired mid q) where
    abbrev made : TimerQueue
    made = make (new_timer_task t i) q

    made-IsSound : IsSound expired mid made
    unfolding new_timer_task
    made-IsSound =
        make-IsSound expired mid (new_timer_task t i) q refl (new_timer_task-IsTimed t i) v

    absent :
        count q.made q.heap.tasks + count q.made (adds q.pending_tasks) + count q.made expired ≡ 0
    absent = v.unmade q.made (omega arith)

    core-made : (b : ℕ) → b < q.made → core (made.heap.task b) ≡ core (q.heap.task b)
    core-made b l = ground arith

    add_timer-Succeeds : (now : ℕ) → Succeeds q (add_timer t i now q)
    unfolding add_timer add_task
    add_timer-Succeeds now =
        let (alarm, h, run, w, u) =
          add-IsSound expired mid q.made now made made-IsSound (omega arith) absent in
        (
          reset_timer_fd now alarm h made,
          rw run refl,
          u,
          record {
            made = omega arith;
            tasks = λ b l. ground (arith, w.tasks b);
            cores = λ b l. w.cores b ∙ core-made b l;
          },
        )

    later-Succeeds : Succeeds q (ok (async_execute (add_later q.made) made))
    later-Succeeds = (
      _,
      refl,
      post_add-IsSound q.made made (omega arith) absent made-IsSound,
      record { made = omega arith; tasks = λ b l. refl; cores = core-made },
    )

  pub run_use-Succeeds :
      (u : Use) (now : ℕ) (q : TimerQueue) → IsSound expired mid q → Succeeds q (run_use u now q)
  unfolding run_use schedule schedule_delay schedule_at_fix_rate async_schedule async_schedule_delay
      async_schedule_at_fix_rate cancel_task
  run_use-Succeeds (do_schedule t) now q v = add_timer-Succeeds t (pos 0) q v now
  run_use-Succeeds (do_schedule_delay d t) now q v =
      add_timer-Succeeds (add_duration t d) (pos 0) q v now
  run_use-Succeeds (do_schedule_at_fix_rate d t) now q v =
      add_timer-Succeeds (add_duration t d) d q v now
  run_use-Succeeds (do_async_schedule t) now q v = later-Succeeds t (pos 0) q v
  run_use-Succeeds (do_async_schedule_delay d t) now q v =
      later-Succeeds (add_duration t d) (pos 0) q v
  run_use-Succeeds (do_async_schedule_at_fix_rate d t) now q v =
      later-Succeeds (add_duration t d) d q v
  run_use-Succeeds (do_cancel a) now q v = (
    _,
    refl,
    post_cancel-IsSound a q v,
    record { made = omega arith; tasks = λ b l. refl; cores = λ b l. refl },
  )

  -- One after the other.
  then-Succeeds :
      (q : TimerQueue) (r : Run TimerQueue) (f : TimerQueue → Run TimerQueue)
      → Succeeds q r
      → ((p : TimerQueue) → IsSound expired mid p → Succeeds p (f p))
      → Succeeds q (r >>= f)
  then-Succeeds q r f (p, run, v, e) h =
      let (s, runs, w, g) = h p v in (s, rw run runs, w, Extends-trans q p s e g)

  run_uses-Succeeds :
      (us : List (Use × ℕ)) (q : TimerQueue) → IsSound expired mid q → Succeeds q (run_uses us q)
  run_uses-Succeeds [] q v = (q, refl, v, Extends-refl q)
  run_uses-Succeeds ((u, now) ∷ us) q v =
      then-Succeeds q (run_use u now q) (λ p. run_uses us p) (run_use-Succeeds u now q v)
        (λ p w. run_uses-Succeeds us p w)

  pub run_tasks-Succeeds :
      (calls : ℕ → List (Use × ℕ)) (rest : List ℕ) (q : TimerQueue)
      → IsSound expired mid q
      → Succeeds q (run_tasks calls rest q)
  run_tasks-Succeeds calls [] q v = (q, refl, v, Extends-refl q)
  run_tasks-Succeeds calls (a ∷ rest) q v = elim (Bool-cases (q.heap.task a).canceled) [
    | inl e ↦ let (p, run, w, x) = run_tasks-Succeeds calls rest q v in (p, rw e run, w, x)
    | inr e ↦
        let (p, run, w, x) =
          then-Succeeds q (run_uses (calls a) q) (λ p. run_tasks calls rest p)
            (run_uses-Succeeds (calls a) q v) (λ p w. run_tasks-Succeeds calls rest p w) in
        (p, rw e run, w, x)
  ]
