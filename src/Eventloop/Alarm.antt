-- ===== src/Eventloop/Alarm.antt =====
-- eventloop.go and timer.go: the timers of a loop never panic, and none is forgotten.
use native.Mathlib.Decide.{dec_lt}
use muduo_go.Prelude.{
  ℕ, suc, ◌+◌, ◌<◌, ◌≤◌, ◌≡◌, true, Option, none, some, List, [], ◌∷◌, ok, length, get_or, count,
  Bool, false, refl, sym, ◌∙◌, pos, negsuc, arith, Bool-cases, inl, inr, ◌==◌,
}
use muduo_go.Timer.{TimerTask, Heap, cancel}
use muduo_go.Timer.Swap.{keys, IsIdle, expire-core}
use muduo_go.Timer.Queue.{IsHeap, Gains}
use muduo_go.Timer.Expired.{Splits, earliest, first_count, entry_of}
use muduo_go.Timer.Rounds.{set_task, next_alarm, alarm-set, alarm-zero, alarm-none}
use muduo_go.Timer.Rearming.{IsTimed, IsTimed-core, expire-kept, waits_or_later, restored-IsTimed}
use muduo_go.Timer.Repeating.{Restored, set_task-IsHeap, keys-set_task}
use muduo_go.Timer.Adding.{add_task0, add_task0_lem}
use muduo_go.Timer.Marking.{cancel-Cancels}
use muduo_go.Eventloop.Scheduling.{
  Closure, add_later, cancel_later, TimerQueue, set_alarm, latest, reset_timer_fd, make,
}
use muduo_go.Eventloop.Charging.{
  IsCharged, latest-le, IsCharged-keeps, IsCharged-empty, IsCharged-armed, IsCharged-covered,
}

-- The tasks that are to be added.
abbrev pub adds : List Closure → List ℕ
adds [] = []
adds (add_later a ∷ cs) = a ∷ adds cs
adds (cancel_later a ∷ cs) = adds cs

-- The state between two steps, or in the midst of handleRead, where the `expired` tasks are out of
-- the heap and the descriptor counts only if reset is to leave it as it is.
pub record IsSound (expired : List ℕ) (mid : Bool) (q : TimerQueue) : Type 0 where
  pub heap : IsHeap q.heap
  pub idle : IsIdle q.heap
  pub timed : IsTimed q.heap
  pub once : (b : ℕ) → count b q.heap.tasks + count b (adds q.pending_tasks) + count b expired ≤ 1
  pub unmade :
      (b : ℕ)
      → q.made ≤ b
      → count b q.heap.tasks + count b (adds q.pending_tasks) + count b expired ≡ 0
  pub charged : (mid ≡ true → keys q.heap 0 ≡ 0) → IsCharged q.clock q.heap q.alarm

-- newTimerTask.
pub make-IsSound :
    (expired : List ℕ) (mid : Bool) (x : TimerTask) (q : TimerQueue)
    → x.index ≡ negsuc 0
    → (x.repeats ≡ true → (n : ℕ) × (x.interval ≡ pos (suc n)))
    → IsSound expired mid q
    → IsSound expired mid (make x q)
make-IsSound expired mid x q i timed v =
    let z : count q.made q.heap.tasks ≡ 0 = omega (arith, v.unmade q.made (omega arith)) in
    record {
      heap = set_task-IsHeap q.made x q.heap z v.heap;
      idle = λ b y. ground (arith, v.idle b y, i);
      timed = λ b e. elim (Bool-cases (b == q.made)) [
        | inl y ↦ let (n, j) = timed (ground arith) in (n, ground (arith, j))
        | inr y ↦ let (n, j) = v.timed b (ground arith) in (n, ground (arith, j))
      ];
      once = v.once;
      unmade = λ b y. v.unmade b (omega arith);
      charged = λ m. elim (dec_lt 0 (length q.heap.tasks)) [
        | yes p ↦
            let same = keys-set_task q.made x q.heap z 0 p in
            IsCharged-keeps q.clock q.clock q.heap (set_task q.made x q.heap) q.alarm (omega arith)
              (λ r. (p, same)) (v.charged (λ e. sym same ∙ m e))
        | no p ↦ IsCharged-empty q.clock (set_task q.made x q.heap) q.alarm (omega arith)
      ];
    }

pub add-IsSound :
    (expired : List ℕ) (mid : Bool) (a now : ℕ) (q : TimerQueue)
    → IsSound expired mid q
    → a < q.made
    → count a q.heap.tasks + count a (adds q.pending_tasks) + count a expired ≡ 0
    → (alarm : Option ℕ) × (h : Heap) × (add_task0 a now q.heap ≡ ok (alarm, h))
      × Gains a q.heap h
      × IsSound expired mid (reset_timer_fd now alarm h q)
add-IsSound expired mid a now q v made z =
    let (alarm, h, run, w, covered) = add_task0_lem a now q.heap v.heap (omega arith) in
    let (old, new) = latest-le q.clock now in
    (
      alarm,
      h,
      run,
      w,
      record {
        heap = w.heap;
        idle = w.idle v.idle;
        timed = IsTimed-core q.heap h w.cores v.timed;
        once = λ b. ground (arith, v.once b, w.tasks b);
        unmade = λ b y. ground (arith, v.unmade b y, w.tasks b);
        charged =
            IsCharged-covered mid a q.clock now (latest q.clock now) q.heap h alarm q.alarm v.heap
              old new w covered v.charged;
      },
    )

pub cancel-IsSound :
    (a now : ℕ) (q : TimerQueue)
    → IsSound [] false q
    → (h : Heap) × (cancel a q.heap ≡ ok h) × IsSound [] false (reset_timer_fd now none h q)
cancel-IsSound a now q v =
    let (h, run, w) = cancel-Cancels a q.heap v.heap v.idle in
    let (old, new) = latest-le q.clock now in
    (
      h,
      run,
      record {
        heap = w.heap;
        idle = w.idle v.idle;
        timed = w.timed v.timed;
        once = λ b. omega (arith, v.once b, w.tasks b);
        unmade = λ b y. omega (arith, v.unmade b y, w.tasks b);
        charged = λ m.
            IsCharged-keeps q.clock (latest q.clock now) q.heap h q.alarm old w.first
              (v.charged (λ e. ground arith));
      },
    )

-- getAndRemoveExpired, at the head of handleRead.
pub expired-IsSound :
    (now : ℕ) (q : TimerQueue) (expired : List ℕ) (g : Heap)
    → IsSound [] false q
    → Splits now q.heap expired g
    → IsSound expired true (record q { heap = g })
expired-IsSound now q expired g v w = record {
  heap = w.heap;
  idle = w.idle v.idle;
  timed = IsTimed-core q.heap g w.cores v.timed;
  once = λ b. omega (arith, v.once b, w.tasks b);
  unmade = λ b y. omega (arith, v.unmade b y, w.tasks b);
  charged = λ m. elim (dec_lt 0 (length g.tasks)) [
    | yes p ↦
        let top = get_or g.tasks 0 0 in
        absurd (
          omega (
            arith,
            m refl,
            w.later top (first_count g.tasks p),
            expire-core (g.task top) (q.heap.task top) (w.cores top),
          ))
    | no p ↦ IsCharged-empty q.clock g q.alarm (omega arith)
  ];
}

-- The end of handleRead, when `f` is what reset_tasks leaves.
module _ (now later : ℕ) (q : TimerQueue) (expired : List ℕ) (f : Heap) (v : IsSound expired true q)
    (s : Restored now q.heap expired f) where
  alone : (b : ℕ) → count b q.heap.tasks + count b expired ≤ 1
  alone b = omega (arith, v.once b)

  -- A first task at time 0 was there before.
  zero_waits : 0 < length f.tasks → keys f 0 ≡ 0 → (0 < length q.heap.tasks) × (keys q.heap 0 ≡ 0)
  zero_waits p e =
      let top = get_or f.tasks 0 0 in
      elim (waits_or_later now q.heap f expired v.timed s alone top (first_count f.tasks p)) [
        | inl r ↦
            let (c, n, _) = entry_of top q.heap.tasks r in
            (
              omega arith,
              omega (
                arith,
                earliest q.heap v.heap top r,
                expire-kept now q.heap f expired v.timed s alone top r,
              ),
            )
        | inr r ↦ absurd (omega arith)
      ]

  reset-IsCharged :
      (alarm : Option ℕ) × (next_alarm later f ≡ ok alarm)
      × IsCharged (latest q.clock later) f (set_alarm later alarm q.alarm)
  reset-IsCharged =
      let top = latest q.clock later in
      let (old, new) = latest-le q.clock later in
      elim (dec_lt 0 (length f.tasks)) [
        | no p ↦ (none, alarm-none later f p, IsCharged-empty top f q.alarm (omega arith))
        | yes p ↦ elim (dec_lt 0 (keys f 0)) [
          | yes r ↦
              let (d, run, low, high) = alarm-set later f p r in
              (some d, run, IsCharged-armed later top f (some d) q.alarm new (p, low, high))
          | no r ↦
              let e : keys f 0 ≡ 0 = omega arith in
              let (waits, zero) = zero_waits p e in
              (
                none,
                alarm-zero later f p e,
                IsCharged-keeps q.clock top q.heap f q.alarm old (λ x. (waits, e ∙ sym zero))
                    (v.charged (λ x. zero)),
              )
        ]
      ]

  reset-IsSound :
      (alarm : Option ℕ)
      → IsCharged (latest q.clock later) f (set_alarm later alarm q.alarm)
      → IsSound [] false (reset_timer_fd later alarm f q)
  reset-IsSound alarm c = record {
    heap = s.heap;
    idle = s.idle v.idle;
    timed = restored-IsTimed now q.heap f expired v.timed s alone;
    once = λ b. ground (arith, v.once b, s.tasks b);
    unmade = λ b y. ground (arith, v.unmade b y, s.tasks b);
    charged = λ m. c;
  }

  pub restored-IsSound :
      (alarm : Option ℕ) × (next_alarm later f ≡ ok alarm)
      × IsSound [] false (reset_timer_fd later alarm f q)
  restored-IsSound = let (alarm, run, c) = reset-IsCharged in (alarm, run, reset-IsSound alarm c)
