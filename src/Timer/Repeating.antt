-- ===== src/Timer/Repeating.antt =====
-- timer.go: the tasks that repeat go back into the queue.
use native.Mathlib.Decide.{dec_lt, ℕ_discrete}
use mathlib.Core.Path.{subst}
use muduo_go.Prelude.{
  ℕ, suc, ◌+◌, ◌<◌, ◌≤◌, ◌≡◌, ◌≢◌, refl, sym, ap, ◌∙◌, Bool, true, false, not, ◌&&◌, if◌then◌else◌,
  Bool-cases, inl, inr, List, [], ◌∷◌, ok, ltb, length, get_or, count, arith,
}
use muduo_go.Timer.{parent, TimerTask, Heap, insert}
use muduo_go.Timer.Swap.{IsIdle, absent_entry, core, keys}
use muduo_go.Timer.Queue.{IsHeap, Gains}
use muduo_go.Timer.Expired.{entry_of}
use muduo_go.Timer.Cancelling.{insert_lem}
use muduo_go.Timer.Rounds.{restart, set_task, reset_tasks}

-- Whether `reset` puts a task back.
unfoldable pub again : TimerTask → Bool
again x = x.repeats && not x.canceled

-- A task as `reset` leaves it, which stands `n` times among the expired ones.
abbrev pub restarted : ℕ → ℕ → TimerTask → TimerTask
restarted t n x = record x {
  expire = if ltb 0 n && again x then (restart t x).expire else x.expire;
}

-- `f` has the waiting tasks of `g` and those of `expired` that repeat and are not cancelled, the
-- latter with their new times.
pub record Restored (t : ℕ) (g : Heap) (expired : List ℕ) (f : Heap) : Type 0 where
  pub heap : IsHeap f
  pub tasks :
      (b : ℕ)
      → count b f.tasks ≡ count b g.tasks + (if again (g.task b) then count b expired else 0)
  pub cores : (b : ℕ) → core (f.task b) ≡ core (restarted t (count b expired) (g.task b))
  pub idle : IsIdle g → IsIdle f

-- An entry that stands at one place only.
count_once :
    (b : ℕ) (xs : List ℕ)
    → ((c d : ℕ) → c < length xs → d < length xs → get_or xs c 0 ≡ b → get_or xs d 0 ≡ b → c ≡ d)
    → count b xs ≤ 1
count_once b [] u = omega arith
count_once b (x ∷ xs) u =
    let others =
      count_once b xs
        (λ c d p q e f. omega (arith, u (suc c) (suc d) (omega arith) (omega arith) e f)) in
    elim (ℕ_discrete x b) [
      | yes e ↦ elim (dec_lt 0 (count b xs)) [
        | yes p ↦
            let (c, q, f) = entry_of b xs p in
            absurd (omega (arith, u 0 (suc c) (omega arith) (omega arith) e f))
        | no p ↦ ground arith
      ]
      | no ne ↦ ground arith
    ]

module _ (a : ℕ) (x : TimerTask) (h : Heap) (z : count a h.tasks ≡ 0) where
  task-set_task :
      (c : ℕ)
      → c < length h.tasks
      → (set_task a x h).task (get_or h.tasks c 0) ≡ h.task (get_or h.tasks c 0)
  task-set_task c p = ground (arith, absent_entry a h.tasks c z p)

  pub keys-set_task : (c : ℕ) → c < length h.tasks → keys (set_task a x h) c ≡ keys h c
  keys-set_task c p = ap (λ (y : TimerTask). y.expire) (task-set_task c p)

  -- A task that does not wait may change.
  pub set_task-IsHeap : IsHeap h → IsHeap (set_task a x h)
  set_task-IsHeap v = record {
    ordered = λ c p q.
        omega (arith, v.ordered c p q, keys-set_task c q, keys-set_task (parent c) (omega arith));
    indexed = λ c p. rw (task-set_task c p) (v.indexed c p);
  }

-- A task and its restart depend on nothing but its core.
again-core : (x y : TimerTask) → core x ≡ core y → again x ≡ again y
unfolding again
again-core x y e = ap (λ (z : TimerTask). again z) e

core-restarted :
    (t n : ℕ) (x y : TimerTask) → core x ≡ core y → core (restarted t n x) ≡ core (restarted t n y)
unfolding restart again
core-restarted t n x y e = ap (restarted t n) e

-- The task that goes back, and the loop on the tasks behind it.
module _ (t a : ℕ) (rest : List ℕ) (g : Heap) where
  abbrev moved : Heap
  moved = set_task a (restart t (g.task a)) g

  reset_tasks-again :
      (first : Bool) (f r : Heap)
      → again (g.task a) ≡ true
      → insert a moved ≡ ok (first, f)
      → reset_tasks rest t f ≡ ok r
      → reset_tasks (a ∷ rest) t g ≡ ok r
  unfolding reset_tasks again
  reset_tasks-again first f r e p q = rw (e, p) q

  reset_tasks-skip :
      (r : Heap)
      → again (g.task a) ≡ false
      → reset_tasks rest t g ≡ ok r
      → reset_tasks (a ∷ rest) t g ≡ ok r
  unfolding reset_tasks again
  reset_tasks-skip r e p = rw e p

  moved-IsIdle : IsIdle g → IsIdle moved
  unfolding restart
  moved-IsIdle i b z = ground (arith, i b z)

  again-moved : (f : Heap) → Gains a moved f → (b : ℕ) → again (f.task b) ≡ again (g.task b)
  unfolding again restart
  again-moved f w b = again-core (f.task b) (moved.task b) (w.cores b) ∙ ground arith

  -- The task itself, and the others.
  core-moved : again (g.task a) ≡ true → core (moved.task a) ≡ core (restarted t 1 (g.task a))
  unfolding again restart
  core-moved e = ground arith

  core-unmoved : (b : ℕ) → a ≢ b → core (moved.task b) ≡ core (g.task b)
  core-unmoved b ne = ground arith

  again_self :
      (f : Heap)
      → again (g.task a) ≡ true
      → count a rest ≡ 0
      → Gains a moved f
      → (b : ℕ) → a ≡ b
      → core (restarted t (count b rest) (f.task b))
        ≡ core (restarted t (count b (a ∷ rest)) (g.task b))
  again_self f e z w b same =
      let one : count a (a ∷ rest) ≡ 1 = ground arith in
      subst
        (λ b.
          core (restarted t (count b rest) (f.task b))
          ≡ core (restarted t (count b (a ∷ rest)) (g.task b)))
        same
        (ap (λ n. core (restarted t n (f.task a))) z
          ∙ (w.cores a ∙ core-moved e)
          ∙ sym (ap (λ n. core (restarted t n (g.task a))) one))

  again-other :
      (f : Heap)
      → Gains a moved f
      → (b : ℕ) → a ≢ b
      → core (restarted t (count b rest) (f.task b))
        ≡ core (restarted t (count b (a ∷ rest)) (g.task b))
  again-other f w b ne =
      core-restarted t (count b rest) (f.task b) (g.task b) (w.cores b ∙ core-unmoved b ne)
      ∙ ground arith

  Restored-again :
      (f r : Heap)
      → again (g.task a) ≡ true
      → count a rest ≡ 0
      → Gains a moved f
      → Restored t f rest r
      → Restored t g (a ∷ rest) r
  Restored-again f r e z w s = record {
    heap = s.heap;
    tasks = λ b. ground (arith, s.tasks b, w.tasks b, again-moved f w b);
    idle = λ i. s.idle (w.idle (moved-IsIdle i));
    cores = λ b. s.cores b ∙ (elim (ℕ_discrete a b) [
      | yes same ↦ again_self f e z w b same
      | no ne ↦ again-other f w b ne
    ]);
  }

  Restored-skip :
      (r : Heap) → again (g.task a) ≡ false → Restored t g rest r → Restored t g (a ∷ rest) r
  Restored-skip r e s = record {
    heap = s.heap;
    tasks = λ b. ground (arith, s.tasks b);
    cores = λ b. s.cores b ∙ ground arith;
    idle = s.idle;
  }

pub reset_tasks-restores :
    (t : ℕ) (expired : List ℕ) (g : Heap)
    → IsHeap g
    → ((b : ℕ) → count b expired ≤ 1)
    → ((b : ℕ) → 0 < count b expired → count b g.tasks ≡ 0)
    → (f : Heap) × (reset_tasks expired t g ≡ ok f) × Restored t g expired f
unfolding reset_tasks
reset_tasks-restores t [] g v u d =
    (g, refl, record { heap = v; tasks = λ b. ground arith; cores = λ b. refl; idle = λ i. i })
reset_tasks-restores t (a ∷ rest) g v u d = elim (Bool-cases (again (g.task a))) [
  | inl e ↦
      let z : count a g.tasks ≡ 0 = d a (ground arith) in
      let (first, f, run, w, _, _) =
        insert_lem a (moved t a rest g) (set_task-IsHeap a _ g z v) z in
      let (r, runs, s) =
        reset_tasks-restores t rest f w.heap (λ b. ground (arith, u b))
          (λ b p. ground (arith, u b, d b, w.tasks b)) in
      let once : count a rest ≡ 0 = ground (arith, u a) in
      (
        r,
        reset_tasks-again t a rest g first f r e run runs,
        Restored-again t a rest g f r e once w s,
      )
  | inr e ↦
      let (r, runs, s) =
        reset_tasks-restores t rest g v (λ b. ground (arith, u b)) (λ b p. d b (ground arith)) in
      (r, reset_tasks-skip t a rest g r e runs, Restored-skip t a rest g r e s)
]
