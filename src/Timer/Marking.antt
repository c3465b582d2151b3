-- ===== src/Timer/Marking.antt =====
-- timer.go: the closure of `cancel` on any task.
use native.Mathlib.Decide.{dec_lt}
use mathlib.Core.Path.{subst}
use muduo_go.Prelude.{
  ℕ, zero, suc, ◌<◌, ◌≤◌, ◌≡◌, ◌≢◌, refl, sym, ap, ◌∙◌, true, false, pos_part, ok, length, get_or,
  count, arith,
}
use muduo_go.Timer.{TimerTask, Heap, expire_of, cancel, mark_canceled, is_positive}
use muduo_go.Timer.Swap.{keys, IsIdle, expire-core}
use muduo_go.Timer.Queue.{IsHeap, Loses}
use muduo_go.Timer.Expired.{entry_of, earliest, first_count}
use muduo_go.Timer.Cancelling.{mark-IsHeap, index-mark_canceled, cancel_lem}
use muduo_go.Timer.Rearming.{IsTimed, IsTimed-core}

-- The time of the first task.
pub first_key :
    (g : Heap) (k b : ℕ)
    → IsHeap g
    → 0 < count b g.tasks
    → expire_of g b ≡ k
    → ((c : ℕ) → 0 < count c g.tasks → k ≤ expire_of g c)
    → keys g 0 ≡ k
first_key g k b v p e least =
    let (c, q, _) = entry_of b g.tasks p in
    omega (arith, earliest g v b p, least (get_or g.tasks 0 0) (first_count g.tasks (omega arith)))

-- What a cancelled task leaves: no other tasks, and the first one stays.
pub record Cancels (a : ℕ) (h g : Heap) : Type 0 where
  pub heap : IsHeap g
  pub tasks : (b : ℕ) → count b g.tasks ≤ count b h.tasks
  pub others : (b : ℕ) → b ≢ a → count b g.tasks ≡ count b h.tasks
  pub idle : IsIdle h → IsIdle g
  pub timed : IsTimed h → IsTimed g
  pub first : 0 < length g.tasks → (0 < length h.tasks) × (keys g 0 ≡ keys h 0)
  pub marked : ((g.task a).canceled ≡ true) × ((g.task a).repeats ≡ false)

module _ (a : ℕ) (h : Heap) where
  IsTimed-mark_canceled : IsTimed h → IsTimed (mark_canceled a h)
  unfolding mark_canceled
  IsTimed-mark_canceled timed b e = let (n, i) = timed b (ground arith) in (n, ground (arith, i))

  expire-mark_canceled : (b : ℕ) → expire_of (mark_canceled a h) b ≡ expire_of h b
  unfolding mark_canceled
  expire-mark_canceled b = ground arith

  marks : ((mark_canceled a h).task a).canceled ≡ true
  unfolding mark_canceled
  marks = ground arith

  unrepeats : ((mark_canceled a h).task a).repeats ≡ false
  unfolding mark_canceled
  unrepeats = ground arith

  tasks-mark_canceled : (mark_canceled a h).tasks ≡ h.tasks
  unfolding mark_canceled
  tasks-mark_canceled = refl

  -- A task without a positive index is only marked.
  cancel-mark : is_positive (h.task a).index ≡ false → cancel a h ≡ ok (mark_canceled a h)
  unfolding cancel mark_canceled
  cancel-mark e = ground arith

  mark-Cancels : IsHeap h → Cancels a h (mark_canceled a h)
  unfolding mark_canceled
  mark-Cancels v = record {
    heap = mark-IsHeap a h v;
    tasks = λ b. omega arith;
    others = λ b ne. refl;
    idle = λ i b z. index-mark_canceled a h b ∙ i b z;
    timed = IsTimed-mark_canceled;
    first = λ p. (p, expire-mark_canceled (get_or h.tasks 0 0));
    marked = (marks, unrepeats);
  }

  Loses-Cancels :
      (g : Heap)
      → IsHeap h
      → get_or h.tasks 0 0 ≢ a
      → 0 < length h.tasks
      → Loses a (mark_canceled a h) g
      → Cancels a h g
  unfolding mark_canceled
  Loses-Cancels g v ne p l = record {
    heap = l.heap;
    tasks = λ b. omega (arith, l.tasks b);
    others = λ b other. ground (arith, l.tasks b);
    idle = λ i. l.idle (λ b z. index-mark_canceled a h b ∙ i b z);
    timed = λ timed. IsTimed-core (mark_canceled a h) g l.cores (IsTimed-mark_canceled timed);
    first = λ q. (
      p,
      first_key g (keys h 0) (get_or h.tasks 0 0) l.heap
          (ground (arith, l.tasks (get_or h.tasks 0 0), first_count h.tasks p))
          (expire-core (g.task (get_or h.tasks 0 0)) ((mark_canceled a h).task (get_or h.tasks 0 0))
              (l.cores (get_or h.tasks 0 0))
            ∙ expire-mark_canceled (get_or h.tasks 0 0))
          (λ c r. omega (
            arith,
            earliest h v c (omega (arith, l.tasks c)),
            expire-mark_canceled c,
            expire-core (g.task c) ((mark_canceled a h).task c) (l.cores c),
          )),
    );
    marked = (
      ap (λ (x : TimerTask). x.canceled) (l.cores a) ∙ marks,
      ap (λ (x : TimerTask). x.repeats) (l.cores a) ∙ unrepeats,
    );
  }

-- A task that waits, at the front or behind.
cancel-waits :
    (c : ℕ) (h : Heap)
    → IsHeap h
    → c < length h.tasks
    → (g : Heap) × (cancel (get_or h.tasks c 0) h ≡ ok g) × Cancels (get_or h.tasks c 0) h g
cancel-waits zero h v q =
    let a = get_or h.tasks 0 0 in
    (mark_canceled a h, cancel-mark a h (ap is_positive (v.indexed 0 q)), mark-Cancels a h v)
cancel-waits (suc c) h v q =
    let a = get_or h.tasks (suc c) 0 in
    let (g, run, l) = cancel_lem (suc c) h v (omega arith) q in
    let behind : get_or h.tasks 0 0 ≢ a = λ e. omega (
      arith,
      ap pos_part
          (sym (v.indexed 0 (omega arith)) ∙ ap (λ x. (h.task x).index) e ∙ v.indexed (suc c) q),
    ) in
    (g, run, Loses-Cancels a h g v behind (omega arith) l)

-- The closure of cancel does not panic, and leaves the tasks in order, marks the one, and takes at
-- most it out, and not the first.
pub cancel-Cancels :
    (a : ℕ) (h : Heap) → IsHeap h → IsIdle h → (g : Heap) × (cancel a h ≡ ok g) × Cancels a h g
cancel-Cancels a h v idle = elim (dec_lt 0 (count a h.tasks)) [
  | no p ↦ (
    mark_canceled a h,
    cancel-mark a h (ap is_positive (idle a (omega arith))),
    mark-Cancels a h v,
  )
  | yes p ↦
      let (c, q, e) = entry_of a h.tasks p in
      subst (λ a. (g : Heap) × (cancel a h ≡ ok g) × Cancels a h g) e (cancel-waits c h v q)
]
