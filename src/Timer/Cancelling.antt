-- ===== src/Timer/Cancelling.antt =====
-- timer.go: insertion and cancelling of a task.
use native.Mathlib.Decide.{dec_lt}
use muduo_go.Prelude.{
  ℕ, ◌≤◌, ◌<◌, ◌≡◌, refl, ◌∙◌, ◌==◌, arith, ok, true, false, ltb, length, get_or, Bool, count, pos,
}
use muduo_go.Timer.{Heap, expire_of, push, insert, cancel, mark_canceled, remove}
use muduo_go.Timer.Swap.{keys, load-ok}
use muduo_go.Timer.Queue.{IsHeap, Gains, Loses, push_lem}
use muduo_go.Timer.Expired.{earliest, entry_of, first_count}
use muduo_go.Timer.Removing.{remove_lem}

insert_empty :
    (a : ℕ) (h g : Heap) → ¬ 0 < length h.tasks → push a h ≡ ok g → insert a h ≡ ok (true, g)
unfolding insert
insert_empty a h g e run = ground (arith, run)

insert_some :
    (a : ℕ) (h g : Heap)
    → 0 < length h.tasks
    → push a h ≡ ok g
    → insert a h ≡ ok (ltb (expire_of h a) (keys h 0), g)
unfolding insert
insert_some a h g p run =
    let some : (length h.tasks == 0) ≡ false = ground arith in rw (some, load-ok 0 h p, run) refl

-- Inserting a task that does not wait into a heap in order returns a heap in order with that task
-- and the others, and whether the task expires before all the others.
pub insert_lem :
    (a : ℕ) (h : Heap)
    → IsHeap h
    → count a h.tasks ≡ 0
    → (first : Bool) × (g : Heap) × (insert a h ≡ ok (first, g))
      × Gains a h g
      × (first ≡ true → (b : ℕ) → 0 < count b h.tasks → expire_of h a < expire_of h b)
      × (first ≡ false → (b : ℕ) × (0 < count b h.tasks) × (expire_of h b ≤ expire_of h a))
insert_lem a h v z =
    let (g, run, w) = push_lem a h v z in
    elim (dec_lt 0 (length h.tasks)) [
      | no empty ↦ (
        true,
        g,
        insert_empty a h g empty run,
        w,
        (λ e b p. let (c, q, d) = entry_of b h.tasks p in absurd (omega arith)),
        (λ e. ground arith),
      )
      | yes some ↦ (
        ltb (expire_of h a) (keys h 0),
        g,
        insert_some a h g some run,
        w,
        (λ e b p. ground (arith, earliest h v b p)),
        (λ e. (get_or h.tasks 0 0, first_count h.tasks some, ground arith)),
      )
    ]

module _ (a : ℕ) (h : Heap) where
  pub mark-IsHeap : IsHeap h → IsHeap (mark_canceled a h)
  unfolding mark_canceled
  mark-IsHeap v = record {
    ordered = λ c p q. ground (arith, v.ordered c);
    indexed = λ c p. ground (arith, v.indexed c);
  }

  pub index-mark_canceled : (b : ℕ) → ((mark_canceled a h).task b).index ≡ (h.task b).index
  unfolding mark_canceled
  index-mark_canceled b = ground arith

cancel-remove :
    (a i b : ℕ) (h g : Heap)
    → ((mark_canceled a h).task a).index ≡ pos i
    → 0 < i
    → remove i (mark_canceled a h) ≡ ok (b, g)
    → cancel a h ≡ ok g
unfolding cancel
cancel-remove a i b h g e p run = rw (e, run) (ground arith)

-- Cancelling a task of a heap in order that waits behind the first one takes exactly it out, leaves
-- a heap in order, and marks it.
pub cancel_lem :
    (i : ℕ) (h : Heap)
    → IsHeap h
    → 0 < i
    → i < length h.tasks
    → (g : Heap) × (cancel (get_or h.tasks i 0) h ≡ ok g)
      × Loses (get_or h.tasks i 0) (mark_canceled (get_or h.tasks i 0) h) g
unfolding mark_canceled
cancel_lem i h v p q =
    let a = get_or h.tasks i 0 in
    let (g, run, l) = remove_lem i (mark_canceled a h) (mark-IsHeap a h v) q in
    let e : ((mark_canceled a h).task a).index ≡ pos i =
      index-mark_canceled a h a ∙ v.indexed i q in
    (g, cancel-remove a i a h g e p run, l)
