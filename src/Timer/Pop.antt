-- ===== src/Timer/Pop.antt =====
-- timer.go: heap.Pop takes the earliest task out.
use muduo_go.Prelude.{
  ℕ, suc, ◌-◌, ◌≤◌, ◌<◌, ◌≡◌, refl, sym, ◌∙◌, ◌==◌, arith, ok, panic, false, ltb, ◌>>=◌, length,
  get_or, Run, Bool,
}
use muduo_go.Timer.{Heap, parent, down, down_loop, pop, pop_last}
use muduo_go.Timer.Keys.{Sinking, first_least}
use muduo_go.Timer.Swap.{
  keys, Shuffled, traded, swap-ok, keys-traded, traded-Shuffled, entry-traded,
}
use muduo_go.Timer.Sift.{SiftedDown, down_loop_restores}
use muduo_go.Timer.Queue.{IsHeap, Loses, pop_last_lem}

down_then :
    (r : Run (ℕ × Heap))
    → ◌>>=◌ {A = Bool × Heap} (r >>= λ x. ok (ltb 0 x.0, x.1)) (λ x. pop_last x.1)
      ≡ (r >>= λ x. pop_last x.1)
down_then (ok x) = refl
down_then panic = refl

module _ (n : ℕ) (h : Heap) (v : IsHeap h) (size : length h.tasks ≡ suc n) where
  in_first : 0 < length h.tasks
  in_first = omega arith

  in_last : n < length h.tasks
  in_last = omega arith

  abbrev front_last : Heap
  front_last = traded 0 n h in_first in_last

  first_last-Sinking : Sinking n (keys front_last) 0
  first_last-Sinking = record {
    edges = λ c p q ne. ground (
      arith,
      v.ordered c,
      keys-traded 0 n h in_first in_last c,
      keys-traded 0 n h in_first in_last (parent c),
    );
    bridge = λ c p q e r. absurd (omega arith);
  }

  pop-down : pop h ≡ (down_loop (suc n) 0 n front_last >>= λ r. pop_last r.1)
  unfolding pop down
  pop-down =
      let last : length h.tasks - 1 ≡ n = omega arith in
      let some : (length h.tasks == 0) ≡ false = ground arith in
      rw (some, last, swap-ok 0 n h in_first in_last) (down_then (down_loop (suc n) 0 n front_last))

  abbrev Popped : Run (ℕ × Heap) → Type 0
  Popped r = (g : Heap) × (r ≡ ok (get_or h.tasks 0 0, g)) × Loses (get_or h.tasks 0 0) h g

  last_taken :
      (r : Run (ℕ × Heap)) (e : ℕ) (g : Heap)
      → r ≡ ok (e, g)
      → Shuffled n front_last g
      → Shuffled (suc n) h front_last
      → get_or g.tasks n 0 ≡ get_or h.tasks 0 0
      → (f : Heap) × (pop_last g ≡ ok (get_or g.tasks n 0, f)) × Loses (get_or g.tasks n 0) g f
      → Popped (r >>= λ x. pop_last x.1)
  last_taken r e g run s t top (f, out, l) = (
    f,
    rw run (out ∙ rw top refl),
    record {
      heap = l.heap;
      size = sym t.size ∙ sym s.size ∙ l.size;
      tasks = λ b. sym (t.same b) ∙ sym (s.same b) ∙ l.tasks b ∙ rw top refl;
      cores = λ b. l.cores b ∙ s.cores b ∙ t.cores b;
      idle = λ i. l.idle (s.idle (t.idle i));
    },
  )

  take_last : (r : Run (ℕ × Heap)) → SiftedDown n front_last r → Popped (r >>= λ x. pop_last x.1)
  take_last r (e, g, run, s, o) =
      let t = traded-Shuffled 0 n h in_first in_last (suc n) (omega arith) (omega arith) in
      let top : get_or g.tasks n 0 ≡ get_or h.tasks 0 0 =
        ground (arith, s.beyond n, entry-traded 0 n h in_first in_last n) in
      last_taken r e g run s t top
        (pop_last_lem n g (s.size ∙ t.size ∙ size) o (s.indexed (t.indexed v.indexed)))

  pop_some : Popped (pop h)
  pop_some =
      let t = traded-Shuffled 0 n h in_first in_last (suc n) (omega arith) (omega arith) in
      rw pop-down (
        take_last (down_loop (suc n) 0 n front_last) (
          down_loop_restores (suc n) 0 n front_last (omega arith) (omega arith)
            (omega (arith, t.size)) first_last-Sinking))

pub first_earliest : (h : Heap) → IsHeap h → (c : ℕ) → c < length h.tasks → keys h 0 ≤ keys h c
first_earliest h v c p = first_least (length h.tasks) c (keys h) v.ordered p

-- heap.Pop on a heap in order that is not empty returns its first task, before which none of the
-- waiting tasks expires, and leaves a heap in order with the other tasks.
pub pop_lem :
    (h : Heap)
    → IsHeap h
    → 0 < length h.tasks
    → (g : Heap) × (pop h ≡ ok (get_or h.tasks 0 0, g))
      × Loses (get_or h.tasks 0 0) h g
      × ((c : ℕ) → c < length h.tasks → keys h 0 ≤ keys h c)
pop_lem h v p =
    let (g, run, l) = pop_some (length h.tasks - 1) h v (omega arith) in
    (g, run, l, first_earliest h v)
