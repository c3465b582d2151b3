-- ===== src/Timer/Removing.antt =====
-- timer.go: heap.Remove takes out the task at an index.
use native.Mathlib.Decide.{dec_lt, ℕ_discrete}
use mathlib.Core.Path.{subst}
use muduo_go.Prelude.{
  ℕ, zero, suc, ◌+◌, ◌-◌, ◌*◌, ◌≤◌, ◌<◌, ◌≡◌, ◌≢◌, refl, sym, ◌∙◌, if◌then◌else◌, ◌==◌, arith, ok,
  true, false, ltb, ◌>>=◌, length, get_or, Run, Bool,
}
use muduo_go.Timer.{Heap, parent, up, up_loop, down, down_loop, remove, pop_last}
use muduo_go.Timer.Keys.{Ordered, Sinking, Rising}
use muduo_go.Timer.Swap.{
  keys, Shuffled, Shuffled-trans, traded, swap-ok, keys-traded, traded-Shuffled, entry-traded,
}
use muduo_go.Timer.Sift.{
  Sifted, down_loop_restores, up_loop_restores, SmallerChild-ok, down_leaf, down_stop,
}
use muduo_go.Timer.Queue.{IsHeap, Loses, pop_last_lem}

-- The heap order but for the entry `i`, whose children are not before its parent.
pub record Loose (n : ℕ) (k : ℕ → ℕ) (i : ℕ) : Type 0 where
  pub edges : (c : ℕ) → 0 < c → c < n → c ≢ i → parent c ≢ i → k (parent c) ≤ k c
  pub bridge : (c : ℕ) → 0 < c → c < n → parent c ≡ i → 0 < i → k (parent i) ≤ k c

Loose-Sinking : (n i : ℕ) (k : ℕ → ℕ) → Loose n k i → (0 < i → k (parent i) ≤ k i) → Sinking n k i
Loose-Sinking n i k v top = record {
  edges = λ c p q ne. elim (ℕ_discrete c i) [
    | yes e ↦ subst (λ x. k (parent x) ≤ k x) (sym e) (top (omega arith))
    | no d ↦ v.edges c p q d ne
  ];
  bridge = v.bridge;
}

Loose-Rising : (n i : ℕ) (k : ℕ → ℕ) → Loose n k i → 0 < i → k i < k (parent i) → Rising n k i
Loose-Rising n i k v r late = record {
  edges = λ c p q d. elim (ℕ_discrete (parent c) i) [
    | yes e ↦ subst (λ x. k x ≤ k c) (sym e) (omega (arith, v.bridge c p q e r))
    | no ne ↦ v.edges c p q d ne
  ];
  bridge = λ c p q e s. v.bridge c p q e s;
}

Ordered-Rising : (n i : ℕ) (k : ℕ → ℕ) → i < n → Ordered n k → Rising n k i
Ordered-Rising n i k m v = record {
  edges = λ c p q d. v c p q;
  bridge = λ c p q e r. omega (arith, v i r m, subst (λ x. k x ≤ k c) e (v c p q));
}

not_root : (k : ℕ → ℕ) (i : ℕ) → k i < k (parent i) → 0 < i
not_root k zero late = absurd (omega arith)
not_root k (suc i) late = omega arith

-- heap.Remove's calls of `down` and `up`.
abbrev settle : ℕ → ℕ → Heap → Run Heap
settle i n h = down i n h >>= λ x. if x.0 then ok x.1 else up i x.1

module _ (n i : ℕ) (h : Heap) (in_i : i < n) (size : n ≤ length h.tasks) where
  settle_after :
      (e : ℕ) (g : Heap)
      → down_loop (suc n) i n h ≡ ok (e, g)
      → settle i n h ≡ (if ltb i e then ok g else up_loop (suc i) i g)
  unfolding down up
  settle_after e g run = rw run refl

  up-Ordered :
      (b : Bool) (g : Heap)
      → Shuffled n h g
      → Ordered n (keys g)
      → Sifted n h (if b then ok g else up_loop (suc i) i g)
  up-Ordered true g s o = (g, refl, s, o)
  up-Ordered false g s o =
      let (f, run, t, q) =
        up_loop_restores (suc i) n i g (omega arith) in_i (omega (arith, s.size))
          (Ordered-Rising n i (keys g) in_i o) in
      (f, run, Shuffled-trans s t, q)

  stays :
      keys h i < keys h (parent i)
      → 0 < i
      → Loose n (keys h) i
      → down_loop (suc n) i n h ≡ ok (i, h)
  stays late r v = elim (dec_lt (2 * i + 1) n) [
    | no leaf ↦ down_leaf i n h size n (omega arith)
    | yes inner ↦
        let (j, w) = SmallerChild-ok i n h size inner in
        down_stop i n h size j w n inner
          (omega (arith, v.bridge j (omega (arith, w.later)) w.inside w.child r))
  ]

  settle_lem : Loose n (keys h) i → Sifted n h (settle i n h)
  settle_lem v = elim (dec_lt (keys h i) (keys h (parent i))) [
    | yes late ↦
        let r : 0 < i = not_root (keys h) i late in
        let same : ltb i i ≡ false = ground arith in
        rw (settle_after i h (stays late r v), same)
          (up_loop_restores (suc i) n i h (omega arith) in_i size
            (Loose-Rising n i (keys h) v r late))
    | no early ↦
        let (e, g, run, s, o) =
          down_loop_restores (suc n) i n h (omega arith) (omega arith) size
            (Loose-Sinking n i (keys h) v (λ r. omega arith)) in
        rw (settle_after e g run) (up-Ordered (ltb i e) g s o)
  ]

module _ (n i : ℕ) (h : Heap) (v : IsHeap h) (size : length h.tasks ≡ suc n) where
  abbrev Removed : Run (ℕ × Heap) → Type 0
  Removed r = (g : Heap) × (r ≡ ok (get_or h.tasks i 0, g)) × Loses (get_or h.tasks i 0) h g

  remove_last : i ≡ n → Removed (remove i h)
  unfolding remove
  remove_last e =
      let last : length h.tasks - 1 ≡ n = omega arith in
      let same : (n == i) ≡ true = ground arith in
      let o : Ordered n (keys h) = λ c p q. v.ordered c p (omega arith) in
      rw (last, same)
        (subst
          (λ x.
            (g : Heap) × (pop_last h ≡ ok (get_or h.tasks x 0, g)) × Loses (get_or h.tasks x 0) h g)
          (sym e) (pop_last_lem n h size o v.indexed))

  module _ (in_i : i < n) where
    at_i : i < length h.tasks
    at_i = omega arith

    at_n : n < length h.tasks
    at_n = omega arith

    abbrev moved : Heap
    moved = traded i n h at_i at_n

    keys-moved : (c : ℕ) → c ≢ i → c ≢ n → keys moved c ≡ keys h c
    keys-moved c d e = ground (arith, keys-traded i n h at_i at_n c)

    moved-Loose : Loose n (keys moved) i
    moved-Loose = record {
      edges = λ c p q d ne. ground (
        arith,
        v.ordered c,
        keys-traded i n h at_i at_n c,
        keys-traded i n h at_i at_n (parent c),
      );
      bridge = λ c p q e r. omega (
        arith,
        v.ordered i r (omega arith),
        subst (λ x. keys h x ≤ keys h c) e (v.ordered c p (omega arith)),
        keys-moved c (omega arith) (omega arith),
        keys-moved (parent i) (omega arith) (omega arith),
      );
    }

    remove-settle : remove i h ≡ (settle i n moved >>= pop_last)
    unfolding remove
    remove-settle =
        let last : length h.tasks - 1 ≡ n = omega arith in
        let other : (n == i) ≡ false = ground arith in
        rw (last, other, swap-ok i n h at_i at_n) refl

    last_taken :
        (r : Run Heap) (g : Heap)
        → r ≡ ok g
        → Shuffled n moved g
        → Shuffled (suc n) h moved
        → get_or g.tasks n 0 ≡ get_or h.tasks i 0
        → (f : Heap) × (pop_last g ≡ ok (get_or g.tasks n 0, f)) × Loses (get_or g.tasks n 0) g f
        → Removed (r >>= pop_last)
    last_taken r g run s t top (f, out, l) = (
      f,
      rw run (out ∙ rw top refl),
      record {
        heap = l.heap;
        size = sym t.size ∙ sym s.size ∙ l.size;
        tasks = λ b. sym (t.same b) ∙ sym (s.same b) ∙ l.tasks b ∙ rw top refl;
        cores = λ b. l.cores b ∙ s.cores b ∙ t.cores b;
        idle = λ i. l.idle (s.idle (t.idle i));
      },
    )

    take_moved : (r : Run Heap) → Sifted n moved r → Removed (r >>= pop_last)
    take_moved r (g, run, s, o) =
        let t = traded-Shuffled i n h at_i at_n (suc n) (omega arith) (omega arith) in
        let top : get_or g.tasks n 0 ≡ get_or h.tasks i 0 =
          ground (arith, s.beyond n, entry-traded i n h at_i at_n n) in
        last_taken r g run s t top
          (pop_last_lem n g (s.size ∙ t.size ∙ size) o (s.indexed (t.indexed v.indexed)))

    remove_inner : Removed (remove i h)
    remove_inner =
        let t = traded-Shuffled i n h at_i at_n (suc n) (omega arith) (omega arith) in
        rw remove-settle (
          take_moved (settle i n moved)
            (settle_lem n i moved in_i (omega (arith, t.size)) moved-Loose))

-- heap.Remove at an index of a heap in order returns the task there and leaves a heap in order with
-- the other tasks.
pub remove_lem :
    (i : ℕ) (h : Heap)
    → IsHeap h
    → i < length h.tasks
    → (g : Heap) × (remove i h ≡ ok (get_or h.tasks i 0, g)) × Loses (get_or h.tasks i 0) h g
remove_lem i h v p = elim (ℕ_discrete i (length h.tasks - 1)) [
  | yes e ↦ remove_last (length h.tasks - 1) i h v (omega arith) e
  | no ne ↦ remove_inner (length h.tasks - 1) i h v (omega arith) (omega arith)
]
