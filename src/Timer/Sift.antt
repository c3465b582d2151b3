-- ===== src/Timer/Sift.antt =====
-- container/heap on the tasks of timer.go: `up` and `down` restore the heap order.
use native.Mathlib.Decide.{dec_lt, ℕ_discrete}
use mathlib.Core.Path.{fun_ext, subst}
use muduo_go.Prelude.{
  ℕ, zero, suc, ◌+◌, ◌*◌, ◌≤◌, ◌<◌, ◌≡◌, ◌≢◌, sym, if◌then◌else◌, arith, ok, ltb, length, Run,
}
use muduo_go.Timer.{Heap, parent, up_loop, down_loop, smaller_child}
use muduo_go.Timer.Keys.{Ordered, Rising, Sinking, rise, risen, sink, sunk}
use muduo_go.Timer.Swap.{
  keys, Shuffled, Shuffled-refl, Shuffled-trans, less-ok, traded, swap-ok, keys-traded,
  traded-Shuffled,
}

-- The run returns a heap that is ordered among the first `n` entries and has the tasks of `h`.
abbrev pub Sifted : ℕ → Heap → Run Heap → Type 0
Sifted n h r = (g : Heap) × (r ≡ ok g) × Shuffled n h g × Ordered n (keys g)

module _ (j : ℕ) (h : Heap) (p : j < length h.tasks) where
  up_top : (k : ℕ) → parent j ≡ j → up_loop (suc k) j h ≡ ok h
  unfolding up_loop
  up_top k e = ground arith

  up_stop :
      (k : ℕ)
      → parent j < length h.tasks
      → keys h (parent j) ≤ keys h j
      → up_loop (suc k) j h ≡ ok h
  unfolding up_loop
  up_stop k q r = ground (arith, less-ok j (parent j) h p q (omega arith))

  up_climb :
      (k : ℕ) (q : parent j < length h.tasks) (g : Heap)
      → parent j ≢ j
      → keys h j < keys h (parent j)
      → up_loop k (parent j) (traded (parent j) j h q p) ≡ ok g
      → up_loop (suc k) j h ≡ ok g
  unfolding up_loop
  up_climb k q g ne late run =
      ground (arith, less-ok j (parent j) h p q (omega arith), swap-ok (parent j) j h q p, run)

pub up_loop_restores :
    (k n j : ℕ) (h : Heap)
    → j < k
    → j < n
    → n ≤ length h.tasks
    → Rising n (keys h) j
    → Sifted n h (up_loop k j h)
up_loop_restores zero n j h f p q v = absurd (omega arith)
up_loop_restores (suc k) n j h f p q v =
    let in_j : j < length h.tasks = omega arith in
    let in_parent : parent j < length h.tasks = omega arith in
    elim (ℕ_discrete (parent j) j) [
      | yes top ↦ (
        h,
        up_top j h in_j k top,
        Shuffled-refl n h,
        risen n j (keys h) v (λ r. absurd (omega arith)),
      )
      | no below ↦ elim (dec_lt (keys h j) (keys h (parent j))) [
        | no in_order ↦ (
          h,
          up_stop j h in_j k in_parent (omega arith),
          Shuffled-refl n h,
          risen n j (keys h) v (λ r. omega arith),
        )
        | yes late ↦
            let t = traded (parent j) j h in_parent in_j in
            let s = traded-Shuffled (parent j) j h in_parent in_j n (omega arith) p in
            let w : Rising n (keys t) (parent j) =
              subst (λ κ. Rising n κ (parent j))
                (sym (fun_ext (keys-traded (parent j) j h in_parent in_j)))
                (rise n j (keys h) v (omega arith) p late) in
            let (g, run, u, o) =
              up_loop_restores k n (parent j) t (omega arith) (omega arith) (omega (arith, s.size))
                w in
            (g, up_climb j h in_j k in_parent g below late run, Shuffled-trans s u, o)
      ]
    ]

-- Also for the entry `j` that has no smaller child, `down` ends with a heap in order.
module _ (i n : ℕ) (h : Heap) (p : n ≤ length h.tasks) where
  pub down_leaf : (k : ℕ) → n ≤ 2 * i + 1 → down_loop (suc k) i n h ≡ ok (i, h)
  unfolding down_loop smaller_child
  down_leaf k e = ground arith

  only_child :
      (κ : ℕ → ℕ) (c : ℕ) → 0 < c → parent c ≡ i → c < n → n ≤ 2 * i + 2 → κ (2 * i + 1) ≤ κ c
  only_child κ c a d b e =
      let child : 2 * i + 1 ≡ c = omega arith in
      subst (λ x. κ (2 * i + 1) ≤ κ x) child (omega arith)

  either_child :
      (κ : ℕ → ℕ) (c j : ℕ)
      → 0 < c
      → parent c ≡ i
      → κ j ≤ κ (2 * i + 1)
      → κ j ≤ κ (2 * i + 2)
      → κ j ≤ κ c
  either_child κ c j a d x y = elim (ℕ_discrete c (2 * i + 1)) [
    | yes e ↦ subst (λ b. κ j ≤ κ b) (sym e) x
    | no ne ↦ subst (λ b. κ j ≤ κ b) (let child : 2 * i + 2 ≡ c = omega arith in child) y
  ]

  pick_smaller :
      2 * i + 2 < n
      → smaller_child (2 * i + 1) n h
        ≡ ok (if ltb (keys h (2 * i + 2)) (keys h (2 * i + 1)) then 2 * i + 2 else 2 * i + 1)
  unfolding smaller_child
  pick_smaller e =
      ground (arith, less-ok (2 * i + 2) (2 * i + 1) h (omega arith) (omega arith) (omega arith))

  -- The child that `down` chooses is one, and no child is before it.
  pub record SmallerChild (j : ℕ) : Type 0 where
    pub pick : smaller_child (2 * i + 1) n h ≡ ok j
    pub inside : j < n
    pub child : parent j ≡ i
    pub later : i < j
    pub least : (c : ℕ) → 0 < c → c < n → parent c ≡ i → keys h j ≤ keys h c

  pub SmallerChild-ok : 2 * i + 1 < n → (j : ℕ) × SmallerChild j
  unfolding smaller_child
  SmallerChild-ok e = elim (dec_lt (2 * i + 2) n) [
    | no single ↦ (
      2 * i + 1,
      record {
        pick = ground arith;
        inside = e;
        child = omega arith;
        later = omega arith;
        least = λ c a b d. only_child (keys h) c a d b (omega arith);
      },
    )
    | yes both ↦ elim (dec_lt (keys h (2 * i + 2)) (keys h (2 * i + 1))) [
      | yes r ↦ (
        2 * i + 2,
        record {
          pick = rw (pick_smaller both) (ground arith);
          inside = both;
          child = omega arith;
          later = omega arith;
          least = λ c a b d. either_child (keys h) c (2 * i + 2) a d (omega arith) (omega arith);
        },
      )
      | no r ↦ (
        2 * i + 1,
        record {
          pick = rw (pick_smaller both) (ground arith);
          inside = e;
          child = omega arith;
          later = omega arith;
          least = λ c a b d. either_child (keys h) c (2 * i + 1) a d (omega arith) (omega arith);
        },
      )
    ]
  ]

  module _ (j : ℕ) (v : SmallerChild j) where
    in_i : i < length h.tasks
    in_i = omega (arith, v.inside, v.later)

    in_j : j < length h.tasks
    in_j = omega (arith, v.inside)

    pub down_stop :
        (k : ℕ) → 2 * i + 1 < n → keys h i ≤ keys h j → down_loop (suc k) i n h ≡ ok (i, h)
    unfolding down_loop
    down_stop k e r = ground (arith, v.pick, v.later, less-ok j i h in_j in_i)

    down_deeper :
        (k e : ℕ) (g : Heap)
        → 2 * i + 1 < n
        → keys h j < keys h i
        → down_loop k j n (traded i j h in_i in_j) ≡ ok (e, g)
        → down_loop (suc k) i n h ≡ ok (e, g)
    unfolding down_loop
    down_deeper k e g inner late run =
        ground (arith, v.pick, v.later, less-ok j i h in_j in_i, swap-ok i j h in_i in_j, run)

abbrev pub SiftedDown : ℕ → Heap → Run (ℕ × Heap) → Type 0
SiftedDown n h r = (e : ℕ) × (g : Heap) × (r ≡ ok (e, g)) × Shuffled n h g × Ordered n (keys g)

-- One round of `down`, by what the rounds below it do.
sink_once :
    (k i n : ℕ) (h : Heap) (p : n ≤ length h.tasks)
    → Sinking n (keys h) i
    → 2 * i + 1 < n
    → (j : ℕ) × SmallerChild i n h p j
    → ((j : ℕ) (t : Heap)
        → i < j
        → j < n
        → length t.tasks ≡ length h.tasks
        → Sinking n (keys t) j
        → SiftedDown n t (down_loop k j n t))
    → SiftedDown n h (down_loop (suc k) i n h)
sink_once k i n h p v inner (j, w) below = elim (dec_lt (keys h j) (keys h i)) [
  | no in_order ↦ (
    i,
    h,
    down_stop i n h p j w k inner (omega arith),
    Shuffled-refl n h,
    sunk n i (keys h) v (λ c a b d. omega (arith, w.least c a b d)),
  )
  | yes late ↦
      let pi = in_i i n h p j w in
      let pj = in_j i n h p j w in
      let t = traded i j h pi pj in
      let s = traded-Shuffled i j h pi pj n (omega (arith, w.inside, w.later)) w.inside in
      let u : Sinking n (keys t) j =
        subst (λ κ. Sinking n κ j) (sym (fun_ext (keys-traded i j h pi pj)))
          (sink n i j (keys h) v (omega (arith, w.later)) w.inside w.child late w.least) in
      let (e, g, run, x, o) = below j t w.later w.inside s.size u in
      (e, g, down_deeper i n h p j w k e g inner late run, Shuffled-trans s x, o)
]

pub down_loop_restores :
    (k i n : ℕ) (h : Heap)
    → n < i + k
    → i ≤ n
    → n ≤ length h.tasks
    → Sinking n (keys h) i
    → SiftedDown n h (down_loop k i n h)
down_loop_restores zero i n h f q p v = absurd (omega arith)
down_loop_restores (suc k) i n h f q p v = elim (dec_lt (2 * i + 1) n) [
  | no leaf ↦ (
    i,
    h,
    down_leaf i n h p k (omega arith),
    Shuffled-refl n h,
    sunk n i (keys h) v (λ c a b d. absurd (omega arith)),
  )
  | yes inner ↦
      sink_once k i n h p v inner (SmallerChild-ok i n h p inner) (λ j t later inside size u.
        down_loop_restores k j n t (omega arith) (omega arith) (omega arith) u)
]
