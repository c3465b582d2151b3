-- ===== src/Buffer/Searching.antt =====
-- buffer.go: Search.
use native.Mathlib.Decide.{dec_lt}
use muduo_go.Prelude.{
  Run, ==_zero_of_pos, ℕ, suc, ◌≤◌, ◌<◌, ◌≡◌, refl, ap, sym, ◌∙◌, ◌⊎◌, inl, inr, ℤ, pos, negsuc,
  List, [], ◌∷◌, ◌++◌, Option, none, some, ok, true, arith, length, length-append, le→ltb,
  ltb_ℤ-pos, Bool-cases, Option-cases,
}
use muduo_go.Buffer.{is_prefix, index, search_bytes, int_of}
use muduo_go.Buffer.Layout.{layout, slice-layout, readable_bytes-layout}

is_prefix-append : (s t : List ℕ) → is_prefix s (s ++ t) ≡ true
unfolding is_prefix
is_prefix-append [] t = refl
is_prefix-append (x ∷ s) t = ground (arith, is_prefix-append s t)

is_prefix_sound : (s t : List ℕ) → is_prefix s t ≡ true → (u : List ℕ) × (t ≡ s ++ u)
unfolding is_prefix
is_prefix_sound [] t h = (t, refl)
is_prefix_sound (x ∷ s) [] h = absurd (cc)
is_prefix_sound (x ∷ s) (y ∷ t) h =
    let (u, e) = is_prefix_sound s t (ground arith) in (u, ground arith)

-- `s` stands at position `i` of `t`.
abbrev pub StandsAt : List ℕ → ℕ → List ℕ → Type 0
StandsAt s i t = (u : List ℕ) × (v : List ℕ) × (t ≡ u ++ (s ++ v)) × (length u ≡ i)

index_found : (t s : List ℕ) (i : ℕ) → index t s ≡ some i → StandsAt s i t
unfolding index
index_found [] s i h = elim (Bool-cases (is_prefix s [])) [
  | inl e ↦ let (v, w) = is_prefix_sound s [] e in ([], v, w, ground arith)
  | inr e ↦ absurd (ground arith)
]
index_found (x ∷ t) s i h = elim (Bool-cases (is_prefix s (x ∷ t))) [
  | inl e ↦ let (v, w) = is_prefix_sound s (x ∷ t) e in ([], v, w, ground arith)
  | inr e ↦ elim (Option-cases (index t s)) [
    | inl n ↦ absurd (ground arith)
    | inr (j, q) ↦ let (u, v, w, l) = index_found t s j q in (x ∷ u, v, ap (◌∷◌ x) w, ground arith)
  ]
]

index_prefix : (t s : List ℕ) → is_prefix s t ≡ true → index t s ≡ some 0
unfolding index
index_prefix [] s h = rw h
index_prefix (x ∷ t) s h = rw h

index_first : (u s v : List ℕ) → (i : ℕ) × (index (u ++ (s ++ v)) s ≡ some i) × (i ≤ length u)
unfolding index
index_first [] s v = (0, index_prefix (s ++ v) s (is_prefix-append s v), omega arith)
index_first (x ∷ u) s v = elim (Bool-cases (is_prefix s (x ∷ (u ++ (s ++ v))))) [
  | inl e ↦ (0, index_prefix (x ∷ (u ++ (s ++ v))) s e, omega arith)
  | inr e ↦ let (i, q, l) = index_first u s v in (suc i, rw (e, q), omega arith)
]

module _ (p d f s : List ℕ) where
  search_long :
      0 < length s → length s ≤ length d → search_bytes s (layout p d f) ≡ ok (int_of (index d s))
  unfolding search_bytes
  search_long h k = rw (
    readable_bytes-layout p d f,
    ltb_ℤ-pos,
    le→ltb (length d) (length s) k,
    ==_zero_of_pos (length s) h,
    slice-layout p d f,
  )

  search_short :
      (length s ≡ 0) ⊎ (length d < length s) → search_bytes s (layout p d f) ≡ ok (negsuc 0)
  unfolding search_bytes
  search_short h = rw (readable_bytes-layout p d f, ltb_ℤ-pos) (ground arith)

-- The test `len(s) == 0 || len(s) > b.ReadableBytes()`.
search_cases :
    (s d : List ℕ)
    → ((length s ≡ 0) ⊎ (length d < length s)) ⊎ ((0 < length s) × (length s ≤ length d))
search_cases s d = elim (dec_lt 0 (length s)) [
  | no h ↦ inl (inl (omega arith))
  | yes h ↦ elim (dec_lt (length d) (length s)) [
    | yes k ↦ inl (inr k)
    | no k ↦ inr (h, omega arith)
  ]
]

index_of_found : (o : Option ℕ) (i : ℕ) → ◌≡◌ {A = Run ℤ} (ok (int_of o)) (ok (pos i)) → o ≡ some i
index_of_found none i h = absurd (cc)
index_of_found (some j) i h = cc

found_in_unread :
    (p d f s : List ℕ) (i : ℕ) → search_bytes s (layout p d f) ≡ ok (pos i) → index d s ≡ some i
found_in_unread p d f s i h = elim (search_cases s d) [
  | inl short ↦ absurd (cc (search_short p d f s short))
  | inr (a, k) ↦ index_of_found (index d s) i (sym (search_long p d f s a k) ∙ h)
]

index_least : (s d : List ℕ) (i j : ℕ) → index d s ≡ some i → StandsAt s j d → i ≤ j
index_least s d i j h (u, v, e, l) =
    let (k, q, m) = index_first u s v in
    let found : index d s ≡ some k = ap (λ t. index t s) e ∙ q in ground (arith, found, h, m)

-- A position that `Search(s)` returns is one at which `s` stands in the unread bytes, and `s`
-- stands at no smaller one.
pub search_sound :
    (p d f s : List ℕ) (i : ℕ)
    → search_bytes s (layout p d f) ≡ ok (pos i)
    → StandsAt s i d × ((j : ℕ) → StandsAt s j d → i ≤ j)
search_sound p d f s i h =
    let q = found_in_unread p d f s i h in (index_found d s i q, λ j at. index_least s d i j q at)

-- If a nonempty `s` stands somewhere in the unread bytes, `Search(s)` returns a position, and none
-- that is larger.
search_complete :
    (p d f s : List ℕ) (j : ℕ)
    → 0 < length s
    → StandsAt s j d
    → (i : ℕ) × (search_bytes s (layout p d f) ≡ ok (pos i)) × (i ≤ j)
search_complete p d f s j h (u, v, e, l) =
    let (i, q, m) = index_first u s v in
    let long =
      search_long p d f s h
        (omega (arith, ap length e, length-append u (s ++ v), length-append s v)) in
    (i, long ∙ ap (λ t. ok (int_of (index t s))) e ∙ ap (λ o. ok (int_of o)) q, omega arith)

-- If a nonempty `s` stands somewhere in the unread bytes, `Search(s)` returns the first position at
-- which it stands.
pub search_finds_first :
    (p d f s : List ℕ) (j : ℕ)
    → 0 < length s
    → StandsAt s j d
    → (i : ℕ) × (search_bytes s (layout p d f) ≡ ok (pos i))
      × StandsAt s i d
      × ((k : ℕ) → StandsAt s k d → i ≤ k)
search_finds_first p d f s j h at =
    let (i, run, _) = search_complete p d f s j h at in
    let (here, least) = search_sound p d f s i run in (i, run, here, least)
