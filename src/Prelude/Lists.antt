-- ===== src/Prelude/Lists.antt =====
-- Lists measured and indexed by native numbers, under the library's names, and what Go does with
-- slices: `copy` into a slice is `overwrite`.
use Prim.Native.Nat.{ℕ, zero, suc, ◌+◌, ◌-◌, ◌≤◌, min, ◌<◌}
use mathlib.Core.Path.{◌≡◌, refl, sym, ap, subst, ◌∙◌}
use mathlib.Core.List.{List, [], ◌∷◌, ◌++◌}
use mathlib.Core.Option.{Option, none, some}
use mathlib.Core.Bool.{Bool}
use native.Mathlib.Omega.{arith}
use muduo_go.Prelude.Tests.{◌==◌, if◌then◌else◌}

module _ {ℓ} {A : Type ℓ} where
  abbrev pub length : List A → ℕ
  length [] = 0
  length (x ∷ xs) = suc (length xs)

  abbrev pub get_elem? : List A → ℕ → Option A
  get_elem? [] i = none
  get_elem? (x ∷ xs) zero = some x
  get_elem? (x ∷ xs) (suc i) = get_elem? xs i

  -- A write out of bounds changes nothing.
  abbrev pub set : List A → ℕ → A → List A
  set [] i v = []
  set (x ∷ xs) zero v = v ∷ xs
  set (x ∷ xs) (suc i) v = x ∷ set xs i v

  abbrev pub take : ℕ → List A → List A
  take zero xs = []
  take (suc n) [] = []
  take (suc n) (x ∷ xs) = x ∷ take n xs

  abbrev pub drop : ℕ → List A → List A
  drop zero xs = xs
  drop (suc n) [] = []
  drop (suc n) (x ∷ xs) = drop n xs

  abbrev pub replicate : ℕ → A → List A
  replicate zero a = []
  replicate (suc n) a = a ∷ replicate n a

  -- `copy(xs, ys)`: as many leading elements of `ys` as `xs` has room for.
  abbrev pub copy : List A → List A → List A
  copy [] ys = []
  copy (x ∷ xs) [] = x ∷ xs
  copy (x ∷ xs) (y ∷ ys) = y ∷ copy xs ys

  -- `copy(xs[i:], ys)`, with `xs` after it.
  abbrev pub copy_at : ℕ → List A → List A → List A
  copy_at zero xs ys = copy xs ys
  copy_at (suc i) [] ys = []
  copy_at (suc i) (x ∷ xs) ys = x ∷ copy_at i xs ys

  pub length-append : (xs ys : List A) → length (xs ++ ys) ≡ length xs + length ys
  length-append [] ys = omega arith
  length-append (x ∷ xs) ys = omega (arith, length-append xs ys)

  pub length-take : (n : ℕ) (xs : List A) → length (take n xs) ≡ min n (length xs)
  length-take zero xs = omega arith
  length-take (suc n) [] = omega arith
  length-take (suc n) (x ∷ xs) = omega (arith, length-take n xs)

  pub length-drop : (n : ℕ) (xs : List A) → length (drop n xs) ≡ length xs - n
  length-drop zero xs = omega arith
  length-drop (suc n) [] = omega arith
  length-drop (suc n) (x ∷ xs) = omega (arith, length-drop n xs)

  pub length-replicate : (n : ℕ) (a : A) → length (replicate n a) ≡ n
  length-replicate zero a = refl
  length-replicate (suc n) a = ap suc (length-replicate n a)

  pub length-copy : (xs ys : List A) → length (copy xs ys) ≡ length xs
  length-copy [] ys = refl
  length-copy (x ∷ xs) [] = refl
  length-copy (x ∷ xs) (y ∷ ys) = ap suc (length-copy xs ys)

  pub length-copy_at : (i : ℕ) (xs ys : List A) → length (copy_at i xs ys) ≡ length xs
  length-copy_at zero xs ys = length-copy xs ys
  length-copy_at (suc i) [] ys = refl
  length-copy_at (suc i) (x ∷ xs) ys = ap suc (length-copy_at i xs ys)

  pub take-append-drop : (n : ℕ) (xs : List A) → take n xs ++ drop n xs ≡ xs
  take-append-drop zero xs = refl
  take-append-drop (suc n) [] = refl
  take-append-drop (suc n) (x ∷ xs) = ap (◌∷◌ x) (take-append-drop n xs)

  pub take_of_length-le : (n : ℕ) (xs : List A) → length xs ≤ n → take n xs ≡ xs
  take_of_length-le zero [] h = refl
  take_of_length-le (suc n) [] h = refl
  take_of_length-le (suc n) (x ∷ xs) h = ap (◌∷◌ x) (take_of_length-le n xs (omega arith))
  take_of_length-le zero (x ∷ xs) h = absurd (omega arith)

  pub drop_of_length-le : (n : ℕ) (xs : List A) → length xs ≤ n → drop n xs ≡ []
  drop_of_length-le zero [] h = refl
  drop_of_length-le (suc n) [] h = refl
  drop_of_length-le (suc n) (x ∷ xs) h = drop_of_length-le n xs (omega arith)
  drop_of_length-le zero (x ∷ xs) h = absurd (omega arith)

  pub take-append : (xs ys : List A) → take (length xs) (xs ++ ys) ≡ xs
  take-append [] ys = refl
  take-append (x ∷ xs) ys = ap (◌∷◌ x) (take-append xs ys)

  pub drop-append : (xs ys : List A) → drop (length xs) (xs ++ ys) ≡ ys
  drop-append [] ys = refl
  drop-append (x ∷ xs) ys = drop-append xs ys

  pub take-append_le : (n : ℕ) (xs ys : List A) → n ≤ length xs → take n (xs ++ ys) ≡ take n xs
  take-append_le zero xs ys h = refl
  take-append_le (suc n) [] ys h = absurd (omega arith)
  take-append_le (suc n) (x ∷ xs) ys h = ap (◌∷◌ x) (take-append_le n xs ys (omega arith))

  pub drop-append_le :
      (n : ℕ) (xs ys : List A) → n ≤ length xs → drop n (xs ++ ys) ≡ drop n xs ++ ys
  drop-append_le zero xs ys h = refl
  drop-append_le (suc n) [] ys h = absurd (omega arith)
  drop-append_le (suc n) (x ∷ xs) ys h = drop-append_le n xs ys (omega arith)

  -- What `copy` leaves is a prefix of the source and the rest of the destination.
  pub copy_lem : (xs ys : List A) → copy xs ys ≡ take (length xs) ys ++ drop (length ys) xs
  copy_lem [] [] = refl
  copy_lem [] (y ∷ ys) = refl
  copy_lem (x ∷ xs) [] = refl
  copy_lem (x ∷ xs) (y ∷ ys) = ap (◌∷◌ y) (copy_lem xs ys)

  pub copy_at-append : (xs ys zs : List A) → copy_at (length xs) (xs ++ ys) zs ≡ xs ++ copy ys zs
  copy_at-append [] ys zs = refl
  copy_at-append (x ∷ xs) ys zs = ap (◌∷◌ x) (copy_at-append xs ys zs)

  pub take-nil : (n : ℕ) → take n [] ≡ []
  take-nil zero = refl
  take-nil (suc n) = refl

  pub drop-take-append :
      (xs ys : List A) (n : ℕ) → drop (length xs) (take (length xs + n) (xs ++ ys)) ≡ take n ys
  drop-take-append [] ys n = ap (λ k. take k ys) (omega arith)
  drop-take-append (x ∷ xs) ys n =
      subst (λ k. drop (suc (length xs)) (take k (x ∷ (xs ++ ys))) ≡ take n ys)
        {x = suc (length xs + n)} (omega arith) (drop-take-append xs ys n)

  pub take-add : (m n : ℕ) (xs : List A) → take (m + n) xs ≡ take m xs ++ take n (drop m xs)
  take-add zero n xs = ap (λ k. take k xs) (omega arith)
  take-add (suc m) n [] =
      ap (λ k. take k []) {x = suc m + n} {y = suc (m + n)} (omega arith) ∙ sym (take-nil n)
  take-add (suc m) n (x ∷ xs) =
      ap (λ k. take k (x ∷ xs)) {x = suc m + n} {y = suc (m + n)} (omega arith)
      ∙ ap (◌∷◌ x) (take-add m n xs)

  -- The element at `i`, or `d` out of range.
  abbrev pub get_or : List A → ℕ → A → A
  get_or [] i d = d
  get_or (x ∷ xs) zero d = x
  get_or (x ∷ xs) (suc i) d = get_or xs i d

  pub length-set : (xs : List A) (i : ℕ) (v : A) → length (set xs i v) ≡ length xs
  length-set [] i v = refl
  length-set (x ∷ xs) zero v = refl
  length-set (x ∷ xs) (suc i) v = ap suc (length-set xs i v)

  pub get_elem?-get_or :
      (xs : List A) (i : ℕ) (d : A) → i < length xs → get_elem? xs i ≡ some (get_or xs i d)
  get_elem?-get_or [] i d h = absurd (omega arith)
  get_elem?-get_or (x ∷ xs) zero d h = refl
  get_elem?-get_or (x ∷ xs) (suc i) d h = get_elem?-get_or xs i d (omega arith)

  pub get_or-set :
      (xs : List A) (i j : ℕ) (v d : A)
      → i < length xs
      → get_or (set xs i v) j d ≡ (if j == i then v else get_or xs j d)
  get_or-set [] i j v d h = absurd (omega arith)
  get_or-set (x ∷ xs) zero zero v d h = refl
  get_or-set (x ∷ xs) zero (suc j) v d h = ground arith
  get_or-set (x ∷ xs) (suc i) zero v d h = ground arith
  get_or-set (x ∷ xs) (suc i) (suc j) v d h = ground (arith, get_or-set xs i j v d)

  pub get_or-append :
      (xs ys : List A) (i : ℕ) (d : A) → i < length xs → get_or (xs ++ ys) i d ≡ get_or xs i d
  get_or-append [] ys i d h = absurd (omega arith)
  get_or-append (x ∷ xs) ys zero d h = refl
  get_or-append (x ∷ xs) ys (suc i) d h = get_or-append xs ys i d (omega arith)

  pub get_or-append_last : (xs : List A) (v d : A) → get_or (xs ++ v ∷ []) (length xs) d ≡ v
  get_or-append_last [] v d = refl
  get_or-append_last (x ∷ xs) v d = get_or-append_last xs v d

  pub get_or-take :
      (n : ℕ) (xs : List A) (i : ℕ) (d : A) → i < n → get_or (take n xs) i d ≡ get_or xs i d
  get_or-take zero xs i d h = absurd (omega arith)
  get_or-take (suc n) [] i d h = refl
  get_or-take (suc n) (x ∷ xs) zero d h = refl
  get_or-take (suc n) (x ∷ xs) (suc i) d h = get_or-take n xs i d (omega arith)

-- How often `a` stands in a list.
abbrev pub count : ℕ → List ℕ → ℕ
count a [] = 0
count a (x ∷ xs) = if x == a then suc (count a xs) else count a xs

abbrev pub one_if : Bool → ℕ
one_if b = if b then 1 else 0

pub count-append : (a : ℕ) (xs ys : List ℕ) → count a (xs ++ ys) ≡ count a xs + count a ys
count-append a [] ys = omega arith
count-append a (x ∷ xs) ys = ground (arith, count-append a xs ys)

pub count-set :
    (a : ℕ) (xs : List ℕ) (i v : ℕ)
    → i < length xs
    → count a (set xs i v) + one_if (get_or xs i 0 == a) ≡ count a xs + one_if (v == a)
count-set a [] i v h = absurd (omega arith)
count-set a (x ∷ xs) zero v h = ground arith
count-set a (x ∷ xs) (suc i) v h = ground (arith, count-set a xs i v)

-- The last of `suc n` elements.
pub count-take_last :
    (a : ℕ) (n : ℕ) (xs : List ℕ)
    → length xs ≡ suc n
    → count a xs ≡ count a (take n xs) + one_if (get_or xs n 0 == a)
count-take_last a zero (x ∷ []) h = ground arith
count-take_last a (suc n) (x ∷ y ∷ xs) h = ground (arith, count-take_last a n (y ∷ xs))
count-take_last a n [] h = absurd (omega arith)
count-take_last a zero (x ∷ y ∷ xs) h = absurd (omega arith)
count-take_last a (suc n) (x ∷ []) h = absurd (omega arith)
