-- ===== src/Buffer/Reading.antt =====
-- buffer.go: Next, Read, Advance and Shrink, on a buffer of consumed, unread and free bytes.
use native.Mathlib.Decide.{dec_lt}
use muduo_go.Prelude.{
  drop_of_length-le, zero, suc, ◌∷◌, ℕ, ◌+◌, ◌≤◌, ◌<◌, ◌≡◌, refl, ap, sym, ◌∙◌, ℤ, pos, negsuc,
  List, [], ◌++◌, ok, arith, length, take, drop, replicate, copy, length-append, length-take,
  length-drop, length-replicate, copy_lem, append_assoc, le→leb, lt→leb, le→ltb, take_of_length-le,
  take-append-drop, +ℤ-pos, ltb_ℤ-pos, leb_ℤ-pos, ltb_ℤ-negsuc,
}
use muduo_go.Buffer.{Buffer, next, read, advance, shrink, reset, capacity}
use muduo_go.Buffer.Layout.{
  layout, slice-layout, slice-layout_first, readable_bytes-layout, peek-layout,
}

drop-length-take : (n : ℕ) (d : List ℕ) → drop (length (take n d)) d ≡ drop n d
drop-length-take zero d = refl
drop-length-take (suc n) [] = refl
drop-length-take (suc n) (x ∷ d) = drop-length-take n d

abbrev zeros : ℕ → List ℕ
zeros n = replicate n 0

drop-zeros : (m k : ℕ) → drop m (zeros (m + k)) ≡ zeros k
drop-zeros zero k = ap zeros (omega arith)
drop-zeros (suc m) k =
    ap (λ n. drop (suc m) (zeros n)) {x = suc m + k} {y = suc (m + k)} (omega arith)
    ∙ drop-zeros m k

-- Copying into a slice of zeros that is `k` longer.
copy-zeros : (d : List ℕ) (k : ℕ) → copy (replicate (length d + k) 0) d ≡ d ++ replicate k 0
copy-zeros d k =
    rw
      (
        copy_lem (zeros (length d + k)) d,
        length-replicate (length d + k) (zero),
        take_of_length-le (length d + k) d (omega arith),
      )
      (ap (λ t. d ++ t) (drop-zeros (length d) k))

module _ (p d f : List ℕ) where
  -- Consuming the first `n` unread bytes.
  pub consume :
      (n : ℕ)
      → n ≤ length d
      → ◌≡◌ {A = Buffer}
          (record {
            buf = p ++ (d ++ f);
            read_index = pos (length p + n);
            write_index = length p + length d;
          })
          (layout (p ++ take n d) (drop n d) f)
  consume n h = λ k. record { buf = whole k; read_index = pos (start k); write_index = end k }
    where
      whole : p ++ (d ++ f) ≡ (p ++ take n d) ++ (drop n d ++ f)
      whole =
          simp append_assoc
            (ap (λ t. p ++ (t ++ f)) (sym (take-append-drop n d)) ∙ simp append_assoc)

      start : length p + n ≡ length (p ++ take n d)
      start = omega (arith, length-append p (take n d), length-take n d)

      end : length p + length d ≡ length (p ++ take n d) + length (drop n d)
      end = omega (arith, length-append p (take n d), length-take n d, length-drop n d)

  -- `Next(n)` for fewer than the unread bytes returns the first `n` of them and leaves the others.
  pub next-some :
      (n : ℕ)
      → n < length d
      → next (pos n) (layout p d f) ≡ ok (take n d, layout (p ++ take n d) (drop n d) f)
  unfolding next
  next-some n h = rw (
    readable_bytes-layout p d f,
    ltb_ℤ-pos,
    leb_ℤ-pos,
    le→ltb n 0 (omega arith),
    lt→leb (length d) n h,
    +ℤ-pos,
    slice-layout_first p d f n (omega arith),
    consume n (omega arith),
  )

  -- `Next(n)` for at least the unread bytes.
  next-all : (n : ℕ) → length d ≤ n → next (pos n) (layout p d f) ≡ ok (d, reset 0 (layout p d f))
  unfolding next
  next-all n h = rw (
    readable_bytes-layout p d f,
    ltb_ℤ-pos,
    leb_ℤ-pos,
    le→ltb n 0 (omega arith),
    le→leb (length d) n h,
    slice-layout p d f,
  )

  next-negative : (n : ℕ) → next (negsuc n) (layout p d f) ≡ ok (d, reset 0 (layout p d f))
  unfolding next
  next-negative n = rw (ltb_ℤ-negsuc, slice-layout p d f)

  pub reset_lem : reset 0 (layout p d f) ≡ layout [] [] (p ++ (d ++ f))
  unfolding reset
  reset_lem =
      ap (λ w. record { buf = p ++ (d ++ f); read_index = pos 0; write_index = w }) (omega arith)

-- How many bytes `Next(n)` asks for: a negative `n` asks for all.
abbrev pub asked : ℤ → List ℕ → ℕ
asked (pos n) d = n
asked (negsuc _) d = length d

-- `Next(n)` on a buffer with unread bytes `d` returns the first `n` of them (all of them if there
-- are fewer or if `n` is negative), and leaves the others unread, in order.
pub next_fifo :
    (n : ℤ) (p d f : List ℕ)
    → (p' : List ℕ) × (f' : List ℕ) × (next n (layout p d f)
        ≡ ok (take (asked n d) d, layout p' (drop (asked n d) d) f'))
next_fifo (pos n) p d f = elim (dec_lt n (length d)) [
  | yes h ↦ (p ++ take n d, f, next-some p d f n h)
  | no h ↦ (
    [],
    p ++ (d ++ f),
    next-all p d f n (omega arith)
        ∙ rw (
          take_of_length-le n d (omega arith),
          drop_of_length-le n d (omega arith),
          reset_lem p d f,
        ),
  )
]
next_fifo (negsuc n) p d f = (
  [],
  p ++ (d ++ f),
  next-negative p d f n
      ∙ rw (
        take_of_length-le (length d) d (omega arith),
        drop_of_length-le (length d) d (omega arith),
        reset_lem p d f,
      ),
)

-- `Read` into a slice of `n` bytes copies out the first `n` unread bytes, or all of them if there
-- are fewer, and leaves the others unread.
pub read_fifo :
    (n : ℕ) (p d f : List ℕ)
    → (p' : List ℕ) × (read n (layout p d f) ≡ ok (take n d, layout p' (drop n d) f))
unfolding read
read_fifo n p d f = (
  p ++ take (length (take n d)) d,
  rw
      (
        slice-layout p d f,
        +ℤ-pos,
        consume p d f (length (take n d)) (omega (arith, length-take n d)),
      )
      (ap (λ t. ok (take n d, layout (p ++ take (length (take n d)) d) t f))
        (drop-length-take n d)),
)

-- `Advance(n)` by at most the unread bytes consumes the first `n` of them.
pub advance_within :
    (n : ℕ) (p d f : List ℕ)
    → n ≤ length d
    → advance (pos n) (layout p d f) ≡ layout (p ++ take n d) (drop n d) f
unfolding advance
advance_within n p d f h = rw +ℤ-pos (consume p d f n h)

-- `Shrink(k)` keeps exactly the unread bytes and leaves a capacity of `k` bytes more than those.
pub shrink_keeps :
    (k : ℕ) (p d f : List ℕ)
    → (shrink (pos k) (layout p d f) ≡ ok (layout [] d (replicate k 0)))
      × (capacity (layout [] d (replicate k 0)) ≡ length d + k)
unfolding shrink capacity
shrink_keeps k p d f = (
  rw
      (
        readable_bytes-layout p d f,
        peek-layout p d f,
        +ℤ-pos,
        ltb_ℤ-pos,
        le→ltb (length d + k) 0 (omega arith),
      )
      (ap (λ l. ok (record { buf = l; read_index = pos 0; write_index = length d }))
          (copy-zeros d k)
        ∙ ap (λ w. ok (record { buf = d ++ replicate k 0; read_index = pos 0; write_index = w }))
            (omega arith)),
  omega (arith, length-append d (replicate k 0), length-replicate {A = ℕ} k 0),
)
