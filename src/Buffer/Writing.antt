-- ===== src/Buffer/Writing.antt =====
-- buffer.go: Write, makeSpace, Shrink and ReadFd, on a buffer of consumed, unread and free bytes.
use mathlib.Core.Path.{ap₂}
use native.Mathlib.Decide.{dec_le}
use muduo_go.Prelude.{
  ap₃, add-sub_left, ℕ, ◌+◌, ◌≤◌, ◌<◌, ◌≡◌, ap, ◌∙◌, ◌⊎◌, pos, List, [], ◌++◌, ok, arith, length,
  take, drop, replicate, copy, copy_at, length-append, length-take, length-drop, length-replicate,
  copy_lem, copy_at-append, append_assoc, min, +ℤ-pos, -ℤ-pos, ltb_ℤ-pos, le→leb, lt→ltb, le→ltb,
  take_of_length-le, drop_of_length-le,
}
use muduo_go.Buffer.{Buffer, make_space, ensure_writable_bytes, write}
use muduo_go.Buffer.Layout.{
  layout, length-layout, slice-layout, readable_bytes-layout, writable_bytes-layout,
}

abbrev zeros : ℕ → List ℕ
zeros n = replicate n 0

module _ (p d f : List ℕ) where
  -- What `copy` to the front leaves behind the unread bytes: as many as were consumed or free.
  abbrev pub reclaimed : List ℕ
  reclaimed = drop (length d) (p ++ (d ++ f))

  pub length-reclaimed : length reclaimed ≡ length p + length f
  length-reclaimed = omega (arith, length-drop (length d) (p ++ (d ++ f)), length-layout p d f)

  make_space-grow :
      (n : ℕ)
      → length f + length d < n
      → make_space n (layout p d f) ≡ ok (layout p d (f ++ zeros n))
  unfolding make_space
  make_space-grow n h =
      rw
        (
          readable_bytes-layout p d f,
          writable_bytes-layout p d f,
          +ℤ-pos,
          ltb_ℤ-pos,
          lt→ltb (length f + length d) n h,
        )
        (ap (λ l. ok (record (layout p d f) { buf = l }))
          (append_assoc p (d ++ f) (zeros n) ∙ ap (λ l. p ++ l) (append_assoc d f (zeros n))))

  make_space-compact :
      (n : ℕ) → n ≤ length f + length d → make_space n (layout p d f) ≡ ok (layout [] d reclaimed)
  unfolding make_space
  make_space-compact n h =
      rw
        (
          readable_bytes-layout p d f,
          writable_bytes-layout p d f,
          +ℤ-pos,
          ltb_ℤ-pos,
          le→ltb (length f + length d) n h,
          slice-layout p d f,
          -ℤ-pos,
        )
        (λ k. ok (record { buf = packed k; read_index = pos 0; write_index = front k }))
    where
      shorter : take (length (p ++ (d ++ f))) d ≡ d
      shorter = take_of_length-le _ d (omega (arith, length-layout p d f))

      packed : copy (p ++ (d ++ f)) d ≡ d ++ reclaimed
      packed = rw (copy_lem, shorter)

      front : length d ≡ 0 + length d
      front = omega arith

  -- With the room ensured, `Write` stores what fits.
  store :
      (b : Buffer) (ys : List ℕ)
      → ensure_writable_bytes (length ys) b ≡ ok (layout p d f)
      → write ys b
        ≡ ok (min (length f) (length ys), layout p (d ++ take (length f) ys) (drop (length ys) f))
  unfolding write
  store b ys e =
      rw
        (
          e,
          le→leb (length p + length d) (length (p ++ (d ++ f)))
              (omega (arith, length-layout p d f)),
          length-layout p d f,
          add-sub_left,
        )
        (λ k. ok (
          min (length f) (length ys),
          record { buf = filled k; read_index = pos (length p); write_index = moved k },
        ))
    where
      filled :
          copy_at (length p + length d) (p ++ (d ++ f)) ys
          ≡ p ++ ((d ++ take (length f) ys) ++ drop (length ys) f)
      filled =
          rw
            (← length-append p d, ← append_assoc p d f, copy_at-append (p ++ d) f ys, copy_lem f ys)
            (simp append_assoc)

      moved :
          length p + length d + min (length f) (length ys)
          ≡ length p + length (d ++ take (length f) ys)
      moved = omega (arith, length-append d (take (length f) ys), length-take (length f) ys)

  -- `Write` stores all the bytes where the room that was ensured holds them.
  store_all :
      (b : Buffer) (ys : List ℕ)
      → ensure_writable_bytes (length ys) b ≡ ok (layout p d f)
      → length ys ≤ length f
      → write ys b ≡ ok (length ys, layout p (d ++ ys) (drop (length ys) f))
  store_all b ys e h =
      store b ys e
      ∙ ap₂ (λ (n : ℕ) (t : List ℕ). ok (n, layout p (d ++ t) (drop (length ys) f))) (omega arith)
          (take_of_length-le (length f) ys h)

module _ (p d f : List ℕ) where
  ensure-room : (n : ℕ) → n ≤ length f → ensure_writable_bytes n (layout p d f) ≡ ok (layout p d f)
  unfolding ensure_writable_bytes
  ensure-room n h = rw (writable_bytes-layout p d f, ltb_ℤ-pos, le→ltb (length f) n h)

  ensure-short :
      (n : ℕ) → length f < n → ensure_writable_bytes n (layout p d f) ≡ make_space n (layout p d f)
  unfolding ensure_writable_bytes
  ensure-short n h = rw (writable_bytes-layout p d f, ltb_ℤ-pos, lt→ltb (length f) n h)

  abbrev Stored : List ℕ → Type 0
  Stored ys =
      (p' : List ℕ) × (f' : List ℕ) × (write ys (layout p d f)
        ≡ ok (length ys, layout p' (d ++ ys) f'))

  write-room : (ys : List ℕ) → length ys ≤ length f → Stored ys
  write-room ys h = (p, drop (length ys) f, store_all p d f _ ys (ensure-room (length ys) h) h)

  write-grow : (ys : List ℕ) → length f < length ys → length d + length f < length ys → Stored ys
  write-grow ys short h =
      let g = f ++ zeros (length ys) in
      (
        p,
        drop (length ys) g,
        store_all p d g _ ys
            (ensure-short (length ys) short ∙ make_space-grow p d f (length ys) (omega arith))
            (omega
              (arith, length-append f (zeros (length ys)), length-replicate {A = ℕ} (length ys) 0)),
      )

  compacted :
      (n : ℕ)
      → length f < n
      → n ≤ length d + length f
      → ensure_writable_bytes n (layout p d f) ≡ ok (layout [] d (reclaimed p d f))
  compacted n short h = ensure-short n short ∙ make_space-compact p d f n (omega arith)

  write-compact :
      (ys : List ℕ)
      → length f < length ys
      → length ys ≤ length d + length f
      → length ys ≤ length p + length f
      → Stored ys
  write-compact ys short h fits = (
    [],
    drop (length ys) (reclaimed p d f),
    store_all [] d (reclaimed p d f) _ ys (compacted (length ys) short h)
        (omega (arith, length-reclaimed p d f)),
  )

-- `Write` on a buffer with consumed bytes `p`, unread bytes `d` and free bytes `f` stores all of
-- `ys` behind the unread bytes and returns their number, if they fit into the consumed and the free
-- room together, or if they are more than the unread and the free bytes together.
pub write_stores_all :
    (p d f ys : List ℕ)
    → (length ys ≤ length p + length f) ⊎ (length d + length f < length ys)
    → (p' : List ℕ) × (f' : List ℕ) × (write ys (layout p d f)
        ≡ ok (length ys, layout p' (d ++ ys) f'))
write_stores_all p d f ys h = elim (dec_le (length ys) (length f)) [
  | yes fits ↦ write-room p d f ys fits
  | no short ↦ elim (dec_le (length ys) (length d + length f)) [
    | yes low ↦ write-compact p d f ys (omega arith) low (omega arith)
    | no high ↦ write-grow p d f ys (omega arith) (omega arith)
  ]
]

-- Between the two conditions of `write_stores_all`, when `ys` is longer than the consumed and the
-- free room but not longer than the unread and the free bytes, `Write` reports no error, stores the
-- first bytes of `ys` that fill that room, and drops the others.
pub write_drops_bytes :
    (p d f ys : List ℕ)
    → length p + length f < length ys
    → length ys ≤ length d + length f
    → (write ys (layout p d f)
        ≡ ok (length p + length f, layout [] (d ++ take (length p + length f) ys) []))
write_drops_bytes p d f ys over low =
    store [] d (reclaimed p d f) _ ys (compacted p d f (length ys) (omega arith) low)
    ∙ ap₃ (λ (n : ℕ) (m : ℕ) (t : List ℕ). ok (n, layout [] (d ++ take m ys) t))
        (omega (arith, length-reclaimed p d f)) (length-reclaimed p d f)
        (drop_of_length-le (length ys) (reclaimed p d f) (omega (arith, length-reclaimed p d f)))

-- Bytes for which there is free room go there, and nothing moves.
pub write_within :
    (p d f ys : List ℕ)
    → length ys ≤ length f
    → write ys (layout p d f) ≡ ok (length ys, layout p (d ++ ys) (drop (length ys) f))
write_within p d f ys h = store_all p d f _ ys (ensure-room p d f (length ys) h) h
