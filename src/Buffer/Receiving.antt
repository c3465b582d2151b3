-- ===== src/Buffer/Receiving.antt =====
-- buffer.go: ReadFd, on a buffer of consumed, unread and free bytes.
use native.Mathlib.Decide.{dec_le}
use muduo_go.Prelude.{
  add-sub_left, take-add, ℕ, ◌+◌, ◌-◌, ◌≤◌, ◌<◌, ◌≡◌, ap, ◌∙◌, ◌⊎◌, pos, List, [], ◌++◌, none, ok,
  arith, length, take, drop, copy_at, length-append, length-take, length-drop, copy_lem,
  copy_at-append, append_assoc, le→leb, lt→leb, le→ltb, ◌>>=◌, drop_of_length-le, take_of_length-le,
  take-append-drop,
}
use muduo_go.Buffer.{Buffer, received, read_fd, write, extra_size}
use muduo_go.Buffer.Layout.{layout, length-layout}
use muduo_go.Buffer.Writing.{write_stores_all, write_drops_bytes}

module _ (p d f xs : List ℕ) where
  -- What `readv` leaves in `buf`.
  filled :
      copy_at (length p + length d) (p ++ (d ++ f)) xs
      ≡ p ++ ((d ++ take (length f) xs) ++ drop (length xs) f)
  filled =
      rw (← length-append p d, ← append_assoc p d f, copy_at-append (p ++ d) f xs, copy_lem f xs)
        (simp append_assoc)

  -- The buffer before the bytes of the stack buffer are written.
  abbrev brimming : Buffer
  brimming = layout p (d ++ take (length f) xs) []

  brimming_lem :
      length f < length xs
      → ◌≡◌ {A = Buffer}
          (record {
            buf = copy_at (length p + length d) (p ++ (d ++ f)) xs;
            read_index = pos (length p);
            write_index = length (p ++ (d ++ f));
          })
          brimming
  brimming_lem h = λ k. record { buf = whole k; read_index = pos (length p); write_index = end k }
    where
      whole :
          copy_at (length p + length d) (p ++ (d ++ f)) xs ≡ p ++ ((d ++ take (length f) xs) ++ [])
      whole =
          filled
          ∙ ap (λ t. p ++ ((d ++ take (length f) xs) ++ t))
              (drop_of_length-le (length xs) f (omega arith))

      end : length (p ++ (d ++ f)) ≡ length p + length (d ++ take (length f) xs)
      end = omega (
        arith,
        length-layout p d f,
        length-append d (take (length f) xs),
        length-take (length f) xs,
      )

  read_fd-room :
      length xs ≤ length f
      → read_fd (received xs) (layout p d f)
        ≡ ok ((pos (length xs), none), layout p (d ++ xs) (drop (length xs) f))
  unfolding read_fd
  read_fd-room h =
      rw
        (
          length-layout p d f,
          le→ltb (length p + length d + length f) (length p + length d) (omega arith),
          add-sub_left,
          le→leb (length xs) (length f) h,
        )
        (λ k. ok (
          (pos (length xs), none),
          record { buf = whole k; read_index = pos (length p); write_index = moved k },
        ))
    where
      whole :
          copy_at (length p + length d) (p ++ (d ++ f)) xs ≡ p ++ ((d ++ xs) ++ drop (length xs) f)
      whole =
          filled
          ∙ ap (λ t. p ++ ((d ++ t) ++ drop (length xs) f)) (take_of_length-le (length f) xs h)

      moved : length p + length d + length xs ≡ length p + length (d ++ xs)
      moved = omega (arith, length-append d xs)

  -- What `ReadFd` does when the free room is too small: it writes the rest of the bytes.
  abbrev extra : List ℕ
  extra = drop (length f) xs

  read_fd-extra :
      length f < length xs
      → length xs - length f ≤ extra_size
      → read_fd (received xs) (layout p d f)
        ≡ (write extra brimming >>= λ (_, c). ok ((pos (length xs), none), c))
  unfolding read_fd
  read_fd-extra h small = rw (
    brimming_lem h,
    length-layout p d f,
    le→ltb (length p + length d + length f) (length p + length d) (omega arith),
    add-sub_left,
    lt→leb (length xs) (length f) h,
    le→ltb extra_size (length xs - length f) small,
  )

  length-extra : length extra ≡ length xs - length f
  length-extra = length-drop (length f) xs

-- When `readv` delivers `xs`, at most 65536 bytes more than the free room, `ReadFd` returns their
-- number and no error, and stores them all behind the unread bytes, if those that the free room
-- does not hold fit into the consumed room, or are more than the unread and the free bytes
-- together.
pub read_fd_stores_all :
    (p d f xs : List ℕ)
    → length xs - length f ≤ extra_size
    → (length xs - length f ≤ length p) ⊎ (length d + length f < length xs - length f)
    → (p' : List ℕ) × (f' : List ℕ) × (read_fd (received xs) (layout p d f)
        ≡ ok ((pos (length xs), none), layout p' (d ++ xs) f'))
read_fd_stores_all p d f xs small fits = elim (dec_le (length xs) (length f)) [
  | yes h ↦ (p, drop (length xs) f, read_fd-room p d f xs h)
  | no h ↦
      let (p', f', e) = write_stores_all p (d ++ take (length f) xs) [] (extra p d f xs) (
        omega (
          arith,
          fits,
          length-extra p d f xs,
          length-append d (take (length f) xs),
          length-take (length f) xs,
        )) in
      let whole : (d ++ take (length f) xs) ++ drop (length f) xs ≡ d ++ xs =
        append_assoc d (take (length f) xs) (drop (length f) xs)
        ∙ ap (λ t. d ++ t) (take-append-drop (length f) xs) in
      (
        p',
        f',
        read_fd-extra p d f xs (omega arith) small
            ∙ rw e (ap (λ t. ok ((pos (length xs), none), layout p' t f')) whole),
      )
]

-- When the bytes that the free room does not hold fit neither into the consumed room nor are more
-- than the unread and free bytes together, `ReadFd` still returns the number of all the bytes of
-- `xs` and no error, but keeps only the first of them, as many as the free and the consumed room.
pub read_fd_drops_bytes :
    (p d f xs : List ℕ)
    → length xs - length f ≤ extra_size
    → length p < length xs - length f
    → length xs - length f ≤ length d + length f
    → (read_fd (received xs) (layout p d f)
        ≡ ok ((pos (length xs), none), layout [] (d ++ take (length f + length p) xs) []))
read_fd_drops_bytes p d f xs small over low =
    read_fd-extra p d f xs (omega arith) small
    ∙ rw
        (write_drops_bytes p (d ++ take (length f) xs) [] (extra p d f xs)
          (omega (arith, length-extra p d f xs))
          (omega (
            arith,
            length-extra p d f xs,
            length-append d (take (length f) xs),
            length-take (length f) xs,
          )))
        (ap (λ t. ok ((pos (length xs), none), layout [] t []))
          (rw
            (
              take-add (length f) (length p) xs,
              ← append_assoc d (take (length f) xs) (take (length p) (drop (length f) xs)),
            )
            (ap (λ n. (d ++ take (length f) xs) ++ take n (drop (length f) xs)) (omega arith))))
