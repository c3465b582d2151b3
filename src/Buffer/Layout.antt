-- ===== src/Buffer/Layout.antt =====
-- buffer.go: a buffer as its consumed, unread and free bytes, and the slices of such a buffer.
use muduo_go.Prelude.{
  ℕ, ◌+◌, ◌-◌, ◌≤◌, ◌≡◌, ap, sym, ◌∙◌, ℤ, pos, negsuc, List, ◌++◌, ok, arith, length, take, drop,
  length-append, length-take, length-drop, take-append-drop, take-append_le, drop-take-append,
  take_of_length-le, le→leb, -ℤ-pos,
}
use muduo_go.Buffer.{Buffer, slice, readable_bytes, writable_bytes, peek}

abbrev pub layout : List ℕ → List ℕ → List ℕ → Buffer
layout consumed unread free = record {
  buf = consumed ++ (unread ++ free);
  read_index = pos (length consumed);
  write_index = length consumed + length unread;
}

-- The indices are in order and within the slice.
abbrev Ordered : ℤ → ℕ → ℕ → Type 0
Ordered (pos r) w n = (r ≤ w) × (w ≤ n)
Ordered (negsuc _) w n = ⊥

abbrev pub IsValid : Buffer → Type 0
IsValid b = Ordered b.read_index b.write_index (length b.buf)

pub length-layout : (p d f : List ℕ) → length (p ++ (d ++ f)) ≡ length p + length d + length f
length-layout p d f = omega (arith, length-append p (d ++ f), length-append d f)

pub layout-IsValid : (p d f : List ℕ) → IsValid (layout p d f)
layout-IsValid p d f = omega (arith, length-layout p d f)

layout_of_indices :
    (l : List ℕ) (i : ℤ) (w : ℕ)
    → Ordered i w (length l)
    → (p : List ℕ) × (d : List ℕ) × (f : List ℕ) × (◌≡◌ {A = Buffer}
        (record { buf = l; read_index = i; write_index = w })
        (layout p d f))
layout_of_indices l (pos r) w h = (
  take r l,
  take (w - r) (drop r l),
  drop (w - r) (drop r l),
  λ k. record { buf = whole k; read_index = pos (start k); write_index = end k },
)
  where
    whole : l ≡ take r l ++ (take (w - r) (drop r l) ++ drop (w - r) (drop r l))
    whole =
        sym (ap (λ t. take r l ++ t) (take-append-drop (w - r) (drop r l)) ∙ take-append-drop r l)

    start : r ≡ length (take r l)
    start = omega (arith, length-take r l)

    end : w ≡ length (take r l) + length (take (w - r) (drop r l))
    end = omega (arith, length-take r l, length-take (w - r) (drop r l), length-drop r l)
layout_of_indices l (negsuc _) w h = elim h [ ]

-- A valid buffer is one that consists of consumed, unread and free bytes.
pub IsValid-layout :
    (b : Buffer) → IsValid b → (p : List ℕ) × (d : List ℕ) × (f : List ℕ) × (b ≡ layout p d f)
IsValid-layout b h = layout_of_indices b.buf b.read_index b.write_index h

module _ (p d f : List ℕ) where
  pub readable_bytes-layout : readable_bytes (layout p d f) ≡ pos (length d)
  unfolding readable_bytes
  readable_bytes-layout = -ℤ-pos (length p) (length d)

  pub writable_bytes-layout : writable_bytes (layout p d f) ≡ pos (length f)
  unfolding writable_bytes
  writable_bytes-layout = rw length-layout (-ℤ-pos (length p + length d) (length f))

  -- The first `n` unread bytes.
  pub slice-layout_first :
      (n : ℕ) → n ≤ length d → slice (pos (length p)) (length p + n) (p ++ (d ++ f)) ≡ ok (take n d)
  slice-layout_first n h = rw (
    le→leb (length p) (length p + n) (omega arith),
    le→leb (length p + n) (length (p ++ (d ++ f))) (omega (arith, length-layout p d f)),
    drop-take-append p (d ++ f) n,
    take-append_le n d f h,
  )

  pub slice-layout : slice (pos (length p)) (length p + length d) (p ++ (d ++ f)) ≡ ok d
  slice-layout =
      slice-layout_first (length d) (omega arith) ∙ ap ok (take_of_length-le _ d (omega arith))

  -- `Peek` returns the unread bytes.
  pub peek-layout : peek (layout p d f) ≡ ok d
  unfolding peek
  peek-layout = slice-layout
