-- ===== src/Buffer.antt =====
-- buffer.go: the byte buffer between the sockets and the user. The bytes before `readIndex` are
-- consumed, those up to `writeIndex` are unread, and the rest is free. `readIndex` is an integer,
-- since `Advance` may take it below zero; `writeIndex` only ever holds a length or a copied count.
-- A slice expression out of range panics. The upper bound of `b.buf[i:j]` is checked against the
-- length of `buf` and not its capacity. The slices that `Peek` and `Next` return share their bytes
-- with the buffer in Go; here they are the bytes at the time of the call. A byte is any number.
pub mod Layout
pub mod Writing
pub mod Reading
pub mod Receiving
pub mod Searching
mod Tests
use muduo_go.Prelude.{
  ℕ, zero, suc, ◌+◌, ◌-◌, ◌≡◌, Bool, true, false, ◌&&◌, ◌||◌, List, [], ◌∷◌, ◌++◌, Option, none,
  some, min, ℤ, pos, negsuc, pos_part, neg_part, sub_ℕ, ◌+ℤ◌, ◌-ℤ◌, ltb_ℤ, leb_ℤ, ltb, leb, ◌==◌,
  if◌then◌else◌, length, take, drop, replicate, copy, copy_at, Run, ok, panic, ◌>>=◌,
}

pub record Buffer : Type 0 where
  pub buf : List ℕ
  pub read_index : ℤ
  pub write_index : ℕ

-- `buf[i:j]`
abbrev pub slice : ℤ → ℕ → List ℕ → Run (List ℕ)
slice (pos i) j buf = if leb i j && leb j (length buf) then ok (drop i (take j buf)) else panic
slice (negsuc i) j buf = panic

unfoldable pub new_buffer : Buffer
new_buffer = record { buf = replicate 1024 0; read_index = pos 0; write_index = 0 }

unfoldable pub readable_bytes : Buffer → ℤ
readable_bytes b = pos b.write_index -ℤ b.read_index

unfoldable pub writable_bytes : Buffer → ℤ
writable_bytes b = pos (length b.buf) -ℤ pos b.write_index

unfoldable pub capacity : Buffer → ℕ
capacity b = length b.buf

unfoldable pub peek : Buffer → Run (List ℕ)
peek b = slice b.read_index b.write_index b.buf

unfoldable pub advance : ℤ → Buffer → Buffer
advance n b = record b { read_index = b.read_index +ℤ n }

unfoldable pub reset : ℕ → Buffer → Buffer
reset n b = record b { read_index = pos 0; write_index = n }

-- The last assignments run only after the slice, so `writeIndex - readIndex` is not negative.
pub make_space : ℕ → Buffer → Run Buffer
make_space n b =
    if ltb_ℤ (writable_bytes b +ℤ readable_bytes b) (pos n)
    then ok (record b { buf = b.buf ++ replicate n 0 })
    else do
      unread ← slice b.read_index b.write_index b.buf
      ok (record {
        buf = copy b.buf unread;
        read_index = pos 0;
        write_index = pos_part (pos b.write_index -ℤ b.read_index);
      })

pub ensure_writable_bytes : ℕ → Buffer → Run Buffer
ensure_writable_bytes n b = if ltb_ℤ (writable_bytes b) (pos n) then make_space n b else ok b

-- The count that `copy` returns is `n`; the error is always nil.
unfoldable pub write : List ℕ → Buffer → Run (ℕ × Buffer)
write src b = do
  c ← ensure_writable_bytes (length src) b
  let n = min (length c.buf - c.write_index) (length src)
  if leb c.write_index (length c.buf)
      then ok
          (n, record c { buf = copy_at c.write_index c.buf src; write_index = c.write_index + n })
      else panic

-- `n` is the size of the caller's slice; what is copied into it is returned.
unfoldable pub read : ℕ → Buffer → Run (List ℕ × Buffer)
read n b = do
  unread ← slice b.read_index b.write_index b.buf
  let got = take n unread
  ok (got, record b { read_index = b.read_index +ℤ pos (length got) })

unfoldable pub next : ℤ → Buffer → Run (List ℕ × Buffer)
next n b =
    if ltb_ℤ n (pos 0) || leb_ℤ (readable_bytes b) n
    then (do ret ← slice b.read_index b.write_index b.buf; ok (ret, reset 0 b))
    else (do
      ret ← slice b.read_index (pos_part (b.read_index +ℤ n)) b.buf
      ok (ret, record b { read_index = b.read_index +ℤ n }))

unfoldable pub shrink : ℤ → Buffer → Run Buffer
shrink reserve b = do
  let size = readable_bytes b +ℤ reserve
  unread ← peek b
  if ltb_ℤ size (pos 0)
      then panic
      else ok (record {
        buf = copy (replicate (pos_part size) 0) unread;
        read_index = pos 0;
        write_index = length unread;
      })

unfoldable pub is_prefix : List ℕ → List ℕ → Bool
is_prefix [] ys = true
is_prefix (x ∷ xs) [] = false
is_prefix (x ∷ xs) (y ∷ ys) = x == y && is_prefix xs ys

-- `bytes.Index`: the first position at which `s` stands.
unfoldable pub index : List ℕ → List ℕ → Option ℕ
unfolding is_prefix
index [] s = if is_prefix s [] then some 0 else none
index (x ∷ xs) s =
    let rest = index xs s in
    if is_prefix s (x ∷ xs) then some 0 else elim rest [ none ↦ none | some i ↦ some (suc i) ]

abbrev pub int_of : Option ℕ → ℤ
int_of none = negsuc 0
int_of (some i) = pos i

unfoldable pub search_bytes : List ℕ → Buffer → Run ℤ
search_bytes s b =
    if length s == 0 || ltb_ℤ (readable_bytes b) (pos (length s))
    then ok (negsuc 0)
    else do unread ← slice b.read_index b.write_index b.buf; ok (int_of (index unread s))

-- What `readv` into `buf[writeIndex:]` and a stack buffer of 65536 bytes does: it fails, with the
-- number that it returns and an error, or it delivers bytes, first into the one and then the other.
pub data Readv : Type 0 where
  failed : ℤ → ℕ → Readv
  received : List ℕ → Readv

abbrev pub extra_size : ℕ
extra_size = 65536

-- The result is the number and the error, and the buffer.
unfoldable pub read_fd : Readv → Buffer → Run ((ℤ × Option ℕ) × Buffer)
read_fd (failed n e) b = ok ((n, some e), b)
read_fd (received xs) b =
    let n = length xs in
    let writable = length b.buf - b.write_index in
    let filled = record b { buf = copy_at b.write_index b.buf xs } in
    if ltb (length b.buf) b.write_index
    then panic
    else if leb n writable
    then ok ((pos n, none), record filled { write_index = b.write_index + n })
    else if ltb extra_size (n - writable)
    then panic
    else do
      (_, c) ← write (drop writable xs) (record filled { write_index = length b.buf })
      ok ((pos n, none), c)
