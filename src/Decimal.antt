-- ===== src/Decimal.antt =====
-- tcp_server.go and socket.go: the two functions that print an unsigned number in decimal. The part
-- of the array that is filled, `b[bp:]` and `buf[i+1:]`, is a list of bytes; an index below 0
-- panics.
pub mod Printing
mod Tests
use muduo_go.Prelude.{
  ℕ, zero, suc, ◌+◌, ◌-◌, ◌*◌, ◌/◌, ◌%◌, ◌^◌, List, [], ◌∷◌, if◌then◌else◌, ◌==◌, ltb, Run, ok,
  panic,
}

-- `byte(x)`
abbrev pub to_byte : ℕ → ℕ
to_byte x = x % 2 ^ 8

-- The loop of `itod`, from the value of `bp`.
pub itod_loop : ℕ → ℕ → List ℕ → Run (List ℕ)
itod_loop zero i b = if i == 0 then ok b else panic
itod_loop (suc bp) i b =
    let rest = itod_loop bp (i / 10) ((to_byte (i % 10) + 48) % 2 ^ 8 ∷ b) in
    if i == 0 then ok b else rest

unfoldable pub itod : ℕ → Run (List ℕ)
itod i = if i == 0 then ok (48 ∷ []) else itod_loop 32 i []

-- The loop of `uint2decimalStr` and the digit after it; `i` of the source is here one less.
pub uint_loop : ℕ → ℕ → List ℕ → Run (List ℕ)
uint_loop zero val buf = panic
uint_loop (suc i) val buf =
    let q = val / 10 in
    let rest = uint_loop i q (to_byte (48 + val - q * 10) ∷ buf) in
    if ltb val 10 then ok (to_byte (48 + val) ∷ buf) else rest

unfoldable pub uint2decimal_str : ℕ → Run (List ℕ)
uint2decimal_str val = if val == 0 then ok (48 ∷ []) else uint_loop 20 val []
