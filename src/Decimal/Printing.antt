-- ===== src/Decimal/Printing.antt =====
-- tcp_server.go and socket.go: the printed digits, and that the two functions agree.
use native.Mathlib.Nat.{pow-suc}
use native.Mathlib.Decide.{dec_lt, ℕ_discrete}
use muduo_go.Prelude.{
  false, true, ℕ, zero, suc, ◌+◌, ◌-◌, ◌*◌, ◌/◌, ◌%◌, ◌^◌, ◌<◌, ◌≤◌, ◌≡◌, ◌≢◌, refl, sym, ap, ◌∙◌,
  List, [], ◌∷◌, ◌==◌, ltb, ok, arith,
}
use muduo_go.Decimal.{itod, itod_loop, uint_loop, uint2decimal_str, to_byte}

-- The number that the digits from `acc` on denote.
abbrev pub parse : ℕ → List ℕ → ℕ
parse acc [] = acc
parse acc (d ∷ ds) = parse (acc * 10 + (d - 48)) ds

-- Digits only.
abbrev pub AreDigits : List ℕ → Type 0
AreDigits [] = Unit
AreDigits (d ∷ ds) = (48 ≤ d) × (d ≤ 57) × AreDigits ds

digit_byte : (i : ℕ) → (to_byte (i % 10) + 48) % 2 ^ 8 ≡ i % 10 + 48
digit_byte i = omega arith

rest_byte : (val : ℕ) → to_byte (48 + val - val / 10 * 10) ≡ val % 10 + 48
rest_byte val = omega arith

itod_loop-zero : (bp : ℕ) (b : List ℕ) → itod_loop bp 0 b ≡ ok b
unfolding itod_loop
itod_loop-zero zero b = refl
itod_loop-zero (suc bp) b = refl

itod_loop-suc :
    (bp i : ℕ) (b : List ℕ)
    → i ≢ 0
    → itod_loop (suc bp) i b ≡ itod_loop bp (i / 10) ((i % 10 + 48) ∷ b)
unfolding itod_loop
itod_loop-suc bp i b ne =
    let other : (i == 0) ≡ false = ground arith in rw (other, digit_byte i) refl

itod_loop-parse :
    (bp i : ℕ) (b : List ℕ)
    → i < 10 ^ bp
    → AreDigits b
    → (ds : List ℕ) × (itod_loop bp i b ≡ ok ds) × (parse 0 ds ≡ parse i b) × AreDigits ds
itod_loop-parse zero i b p v = let e : i ≡ 0 = omega arith in rw e (b, itod_loop-zero 0 b, refl, v)
itod_loop-parse (suc bp) i b p v = elim (ℕ_discrete i 0) [
  | yes e ↦ rw e (b, itod_loop-zero (suc bp) b, refl, v)
  | no ne ↦
      let split : i / 10 * 10 + (i % 10 + 48 - 48) ≡ i = omega arith in
      let (ds, run, e, w) =
        itod_loop-parse bp (i / 10) ((i % 10 + 48) ∷ b) (omega (arith, pow-suc 10 bp))
          (omega arith, omega arith, v) in
      (ds, itod_loop-suc bp i b ne ∙ run, e ∙ ap (λ k. parse k b) split, w)
]

-- For a nonzero number the loop of uint2decimalStr writes what that of itod does.
uint_loop-itod_loop :
    (bp i val : ℕ) (b : List ℕ)
    → val ≢ 0
    → val < 10 ^ i
    → i ≤ bp
    → uint_loop i val b ≡ itod_loop bp val b
unfolding uint_loop
uint_loop-itod_loop bp zero val b ne p q = absurd (omega arith)
uint_loop-itod_loop zero (suc i) val b ne p q = absurd (omega arith)
uint_loop-itod_loop (suc bp) (suc i) val b ne p q = elim (dec_lt val 10) [
  | yes small ↦
      let one : ltb val 10 ≡ true = ground arith in
      let digit : to_byte (48 + val) ≡ val % 10 + 48 = omega arith in
      let none_left : val / 10 ≡ 0 = omega arith in
      rw (one, digit)
        (sym (itod_loop-suc bp val b ne ∙ rw none_left (itod_loop-zero bp ((val % 10 + 48) ∷ b))))
  | no large ↦
      let ih =
        uint_loop-itod_loop bp i (val / 10) ((val % 10 + 48) ∷ b) (omega arith)
          (omega (arith, pow-suc 10 i)) (omega arith) in
      let other : ltb val 10 ≡ false = ground arith in
      rw (other, rest_byte val) (ih ∙ sym (itod_loop-suc bp val b ne))
]

-- For every 64-bit number `itod` does not panic and returns digits that denote the number, and
-- `uint2decimalStr` returns the same.
pub itod-parse :
    (i : ℕ)
    → i < 2 ^ 64
    → (ds : List ℕ) × (itod i ≡ ok ds)
      × (uint2decimal_str i ≡ ok ds)
      × (parse 0 ds ≡ i)
      × AreDigits ds
unfolding itod uint2decimal_str
itod-parse i p = elim (ℕ_discrete i 0) [
  | yes e ↦ rw e (48 ∷ [], refl, refl, refl, (omega arith, omega arith, tt))
  | no ne ↦
      let other : (i == 0) ≡ false = ground arith in
      let (ds, run, e, w) = itod_loop-parse 32 i [] (omega arith) tt in
      (
        ds,
        rw other run,
        rw other (uint_loop-itod_loop 32 20 i [] ne (omega arith) (omega arith) ∙ run),
        e,
        w,
      )
]
