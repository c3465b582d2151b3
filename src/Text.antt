-- ===== src/Text.antt =====
-- What the servers and the client use of the packages bytes and strconv, on lists of bytes.
mod Literals
pub use Literals.*
use muduo_go.Prelude.{
  ℕ, zero, suc, ◌+◌, ◌-◌, ◌*◌, ◌/◌, ◌%◌, ◌^◌, Bool, true, false, ◌&&◌, ◌||◌, Option, none, some,
  List, [], ◌∷◌, ◌++◌, if◌then◌else◌, ltb, leb, ◌==◌, ℤ, pos, negsuc, ◌≡◌, refl, arith, ==_self,
}

-- How many bytes the space character at the front has in UTF-8, or 0. A byte that begins one never
-- stands within another character, so a list can be searched byte by byte.
two_byte_space : ℕ → ℕ → Bool
two_byte_space a b = a == 0xc2 && (b == 0x85 || b == 0xa0)

three_byte_space : ℕ → ℕ → ℕ → Bool
three_byte_space a b c =
    (a == 0xe1 && b == 0x9a && c == 0x80)
    || (a == 0xe2
        && b == 0x80
        && ((leb 0x80 c && leb c 0x8a) || c == 0xa8 || c == 0xa9 || c == 0xaf))
    || (a == 0xe2 && b == 0x81 && c == 0x9f)
    || (a == 0xe3 && b == 0x80 && c == 0x80)

one_byte_space : ℕ → Bool
one_byte_space a = a == 32 || (leb 9 a && leb a 13)

pub space_size : List ℕ → ℕ
unfolding one_byte_space two_byte_space three_byte_space
space_size [] = 0
space_size (a ∷ []) = if one_byte_space a then 1 else 0
space_size (a ∷ b ∷ []) = if one_byte_space a then 1 else if two_byte_space a b then 2 else 0
space_size (a ∷ b ∷ c ∷ r) =
    if one_byte_space a
    then 1
    else if two_byte_space a b
    then 2
    else if three_byte_space a b c
    then 3
    else 0

end_field : List ℕ → List (List ℕ) → List (List ℕ)
end_field [] fs = fs
end_field (x ∷ xs) fs = (x ∷ xs) ∷ fs

-- `skip` bytes of a space are still to come; `word` is what the current field has so far.
pub fields_loop : ℕ → List ℕ → List ℕ → List (List ℕ)
unfolding end_field space_size
fields_loop skip word [] = end_field word []
fields_loop (suc skip) word (x ∷ xs) = fields_loop skip word xs
fields_loop zero word (x ∷ xs) = elim (space_size (x ∷ xs)) [
  | zero ↦ fields_loop 0 (word ++ x ∷ []) xs
  | suc n ↦ end_field word (fields_loop n [] xs)
]

-- `bytes.Fields`
unfoldable pub fields : List ℕ → List (List ℕ)
unfolding fields_loop
fields xs = fields_loop 0 [] xs

unfoldable pub parse_digits : ℕ → List ℕ → Option ℕ
parse_digits n [] = some n
parse_digits n (d ∷ ds) =
    let rest = parse_digits (n * 10 + (d - 48)) ds in if leb 48 d && leb d 57 then rest else none

abbrev below : ℕ → Option ℕ → Option ℕ
below limit none = none
below limit (some n) = if ltb n limit then some n else none

-- `strconv.ParseUint(s, 10, bits)`, where an error is `none`
unfoldable pub parse_uint : ℕ → List ℕ → Option ℕ
parse_uint bits [] = none
parse_uint bits (d ∷ ds) = below (2 ^ bits) (parse_digits 0 (d ∷ ds))

abbrev negate : ℕ → ℤ
negate zero = pos 0
negate (suc n) = negsuc n

abbrev signed : ℕ → Bool → Option ℕ → Option ℤ
signed bits negative none = none
signed bits false (some n) = if ltb n (2 ^ (bits - 1)) then some (pos n) else none
signed bits true (some n) = if leb n (2 ^ (bits - 1)) then some (negate n) else none

-- `strconv.ParseInt(s, 10, bits)`
unfoldable pub parse_int : ℕ → List ℕ → Option ℤ
unfolding parse_uint
parse_int bits [] = none
parse_int bits (d ∷ ds) =
    if d == b'+'
    then signed bits false (parse_uint bits ds)
    else if d == b'-'
    then signed bits true (parse_uint bits ds)
    else signed bits false (parse_uint bits (d ∷ ds))

unfoldable pub decimal_loop : ℕ → ℕ → List ℕ → List ℕ
decimal_loop zero n ds = ds
decimal_loop (suc k) n ds =
    let rest = decimal_loop k (n / 10) ((n % 10 + 48) ∷ ds) in
    if ltb n 10 then (n + 48) ∷ ds else rest

-- `strconv.Itoa`; a number has no more digits than its successor counts.
unfoldable pub itoa : ℤ → List ℕ
unfolding decimal_loop
itoa (pos n) = decimal_loop (suc n) n []
itoa (negsuc n) = b'-' ∷ decimal_loop (suc (suc n)) (suc n) []

-- `int(n)` of a 64-bit unsigned `n`
unfoldable pub to_int64 : ℕ → ℤ
to_int64 n = if ltb n (2 ^ 63) then pos n else negsuc (2 ^ 64 - 1 - n)

-- Equality of strings
unfoldable pub eq_bytes : List ℕ → List ℕ → Bool
eq_bytes [] [] = true
eq_bytes [] (y ∷ ys) = false
eq_bytes (x ∷ xs) [] = false
eq_bytes (x ∷ xs) (y ∷ ys) = x == y && eq_bytes xs ys

pub eq_bytes_self : (xs : List ℕ) → eq_bytes xs xs ≡ true
unfolding eq_bytes
eq_bytes_self [] = refl
eq_bytes_self (x ∷ xs) = rw (==_self x) (eq_bytes_self xs)

pub eq_bytes_sound : (xs ys : List ℕ) → eq_bytes xs ys ≡ true → xs ≡ ys
unfolding eq_bytes
eq_bytes_sound [] [] h = refl
eq_bytes_sound [] (y ∷ ys) h = absurd (cc)
eq_bytes_sound (x ∷ xs) [] h = absurd (cc)
eq_bytes_sound (x ∷ xs) (y ∷ ys) h = ground (arith, eq_bytes_sound xs ys)
