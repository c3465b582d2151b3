-- ===== src/Server/Names.antt =====
-- tcp_server.go: the names of connections.
use muduo_go.Prelude.{
  ℕ, zero, suc, ◌+◌, ◌-◌, ◌*◌, ◌/◌, ◌%◌, ◌^◌, ◌<◌, ◌≡◌, refl, sym, ap, ◌∙◌, Option, some, List, [],
  ◌∷◌, ◌++◌, arith, ltb, le→leb, lt→ltb, length, drop, drop-append, pos, Bool-cases, inl, inr,
}
use muduo_go.Text.{itoa, to_int64, decimal_loop, parse_digits, bytes}
use muduo_go.Server.{conn_name}

parse_digits-digit :
    (a d : ℕ) (ds : List ℕ) → d < 10 → parse_digits a ((d + 48) ∷ ds) ≡ parse_digits (a * 10 + d) ds
unfolding parse_digits
parse_digits-digit a d ds h =
    let plain : d + 48 - 48 ≡ d = omega arith in
    rw (le→leb 48 (d + 48) (omega arith), le→leb (d + 48) 57 (omega arith), plain) refl

parse_digits-decimal_loop :
    (k n : ℕ) (ds : List ℕ) → n < k → parse_digits 0 (decimal_loop k n ds) ≡ parse_digits n ds
unfolding decimal_loop
parse_digits-decimal_loop zero n ds h = absurd (omega arith)
parse_digits-decimal_loop (suc k) n ds h = elim (Bool-cases (ltb n 10)) [
  | inl e ↦
      rw e (parse_digits-digit 0 n ds (ground arith) ∙ ap (λ x. parse_digits x ds) (omega arith))
  | inr e ↦ rw e (
      parse_digits-decimal_loop k (n / 10) ((n % 10 + 48) ∷ ds) (ground arith)
      ∙ parse_digits-digit (n / 10) (n % 10) ds (omega arith)
      ∙ ap (λ x. parse_digits x ds) (omega arith))
]

-- The number can be read back from its digits.
parse_digits-itoa : (n : ℕ) → parse_digits 0 (itoa (pos n)) ≡ some n
unfolding itoa parse_digits
parse_digits-itoa n = parse_digits-decimal_loop (suc n) n [] (omega arith)

some-ℕ : (x y : ℕ) → ◌≡◌ {A = Option ℕ} (some x) (some y) → x ≡ y
some-ℕ x y e = cc

itoa-injective : (m n : ℕ) → itoa (pos m) ≡ itoa (pos n) → m ≡ n
itoa-injective m n e =
    some-ℕ m n (sym (parse_digits-itoa m) ∙ ap (parse_digits 0) e ∙ parse_digits-itoa n)

append-cancel : (xs ys zs : List ℕ) → xs ++ ys ≡ xs ++ zs → ys ≡ zs
append-cancel xs ys zs e = sym (drop-append xs ys) ∙ ap (drop (length xs)) e ∙ drop-append xs zs

pub conn_name-injective :
    (name addr : List ℕ) (m n : ℕ)
    → m < 2 ^ 63
    → n < 2 ^ 63
    → conn_name name addr m ≡ conn_name name addr n
    → m ≡ n
unfolding conn_name to_int64
conn_name-injective name addr m n h l e =
    let after_name = append-cancel name _ _ e in
    let after_addr = append-cancel addr _ _ (append-cancel (bytes "[") _ _ after_name) in
    let digits = append-cancel (bytes "-conn-") _ _ (append-cancel (bytes "]") _ _ after_addr) in
    let same : itoa (pos m) ≡ itoa (pos n) =
      rw (lt→ltb m (2 ^ 63) h, lt→ltb n (2 ^ 63) l) at digits in
    itoa-injective m n same
