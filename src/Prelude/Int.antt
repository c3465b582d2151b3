-- ===== src/Prelude/Int.antt =====
-- Signed integers over the native numbers, under the library's names.
use Prim.Native.Nat.{ℕ, suc, ◌+◌, ◌-◌}
use mathlib.Core.Path.{◌≡◌}
use mathlib.Core.Bool.{Bool, true}
use native.Mathlib.Omega.{arith}
use muduo_go.Prelude.Tests.{ltb, leb, if◌then◌else◌}

-- `negsuc n` is -(n + 1).
pub data ℤ : Type 0 where
  pos : ℕ → ℤ
  negsuc : ℕ → ℤ

abbrev pub pos_part : ℤ → ℕ
pos_part (pos n) = n
pos_part (negsuc n) = 0

abbrev pub neg_part : ℤ → ℕ
neg_part (pos n) = 0
neg_part (negsuc n) = suc n

-- a - b, as an integer.
abbrev pub sub_ℕ : ℕ → ℕ → ℤ
sub_ℕ a b = if leb b a then pos (a - b) else negsuc (b - a - 1)

infixl 65 ◌+ℤ◌ ◌-ℤ◌
unfoldable pub ◌+ℤ◌ : ℤ → ℤ → ℤ
a +ℤ b = sub_ℕ (pos_part a + pos_part b) (neg_part a + neg_part b)

unfoldable pub ◌-ℤ◌ : ℤ → ℤ → ℤ
a -ℤ b = sub_ℕ (pos_part a + neg_part b) (neg_part a + pos_part b)

unfoldable pub leb_ℤ : ℤ → ℤ → Bool
leb_ℤ a b = leb (pos_part a + neg_part b) (pos_part b + neg_part a)

unfoldable pub ltb_ℤ : ℤ → ℤ → Bool
ltb_ℤ a b = ltb (pos_part a + neg_part b) (pos_part b + neg_part a)

-- The operations at the values that a valid state holds.
pub +ℤ-pos : (a b : ℕ) → pos a +ℤ pos b ≡ pos (a + b)
unfolding ◌+ℤ◌
+ℤ-pos a b = ground arith

pub -ℤ-pos : (a b : ℕ) → pos (a + b) -ℤ pos a ≡ pos b
unfolding ◌-ℤ◌
-ℤ-pos a b = ground arith

pub ltb_ℤ-pos : (a b : ℕ) → ltb_ℤ (pos a) (pos b) ≡ ltb a b
unfolding ltb_ℤ
ltb_ℤ-pos a b = ground arith

pub ltb_ℤ-negsuc : (n m : ℕ) → ltb_ℤ (negsuc n) (pos m) ≡ true
unfolding ltb_ℤ
ltb_ℤ-negsuc n m = ground arith

pub leb_ℤ-pos : (a b : ℕ) → leb_ℤ (pos a) (pos b) ≡ leb a b
unfolding leb_ℤ
leb_ℤ-pos a b = ground arith

pub +ℤ-back : (n : ℕ) → pos (suc n) +ℤ negsuc 0 ≡ pos n
unfolding ◌+ℤ◌
+ℤ-back n = ground arith

pub ruleset pos_laws = (+ℤ-pos, -ℤ-pos, ltb_ℤ-pos, leb_ℤ-pos)
