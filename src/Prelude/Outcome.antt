-- ===== src/Prelude/Outcome.antt =====
-- How a call ends: it returns a value, or it panics (a failed `util.Assert`, a slice expression or
-- an index out of range).
use mathlib.Core.Bool.{Bool, true, false}
use mathlib.Core.Path.{◌≡◌, refl}
use muduo_go.Prelude.Tests.{if◌then◌else◌}

pub data Run {ℓ} (A : Type ℓ) : Type ℓ where
  ok : A → Run A
  panic : Run A

infixl 5 ◌>>=◌ ◌>>◌
abbrev pub ◌>>=◌ {ℓ κ} : {A : Type ℓ} {B : Type κ} → Run A → (A → Run B) → Run B
ok a >>= f = f a
panic >>= f = panic

abbrev pub ◌>>◌ {ℓ κ} : {A : Type ℓ} {B : Type κ} → Run A → Run B → Run B
m >> k = m >>= λ _. k

-- `util.Assert(cond, …)`
abbrev pub assert : Bool → Run (Unit {0})
assert cond = if cond then ok tt else panic

pub of_ok {ℓ} : {A : Type ℓ} (x y : A) → ◌≡◌ {A = Run A} (ok x) (ok y) → x ≡ y
of_ok x y h = cc

-- What a call returns, if it does, satisfies `P`.
abbrev pub Post {ℓ κ} : {A : Type ℓ} → Run A → (A → Type κ) → Type κ
Post (ok a) P = P a
Post panic P = Unit

pub Post-bind {ℓ ℓ' κ κ'} :
    {A : Type ℓ} {B : Type ℓ'} (r : Run A) (f : A → Run B) (P : A → Type κ) (Q : B → Type κ')
    → Post r P
    → ((a : A) → P a → Post (f a) Q)
    → Post (r >>= f) Q
Post-bind (ok a) f P Q h k = k a h
Post-bind panic f P Q h k = tt

pub Post-any {ℓ ℓ' κ'} :
    {A : Type ℓ} {B : Type ℓ'} (r : Run A) (f : A → Run B) (Q : B → Type κ')
    → ((a : A) → Post (f a) Q)
    → Post (r >>= f) Q
Post-any (ok a) f Q k = k a
Post-any panic f Q k = tt

pub Post-if {ℓ κ} :
    {A : Type ℓ} (b : Bool) (x y : Run A) (P : A → Type κ)
    → Post x P
    → Post y P
    → Post (if b then x else y) P
Post-if true x y P p q = p
Post-if false x y P p q = q

pub Post-assert {ℓ κ} :
    {A : Type ℓ} (b : Bool) (r : Run A) (P : A → Type κ)
    → (b ≡ true → Post r P)
    → Post (assert b >> r) P
Post-assert true r P k = k refl
Post-assert false r P k = tt

pub Post-mono {ℓ κ κ'} :
    {A : Type ℓ} (r : Run A) (P : A → Type κ) (Q : A → Type κ')
    → Post r P
    → ((a : A) → P a → Q a)
    → Post r Q
Post-mono (ok a) P Q h k = k a h
Post-mono panic P Q h k = tt

pub Post-eq {ℓ ℓ' κ'} :
    {A : Type ℓ} {B : Type ℓ'} (r : Run A) (f : A → Run B) (Q : B → Type κ')
    → ((a : A) → r ≡ ok a → Post (f a) Q)
    → Post (r >>= f) Q
Post-eq (ok a) f Q k = k a refl
Post-eq panic f Q k = tt

pub Post-if_eq {ℓ κ} :
    {A : Type ℓ} (b : Bool) (x y : Run A) (P : A → Type κ)
    → (b ≡ true → Post x P)
    → (b ≡ false → Post y P)
    → Post (if b then x else y) P
Post-if_eq true x y P p q = p refl
Post-if_eq false x y P p q = q refl
