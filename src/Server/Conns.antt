-- ===== src/Server/Conns.antt =====
-- tcp_server.go: the connections of a list by their names.
use mathlib.Core.Path.{subst}
use mathlib.Core.List.{Memᴰ}
use muduo_go.Prelude.{
  ℕ, ◌≡◌, ◌≢◌, inl, inr, refl, sym, ap, ◌∙◌, Bool, true, false, Option, none, some, List, [], ◌∷◌,
  if◌then◌else◌, arith, Bool-cases,
}
use muduo_go.Text.{eq_bytes, eq_bytes_self, eq_bytes_sound}
use muduo_go.Server.{ServerConn}

-- The connections without those of a name.
abbrev pub without : List ℕ → List ServerConn → List ServerConn
without k [] = []
without k (c ∷ cs) = if eq_bytes c.name k then without k cs else c ∷ without k cs

abbrev pub find_conn : List ℕ → List ServerConn → Option ServerConn
find_conn q [] = none
find_conn q (c ∷ cs) = if eq_bytes q c.name then some c else find_conn q cs

-- No two have the same name.
abbrev pub Distinct : List ServerConn → Type 0
Distinct [] = Unit
Distinct (c ∷ cs) = ((d : ServerConn) → Memᴰ d cs → d.name ≢ c.name) × Distinct cs

pub find-without :
    (q k : List ℕ) (cs : List ServerConn)
    → find_conn q (without k cs) ≡ (if eq_bytes q k then none else find_conn q cs)
find-without q k [] = ground arith
find-without q k (c ∷ cs) = elim (Bool-cases (eq_bytes c.name k)) [
  | inl e ↦ rw e (find-without q k cs ∙ rw (eq_bytes_sound c.name k e) (ground arith))
  | inr e ↦ rw e (elim (Bool-cases (eq_bytes q c.name)) [
    | inl h ↦ rw h (rw (eq_bytes_sound q c.name h) (rw e refl))
    | inr h ↦ rw h (find-without q k cs)
  ])
]

mem-if :
    (b : Bool) (d c : ServerConn) (xs ys : List ServerConn)
    → (Memᴰ d xs → Memᴰ d ys)
    → Memᴰ d (if b then xs else c ∷ xs)
    → Memᴰ d (c ∷ ys)
mem-if true d c xs ys f m = Memᴰ.tail (f m)
mem-if false d c xs ys f (Memᴰ.head e) = Memᴰ.head e
mem-if false d c xs ys f (Memᴰ.tail m) = Memᴰ.tail (f m)

pub mem-without :
    (d : ServerConn) (k : List ℕ) (cs : List ServerConn) → Memᴰ d (without k cs) → Memᴰ d cs
mem-without d k [] m = m
mem-without d k (c ∷ cs) m = mem-if (eq_bytes c.name k) d c (without k cs) cs (mem-without d k cs) m

pub Distinct-without : (k : List ℕ) (cs : List ServerConn) → Distinct cs → Distinct (without k cs)
Distinct-without k [] d = tt
Distinct-without k (c ∷ cs) (ne, d) = elim (Bool-cases (eq_bytes c.name k)) [
  | inl e ↦ rw e (Distinct-without k cs d)
  | inr e ↦ rw e (λ x m. ne x (mem-without x k cs m), Distinct-without k cs d)
]

eq_bytes-ne : (xs ys : List ℕ) → xs ≢ ys → eq_bytes xs ys ≡ false
eq_bytes-ne xs ys ne = elim (Bool-cases (eq_bytes xs ys)) [
  | inl e ↦ absurd (ne (eq_bytes_sound xs ys e))
  | inr e ↦ e
]

pub find_conn-member :
    (c : ServerConn) (cs : List ServerConn) → Distinct cs → Memᴰ c cs → find_conn c.name cs ≡ some c
find_conn-member c [] _ m = elim m [ ]
find_conn-member c (d ∷ cs) (ne, _) (Memᴰ.head e) =
    subst (λ x. find_conn x.name (d ∷ cs) ≡ some x) (sym e) (rw (eq_bytes_self d.name) refl)
find_conn-member c (d ∷ cs) (ne, w) (Memᴰ.tail m) =
    rw (eq_bytes-ne c.name d.name (ne c m)) (find_conn-member c cs w m)

some_injective : (a b : ServerConn) → ◌≡◌ {A = Option ServerConn} (some a) (some b) → a ≡ b
some_injective a b e = cc

pub find_conn_sound :
    (q : List ℕ) (c : ServerConn) (cs : List ServerConn)
    → find_conn q cs ≡ some c
    → Memᴰ c cs × (c.name ≡ q)
find_conn_sound q c [] e = absurd (cc)
find_conn_sound q c (d ∷ cs) e = elim (Bool-cases (eq_bytes q d.name)) [
  | inl h ↦
      let same : d ≡ c = some_injective d c (rw h at e) in
      (Memᴰ.head (sym same), ap (λ x. x.name) (sym same) ∙ sym (eq_bytes_sound q d.name h))
  | inr h ↦ let (m, n) = find_conn_sound q c cs (rw h at e) in (Memᴰ.tail m, n)
]
