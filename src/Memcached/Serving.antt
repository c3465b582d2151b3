-- ===== src/Memcached/Serving.antt =====
-- examples/memcached/server/memcached_server.go: the options, the address that the server listens
-- on, and the map of the sessions by the names of their connections. A session is of any type `S`.
use muduo_go.Prelude.{
  ℕ, ◌≡◌, refl, ◌∙◌, ℤ, pos, Bool, true, false, not, Option, none, some, List, [], ◌∷◌, ◌++◌,
  if◌then◌else◌, Bool-cases, inl, inr, Run, ok, ◌>>◌, assert, arith,
}
use muduo_go.Text.{eq_bytes, bytes, itoa}

pub record Options : Type 0 where
  pub engine_cnt : ℤ
  pub port : ℤ

-- The functions of type `Option`.
unfoldable pub with_engine_cnt : ℤ → Options → Options
with_engine_cnt n opts = record opts { engine_cnt = n }

unfoldable pub with_port : ℤ → Options → Options
with_port n opts = record opts { port = n }

abbrev pub apply_all : List (Options → Options) → Options → Options
apply_all [] opts = opts
apply_all (f ∷ options) opts = apply_all options (f opts)

unfoldable pub load_options : List (Options → Options) → Options
load_options options = apply_all options (record { engine_cnt = pos 0; port = pos 0 })

-- The address in NewMemcached.
unfoldable pub server_addr : Options → List ℕ
server_addr opts = bytes "tcp4://:" ++ itoa opts.port

abbrev pub has_session : {S : Type 0} → Option S → Bool
has_session none = false
has_session (some s) = true

module _ {S : Type 0} where
  abbrev pub set_session : List ℕ → Option S → (List ℕ → Option S) → List ℕ → Option S
  set_session name s m q = if eq_bytes q name then s else m q

  -- `onConn`, by whether the connection is connected, with the session that NewSession makes then.
  unfoldable pub on_conn : Bool → List ℕ → S → (List ℕ → Option S) → Run (List ℕ → Option S)
  on_conn true name s m = do assert (not (has_session (m name))); ok (set_session name (some s) m)
  on_conn false name s m = ok (set_session name none m)

  -- The names with a session are those in `live`.
  abbrev pub Shows : (List ℕ → Option S) → (List ℕ → Bool) → Type 0
  Shows m live = (q : List ℕ) → has_session (m q) ≡ live q

  set_session-Shows :
      (name : List ℕ) (s : Option S) (m : List ℕ → Option S) (live : List ℕ → Bool)
      → Shows m live
      → Shows (set_session name s m) (λ q. if eq_bytes q name then has_session s else live q)
  set_session-Shows name s m live v q = elim (Bool-cases (eq_bytes q name)) [
    | inl e ↦ ground arith
    | inr e ↦ ground (arith, v q)
  ]

  -- When the names with a session are those of the connections that are up, onConn of a connection
  -- that comes up under a new name, or goes down, does not panic, and they are so afterwards.
  on_conn-Shows :
      (connected : Bool) (name : List ℕ) (s : S) (m : List ℕ → Option S) (live : List ℕ → Bool)
      → Shows m live
      → (connected ≡ true → live name ≡ false)
      → (d : List ℕ → Option S) × (on_conn connected name s m ≡ ok d)
        × Shows d (λ q. if eq_bytes q name then connected else live q)
  unfolding on_conn
  on_conn-Shows true name s m live v new =
      (_, rw (v name ∙ new refl) refl, set_session-Shows name (some s) m live v)
  on_conn-Shows false name s m live v new = (_, refl, set_session-Shows name none m live v)

-- The last of two settings counts.
load_options-last :
    (options : List (Options → Options)) (n k : ℤ)
    → load_options (options ++ with_port n ∷ with_engine_cnt k ∷ [])
      ≡ record { engine_cnt = k; port = n }
unfolding load_options with_port with_engine_cnt
load_options-last options n k = go options (record { engine_cnt = pos 0; port = pos 0 })
  where
    go :
        (fs : List (Options → Options)) (o : Options)
        → apply_all (fs ++ with_port n ∷ with_engine_cnt k ∷ []) o
          ≡ record { engine_cnt = k; port = n }
    go [] o = refl
    go (f ∷ fs) o = go fs (f o)
