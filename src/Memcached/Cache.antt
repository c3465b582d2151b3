-- ===== src/Memcached/Cache.antt =====
-- memcached_server.go: the cache without slots, as one map from keys to values, and what is stored.
use muduo_go.Prelude.{
  ℕ, ◌+◌, ◌%◌, ◌^◌, ◌≡◌, refl, Bool, true, false, Option, none, some, List, [], ◌∷◌, ◌++◌,
  if◌then◌else◌, length, pos, ℤ, ◌==◌,
}
use muduo_go.Text.{eq_bytes}
use muduo_go.Memcached.{
  UpdatePolicy, invalid, set, add, replace, append, prepend, cas, Item, Memcached, set_slot,
  is_some, get,
}

-- What a client sees of an item.
pub record Entry : Type 0 where
  pub value : List ℕ
  pub flags : ℕ
  pub exptime : ℤ
  pub cas_unique : ℕ

-- The cache without slots: a map, and the last unique number.
pub record Cache : Type 0 where
  pub entries : List ℕ → Option Entry
  pub last : ℕ

abbrev pub bound : List ℕ → Option Entry → Cache → Cache
bound key e c = record c { entries = λ q. if eq_bytes q key then e else c.entries q }

abbrev pub stored : List ℕ → Entry → Cache → (Bool × Bool) × Cache
stored key e c =
    let n = (c.last + 1) % 2 ^ 64 in
    (
      (true, is_some (c.entries key)),
      record (bound key (some (record e { cas_unique = n })) c) { last = n },
    )

-- Whether a policy stores over what is there. Appending to an entry that is there is left out.
abbrev pub accepts : UpdatePolicy → ℕ → Option Entry → Bool
accepts set u e = true
accepts add u none = true
accepts replace u (some e) = true
accepts cas u (some e) = e.cas_unique == u
accepts _ u e = false

abbrev pub spec_store : UpdatePolicy → List ℕ → Entry → Cache → (Bool × Bool) × Cache
spec_store policy key e c =
    if accepts policy e.cas_unique (c.entries key)
    then stored key e c
    else ((false, is_some (c.entries key)), c)

-- STORED, NOT_STORED, EXISTS and NOT_FOUND, each with the end of the line.
abbrev pub stored_line : List ℕ
stored_line = 83 ∷ 84 ∷ 79 ∷ 82 ∷ 69 ∷ 68 ∷ 13 ∷ 10 ∷ []

abbrev pub not_stored_line : List ℕ
not_stored_line = 78 ∷ 79 ∷ 84 ∷ 95 ∷ stored_line

abbrev pub exists_line : List ℕ
exists_line = 69 ∷ 88 ∷ 73 ∷ 83 ∷ 84 ∷ 83 ∷ 13 ∷ 10 ∷ []

abbrev pub not_found_line : List ℕ
not_found_line = 78 ∷ 79 ∷ 84 ∷ 95 ∷ 70 ∷ 79 ∷ 85 ∷ 78 ∷ 68 ∷ 13 ∷ 10 ∷ []

-- What a client is told of an update with the unique number `u`, by the policy and what is bound.
abbrev pub spec_reply : UpdatePolicy → ℕ → Option Entry → List ℕ
spec_reply set u p = stored_line
spec_reply add u none = stored_line
spec_reply replace u (some e) = stored_line
spec_reply cas u (some e) = if e.cas_unique == u then stored_line else exists_line
spec_reply cas u none = not_found_line
spec_reply _ u p = not_stored_line

abbrev pub spec_delete : List ℕ → Cache → Bool × Cache
spec_delete key c = (is_some (c.entries key), bound key none c)

abbrev pub crlf : List ℕ
crlf = 13 ∷ 10 ∷ []

-- All bytes of the item have come: its key, its value and the end of the line.
pub record IsComplete (it : Item) (key : List ℕ) (e : Entry) : Type 0 where
  pub contents : it.contents ≡ key ++ (e.value ++ crlf)
  pub keylen : it.keylen ≡ length key
  pub valuelen : it.valuelen ≡ pos (length e.value + 2)
  pub flags : it.flags ≡ e.flags
  pub exptime : it.exptime ≡ e.exptime
  pub cas_unique : it.cas_unique ≡ e.cas_unique

abbrev pub Shows : List ℕ → Option Item → Option Entry → Type 0
Shows key none none = Unit
Shows key (some it) (some e) = IsComplete it key e
Shows key _ _ = ⊥

-- The slots show the map to `Get`.
pub record Represents (hash : List ℕ → ℕ) (m : Memcached) (c : Cache) : Type 0 where
  pub shows : (key : List ℕ) → Shows key (get hash key m) (c.entries key)
  pub last : m.g_cas ≡ c.last

pub g_cas-set_slot :
    (i : ℕ) (key : List ℕ) (v : Option Item) (m : Memcached) → (set_slot i key v m).g_cas ≡ m.g_cas
unfolding set_slot
g_cas-set_slot i key v m = refl

-- The policy is none that joins the item with an old one.
abbrev pub IsPlain : UpdatePolicy → Option Entry → Type 0
IsPlain invalid p = ⊥
IsPlain append (some e) = ⊥
IsPlain prepend (some e) = ⊥
IsPlain _ p = Unit
