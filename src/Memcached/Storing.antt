-- ===== src/Memcached/Storing.antt =====
-- memcached_server.go: the cache as one map from keys to values, and Store, Get and Delete on it.
use mathlib.Core.Path.{subst}
use muduo_go.Prelude.{
  ℕ, ◌+◌, ◌%◌, ◌^◌, ◌≡◌, ◌⊎◌, refl, sym, ap, ◌∙◌, Bool, true, false, Option, none, some, List, ◌++◌,
  if◌then◌else◌, ok, ==_self, Bool-cases, inl, inr, length, arith, length-append, take-append,
  le→leb, ◌==◌,
}
use muduo_go.Text.{eq_bytes, eq_bytes_self, eq_bytes_sound}
use muduo_go.Memcached.{
  UpdatePolicy, invalid, set, add, replace, append, prepend, cas, Item, key_of, Memcached, slotn,
  next_cas, set_slot, is_some, put, store_by, store, get, delete,
}
use muduo_go.Memcached.Cache.{
  Cache, Entry, IsComplete, IsPlain, Represents, Shows, accepts, bound, crlf, g_cas-set_slot,
  spec_delete, spec_store, stored,
}

module _ (hash : List ℕ → ℕ) where
  -- Writing the slot of a key changes what `Get` returns for that key only.
  get-set_slot :
      (key : List ℕ) (v : Option Item) (m : Memcached) (q : List ℕ)
      → get hash q (set_slot (hash key % slotn) key v m)
        ≡ (if eq_bytes q key then v else get hash q m)
  unfolding get set_slot
  get-set_slot key v m q = elim (Bool-cases (eq_bytes q key)) [
    | inl e ↦
        let same = eq_bytes_sound q key e in
        rw same (rw (eq_bytes_self key, ==_self (hash key % slotn)) refl)
    | inr e ↦ ground arith
  ]

  Shows-some :
      (key : List ℕ) (o : Option Item) (p : Option Entry) → Shows key o p → is_some o ≡ is_some p
  Shows-some key none none s = refl
  Shows-some key (some it) (some e) s = refl
  Shows-some key none (some e) s = elim s [ ]
  Shows-some key (some it) none s = elim s [ ]

  Shows-if :
      (b : Bool) (q : List ℕ) (v o : Option Item) (e p : Option Entry)
      → (b ≡ true → Shows q v e)
      → Shows q o p
      → Shows q (if b then v else o) (if b then e else p)
  Shows-if true q v o e p s t = s refl
  Shows-if false q v o e p s t = t

  Represents-bound :
      (key : List ℕ) (v : Option Item) (e : Option Entry) (m : Memcached) (c : Cache)
      → Represents hash m c
      → Shows key v e
      → Represents hash (set_slot (hash key % slotn) key v m) (bound key e c)
  Represents-bound key v e m c r s = record {
    shows = λ q. rw (get-set_slot key v m q) (
        Shows-if (eq_bytes q key) q v (get hash q m) e (c.entries q)
          (λ h. subst (λ x. Shows x v e) (sym (eq_bytes_sound q key h)) s) (r.shows q));
    last = g_cas-set_slot (hash key % slotn) key v m ∙ r.last;
  }

  counted :
      (m : Memcached) (c : Cache) (i n : ℕ)
      → Represents hash m c
      → i ≡ n
      → Represents hash (record m { g_cas = i }) (record c { last = n })
  unfolding get
  counted m c i n r e = record { shows = r.shows; last = e }

  pub put-Represents :
      (it : Item) (key : List ℕ) (e : Entry) (m : Memcached) (c : Cache)
      → Represents hash m c
      → IsComplete it key e
      → it.hash ≡ hash key
      → Represents hash (put it key m) (stored key e c).1
  put-Represents it key e m c r v h =
      let n : next_cas m ≡ (c.last + 1) % 2 ^ 64 = ap (λ x. (x + 1) % 2 ^ 64) r.last in
      let new = record it { cas_unique = next_cas m } in
      let entry = record e { cas_unique = (c.last + 1) % 2 ^ 64 } in
      let w : IsComplete new key entry = record {
        contents = v.contents;
        keylen = v.keylen;
        valuelen = v.valuelen;
        flags = v.flags;
        exptime = v.exptime;
        cas_unique = n;
      } in
      subst
        (λ i.
          Represents hash (record (set_slot i key (some new) m) { g_cas = next_cas m })
            (stored key e c).1)
        (ap (λ x. x % slotn) (sym h))
        (counted (set_slot (hash key % slotn) key (some new) m) (bound key (some entry) c)
          (next_cas m) ((c.last + 1) % 2 ^ 64)
          (Represents-bound key (some new) (some entry) m c r w) n)

  pub key_of_lem : (it : Item) (key : List ℕ) (e : Entry) → IsComplete it key e → key_of it ≡ ok key
  unfolding key_of
  key_of_lem it key e v =
      rw
        (
          v.contents,
          v.keylen,
          le→leb (length key) (length (key ++ (e.value ++ crlf)))
              (omega (arith, length-append key (e.value ++ crlf))),
          take-append key (e.value ++ crlf),
        )
        refl

  -- The result of `Store`, from what its branches return.
  store-from :
      (it : Item) (key : List ℕ) (policy : UpdatePolicy) (m : Memcached) (b : Bool) (n : Memcached)
      → key_of it ≡ ok key
      → it.hash ≡ hash key
      → store_by hash policy it key (get hash key m) m ≡ ok (b, n)
      → store hash it policy m ≡ ok ((b, is_some (get hash key m)), n)
  unfolding store get
  store-from it key policy m b n k h run =
      let same : m.slots (it.hash % slotn) key ≡ get hash key m =
        ap (λ x. m.slots (x % slotn) key) h in
      rw (k, same) (rw run refl)

  abbrev Stores : UpdatePolicy → Item → List ℕ → Entry → Memcached → Cache → Type 0
  Stores policy it key e m c =
      (n : Memcached) × (store hash it policy m ≡ ok ((spec_store policy key e c).0, n))
      × Represents hash n (spec_store policy key e c).1

  abbrev Decides :
      UpdatePolicy → Item → List ℕ → Entry → Memcached → Option Item → Option Entry → Type 0
  Decides policy it key e m o p =
      ((accepts policy e.cas_unique p ≡ true)
        × (store_by hash policy it key o m ≡ ok (true, put it key m)))
      ⊎ ((accepts policy e.cas_unique p ≡ false)
          × (store_by hash policy it key o m ≡ ok (false, m)))

  decides :
      (policy : UpdatePolicy) (it : Item) (key : List ℕ) (e : Entry) (m : Memcached)
      (o : Option Item) (p : Option Entry)
      → IsPlain policy p
      → IsComplete it key e
      → Shows key o p
      → Decides policy it key e m o p
  unfolding store_by
  decides invalid it key e m o p l v s = elim l [ ]
  decides set it key e m o p l v s = inl (refl, refl)
  decides add it key e m none none l v s = inl (refl, refl)
  decides add it key e m (some x) (some y) l v s = inr (refl, refl)
  decides replace it key e m none none l v s = inr (refl, refl)
  decides replace it key e m (some x) (some y) l v s = inl (refl, refl)
  decides append it key e m none none l v s = inr (refl, refl)
  decides prepend it key e m none none l v s = inr (refl, refl)
  decides cas it key e m none none l v s = inr (refl, refl)
  decides cas it key e m (some x) (some y) l v s =
      rw (s.cas_unique, v.cas_unique)
        (elim (Bool-cases (y.cas_unique == e.cas_unique)) [
          | inl h ↦ inl (h, rw h refl)
          | inr h ↦ inr (h, rw h refl)
        ])
  decides add it key e m none (some y) l v s = elim s [ ]
  decides add it key e m (some x) none l v s = elim s [ ]
  decides replace it key e m none (some y) l v s = elim s [ ]
  decides replace it key e m (some x) none l v s = elim s [ ]
  decides append it key e m o (some y) l v s = elim l [ ]
  decides append it key e m (some x) none l v s = elim s [ ]
  decides prepend it key e m o (some y) l v s = elim l [ ]
  decides prepend it key e m (some x) none l v s = elim s [ ]
  decides cas it key e m none (some y) l v s = elim s [ ]
  decides cas it key e m (some x) none l v s = elim s [ ]

  store-decided :
      (policy : UpdatePolicy) (it : Item) (key : List ℕ) (e : Entry) (m : Memcached) (c : Cache)
      → Represents hash m c
      → IsComplete it key e
      → it.hash ≡ hash key
      → Decides policy it key e m (get hash key m) (c.entries key)
      → Stores policy it key e m c
  store-decided policy it key e m c r v h (inl (yes_spec, run)) = rw yes_spec (
    put it key m,
    store-from it key policy m true (put it key m) (key_of_lem it key e v) h run
        ∙ ap (λ b. ok ((true, b), put it key m))
            (Shows-some key (get hash key m) (c.entries key) (r.shows key)),
    put-Represents it key e m c r v h,
  )
  store-decided policy it key e m c r v h (inr (no_spec, run)) = rw no_spec (
    m,
    store-from it key policy m false m (key_of_lem it key e v) h run
        ∙ ap (λ b. ok ((false, b), m))
            (Shows-some key (get hash key m) (c.entries key) (r.shows key)),
    r,
  )

-- On slots that show a map, `Store` of a complete item whose hash is that of its key, by a policy
-- that is valid and is not to append or to prepend to a value that is there, does not panic,
-- returns what the map says, and leaves slots that show the updated map: the new value with the
-- next unique number where the policy accepts, and the old map where it does not.
pub store_refines :
    (hash : List ℕ → ℕ) (policy : UpdatePolicy) (it : Item) (key : List ℕ) (e : Entry)
    (m : Memcached) (c : Cache)
    → Represents hash m c
    → IsComplete it key e
    → it.hash ≡ hash key
    → IsPlain policy (c.entries key)
    → (n : Memcached) × (store hash it policy m ≡ ok ((spec_store policy key e c).0, n))
      × Represents hash n (spec_store policy key e c).1
store_refines hash policy it key e m c r v h l =
    store-decided hash policy it key e m c r v h
      (decides hash policy it key e m (get hash key m) (c.entries key) l v (r.shows key))

Shows-none : (key : List ℕ) (o : Option Item) → is_some o ≡ false → Shows key o none
Shows-none key none e = tt
Shows-none key (some it) e = absurd (cc)

-- A key that is not bound may be unbound.
Represents-absent :
    (hash : List ℕ → ℕ) (key : List ℕ) (m : Memcached) (c : Cache)
    → Represents hash m c
    → is_some (get hash key m) ≡ false
    → Represents hash m (bound key none c)
Represents-absent hash key m c r e = record {
  shows = λ q. elim (Bool-cases (eq_bytes q key)) [
    | inl h ↦ rw h (
        Shows-none q (get hash q m) (ap (λ x. is_some (get hash x m)) (eq_bytes_sound q key h) ∙ e))
    | inr h ↦ rw h (r.shows q)
  ];
  last = r.last;
}

delete-by :
    (hash : List ℕ → ℕ) (key : List ℕ) (m : Memcached) (c : Cache)
    → Represents hash m c
    → (b : Bool) → is_some (get hash key m) ≡ b
    → ((delete hash key m).0 ≡ b) × Represents hash (delete hash key m).1 (bound key none c)
unfolding delete
delete-by hash key m c r true e = rw e (refl, Represents-bound hash key none none m c r tt)
delete-by hash key m c r false e = rw e (refl, Represents-absent hash key m c r e)

-- On slots that show a map, `Delete` returns whether the key is bound, and leaves slots that show
-- the map without it.
pub delete_refines :
    (hash : List ℕ → ℕ) (key : List ℕ) (m : Memcached) (c : Cache)
    → Represents hash m c
    → ((delete hash key m).0 ≡ (spec_delete key c).0)
      × Represents hash (delete hash key m).1 (spec_delete key c).1
delete_refines hash key m c r =
    let (e, w) = delete-by hash key m c r (is_some (get hash key m)) refl in
    (e ∙ Shows-some hash key (get hash key m) (c.entries key) (r.shows key), w)
