-- ===== src/Memcached.antt =====
-- examples/memcached/server/item.go and memcached_server.go: the items and the map that holds them.
-- A byte string is a list of bytes. `hash` is crc64 of the standard library; no theorem depends on
-- which function it is, so it is a parameter. The maps of the slots are functions of the key. The
-- operations hold a slot's lock throughout, so each is one step. An item is not changed once it is
-- stored, so it is a value. A Go slice expression out of range panics.
pub mod Cache
pub mod Storing
pub mod Updating
pub mod Serving
pub mod Tests
use muduo_go.Prelude.{
  ℕ, zero, suc, ◌+◌, ◌-◌, ◌%◌, ◌^◌, Bool, true, false, ◌&&◌, Option, none, some, List, [], ◌∷◌,
  ◌++◌, if◌then◌else◌, Run, ok, panic, ◌>>=◌, ◌>>◌, assert, ltb, leb, ◌==◌, length, get_elem?, take,
  drop, replicate, copy_at, ℤ, pos, negsuc, pos_part, ◌+ℤ◌, ◌-ℤ◌, ltb_ℤ,
}
use muduo_go.Text.{eq_bytes}

pub data UpdatePolicy : Type 0 where
  invalid set add replace append prepend cas : UpdatePolicy

pub record Item : Type 0 where
  pub keylen : ℕ
  pub flags : ℕ
  pub exptime : ℤ
  pub valuelen : ℤ
  pub recv_bytes : ℕ
  pub cas_unique : ℕ
  pub hash : ℕ
  pub contents : List ℕ

-- `xs[i]` and `xs[:n]`
abbrev pub at_index {ℓ} : {A : Type ℓ} → ℕ → List A → Run A
at_index i [] = panic
at_index zero (x ∷ xs) = ok x
at_index (suc i) (x ∷ xs) = at_index i xs

abbrev pub slice_to : ℤ → List ℕ → Run (List ℕ)
slice_to (pos n) xs = if leb n (length xs) then ok (take n xs) else panic
slice_to (negsuc n) xs = panic

-- `NewItem`; `make` panics on a negative length.
unfoldable pub new_item : (List ℕ → ℕ) → List ℕ → ℕ → ℤ → ℤ → ℕ → Run Item
new_item hash key flags exptime valuelen c =
    let size = pos (length key) +ℤ valuelen in
    if ltb_ℤ size (pos 0)
    then panic
    else ok (record {
      keylen = length key;
      flags = flags;
      exptime = exptime;
      valuelen = valuelen;
      recv_bytes = 0;
      cas_unique = c;
      hash = hash key;
      contents = replicate (pos_part size) 0;
    })

unfoldable pub need_bytes : Item → ℤ
need_bytes it = pos it.keylen +ℤ it.valuelen -ℤ pos it.recv_bytes

-- The method `Append`
unfoldable pub append_bytes : List ℕ → Item → Run Item
append_bytes src it =
    if ltb (length it.contents) it.recv_bytes
    then panic
    else ok (record it {
      contents = copy_at it.recv_bytes it.contents src;
      recv_bytes = it.recv_bytes + length src;
    })

unfoldable pub end_with_crlf : Item → Run Bool
end_with_crlf it = if ltb it.recv_bytes 2 then panic else do
  cr ← at_index (it.recv_bytes - 2) it.contents
  if cr == 13 then (do lf ← at_index (it.recv_bytes - 1) it.contents; ok (lf == 10)) else ok false

-- The methods `Key` and `Value`
unfoldable pub key_of : Item → Run (List ℕ)
key_of it = slice_to (pos it.keylen) it.contents

unfoldable pub value_of : Item → Run (List ℕ)
value_of it = if ltb (length it.contents) it.keylen then panic else ok (drop it.keylen it.contents)

unfoldable pub reset_key : (List ℕ → ℕ) → List ℕ → Item → Run Item
reset_key hash key it = do
  t ← append_bytes key (record it { keylen = length key; recv_bytes = 0 })
  ok (record t { hash = hash key })

pub record Memcached : Type 0 where
  pub slots : ℕ → List ℕ → Option Item
  pub g_cas : ℕ
  -- the start time in milliseconds
  pub stime : ℕ

abbrev pub slotn : ℕ
slotn = 1024

unfoldable pub new_memcached : ℕ → Memcached
new_memcached stime = record { slots = λ i key. none; g_cas = 0; stime = stime }

-- `atomic.AddUint64(&_g_cas, 1)`
abbrev pub next_cas : Memcached → ℕ
next_cas m = (m.g_cas + 1) % 2 ^ 64

-- `m.slots[i].items[key] = v`, or `delete`
unfoldable pub set_slot : ℕ → List ℕ → Option Item → Memcached → Memcached
set_slot i key v m = record m { slots = λ j q. if j == i && eq_bytes q key then v else m.slots j q }

abbrev pub is_some {ℓ} : {A : Type ℓ} → Option A → Bool
is_some none = false
is_some (some _) = true

-- `item.cas = …; items[keyStr] = item`
abbrev pub put : Item → List ℕ → Memcached → Memcached
put it key m =
    let c = next_cas m in
    record (set_slot (it.hash % slotn) key (some (record it { cas_unique = c })) m) { g_cas = c }

-- The two parts of `Append` and `Prepend`: the bytes that come first, and those after them.
abbrev pub first_part : UpdatePolicy → Item → Item → Run (List ℕ)
first_part prepend it old = do v ← value_of it; slice_to (it.valuelen -ℤ pos 2) v
first_part _ it old = do v ← value_of old; slice_to (old.valuelen -ℤ pos 2) v

abbrev pub second_part : UpdatePolicy → Item → Item → Run (List ℕ)
second_part prepend it old = value_of old
second_part _ it old = value_of it

abbrev pub is_zero : ℤ → Bool
is_zero (pos n) = n == 0
is_zero (negsuc n) = false

-- Appending or prepending to an item that exists.
unfoldable pub join : (List ℕ → ℕ) → UpdatePolicy → Item → List ℕ → Item → Memcached → Run Memcached
join hash policy it key old m = do
  let c = next_cas m
  new ← new_item hash key it.flags it.exptime (it.valuelen +ℤ old.valuelen -ℤ pos 2) c
  first ← first_part policy it old
  half ← append_bytes first new
  second ← second_part policy it old
  whole ← append_bytes second half
  assert (is_zero (need_bytes whole))
  crlf ← end_with_crlf whole
  assert crlf
  ok (record (set_slot (it.hash % slotn) key (some whole) m) { g_cas = c })

-- The branches of `Store`, by the policy and the old item.
unfoldable pub store_by :
    (List ℕ → ℕ) → UpdatePolicy → Item → List ℕ → Option Item → Memcached → Run (Bool × Memcached)
store_by hash set it key old m = ok (true, put it key m)
store_by hash add it key none m = ok (true, put it key m)
store_by hash replace it key (some old) m = ok (true, put it key m)
store_by hash append it key (some old) m = do j ← join hash append it key old m; ok (true, j)
store_by hash prepend it key (some old) m = do j ← join hash prepend it key old m; ok (true, j)
store_by hash cas it key (some old) m =
    if old.cas_unique == it.cas_unique then ok (true, put it key m) else ok (false, m)
store_by hash invalid it key old m = panic
store_by hash _ it key _ m = ok (false, m)

-- `Store` returns whether it stored and whether the key existed.
unfoldable pub store :
    (List ℕ → ℕ) → Item → UpdatePolicy → Memcached → Run ((Bool × Bool) × Memcached)
store hash it policy m = do
  key ← key_of it
  let old = m.slots (it.hash % slotn) key
  (success, n) ← store_by hash policy it key old m
  ok ((success, is_some old), n)

unfoldable pub get : (List ℕ → ℕ) → List ℕ → Memcached → Option Item
get hash key m = m.slots (hash key % slotn) key

unfoldable pub delete : (List ℕ → ℕ) → List ℕ → Memcached → Bool × Memcached
delete hash key m =
    if is_some (get hash key m) then (true, set_slot (hash key % slotn) key none m) else (false, m)
