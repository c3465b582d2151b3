-- ===== src/Memcached/Tests.antt =====
-- item.go and memcached_server.go: the theorems at a concrete cache.
use muduo_go.Prelude.{ℕ, ◌≡◌, ◌%◌, refl, List, [], ◌∷◌, none, some, ok, length, pos, true}
use muduo_go.Text.{eq_bytes}
use muduo_go.Memcached.{
  cas, Item, Memcached, new_memcached, put, set_slot, get, slotn, store, delete,
}
use muduo_go.Memcached.Cache.{Entry, Cache, IsComplete, Represents, stored, spec_store, spec_delete}
use muduo_go.Memcached.Storing.{put-Represents, store_refines, delete_refines}

-- A checksum that is the number of the bytes.
abbrev pub byte_count : List ℕ → ℕ
byte_count xs = length xs

abbrev pub key : List ℕ
key = 97 ∷ []

abbrev pub entry : Entry
entry = record { value = 120 ∷ []; flags = 5; exptime = pos 0; cas_unique = 1 }

abbrev item : Item
item = record {
  keylen = 1;
  flags = 5;
  exptime = pos 0;
  valuelen = pos 3;
  recv_bytes = 4;
  cas_unique = 1;
  hash = 1;
  contents = 97 ∷ 120 ∷ 13 ∷ 10 ∷ [];
}

abbrev pub empty_cache : Cache
empty_cache = record { entries = λ q. none; last = 0 }

-- The key is bound.
abbrev pub one_slot : Memcached
one_slot = put item key (new_memcached 0)

abbrev pub one_entry : Cache
one_entry = (stored key entry empty_cache).1

item-IsComplete : IsComplete item key entry
item-IsComplete = record {
  contents = refl;
  keylen = refl;
  valuelen = refl;
  flags = refl;
  exptime = refl;
  cas_unique = refl;
}

pub empty-Represents : Represents byte_count (new_memcached 0) empty_cache
unfolding new_memcached get
empty-Represents = record { shows = λ q. tt; last = refl }

pub one_slot-Represents : Represents byte_count one_slot one_entry
one_slot-Represents =
    put-Represents byte_count item key entry (new_memcached 0) empty_cache empty-Represents
      item-IsComplete refl

store_refines_example :
    (n : Memcached) × (store byte_count item cas one_slot
      ≡ ok ((spec_store cas key entry one_entry).0, n))
    × Represents byte_count n (spec_store cas key entry one_entry).1
store_refines_example =
    store_refines byte_count cas item key entry one_slot one_entry one_slot-Represents
      item-IsComplete refl tt

cas_accepts : (spec_store cas key entry one_entry).0 ≡ (true, true)
unfolding eq_bytes
cas_accepts = refl

delete_refines_example :
    ((delete byte_count key one_slot).0 ≡ (spec_delete key one_entry).0)
    × Represents byte_count (delete byte_count key one_slot).1 (spec_delete key one_entry).1
delete_refines_example = delete_refines byte_count key one_slot one_entry one_slot-Represents

one_slot-bound : one_slot.slots (item.hash % slotn) key ≡ some item
unfolding set_slot eq_bytes new_memcached
one_slot-bound = refl
