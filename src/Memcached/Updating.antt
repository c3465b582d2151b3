-- ===== src/Memcached/Updating.antt =====
-- memcached_server.go: appending and prepending to a value that is there.
use muduo_go.Prelude.{
  ℕ, ◌+◌, ◌%◌, ◌<◌, ◌≡◌, refl, false, some, List, ◌++◌, ok, panic, length, replicate, pos_part, pos,
  ◌+ℤ◌, ◌-ℤ◌, ltb_ℤ, arith, length-append, take-append, drop-append, le→leb, le→ltb, +ℤ-pos,
  ltb_ℤ-pos,
}
use muduo_go.Memcached.{
  UpdatePolicy, append, prepend, Item, new_item, append_bytes, value_of, first_part, second_part,
  key_of, need_bytes, is_zero, slice_to, Memcached, slotn, join, store_by, store,
}
use muduo_go.Memcached.Cache.{Entry, IsComplete, crlf}
use muduo_go.Memcached.Storing.{key_of_lem}

module _ (it : Item) (key : List ℕ) (e : Entry) (v : IsComplete it key e) where
  pub value_of_lem : value_of it ≡ ok (e.value ++ crlf)
  unfolding value_of
  value_of_lem =
      rw
        (
          v.contents,
          v.keylen,
          le→ltb (length (key ++ (e.value ++ crlf))) (length key)
              (omega (arith, length-append key (e.value ++ crlf))),
          drop-append key (e.value ++ crlf),
        )
        refl

  pub less_two : it.valuelen -ℤ pos 2 ≡ pos (length e.value)
  unfolding ◌-ℤ◌
  less_two = rw v.valuelen (ground arith)

  -- The value without the end of the line.
  text_of_lem : slice_to (it.valuelen -ℤ pos 2) (e.value ++ crlf) ≡ ok e.value
  text_of_lem =
      rw
        (
          less_two,
          le→leb (length e.value) (length (e.value ++ crlf))
              (omega (arith, length-append e.value crlf)),
          take-append e.value crlf,
        )
        refl

left_over : (k n m : ℕ) → m ≡ n → 0 < k → is_zero (pos k +ℤ pos n -ℤ pos m) ≡ false
unfolding ◌+ℤ◌ ◌-ℤ◌
left_over k n m e h = ground arith

-- What two appended parts leave to come is the length of the key, which is not written.
join-panics :
    (hash : List ℕ → ℕ) (policy : UpdatePolicy) (it old : Item) (key first second : List ℕ) (n : ℕ)
    (m : Memcached)
    → 0 < length key
    → it.valuelen +ℤ old.valuelen -ℤ pos 2 ≡ pos n
    → n ≡ length first + length second
    → first_part policy it old ≡ ok first
    → second_part policy it old ≡ ok second
    → join hash policy it key old m ≡ panic
unfolding join new_item append_bytes need_bytes
join-panics hash policy it old key first second n m h len e one two =
    let size : ltb_ℤ (pos (length key) +ℤ pos n) (pos 0) ≡ false =
      rw +ℤ-pos (rw ltb_ℤ-pos (le→ltb (length key + n) 0 (omega arith))) in
    let left = left_over (length key) n (length first + length second) (omega arith) h in
    rw
      (
        len,
        size,
        one,
        two,
        le→ltb (length {A = ℕ} (replicate (pos_part (pos (length key) +ℤ pos n)) 0)) 0
            (omega arith),
      )
      (ground (arith, left))

joined_length :
    (it old : Item) (a b : ℕ)
    → it.valuelen ≡ pos (a + 2)
    → old.valuelen ≡ pos (b + 2)
    → it.valuelen +ℤ old.valuelen -ℤ pos 2 ≡ pos (a + b + 2)
unfolding ◌+ℤ◌ ◌-ℤ◌
joined_length it old a b p q = rw (p, q) (ground arith)

-- The two policies that join the value with the old one.
pub data Joins : UpdatePolicy → Type 0 where
  appends : Joins append
  prepends : Joins prepend

joined-panics :
    (hash : List ℕ → ℕ) (policy : UpdatePolicy) (it old : Item) (key : List ℕ) (e f : Entry)
    (m : Memcached)
    → Joins policy
    → 0 < length key
    → IsComplete it key e
    → IsComplete old key f
    → join hash policy it key old m ≡ panic
joined-panics hash policy it old key e f m appends h v w =
    join-panics hash append it old key f.value (e.value ++ crlf)
      (length e.value + length f.value + 2) m h
      (joined_length it old (length e.value) (length f.value) v.valuelen w.valuelen)
      (omega (arith, length-append e.value crlf))
      (rw (value_of_lem old key f w) (text_of_lem old key f w)) (value_of_lem it key e v)
joined-panics hash policy it old key e f m prepends h v w =
    join-panics hash prepend it old key e.value (f.value ++ crlf)
      (length e.value + length f.value + 2) m h
      (joined_length it old (length e.value) (length f.value) v.valuelen w.valuelen)
      (omega (arith, length-append f.value crlf))
      (rw (value_of_lem it key e v) (text_of_lem it key e v)) (value_of_lem old key f w)

store-join :
    (hash : List ℕ → ℕ) (policy : UpdatePolicy) (it old : Item) (key : List ℕ) (m : Memcached)
    → Joins policy
    → key_of it ≡ ok key
    → m.slots (it.hash % slotn) key ≡ some old
    → join hash policy it key old m ≡ panic
    → store hash it policy m ≡ panic
unfolding store store_by
store-join hash policy it old key m appends k o p = rw (k, o) (rw p refl)
store-join hash policy it old key m prepends k o p = rw (k, o) (rw p refl)

-- Appending or prepending a complete item with a nonempty key to a complete item that is there
-- under that key panics: the new item is filled from the front, without the key, and the assertion
-- that no byte is left to come fails.
pub store-panics :
    (hash : List ℕ → ℕ) (policy : UpdatePolicy) (it old : Item) (key : List ℕ) (e f : Entry)
    (m : Memcached)
    → Joins policy
    → 0 < length key
    → IsComplete it key e
    → IsComplete old key f
    → m.slots (it.hash % slotn) key ≡ some old
    → store hash it policy m ≡ panic
store-panics hash policy it old key e f m j h v w o =
    store-join hash policy it old key m j (key_of_lem hash it key e v) o
      (joined-panics hash policy it old key e f m j h v w)
