-- ===== src/Session/Values.antt =====
-- session.go and item.go: the value of an update.
use muduo_go.Prelude.{
  of_ok, ℕ, ◌+◌, ◌≤◌, ◌≡◌, refl, sym, ap, ◌∙◌, List, [], ◌∷◌, ◌++◌, Run, ok, ◌>>=◌, arith, +ℤ-pos,
  -ℤ-pos, ltb_ℤ-pos, le→ltb, le→leb, length, take, drop, replicate, copy_at, length-replicate,
  length-append, length-drop, copy_lem, copy_at-append, append_assoc, append-nil, take_of_length-le,
  drop_of_length-le, pos, ℤ,
}
use muduo_go.Memcached.{Item, new_item, need_bytes, append_bytes, key_of}

-- The item that `NewItem` makes, with the bytes `got` of its `n` bytes.
abbrev pub filled_with : (List ℕ → ℕ) → List ℕ → ℕ → ℤ → ℕ → ℕ → List ℕ → List ℕ → Item
filled_with hash key flags exptime n c got left = record {
  keylen = length key;
  flags = flags;
  exptime = exptime;
  valuelen = pos n;
  recv_bytes = length got;
  cas_unique = c;
  hash = hash key;
  contents = got ++ left;
}

copy_at_behind :
    (got left xs : List ℕ)
    → length xs ≤ length left
    → copy_at (length got) (got ++ left) xs ≡ (got ++ xs) ++ drop (length xs) left
copy_at_behind got left xs h =
    copy_at-append got left xs
    ∙ ap (λ t. got ++ t)
        (copy_lem left xs
          ∙ ap (λ t. t ++ drop (length xs) left) (take_of_length-le (length left) xs h))
    ∙ sym (append_assoc got xs (drop (length xs) left))

module _ (hash : List ℕ → ℕ) (key : List ℕ) (flags : ℕ) (exptime : ℤ) (n c : ℕ) where
  pub new_item-ok :
      new_item hash key flags exptime (pos n) c
      ≡ ok (filled_with hash key flags exptime n c [] (replicate (length key + n) 0))
  unfolding new_item
  new_item-ok = rw (+ℤ-pos, ltb_ℤ-pos, le→ltb (length key + n) 0 (omega arith)) refl

  pub append_bytes-filled :
      (got xs left : List ℕ)
      → length xs ≤ length left
      → append_bytes xs (filled_with hash key flags exptime n c got left)
        ≡ ok (filled_with hash key flags exptime n c (got ++ xs) (drop (length xs) left))
  unfolding append_bytes
  append_bytes-filled got xs left h =
      rw
        (
          le→ltb (length (got ++ left)) (length got) (omega (arith, length-append got left)),
          copy_at_behind got left xs h,
          length-append got xs,
        )
        refl

  pub need_bytes-filled :
      (got left : List ℕ)
      → length got + length left ≡ length key + n
      → need_bytes (filled_with hash key flags exptime n c got left) ≡ pos (length left)
  unfolding need_bytes
  need_bytes-filled got left e = rw (+ℤ-pos, sym e) (-ℤ-pos (length got) (length left))

pub drop-length_append :
    (xs ys zs : List ℕ) → drop (length ys) (drop (length xs) zs) ≡ drop (length (xs ++ ys)) zs
drop-length_append [] ys zs = refl
drop-length_append (x ∷ xs) ys [] = drop_of_length-le (length ys) [] (omega arith)
drop-length_append (x ∷ xs) ys (z ∷ zs) = drop-length_append xs ys zs

-- The calls of `Append` for the pieces in which the bytes come.
pub append_all : List (List ℕ) → Item → Run Item
append_all [] it = ok it
append_all (x ∷ xs) it = do t ← append_bytes x it; append_all xs t

abbrev pub concat : List (List ℕ) → List ℕ
concat [] = []
concat (x ∷ xs) = x ++ concat xs

module _ (hash : List ℕ → ℕ) (key : List ℕ) (flags : ℕ) (exptime : ℤ) (n c : ℕ) where
  append_all-filled :
      (pieces : List (List ℕ)) (got left : List ℕ)
      → length (concat pieces) ≤ length left
      → append_all pieces (filled_with hash key flags exptime n c got left)
        ≡ ok (
            filled_with hash key flags exptime n c
              (got ++ concat pieces)
              (drop (length (concat pieces)) left))
  unfolding append_all
  append_all-filled [] got left h =
      ap (λ t. ok (filled_with hash key flags exptime n c t left)) (sym (append-nil got))
  append_all-filled (x ∷ xs) got left h =
      rw
        (append_bytes-filled hash key flags exptime n c got x left
          (omega (arith, length-append x (concat xs))))
        (append_all-filled xs (got ++ x) (drop (length x) left)
            (omega (arith, length-append x (concat xs), length-drop (length x) left))
          ∙ rw (append_assoc got x (concat xs), drop-length_append x (concat xs) left) refl)

  key_of-filled :
      (w : List ℕ)
      → length key ≤ length w
      → key_of (filled_with hash key flags exptime n c w []) ≡ ok (take (length key) w)
  unfolding key_of
  key_of-filled w h = rw (append-nil w, le→leb (length key) (length w) h) refl

-- When the bytes of an item made for `key` have come, in any pieces, the item asks for no more, and
-- the key under which it will be stored is the first of those bytes, as many as `key` has, whatever
-- `key` is; its hash is that of `key`.
pub append_all-key :
    (hash : List ℕ → ℕ) (key : List ℕ) (flags : ℕ) (exptime : ℤ) (n c : ℕ) (pieces : List (List ℕ))
    (it : Item)
    → new_item hash key flags exptime (pos n) c ≡ ok it
    → length (concat pieces) ≡ length key + n
    → (g : Item) × (append_all pieces it ≡ ok g)
      × (need_bytes g ≡ pos 0)
      × (key_of g ≡ ok (take (length key) (concat pieces)))
      × (g.hash ≡ hash key)
append_all-key hash key flags exptime n c pieces it h l =
    let zeros : List ℕ = replicate (length key + n) 0 in
    let w = concat pieces in
    let size : length zeros ≡ length key + n = length-replicate {A = ℕ} (length key + n) 0 in
    let same =
      of_ok it (filled_with hash key flags exptime n c [] zeros)
        (sym h ∙ new_item-ok hash key flags exptime n c) in
    (
      filled_with hash key flags exptime n c w [],
      rw same (
          append_all-filled hash key flags exptime n c pieces [] zeros (omega arith)
          ∙ ap (λ t. ok (filled_with hash key flags exptime n c w t))
              (drop_of_length-le (length w) zeros (omega arith))),
      need_bytes-filled hash key flags exptime n c w [] (omega arith),
      key_of-filled hash key flags exptime n c w (omega arith),
      refl,
    )
