-- ===== src/Session/Gets.antt =====
-- session.go and item.go: the answer to `get` and `gets`.
use muduo_go.Prelude.{
  ℕ, ◌+◌, ◌≤◌, ◌≡◌, refl, sym, ap, ◌∙◌, Bool, true, Bool-cases, inl, inr, Option, none, some, List,
  [], ◌∷◌, ◌++◌, if◌then◌else◌, ok, arith, le→leb, length, drop, replicate, length-append,
  length-drop, append_assoc, append-nil, take_of_length-le, pos, negsuc, ℤ, ◌+ℤ◌, +ℤ-pos, ltb_ℤ,
}
use muduo_go.Buffer.{Buffer, next, readable_bytes}
use muduo_go.Buffer.Layout.{layout, readable_bytes-layout}
use muduo_go.Buffer.Writing.{write_within}
use muduo_go.Buffer.Reading.{next_fifo, shrink_keeps}
use muduo_go.Text.{bytes, itoa, to_int64}
use muduo_go.Memcached.{Item, get}
use muduo_go.Memcached.Cache.{Entry, Cache, IsComplete, Represents, Shows, crlf}
use muduo_go.Memcached.Storing.{key_of_lem}
use muduo_go.Memcached.Updating.{value_of_lem, less_two}
use muduo_go.Session.{Session, Call, write_now, call}
use muduo_go.Session.Requests.{write_all, output, output_found, get_keys, finish_get, do_get}
use muduo_go.Session.Faults.{reset_key-ok}
use muduo_go.Session.Values.{concat, drop-length_append}

-- The line of a value and the value, in the pieces in which they are written.
abbrev pub pieces_of : Bool → List ℕ → Entry → List (List ℕ)
pieces_of need_cas key e =
    let unique : List (List ℕ) =
      if need_cas then bytes " " ∷ itoa (to_int64 e.cas_unique) ∷ [] else [] in
    (bytes "VALUE "
      ∷ key
      ∷ bytes " "
      ∷ itoa (pos e.flags)
      ∷ bytes " "
      ∷ itoa (pos (length e.value))
      ∷ [])
    ++ (unique ++ (bytes "\r\n" ∷ (e.value ++ crlf) ∷ []))

-- What is said of a key, and of all keys.
abbrev pub reply_to : Bool → List ℕ → Option Entry → List ℕ
reply_to need_cas key none = []
reply_to need_cas key (some e) = concat (pieces_of need_cas key e)

abbrev pub replies : Bool → Cache → List (List ℕ) → List ℕ
replies need_cas c [] = []
replies need_cas c (key ∷ keys) = reply_to need_cas key (c.entries key) ++ replies need_cas c keys

-- No key is longer than 250 bytes.
abbrev pub AreShort : List (List ℕ) → Type 0
AreShort [] = Unit
AreShort (key ∷ keys) = (length key ≤ 250) × AreShort keys

write_all-within :
    (xs : List (List ℕ)) (p d f : List ℕ)
    → length (concat xs) ≤ length f
    → write_all xs (layout p d f) ≡ ok (layout p (d ++ concat xs) (drop (length (concat xs)) f))
unfolding write_all
write_all-within [] p d f h = ap (λ t. ok (layout p t f)) (sym (append-nil d))
write_all-within (x ∷ xs) p d f h =
    rw (write_within p d f x (omega (arith, length-append x (concat xs)))) (
      write_all-within xs p (d ++ x) (drop (length x) f)
        (omega (arith, length-append x (concat xs), length-drop (length x) f))
      ∙ rw (append_assoc d x (concat xs), drop-length_append x (concat xs) f) refl)

output-within :
    (hash : List ℕ → ℕ) (need_cas : Bool) (it : Item) (key : List ℕ) (e : Entry) (p d f : List ℕ)
    → IsComplete it key e
    → length (reply_to need_cas key (some e)) ≤ length f
    → output it need_cas (layout p d f)
      ≡ ok (
          layout p
            (d ++ reply_to need_cas key (some e))
            (drop (length (reply_to need_cas key (some e))) f))
unfolding output
output-within hash need_cas it key e p d f v h =
    rw
      (
        key_of_lem hash it key e v,
        value_of_lem it key e v,
        v.flags,
        v.cas_unique,
        less_two it key e v,
      )
      (write_all-within (pieces_of need_cas key e) p d f h)

-- The session with what its output buffer holds.
abbrev with_output : Session → List ℕ → List ℕ → List ℕ → Session
with_output s p d f = record s { output_buffer = layout p d f }

module _ (hash : List ℕ → ℕ) (need_cas : Bool) (c : Cache) where
  output_found-within :
      (o : Option Item) (x : Option Entry) (key : List ℕ) (s : Session) (p d f : List ℕ)
      → Shows key o x
      → length (reply_to need_cas key x) ≤ length f
      → output_found hash o need_cas (with_output s p d f)
        ≡ ok (
            with_output s p
              (d ++ reply_to need_cas key x)
              (drop (length (reply_to need_cas key x)) f))
  output_found-within none none key s p d f v h =
      ap (λ t. ok (with_output s p t f)) (sym (append-nil d))
  output_found-within (some it) (some e) key s p d f v h =
      rw (output-within hash need_cas it key e p d f v h) refl
  output_found-within none (some e) key s p d f v h = elim v [ ]
  output_found-within (some it) none key s p d f v h = elim v [ ]

  get_keys-within :
      (keys : List (List ℕ)) (s : Session) (p d f : List ℕ)
      → Represents hash s.m c
      → AreShort keys
      → length (replies need_cas c keys) ≤ length f
      → (n : Item) × (get_keys hash need_cas keys (with_output s p d f)
          ≡ ok (
            true,
            record (with_output s p
                (d ++ replies need_cas c keys)
                (drop (length (replies need_cas c keys)) f)) { needle = n },
          ))
  unfolding get_keys
  get_keys-within [] s p d f r short h =
      (s.needle, ap (λ t. ok (true, with_output s p t f)) (sym (append-nil d)))
  get_keys-within (key ∷ keys) s p d f r (one, short) h =
      let (n, made) = reset_key-ok hash key s.needle in
      let reply = reply_to need_cas key (c.entries key) in
      let others = replies need_cas c keys in
      let (last, run) =
        get_keys-within keys (record s { needle = n }) p (d ++ reply) (drop (length reply) f) r
          short (omega (arith, length-append reply others, length-drop (length reply) f)) in
      (
        last,
        rw (le→leb (length key) 250 one, made)
            (rw
              (output_found-within (get hash key s.m) (c.entries key) key (record s { needle = n })
                p d f (r.shows key) (omega (arith, length-append reply others)))
              (run ∙ rw (append_assoc d reply others, drop-length_append reply others f) refl)),
      )

next_all : (p d f : List ℕ) → (b : Buffer) × (next (negsuc 0) (layout p d f) ≡ ok (d, b))
next_all p d f =
    let (p', f', run) = next_fifo (negsuc 0) p d f in
    (
      layout p' (drop (length d) d) f',
      run
          ∙ ap (λ x. ok (x, layout p' (drop (length d) d) f'))
              (take_of_length-le (length d) d (omega arith)),
    )

-- The buffer may be shrunk before it is sent.
finish_get-sends :
    (hash : List ℕ → ℕ) (writable : List Call → ℤ) (s : Session) (p d f : List ℕ)
    → 5 ≤ length f
    → (b : Buffer) × (finish_get hash writable (with_output s p d f)
        ≡ ok (call (write_now (d ++ bytes "END\r\n")) (record s { output_buffer = b })))
unfolding finish_get
finish_get-sends hash writable s p d f h =
    let out = d ++ bytes "END\r\n" in
    let room = drop 5 f in
    let large : pos 65536 +ℤ readable_bytes (layout p out room) ≡ pos (65536 + length out) =
      rw (readable_bytes-layout p out room) (+ℤ-pos 65536 (length out)) in
    elim (Bool-cases (ltb_ℤ (pos (65536 + length out)) (writable s.calls))) [
      | inl e ↦
          let (b, run) = next_all [] out (replicate (65536 + length out) 0) in
          (
            b,
            rw (write_within p d f (bytes "END\r\n") h, large)
                (rw (e, (shrink_keeps (65536 + length out) p out room).0, run) refl),
          )
      | inr e ↦
          let (b, run) = next_all p out room in
          (b, rw (write_within p d f (bytes "END\r\n") h, large) (rw (e, run) refl))
    ]

do_get-by :
    (hash : List ℕ → ℕ) (writable : List Call → ℤ) (need_cas : Bool) (keys : List (List ℕ))
    (s : Session) (c : Cache) (p d f : List ℕ)
    → Represents hash s.m c
    → AreShort keys
    → length (replies need_cas c keys) + 5 ≤ length f
    → (t : Session) × (do_get hash writable need_cas keys (with_output s p d f) ≡ ok t)
      × (t.calls ≡ s.calls ++ write_now ((d ++ replies need_cas c keys) ++ bytes "END\r\n") ∷ [])
      × (t.m ≡ s.m)
unfolding do_get
do_get-by hash writable need_cas keys s c p d f r short h =
    let said = replies need_cas c keys in
    let (n, run) = get_keys-within hash need_cas c keys s p d f r short (omega arith) in
    let (b, sent) =
      finish_get-sends hash writable (record s { needle = n }) p (d ++ said) (drop (length said) f)
        (omega (arith, length-drop (length said) f)) in
    (
      call (write_now ((d ++ said) ++ bytes "END\r\n"))
          (record s { needle = n; output_buffer = b }),
      rw run sent,
      refl,
      refl,
    )

-- On slots that show a map, with `out` unread in an output buffer whose free room holds the answer,
-- `get` or `gets` of keys of at most 250 bytes does not panic and sends `out`, then for each key
-- that is bound, in order, its line and its value, and the end of the answer; the slots stay.
pub do_get-replies :
    (hash : List ℕ → ℕ) (writable : List Call → ℤ) (need_cas : Bool) (keys : List (List ℕ))
    (s : Session) (c : Cache) (p out f : List ℕ)
    → s.output_buffer ≡ layout p out f
    → Represents hash s.m c
    → AreShort keys
    → length (replies need_cas c keys) + 5 ≤ length f
    → (t : Session) × (do_get hash writable need_cas keys s ≡ ok t)
      × (t.calls ≡ s.calls ++ write_now ((out ++ replies need_cas c keys) ++ bytes "END\r\n") ∷ [])
      × (t.m ≡ s.m)
do_get-replies hash writable need_cas keys s c p out f e r short h =
    let (t, run, calls, m) = do_get-by hash writable need_cas keys s c p out f r short h in
    (
      t,
      ap (λ b. do_get hash writable need_cas keys (record s { output_buffer = b })) e ∙ run,
      calls,
      m,
    )
