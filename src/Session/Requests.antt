-- ===== src/Session/Requests.antt =====
-- session.go: processRequest, with Output of item.go.
use muduo_go.Prelude.{
  ℕ, ◌+◌, ◌-◌, ◌%◌, ◌^◌, Bool, true, false, not, ◌&&◌, Option, none, some, List, [], ◌∷◌, ◌++◌,
  if◌then◌else◌, Run, ok, ◌>>=◌, ◌>>◌, assert, leb, ◌==◌, length, take, drop, ℤ, pos, negsuc, ◌+ℤ◌,
  ◌-ℤ◌, ltb_ℤ,
}
use muduo_go.Buffer
use muduo_go.Buffer.{Buffer, readable_bytes, next, shrink}
use muduo_go.Text.{eq_bytes, bytes, fields, itoa, to_int64}
use muduo_go.Memcached.{Item, key_of, value_of, reset_key, get}
use muduo_go.Session.{
  Session, Call, write_now, shutdown_write, call, replay, bad_format, is_invalid, is_none,
  policy_of, do_update, do_delete,
}

-- Calls of `Write` on a buffer, whose results are dropped.
unfoldable pub write_all : List (List ℕ) → Buffer → Run Buffer
write_all [] b = ok b
write_all (x ∷ xs) b = do (_, c) ← Buffer.write x b; write_all xs c

-- The method `Output`
unfoldable pub output : Item → Bool → Buffer → Run Buffer
output it need_cas b = do
  key ← key_of it
  value ← value_of it
  let unique = if need_cas then bytes " " ∷ itoa (to_int64 it.cas_unique) ∷ [] else []
  let head =
      bytes "VALUE "
      ∷ key
      ∷ bytes " "
      ∷ itoa (pos it.flags)
      ∷ bytes " "
      ∷ itoa (it.valuelen -ℤ pos 2)
      ∷ []
  write_all (head ++ (unique ++ (bytes "\r\n" ∷ value ∷ []))) b

-- The assertions at the head of processRequest.
abbrev pub is_fresh : Session → Bool
is_fresh s =
    eq_bytes s.command []
    && not s.noreply
    && is_invalid s.policy
    && is_none s.curr_item
    && s.bytes_to_discard == 0

abbrev pub noreply_suffix : List ℕ
noreply_suffix = bytes " noreply"

abbrev pub ends_with_noreply : List ℕ → Bool
ends_with_noreply buf = leb 8 (length buf) && eq_bytes (drop (length buf - 8) buf) noreply_suffix

abbrev pub is_update : List ℕ → Bool
is_update c = not (is_invalid (policy_of c))

module _ (hash : List ℕ → ℕ) where
  -- What `get` does for a key that is found, or not.
  abbrev pub output_found : Option Item → Bool → Session → Run Session
  output_found none need_cas s = ok s
  output_found (some it) need_cas s = do
    out ← output it need_cas s.output_buffer
    ok (record s { output_buffer = out })

  -- The loop of `get`; it is cut off, after a reply, at a key that is too long.
  unfoldable pub get_keys : Bool → List (List ℕ) → Session → Run (Bool × Session)
  get_keys need_cas [] s = ok (true, s)
  get_keys need_cas (key ∷ keys) s =
      let found : Run (Bool × Session) = (do
        n ← reset_key hash key s.needle
        t ← output_found (get hash key s.m) need_cas (record s { needle = n })
        get_keys need_cas keys t) in
      if leb (length key) 250 then found else ok (false, replay bad_format s)

module _ (hash : List ℕ → ℕ) (writable : List Call → ℤ) where
  -- The end of `get`.
  unfoldable pub finish_get : Session → Run Session
  finish_get s = do
    (_, out) ← Buffer.write (bytes "END\r\n") s.output_buffer
    let reserve = pos 65536 +ℤ readable_bytes out
    small ← (if ltb_ℤ reserve (writable s.calls) then shrink reserve out else ok out)
    (sent, rest) ← next (negsuc 0) small
    ok (call (write_now sent) (record s { output_buffer = rest }))

  unfoldable pub do_get : Bool → List (List ℕ) → Session → Run Session
  do_get need_cas keys s = do
    (whole, t) ← get_keys hash need_cas keys s
    if whole then finish_get t else ok t

  -- The `switch` on the command. The result is whether the request is over.
  unfoldable pub run_command : List (List ℕ) → Session → Run (Bool × Session)
  run_command tokens s =
      let c = s.command in
      if is_update c
      then do_update hash tokens s
      else if eq_bytes c (bytes "get")
      then (do t ← do_get false tokens s; ok (true, t))
      else if eq_bytes c (bytes "gets")
      then (do t ← do_get true tokens s; ok (true, t))
      else if eq_bytes c (bytes "delete")
      then (do t ← do_delete hash tokens s; ok (true, t))
      else if eq_bytes c (bytes "version")
      then ok (true, replay (bytes "VERSION 0.0.1 muduo\r\n") s)
      else if eq_bytes c (bytes "quit")
      then ok (true, call shutdown_write s)
      else if eq_bytes c (bytes "shutdown")
      then ok (true, call shutdown_write s)
      else ok (true, replay (bytes "ERROR\r\n") s)

  abbrev pub run_tokens : List (List ℕ) → Session → Run (Bool × Session)
  run_tokens [] s = ok (true, replay (bytes "ERROR\r\n") s)
  run_tokens (c ∷ tokens) s = run_command tokens (record s { command = c })

  unfoldable pub process_request : List ℕ → Session → Run (Bool × Session)
  process_request buf s0 = do
    assert (is_fresh s0)
    let silent = ends_with_noreply buf
    let line = if silent then take (length buf - 8) buf else buf
    run_tokens (fields line)
        (record s0 { req_processed = (s0.req_processed + 1) % 2 ^ 64; noreply = silent })
