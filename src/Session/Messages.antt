-- ===== src/Session/Messages.antt =====
-- session.go: OnMsg, recvValue and discardValue. `OnMsg` loops on fuel; `none` is that it ran out.
use muduo_go.Prelude.{
  ℕ, zero, suc, ◌+◌, ◌-◌, ◌*◌, ◌%◌, ◌^◌, Bool, true, false, Option, none, some, List, if◌then◌else◌,
  Run, ok, panic, ◌>>=◌, ◌>>◌, assert, ◌==◌, ℤ, pos, negsuc, pos_part, ◌+ℤ◌, ◌-ℤ◌, ltb_ℤ, leb_ℤ,
}
use muduo_go.Buffer.{Buffer, readable_bytes, peek, advance, reset, search_bytes}
use muduo_go.Text.{bytes}
use muduo_go.Memcached.{Item, at_index, slice_to, need_bytes, append_bytes, end_with_crlf, store}
use muduo_go.Session.{
  Session, SessionState, new_command, recv_value, discard_value, ProtocolType, ascii, binary, auto,
  Call, shutdown_write, call, replay, is_cas, is_none, reset_request,
}
use muduo_go.Session.Requests.{process_request}

abbrev pub is_receiving : SessionState → Bool
is_receiving recv_value = true
is_receiving _ = false

abbrev pub is_discarding : SessionState → Bool
is_discarding discard_value = true
is_discarding _ = false

-- The reply to what `Store` returns.
abbrev pub store_reply : Bool → Bool → Bool → List ℕ
store_reply true existed by_cas = bytes "STORED\r\n"
store_reply false true true = bytes "EXISTS\r\n"
store_reply false false true = bytes "NOT_FOUND\r\n"
store_reply false existed false = bytes "NOT_STORED\r\n"

abbrev pub finish_request : Session → Session
finish_request s = record (reset_request s) { state = new_command }

-- `avail` in recvValue
abbrev pub avail_of : Item → Buffer → ℤ
avail_of it buf =
    if leb_ℤ (need_bytes it) (readable_bytes buf) then need_bytes it else readable_bytes buf

abbrev pub is_done : ℤ → Bool
is_done (pos n) = n == 0
is_done (negsuc n) = false

module _ (hash : List ℕ → ℕ) where
  -- All bytes of the item have come.
  unfoldable pub store_item : Item → Session → Run Session
  store_item it s = do
    complete ← end_with_crlf it
    let keep : Run Session = (do
      ((success, existed), m) ← store hash it s.policy s.m
      ok (replay (store_reply success existed (is_cas s.policy)) (record s { m = m })))
    t ← (if complete then keep else ok (replay (bytes "CLIENT_ERROR bad data chunk\r\n") s))
    ok (finish_request t)

  -- recvValue behind `Append`
  abbrev pub end_recv : Item → ℤ → Session → Buffer → Run (Session × Buffer)
  end_recv filled avail s buf =
      if is_done (need_bytes filled)
      then (do u ← store_item filled s; ok (u, advance avail buf))
      else ok (s, advance avail buf)

  abbrev pub recv_item : Option Item → Session → Buffer → Run (Session × Buffer)
  recv_item none s buf = panic
  recv_item (some it) s buf = do
    unread ← peek buf
    got ← slice_to (avail_of it buf) unread
    filled ← append_bytes got it
    end_recv filled (avail_of it buf) (record s { curr_item = some filled }) buf

  -- The method `recvValue`
  unfoldable pub recv_bytes : Session → Buffer → Run (Session × Buffer)
  recv_bytes s buf = do assert (is_receiving s.state); recv_item s.curr_item s buf

-- The method `discardValue`
unfoldable pub discard_bytes : Session → Buffer → Run (Session × Buffer)
discard_bytes s buf = do
  assert (is_discarding s.state)
  assert (is_none s.curr_item)
  if ltb_ℤ (readable_bytes buf) (pos s.bytes_to_discard)
      then ok (
        record s { bytes_to_discard = s.bytes_to_discard - pos_part (readable_bytes buf) },
        reset 0 buf,
      )
      else ok
          (finish_request (record s { bytes_to_discard = 0 }), advance (pos s.bytes_to_discard) buf)

module _ (hash : List ℕ → ℕ) (writable : List Call → ℤ) where
  -- The protocol of a session that is to find it out, by its first byte.
  abbrev pub choose_protocol : ProtocolType → Session → Buffer → Run Session
  choose_protocol auto s buf = do
    assert (s.bytes_read == 0)
    unread ← peek buf
    first ← at_index 0 unread
    ok (record s { protocol = if first == 0x80 then binary else ascii })
  choose_protocol _ s buf = ok s

  abbrev pub end_request : Bool × Session → Session
  end_request (true, s) = reset_request s
  end_request (false, s) = s

  -- A round of the loop in the state NewCommand. The result is whether the loop goes on.
  abbrev pub read_line : ProtocolType → Session → Buffer → Run (Bool × Session × Buffer)
  read_line ascii s buf = do
    search ← search_bytes (bytes "\r\n") buf
    let answer : Run (Bool × Session × Buffer) = (do
      unread ← peek buf
      line ← slice_to search unread
      r ← process_request hash writable line s
      ok (true, end_request r, advance (search +ℤ pos 2) buf))
    if ltb_ℤ (pos 0) search
        then answer
        else ok (
          false,
          (if ltb_ℤ (pos 1024) (readable_bytes buf) then call shutdown_write s else s),
          buf,
        )
  read_line _ s buf = ok (true, s, buf)

  abbrev pub round_by : SessionState → Session → Buffer → Run (Bool × Session × Buffer)
  round_by new_command s buf = do t ← choose_protocol s.protocol s buf; read_line t.protocol t buf
  round_by recv_value s buf = do (t, rest) ← recv_bytes hash s buf; ok (true, t, rest)
  round_by discard_value s buf = do (t, rest) ← discard_bytes s buf; ok (true, t, rest)

  unfoldable pub one_round : Session → Buffer → Run (Bool × Session × Buffer)
  one_round s buf = round_by s.state s buf

  -- What is done after a round, where `loop` is the loop on the fuel that is left.
  abbrev pub after_round :
      (Session → Buffer → Option (Run (Session × Buffer)))
      → Run (Bool × Session × Buffer)
      → Option (Run (Session × Buffer))
  after_round loop panic = some panic
  after_round loop (ok (true, t, rest)) = loop t rest
  after_round loop (ok (false, t, rest)) = some (ok (t, rest))

  unfoldable pub on_msg_loop : ℕ → Session → Buffer → Option (Run (Session × Buffer))
  on_msg_loop zero s buf = none
  on_msg_loop (suc k) s buf = elim (ltb_ℤ (pos 0) (readable_bytes buf)) [
    | true ↦ after_round (on_msg_loop k) (one_round s buf)
    | false ↦ some (ok (s, buf))
  ]

  abbrev pub count_bytes : ℤ → Option (Run (Session × Buffer)) → Option (Run (Session × Buffer))
  count_bytes initial none = none
  count_bytes initial (some panic) = some panic
  count_bytes initial (some (ok (t, rest))) = some (
      ok (
        record t {
          bytes_read = (t.bytes_read + pos_part (initial -ℤ readable_bytes rest)) % 2 ^ 64;
        },
        rest,
      ))

  -- `OnMsg`. Two rounds take at least one byte.
  unfoldable pub on_msg : Session → Buffer → Option (Run (Session × Buffer))
  on_msg s buf =
      let initial = readable_bytes buf in
      count_bytes initial (on_msg_loop (2 * pos_part initial + 2) s buf)
