-- ===== src/Session.antt =====
-- examples/memcached/server/session.go: a client's session. `hash` is the checksum of the items,
-- and `writable` tells the room in the connection's outbound buffer after what was sent. The state
-- keeps the calls on the connection in order: `AsyncWrite`, `Write` and `ShutdownWrite`, whose
-- results the session drops. A failed assertion and an index out of range panic.
pub mod Requests
pub mod Messages
pub mod Values
pub mod Updates
pub mod Gets
pub mod Invariant
pub mod Soundness
pub mod Weights
pub mod Rounds
pub mod Progress
pub mod Faults
mod Tests
use muduo_go.Prelude.{
  ℕ, zero, suc, ◌+◌, ◌-◌, ◌*◌, ◌%◌, ◌^◌, Bool, true, false, not, ◌&&◌, ◌||◌, Option, none, some,
  List, [], ◌∷◌, ◌++◌, if◌then◌else◌, Run, ok, panic, ◌>>=◌, ◌>>◌, assert, ltb, leb, ◌==◌, length,
  take, drop, replicate, map, ℤ, pos, negsuc, pos_part, ◌+ℤ◌, ◌-ℤ◌, ltb_ℤ, leb_ℤ,
}
use muduo_go.Buffer
use muduo_go.Buffer.{Buffer, new_buffer, readable_bytes, capacity, next, shrink}
use muduo_go.Text.{eq_bytes, bytes, fields, parse_uint, parse_int, itoa, to_int64}
use muduo_go.Memcached.{
  UpdatePolicy, invalid, set, add, replace, append, prepend, cas, Item, at_index, new_item,
  reset_key, key_of, value_of, slice_to, Memcached, get, delete,
}

pub data SessionState : Type 0 where
  new_command recv_value discard_value : SessionState

pub data ProtocolType : Type 0 where
  ascii binary auto : ProtocolType

-- A call on the connection.
pub data Call : Type 0 where
  async_write write_now : List ℕ → Call
  shutdown_write : Call

pub record Session : Type 0 where
  pub m : Memcached
  pub calls : List Call
  pub state : SessionState
  pub protocol : ProtocolType
  pub command : List ℕ
  pub noreply : Bool
  pub policy : UpdatePolicy
  pub curr_item : Option Item
  pub bytes_to_discard : ℕ
  pub needle : Item
  pub output_buffer : Buffer
  pub bytes_read : ℕ
  pub req_processed : ℕ

abbrev pub longest_key : List ℕ
longest_key = replicate 250 b'x'

abbrev pub call : Call → Session → Session
call c s = record s { calls = s.calls ++ c ∷ [] }

-- `Replay`
unfoldable pub replay : List ℕ → Session → Session
replay msg s = if s.noreply then s else call (async_write msg) s

abbrev pub bad_format : List ℕ
bad_format = bytes "CLIENT_ERROR bad command line format\r\n"

unfoldable pub reset_request : Session → Session
reset_request s = record s {
  command = [];
  noreply = false;
  policy = invalid;
  curr_item = none;
  bytes_to_discard = 0;
}

-- The `switch` of DoUpdate on the command.
abbrev pub policy_of : List ℕ → UpdatePolicy
policy_of c =
    if eq_bytes c (bytes "set")
    then set
    else if eq_bytes c (bytes "add")
    then add
    else if eq_bytes c (bytes "replace")
    then replace
    else if eq_bytes c (bytes "append")
    then append
    else if eq_bytes c (bytes "prepend")
    then prepend
    else if eq_bytes c (bytes "cas")
    then cas
    else invalid

abbrev pub is_invalid : UpdatePolicy → Bool
is_invalid invalid = true
is_invalid _ = false

abbrev pub is_cas : UpdatePolicy → Bool
is_cas cas = true
is_cas _ = false

abbrev pub is_none {ℓ} : {A : Type ℓ} → Option A → Bool
is_none none = true
is_none (some _) = false

-- `exptime`, in seconds, against the start time in milliseconds.
abbrev pub adjusted : ℕ → ℤ → ℤ
adjusted start e =
    if ltb_ℤ (pos 2_592_000) e
    then if ltb_ℤ (e -ℤ pos start) (pos 1) then pos 1 else e -ℤ pos start
    else e

-- What the line of an update says: flags, expiry time, number of bytes, and unique number; `none`
-- is `!good`.
pub record Header : Type 0 where
  pub flags : ℕ
  pub exptime : ℤ
  pub count : ℤ
  pub unique : ℕ

abbrev pub header : Bool → Option ℕ → Option ℤ → Option ℤ → Option ℕ → Option Header
header true (some f) (some e) (some b) (some u) =
    some (record { flags = f; exptime = e; count = b; unique = u })
header _ _ _ _ _ = none

-- The unique number, where one is asked for.
abbrev pub unique_of : Bool → List (List ℕ) → Run (Option ℕ)
unique_of true tokens = do unique ← at_index 4 tokens; ok (parse_uint 64 unique)
unique_of false tokens = ok (some 0)

module _ (hash : List ℕ → ℕ) where
  unfoldable pub new_session : Memcached → Run Session
  new_session m = do
    it ← new_item hash longest_key 0 (pos 0) (pos 2) 0
    ok (record {
      m = m;
      calls = [];
      state = new_command;
      protocol = ascii;
      command = [];
      noreply = false;
      policy = invalid;
      curr_item = none;
      bytes_to_discard = 0;
      needle = it;
      output_buffer = new_buffer;
      bytes_read = 0;
      req_processed = 0;
    })

  -- The end of DoUpdate.
  unfoldable pub begin_update : List ℕ → Option Header → Session → Run (Bool × Session)
  begin_update key none s = ok (true, replay bad_format s)
  begin_update key (some h) s =
      if ltb_ℤ (pos 1_048_576) h.count
      then (do
        let t = replay (bytes "SERVER_ERROR object too large for cache\r\n") s
        n ← reset_key hash key t.needle
        ok (
          true,
          record t {
            needle = n;
            m = (delete hash key t.m).1;
            bytes_to_discard = pos_part (h.count +ℤ pos 2);
            state = discard_value;
          },
        ))
      else (do
        it ← new_item hash key h.flags (adjusted s.m.stime h.exptime) (h.count +ℤ pos 2) h.unique
        ok (false, record s { curr_item = some it; state = recv_value }))

  -- DoUpdate behind the fourth token.
  abbrev pub update_with :
      List (List ℕ) → List ℕ → List ℕ → List ℕ → List ℕ → Session → Run (Bool × Session)
  update_with tokens key flags exptime count s = do
    let f = parse_uint 32 flags
    let e = parse_int 64 exptime
    let b = parse_int 32 count
    let good = leb (length key) 250 && not (is_none f) && not (is_none e) && not (is_none b)
    u ← unique_of (good && is_cas s.policy) tokens
    begin_update key (header good f e b u) s

  abbrev pub tokens_update : List (List ℕ) → Session → Run (Bool × Session)
  tokens_update tokens s = do
    key ← at_index 0 tokens
    flags ← at_index 1 tokens
    exptime ← at_index 2 tokens
    count ← at_index 3 tokens
    update_with tokens key flags exptime count s

  unfoldable pub do_update : List (List ℕ) → Session → Run (Bool × Session)
  do_update tokens s = do
    assert (not (is_invalid (policy_of s.command)))
    tokens_update tokens (record s { policy = policy_of s.command })

  abbrev pub delete_key : List ℕ → Session → Run Session
  delete_key key s = do
    n ← reset_key hash key s.needle
    let (found, c) = delete hash key s.m
    let t = record s { needle = n; m = c }
    ok (replay (if found then bytes "DELETED\r\n" else bytes "NOT_FOUND\r\n") t)

  -- The usage message ends in backslashes and letters, as it does in the source.
  unfoldable pub do_delete : List (List ℕ) → Session → Run Session
  do_delete tokens s = do
    key ← at_index 0 tokens
    let known = delete_key key s
    let surplus : Run Session = (do
      t ← at_index 1 tokens
      if eq_bytes t (bytes "0")
          then known
          else ok (
              replay
                (bytes "CLIENT_ERROR bad command line format.  Usage: delete <key> [noreply]\\r\\n")
                s))
    if ltb 250 (length key)
        then ok (replay bad_format s)
        else if leb (length tokens) 1
        then surplus
        else known
