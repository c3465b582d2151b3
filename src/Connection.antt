-- ===== src/Connection.antt =====
-- tcp_conn.go: one connection, with the poller of its event loop, the tasks that are pending there
-- and what the kernel has taken from it. The user's callbacks are functions on the whole state, so
-- they may do all that the user's code may do to the connection. What a system call returns is an
-- argument of the operation that makes the call. Logging is left out, and so are the addresses, the
-- name and the user's context, which only pass through.
pub mod Queueing
pub mod Stream
pub mod Flushing
pub mod Lifecycle
pub mod Faults
mod Tests
use muduo_go.Prelude.{
  ℕ, ◌≡◌, Bool, true, false, not, ◌&&◌, ◌||◌, Option, none, some, List, [], ◌∷◌, ◌++◌, ℤ, pos,
  negsuc, length, take, drop, if◌then◌else◌, Run, ok, panic, ◌>>=◌, ◌>>◌, assert, ◌==◌, ltb, leb,
  ltb_ℤ,
}
use muduo_go.Buffer.{Buffer, Readv, new_buffer, read_fd, readable_bytes, peek, advance}
use muduo_go.Buffer
use muduo_go.Events.{wants_write}
use muduo_go.Channel.{Channel, new_channel}
use muduo_go.Poller.{
  CtlOp, Poller, enable_reading, enable_writing, disable_writing, disable_all, remove_channel,
}

pub data ConnState : Type 0 where
  connecting connected disconnecting disconnected : ConnState

abbrev pub is_connected : ConnState → Bool
is_connected connected = true
is_connected _ = false

abbrev pub is_connecting : ConnState → Bool
is_connecting connecting = true
is_connecting _ = false

abbrev pub is_disconnecting : ConnState → Bool
is_disconnecting disconnecting = true
is_disconnecting _ = false

-- EWOULDBLOCK, any other number of errno, and errors.ErrConnNotOpened.
pub data Error : Type 0 where
  would_block conn_not_opened : Error
  errno : ℕ → Error

abbrev pub is_would_block : Error → Bool
is_would_block would_block = true
is_would_block _ = false

-- What `unix.Write` returns.
pub record Written : Type 0 where
  pub n : ℤ
  pub err : Option Error

-- `err != nil && err != unix.EWOULDBLOCK`
abbrev pub is_failure : Option Error → Bool
is_failure none = false
is_failure (some e) = not (is_would_block e)

-- The closures that a connection hands to `AsyncExecute`. The callback of `AsyncWrite` is a number.
pub data Task : Type 0 where
  write_complete shutdown_write_later : Task
  async_write_later : List ℕ → Option ℕ → Task

pub record Conn (A K : Type 0) : Type 0 where
  pub state : ConnState
  pub inbound : Buffer
  pub outbound : Buffer
  pub poller : Poller A K
  pub pending : List Task
  -- what `unix.Write` has taken, and whether `unix.Shutdown` was called
  pub wire : List ℕ
  pub shut : Bool

pub record Callbacks (S : Type 0) : Type 0 where
  pub on_conn : Option (S → Run S)
  pub on_msg : Option (S → Run S)
  pub on_close : Option (S → Run S)
  pub on_write_complete : Option (S → Run S)
  pub async_callback : ℕ → Option Error → S → Run S

-- `NewTcpConn` with the channel that it makes: only the read callback is set.
unfoldable pub conn_channel : {A : Type 0} → ℕ → A → Channel A
conn_channel fd handle_read = record (new_channel fd) { read_callback = some handle_read }

unfoldable pub new_conn : {A K : Type 0} → Poller A K → Conn A K
new_conn p = record {
  state = connecting;
  inbound = new_buffer;
  outbound = new_buffer;
  poller = p;
  pending = [];
  wire = [];
  shut = false;
}

-- `buf[i:]`
abbrev pub slice_from : ℤ → List ℕ → Run (List ℕ)
slice_from (pos i) buf = if leb i (length buf) then ok (drop i buf) else panic
slice_from (negsuc i) buf = panic

-- The bytes that a call of `unix.Write` on `buf` has taken.
abbrev pub taken : ℤ → List ℕ → List ℕ
taken (pos n) buf = take n buf
taken (negsuc n) buf = []

-- `buf.ReadableBytes() == 0`
abbrev pub is_zero : ℤ → Bool
is_zero (pos n) = n == 0
is_zero (negsuc n) = false

module _ {A K : Type 0} where
  -- `if cb != nil { cb(c) }`, and `cb(c)` alone.
  abbrev pub call_if_set : Option (Conn A K → Run (Conn A K)) → Conn A K → Run (Conn A K)
  call_if_set none s = ok s
  call_if_set (some cb) s = cb s

  abbrev pub call : Option (Conn A K → Run (Conn A K)) → Conn A K → Run (Conn A K)
  call none s = panic
  call (some cb) s = cb s

  -- `el.AsyncExecute`
  abbrev async_execute : Task → Conn A K → Conn A K
  async_execute t s = record s { pending = s.pending ++ (t ∷ []) }

  -- `if c.onWriteComplete != nil { c.el.AsyncExecute(…) }`
  abbrev pub complete_if_set : Option (Conn A K → Run (Conn A K)) → Conn A K → Conn A K
  complete_if_set none s = s
  complete_if_set (some _) s = async_execute write_complete s

  unfoldable pub async_write : List ℕ → Option ℕ → Conn A K → Option Error × Conn A K
  async_write buf cb s =
      if is_connected s.state
      then (none, async_execute (async_write_later buf cb) s)
      else (some conn_not_opened, s)

  -- `ShutdownWrite`
  unfoldable pub request_shutdown : Conn A K → Conn A K
  request_shutdown s =
      if is_connected s.state
      then async_execute shutdown_write_later (record s { state = disconnecting })
      else s

module _ {A K : Type 0} (ch : ℕ) where
  -- `c.ch.isWriting()`
  abbrev pub is_writing : Conn A K → Bool
  is_writing s = wants_write (s.poller.channel ch).events

  -- `shutdownWrite`; the error of `unix.Shutdown` is only logged.
  unfoldable pub shutdown_write : Conn A K → Conn A K
  shutdown_write s = if is_writing s then s else record s { shut = true }

module _ {A K : Type 0} (ctl : CtlOp → ℕ → ℕ → K → K) (ch : ℕ)
    (callbacks : Callbacks (Conn A K)) where
  open callbacks use {on_conn, on_msg, on_close, on_write_complete, async_callback}

  abbrev S : Type 0
  S = Conn A K

  abbrev on_poller : (Poller A K → Run (Poller A K)) → S → Run S
  on_poller f s = do p ← f s.poller; ok (record s { poller = p })

  -- The end of `Write`, where `sent` bytes have been written.
  unfoldable pub queue_rest : ℤ → List ℕ → S → Run S
  queue_rest sent buf s =
      if ltb_ℤ sent (pos (length buf))
      then (do
        rest ← slice_from sent buf
        (_, out) ← Buffer.write rest s.outbound
        let t = record s { outbound = out }
        if is_writing ch s then ok t else on_poller (enable_writing ctl ch) t)
      else ok s

  -- The direct write, where nothing waits in the outbound buffer.
  unfoldable pub write_directly : Written → List ℕ → S → Run ((ℤ × Option Error) × S)
  write_directly r buf s = if is_failure r.err then ok ((pos 0, r.err), s) else (do
    let t = record s { wire = s.wire ++ taken r.n buf }
    u ←
        queue_rest r.n buf
          (if ltb_ℤ r.n (pos (length buf)) then t else complete_if_set on_write_complete t)
    ok ((r.n, none), u))

  unfoldable pub write : Written → List ℕ → S → Run ((ℤ × Option Error) × S)
  write r buf s =
      if is_connected s.state
      then if length buf == 0
        then ok ((pos 0, none), s)
        else if not (is_writing ch s) && is_zero (readable_bytes s.outbound)
        then write_directly r buf s
        else (do t ← queue_rest (pos 0) buf s; ok ((pos 0, none), t))
      else ok ((pos 0, some conn_not_opened), s)

  abbrev async_result : Option ℕ → Option Error → S → Run S
  async_result none err s = ok s
  async_result (some cb) err s = async_callback cb err s

  -- A closure, when the loop runs it. `r` is what its `unix.Write` returns, if it makes the call.
  unfoldable pub run_task : Task → Written → S → Run S
  run_task write_complete r s = call on_write_complete s
  run_task shutdown_write_later r s = ok (shutdown_write ch s)
  run_task (async_write_later buf cb) r s = do ((_, err), t) ← write r buf s; async_result cb err t

  unfoldable pub connect_established : S → Run S
  connect_established s = do
    assert (is_connecting s.state)
    t ← on_poller (enable_reading ctl ch) (record s { state = connected })
    call_if_set on_conn t

  unfoldable pub connect_destroyed : S → Run S
  connect_destroyed s = do
    assert (is_connected s.state || is_disconnecting s.state)
    t ← on_poller (disable_all ctl ch) (record s { state = disconnected })
    u ← call on_conn t
    on_poller (remove_channel ctl ch) u

  unfoldable pub handle_close : S → Run S
  handle_close s = do t ← on_poller (disable_all ctl ch) s; call on_close t

  -- The end of `handleRead`, by the number and the error of `ReadFd`.
  unfoldable pub after_read : ℤ → Option ℕ → S → Run S
  after_read n (some err) s = ok s
  after_read n none s = if ltb_ℤ (pos 0) n then call_if_set on_msg s else handle_close s

  unfoldable pub handle_read : Readv → S → Run S
  handle_read r s = do
    ((n, err), b) ← read_fd r s.inbound
    after_read n err (record s { inbound = b })

  -- The end of `handleWrite`, where the outbound buffer is empty.
  unfoldable pub write_finished : S → Run S
  write_finished s = do
    t ← on_poller (disable_writing ctl ch) s
    let u = complete_if_set on_write_complete t
    ok (if is_disconnecting u.state then shutdown_write ch u else u)

  unfoldable pub handle_write : Written → S → Run S
  handle_write r s =
      if is_writing ch s
      then (do
        unread ← peek s.outbound
        let t = record s { outbound = advance r.n s.outbound; wire = s.wire ++ taken r.n unread }
        if is_failure r.err
            then ok s
            else if is_zero (readable_bytes t.outbound)
            then write_finished t
            else ok t)
      else ok s
