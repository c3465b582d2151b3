-- ===== src/Connector.antt =====
-- connector.go: a client's attempts to connect. A socket is its descriptor, and what sysSocket,
-- connect(2) and getsockopt(2) return is an argument. The state also keeps what the connector does
-- to the outside: the descriptors that it has opened, closed and handed to the callback, the calls
-- for its channels (whose assertions are those of poller.go), the delays of the timers that it has
-- started, the timers that it has cancelled (by their positions), and how many of its closures
-- `c.ch = nil` the loop has still to run. Durations are in nanoseconds; they are far below 2^53, so
-- `math.Min` of their float64 values is exact. A failing sysSocket panics.
pub mod Channels
pub mod Accounting
pub mod Sockets
pub mod Delay
mod Tests
use muduo_go.Prelude.{
  ℕ, ◌+◌, ◌*◌, Bool, true, false, Option, none, some, List, [], ◌∷◌, ◌++◌, if◌then◌else◌, Run, ok,
  panic, ◌>>=◌, min, length,
}

pub data ConnectState : Type 0 where
  connector_disconnected connector_connecting connector_connected : ConnectState

abbrev pub is_connecting : ConnectState → Bool
is_connecting connector_connecting = true
is_connecting _ = false

-- The errors that `connect0` names, and all others.
pub data ConnectError : Type 0 where
  einprogress eintr eisconn : ConnectError
  eagain eaddrinuse eaddrnotavail econnrefused enetunreach : ConnectError
  eacces eperm eafnosupport ealready ebadf efault enotsock other_error : ConnectError

-- The calls that the connector makes for its channel, by the descriptor of it.
pub data ChannelCall : Type 0 where
  enable_writing disable_all remove_channel : ℕ → ChannelCall

pub record Connector : Type 0 where
  pub connect : Bool
  pub state : ConnectState
  -- the descriptor of `c.ch`
  pub ch : Option ℕ
  pub retry_delay : ℕ
  pub tt : Option ℕ
  pub opened : List ℕ
  pub closed : List ℕ
  pub handed : List ℕ
  pub channel_calls : List ChannelCall
  pub timers : List ℕ
  pub cancelled : List ℕ
  pub resets : ℕ

abbrev pub initial_delay : ℕ
initial_delay = 500_000_000

abbrev pub max_delay : ℕ
max_delay = 30_000_000_000

unfoldable pub new_connector : Connector
new_connector = record {
  connect = false;
  state = connector_disconnected;
  ch = none;
  retry_delay = initial_delay;
  tt = none;
  opened = [];
  closed = [];
  handed = [];
  channel_calls = [];
  timers = [];
  cancelled = [];
  resets = 0;
}

-- `unix.Close(fd)`
abbrev close : ℕ → Connector → Connector
close fd c = record c { closed = c.closed ++ (fd ∷ []) }

unfoldable pub connecting : ℕ → Connector → Connector
connecting fd c = record c {
  state = connector_connecting;
  ch = some fd;
  channel_calls = c.channel_calls ++ enable_writing fd ∷ [];
}

unfoldable pub retry : ℕ → Connector → Connector
retry fd c =
    let d = record (close fd c) { state = connector_disconnected } in
    if d.connect
    then record d {
      timers = d.timers ++ (d.retry_delay ∷ []);
      tt = some (length d.timers);
      retry_delay = min (d.retry_delay * 2) max_delay;
    }
    else d

-- The `switch` on the error of `unix.Connect`.
unfoldable pub connect_failed : ConnectError → ℕ → Connector → Connector
connect_failed einprogress fd c = connecting fd c
connect_failed eintr fd c = connecting fd c
connect_failed eisconn fd c = connecting fd c
connect_failed eagain fd c = retry fd c
connect_failed eaddrinuse fd c = retry fd c
connect_failed eaddrnotavail fd c = retry fd c
connect_failed econnrefused fd c = retry fd c
connect_failed enetunreach fd c = retry fd c
connect_failed _ fd c = close fd c

abbrev connect_result : Option ConnectError → ℕ → Connector → Connector
connect_result none fd c = connecting fd c
connect_result (some e) fd c = connect_failed e fd c

unfoldable pub connect0 : ℕ → Option ConnectError → Connector → Connector
connect0 fd err c = connect_result err fd (record c { opened = c.opened ++ (fd ∷ []) })

-- `start`, with the socket and the result of `connect` for the case that it comes to them.
unfoldable pub start : ℕ → Option ConnectError → Connector → Connector
start fd err c = if c.connect then connect0 fd err c else c

-- `Start` before its closure runs `start`.
unfoldable pub request_start : Connector → Connector
request_start c = record c { connect = true }

abbrev cancel_timer : Option ℕ → Connector → Connector
cancel_timer none c = c
cancel_timer (some t) c = record c { cancelled = c.cancelled ++ (t ∷ []) }

unfoldable pub stop : Connector → Connector
stop c = let d = record c { connect = false } in cancel_timer d.tt d

unfoldable pub restart : ℕ → Option ConnectError → Connector → Connector
restart fd err c =
    start fd err
      (record c { connect = true; state = connector_disconnected; retry_delay = initial_delay })

-- `removeAndResetChannel` returns the descriptor, and dereferences `c.ch`.
unfoldable pub remove_and_reset_channel : Connector → Run (ℕ × Connector)
remove_and_reset_channel c = elim c.ch [
  | none ↦ panic
  | some fd ↦ ok (
    fd,
    record c {
      channel_calls = c.channel_calls ++ disable_all fd ∷ remove_channel fd ∷ [];
      resets = c.resets + 1;
    },
  )
]

-- The closure `c.ch = nil`.
unfoldable pub reset_channel : Connector → Connector
reset_channel c = record c { ch = none }

-- The end of `handleWrite`: the number that getsockopt returns is dropped, its error is not.
unfoldable pub after_option : ℕ → Option ℕ → ℕ → Connector → Connector
after_option value (some err) fd c = retry fd c
after_option value none fd c =
    let d = record c { state = connector_connected } in
    if d.connect then record d { handed = d.handed ++ (fd ∷ []) } else close fd d

unfoldable pub handle_write : ℕ → Option ℕ → Connector → Run Connector
handle_write value err c =
    if is_connecting c.state
    then (do (fd, d) ← remove_and_reset_channel c; ok (after_option value err fd d))
    else ok c

unfoldable pub handle_error : Connector → Run Connector
handle_error c =
    if is_connecting c.state
    then (do (fd, d) ← remove_and_reset_channel c; ok (retry fd d))
    else ok c
