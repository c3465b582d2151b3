-- ===== src/Server.antt =====
-- tcp_server.go and acceptor.go: the connections of a server. A loop is a number, and the worker
-- loops that the group's engines start are an argument. The state keeps the calls of AsyncExecute,
-- the latest first, each with the loop that it is for. The addresses in a connection and the
-- callbacks that it is given do not change what the server does, and are left out.
pub mod Names
pub mod Conns
pub mod Live
pub mod Order
mod Tests
use muduo_go.Prelude.{
  ℕ, suc, ◌+◌, ◌%◌, ◌^◌, Bool, true, false, not, Option, none, some, List, [], ◌∷◌, ◌++◌,
  if◌then◌else◌, Run, ok, panic, ◌>>=◌,
}
use muduo_go.Text.{eq_bytes, bytes, itoa, to_int64}
use muduo_go.Group
use muduo_go.Group.{EventloopEngineGroup, new_group, get_next_loop}

-- What the server keeps of a `TcpConn`, and whether TCP_NODELAY was set on it.
pub record ServerConn : Type 0 where
  pub name : List ℕ
  pub fd : ℕ
  pub el : ℕ
  pub no_delay : Bool

-- The closures that the server gives to loops.
pub data Task : Type 0 where
  listen_task : Task
  establish remove destroy : ServerConn → Task

pub record TcpServer : Type 0 where
  pub el : ℕ
  pub name : List ℕ
  pub addr : List ℕ
  pub group : EventloopEngineGroup
  pub started : Bool
  pub listening : Bool
  -- whether the listening socket is open
  pub accepting : Bool
  pub next_conn_id : ℕ
  pub conn_map : List ℕ → Option ServerConn
  pub tcp_no_delay : Bool
  pub given : List (ℕ × Task)

unfoldable pub new_tcp_server : ℕ → List ℕ → List ℕ → TcpServer
new_tcp_server el name addr = record {
  el = el;
  name = name;
  addr = addr;
  group = new_group el;
  started = false;
  listening = false;
  accepting = true;
  next_conn_id = 1;
  conn_map = λ q. none;
  tcp_no_delay = true;
  given = [];
}

-- `el.AsyncExecute(task)`
abbrev pub async_execute : ℕ → Task → TcpServer → TcpServer
async_execute el task s = record s { given = (el, task) ∷ s.given }

unfoldable pub set_tcp_no_delay : Bool → TcpServer → TcpServer
set_tcp_no_delay b s = record s { tcp_no_delay = b }

-- The two parts of `Start`, with the loops that the engines of the group start.
abbrev pub start_group : List ℕ → TcpServer → TcpServer
start_group loops s =
    if s.started then s else record s { started = true; group = Group.start loops s.group }

abbrev pub request_listen : TcpServer → TcpServer
request_listen s = if s.listening then s else async_execute s.el listen_task s

unfoldable pub start : List ℕ → TcpServer → TcpServer
start loops s = request_listen (start_group loops s)

-- `listen` of the acceptor
unfoldable pub listen : TcpServer → TcpServer
listen s = record s { listening = true }

unfoldable pub conn_name : List ℕ → List ℕ → ℕ → List ℕ
conn_name name addr id =
    name ++ (bytes "[" ++ (addr ++ (bytes "]" ++ (bytes "-conn-" ++ itoa (to_int64 id)))))

-- `connMap[name] = conn`, or `delete`
unfoldable pub set_conn : List ℕ → Option ServerConn → TcpServer → TcpServer
set_conn name c s = record s { conn_map = λ q. if eq_bytes q name then c else s.conn_map q }

unfoldable pub new_conn : ℕ → TcpServer → Run (ServerConn × TcpServer)
new_conn fd s = do
  (el, g) ← get_next_loop s.group
  let name = conn_name s.name s.addr s.next_conn_id
  let c : ServerConn = record { name = name; fd = fd; el = el; no_delay = s.tcp_no_delay }
  let t = record s { next_conn_id = (s.next_conn_id + 1) % 2 ^ 64; group = g }
  ok (c, async_execute el (establish c) (set_conn name (some c) t))

unfoldable pub remove_conn : ServerConn → TcpServer → TcpServer
remove_conn c s = async_execute s.el (remove c) s

unfoldable pub remove_conn_in_loop : ServerConn → TcpServer → TcpServer
remove_conn_in_loop c s = async_execute c.el (destroy c) (set_conn c.name none s)

-- `handleRead` of the acceptor, by what accept(2) returns: an error, or a descriptor.
unfoldable pub handle_read : Option ℕ → TcpServer → Run TcpServer
handle_read none s = ok (record s { accepting = false })
handle_read (some fd) s = do (_, t) ← new_conn fd s; ok t
