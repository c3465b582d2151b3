-- ===== src/Client.antt =====
-- tcp_client.go: a client, over the connector. A connection is its name and its descriptor. The
-- state keeps the closures that the client gives to its loop, the latest first, and the connections
-- that it establishes and shuts down, the latest first. What getsockname(2) and the system calls of
-- the connector return is an argument, and so is what the addresses print as. The callbacks do not
-- change what the client does.
pub mod Reconnecting
mod Tests
use muduo_go.Prelude.{
  ℕ, ◌+◌, ◌%◌, ◌^◌, Bool, true, false, ◌&&◌, Option, none, some, List, [], ◌∷◌, ◌++◌, if◌then◌else◌,
  Run, ok, panic, ◌>>=◌, length, drop, pos,
}
use muduo_go.Text.{bytes, itoa}
use muduo_go.Connector
use muduo_go.Connector.{Connector, ConnectError, new_connector, request_start, stop, restart}

pub record ClientConn : Type 0 where
  pub name : List ℕ
  pub fd : ℕ

-- The closures of the client: the connector's start, the close callback that Destroy sets, the end
-- of a connection, and the empty one that Destroy schedules.
pub data ClientTask : Type 0 where
  start_task idle_task : ClientTask
  destroy_on_close destroy : ClientConn → ClientTask

pub record TcpClient : Type 0 where
  pub connector : Connector
  pub peer : List ℕ
  pub retry : Bool
  pub connect : Bool
  pub next_conn_id : ℕ
  pub conn : Option ClientConn
  pub given : List ClientTask
  pub established : List ClientConn
  pub shut : List ClientConn

unfoldable pub new_tcp_client : List ℕ → TcpClient
new_tcp_client peer = record {
  connector = new_connector;
  peer = peer;
  retry = false;
  connect = true;
  next_conn_id = 1;
  conn = none;
  given = [];
  established = [];
  shut = [];
}

unfoldable pub set_retry : Bool → TcpClient → TcpClient
set_retry b c = record c { retry = b }

abbrev pub async_execute : ClientTask → TcpClient → TcpClient
async_execute task c = record c { given = task ∷ c.given }

-- `Connect`
unfoldable pub request_connect : TcpClient → TcpClient
request_connect c =
    async_execute start_task (record c { connect = true; connector = request_start c.connector })

abbrev pub shut_conn : Option ClientConn → TcpClient → TcpClient
shut_conn none c = c
shut_conn (some x) c = record c { shut = x ∷ c.shut }

unfoldable pub disconnect : TcpClient → TcpClient
disconnect c = shut_conn c.conn (record c { connect = false })

-- `Stop`
unfoldable pub stop_client : TcpClient → TcpClient
stop_client c = record c { connect = false; connector = stop c.connector }

abbrev pub destroy_by : Option ClientConn → TcpClient → TcpClient
destroy_by (some x) c = async_execute (destroy_on_close x) c
destroy_by none c = async_execute idle_task (record c { connector = stop c.connector })

-- `Destroy`
unfoldable pub destroy_client : TcpClient → TcpClient
destroy_client c = destroy_by c.conn (record c { connect = false; connector = stop c.connector })

unfoldable pub client_conn_name : List ℕ → List ℕ → ℕ → List ℕ
client_conn_name addr peer id = addr ++ (bytes "-" ++ (peer ++ (bytes "#" ++ itoa (pos id))))

-- `newConn`, with the local address of the descriptor, or none if GetLocalAddr fails.
unfoldable pub new_conn : ℕ → Option (List ℕ) → TcpClient → TcpClient
new_conn fd none c = c
new_conn fd (some addr) c =
    let x : ClientConn = record { name = client_conn_name addr c.peer c.next_conn_id; fd = fd } in
    record c {
      next_conn_id = (c.next_conn_id + 1) % 2 ^ 64;
      conn = some x;
      established = x ∷ c.established;
    }

-- `removeConn`, with the socket and the result of `connect` for the case that it connects again.
unfoldable pub remove_conn : ClientConn → ℕ → Option ConnectError → TcpClient → TcpClient
remove_conn x fd err c =
    let d = async_execute (destroy x) (record c { conn = none }) in
    if d.retry && d.connect then record d { connector = restart fd err d.connector } else d

-- The connector's callback is newConn: it is called with what handleWrite hands out.
abbrev pub take_handed : List ℕ → Option (List ℕ) → TcpClient → TcpClient
take_handed [] addr c = c
take_handed (fd ∷ fds) addr c = new_conn fd addr c

unfoldable pub handle_write : ℕ → Option ℕ → Option (List ℕ) → TcpClient → Run TcpClient
handle_write value err addr c = do
  d ← Connector.handle_write value err c.connector
  ok (take_handed (drop (length c.connector.handed) d.handed) addr (record c { connector = d }))
