-- ===== src/Server/Tests.antt =====
-- tcp_server.go: the theorems at a concrete server.
use mathlib.Core.List.{Memᴰ}
use muduo_go.Prelude.{ℕ, ◌≡◌, ◌+◌, ◌%◌, ◌^◌, refl, true, some, List, [], ◌∷◌, arith}
use muduo_go.Text.{bytes}
use muduo_go.Group.{new_group, get_next_loop}
use muduo_go.Group
use muduo_go.Server.{
  ServerConn, establish, TcpServer, new_tcp_server, async_execute, start, listen, conn_name,
  set_conn, new_conn, remove_conn, remove_conn_in_loop,
}
use muduo_go.Server.Conns.{Distinct, without}
use muduo_go.Server.Live.{Reaches, begins, starts, listens, accepts, asks, removes, conn_map-live}
use muduo_go.Server.Order.{InOrder, establish_before_destroy}

abbrev server_name : List ℕ
server_name = bytes "echo"

abbrev server_addr : List ℕ
server_addr = bytes "0.0.0.0:80"

-- Loop 0 is the server's, and 1 and 2 are workers.
abbrev ready : TcpServer
ready = listen (start (1 ∷ 2 ∷ []) (new_tcp_server 0 server_name server_addr))

abbrev conn_at : ℕ → ℕ → ℕ → ServerConn
conn_at id fd el = record {
  name = conn_name server_name server_addr id;
  fd = fd;
  el = el;
  no_delay = true;
}

abbrev after_accept : ℕ → ℕ → TcpServer → TcpServer
after_accept id fd s =
    let c = conn_at id fd (1 + s.group.next) in
    async_execute c.el (establish c) (
      set_conn c.name (some c) (record s {
        next_conn_id = (s.next_conn_id + 1) % 2 ^ 64;
        group = record s.group { next = s.group.next + 1 };
      }))

abbrev one : TcpServer
one = after_accept 1 7 ready

abbrev two : TcpServer
two = after_accept 2 8 one

abbrev second : ServerConn
second = conn_at 2 8 2

ready-Reaches : Reaches 0 server_name server_addr ready []
ready-Reaches = listens (starts (1 ∷ 2 ∷ []) begins)

one-Reaches : Reaches 0 server_name server_addr one (conn_at 1 7 1 ∷ [])
unfolding new_conn get_next_loop new_tcp_server new_group listen start Group.start
one-Reaches = accepts 7 ready-Reaches (omega arith) refl

two-Reaches : Reaches 0 server_name server_addr two (second ∷ conn_at 1 7 1 ∷ [])
unfolding new_conn get_next_loop new_tcp_server new_group listen start Group.start set_conn
two-Reaches = accepts 8 one-Reaches (omega arith) refl

-- The second connection goes.
abbrev closed : TcpServer
closed = remove_conn_in_loop second (remove_conn second two)

abbrev left : List ServerConn
left = without second.name (second ∷ conn_at 1 7 1 ∷ [])

closed-Reaches : Reaches 0 server_name server_addr closed left
closed-Reaches = removes (asks two-Reaches (Memᴰ.head refl)) (Memᴰ.head refl)

conn_map-live_example :
    Distinct left
    × ((c : ServerConn) → Memᴰ c left → closed.conn_map c.name ≡ some c)
    × ((q : List ℕ) (c : ServerConn) → closed.conn_map q ≡ some c → Memᴰ c left × (c.name ≡ q))
conn_map-live_example = conn_map-live 0 server_name server_addr closed left closed-Reaches

establish_before_destroy_example : InOrder closed.given
establish_before_destroy_example =
    establish_before_destroy 0 server_name server_addr closed left closed-Reaches
