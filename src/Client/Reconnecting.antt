-- ===== src/Client/Reconnecting.antt =====
-- tcp_client.go and connector.go: a client that has lost its connection.
use muduo_go.Prelude.{
  inl, inr, ◌⊎◌, Bool-cases, ℕ, ◌+◌, ◌≡◌, refl, ap, true, false, ◌&&◌, Option, none, some, List, [],
  ◌∷◌, ◌++◌, ok, drop-append,
}
use muduo_go.Connector
use muduo_go.Connector.{
  Connector, connector_connected, connector_disconnected, initial_delay, ConnectError, einprogress,
  eintr, eisconn, start, connect0, connect_failed, connecting, restart, remove_and_reset_channel,
  after_option, enable_writing, disable_all, remove_channel,
}
use muduo_go.Client.{
  ClientConn, destroy, TcpClient, client_conn_name, new_conn, remove_conn, handle_write,
}

-- The results of connect(2) on which the connector waits for the socket.
pub data IsPending : Option ConnectError → Type 0 where
  at_once : IsPending none
  in_progress : IsPending (some einprogress)
  interrupted : IsPending (some eintr)
  is_connected : IsPending (some eisconn)

start-pending :
    (r : Option ConnectError) (fd : ℕ) (c : Connector)
    → IsPending r
    → connect0 fd r c ≡ connecting fd (record c { opened = c.opened ++ fd ∷ [] })
unfolding connect0 connect_failed
start-pending _ fd c at_once = refl
start-pending _ fd c in_progress = refl
start-pending _ fd c interrupted = refl
start-pending _ fd c is_connected = refl

-- The connector when it has handed the socket to the client.
abbrev handing : ℕ → Connector → Connector
handing fd c = record c {
  connect = true;
  state = connector_connected;
  ch = some fd;
  retry_delay = initial_delay;
  opened = c.opened ++ fd ∷ [];
  handed = c.handed ++ fd ∷ [];
  channel_calls =
      (c.channel_calls ++ enable_writing fd ∷ []) ++ disable_all fd ∷ remove_channel fd ∷ [];
  resets = c.resets + 1;
}

handle_write-restart :
    (r : Option ConnectError) (fd value : ℕ) (c : Connector)
    → IsPending r
    → Connector.handle_write value none (restart fd r c) ≡ ok (handing fd c)
unfolding Connector.handle_write restart start remove_and_reset_channel after_option connecting
handle_write-restart r fd value c h =
    rw
      (start-pending r fd
        (record c { connect = true; state = connector_disconnected; retry_delay = initial_delay })
        h)
      refl

handed-restart :
    (r : Option ConnectError) (fd : ℕ) (c : Connector)
    → IsPending r
    → (restart fd r c).handed ≡ c.handed
unfolding restart start connecting
handed-restart r fd c h =
    ap (λ d. d.handed)
      (start-pending r fd
        (record c { connect = true; state = connector_disconnected; retry_delay = initial_delay })
        h)

-- When a connection of a client that is to retry and to connect is removed, connect(2) on the new
-- socket succeeds or is under way, the socket then becomes writable without an error, and
-- GetLocalAddr finds its local address, the client has a new connection on the new socket, which it
-- has established, under the next number; the closure that destroys the old one was given to the
-- loop. A client that is not to retry or not to connect only gives that closure and has no
-- connection; its connector stays as it was.
pub remove_conn-reconnects :
    (x : ClientConn) (fd value : ℕ) (r : Option ConnectError) (addr : List ℕ) (c : TcpClient)
    → IsPending r
    → (((c.retry && c.connect) ≡ true)
        × (t : TcpClient) × (handle_write value none (some addr) (remove_conn x fd r c) ≡ ok t)
        × (t.conn ≡ some (record { name = client_conn_name addr c.peer c.next_conn_id; fd = fd }))
        × (t.established
            ≡ record { name = client_conn_name addr c.peer c.next_conn_id; fd = fd }
              ∷ c.established)
        × (t.given ≡ destroy x ∷ c.given)
        × (t.connector.state ≡ connector_connected))
      ⊎ (((c.retry && c.connect) ≡ false)
          × (remove_conn x fd r c ≡ record c { conn = none; given = destroy x ∷ c.given }))
unfolding handle_write remove_conn new_conn
remove_conn-reconnects x fd value r addr c h = elim (Bool-cases (c.retry && c.connect)) [
  | inl e ↦ inl (
    e,
    new_conn fd (some addr)
        (record c { conn = none; given = destroy x ∷ c.given; connector = handing fd c.connector }),
    rw e (
        rw (handle_write-restart r fd value c.connector h)
          (rw (handed-restart r fd c.connector h, drop-append c.connector.handed (fd ∷ [])) refl)),
    refl,
    refl,
    refl,
    refl,
  )
  | inr e ↦ inr (e, rw e refl)
]
