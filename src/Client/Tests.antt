-- ===== src/Client/Tests.antt =====
-- tcp_client.go: the theorem at a concrete client.
use muduo_go.Prelude.{ℕ, ◌≡◌, ◌⊎◌, ◌&&◌, refl, true, false, some, none, List, ◌∷◌, ok}
use muduo_go.Text.{bytes}
use muduo_go.Connector.{einprogress, connector_connected}
use muduo_go.Client.{
  ClientConn, destroy, TcpClient, new_tcp_client, set_retry, request_connect, client_conn_name,
  new_conn, remove_conn, handle_write,
}
use muduo_go.Client.Reconnecting.{in_progress, remove_conn-reconnects}

-- A client that retries, with a connection on the descriptor 5.
abbrev busy_client : TcpClient
busy_client =
    new_conn 5 (some (bytes "10.0.0.1:4000"))
      (request_connect (set_retry true (new_tcp_client (bytes "10.0.0.2:80"))))

abbrev first_conn : ClientConn
first_conn = record {
  name = client_conn_name (bytes "10.0.0.1:4000") (bytes "10.0.0.2:80") 1;
  fd = 5;
}

abbrev other_port : List ℕ
other_port = bytes "10.0.0.1:4001"

remove_conn-reconnects_example :
    (((busy_client.retry && busy_client.connect) ≡ true)
      × (t : TcpClient) × (handle_write 0 none
            (some other_port)
            (remove_conn first_conn 6 (some einprogress) busy_client)
          ≡ ok t)
      × (t.conn
          ≡ some (record {
            name = client_conn_name other_port busy_client.peer busy_client.next_conn_id;
            fd = 6;
          }))
      × (t.established
          ≡ record {
            name = client_conn_name other_port busy_client.peer busy_client.next_conn_id;
            fd = 6;
          }
            ∷ busy_client.established)
      × (t.given ≡ destroy first_conn ∷ busy_client.given)
      × (t.connector.state ≡ connector_connected))
    ⊎ (((busy_client.retry && busy_client.connect) ≡ false)
        × (remove_conn first_conn 6 (some einprogress) busy_client
            ≡ record busy_client { conn = none; given = destroy first_conn ∷ busy_client.given }))
remove_conn-reconnects_example =
    remove_conn-reconnects first_conn 6 0 (some einprogress) other_port busy_client in_progress

retries : (busy_client.retry && busy_client.connect) ≡ true
unfolding new_conn request_connect set_retry new_tcp_client
retries = refl
