-- ===== src/Sockets/Tests.antt =====
-- socket.go and tcp_server.go: the theorems at concrete addresses.
use muduo_go.Prelude.{
  ℕ, ◌≡◌, ◌==◌, refl, Bool, Option, none, some, List, [], ◌∷◌, if◌then◌else◌, ok, arith,
}
use muduo_go.Text.{bytes}
use muduo_go.Sockets.{
  Sockaddr, inet6, TcpAddr, tcp_addr, Interfaces, fine, to16, get_tcp_sock_addr,
  sockaddr_to_tcp_or_unix_addr, sockaddr_to_tcp_addr,
}
use muduo_go.Sockets.Addresses.{inet6-IsSized, tcp_addrs_agree, get_tcp_sock_addr-back}

-- One interface, whose index is 2.
abbrev one_interface : Interfaces
one_interface = record {
  by_index = λ i. if i == 2 then some (bytes "eth0") else none;
  by_name = λ name. some 2;
}

abbrev loopback : List ℕ
loopback = 0 ∷ 0 ∷ 0 ∷ 0 ∷ 0 ∷ 0 ∷ 0 ∷ 0 ∷ 0 ∷ 0 ∷ 0 ∷ 0 ∷ 0 ∷ 0 ∷ 0 ∷ 1 ∷ []

abbrev local_host : TcpAddr
local_host = record { ip = loopback; port = 11_211; zone = bytes "eth0" }

abbrev always : List ℕ → List ℕ → Option TcpAddr
always proto addr = some local_host

tcp_addrs_agree_example :
    (a b : TcpAddr) × (sockaddr_to_tcp_addr one_interface (inet6 loopback 80 3) ≡ ok (some a))
    × (sockaddr_to_tcp_or_unix_addr one_interface (inet6 loopback 80 3) ≡ ok (tcp_addr b))
    × (to16 a.ip ≡ to16 b.ip)
    × (a.port ≡ b.port)
    × (a.zone ≡ b.zone)
tcp_addrs_agree_example =
    tcp_addrs_agree one_interface (inet6 loopback 80 3) (inet6-IsSized refl (omega arith))

loopback-long : to16 loopback ≡ some loopback
unfolding to16
loopback-long = refl

get_tcp_sock_addr-back_example :
    (sa : Sockaddr) × (only : Bool) × (b : TcpAddr) × (get_tcp_sock_addr one_interface always
        (bytes "tcp")
        (bytes "[::1]:11211")
      ≡ fine (sa, local_host, only))
    × (sockaddr_to_tcp_addr one_interface sa ≡ ok (some b))
    × (b.ip ≡ loopback)
    × (b.port ≡ 11_211)
get_tcp_sock_addr-back_example =
    get_tcp_sock_addr-back one_interface always (bytes "tcp") (bytes "[::1]:11211") loopback
      local_host refl loopback-long
