-- ===== src/Sockets.antt =====
-- socket.go, tcp_server.go and acceptor.go: the addresses of sockets. An IP address (net.IP) is its
-- bytes, four or sixteen, and none is the empty list. What the system knows of its network
-- interfaces and the resolver of names are parameters. Ports are numbers.
pub mod Addresses
pub mod Binding
mod Tests
use muduo_go.Prelude.{
  ℕ, ◌+◌, ◌-◌, ◌%◌, ◌^◌, Bool, true, false, not, ◌&&◌, ◌||◌, Option, none, some, List, [], ◌∷◌,
  ◌++◌, if◌then◌else◌, Run, ok, panic, ◌>>=◌, ◌==◌, length, take, drop, replicate, copy, copy_at,
}
use muduo_go.Text.{eq_bytes, bytes}
use muduo_go.Decimal.{itod, uint2decimal_str}

-- `unix.Sockaddr`: the address, the port, and for IPv6 the zone.
pub data Sockaddr : Type 0 where
  inet4 : List ℕ → ℕ → Sockaddr
  inet6 : List ℕ → ℕ → ℕ → Sockaddr
  unix_path : List ℕ → Sockaddr

-- `net.TCPAddr`
pub record TcpAddr : Type 0 where
  pub ip : List ℕ
  pub port : ℕ
  pub zone : List ℕ

-- `net.Addr`
pub data NetAddr : Type 0 where
  tcp_addr : TcpAddr → NetAddr
  unix_addr : List ℕ → NetAddr

pub data AddrError : Type 0 where
  resolve_failed unsupported_tcp_protocol unsupported_protocol non_ipv4 non_ipv6 : AddrError

pub data Result {ℓ} (A : Type ℓ) : Type ℓ where
  fine : A → Result A
  failed : AddrError → Result A

-- The interfaces by their indices and by their names.
pub record Interfaces : Type 0 where
  pub by_index : ℕ → Option (List ℕ)
  pub by_name : List ℕ → Option ℕ

-- The first twelve bytes of an IPv4 address in sixteen.
abbrev pub v4_in_v6_prefix : List ℕ
v4_in_v6_prefix = replicate 10 0 ++ 255 ∷ 255 ∷ []

-- `ip.To4()` and `ip.To16()` of package net
unfoldable pub to4 : List ℕ → Option (List ℕ)
to4 ip =
    if length ip == 4
    then some ip
    else if length ip == 16 && eq_bytes (take 12 ip) v4_in_v6_prefix
    then some (drop 12 ip)
    else none

unfoldable pub to16 : List ℕ → Option (List ℕ)
to16 ip =
    if length ip == 4
    then some (v4_in_v6_prefix ++ ip)
    else if length ip == 16
    then some ip
    else none

abbrev pub ipv4_zero : List ℕ
ipv4_zero = v4_in_v6_prefix ++ replicate 4 0

-- `ip.Equal(net.IPv4zero)`
abbrev pub is_ipv4_zero : Option (List ℕ) → Bool
is_ipv4_zero none = false
is_ipv4_zero (some ip) = eq_bytes ip ipv4_zero

-- `copy(sa.Addr[:], ip)` into an array of four bytes
abbrev pub sockaddr_of4 : Option (List ℕ) → ℕ → Result Sockaddr
sockaddr_of4 none port = failed non_ipv4
sockaddr_of4 (some ip) port = fine (inet4 (copy (replicate 4 0) ip) port)

unfoldable pub ip_to_sockaddr_inet4 : List ℕ → ℕ → Result Sockaddr
ip_to_sockaddr_inet4 ip port = sockaddr_of4 (to4 (if length ip == 0 then ipv4_zero else ip)) port

-- The index of the zone, or 0; `uint32(iface.Index)`
abbrev pub zone_id : Option ℕ → ℕ
zone_id none = 0
zone_id (some index) = index % 2 ^ 32

abbrev pub sockaddr_of6 : Option ℕ → Option (List ℕ) → ℕ → Result Sockaddr
sockaddr_of6 index none port = failed non_ipv6
sockaddr_of6 index (some ip) port = fine (inet6 (copy (replicate 16 0) ip) port (zone_id index))

-- The name of the zone's interface, or the number of the zone.
abbrev pub zone_name : Option (List ℕ) → Run (List ℕ) → Run (List ℕ)
zone_name none number = number
zone_name (some name) number = ok name

pub data TcpVersion : Type 0 where
  tcp4 tcp6 tcp : TcpVersion

abbrev pub version_of : List ℕ → Option TcpVersion
version_of proto =
    if eq_bytes proto (bytes "tcp")
    then some tcp
    else if eq_bytes proto (bytes "tcp4")
    then some tcp4
    else if eq_bytes proto (bytes "tcp6")
    then some tcp6
    else none

-- The branches of determineTCPProto, by To4, To16 and the protocol.
abbrev pub proto_by : Option (List ℕ) → Option (List ℕ) → Option TcpVersion → Result TcpVersion
proto_by (some ip) long version = fine tcp4
proto_by none (some ip) version = fine tcp6
proto_by none none (some v) = fine v
proto_by none none none = failed unsupported_tcp_protocol

-- The protocols that determineTCPProto returns are the three of `TcpVersion`.
unfoldable pub determine_tcp_proto : List ℕ → TcpAddr → Result TcpVersion
determine_tcp_proto proto addr = proto_by (to4 addr.ip) (to16 addr.ip) (version_of proto)

module _ (net : Interfaces) where
  unfoldable pub ip_to_sockaddr_inet6 : List ℕ → ℕ → List ℕ → Result Sockaddr
  ip_to_sockaddr_inet6 ip port zone =
      let wild = length ip == 0 || is_ipv4_zero (to16 ip) in
      sockaddr_of6 (net.by_name zone) (to16 (if wild then replicate 16 0 else ip)) port

  -- The result of GetTCPSockAddr: the family is that of `sa`, and the flag is `ipv6only`. On an
  -- error the caller uses nothing else.
  abbrev pub with_addr : Result Sockaddr → TcpAddr → Bool → Result (Sockaddr × TcpAddr × Bool)
  with_addr (fine sa) a only = fine (sa, a, only)
  with_addr (failed e) a only = failed e

  abbrev pub sockaddr_by : Result TcpVersion → TcpAddr → Result (Sockaddr × TcpAddr × Bool)
  sockaddr_by (fine tcp4) a = with_addr (ip_to_sockaddr_inet4 a.ip a.port) a false
  sockaddr_by (fine tcp6) a = with_addr (ip_to_sockaddr_inet6 a.ip a.port a.zone) a true
  sockaddr_by (fine tcp) a = with_addr (ip_to_sockaddr_inet6 a.ip a.port a.zone) a false
  sockaddr_by (failed e) a = failed e

  abbrev pub sockaddr_resolved : List ℕ → Option TcpAddr → Result (Sockaddr × TcpAddr × Bool)
  sockaddr_resolved proto none = failed resolve_failed
  sockaddr_resolved proto (some a) = sockaddr_by (determine_tcp_proto proto a) a

  -- `resolve` is net.ResolveTCPAddr.
  unfoldable pub get_tcp_sock_addr :
      (List ℕ → List ℕ → Option TcpAddr) → List ℕ → List ℕ → Result (Sockaddr × TcpAddr × Bool)
  get_tcp_sock_addr resolve proto addr = sockaddr_resolved proto (resolve proto addr)

  -- `ip6ZoneToString` of socket.go and `IP6ZoneToString` of tcp_server.go
  unfoldable pub socket_zone_to_string : ℕ → Run (List ℕ)
  socket_zone_to_string zone =
      if zone == 0 then ok [] else zone_name (net.by_index zone) (uint2decimal_str zone)

  unfoldable pub server_zone_to_string : ℕ → Run (List ℕ)
  server_zone_to_string zone =
      if zone == 0 then ok [] else zone_name (net.by_index zone) (itod zone)

  unfoldable pub sockaddr_to_tcp_or_unix_addr : Sockaddr → Run NetAddr
  sockaddr_to_tcp_or_unix_addr (inet4 ip port) =
      ok (tcp_addr (record { ip = ip; port = port; zone = [] }))
  sockaddr_to_tcp_or_unix_addr (inet6 ip port zone) = do
    z ← socket_zone_to_string zone
    ok (tcp_addr (record { ip = ip; port = port; zone = z }))
  sockaddr_to_tcp_or_unix_addr (unix_path name) = ok (unix_addr name)

  unfoldable pub sockaddr_to_ip_and_zone : Sockaddr → Run (List ℕ × List ℕ)
  sockaddr_to_ip_and_zone (inet4 ip port) = ok (v4_in_v6_prefix ++ copy (replicate 4 0) ip, [])
  sockaddr_to_ip_and_zone (inet6 ip port zone) = do
    z ← server_zone_to_string zone
    ok (copy (replicate 16 0) ip, z)
  sockaddr_to_ip_and_zone (unix_path name) = ok ([], [])

  abbrev pub tcp_addr_at : Sockaddr → List ℕ × List ℕ → Option TcpAddr
  tcp_addr_at (inet4 a port) (ip, zone) = some (record { ip = ip; port = port; zone = [] })
  tcp_addr_at (inet6 a port i) (ip, zone) = some (record { ip = ip; port = port; zone = zone })
  tcp_addr_at (unix_path name) _ = none

  -- `none` is a nil address.
  unfoldable pub sockaddr_to_tcp_addr : Sockaddr → Run (Option TcpAddr)
  sockaddr_to_tcp_addr sa = do both ← sockaddr_to_ip_and_zone sa; ok (tcp_addr_at sa both)
