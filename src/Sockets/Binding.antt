-- ===== src/Sockets/Binding.antt =====
-- socket.go and acceptor.go: the address that an acceptor listens on. What socket(2) returns is an
-- argument; whether bind(2) accepts an address, the resolver of names and strings.ToLower are
-- parameters. The result of setsockopt(2) is not looked at.
mod Tests
use muduo_go.Prelude.{
  ℕ, ◌≡◌, refl, Bool, true, false, Option, none, some, List, [], ◌∷◌, if◌then◌else◌, Run, ok, panic,
  ◌>>=◌, length, drop, replicate, ◌++◌, ◌⊎◌, inl, inr, sym, ap, ◌∙◌, arith, copy,
}
use muduo_go.Buffer.{is_prefix}
use muduo_go.Text.{bytes, eq_bytes}
use muduo_go.Sockets.{
  zone_id, NetAddr, sockaddr_to_tcp_or_unix_addr, Sockaddr, inet4, inet6, TcpAddr, Result, fine,
  failed, Interfaces, get_tcp_sock_addr, sockaddr_to_tcp_addr, to4, to16, determine_tcp_proto,
  ip_to_sockaddr_inet4, ip_to_sockaddr_inet6, sockaddr_to_ip_and_zone, ipv4_zero, v4_in_v6_prefix,
}

-- What stands before and behind the first `sep`, if it occurs.
abbrev pub cut : List ℕ → List ℕ → Option (List ℕ × List ℕ)
cut sep [] = none
cut sep (x ∷ xs) =
    let rest = cut sep xs in
    if is_prefix sep (x ∷ xs) then some ([], drop (length sep) (x ∷ xs)) else behind x rest
  where
    behind : ℕ → Option (List ℕ × List ℕ) → Option (List ℕ × List ℕ)
    behind x none = none
    behind x (some (a, b)) = some (x ∷ a, b)

-- The second piece of `strings.Split`, where `rest` is what follows the first separator.
abbrev second_piece : List ℕ → Option (List ℕ × List ℕ) → List ℕ
second_piece rest none = rest
second_piece rest (some (a, b)) = a

abbrev parsed : List ℕ → Option (List ℕ × List ℕ) → List ℕ × List ℕ
parsed address none = (bytes "tcp", address)
parsed address (some (network, rest)) = (network, second_piece rest (cut (bytes "://") rest))

unfoldable pub parse_proto_addr : (List ℕ → List ℕ) → List ℕ → List ℕ × List ℕ
parse_proto_addr to_lower addr = parsed (to_lower addr) (cut (bytes "://") (to_lower addr))

unfoldable pub new_socket : Option ℕ → Run ℕ
new_socket none = panic
new_socket (some fd) = ok fd

-- What accept4(2) returns: an error, or a descriptor with the peer's address.
pub data Errno : Type 0 where
  eintr eagain econnaborted other : Errno

pub data AcceptError : Type 0 where
  errno : Errno → AcceptError
  err_accept_socket : AcceptError

abbrev accept_error : Errno → AcceptError
accept_error eintr = errno eintr
accept_error eagain = errno eagain
accept_error econnaborted = errno econnaborted
accept_error other = err_accept_socket

unfoldable pub accept : Interfaces → Errno ⊎ (ℕ × Sockaddr) → Run (AcceptError ⊎ (ℕ × NetAddr))
accept net (inl err) = ok (inl (accept_error err))
accept net (inr (fd, sa)) = do addr ← sockaddr_to_tcp_or_unix_addr net sa; ok (inr (fd, addr))

pub record Acceptor : Type 0 where
  pub fd : ℕ
  -- a nil address is `none`
  pub local_addr : Option TcpAddr
  pub listening : Bool

module _ (net : Interfaces) (resolve : List ℕ → List ℕ → Option TcpAddr)
    (to_lower : List ℕ → List ℕ) (binds : Sockaddr → Bool) where
  abbrev bound : Result (Sockaddr × TcpAddr × Bool) → Run (Result Sockaddr)
  bound (fine (sa, a, only)) = if binds sa then ok (fine sa) else panic
  bound (failed e) = ok (failed e)

  unfoldable pub bind : List ℕ → List ℕ → Run (Result Sockaddr)
  bind network addr = bound (get_tcp_sock_addr net resolve network addr)

  -- `SockaddrToTCPAddr`, also of the nil address that comes with an error.
  abbrev local_addr_of : Result Sockaddr → Run (Option TcpAddr)
  local_addr_of (fine sa) = sockaddr_to_tcp_addr net sa
  local_addr_of (failed e) = ok none

  unfoldable pub new_acceptor : Option ℕ → List ℕ → Run Acceptor
  new_acceptor so addr = do
    fd ← new_socket so
    let (network, address) = parse_proto_addr to_lower addr
    r ← bind network address
    local ← local_addr_of r
    ok (record { fd = fd; local_addr = local; listening = false })

  -- GetTCPSockAddr of an address without an IP: for `tcp` an IPv6 address, for `tcp4` an IPv4 one.
  module _ (port : ℕ) (zone : List ℕ) where
    abbrev any_ip : TcpAddr
    any_ip = record { ip = []; port = port; zone = zone }

    sock_addr-tcp :
        (addr : List ℕ)
        → resolve (bytes "tcp") addr ≡ some any_ip
        → get_tcp_sock_addr net resolve (bytes "tcp") addr
          ≡ fine (inet6 (replicate 16 0) port (zone_id (net.by_name zone)), any_ip, false)
    unfolding get_tcp_sock_addr determine_tcp_proto to4 to16 ip_to_sockaddr_inet6 eq_bytes
    sock_addr-tcp addr e = rw e refl

    sock_addr-tcp4 :
        (addr : List ℕ)
        → resolve (bytes "tcp4") addr ≡ some any_ip
        → get_tcp_sock_addr net resolve (bytes "tcp4") addr
          ≡ fine (inet4 (replicate 4 0) port, any_ip, false)
    unfolding get_tcp_sock_addr determine_tcp_proto to4 to16 ip_to_sockaddr_inet4 eq_bytes
    sock_addr-tcp4 addr e = rw e refl

  -- On an address without a protocol and without a host, newAcceptor panics, since bind(2) refuses
  -- an IPv6 address for the IPv4 socket that newSocket makes, whenever the resolver returns no IP
  -- for it.
  pub new_acceptor-panics :
      (port fd : ℕ) (zone addr : List ℕ)
      → ((ip : List ℕ) (p z : ℕ) → binds (inet6 ip p z) ≡ false)
      → cut (bytes "://") (to_lower addr) ≡ none
      → resolve (bytes "tcp") (to_lower addr) ≡ some (record { ip = []; port = port; zone = zone })
      → new_acceptor (some fd) addr ≡ panic
  unfolding new_acceptor parse_proto_addr bind new_socket
  new_acceptor-panics port fd zone addr refuses plain e = rw plain (
      rw (sock_addr-tcp port zone (to_lower addr) e)
        (rw (refuses (replicate 16 0) port (zone_id (net.by_name zone))) refl))

  -- With `tcp4://` before it, the acceptor listens at that port of every IPv4 address.
  new_acceptor-tcp4 :
      (port fd : ℕ) (zone addr rest : List ℕ)
      → ((ip : List ℕ) (p : ℕ) → binds (inet4 ip p) ≡ true)
      → cut (bytes "://") (to_lower addr) ≡ some (bytes "tcp4", rest)
      → cut (bytes "://") rest ≡ none
      → resolve (bytes "tcp4") rest ≡ some (record { ip = []; port = port; zone = zone })
      → new_acceptor (some fd) addr
        ≡ ok (record {
          fd = fd;
          local_addr = some (record { ip = ipv4_zero; port = port; zone = [] });
          listening = false;
        })
  unfolding new_acceptor parse_proto_addr bind new_socket sockaddr_to_tcp_addr
      sockaddr_to_ip_and_zone
  new_acceptor-tcp4 port fd zone addr rest accepts split plain e =
      rw split
        (rw plain (rw (sock_addr-tcp4 port zone rest e) (rw (accepts (replicate 4 0) port) refl)))
