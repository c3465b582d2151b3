-- ===== src/Sockets/Addresses.antt =====
-- socket.go and tcp_server.go: what the conversions of addresses keep.
use muduo_go.Prelude.{
  ℕ, ◌^◌, ◌<◌, ◌≡◌, inl, inr, refl, sym, ap, ◌∙◌, Bool, true, false, Option, none, some, List, [],
  ◌++◌, ok, ◌==◌, arith, Bool-cases, length, take, drop, replicate, copy, take-append-drop,
  length-append, length-replicate, length-drop, copy_lem, take_of_length-le, drop_of_length-le,
  append-nil,
}
use muduo_go.Text.{eq_bytes, eq_bytes_sound}
use muduo_go.Decimal.Printing.{itod-parse}
use muduo_go.Sockets.{
  Sockaddr, inet4, inet6, TcpAddr, tcp_addr, Interfaces, fine, v4_in_v6_prefix, to4, to16,
  ipv4_zero, is_ipv4_zero, zone_id, zone_name, ip_to_sockaddr_inet4, ip_to_sockaddr_inet6,
  determine_tcp_proto, get_tcp_sock_addr, socket_zone_to_string, server_zone_to_string,
  sockaddr_to_tcp_or_unix_addr, sockaddr_to_ip_and_zone, sockaddr_to_tcp_addr,
}

-- The sizes of the arrays in an address, and the width of a zone.
pub data IsSized : Sockaddr → Type 0 where
  inet4-IsSized : {ip : List ℕ} {port : ℕ} → length ip ≡ 4 → IsSized (inet4 ip port)
  inet6-IsSized :
      {ip : List ℕ} {port zone : ℕ} → length ip ≡ 16 → zone < 2 ^ 32 → IsSized (inet6 ip port zone)

copy-full : (xs ys : List ℕ) → length xs ≡ length ys → copy xs ys ≡ ys
copy-full xs ys e =
    copy_lem xs ys
    ∙ rw
        (
          take_of_length-le (length xs) ys (omega arith),
          drop_of_length-le (length ys) xs (omega arith),
        )
        (append-nil ys)

copy-zeros : (n : ℕ) (ip : List ℕ) → length ip ≡ n → copy (replicate n 0) ip ≡ ip
copy-zeros n ip e = copy-full (replicate n 0) ip (length-replicate {A = ℕ} n 0 ∙ sym e)

to16_of_four : (ip : List ℕ) → length ip ≡ 4 → to16 ip ≡ some (v4_in_v6_prefix ++ ip)
unfolding to16
to16_of_four ip e = rw e refl

to16_of_prefix :
    (ip : List ℕ) → length ip ≡ 4 → to16 (v4_in_v6_prefix ++ ip) ≡ some (v4_in_v6_prefix ++ ip)
unfolding to16
to16_of_prefix ip e = rw (length-append v4_in_v6_prefix ip, e) refl

zone_agrees :
    (name : Option (List ℕ)) (ds : List ℕ)
    → (z : List ℕ) × (zone_name name (ok ds) ≡ ok z) × (zone_name name (ok ds) ≡ ok z)
zone_agrees none ds = (ds, refl, refl)
zone_agrees (some name) ds = (name, refl, refl)

zones_agree :
    (net : Interfaces) (zone : ℕ)
    → zone < 2 ^ 64
    → (z : List ℕ) × (socket_zone_to_string net zone ≡ ok z)
      × (server_zone_to_string net zone ≡ ok z)
unfolding socket_zone_to_string server_zone_to_string
zones_agree net zone h =
    let (ds, q, p, _, _) = itod-parse zone h in
    elim (Bool-cases (zone == 0)) [
      | inl e ↦ rw e ([], refl, refl)
      | inr e ↦ rw (e, p, q) (zone_agrees (net.by_index zone) ds)
    ]

-- For an address whose arrays have their sizes, SockaddrToTCPAddr and SockaddrToTCPOrUnixAddr do
-- not panic, and they give the same IP address in sixteen bytes, the same port and the same zone.
pub tcp_addrs_agree :
    (net : Interfaces) (sa : Sockaddr)
    → IsSized sa
    → (a b : TcpAddr) × (sockaddr_to_tcp_addr net sa ≡ ok (some a))
      × (sockaddr_to_tcp_or_unix_addr net sa ≡ ok (tcp_addr b))
      × (to16 a.ip ≡ to16 b.ip)
      × (a.port ≡ b.port)
      × (a.zone ≡ b.zone)
unfolding sockaddr_to_tcp_addr sockaddr_to_ip_and_zone sockaddr_to_tcp_or_unix_addr
tcp_addrs_agree net _ (inet4-IsSized {ip} {port} e) = (
  record { ip = v4_in_v6_prefix ++ copy (replicate 4 0) ip; port = port; zone = [] },
  record { ip = ip; port = port; zone = [] },
  refl,
  refl,
  rw (copy-zeros 4 ip e) (to16_of_prefix ip e ∙ sym (to16_of_four ip e)),
  refl,
  refl,
)
tcp_addrs_agree net _ (inet6-IsSized {ip} {port} {zone} e h) =
    let (z, p, q) = zones_agree net zone (omega arith) in
    (
      record { ip = copy (replicate 16 0) ip; port = port; zone = z },
      record { ip = ip; port = port; zone = z },
      rw q refl,
      rw p refl,
      ap to16 (copy-zeros 16 ip e),
      refl,
      refl,
    )

zone_id-lt : (o : Option ℕ) → zone_id o < 2 ^ 64
zone_id-lt none = omega arith
zone_id-lt (some i) = omega arith

-- The lengths and prefixes that To4 and To16 tell apart.
data Kind (ip : List ℕ) : Type 0 where
  four : length ip ≡ 4 → to4 ip ≡ some ip → to16 ip ≡ some (v4_in_v6_prefix ++ ip) → Kind ip
  mapped :
      length ip ≡ 16
      → take 12 ip ≡ v4_in_v6_prefix
      → to4 ip ≡ some (drop 12 ip)
      → to16 ip ≡ some ip
      → Kind ip
  sixteen :
      length ip ≡ 16
      → eq_bytes (take 12 ip) v4_in_v6_prefix ≡ false
      → to4 ip ≡ none
      → to16 ip ≡ some ip
      → Kind ip
  other : to16 ip ≡ none → Kind ip

Kind-cases : (ip : List ℕ) → Kind ip
unfolding to4 to16
Kind-cases ip = elim (Bool-cases (length ip == 4)) [
  | inl e ↦ four (ground arith) (rw e refl) (rw e refl)
  | inr e ↦ elim (Bool-cases (length ip == 16)) [
    | inl l ↦ elim (Bool-cases (eq_bytes (take 12 ip) v4_in_v6_prefix)) [
      | inl m ↦
          mapped (ground arith) (eq_bytes_sound (take 12 ip) v4_in_v6_prefix m) (rw (e, l, m) refl)
            (rw (e, l) refl)
      | inr m ↦ sixteen (ground arith) m (rw (e, l, m) refl) (rw (e, l) refl)
    ]
    | inr l ↦ other (rw (e, l) refl)
  ]
]

ipv4_zero-mapped : eq_bytes (take 12 ipv4_zero) v4_in_v6_prefix ≡ true
unfolding eq_bytes
ipv4_zero-mapped = refl

not_zero :
    (ip : List ℕ) → eq_bytes (take 12 ip) v4_in_v6_prefix ≡ false → is_ipv4_zero (some ip) ≡ false
not_zero ip e = elim (Bool-cases (eq_bytes ip ipv4_zero)) [
  | inl h ↦
      let same = eq_bytes_sound ip ipv4_zero h in
      let yes_it : eq_bytes (take 12 ip) v4_in_v6_prefix ≡ true = rw same ipv4_zero-mapped in
      absurd (cc)
  | inr h ↦ h
]

some-equal : (x y : List ℕ) → ◌≡◌ {A = Option (List ℕ)} (some x) (some y) → x ≡ y
some-equal x y e = cc

-- When the resolver gives an address with an IP address of four or of sixteen bytes, GetTCPSockAddr
-- returns a socket address, and SockaddrToTCPAddr of it gives back the IP address, in sixteen
-- bytes, and the port.
pub get_tcp_sock_addr-back :
    (net : Interfaces) (resolve : List ℕ → List ℕ → Option TcpAddr) (proto addr ip : List ℕ)
    (a : TcpAddr)
    → resolve proto addr ≡ some a
    → to16 a.ip ≡ some ip
    → (sa : Sockaddr) × (only : Bool) × (b : TcpAddr) × (get_tcp_sock_addr net resolve proto addr
        ≡ fine (sa, a, only))
      × (sockaddr_to_tcp_addr net sa ≡ ok (some b))
      × (b.ip ≡ ip)
      × (b.port ≡ a.port)
unfolding get_tcp_sock_addr determine_tcp_proto ip_to_sockaddr_inet4 ip_to_sockaddr_inet6
    sockaddr_to_tcp_addr sockaddr_to_ip_and_zone to16
get_tcp_sock_addr-back net resolve proto addr ip a found long = elim (Kind-cases a.ip) [
  | four e short whole ↦ (
    inet4 (copy (replicate 4 0) a.ip) a.port,
    false,
    record {
      ip = v4_in_v6_prefix ++ copy (replicate 4 0) (copy (replicate 4 0) a.ip);
      port = a.port;
      zone = [];
    },
    rw found (rw short (rw (e, short) refl)),
    refl,
    rw (copy-zeros 4 a.ip e, copy-zeros 4 a.ip e)
        (some-equal (v4_in_v6_prefix ++ a.ip) ip (sym whole ∙ long)),
    refl,
  )
  | mapped e p short whole ↦
      let size : length (drop 12 a.ip) ≡ 4 = rw (length-drop 12 a.ip, e) refl in
      (
        inet4 (copy (replicate 4 0) (drop 12 a.ip)) a.port,
        false,
        record {
          ip = v4_in_v6_prefix ++ copy (replicate 4 0) (copy (replicate 4 0) (drop 12 a.ip));
          port = a.port;
          zone = [];
        },
        rw found (rw short (rw (e, short) refl)),
        refl,
        rw (copy-zeros 4 (drop 12 a.ip) size, copy-zeros 4 (drop 12 a.ip) size)
            (ap (λ t. t ++ drop 12 a.ip) (sym p)
              ∙ take-append-drop 12 a.ip
              ∙ some-equal a.ip ip (sym whole ∙ long)),
        refl,
      )
  | sixteen e p short whole ↦
      let (z, _, zone) =
        zones_agree net (zone_id (net.by_name a.zone)) (zone_id-lt (net.by_name a.zone)) in
      (
        inet6 (copy (replicate 16 0) a.ip) a.port (zone_id (net.by_name a.zone)),
        true,
        record { ip = copy (replicate 16 0) (copy (replicate 16 0) a.ip); port = a.port; zone = z },
        rw found (rw (short, whole) (rw (e, not_zero a.ip p) (rw whole refl))),
        rw zone refl,
        rw (copy-zeros 16 a.ip e, copy-zeros 16 a.ip e) (some-equal a.ip ip (sym whole ∙ long)),
        refl,
      )
  | other none_there ↦ absurd (cc)
]
