-- ===== src/Server/Live.antt =====
-- tcp_server.go: the connection map, in every order in which connections come and go.
use mathlib.Core.Path.{subst}
use mathlib.Core.List.{Memᴰ}
use muduo_go.Prelude.{
  of_ok, ℕ, ◌+◌, ◌%◌, ◌^◌, ◌<◌, ◌≡◌, ◌≢◌, refl, sym, ap, ◌∙◌, Bool, none, some, List, [], ◌∷◌,
  if◌then◌else◌, Run, ok, panic, ◌>>=◌, arith,
}
use muduo_go.Text.{eq_bytes}
use muduo_go.Group.{EventloopEngineGroup, get_next_loop}
use muduo_go.Server.{
  ServerConn, establish, TcpServer, new_tcp_server, async_execute, set_tcp_no_delay, start, listen,
  conn_name, set_conn, new_conn, remove_conn, remove_conn_in_loop,
}
use muduo_go.Server.Names.{conn_name-injective}
use muduo_go.Server.Conns.{
  Distinct, Distinct-without, find-without, find_conn, find_conn-member, find_conn_sound,
  mem-without, without,
}

-- What a server that was made does, and the connections that were accepted and not yet removed by
-- removeConnInLoop. A connection is removed after it was accepted. Fewer than 2 ^ 63 are accepted.
pub data Reaches (el : ℕ) (name addr : List ℕ) : TcpServer → List ServerConn → Type 0 where
  begins : Reaches el name addr (new_tcp_server el name addr) []
  starts :
      {s : TcpServer} {live : List ServerConn} (loops : List ℕ)
      → Reaches el name addr s live
      → Reaches el name addr (start loops s) live
  listens :
      {s : TcpServer} {live : List ServerConn}
      → Reaches el name addr s live
      → Reaches el name addr (listen s) live
  sets :
      {s : TcpServer} {live : List ServerConn} (b : Bool)
      → Reaches el name addr s live
      → Reaches el name addr (set_tcp_no_delay b s) live
  accepts :
      {s t : TcpServer} {c : ServerConn} {live : List ServerConn} (fd : ℕ)
      → Reaches el name addr s live
      → s.next_conn_id + 1 < 2 ^ 63
      → new_conn fd s ≡ ok (c, t)
      → Reaches el name addr t (c ∷ live)
  asks :
      {s : TcpServer} {c : ServerConn} {live : List ServerConn}
      → Reaches el name addr s live
      → Memᴰ c live
      → Reaches el name addr (remove_conn c s) live
  removes :
      {s : TcpServer} {c : ServerConn} {live : List ServerConn}
      → Reaches el name addr s live
      → Memᴰ c live
      → Reaches el name addr (remove_conn_in_loop c s) (without c.name live)

-- What new_conn returns when it does.
pub record IsNewConn (fd : ℕ) (s : TcpServer) (c : ServerConn) (t : TcpServer) : Type 0 where
  pub group : EventloopEngineGroup
  pub name : c.name ≡ conn_name s.name s.addr s.next_conn_id
  pub run :
      t
      ≡ async_execute c.el (establish c) (
          set_conn c.name
            (some c)
            (record s { next_conn_id = (s.next_conn_id + 1) % 2 ^ 64; group = group }))

abbrev with_loop : ℕ → TcpServer → ℕ × EventloopEngineGroup → Run (ServerConn × TcpServer)
with_loop fd s (el, g) =
    let name = conn_name s.name s.addr s.next_conn_id in
    let c : ServerConn = record { name = name; fd = fd; el = el; no_delay = s.tcp_no_delay } in
    let t = record s { next_conn_id = (s.next_conn_id + 1) % 2 ^ 64; group = g } in
    ok (c, async_execute el (establish c) (set_conn name (some c) t))

IsNewConn-by :
    (fd : ℕ) (s t : TcpServer) (c : ServerConn) (r : Run (ℕ × EventloopEngineGroup))
    → (r >>= with_loop fd s) ≡ ok (c, t)
    → IsNewConn fd s c t
IsNewConn-by fd s t c panic e = absurd (cc)
IsNewConn-by fd s t c (ok (el, g)) e =
    let made : ServerConn = record {
      name = conn_name s.name s.addr s.next_conn_id;
      fd = fd;
      el = el;
      no_delay = s.tcp_no_delay;
    } in
    let after = async_execute el (establish made) (
      set_conn made.name (some made)
        (record s { next_conn_id = (s.next_conn_id + 1) % 2 ^ 64; group = g })) in
    let same : ◌≡◌ {A = ServerConn × TcpServer} (made, after) (c, t) =
      of_ok (made, after) (c, t) e in
    subst (λ x. IsNewConn fd s x.0 x.1) same (record { group = g; name = refl; run = refl })

pub new_conn-IsNewConn :
    (fd : ℕ) (s t : TcpServer) (c : ServerConn) → new_conn fd s ≡ ok (c, t) → IsNewConn fd s c t
unfolding new_conn
new_conn-IsNewConn fd s t c e = IsNewConn-by fd s t c (get_next_loop s.group) e

-- The map holds the live connections, and their names were made from smaller numbers.
record IsLive (s : TcpServer) (live : List ServerConn) : Type 0 where
  map : (q : List ℕ) → s.conn_map q ≡ find_conn q live
  named :
      (c : ServerConn)
      → Memᴰ c live
      → (id : ℕ) × (id < s.next_conn_id) × (c.name ≡ conn_name s.name s.addr id)
  distinct : Distinct live
  small : s.next_conn_id < 2 ^ 63

begins-IsLive : (el : ℕ) (name addr : List ℕ) → IsLive (new_tcp_server el name addr) []
unfolding new_tcp_server
begins-IsLive el name addr = record {
  map = λ q. refl;
  named = λ c m. elim m [ ];
  distinct = tt;
  small = omega arith;
}

named-next :
    (s t : TcpServer) (c d : ServerConn) (live : List ServerConn)
    → IsLive s live
    → t.next_conn_id ≡ s.next_conn_id + 1
    → t.name ≡ s.name
    → t.addr ≡ s.addr
    → c.name ≡ conn_name s.name s.addr s.next_conn_id
    → Memᴰ d (c ∷ live)
    → (id : ℕ) × (id < t.next_conn_id) × (d.name ≡ conn_name t.name t.addr id)
named-next s t c d live v next name addr e (Memᴰ.head same) =
    (s.next_conn_id, omega arith, ap (λ x. x.name) same ∙ e ∙ rw (name, addr) refl)
named-next s t c d live v next name addr e (Memᴰ.tail m) =
    let (id, lt, n) = v.named d m in (id, omega arith, n ∙ rw (name, addr) refl)

new_name :
    (s : TcpServer) (c d : ServerConn) (live : List ServerConn)
    → IsLive s live
    → c.name ≡ conn_name s.name s.addr s.next_conn_id
    → Memᴰ d live
    → d.name ≢ c.name
new_name s c d live v e m same =
    let (id, lt, n) = v.named d m in
    let equal =
      conn_name-injective s.name s.addr id s.next_conn_id (omega (arith, v.small)) v.small
        (sym n ∙ same ∙ e) in
    absurd (omega arith)

accepts-IsLive :
    (fd : ℕ) (s t : TcpServer) (c : ServerConn) (live : List ServerConn)
    → IsLive s live
    → s.next_conn_id + 1 < 2 ^ 63
    → new_conn fd s ≡ ok (c, t)
    → IsLive t (c ∷ live)
unfolding set_conn
accepts-IsLive fd s t c live v h e =
    let q = new_conn-IsNewConn fd s t c e in
    let next : (s.next_conn_id + 1) % 2 ^ 64 ≡ s.next_conn_id + 1 = omega arith in
    let after = async_execute c.el (establish c) (
      set_conn c.name (some c)
        (record s { next_conn_id = (s.next_conn_id + 1) % 2 ^ 64; group = q.group })) in
    subst (λ x. IsLive x (c ∷ live)) (sym q.run)
      (record {
        map = λ k. ap (λ o. if eq_bytes k c.name then some c else o) (v.map k);
        named = λ d m. named-next s after c d live v next refl refl q.name m;
        distinct = (λ d m. new_name s c d live v q.name m, v.distinct);
        small = rw next h;
      })

removes-IsLive :
    (s : TcpServer) (c : ServerConn) (live : List ServerConn)
    → IsLive s live
    → IsLive (remove_conn_in_loop c s) (without c.name live)
unfolding remove_conn_in_loop set_conn
removes-IsLive s c live v = record {
  map = λ q.
      ap (λ o. if eq_bytes q c.name then none else o) (v.map q) ∙ sym (find-without q c.name live);
  named = λ d m. v.named d (mem-without d c.name live m);
  distinct = Distinct-without c.name live v.distinct;
  small = v.small;
}

-- The steps that leave the map alone.
record SameConns (s t : TcpServer) : Type 0 where
  conn_map : t.conn_map ≡ s.conn_map
  next_conn_id : t.next_conn_id ≡ s.next_conn_id
  name : t.name ≡ s.name
  addr : t.addr ≡ s.addr

SameConns-IsLive :
    (s t : TcpServer) (live : List ServerConn) → SameConns s t → IsLive s live → IsLive t live
SameConns-IsLive s t live e v = record {
  map = λ q. ap (λ f. f q) e.conn_map ∙ v.map q;
  named = λ d m. rw (e.next_conn_id, e.name, e.addr) (v.named d m);
  distinct = v.distinct;
  small = rw e.next_conn_id v.small;
}

start-SameConns : (loops : List ℕ) (s : TcpServer) → SameConns s (start loops s)
unfolding start
start-SameConns loops s = record {
  conn_map = ground arith;
  next_conn_id = ground arith;
  name = ground arith;
  addr = ground arith;
}

Reaches-IsLive :
    {el : ℕ} {name addr : List ℕ} {s : TcpServer} {live : List ServerConn}
    → Reaches el name addr s live
    → IsLive s live
unfolding listen set_tcp_no_delay remove_conn
Reaches-IsLive {el} {name} {addr} begins = begins-IsLive el name addr
Reaches-IsLive (starts {s} {live} loops r) =
    SameConns-IsLive s (start loops s) live (start-SameConns loops s) (Reaches-IsLive r)
Reaches-IsLive (listens {s} {live} r) =
    SameConns-IsLive s (listen s) live
      (record { conn_map = refl; next_conn_id = refl; name = refl; addr = refl }) (Reaches-IsLive r)
Reaches-IsLive (sets {s} {live} b r) =
    SameConns-IsLive s (set_tcp_no_delay b s) live
      (record { conn_map = refl; next_conn_id = refl; name = refl; addr = refl }) (Reaches-IsLive r)
Reaches-IsLive (accepts {s} {t} {c} {live} fd r h e) =
    accepts-IsLive fd s t c live (Reaches-IsLive r) h e
Reaches-IsLive (asks {s} {c} {live} r m) =
    SameConns-IsLive s (remove_conn c s) live
      (record { conn_map = refl; next_conn_id = refl; name = refl; addr = refl }) (Reaches-IsLive r)
Reaches-IsLive (removes {s} {c} {live} r m) = removes-IsLive s c live (Reaches-IsLive r)

-- In every state that a new server reaches while it accepts fewer than 2 ^ 63 connections, the
-- connections that were accepted and not yet removed have different names, each of them is in the
-- map under its name, and the map holds no other.
pub conn_map-live :
    (el : ℕ) (name addr : List ℕ) (s : TcpServer) (live : List ServerConn)
    → Reaches el name addr s live
    → Distinct live
      × ((c : ServerConn) → Memᴰ c live → s.conn_map c.name ≡ some c)
      × ((q : List ℕ) (c : ServerConn) → s.conn_map q ≡ some c → Memᴰ c live × (c.name ≡ q))
conn_map-live el name addr s live r =
    let v = Reaches-IsLive r in
    (
      v.distinct,
      (λ c m. v.map c.name ∙ find_conn-member c live v.distinct m),
      λ q c e. find_conn_sound q c live (sym (v.map q) ∙ e),
    )
