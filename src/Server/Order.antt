-- ===== src/Server/Order.antt =====
-- tcp_server.go: the order of the closures that the server gives to the loops of its connections.
use mathlib.Core.Path.{subst}
use mathlib.Core.List.{Memᴰ}
use muduo_go.Prelude.{
  ℕ, ◌≡◌, refl, sym, ap, Bool, true, false, none, List, [], ◌∷◌, if◌then◌else◌, arith,
}
use muduo_go.Server.{
  ServerConn, Task, listen_task, establish, remove, destroy, TcpServer, new_tcp_server,
  async_execute, set_tcp_no_delay, start, start_group, listen, set_conn, remove_conn,
  remove_conn_in_loop,
}
use muduo_go.Server.Conns.{without, mem-without}
use muduo_go.Server.Live.{
  Reaches, new_conn-IsNewConn, begins, starts, listens, sets, accepts, asks, removes,
}

-- What may be given after `ts`: a connection is established in its loop, and destroyed there, after
-- it was to be established.
abbrev pub Allowed : ℕ → Task → List (ℕ × Task) → Type 0
Allowed el (establish c) ts = el ≡ c.el
Allowed el (destroy c) ts = (el ≡ c.el) × Memᴰ (el, establish c) ts
Allowed el _ ts = Unit

-- All closures of a list, the latest first, were allowed.
abbrev pub InOrder : List (ℕ × Task) → Type 0
InOrder [] = Unit
InOrder ((el, task) ∷ ts) = Allowed el task ts × InOrder ts

record IsOrdered (s : TcpServer) (live : List ServerConn) : Type 0 where
  established : (c : ServerConn) → Memᴰ c live → Memᴰ (c.el, establish c) s.given
  ordered : InOrder s.given

-- A closure that destroys nothing.
more :
    (s : TcpServer) (live : List ServerConn) (el : ℕ) (task : Task)
    → IsOrdered s live
    → Allowed el task s.given
    → IsOrdered (async_execute el task s) live
more s live el task v a = record {
  established = λ c m. Memᴰ.tail (v.established c m);
  ordered = (a, v.ordered);
}

same :
    (s t : TcpServer) (live : List ServerConn)
    → t.given ≡ s.given
    → IsOrdered s live
    → IsOrdered t live
same s t live e v = record {
  established = λ c m. rw e (v.established c m);
  ordered = rw e v.ordered;
}

fewer :
    (s : TcpServer) (k : List ℕ) (live : List ServerConn)
    → IsOrdered s live
    → IsOrdered s (without k live)
fewer s k live v = record {
  established = λ c m. v.established c (mem-without c k live m);
  ordered = v.ordered;
}

accepted :
    (s : TcpServer) (c d : ServerConn) (live : List ServerConn)
    → IsOrdered s live
    → Memᴰ d (c ∷ live)
    → Memᴰ (d.el, establish d) ((c.el, establish c) ∷ s.given)
accepted s c d live v (Memᴰ.head e) = Memᴰ.head (ap (λ x. (x.el, establish x)) e)
accepted s c d live v (Memᴰ.tail m) = Memᴰ.tail (v.established d m)

IsOrdered-if :
    (b : Bool) (s t : TcpServer) (live : List ServerConn)
    → IsOrdered s live
    → IsOrdered t live
    → IsOrdered (if b then s else t) live
IsOrdered-if true s t live v w = v
IsOrdered-if false s t live v w = w

start-IsOrdered :
    (loops : List ℕ) (s : TcpServer) (live : List ServerConn)
    → IsOrdered s live
    → IsOrdered (start loops s) live
unfolding start
start-IsOrdered loops s live v =
    let t = start_group loops s in
    let w = same s t live (ground arith) v in
    IsOrdered-if t.listening t (async_execute t.el listen_task t) live w
      (more t live t.el listen_task w tt)

Reaches-IsOrdered :
    {el : ℕ} {name addr : List ℕ} {s : TcpServer} {live : List ServerConn}
    → Reaches el name addr s live
    → IsOrdered s live
unfolding new_tcp_server listen set_tcp_no_delay remove_conn remove_conn_in_loop set_conn
Reaches-IsOrdered begins = record { established = λ c m. elim m [ ]; ordered = tt }
Reaches-IsOrdered (starts {s} {live} loops r) = start-IsOrdered loops s live (Reaches-IsOrdered r)
Reaches-IsOrdered (listens {s} {live} r) = same s (listen s) live refl (Reaches-IsOrdered r)
Reaches-IsOrdered (sets {s} {live} b r) =
    same s (set_tcp_no_delay b s) live refl (Reaches-IsOrdered r)
Reaches-IsOrdered (accepts {s} {t} {c} {live} fd r h e) =
    let v = Reaches-IsOrdered r in
    subst (λ x. IsOrdered x (c ∷ live)) (sym (new_conn-IsNewConn fd s t c e).run)
      (record { established = λ d m. accepted s c d live v m; ordered = (refl, v.ordered) })
Reaches-IsOrdered (asks {s} {c} {live} r m) = more s live s.el (remove c) (Reaches-IsOrdered r) tt
Reaches-IsOrdered (removes {s} {c} {live} r m) =
    let v = Reaches-IsOrdered r in
    let u = set_conn c.name none s in
    fewer (remove_conn_in_loop c s) c.name live
      (more u live c.el (destroy c) (same s u live refl v) (refl, v.established c m))

-- In every state that a new server reaches while it accepts fewer than 2 ^ 63 connections, each
-- closure that establishes or destroys a connection was given to the connection's own loop, and the
-- one that destroys it only after one that establishes it was given there.
pub establish_before_destroy :
    (el : ℕ) (name addr : List ℕ) (s : TcpServer) (live : List ServerConn)
    → Reaches el name addr s live
    → InOrder s.given
establish_before_destroy el name addr s live r = (Reaches-IsOrdered r).ordered
