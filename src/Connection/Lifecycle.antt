-- ===== src/Connection/Lifecycle.antt =====
-- tcp_conn.go: a connection is registered when it is established, and nothing of it stays in the
-- poller when it is destroyed.
use muduo_go.Prelude.{ℕ, ◌≡◌, ◌≢◌, refl, ◌⊎◌, true, none, some, Run, ok, ◌||◌, arith}
use muduo_go.Events.{with_read}
use muduo_go.Channel.{channel_new}
use muduo_go.Poller.{enable_reading, disable_all}
use muduo_go.Poller.Registration.{Epoll, IsConsistent, update_events_keeps, next_index-ne}
use muduo_go.Poller.Removal.{remove_channel_keeps}
use muduo_go.Connection.{
  Conn, ConnState, connecting, connected, disconnecting, disconnected, Callbacks,
  connect_established, connect_destroyed, call_if_set, is_connected, is_disconnecting,
}
use muduo_go.Connection.Queueing.{IsRegistered}

alive_test :
    (st : ConnState)
    → (st ≡ connected) ⊎ (st ≡ disconnecting)
    → (is_connected st || is_disconnecting st) ≡ true
alive_test st h = ground arith

module _ {A K : Type 0} (epoll : Epoll K) (ch : ℕ) where
  -- `t` is what `connectEstablished` hands to `onConn`.
  pub record Established (s t : Conn A K) : Type 0 where
    pub state : t.state ≡ connected
    pub consistent : IsConsistent epoll t.poller
    pub reading :
        epoll.interest t.poller.kernel (s.poller.channel ch).fd
        ≡ some (with_read (s.poller.channel ch).events)
    pub in_map : t.poller.channel_map (s.poller.channel ch).fd ≡ some ch
    pub inbound : t.inbound ≡ s.inbound
    pub outbound : t.outbound ≡ s.outbound

  -- What is left when a connection is destroyed.
  pub record Destroyed (s t : Conn A K) : Type 0 where
    pub state : t.state ≡ disconnected
    pub consistent : IsConsistent epoll t.poller
    pub no_interest : epoll.interest t.poller.kernel (s.poller.channel ch).fd ≡ none
    pub not_in_map : t.poller.channel_map (s.poller.channel ch).fd ≡ none
    pub index : (t.poller.channel ch).index ≡ channel_new

-- `connectEstablished` on a connecting connection, whose channel is new and whose descriptor no
-- other channel has, sets the state to connected, has the kernel watch the descriptor for reading,
-- and then calls `onConn`.
pub connect_established_lem :
    {A K : Type 0} (epoll : Epoll K) (ch : ℕ) (callbacks : Callbacks (Conn A K)) (s : Conn A K)
    → IsConsistent epoll s.poller
    → s.state ≡ connecting
    → (s.poller.channel ch).index ≡ channel_new
    → s.poller.channel_map (s.poller.channel ch).fd ≡ none
    → (t : Conn A K) × (connect_established epoll.ctl ch callbacks s
        ≡ call_if_set callbacks.on_conn t)
      × Established epoll ch s t
unfolding connect_established enable_reading
connect_established_lem epoll ch callbacks s v start new free =
    let fd = (s.poller.channel ch).fd in
    let e = with_read (s.poller.channel ch).events in
    let (q, run, w, c) = update_events_keeps epoll s.poller v ch e (λ _. free) in
    (
      record s { state = connected; poller = q },
      rw (start, run),
      record {
        state = refl;
        consistent = c;
        reading = ground (arith, w.interests fd, new);
        in_map = ground (arith, w.map fd);
        inbound = refl;
        outbound = refl;
      },
    )

-- The user's `onConn` leaves the state of the connection and its poller as they are.
abbrev pub IsPassive : {A K : Type 0} → (Conn A K → Run (Conn A K)) → Type 0
IsPassive {A} {K} cb =
    (s : Conn A K) → (t : Conn A K) × (cb s ≡ ok t) × (t.state ≡ s.state) × (t.poller ≡ s.poller)

-- `connectDestroyed` on a connection that is connected or disconnecting and whose channel is in the
-- poller, watched or (after `handleClose`) not, does not panic if `onConn` is set and leaves the
-- connection's state and the poller alone. Its state is then disconnected, and neither the map nor
-- the kernel's interest set has its descriptor.
pub connect_destroyed_lem :
    {A K : Type 0} (epoll : Epoll K) (ch : ℕ) (callbacks : Callbacks (Conn A K)) (s : Conn A K)
    (cb : Conn A K → Run (Conn A K))
    → IsRegistered epoll ch s.poller
    → (s.state ≡ connected) ⊎ (s.state ≡ disconnecting)
    → callbacks.on_conn ≡ some cb
    → IsPassive cb
    → (t : Conn A K) × (connect_destroyed epoll.ctl ch callbacks s ≡ ok t) × Destroyed epoll ch s t
unfolding connect_destroyed disable_all
connect_destroyed_lem epoll ch callbacks s cb v alive set passive =
    let fd = (s.poller.channel ch).fd in
    let (q, run, w, c) =
      update_events_keeps epoll s.poller v.consistent ch 0 (λ h. absurd (v.present h)) in
    let (u, called, same_state, same_poller) =
      passive (record s { state = disconnected; poller = q }) in
    let old : (q.channel ch).index ≢ channel_new =
      λ h. ground (arith, w.channels ch, next_index-ne (s.poller.channel ch).index 0) in
    let (r, removed, g, k) = remove_channel_keeps epoll q ch c old in
    let fd_kept : (q.channel ch).fd ≡ fd = ground (arith, w.channels ch) in
    (
      record u { poller = r },
      rw (alive_test s.state alive, run, set, called, same_poller, removed),
      record {
        state = same_state;
        consistent = k;
        no_interest = ground (arith, g.interests fd, fd_kept);
        not_in_map = ground (arith, g.map fd, fd_kept);
        index = ground (arith, g.channels ch);
      },
    )
