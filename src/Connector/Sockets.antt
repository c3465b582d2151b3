-- ===== src/Connector/Sockets.antt =====
-- connector.go: every socket that the connector opens is closed once, handed to the callback once,
-- or held by the channel.
use muduo_go.Prelude.{
  count, ℕ, suc, ◌+◌, ◌≡◌, ◌≢◌, refl, true, [], ◌∷◌, ◌++◌, arith, Option, none, some, ok, panic,
}
use muduo_go.Connector.Channels.{enabled_of, removed_of}
use muduo_go.Connector.{
  Connector, ConnectError, connector_connecting, connector_connected, connector_disconnected,
  new_connector, start, stop, restart, request_start, reset_channel, handle_write, handle_error,
  remove_and_reset_channel, after_option, initial_delay, disable_all, remove_channel,
}
use muduo_go.Connector.Accounting.{
  held_by, IsAccounted, start-IsAccounted, stop-IsAccounted, reset-IsAccounted, write-IsAccounted,
  error-IsAccounted,
}

-- What the program and the kernel do next. A new attempt begins only when none is under way and the
-- closures of earlier ones have run; `stop` and the timer's closure may come at any time.
pub data Step (c : Connector) : Connector → Type 0 where
  do_start :
      (fd : ℕ) (err : Option ConnectError)
      → c.state ≢ connector_connecting
      → c.resets ≡ 0
      → Step c (start fd err c)
  do_restart :
      (fd : ℕ) (err : Option ConnectError)
      → c.state ≢ connector_connecting
      → c.resets ≡ 0
      → Step c (restart fd err c)
  do_request_start : Step c (request_start c)
  do_stop : Step c (stop c)
  do_reset : (n : ℕ) → c.resets ≡ suc n → Step c (record (reset_channel c) { resets = n })
  do_write :
      (value : ℕ) (err : Option ℕ) {d : Connector} → handle_write value err c ≡ ok d → Step c d
  do_error : {d : Connector} → handle_error c ≡ ok d → Step c d

pub data Reach (c : Connector) : Connector → Type 0 where
  here : Reach c c
  next : {d e : Connector} → Reach c d → Step d e → Reach c e

restart-IsAccounted :
    (c : Connector)
    → IsAccounted c
    → (fd : ℕ) (err : Option ConnectError) → c.state ≢ connector_connecting
    → c.resets ≡ 0
    → IsAccounted (restart fd err c)
unfolding restart
restart-IsAccounted c v fd err ne z =
    let base = record c {
      connect = true;
      state = connector_disconnected;
      retry_delay = initial_delay;
    } in
    let w : IsAccounted base = record {
      sockets = λ j. ground (arith, v.sockets j);
      channels = λ j. ground (arith, v.channels j);
      linked = tt;
    } in
    start-IsAccounted base w fd err (λ h. cc) z

Step-IsAccounted : {c d : Connector} → Step c d → IsAccounted c → IsAccounted d
unfolding request_start
Step-IsAccounted {c} (do_start fd err ne z) v = start-IsAccounted c v fd err ne z
Step-IsAccounted {c} (do_restart fd err ne z) v = restart-IsAccounted c v fd err ne z
Step-IsAccounted {c} do_request_start v = record {
  sockets = v.sockets;
  channels = v.channels;
  linked = v.linked;
}
Step-IsAccounted {c} do_stop v = stop-IsAccounted c v
Step-IsAccounted {c} (do_reset n z) v = reset-IsAccounted c v n z
Step-IsAccounted {c} (do_write value err {d} h) v = write-IsAccounted c v value err d h
Step-IsAccounted {c} (do_error {d} h) v = error-IsAccounted c v d h

Reach-IsAccounted : {c d : Connector} → Reach c d → IsAccounted c → IsAccounted d
Reach-IsAccounted here v = v
Reach-IsAccounted (next r s) v = Step-IsAccounted s (Reach-IsAccounted r v)

new_connector-IsAccounted : IsAccounted new_connector
unfolding new_connector
new_connector-IsAccounted = record {
  sockets = λ j. omega arith;
  channels = λ j. omega arith;
  linked = tt;
}

-- In every state that a new connector reaches, when each attempt begins with none under way and
-- with no closure left of an earlier one, each socket was opened as often as it was closed, was
-- handed to the callback and is held together: no socket is leaked, and none closed or handed out
-- twice. The channel of each socket was removed from the loop as often as it was registered, but
-- for the one in use. And while an attempt is under way, `handleWrite` and `handleError` do not
-- panic.
pub sockets_accounted :
    {c : Connector}
    → Reach new_connector c
    → ((fd : ℕ)
        → count fd c.opened ≡ count fd c.closed + count fd c.handed + held_by c.state c.ch fd)
      × ((fd : ℕ)
          → count fd (enabled_of c.channel_calls)
            ≡ count fd (removed_of c.channel_calls) + held_by c.state c.ch fd)
      × ((value : ℕ) (err : Option ℕ) → handle_write value err c ≢ panic)
      × (handle_error c ≢ panic)
unfolding handle_write handle_error remove_and_reset_channel
sockets_accounted {c} r =
    let v = Reach-IsAccounted r new_connector-IsAccounted in
    (
      v.sockets,
      v.channels,
      (λ value err h. ground (arith, v.linked, h)),
      (λ h. ground (arith, v.linked, h)),
    )

-- While an attempt is under way on a connector that is asked to connect, `handleWrite` takes the
-- socket for connected and hands it to the callback, whatever error number getsockopt reports for
-- the socket, if only the call of getsockopt succeeds.
pub handle_write-so_error :
    (value fd : ℕ) (c : Connector)
    → c.state ≡ connector_connecting
    → c.ch ≡ some fd
    → c.connect ≡ true
    → (d : Connector) × (handle_write value none c ≡ ok d)
      × (d.handed ≡ c.handed ++ fd ∷ [])
      × (d.state ≡ connector_connected)
unfolding handle_write remove_and_reset_channel after_option
handle_write-so_error value fd c busy held wanted = (
  record c {
    channel_calls = c.channel_calls ++ disable_all fd ∷ remove_channel fd ∷ [];
    resets = c.resets + 1;
    state = connector_connected;
    handed = c.handed ++ fd ∷ [];
  },
  ground arith,
  refl,
  refl,
)
