-- ===== src/Connector/Accounting.antt =====
-- connector.go: where the sockets and the channels of the connector are, and what keeps the balance.
use muduo_go.Prelude.{
  count, ℕ, suc, ◌+◌, ◌≡◌, ◌≢◌, true, false, Bool, List, [], ◌∷◌, ◌++◌, arith, Option, none, some,
  if◌then◌else◌, ◌==◌, ok,
}
use muduo_go.Connector.Channels.{
  enabled_of, removed_of, count-enabled, count-enabled_others, count-removed, count-removed_others,
}
use muduo_go.Connector.{
  Connector, ConnectState, ConnectError, connector_connecting, start, connect0, connect_failed,
  connecting, retry, stop, reset_channel, handle_write, handle_error, remove_and_reset_channel,
  after_option,
}

count-snoc :
    (fd x : ℕ) (xs : List ℕ) → count fd (xs ++ x ∷ []) ≡ count fd xs + (if x == fd then 1 else 0)
count-snoc fd x [] = ground arith
count-snoc fd x (y ∷ xs) = ground (arith, count-snoc fd x xs)

abbrev pub held_by : ConnectState → Option ℕ → ℕ → ℕ
held_by connector_connecting (some x) fd = if x == fd then 1 else 0
held_by _ _ fd = 0

abbrev fd_of : Option ℕ → ℕ
fd_of none = 0
fd_of (some x) = x

abbrev is_set : Option ℕ → Bool
is_set none = false
is_set (some _) = true

-- While an attempt is under way there is a channel, and no closure is left that clears it.
abbrev IsLinked : ConnectState → Option ℕ → ℕ → Type 0
IsLinked connector_connecting ch resets = (is_set ch ≡ true) × (resets ≡ 0)
IsLinked _ ch resets = Unit

abbrev SocketsBalance : Connector → Type 0
SocketsBalance c =
    (fd : ℕ) → count fd c.opened ≡ count fd c.closed + count fd c.handed + held_by c.state c.ch fd

-- The channel of each socket was removed as often as it was registered, but for the one in use.
abbrev ChannelsBalance : Connector → Type 0
ChannelsBalance c =
    (fd : ℕ)
    → count fd (enabled_of c.channel_calls)
      ≡ count fd (removed_of c.channel_calls) + held_by c.state c.ch fd

pub record IsAccounted (c : Connector) : Type 0 where
  pub sockets : SocketsBalance c
  pub channels : ChannelsBalance c
  pub linked : IsLinked c.state c.ch c.resets

module _ (c : Connector) (v : IsAccounted c) where
  start-sockets :
      (fd : ℕ) (err : Option ConnectError)
      → c.state ≢ connector_connecting
      → SocketsBalance (start fd err c)
  unfolding start connect0 connect_failed connecting retry
  start-sockets fd err ne j =
      ground (arith, v.sockets j, count-snoc j fd c.opened, count-snoc j fd c.closed)

  start-channels :
      (fd : ℕ) (err : Option ConnectError)
      → c.state ≢ connector_connecting
      → ChannelsBalance (start fd err c)
  unfolding start connect0 connect_failed connecting retry
  start-channels fd err ne j = ground (
    arith,
    v.channels j,
    count-enabled j fd c.channel_calls,
    count-enabled_others j fd c.channel_calls,
  )

  start-IsLinked :
      (fd : ℕ) (err : Option ConnectError)
      → c.state ≢ connector_connecting
      → c.resets ≡ 0
      → IsLinked (start fd err c).state (start fd err c).ch (start fd err c).resets
  unfolding start connect0 connect_failed connecting retry
  start-IsLinked fd err ne z = ground arith

  pub start-IsAccounted :
      (fd : ℕ) (err : Option ConnectError)
      → c.state ≢ connector_connecting
      → c.resets ≡ 0
      → IsAccounted (start fd err c)
  start-IsAccounted fd err ne z = record {
    sockets = start-sockets fd err ne;
    channels = start-channels fd err ne;
    linked = start-IsLinked fd err ne z;
  }

  pub stop-IsAccounted : IsAccounted (stop c)
  unfolding stop
  stop-IsAccounted = record {
    sockets = λ j. ground (arith, v.sockets j);
    channels = λ j. ground (arith, v.channels j);
    linked = ground (arith, v.linked);
  }

  pub reset-IsAccounted :
      (n : ℕ) → c.resets ≡ suc n → IsAccounted (record (reset_channel c) { resets = n })
  unfolding reset_channel
  reset-IsAccounted n h = record {
    sockets = λ j. ground (arith, v.sockets j, v.linked);
    channels = λ j. ground (arith, v.channels j, v.linked);
    linked = ground (arith, v.linked);
  }

  pub write-IsAccounted :
      (value : ℕ) (err : Option ℕ) (d : Connector) → handle_write value err c ≡ ok d → IsAccounted d
  unfolding handle_write remove_and_reset_channel after_option retry
  write-IsAccounted value err d h = record {
    sockets = λ j. ground (
      arith,
      v.sockets j,
      v.linked,
      h,
      count-snoc j (fd_of c.ch) c.closed,
      count-snoc j (fd_of c.ch) c.handed,
    );
    channels = λ j. ground (
      arith,
      v.channels j,
      v.linked,
      h,
      count-removed j (fd_of c.ch) c.channel_calls,
      count-removed_others j (fd_of c.ch) c.channel_calls,
    );
    linked = ground (arith, v.linked, h);
  }

  pub error-IsAccounted : (d : Connector) → handle_error c ≡ ok d → IsAccounted d
  unfolding handle_error remove_and_reset_channel retry
  error-IsAccounted d h = record {
    sockets = λ j. ground (arith, v.sockets j, v.linked, h, count-snoc j (fd_of c.ch) c.closed);
    channels = λ j. ground (
      arith,
      v.channels j,
      v.linked,
      h,
      count-removed j (fd_of c.ch) c.channel_calls,
      count-removed_others j (fd_of c.ch) c.channel_calls,
    );
    linked = ground (arith, v.linked, h);
  }
