-- ===== src/Connection/Tests.antt =====
-- tcp_conn.go: the theorems at a concrete connection.
use muduo_go.Prelude.{
  ℕ, ◌≡◌, refl, inl, inr, pos, [], ◌∷◌, none, some, Run, ok, panic, arith, true, false,
}
use muduo_go.Buffer.Layout.{layout}
use muduo_go.Events.{wants_write}
use muduo_go.Poller.Tests.{
  Interest, control, table, sample, sample_at, sample-IsConsistent, watched-ne,
}
use muduo_go.Connection.{
  Conn, ConnState, connecting, connected, disconnecting, Callbacks, write, handle_write,
  shutdown_write, connect_established, connect_destroyed,
}
use muduo_go.Connection.Queueing.{IsRegistered}
use muduo_go.Connection.Stream.{IsSending, write_extends_stream}
use muduo_go.Connection.Flushing.{handle_write_keeps_stream, shutdown_after_flush}
use muduo_go.Connection.Lifecycle.{
  Established, Destroyed, connect_established_lem, connect_destroyed_lem,
}
use muduo_go.Connection.Faults.{blocked, write-would_block}

abbrev quiet : Callbacks (Conn ℕ Interest)
quiet = record {
  on_conn = some ok;
  on_msg = none;
  on_close = none;
  on_write_complete = some ok;
  async_callback = λ cb err. ok;
}

abbrev unset : Callbacks (Conn ℕ Interest)
unset = record quiet { on_conn = none }

-- Connected; the kernel has one byte, and nothing waits.
abbrev calm : Conn ℕ Interest
calm = record {
  state = connected;
  inbound = layout [] [] [];
  outbound = layout (1 ∷ []) [] (0 ∷ []);
  poller = sample;
  pending = [];
  wire = 1 ∷ [];
  shut = false;
}

-- Two bytes wait, and the channel is watched for writing.
abbrev busy : Conn ℕ Interest
busy = record calm { outbound = layout (1 ∷ []) (2 ∷ 3 ∷ []) []; poller = sample_at 7 }

abbrev closing : Conn ℕ Interest
closing = record busy { state = disconnecting }

sample-IsRegistered : (e : ℕ) → IsRegistered table 0 (sample_at e)
sample-IsRegistered e = record { consistent = sample-IsConsistent e; present = watched-ne }

abbrev calm-IsSending : IsSending table 0 (1 ∷ []) calm
calm-IsSending = record {
  before = 1 ∷ [];
  unread = [];
  after = 0 ∷ [];
  outbound = refl;
  stream = refl;
  registered = sample-IsRegistered 3;
  watched = inl refl;
}

module _ (st : ConnState) where
  abbrev loaded : Conn ℕ Interest
  loaded = record busy { state = st }

  abbrev loaded-IsSending : (wants_write 7 ≡ true) → IsSending table 0 (1 ∷ 2 ∷ 3 ∷ []) loaded
  loaded-IsSending on = record {
    before = 1 ∷ [];
    unread = 2 ∷ 3 ∷ [];
    after = [];
    outbound = refl;
    stream = refl;
    registered = sample-IsRegistered 7;
    watched = inr on;
  }

wants_write-7 : wants_write 7 ≡ true
unfolding wants_write
wants_write-7 = refl

wants_write-3 : wants_write 3 ≡ false
unfolding wants_write
wants_write-3 = refl

write_extends_stream_example :
    (sent : ℕ) × (t : Conn ℕ Interest) × (write control 0 quiet
        (record { n = pos 1; err = none })
        (2 ∷ 3 ∷ [])
        calm
      ≡ ok ((pos sent, none), t))
    × IsSending table 0 (1 ∷ 2 ∷ 3 ∷ []) t
    × (t.state ≡ connected)
unfolding wants_write
write_extends_stream_example =
    write_extends_stream table 0 quiet (1 ∷ []) (2 ∷ 3 ∷ []) calm 1 calm-IsSending refl
      (inl (omega arith))

handle_write_keeps_stream_example :
    (t : Conn ℕ Interest) × (handle_write control 0 quiet (record { n = pos 1; err = none }) busy
      ≡ ok t)
    × IsSending table 0 (1 ∷ 2 ∷ 3 ∷ []) t
    × (t.wire ≡ 1 ∷ 2 ∷ [])
    × (t.state ≡ connected)
handle_write_keeps_stream_example =
    handle_write_keeps_stream table 0 quiet (1 ∷ 2 ∷ 3 ∷ []) busy 1
      (loaded-IsSending connected wants_write-7) wants_write-7 (omega arith)

shutdown_after_flush_example :
    (shutdown_write 0 closing ≡ closing)
    × (t : Conn ℕ Interest) × (handle_write control 0 quiet
          (record { n = pos 2; err = none })
          closing
        ≡ ok t)
    × (t.wire ≡ 1 ∷ 2 ∷ 3 ∷ [])
    × (t.shut ≡ true)
shutdown_after_flush_example =
    shutdown_after_flush table 0 quiet (1 ∷ 2 ∷ 3 ∷ []) closing
      (loaded-IsSending disconnecting wants_write-7) wants_write-7 refl

-- A new connection: channel 1 is new, with descriptor 6.
abbrev fresh : Conn ℕ Interest
fresh = record calm { state = connecting }

connect_established_lem_example :
    (t : Conn ℕ Interest) × (connect_established control 1 quiet fresh ≡ ok t)
    × Established table 1 fresh t
connect_established_lem_example =
    connect_established_lem table 1 quiet fresh (sample-IsConsistent 3) refl refl refl

connect_destroyed_lem_example :
    (t : Conn ℕ Interest) × (connect_destroyed control 0 quiet calm ≡ ok t)
    × Destroyed table 0 calm t
connect_destroyed_lem_example =
    connect_destroyed_lem table 0 quiet calm ok (sample-IsRegistered 3) (inl refl) refl
      (λ s. (s, refl, refl, refl))

write-would_block_example : write control 0 quiet blocked (2 ∷ []) calm ≡ panic
write-would_block_example =
    write-would_block control 0 quiet calm (1 ∷ []) (0 ∷ []) (2 ∷ []) refl wants_write-3 refl
      (omega arith)

abbrev never : ℕ → ℕ → Run ℕ
never cb s = panic
