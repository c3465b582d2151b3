-- ===== src/Channel.antt =====
-- channel.go: a channel, with the callbacks that are set on it, and `handleEvent`.
-- A callback is a value of `A`, and running one takes the program from a state to the next or
-- panics. No callback writes `revents` or the callbacks of a channel, so they are read once. The
-- `index` holds the three constants of poller.go.
use muduo_go.Prelude.{
  ℕ, ◌||◌, ◌&&◌, not, Bool, Option, none, some, if◌then◌else◌, Run, ok, ◌>>=◌, ◌==◌,
}
use muduo_go.Events.{
  poll_in, poll_pri, poll_out, poll_err, poll_hup, poll_nval, poll_rdhup, has_bit,
}

pub data ChannelIndex : Type 0 where
  channel_new channel_add channel_del : ChannelIndex

pub record Channel (A : Type 0) : Type 0 where
  pub fd : ℕ
  pub events : ℕ
  pub revents : ℕ
  pub index : ChannelIndex
  pub read_callback : Option A
  pub write_callback : Option A
  pub error_callback : Option A
  pub close_callback : Option A

-- `NewChannel`
unfoldable pub new_channel : {A : Type 0} → ℕ → Channel A
new_channel fd = record {
  fd = fd;
  events = 0;
  revents = 0;
  index = channel_new;
  read_callback = none;
  write_callback = none;
  error_callback = none;
  close_callback = none;
}

-- `IsNoneEvent`
abbrev pub is_none_event : {A : Type 0} → Channel A → Bool
is_none_event c = c.events == 0

module _ {A S : Type 0} (run : A → S → Run S) where
  -- `if cb != nil { cb() }`
  abbrev call : Option A → S → Run S
  call none s = ok s
  call (some cb) s = run cb s

  abbrev pub call_if : Bool → Option A → S → Run S
  call_if b cb s = if b then call cb s else ok s

  -- `evtHandling`, which nothing reads, is left out.
  unfoldable pub handle_event : Channel A → S → Run S
  handle_event c s = do
    let r = c.revents
    s1 ← call_if (has_bit poll_hup r && not (has_bit poll_in r)) c.close_callback s
    s2 ← call_if (has_bit poll_err r || has_bit poll_nval r) c.error_callback s1
    s3 ←
        call_if (has_bit poll_in r || has_bit poll_pri r || has_bit poll_rdhup r) c.read_callback s2
    call_if (has_bit poll_out r) c.write_callback s3
