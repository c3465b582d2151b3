-- ===== src/Poller/Tests.antt =====
-- poller.go: the theorems at a concrete poller, over an interest set that is a function.
use muduo_go.Prelude.{
  List, [], ◌∷◌, ℕ, ◌≡◌, ◌≢◌, refl, Option, none, some, ok, ◌==◌, if◌then◌else◌, arith,
}
use muduo_go.Channel.{Channel, channel_new, channel_add}
use muduo_go.Poller.{CtlOp, ctl_del, Poller, update_events, remove_channel}
use muduo_go.Poller.Registration.{Epoll, IsConsistent, Settled, update_events_keeps}
use muduo_go.Poller.Removal.{Removed, remove_channel_keeps}
use mathlib.Core.List.{Memᴰ}
use mathlib.Core.List.Memᴰ
use muduo_go.Poller.Polling.{Polling, events, poll_round, channels_of, NoneTwice, poll_round_lem}

abbrev pub Interest : Type 0
Interest = ℕ → Option ℕ

abbrev pub control : CtlOp → ℕ → ℕ → Interest → Interest
control ctl_del fd e k j = if j == fd then none else k j
control _ fd e k j = if j == fd then some e else k j

abbrev pub table : Epoll Interest
table = record {
  ctl = control;
  interest = λ k. k;
  add_lem = λ fd e k h j. refl;
  mod_lem = λ fd e old k h j. refl;
  del_lem = λ fd e old k h j. refl;
}

-- Channel 0 has descriptor 5 and is watched for reading; every other one is new, with descriptor 6.
abbrev watched : Channel ℕ
watched = record {
  fd = 5;
  events = 3;
  revents = 0;
  index = channel_add;
  read_callback = some 1;
  write_callback = none;
  error_callback = none;
  close_callback = none;
}

abbrev pub idle : Channel ℕ
idle = record watched { fd = 6; events = 0; index = channel_new }

abbrev pub sample_at : ℕ → Poller ℕ Interest
sample_at e = record {
  channel = λ c. if c == 0 then record watched { events = e } else idle;
  channel_map = λ fd. if fd == 5 then some 0 else none;
  kernel = λ fd. if fd == 5 then some e else none;
}

abbrev pub sample : Poller ℕ Interest
sample = sample_at 3

pub sample-IsConsistent : (e : ℕ) → IsConsistent table (sample_at e)
sample-IsConsistent e = record {
  mapped = λ fd c h. ground arith;
  registered = λ c h. ground arith;
  watched = λ fd. ground arith;
}

pub watched-ne : channel_add ≢ channel_new
watched-ne h = cc

update_events_keeps_example :
    (q : Poller ℕ Interest) × (update_events control 4 1 sample ≡ ok q)
    × Settled table 1 4 channel_add sample q
    × IsConsistent table q
update_events_keeps_example =
    update_events_keeps table sample (sample-IsConsistent 3) 1 4 (λ h. refl)

remove_channel_keeps_example :
    (q : Poller ℕ Interest) × (remove_channel control 0 sample ≡ ok q)
    × Removed table 0 sample q
    × IsConsistent table q
remove_channel_keeps_example =
    remove_channel_keeps table sample 0 (sample-IsConsistent 3) watched-ne

-- Two events are reported, and the list held an old one.
abbrev pub waiting : Polling ℕ Interest
waiting = record { poller = sample; event_list = 2; active = 9 ∷ [] }

abbrev pub two_events : List (ℕ × ℕ)
two_events = (0, 1) ∷ (1, 4) ∷ []

not_in : ¬ Memᴰ {A = ℕ} 0 (1 ∷ [])
not_in (Memᴰ.head e) = absurd (omega arith)
not_in (Memᴰ.tail m) = Memᴰ.not-nil m

pub two_events-NoneTwice : NoneTwice two_events
two_events-NoneTwice = (not_in, (Memᴰ.not-nil, tt))

poll_round_example :
    (t : Polling ℕ Interest) × (poll_round (events two_events) waiting ≡ ok t)
    × (t.active ≡ channels_of two_events)
    × ((d s : ℕ)
        → Memᴰ (d, s) two_events
        → t.poller.channel d ≡ record (sample.channel d) { revents = s })
    × ((d : ℕ) → ¬ Memᴰ d (channels_of two_events) → t.poller.channel d ≡ sample.channel d)
poll_round_example = poll_round_lem (0, 1) ((1, 4) ∷ []) waiting two_events-NoneTwice (omega arith)
