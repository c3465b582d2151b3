-- ===== src/Eventloop/Rounds/Tests.antt =====
-- eventloop.go: rounds of a loop whose callbacks and tasks write down their numbers.
use muduo_go.Prelude.{ℕ, ◌≡◌, refl, true, false, List, [], ◌∷◌, ◌++◌, Run, ok, ◌>>=◌, arith}
use muduo_go.Poller.Polling.{Polling, events, interrupted, poll, poll_round}
use muduo_go.Poller.Tests.{Interest, waiting, two_events, two_events-NoneTwice}
use muduo_go.Eventloop.Looping.{Looping, stop, leave, loop, round, run_pending_tasks}
use muduo_go.Eventloop.Rounds.{handle_reported, round-reported, loop-leaves}

abbrev Log : Type 0
Log = Looping ℕ Interest (List ℕ)

abbrev note : ℕ → Log → Run Log
note a s = ok (record s { rest = s.rest ++ a ∷ [] })

-- Every task stops the loop.
abbrev note_stop : ℕ → Log → Run Log
note_stop a s = ok (stop (record s { rest = s.rest ++ a ∷ [] }))

-- A loop that is to wait, with task 5 pending.
abbrev one_task : Log
one_task = record {
  looping = true;
  quit = false;
  polling = waiting;
  pending_tasks = 5 ∷ [];
  evt_count = 0;
  evt_fd = 7;
  timer_fd = 8;
  closed = [];
  rest = [];
}

round-reported_example :
    (p : Polling ℕ Interest) × (poll_round (events two_events) waiting ≡ ok p)
    × (round note note (events two_events) one_task ≡ (
        handle_reported note two_events (record one_task { polling = p })
        >>= run_pending_tasks note note))
round-reported_example =
    round-reported note (λ cb s c. refl) note (0, 1) ((1, 4) ∷ []) one_task two_events-NoneTwice
      (omega arith)

abbrev stopped : Log
stopped = record one_task {
  quit = true;
  polling = record waiting { active = [] };
  pending_tasks = [];
  rest = 5 ∷ [];
}

waits : loop note note_stop [] one_task ≡ ok one_task
unfolding loop
waits = refl

stops : round note note_stop interrupted one_task ≡ ok stopped
unfolding round poll_round poll run_pending_tasks stop
stops = refl

loop-leaves_example :
    (loop note note_stop (interrupted ∷ interrupted ∷ []) one_task ≡ ok (leave stopped))
    × ((leave stopped).looping ≡ false)
    × ((leave stopped).closed ≡ 7 ∷ 8 ∷ [])
loop-leaves_example =
    loop-leaves note note_stop [] (interrupted ∷ []) interrupted one_task one_task stopped waits
      refl stops refl
