-- ===== src/Eventloop.antt =====
-- eventloop.go: the pending tasks of a loop, as its goroutine and those that call AsyncExecute
-- interleave. A task is a number. What is done under `taskMutex` is one step; the rest of a
-- function is a step of its own. The eventfd is its counter.
pub mod Interleaving
pub mod Looping
pub mod Rounds
pub mod Scheduling
pub mod Charging
pub mod Alarm
pub mod Callbacks
pub mod Deadlines
mod Tests
use muduo_go.Prelude.{ℕ, ◌+◌, List, [], ◌∷◌, ◌++◌}

-- Where the loop's goroutine is: before epoll_wait returns, where it handles the active channels,
-- and in `runPendingTasks` after the swap.
pub data Phase : Type 0 where
  polling dispatching running : Phase

pub record Eventloop : Type 0 where
  pub phase : Phase
  pub pending_tasks : List ℕ
  -- what is left of `pt`
  pub batch : List ℕ
  pub evt_count : ℕ
  -- the calls of AsyncExecute that have still to call Wakeup
  pub wakers : ℕ
  -- all tasks that were given to AsyncExecute, and those that were run
  pub posted : List ℕ
  pub ran : List ℕ

unfoldable pub new_eventloop : Eventloop
new_eventloop = record {
  phase = polling;
  pending_tasks = [];
  batch = [];
  evt_count = 0;
  wakers = 0;
  posted = [];
  ran = [];
}

-- `AsyncExecute` up to the unlocking.
unfoldable pub push_task : ℕ → Eventloop → Eventloop
push_task a el = record el {
  pending_tasks = el.pending_tasks ++ a ∷ [];
  posted = el.posted ++ a ∷ [];
  wakers = el.wakers + 1;
}

-- `Wakeup`, by `n` callers that are left then, or by AsyncStop.
unfoldable pub wakeup : ℕ → Eventloop → Eventloop
wakeup n el = record el { evt_count = el.evt_count + 1; wakers = n }

unfoldable pub poll_returns : Eventloop → Eventloop
poll_returns el = record el { phase = dispatching }

-- `handleRead` of the eventfd
unfoldable pub handle_read : Eventloop → Eventloop
handle_read el = record el { evt_count = 0 }

-- `runPendingTasks` up to the unlocking.
unfoldable pub take_pending : Eventloop → Eventloop
take_pending el = record el { phase = running; batch = el.pending_tasks; pending_tasks = [] }

-- One round of its loop.
unfoldable pub run_next : ℕ → List ℕ → Eventloop → Eventloop
run_next a rest el = record el { batch = rest; ran = el.ran ++ a ∷ [] }

unfoldable pub next_round : Eventloop → Eventloop
next_round el = record el { phase = polling }
