-- ===== src/Eventloop/Looping.antt =====
-- eventloop.go: Loop on the loop's own goroutine, with the functions that stop it. A callback of a
-- channel and a pending task are any functions on the whole state, so they may also change
-- channels, give tasks to AsyncExecute and stop the loop. `rest` is the state of all else. What
-- epoll_wait(2) returns in the rounds is a list; where it ends, the loop waits for events.
use muduo_go.Prelude.{ℕ, ◌+◌, Bool, true, false, List, [], ◌∷◌, ◌++◌, if◌then◌else◌, Run, ok, ◌>>=◌}
use muduo_go.Channel.{Channel, handle_event}
use muduo_go.Poller.Polling.{Polling, WaitResult, poll_round}

pub record Looping (A K U : Type 0) : Type 0 where
  pub looping : Bool
  pub quit : Bool
  -- the poller and `activeChannels`
  pub polling : Polling A K
  pub pending_tasks : List ℕ
  pub evt_fd : ℕ
  pub timer_fd : ℕ
  -- the counter of the eventfd, and the descriptors that were given to close(2), in order
  pub evt_count : ℕ
  pub closed : List ℕ
  pub rest : U

unfoldable pub stop : {A K U : Type 0} → Looping A K U → Looping A K U
stop s = record s { quit = true }

unfoldable pub async_stop : {A K U : Type 0} → Looping A K U → Looping A K U
async_stop s = record s { quit = true; evt_count = s.evt_count + 1 }

-- `unix.Close`
abbrev pub close : {A K U : Type 0} → ℕ → Looping A K U → Looping A K U
close fd s = record s { closed = s.closed ++ fd ∷ [] }

-- `shutdown` of the timer queue
unfoldable pub shutdown : {A K U : Type 0} → Looping A K U → Looping A K U
shutdown s = close s.timer_fd s

unfoldable pub destroy : {A K U : Type 0} → Looping A K U → Looping A K U
destroy s = shutdown (close s.evt_fd s)

abbrev pub channel_of : {A K U : Type 0} → Looping A K U → ℕ → Channel A
channel_of s c = s.polling.poller.channel c

-- The end of Loop.
unfoldable pub leave : {A K U : Type 0} → Looping A K U → Looping A K U
leave s = destroy (record s { looping = false })

module _ {A K U : Type 0} (run : A → Looping A K U → Run (Looping A K U))
    (run_task : ℕ → Looping A K U → Run (Looping A K U)) where
  -- The loop over the active channels.
  abbrev pub dispatch : List ℕ → Looping A K U → Run (Looping A K U)
  dispatch [] s = ok s
  dispatch (c ∷ cs) s = handle_event run (channel_of s c) s >>= λ t. dispatch cs t

  abbrev pub run_all : List ℕ → Looping A K U → Run (Looping A K U)
  run_all [] s = ok s
  run_all (a ∷ pt) s = run_task a s >>= λ t. run_all pt t

  -- `runningPendingTasks`, which nothing reads, is left out.
  unfoldable pub run_pending_tasks : Looping A K U → Run (Looping A K U)
  run_pending_tasks s = run_all s.pending_tasks (record s { pending_tasks = [] })

  -- The body of the loop of Loop.
  unfoldable pub round : WaitResult → Looping A K U → Run (Looping A K U)
  round r s = do
    p ← poll_round r s.polling
    t ← dispatch p.active (record s { polling = p })
    run_pending_tasks t

  abbrev pub rounds : List WaitResult → Looping A K U → Run (Looping A K U)
  rounds [] s = ok (if s.quit then leave s else s)
  rounds (r ∷ rs) s =
      let more = round r s >>= λ t. rounds rs t in if s.quit then ok (leave s) else more

  unfoldable pub loop : List WaitResult → Looping A K U → Run (Looping A K U)
  loop rs s = rounds rs (record s { looping = true; quit = false })
