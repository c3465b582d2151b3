-- ===== src/Eventloop/Scheduling.antt =====
-- eventloop.go and timer.go: the timers of a loop, with the closures that AsyncSchedule, Cancel and
-- so on hand to AsyncExecute, which run in their order, and the callbacks of the timers, which may
-- use all these functions. The n-th task that newTimerTask makes is the number n. What time.Now
-- returns is an argument: `t` to the function itself, `now` to resetTimerFd.
use muduo_go.Prelude.{
  ℕ, ◌+◌, Option, none, some, List, [], ◌∷◌, ◌++◌, Run, ok, ◌>>=◌, ℤ, pos, if◌then◌else◌, ltb,
}
use muduo_go.Timer.{TimerTask, Heap, cancel, get_and_remove_expired}
use muduo_go.Timer.Rounds.{new_timer_task, add_duration, set_task, reset}
use muduo_go.Timer.Adding.{add_task0, add_task}

-- The closures of AsyncSchedule, AsyncScheduleDelay and AsyncScheduleAtFixRate, and of `cancel`.
pub data Closure : Type 0 where
  add_later cancel_later : ℕ → Closure

pub record TimerQueue : Type 0 where
  pub heap : Heap
  -- the time for which the descriptor was last set
  pub alarm : Option ℕ
  pub pending_tasks : List Closure
  -- how many tasks newTimerTask has made, and the latest time that resetTimerFd has read
  pub made : ℕ
  pub clock : ℕ

-- `newTimerQueue`; the fields of a task that is not made yet are of no account.
unfoldable pub new_timer_queue : TimerQueue
new_timer_queue = record {
  heap = record { tasks = []; task = λ b. new_timer_task 0 (pos 0) };
  alarm = none;
  pending_tasks = [];
  made = 0;
  clock = 0;
}

abbrev pub set_alarm : ℕ → Option ℕ → Option ℕ → Option ℕ
set_alarm now none old = old
set_alarm now (some d) old = some (now + d)

abbrev pub latest : ℕ → ℕ → ℕ
latest s t = if ltb s t then t else s

-- The heap and the descriptor after resetTimerFd, if it was called.
abbrev pub reset_timer_fd : ℕ → Option ℕ → Heap → TimerQueue → TimerQueue
reset_timer_fd now alarm h q = record q {
  heap = h;
  alarm = set_alarm now alarm q.alarm;
  clock = latest q.clock now;
}

abbrev pub make : TimerTask → TimerQueue → TimerQueue
make x q = record q { heap = set_task q.made x q.heap; made = q.made + 1 }

unfoldable pub add_timer : ℕ → ℤ → ℕ → TimerQueue → Run TimerQueue
add_timer t interval now q = do
  (alarm, h) ← add_task q.made t interval now q.heap
  ok (reset_timer_fd now alarm h (record q { made = q.made + 1 }))

unfoldable pub schedule : ℕ → ℕ → TimerQueue → Run TimerQueue
schedule t now q = add_timer t (pos 0) now q

unfoldable pub schedule_delay : ℤ → ℕ → ℕ → TimerQueue → Run TimerQueue
schedule_delay d t now q = add_timer (add_duration t d) (pos 0) now q

unfoldable pub schedule_at_fix_rate : ℤ → ℕ → ℕ → TimerQueue → Run TimerQueue
schedule_at_fix_rate interval t now q = add_timer (add_duration t interval) interval now q

abbrev pub async_execute : Closure → TimerQueue → TimerQueue
async_execute c q = record q { pending_tasks = q.pending_tasks ++ c ∷ [] }

unfoldable pub async_schedule : ℕ → TimerQueue → TimerQueue
async_schedule t q = async_execute (add_later q.made) (make (new_timer_task t (pos 0)) q)

unfoldable pub async_schedule_delay : ℤ → ℕ → TimerQueue → TimerQueue
async_schedule_delay d t q =
    async_execute (add_later q.made) (make (new_timer_task (add_duration t d) (pos 0)) q)

unfoldable pub async_schedule_at_fix_rate : ℤ → ℕ → TimerQueue → TimerQueue
async_schedule_at_fix_rate interval t q =
    async_execute (add_later q.made) (make (new_timer_task (add_duration t interval) interval) q)

-- `TimerTask.Cancel`
unfoldable pub cancel_task : ℕ → TimerQueue → TimerQueue
cancel_task a q = async_execute (cancel_later a) q

unfoldable pub run_closure : Closure → ℕ → TimerQueue → Run TimerQueue
run_closure (add_later a) now q = do
  (alarm, h) ← add_task0 a now q.heap
  ok (reset_timer_fd now alarm h q)
run_closure (cancel_later a) now q = do h ← cancel a q.heap; ok (reset_timer_fd now none h q)

-- The loop runs the first pending closure, if any.
abbrev pub run_front : List Closure → ℕ → TimerQueue → Run TimerQueue
run_front [] now q = ok q
run_front (c ∷ rest) now q = run_closure c now (record q { pending_tasks = rest })

unfoldable pub run_first : ℕ → TimerQueue → Run TimerQueue
run_first now q = run_front q.pending_tasks now q

-- A call of one of the functions, with the `t` that it reads or is given.
pub data Use : Type 0 where
  do_schedule do_async_schedule : ℕ → Use
  do_schedule_delay do_schedule_at_fix_rate : ℤ → ℕ → Use
  do_async_schedule_delay do_async_schedule_at_fix_rate : ℤ → ℕ → Use
  do_cancel : ℕ → Use

unfoldable pub run_use : Use → ℕ → TimerQueue → Run TimerQueue
run_use (do_schedule t) now q = schedule t now q
run_use (do_schedule_delay d t) now q = schedule_delay d t now q
run_use (do_schedule_at_fix_rate d t) now q = schedule_at_fix_rate d t now q
run_use (do_async_schedule t) now q = ok (async_schedule t q)
run_use (do_async_schedule_delay d t) now q = ok (async_schedule_delay d t q)
run_use (do_async_schedule_at_fix_rate d t) now q = ok (async_schedule_at_fix_rate d t q)
run_use (do_cancel a) now q = ok (cancel_task a q)

-- The calls that a callback makes, in order, each with its `now`.
abbrev pub run_uses : List (Use × ℕ) → TimerQueue → Run TimerQueue
run_uses [] q = ok q
run_uses ((u, now) ∷ us) q = run_use u now q >>= λ p. run_uses us p

-- The loop of `handleRead` over the expired tasks. `calls` are what the callbacks of the tasks do.
abbrev pub run_tasks : (ℕ → List (Use × ℕ)) → List ℕ → TimerQueue → Run TimerQueue
run_tasks calls [] q = ok q
run_tasks calls (a ∷ expired) q =
    let run = run_uses (calls a) q >>= λ p. run_tasks calls expired p in
    let skip = run_tasks calls expired q in if (q.heap.task a).canceled then skip else run

-- `handleRead` of the queue, which reads the time `now`; resetTimerFd reads `later`.
unfoldable pub read_timer : (ℕ → List (Use × ℕ)) → ℕ → ℕ → TimerQueue → Run TimerQueue
read_timer calls now later q = do
  (expired, g) ← get_and_remove_expired now q.heap
  p ← run_tasks calls expired (record q { heap = g })
  (alarm, h) ← reset expired now later p.heap
  ok (reset_timer_fd later alarm h p)

-- What happens to the timers of a loop: a call, by a closure or the callback of a channel or, where
-- it is asynchronous, by anyone; or a step of the loop, whose last argument is `later`.
pub data Call : Type 0 where
  do_use : Use → Call
  do_run_first : Call
  do_read_timer : (ℕ → List (Use × ℕ)) → ℕ → Call

unfoldable pub run_call : Call → ℕ → TimerQueue → Run TimerQueue
run_call (do_use u) now q = run_use u now q
run_call do_run_first now q = run_first now q
run_call (do_read_timer calls later) now q = read_timer calls now later q
