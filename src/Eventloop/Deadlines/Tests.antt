-- ===== src/Eventloop/Deadlines/Tests.antt =====
-- eventloop.go and timer.go: a loop with one timer.
use muduo_go.Prelude.{
  ℕ, ◌+◌, ◌<◌, ◌≤◌, ◌≡◌, refl, some, List, [], ◌∷◌, ok, pos, count, arith, if◌then◌else◌, ◌==◌,
}
use muduo_go.Timer.{expire_of, set_index, insert, push, up, up_loop, push_last}
use muduo_go.Timer.Swap.{keys}
use muduo_go.Timer.Rounds.{new_timer_task, timer_value}
use muduo_go.Timer.Adding.{add_task0, add_task}
use muduo_go.Eventloop.Scheduling.{
  TimerQueue, new_timer_queue, add_timer, schedule, Use, do_schedule, do_async_schedule_at_fix_rate,
  do_use, run_use, run_call,
}
use muduo_go.Eventloop.Alarm.{adds}
use muduo_go.Eventloop.Deadlines.{Reach, here, next, calls_succeed, no_lost_alarm}

-- A loop for which a task, the first one made, was scheduled for 10, at the time 3.
abbrev one_timer : TimerQueue
one_timer = record {
  heap = record {
    tasks = 0 ∷ [];
    task =
        set_index 0 (pos 0)
          (λ b. if b == 0 then new_timer_task 10 (pos 0) else new_timer_task 0 (pos 0));
  };
  alarm = some 100_003;
  pending_tasks = [];
  made = 1;
  clock = 3;
}

one_timer-run : run_call (do_use (do_schedule 10)) 3 new_timer_queue ≡ ok one_timer
unfolding run_call run_use schedule add_timer add_task add_task0 insert push up up_loop push_last
    timer_value new_timer_queue new_timer_task
one_timer-run = refl

one_timer-Reach : Reach new_timer_queue one_timer
one_timer-Reach = next here (do_use (do_schedule 10)) 3 one_timer-run

calls_succeed_example :
    (p : TimerQueue) × (run_call (do_use (do_async_schedule_at_fix_rate (pos 4) 7)) 8 one_timer
      ≡ ok p)
    × ((b : ℕ) → count b p.heap.tasks + count b (adds p.pending_tasks) ≤ 1)
calls_succeed_example =
    calls_succeed one_timer-Reach (do_use (do_async_schedule_at_fix_rate (pos 4) 7)) 8

no_lost_alarm_example :
    (d : ℕ) × (one_timer.alarm ≡ some d)
    × (keys one_timer.heap 0 ≤ d)
    × (keys one_timer.heap 0 < d → d ≤ 3 + 100_000)
    × ((b : ℕ)
        → 0 < count b one_timer.heap.tasks
        → keys one_timer.heap 0 ≤ expire_of one_timer.heap b)
no_lost_alarm_example = no_lost_alarm one_timer-Reach (omega arith)

-- Each callback schedules a task that is due already.
abbrev schedules : ℕ → List (Use × ℕ)
schedules a = (do_schedule 5, 21) ∷ []
