-- ===== src/Eventloop/Tests.antt =====
-- eventloop.go: a run with two tasks, of which the second comes while the first round handles
-- events.
use muduo_go.Prelude.{◌+◌, ◌<◌, ◌≡◌, refl, [], ◌∷◌, ◌++◌, length}
use muduo_go.Eventloop.{
  Eventloop, new_eventloop, push_task, wakeup, poll_returns, handle_read, take_pending, run_next,
  next_round,
}
use muduo_go.Eventloop.Interleaving.{
  Reach, here, next, do_push, do_wakeup, do_poll, do_read, do_take, do_run, do_round,
  tasks_in_order, no_lost_wakeup,
}

abbrev swapped_once : Eventloop
swapped_once =
    take_pending (push_task 5 (handle_read (poll_returns (wakeup 0 (push_task 4 new_eventloop)))))

abbrev back_in_poll : Eventloop
back_in_poll = next_round (push_task 6 (run_next 5 [] (run_next 4 (5 ∷ []) swapped_once)))

to_swap : Reach new_eventloop swapped_once
unfolding new_eventloop push_task wakeup poll_returns handle_read take_pending
to_swap =
    next
      (next
        (next (next (next (next here (do_push 4)) (do_wakeup 0 refl)) (do_poll refl))
          (do_read refl))
        (do_push 5))
      (do_take refl)

to_poll : Reach new_eventloop back_in_poll
unfolding new_eventloop push_task wakeup poll_returns handle_read take_pending run_next next_round
to_poll =
    next
      (next (next (next to_swap (do_run 4 (5 ∷ []) refl refl)) (do_run 5 [] refl refl)) (do_push 6))
      (do_round refl refl)

tasks_in_order_example :
    back_in_poll.posted ≡ back_in_poll.ran ++ (back_in_poll.batch ++ back_in_poll.pending_tasks)
tasks_in_order_example = tasks_in_order to_poll

no_lost_wakeup_example :
    (back_in_poll.batch ≡ [])
    × (0 < length back_in_poll.pending_tasks → 0 < back_in_poll.evt_count + back_in_poll.wakers)
unfolding new_eventloop push_task wakeup poll_returns handle_read take_pending run_next next_round
no_lost_wakeup_example = no_lost_wakeup to_poll refl
