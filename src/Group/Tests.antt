-- ===== src/Group/Tests.antt =====
-- eventloop_engine_group.go: the sixth call in a group of two workers.
use muduo_go.Prelude.{◌≡◌, ◌<◌, ◌⊎◌, refl, arith, true, ok, ℕ, Option, some, [], ◌∷◌}
use muduo_go.Group.{EventloopEngineGroup, get_next_loop, new_group, start}
use muduo_go.Group.Turns.{after_calls, get_next_loop-turns}
use muduo_go.Group.Starting
use muduo_go.Group.Starting.{IsFinished, Returned, weight, start_loop-returns}
use muduo_go.Group.Engine.{
  EventloopEngine, unlocked, returned, new_eventloop_engine, go_run, wait_or_return, set_el,
}

abbrev two_workers : EventloopEngineGroup
two_workers = record { boss = 9; works = 4 ∷ 7 ∷ []; started = true; next = 0 }

made_by_start : start (4 ∷ 7 ∷ []) (new_group 9) ≡ two_workers
unfolding start new_group
made_by_start = refl

get_next_loop-turns_example :
    (h f : EventloopEngineGroup) × (after_calls 5 two_workers ≡ ok h)
    × (get_next_loop h ≡ ok (7, f))
get_next_loop-turns_example = get_next_loop-turns two_workers (omega arith) refl 5

-- StartLoop has waited and has returned the loop 4, and the goroutine has not called Loop yet.
abbrev early : EventloopEngine
early = record { el = some 4; starter = returned (some 4); runner = unlocked }

early-Reach : Starting.Reach new_eventloop_engine early
unfolding new_eventloop_engine go_run wait_or_return set_el
early-Reach =
    Starting.Reach.next
      (Starting.Reach.next
        (Starting.Reach.next (Starting.Reach.next Starting.Reach.here (Starting.Step.do_go refl))
          (Starting.Step.do_test refl))
        (Starting.Step.do_set 4 refl))
      (Starting.Step.do_test refl)

start_loop-returns_example :
    (((d : EventloopEngine) × Starting.Step early d) ⊎ IsFinished early)
    × ((d : EventloopEngine) → Starting.Step early d → weight d.starter d.runner < 1)
    × ((w : Option ℕ) → returned (some 4) ≡ returned w → Returned early w)
start_loop-returns_example = start_loop-returns early-Reach
