-- ===== src/Group/Engine.antt =====
-- eventloop_engine.go: StartLoop and the goroutine that it starts. What a goroutine does while it
-- holds the mutex is one step, since Wait lets it go only where it begins to wait. A loop is a
-- number, and `l` the one that NewEventloop makes.
use muduo_go.Prelude.{ℕ, Option, none, some}

-- Where StartLoop is: not called yet, before its test of `el`, in Wait, or returned.
pub data Starter : Type 0 where
  idle testing waiting : Starter
  returned : Option ℕ → Starter

-- Where `run` is: not started, making the loop, behind its Unlock and about to call Loop, or in
-- Loop.
pub data Runner : Type 0 where
  unstarted making unlocked looping : Runner

pub record EventloopEngine : Type 0 where
  pub el : Option ℕ
  pub starter : Starter
  pub runner : Runner

unfoldable pub new_eventloop_engine : EventloopEngine
new_eventloop_engine = record { el = none; starter = idle; runner = unstarted }

-- `go eng.run()`
unfoldable pub go_run : EventloopEngine → EventloopEngine
go_run eng = record eng { starter = testing; runner = making }

-- The loop over `el == nil` up to Wait or to the unlocking and the return.
abbrev pub test_el : Option ℕ → Starter
test_el none = waiting
test_el (some l) = returned (some l)

unfoldable pub wait_or_return : EventloopEngine → EventloopEngine
wait_or_return eng = record eng { starter = test_el eng.el }

-- `eng.cond.Broadcast()`
abbrev pub broadcast : Starter → Starter
broadcast idle = idle
broadcast testing = testing
broadcast waiting = testing
broadcast (returned r) = returned r

-- `run` up to its Unlock.
unfoldable pub set_el : ℕ → EventloopEngine → EventloopEngine
set_el l eng = record { el = some l; starter = broadcast eng.starter; runner = unlocked }

-- `el.Loop()`
unfoldable pub enter_loop : EventloopEngine → EventloopEngine
enter_loop eng = record eng { runner = looping }
