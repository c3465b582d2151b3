-- ===== src/Group/Starting.antt =====
-- eventloop_engine.go: StartLoop returns the loop of the goroutine that it started.
use muduo_go.Prelude.{ℕ, ◌+◌, ◌<◌, ◌≡◌, refl, Option, none, some, ◌⊎◌, inl, inr, arith}
use muduo_go.Group.Engine.{
  Starter, idle, testing, waiting, returned, Runner, unstarted, making, unlocked, looping,
  EventloopEngine, new_eventloop_engine, go_run, test_el, wait_or_return, broadcast, set_el,
  enter_loop,
}

pub data Step (eng : EventloopEngine) : EventloopEngine → Type 0 where
  do_go : eng.starter ≡ idle → Step eng (go_run eng)
  do_test : eng.starter ≡ testing → Step eng (wait_or_return eng)
  do_set : (l : ℕ) → eng.runner ≡ making → Step eng (set_el l eng)
  do_enter : eng.runner ≡ unlocked → Step eng (enter_loop eng)

pub data Reach (eng : EventloopEngine) : EventloopEngine → Type 0 where
  here : Reach eng eng
  next : {d e : EventloopEngine} → Reach eng d → Step d e → Reach eng e

-- How the two goroutines and `el` go together.
abbrev Agrees : Option ℕ → Starter → Runner → Type 0
Agrees el idle unstarted = el ≡ none
Agrees el testing making = el ≡ none
Agrees el waiting making = el ≡ none
Agrees el testing unlocked = (l : ℕ) × (el ≡ some l)
Agrees el testing looping = (l : ℕ) × (el ≡ some l)
Agrees el (returned r) unlocked = (l : ℕ) × (el ≡ some l) × (r ≡ some l)
Agrees el (returned r) looping = (l : ℕ) × (el ≡ some l) × (r ≡ some l)
Agrees _ _ _ = ⊥

abbrev IsAgreed : EventloopEngine → Type 0
IsAgreed eng = Agrees eng.el eng.starter eng.runner

-- How many steps of StartLoop and of `run` up to its Unlock are left at most.
abbrev waits_for : Starter → Runner → ℕ
waits_for idle _ = 4
waits_for testing unstarted = 3
waits_for testing making = 3
waits_for testing _ = 1
waits_for waiting _ = 2
waits_for (returned _) _ = 0

abbrev enters : Runner → ℕ
enters looping = 0
enters _ = 1

-- How many steps are left at most.
abbrev pub weight : Starter → Runner → ℕ
weight s r = waits_for s r + enters r

-- A step keeps the agreement and lowers the weight.
abbrev Steps : Option ℕ → Starter → Runner → ℕ → Type 0
Steps el s r n = Agrees el s r × (weight s r < n)

go-Steps :
    (el : Option ℕ) (s : Starter) (r : Runner)
    → s ≡ idle
    → Agrees el s r
    → Steps el testing making (weight s r)
go-Steps el idle unstarted e v = (v, omega arith)
go-Steps el idle making e v = absurd v
go-Steps el idle unlocked e v = absurd v
go-Steps el idle looping e v = absurd v
go-Steps el testing r e v = absurd (ground arith)
go-Steps el waiting r e v = absurd (ground arith)
go-Steps el (returned w) r e v = absurd (ground arith)

set-Steps :
    (l : ℕ) (el : Option ℕ) (s : Starter) (r : Runner)
    → r ≡ making
    → Agrees el s r
    → Steps (some l) (broadcast s) unlocked (weight s r)
set-Steps l el idle making e v = absurd v
set-Steps l el testing making e v = ((l, refl), omega arith)
set-Steps l el waiting making e v = ((l, refl), omega arith)
set-Steps l el (returned w) making e v = absurd v
set-Steps l el s unstarted e v = absurd (ground arith)
set-Steps l el s unlocked e v = absurd (ground arith)
set-Steps l el s looping e v = absurd (ground arith)

test-Steps :
    (el : Option ℕ) (s : Starter) (r : Runner)
    → s ≡ testing
    → Agrees el s r
    → Steps el (test_el el) r (weight s r)
test-Steps el idle r e v = absurd (ground arith)
test-Steps el testing unstarted e v = absurd v
test-Steps none testing making e v = (refl, omega arith)
test-Steps (some l) testing making e v = absurd (ground arith)
test-Steps none testing unlocked e (l, h) = absurd (ground arith)
test-Steps (some l) testing unlocked e v = ((l, refl, refl), omega arith)
test-Steps none testing looping e (l, h) = absurd (ground arith)
test-Steps (some l) testing looping e v = ((l, refl, refl), omega arith)
test-Steps el waiting r e v = absurd (ground arith)
test-Steps el (returned w) r e v = absurd (ground arith)

enter-Steps :
    (el : Option ℕ) (s : Starter) (r : Runner)
    → r ≡ unlocked
    → Agrees el s r
    → Steps el s looping (weight s r)
enter-Steps el idle unlocked e v = absurd v
enter-Steps el testing unlocked e v = (v, omega arith)
enter-Steps el waiting unlocked e v = absurd v
enter-Steps el (returned w) unlocked e v = (v, omega arith)
enter-Steps el s unstarted e v = absurd (ground arith)
enter-Steps el s making e v = absurd (ground arith)
enter-Steps el s looping e v = absurd (ground arith)

Step-Steps :
    {eng d : EventloopEngine}
    → Step eng d
    → IsAgreed eng
    → Steps d.el d.starter d.runner (weight eng.starter eng.runner)
unfolding go_run wait_or_return set_el enter_loop
Step-Steps {eng} (do_go e) v = go-Steps eng.el eng.starter eng.runner e v
Step-Steps {eng} (do_test e) v = test-Steps eng.el eng.starter eng.runner e v
Step-Steps {eng} (do_set l e) v = set-Steps l eng.el eng.starter eng.runner e v
Step-Steps {eng} (do_enter e) v = enter-Steps eng.el eng.starter eng.runner e v

Reach-IsAgreed : {eng d : EventloopEngine} → Reach eng d → IsAgreed eng → IsAgreed d
Reach-IsAgreed here v = v
Reach-IsAgreed (next r s) v = (Step-Steps s (Reach-IsAgreed r v)).0

-- The goroutine is behind its Unlock.
abbrev pub IsPastUnlock : Runner → Type 0
IsPastUnlock r = (r ≡ unlocked) ⊎ (r ≡ looping)

-- What StartLoop has returned is the loop that the goroutine made.
abbrev pub Returned : EventloopEngine → Option ℕ → Type 0
Returned eng r = (l : ℕ) × (r ≡ some l) × (eng.el ≡ some l) × IsPastUnlock eng.runner

-- No step is left.
abbrev pub IsFinished : EventloopEngine → Type 0
IsFinished eng = (w : Option ℕ) × (eng.starter ≡ returned w) × (eng.runner ≡ looping)

goes_on :
    (eng : EventloopEngine) (s : Starter) (r : Runner)
    → eng.starter ≡ s
    → eng.runner ≡ r
    → Agrees eng.el s r
    → ((d : EventloopEngine) × Step eng d) ⊎ IsFinished eng
goes_on eng idle r e f v = inl (go_run eng, do_go e)
goes_on eng testing r e f v = inl (wait_or_return eng, do_test e)
goes_on eng waiting unstarted e f v = absurd v
goes_on eng waiting making e f v = inl (set_el 0 eng, do_set 0 f)
goes_on eng waiting unlocked e f v = absurd v
goes_on eng waiting looping e f v = absurd v
goes_on eng (returned w) unstarted e f v = absurd v
goes_on eng (returned w) making e f v = absurd v
goes_on eng (returned w) unlocked e f v = inl (enter_loop eng, do_enter f)
goes_on eng (returned w) looping e f v = inr (w, e, f)

returned_by :
    (w el : Option ℕ) (s : Starter) (r : Runner)
    → s ≡ returned w
    → Agrees el s r
    → (l : ℕ) × (w ≡ some l) × (el ≡ some l) × IsPastUnlock r
returned_by w el idle r e v = absurd (ground arith)
returned_by w el testing r e v = absurd (ground arith)
returned_by w el waiting r e v = absurd (ground arith)
returned_by w el (returned x) unstarted e v = absurd v
returned_by w el (returned x) making e v = absurd v
returned_by w el (returned x) unlocked e (l, h, k) = (l, grind arith, h, inl refl)
returned_by w el (returned x) looping e (l, h, k) = (l, grind arith, h, inr refl)

-- In every state of a new engine, however StartLoop and the goroutine that it starts interleave,
-- either one of them can go on, or StartLoop has returned and the goroutine is in Loop; each step
-- lowers a number, so that this is so after at most five steps: StartLoop does not miss the
-- broadcast. When StartLoop has returned, it has returned the loop that the goroutine made, and the
-- goroutine is behind its Unlock, about to call Loop or in Loop.
pub start_loop-returns :
    {eng : EventloopEngine}
    → Reach new_eventloop_engine eng
    → (((d : EventloopEngine) × Step eng d) ⊎ IsFinished eng)
      × ((d : EventloopEngine)
          → Step eng d
          → weight d.starter d.runner < weight eng.starter eng.runner)
      × ((w : Option ℕ) → eng.starter ≡ returned w → Returned eng w)
unfolding new_eventloop_engine
start_loop-returns {eng} r =
    let v = Reach-IsAgreed r refl in
    (
      goes_on eng eng.starter eng.runner refl refl v,
      λ d s. (Step-Steps s v).1,
      λ w e. returned_by w eng.el eng.starter eng.runner e v,
    )
