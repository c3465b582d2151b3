-- ===== src/Timer/Rearming.antt =====
-- timer.go: the times of the tasks after the expired ones were put back.
use native.Mathlib.Decide.{dec_lt}
use muduo_go.Prelude.{
  ℕ, zero, suc, ◌+◌, ◌<◌, ◌≤◌, ◌≡◌, refl, sym, ap, ◌∙◌, ◌⊎◌, inl, inr, true, List, count, ℤ, pos,
  negsuc, arith,
}
use muduo_go.Timer.{TimerTask, Heap, expire_of}
use muduo_go.Timer.Swap.{core, expire-core}
use muduo_go.Timer.Repeating.{again, restarted, Restored}
use muduo_go.Timer.Rounds.{restart, new_timer_task}

-- The tasks that repeat have an interval to wait, as newTimerTask gives it.
abbrev pub IsTimed : Heap → Type 0
IsTimed h = (b : ℕ) → (h.task b).repeats ≡ true → (n : ℕ) × ((h.task b).interval ≡ pos (suc n))

pub IsTimed-core :
    (h g : Heap) → ((b : ℕ) → core (g.task b) ≡ core (h.task b)) → IsTimed h → IsTimed g
IsTimed-core h g same timed b e =
    let (n, i) = timed b (sym (ap (λ (x : TimerTask). x.repeats) (same b)) ∙ e) in
    (n, ap (λ (x : TimerTask). x.interval) (same b) ∙ i)

again-repeats : (x : TimerTask) → again x ≡ true → x.repeats ≡ true
unfolding again
again-repeats x e = ground arith

expire-restart :
    (t n : ℕ) (x : TimerTask)
    → x.repeats ≡ true
    → x.interval ≡ pos (suc n)
    → (restart t x).expire ≡ t + suc n
unfolding restart
expire-restart t n x e i = rw (e, i) refl

-- After the tasks were put back, where none waits that is expired.
module _ (now : ℕ) (g f : Heap) (expired : List ℕ) (timed : IsTimed g)
    (s : Restored now g expired f) (once : (b : ℕ) → count b g.tasks + count b expired ≤ 1) where
  pub expire-kept : (b : ℕ) → 0 < count b g.tasks → expire_of f b ≡ expire_of g b
  expire-kept b p =
      let gone : count b expired ≡ 0 = omega (arith, once b) in
      ground
        (arith, expire-core (f.task b) (restarted now (count b expired) (g.task b)) (s.cores b))

  pub again_later : (b : ℕ) → 0 < count b expired → again (g.task b) ≡ true → now < expire_of f b
  again_later b p e =
      let repeating = again-repeats (g.task b) e in
      let (n, i) = timed b repeating in
      ground (
        arith,
        expire-restart now n (g.task b) repeating i,
        expire-core (f.task b) (restarted now (count b expired) (g.task b)) (s.cores b),
      )

  pub restored-IsTimed : IsTimed f
  restored-IsTimed b e =
      let (n, i) = timed b (sym (ap (λ (x : TimerTask). x.repeats) (s.cores b)) ∙ e) in
      (n, ap (λ (x : TimerTask). x.interval) (s.cores b) ∙ i)

  -- A task that waits then waited already, or it is not due.
  pub waits_or_later : (b : ℕ) → 0 < count b f.tasks → (0 < count b g.tasks) ⊎ (now < expire_of f b)
  waits_or_later b p = elim (dec_lt 0 (count b g.tasks)) [
    | yes q ↦ inl q
    | no q ↦ inr (ground (arith, s.tasks b, again_later b))
  ]

-- A new task has an interval if it repeats.
pub new_timer_task-IsTimed :
    (t : ℕ) (i : ℤ)
    → (new_timer_task t i).repeats ≡ true
    → (n : ℕ) × ((new_timer_task t i).interval ≡ pos (suc n))
unfolding new_timer_task
new_timer_task-IsTimed t (pos zero) e = ground arith
new_timer_task-IsTimed t (pos (suc n)) e = (n, refl)
new_timer_task-IsTimed t (negsuc n) e = ground arith
