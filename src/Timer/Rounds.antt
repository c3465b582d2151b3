-- ===== src/Timer/Rounds.antt =====
-- timer.go: new tasks, and how the expired ones are put back and the descriptor is set. The result
-- of timerfd_settime is only logged.
use muduo_go.Prelude.{
  ℕ, suc, ◌+◌, ◌-◌, ◌/◌, ◌<◌, ◌≤◌, ◌≡◌, refl, Bool, true, false, not, ◌&&◌, ◌==◌, if◌then◌else◌,
  Option, none, some, List, [], ◌∷◌, Run, ok, ◌>>=◌, ltb, length, ℤ, pos, negsuc, arith,
}
use muduo_go.Timer.{TimerTask, Heap, load, expire_of, insert}
use muduo_go.Timer.Swap.{load-ok, keys}

-- `newTimerTask`
unfoldable pub new_timer_task : ℕ → ℤ → TimerTask
new_timer_task t interval = record {
  expire = t;
  interval = interval;
  repeats = is_repeating interval;
  index = negsuc 0;
  canceled = false;
}
  where
    is_repeating : ℤ → Bool
    is_repeating (pos n) = ltb 0 n
    is_repeating (negsuc n) = false

-- `t.Add(d)`
abbrev pub add_duration : ℕ → ℤ → ℕ
add_duration t (pos n) = t + n
add_duration t (negsuc n) = t - suc n

unfoldable pub restart : ℕ → TimerTask → TimerTask
restart t x = record x { expire = if x.repeats then add_duration t x.interval else 0 }

abbrev pub set_task : ℕ → TimerTask → Heap → Heap
set_task a x h = record h { task = λ b. if b == a then x else h.task b }

-- The loop of `reset`.
unfoldable pub reset_tasks : List ℕ → ℕ → Heap → Run Heap
reset_tasks [] t h = ok h
reset_tasks (a ∷ expired) t h =
    let again : Run Heap = (do
      (_, g) ← insert a (set_task a (restart t (h.task a)) h)
      reset_tasks expired t g) in
    let rest = reset_tasks expired t h in
    if (h.task a).repeats && not (h.task a).canceled then again else rest

-- The time that `resetTimerFd` sets, in nanoseconds from `now`; it is at least 100 microseconds.
unfoldable pub timer_value : ℕ → ℕ → ℕ
timer_value t now =
    let duration = t - now in if ltb (duration / 1000) 100 then 100_000 else duration

unfoldable pub next_alarm : ℕ → Heap → Run (Option ℕ)
next_alarm now h =
    if ltb 0 (length h.tasks)
    then (do
      top ← load 0 h
      ok (if ltb 0 (expire_of h top) then some (timer_value (expire_of h top) now) else none))
    else ok none

-- `later` is the time that `resetTimerFd` reads.
unfoldable pub reset : List ℕ → ℕ → ℕ → Heap → Run (Option ℕ × Heap)
reset expired t later h = do g ← reset_tasks expired t h; alarm ← next_alarm later g; ok (alarm, g)

pub alarm-set :
    (now : ℕ) (h : Heap)
    → 0 < length h.tasks
    → 0 < keys h 0
    → (d : ℕ) × (next_alarm now h ≡ ok (some d))
      × (keys h 0 ≤ now + d)
      × (keys h 0 < now + d → d ≤ 100_000)
unfolding next_alarm timer_value
alarm-set now h p late =
    let d = if ltb ((keys h 0 - now) / 1000) 100 then 100_000 else keys h 0 - now in
    let some_left : ltb 0 (length h.tasks) ≡ true = ground arith in
    let positive : ltb 0 (keys h 0) ≡ true = ground arith in
    (d, rw (some_left, load-ok 0 h p, positive) refl, ground arith, ground arith)

pub alarm-none : (now : ℕ) (h : Heap) → ¬ 0 < length h.tasks → next_alarm now h ≡ ok none
unfolding next_alarm
alarm-none now h p = ground arith

pub alarm-zero :
    (now : ℕ) (h : Heap) → 0 < length h.tasks → keys h 0 ≡ 0 → next_alarm now h ≡ ok none
unfolding next_alarm
alarm-zero now h p e =
    let some_left : ltb 0 (length h.tasks) ≡ true = ground arith in
    let zero : ltb 0 (keys h 0) ≡ false = ground arith in rw (some_left, load-ok 0 h p, zero) refl

pub reset-tasks :
    (t later : ℕ) (h g : Heap) (expired : List ℕ) (alarm : Option ℕ)
    → reset_tasks expired t h ≡ ok g
    → next_alarm later g ≡ ok alarm
    → reset expired t later h ≡ ok (alarm, g)
unfolding reset
reset-tasks t later h g expired alarm a b = rw a (rw b refl)

-- `alarm` comes for the tasks that wait, if any, when the first of them is due, or after 100
-- microseconds if that is later.
abbrev pub IsArmed : ℕ → Heap → Option ℕ → Type 0
IsArmed now g none = length g.tasks ≡ 0
IsArmed now g (some d) =
    (0 < length g.tasks) × (keys g 0 ≤ now + d) × (keys g 0 < now + d → d ≤ 100_000)
