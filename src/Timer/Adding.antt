-- ===== src/Timer/Adding.antt =====
-- timer.go: a new task and the alarm of the queue. The pointer of the new task is an argument.
use muduo_go.Prelude.{
  ℕ, ◌+◌, ◌<◌, ◌≤◌, ◌≡◌, refl, Bool, true, false, if◌then◌else◌, Option, none, some, Run, ok, ◌>>=◌,
  ℤ, arith, count,
}
use muduo_go.Timer.{Heap, expire_of, insert}
use muduo_go.Timer.Queue.{IsHeap, Gains}
use muduo_go.Timer.Cancelling.{insert_lem}
use muduo_go.Timer.Rounds.{new_timer_task, set_task, timer_value}

-- `addTask0`, with the time that it sets the descriptor to, if it does.
unfoldable pub add_task0 : ℕ → ℕ → Heap → Run (Option ℕ × Heap)
add_task0 a now h = do
  (first, g) ← insert a h
  ok (if first then some (timer_value (expire_of h a) now) else none, g)

unfoldable pub add_task : ℕ → ℕ → ℤ → ℕ → Heap → Run (Option ℕ × Heap)
add_task a t interval now h = add_task0 a now (set_task a (new_timer_task t interval) h)

-- Where no time is set, a task waits that is due no later; else `a` is before all that wait, and is
-- due at the time set.
abbrev pub IsCovered : ℕ → ℕ → Heap → Option ℕ → Type 0
IsCovered a now h none = (b : ℕ) × (0 < count b h.tasks) × (expire_of h b ≤ expire_of h a)
IsCovered a now h (some d) =
    ((b : ℕ) → 0 < count b h.tasks → expire_of h a < expire_of h b)
    × (expire_of h a ≤ now + d)
    × (expire_of h a < now + d → d ≤ 100_000)

timer_value-le : (t now : ℕ) → t ≤ now + timer_value t now
unfolding timer_value
timer_value-le t now = ground arith

timer_value-least : (t now : ℕ) → t < now + timer_value t now → timer_value t now ≤ 100_000
unfolding timer_value
timer_value-least t now p = ground arith

abbrev Added : ℕ → ℕ → Heap → Type 0
Added a now h =
    (alarm : Option ℕ) × (g : Heap) × (add_task0 a now h ≡ ok (alarm, g))
    × Gains a h g
    × IsCovered a now h alarm

covered :
    (a now : ℕ) (h : Heap) (first : Bool) (g : Heap)
    → insert a h ≡ ok (first, g)
    → Gains a h g
    → (first ≡ true → (b : ℕ) → 0 < count b h.tasks → expire_of h a < expire_of h b)
    → (first ≡ false → (b : ℕ) × (0 < count b h.tasks) × (expire_of h b ≤ expire_of h a))
    → Added a now h
unfolding add_task0
covered a now h true g run w before behind = (
  some (timer_value (expire_of h a) now),
  g,
  rw run refl,
  w,
  (before refl, timer_value-le (expire_of h a) now, timer_value-least (expire_of h a) now),
)
covered a now h false g run w before behind = (none, g, rw run refl, w, behind refl)

-- Adding a task that does not wait to a heap in order does not panic and returns a heap in order
-- with that task and the others; either the descriptor is set to a time at which the task is due
-- and the task is before all the others, or it is not set and another task waits that is due no
-- later.
pub add_task0_lem :
    (a now : ℕ) (h : Heap)
    → IsHeap h
    → count a h.tasks ≡ 0
    → (alarm : Option ℕ) × (g : Heap) × (add_task0 a now h ≡ ok (alarm, g))
      × Gains a h g
      × IsCovered a now h alarm
add_task0_lem a now h v z =
    let (first, g, run, w, before, behind) = insert_lem a h v z in
    covered a now h first g run w before behind
