-- ===== src/Timer/Tests.antt =====
-- timer.go: a queue of three tasks.
use muduo_go.Prelude.{ℕ, ◌≡◌, false, List, [], ◌∷◌, arith, ok, pos, negsuc, ℤ, if◌then◌else◌, ◌==◌}
use muduo_go.Timer.{Heap, TimerTask, cancel, mark_canceled, get_and_remove_expired}
use muduo_go.Timer.Queue.{IsHeap, Loses}
use muduo_go.Timer.Expired.{Splits, get_and_remove_expired_lem}
use muduo_go.Timer.Cancelling.{cancel_lem}

abbrev at_time : ℕ → ℤ → TimerTask
at_time t i = record { expire = t; interval = pos 0; repeats = false; index = i; canceled = false }

-- Task 5 at 10, task 6 at 20, task 7 at 30, and task 8 at 15, which does not wait.
abbrev three : Heap
three = record {
  tasks = 5 ∷ 6 ∷ 7 ∷ [];
  task = λ b.
      if b == 5
      then at_time 10 (pos 0)
      else if b == 6
      then at_time 20 (pos 1)
      else if b == 7
      then at_time 30 (pos 2)
      else at_time 15 (negsuc 0);
}

three-IsHeap : IsHeap three
three-IsHeap = record { ordered = λ c p q. ground arith; indexed = λ c p. ground arith }

get_and_remove_expired_example :
    (expired : List ℕ) × (g : Heap) × (get_and_remove_expired 20 three ≡ ok (expired, g))
    × Splits 20 three expired g
get_and_remove_expired_example = get_and_remove_expired_lem 20 three three-IsHeap

cancel_example : (g : Heap) × (cancel 6 three ≡ ok g) × Loses 6 (mark_canceled 6 three) g
cancel_example = cancel_lem 1 three three-IsHeap (omega arith) (omega arith)
