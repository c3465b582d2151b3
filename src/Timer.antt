-- ===== src/Timer.antt =====
-- timer.go: the tasks of a timer queue in a binary heap, and container/heap as it uses it. A task
-- is a pointer, a number here, and its fields are looked up in `task`, so that what one list entry
-- writes is seen through the others. Times are in nanoseconds; none lies before the Unix epoch. An
-- index out of range panics. The loops take fuel, and running out of it, which no theorem lets
-- happen, is a panic too.
pub mod Keys
pub mod Swap
pub mod Sift
pub mod Queue
pub mod Pop
pub mod Expired
pub mod Removing
pub mod Cancelling
pub mod Rounds
pub mod Repeating
pub mod Rearming
pub mod Adding
pub mod Marking
mod Tests
use muduo_go.Prelude.{
  assert, ◌>>◌, assert, ℕ, zero, suc, ◌+◌, ◌-◌, ◌*◌, ◌/◌, Bool, true, false, not, ◌&&◌, ◌||◌,
  Option, none, some, List, [], ◌∷◌, ◌++◌, if◌then◌else◌, Run, ok, panic, ◌>>=◌, ltb, leb, ◌==◌,
  length, get_elem?, set, take, ℤ, pos, negsuc,
}

pub record TimerTask : Type 0 where
  pub expire : ℕ
  pub interval : ℤ
  pub repeats : Bool
  pub index : ℤ
  pub canceled : Bool

pub record Heap : Type 0 where
  pub tasks : List ℕ
  pub task : ℕ → TimerTask

-- `h.tasks[i]`
abbrev pub or_panic {ℓ} : {A : Type ℓ} → Option A → Run A
or_panic none = panic
or_panic (some a) = ok a

pub load : ℕ → Heap → Run ℕ
load i h = or_panic (get_elem? h.tasks i)

abbrev pub expire_of : Heap → ℕ → ℕ
expire_of h a = (h.task a).expire

pub less : ℕ → ℕ → Heap → Run Bool
less i j h = do
  a ← load i h
  b ← load j h
  ok (
      if ltb (expire_of h a) (expire_of h b)
      then true
      else if expire_of h a == expire_of h b
      then ltb i j
      else false)

-- `t.index = i`
pub set_index : ℕ → ℤ → (ℕ → TimerTask) → ℕ → TimerTask
set_index a i task b = if b == a then record (task b) { index = i } else task b

pub swap : ℕ → ℕ → Heap → Run Heap
swap i j h = do
  a ← load i h
  b ← load j h
  ok (record {
    tasks = set (set h.tasks i b) j a;
    task = set_index a (pos j) (set_index b (pos i) h.task);
  })

abbrev pub parent : ℕ → ℕ
parent j = (j - 1) / 2

-- `up` of container/heap
unfoldable pub up_loop : ℕ → ℕ → Heap → Run Heap
up_loop zero j h = panic
up_loop (suc k) j h =
    let i = parent j in
    let climb = swap i j h >>= λ g. up_loop k i g in
    if i == j then ok h else (do below ← less j i h; if below then climb else ok h)

unfoldable pub up : ℕ → Heap → Run Heap
up j h = up_loop (suc j) j h

-- The smaller child of `i` among the first `n` entries, whose first child is `j1`.
pub smaller_child : ℕ → ℕ → Heap → Run ℕ
smaller_child j1 n h =
    if ltb (j1 + 1) n then (do b ← less (j1 + 1) j1 h; ok (if b then j1 + 1 else j1)) else ok j1

-- `down` of container/heap, with the index at which it ends
pub down_loop : ℕ → ℕ → ℕ → Heap → Run (ℕ × Heap)
down_loop zero i n h = panic
down_loop (suc k) i n h =
    let j1 = 2 * i + 1 in
    let sink : Run (ℕ × Heap) = do
      j ← smaller_child j1 n h
      below ← less j i h
      let deeper = swap i j h >>= λ g. down_loop k j n g
      if below then deeper else ok (i, h)
    in if leb n j1 then ok (i, h) else sink

-- It returns whether the entry moved.
unfoldable pub down : ℕ → ℕ → Heap → Run (Bool × Heap)
down i0 n h = do (i, g) ← down_loop (suc n) i0 n h; ok (ltb i0 i, g)

-- The methods `Push` and `Pop` of timerTaskHeap.
unfoldable pub push_last : ℕ → Heap → Heap
push_last a h = record {
  tasks = h.tasks ++ (a ∷ []);
  task = set_index a (pos (length h.tasks)) h.task;
}

unfoldable pub pop_last : Heap → Run (ℕ × Heap)
pop_last h = if length h.tasks == 0 then panic else (do
  let n = length h.tasks - 1
  a ← load n h
  ok (a, record { tasks = take n h.tasks; task = set_index a (negsuc 0) h.task }))

-- `heap.Push`, `heap.Pop` and `heap.Remove`
unfoldable pub push : ℕ → Heap → Run Heap
push a h = let g = push_last a h in up (length g.tasks - 1) g

unfoldable pub pop : Heap → Run (ℕ × Heap)
pop h =
    if length h.tasks == 0
    then panic
    else (do let n = length h.tasks - 1; g ← swap 0 n h; (_, f) ← down 0 n g; pop_last f)

unfoldable pub remove : ℕ → Heap → Run (ℕ × Heap)
remove i h =
    let n = length h.tasks - 1 in
    let move : Run Heap = do g ← swap i n h; (moved, f) ← down i n g; if moved then ok f else up i f
    in do g ← (if n == i then ok h else move); pop_last g

-- `insert`: whether the task is the earliest then.
unfoldable pub insert : ℕ → Heap → Run (Bool × Heap)
insert a h =
    let is_earlier : Run Bool = do b ← load 0 h; ok (ltb (expire_of h a) (expire_of h b))
    in do
      earliest ← (if length h.tasks == 0 then ok true else is_earlier)
      g ← push a h
      ok (earliest, g)

-- `getAndRemoveExpired`; each round takes a task out.
pub get_expired_loop : ℕ → ℕ → Heap → Run (List ℕ × Heap)
get_expired_loop zero t h = panic
get_expired_loop (suc k) t h =
    let more : ℕ → Run (List ℕ × Heap) = λ top. do
      (a, g) ← pop h
      assert (a == top)
      (rest, f) ← get_expired_loop k t g
      ok (top ∷ rest, f)
    in if length h.tasks == 0
      then ok ([], h)
      else (do top ← load 0 h; if leb (expire_of h top) t then more top else ok ([], h))

unfoldable pub get_and_remove_expired : ℕ → Heap → Run (List ℕ × Heap)
get_and_remove_expired t h = get_expired_loop (suc (length h.tasks)) t h

-- `tt.index > 0`
abbrev pub is_positive : ℤ → Bool
is_positive (pos n) = ltb 0 n
is_positive (negsuc n) = false

abbrev pub to_index : ℤ → ℕ
to_index (pos n) = n
to_index (negsuc n) = 0

-- `tt.repeat = false; tt.canceled = true`
unfoldable pub mark_canceled : ℕ → Heap → Heap
mark_canceled a h = record h {
  task = λ b. if b == a then record (h.task b) { repeats = false; canceled = true } else h.task b;
}

-- The closure of `cancel`.
unfoldable pub cancel : ℕ → Heap → Run Heap
cancel a h =
    let g = mark_canceled a h in
    let out : Run Heap = (do (_, f) ← remove (to_index (g.task a).index) g; ok f) in
    if is_positive (g.task a).index then out else ok g
