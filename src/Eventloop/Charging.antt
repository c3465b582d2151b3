-- ===== src/Eventloop/Charging.antt =====
-- timer.go: that the descriptor is set for the first task that waits, and what keeps it so.
use native.Mathlib.Decide.{ℕ_discrete}
use muduo_go.Prelude.{
  ℕ, ◌+◌, ◌<◌, ◌≤◌, ◌≡◌, ap, true, Option, none, some, length, get_or, count, Bool, sym, ◌∙◌, arith,
}
use muduo_go.Timer.{Heap, expire_of}
use muduo_go.Timer.Swap.{keys, expire-core}
use muduo_go.Timer.Queue.{IsHeap, Gains}
use muduo_go.Timer.Expired.{earliest, first_count, entry_of}
use muduo_go.Timer.Rounds.{IsArmed}
use muduo_go.Timer.Adding.{IsCovered}
use muduo_go.Timer.Marking.{first_key}
use muduo_go.Eventloop.Scheduling.{set_alarm, latest}

-- The descriptor is set for the first task that waits, and at most 100 microseconds from now if not
-- for that task's time.
abbrev pub IsCharged : ℕ → Heap → Option ℕ → Type 0
IsCharged now h none = length h.tasks ≡ 0
IsCharged now h (some d) = 0 < length h.tasks → (keys h 0 ≤ d) × (keys h 0 < d → d ≤ now + 100_000)

pub latest-le : (s t : ℕ) → (s ≤ latest s t) × (t ≤ latest s t)
latest-le s t = (ground arith, ground arith)

pub IsCharged-keeps :
    (before now : ℕ) (h g : Heap) (alarm : Option ℕ)
    → before ≤ now
    → (0 < length g.tasks → (0 < length h.tasks) × (keys g 0 ≡ keys h 0))
    → IsCharged before h alarm
    → IsCharged now g alarm
IsCharged-keeps before now h g none le same c = ground (arith, same)
IsCharged-keeps before now h g (some d) le same c =
    λ p. let (q, e) = same p in let (low, high) = c q in (omega arith, λ late. omega (arith, high))

pub IsCharged-empty :
    (t : ℕ) (h : Heap) (alarm : Option ℕ) → length h.tasks ≡ 0 → IsCharged t h alarm
IsCharged-empty t h none e = e
IsCharged-empty t h (some d) e = λ p. absurd (omega arith)

pub IsCharged-armed :
    (now top : ℕ) (h : Heap) (alarm old : Option ℕ)
    → now ≤ top
    → IsArmed now h alarm
    → IsCharged top h (set_alarm now alarm old)
IsCharged-armed now top h none none le z = z
IsCharged-armed now top h none (some d) le z = λ p. absurd (omega arith)
IsCharged-armed now top h (some d) old le (p, low, high) = λ q. (low, λ late. omega (arith, high))

-- A bound on the times, after a task was added.
least-added :
    (a k : ℕ) (h g : Heap)
    → Gains a h g
    → k ≤ expire_of h a
    → ((c : ℕ) → 0 < count c h.tasks → k ≤ expire_of h c)
    → (c : ℕ) → 0 < count c g.tasks
    → k ≤ expire_of g c
least-added a k h g w own others c p =
    let same = expire-core (g.task c) (h.task c) (w.cores c) in
    elim (ℕ_discrete a c) [
      | yes e ↦ omega (arith, own, ap (expire_of h) e)
      | no ne ↦ omega (arith, others c (ground (arith, w.tasks c)))
    ]

pub IsCharged-covered :
    (mid : Bool) (a before now top : ℕ) (h g : Heap) (alarm old : Option ℕ)
    → IsHeap h
    → before ≤ top
    → now ≤ top
    → Gains a h g
    → IsCovered a now h alarm
    → ((mid ≡ true → keys h 0 ≡ 0) → IsCharged before h old)
    → (mid ≡ true → keys g 0 ≡ 0)
    → IsCharged top g (set_alarm now alarm old)
IsCharged-covered mid a before now top h g none old v le le2 w (b, p, behind) c m =
    let (i, q, _) = entry_of b h.tasks p in
    let first = get_or h.tasks 0 0 in
    let waits : 0 < count first h.tasks = first_count h.tasks (omega arith) in
    let same : keys g 0 ≡ keys h 0 =
      first_key g (keys h 0) first w.heap (omega (arith, w.tasks first))
        (expire-core (g.task first) (h.task first) (w.cores first))
        (least-added a (keys h 0) h g w (omega (arith, earliest h v b p)) (earliest h v)) in
    IsCharged-keeps before top h g old le (λ r. (omega arith, same)) (c (λ e. sym same ∙ m e))
IsCharged-covered mid a before now top h g (some d) old v le le2 w (first, low, high) c m = λ p.
    let e : keys g 0 ≡ expire_of h a =
      first_key g (expire_of h a) a w.heap (ground (arith, w.tasks a))
        (expire-core (g.task a) (h.task a) (w.cores a))
        (least-added a (expire_of h a) h g w (omega arith) (λ b q. omega (arith, first b q))) in
    (omega arith, λ late. omega (arith, high))
