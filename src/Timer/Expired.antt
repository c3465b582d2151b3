-- ===== src/Timer/Expired.antt =====
-- timer.go: getAndRemoveExpired takes out exactly the expired tasks, the earliest first.
use native.Mathlib.Decide.{dec_lt, ℕ_discrete}
use mathlib.Core.Path.{subst}
use muduo_go.Prelude.{
  ℕ, zero, suc, ◌+◌, ◌≤◌, ◌<◌, ◌≡◌, refl, ◌∙◌, arith, ok, length, get_or, count, List, [], ◌∷◌,
  ==_self,
}
use muduo_go.Timer.{Heap, expire_of, pop, get_expired_loop, get_and_remove_expired}
use muduo_go.Timer.Swap.{IsIdle, core, expire-core, load-ok}
use muduo_go.Timer.Queue.{IsHeap, Loses}
use muduo_go.Timer.Pop.{first_earliest, pop_lem}

pub entry_of :
    (b : ℕ) (xs : List ℕ) → 0 < count b xs → (c : ℕ) × (c < length xs) × (get_or xs c 0 ≡ b)
entry_of b [] p = absurd (omega arith)
entry_of b (x ∷ xs) p = elim (ℕ_discrete x b) [
  | yes e ↦ (0, omega arith, e)
  | no ne ↦ let (c, q, e) = entry_of b xs (ground arith) in (suc c, omega arith, e)
]

pub first_count : (xs : List ℕ) → 0 < length xs → 0 < count (get_or xs 0 0) xs
first_count [] p = absurd (omega arith)
first_count (x ∷ xs) p = ground arith

-- Each task expires no later than those behind it.
abbrev pub IsSorted : (ℕ → ℕ) → List ℕ → Type 0
IsSorted κ [] = Unit
IsSorted κ (x ∷ xs) = ((b : ℕ) → 0 < count b xs → κ x ≤ κ b) × IsSorted κ xs

-- The tasks of `h` are `expired`, which are due at `t` and sorted, and those of `g`, which are not.
pub record Splits (t : ℕ) (h : Heap) (expired : List ℕ) (g : Heap) : Type 0 where
  pub heap : IsHeap g
  pub tasks : (b : ℕ) → count b h.tasks ≡ count b expired + count b g.tasks
  pub cores : (b : ℕ) → core (g.task b) ≡ core (h.task b)
  pub due : (b : ℕ) → 0 < count b expired → expire_of h b ≤ t
  pub later : (b : ℕ) → 0 < count b g.tasks → t < expire_of h b
  pub sorted : IsSorted (expire_of h) expired
  pub idle : IsIdle h → IsIdle g

pub earliest :
    (h : Heap)
    → IsHeap h
    → (b : ℕ) → 0 < count b h.tasks
    → expire_of h (get_or h.tasks 0 0) ≤ expire_of h b
earliest h v b p =
    let (c, q, e) = entry_of b h.tasks p in
    subst (λ x. expire_of h (get_or h.tasks 0 0) ≤ expire_of h x) e (first_earliest h v c q)

none_due :
    (t : ℕ) (h : Heap)
    → IsHeap h
    → (0 < length h.tasks → t < expire_of h (get_or h.tasks 0 0))
    → Splits t h [] h
none_due t h v late = record {
  heap = v;
  tasks = λ b. omega arith;
  cores = λ b. refl;
  due = λ b p. absurd (omega arith);
  later = λ b p. let (c, q, e) = entry_of b h.tasks p in omega (arith, late, earliest h v b p);
  sorted = tt;
  idle = λ i. i;
}

pub expire-cores :
    (h g : Heap)
    → ((b : ℕ) → core (g.task b) ≡ core (h.task b))
    → (b : ℕ) → expire_of g b ≡ expire_of h b
expire-cores h g e b = expire-core (g.task b) (h.task b) (e b)

IsSorted-cong :
    (κ μ : ℕ → ℕ) → ((b : ℕ) → κ b ≡ μ b) → (xs : List ℕ) → IsSorted κ xs → IsSorted μ xs
IsSorted-cong κ μ e [] s = tt
IsSorted-cong κ μ e (x ∷ xs) (p, s) =
    ((λ b q. omega (arith, p b q, e x, e b)), IsSorted-cong κ μ e xs s)

one_due :
    (t : ℕ) (h g f : Heap) (rest : List ℕ)
    → IsHeap h
    → 0 < length h.tasks
    → expire_of h (get_or h.tasks 0 0) ≤ t
    → Loses (get_or h.tasks 0 0) h g
    → Splits t g rest f
    → Splits t h (get_or h.tasks 0 0 ∷ rest) f
one_due t h g f rest v p early l s =
    let same = expire-cores h g l.cores in
    let a = get_or h.tasks 0 0 in
    record {
      heap = s.heap;
      tasks = λ b. ground (arith, l.tasks b, s.tasks b);
      cores = λ b. s.cores b ∙ l.cores b;
      idle = λ i. s.idle (l.idle i);
      due = λ b q. elim (ℕ_discrete a b) [
        | yes e ↦ subst (λ x. expire_of h x ≤ t) e early
        | no ne ↦ omega (arith, s.due b (ground arith), same b)
      ];
      later = λ b q. omega (arith, s.later b q, same b);
      sorted = (
        (λ b q. earliest h v b (omega (arith, l.tasks b, s.tasks b))),
        IsSorted-cong (expire_of g) (expire_of h) same rest s.sorted,
      );
    }

get_expired_top :
    (k t : ℕ) (h g : Heap) (rest : List ℕ) (f : Heap)
    → 0 < length h.tasks
    → expire_of h (get_or h.tasks 0 0) ≤ t
    → pop h ≡ ok (get_or h.tasks 0 0, g)
    → get_expired_loop k t g ≡ ok (rest, f)
    → get_expired_loop (suc k) t h ≡ ok (get_or h.tasks 0 0 ∷ rest, f)
unfolding get_expired_loop
get_expired_top k t h g rest f p early out run =
    ground (arith, load-ok 0 h p, ==_self (get_or h.tasks 0 0), out, run)

get_expired_none :
    (k t : ℕ) (h : Heap)
    → (0 < length h.tasks → t < expire_of h (get_or h.tasks 0 0))
    → get_expired_loop (suc k) t h ≡ ok ([], h)
unfolding get_expired_loop
get_expired_none k t h late = ground (arith, load-ok 0 h, late)

get_expired_loop_lem :
    (k t : ℕ) (h : Heap)
    → IsHeap h
    → length h.tasks < k
    → (expired : List ℕ) × (g : Heap) × (get_expired_loop k t h ≡ ok (expired, g))
      × Splits t h expired g
get_expired_loop_lem zero t h v p = absurd (omega arith)
get_expired_loop_lem (suc k) t h v p = elim (dec_lt 0 (length h.tasks)) [
  | no empty ↦ (
    [],
    h,
    get_expired_none k t h (λ q. absurd (empty q)),
    none_due t h v (λ q. absurd (empty q)),
  )
  | yes some ↦ elim (dec_lt t (expire_of h (get_or h.tasks 0 0))) [
    | yes late ↦ ([], h, get_expired_none k t h (λ q. late), none_due t h v (λ q. late))
    | no early ↦
        let (g, out, l, _) = pop_lem h v some in
        let (rest, f, run, s) = get_expired_loop_lem k t g l.heap (omega (arith, l.size)) in
        (
          get_or h.tasks 0 0 ∷ rest,
          f,
          get_expired_top k t h g rest f some (omega arith) out run,
          one_due t h g f rest v some (omega arith) l s,
        )
  ]
]

-- From a heap in order, getAndRemoveExpired returns the waiting tasks whose times have come, each
-- once and the earliest first, and leaves a heap in order with the tasks whose times have not come.
pub get_and_remove_expired_lem :
    (t : ℕ) (h : Heap)
    → IsHeap h
    → (expired : List ℕ) × (g : Heap) × (get_and_remove_expired t h ≡ ok (expired, g))
      × Splits t h expired g
unfolding get_and_remove_expired
get_and_remove_expired_lem t h v = get_expired_loop_lem (suc (length h.tasks)) t h v (omega arith)
