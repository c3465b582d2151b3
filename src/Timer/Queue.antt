-- ===== src/Timer/Queue.antt =====
-- timer.go: heap.Push, heap.Pop and the insertion of a task keep the heap in order.
use mathlib.Core.Path.{subst}
use muduo_go.Prelude.{
  ℕ, suc, ◌+◌, ◌-◌, ◌<◌, ◌≡◌, refl, sym, ◌∙◌, ◌==◌, arith, ok, false, length, get_or, Run, take,
  count, one_if, pos, negsuc, length-append, length-take, get_or-append, get_or-append_last,
  get_or-take, count-append, count-take_last, [], ◌∷◌, ◌++◌,
}
use muduo_go.Timer.{Heap, set_index, parent, up, up_loop, push, push_last, pop_last}
use muduo_go.Timer.Keys.{Ordered, Rising}
use muduo_go.Timer.Swap.{
  keys, core, load-ok, IsIndexed, IsIdle, absent_entry, expire-core, core-set_index,
}
use muduo_go.Timer.Sift.{Sifted, up_loop_restores}

-- No entry is before its parent, and each task knows its position.
pub record IsHeap (h : Heap) : Type 0 where
  pub ordered : Ordered (length h.tasks) (keys h)
  pub indexed : IsIndexed h

-- The entries after `push_last`.
module _ (a : ℕ) (h : Heap) where
  tasks-push_last : (push_last a h).tasks ≡ h.tasks ++ a ∷ []
  unfolding push_last
  tasks-push_last = refl

  keys-push_last : (c : ℕ) → c < length h.tasks → keys (push_last a h) c ≡ keys h c
  unfolding push_last
  keys-push_last c p = rw (get_or-append h.tasks (a ∷ []) c 0 p) (
      expire-core (set_index a (pos (length h.tasks)) h.task (get_or h.tasks c 0))
        (h.task (get_or h.tasks c 0))
        (core-set_index a (pos (length h.tasks)) h.task (get_or h.tasks c 0)))

  push_last-IsIndexed : IsIndexed h → count a h.tasks ≡ 0 → IsIndexed (push_last a h)
  unfolding push_last set_index
  push_last-IsIndexed v z c p = ground (
    arith,
    v c,
    absent_entry a h.tasks c,
    get_or-append h.tasks (a ∷ []) c 0,
    get_or-append_last h.tasks a 0,
    length-append h.tasks (a ∷ []),
  )

  push_last-IsIdle : IsIdle h → IsIdle (push_last a h)
  unfolding push_last set_index
  push_last-IsIdle v b z = ground (arith, v b, count-append b h.tasks (a ∷ []))

  length-push_last : length (push_last a h).tasks ≡ suc (length h.tasks)
  unfolding push_last
  length-push_last = omega (arith, length-append h.tasks (a ∷ []))

  core-push_last : (b : ℕ) → core ((push_last a h).task b) ≡ core (h.task b)
  unfolding push_last
  core-push_last b = core-set_index a (pos (length h.tasks)) h.task b

  -- Only the new entry can be out of order.
  push_last-Rising :
      Ordered (length h.tasks) (keys h)
      → Rising (suc (length h.tasks)) (keys (push_last a h)) (length h.tasks)
  push_last-Rising v = record {
    edges = λ c p q ne. omega (
      arith,
      v c p (omega arith),
      keys-push_last c (omega arith),
      keys-push_last (parent c) (omega arith),
    );
    bridge = λ c p q e r. absurd (omega arith);
  }

-- `g` has the waiting tasks of `h` and `a`, each with its times and flags.
pub record Gains (a : ℕ) (h g : Heap) : Type 0 where
  pub heap : IsHeap g
  pub tasks : (b : ℕ) → count b g.tasks ≡ count b h.tasks + one_if (a == b)
  pub cores : (b : ℕ) → core (g.task b) ≡ core (h.task b)
  pub idle : IsIdle h → IsIdle g

gained :
    (a : ℕ) (h : Heap)
    → IsHeap h
    → count a h.tasks ≡ 0
    → (r : Run Heap) → Sifted (suc (length h.tasks)) (push_last a h) r
    → (g : Heap) × (r ≡ ok g) × Gains a h g
unfolding push_last
gained a h v z r (g, run, s, o) =
    let all : length g.tasks ≡ suc (length h.tasks) = s.size ∙ length-push_last a h in
    (
      g,
      run,
      record {
        heap = record {
          ordered = subst (λ m. Ordered m (keys g)) (sym all) o;
          indexed = s.indexed (push_last-IsIndexed a h v.indexed z);
        };
        tasks = λ b. ground (arith, s.same b, count-append b h.tasks (a ∷ []));
        cores = λ b. s.cores b ∙ core-push_last a h b;
        idle = λ i. s.idle (push_last-IsIdle a h i);
      },
    )

push-up_loop :
    (a : ℕ) (h : Heap) → push a h ≡ up_loop (suc (length h.tasks)) (length h.tasks) (push_last a h)
unfolding push up
push-up_loop a h =
    let last : length (push_last a h).tasks - 1 ≡ length h.tasks =
      omega (arith, length-push_last a h) in
    rw last refl

pub push_lem :
    (a : ℕ) (h : Heap)
    → IsHeap h
    → count a h.tasks ≡ 0
    → (g : Heap) × (push a h ≡ ok g) × Gains a h g
push_lem a h v z =
    let n = length h.tasks in
    rw (push-up_loop a h) (
      gained a h v z (up_loop (suc n) n (push_last a h)) (
        up_loop_restores (suc n) (suc n) n (push_last a h) (omega arith) (omega arith)
          (omega (arith, length-push_last a h)) (push_last-Rising a h v.ordered)))

-- `g` has the waiting tasks of `h` but `a`, each with its times and flags.
pub record Loses (a : ℕ) (h g : Heap) : Type 0 where
  pub heap : IsHeap g
  pub size : length h.tasks ≡ suc (length g.tasks)
  pub tasks : (b : ℕ) → count b h.tasks ≡ count b g.tasks + one_if (a == b)
  pub cores : (b : ℕ) → core (g.task b) ≡ core (h.task b)
  pub idle : IsIdle h → IsIdle g

module _ (n : ℕ) (f : Heap) (size : length f.tasks ≡ suc n) where
  abbrev shorter : Heap
  shorter = record {
    tasks = take n f.tasks;
    task = set_index (get_or f.tasks n 0) (negsuc 0) f.task;
  }

  pop_last-ok : pop_last f ≡ ok (get_or f.tasks n 0, shorter)
  unfolding pop_last
  pop_last-ok =
      let last : length f.tasks - 1 ≡ n = omega arith in
      let some : (length f.tasks == 0) ≡ false = ground arith in
      rw (some, last, load-ok n f (omega arith)) refl

  length-shorter : length shorter.tasks ≡ n
  length-shorter = omega (arith, length-take n f.tasks)

  keys-shorter : (c : ℕ) → c < n → keys shorter c ≡ keys f c
  keys-shorter c p =
      let x = get_or f.tasks n 0 in
      rw (get_or-take n f.tasks c 0 p) (
        expire-core (set_index x (negsuc 0) f.task (get_or f.tasks c 0))
          (f.task (get_or f.tasks c 0)) (core-set_index x (negsuc 0) f.task (get_or f.tasks c 0)))

  shorter-IsIndexed : IsIndexed f → IsIndexed shorter
  unfolding set_index
  shorter-IsIndexed v c p = ground (arith, length-shorter, v c, v n, get_or-take n f.tasks c 0)

  shorter-IsIdle : IsIdle f → IsIdle shorter
  unfolding set_index
  shorter-IsIdle v b z = ground (arith, v b, count-take_last b n f.tasks size)

  pub pop_last_lem :
      Ordered n (keys f)
      → IsIndexed f
      → (g : Heap) × (pop_last f ≡ ok (get_or f.tasks n 0, g)) × Loses (get_or f.tasks n 0) f g
  pop_last_lem o v = (
    shorter,
    pop_last-ok,
    record {
      heap = record {
        ordered =
            λ c p q. omega (arith, length-shorter, o c p, keys-shorter c, keys-shorter (parent c));
        indexed = shorter-IsIndexed v;
      };
      size = omega (arith, length-shorter);
      tasks = λ b. count-take_last b n f.tasks size;
      cores = λ b. core-set_index (get_or f.tasks n 0) (negsuc 0) f.task b;
      idle = shorter-IsIdle;
    },
  )
