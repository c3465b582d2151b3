-- ===== src/Timer/Swap.antt =====
-- timer.go: what Swap changes, and what the loops of container/heap leave as it is.
use muduo_go.Prelude.{
  ℕ, zero, suc, ◌≢◌, List, [], ◌∷◌, sym, negsuc, ◌≤◌, ◌<◌, ◌≡◌, refl, ap, ◌∙◌, if◌then◌else◌, ◌==◌,
  arith, ok, pos, negsuc, ltb, length, get_or, set, count, length-set, get_elem?-get_or, get_or-set,
  count-set, ℤ,
}
use muduo_go.Timer.{TimerTask, Heap, load, expire_of, less, swap, set_index}
use muduo_go.Timer.Keys.{swapped}

-- The expiry time of the entry at `c`.
abbrev pub keys : Heap → ℕ → ℕ
keys h c = expire_of h (get_or h.tasks c 0)

-- All of a task but its index.
abbrev pub core : TimerTask → TimerTask
core t = record t { index = negsuc 0 }

-- The `index` of each waiting task is its position in the heap; so no task waits twice.
abbrev pub IsIndexed : Heap → Type 0
IsIndexed h = (c : ℕ) → c < length h.tasks → (h.task (get_or h.tasks c 0)).index ≡ pos c

pub absent_entry :
    (a : ℕ) (xs : List ℕ) (c : ℕ) → count a xs ≡ 0 → c < length xs → get_or xs c 0 ≢ a
absent_entry a [] c z p = absurd (omega arith)
absent_entry a (x ∷ xs) zero z p = λ e. ground arith
absent_entry a (x ∷ xs) (suc c) z p = absent_entry a xs c (ground arith) (omega arith)

-- The other tasks have the index -1, as newTimerTask and Pop leave it.
abbrev pub IsIdle : Heap → Type 0
IsIdle h = (b : ℕ) → count b h.tasks ≡ 0 → (h.task b).index ≡ negsuc 0

-- `g` has the tasks of `h`, in another order among the first `n`, and may differ in their indices.
pub record Shuffled (n : ℕ) (h g : Heap) : Type 0 where
  pub size : length g.tasks ≡ length h.tasks
  pub same : (a : ℕ) → count a g.tasks ≡ count a h.tasks
  pub cores : (a : ℕ) → core (g.task a) ≡ core (h.task a)
  pub beyond : (c : ℕ) → n ≤ c → get_or g.tasks c 0 ≡ get_or h.tasks c 0
  pub indexed : IsIndexed h → IsIndexed g
  pub idle : IsIdle h → IsIdle g

pub Shuffled-refl : (n : ℕ) (h : Heap) → Shuffled n h h
Shuffled-refl n h = record {
  size = refl;
  same = λ a. refl;
  cores = λ a. refl;
  beyond = λ c p. refl;
  indexed = λ v. v;
  idle = λ v. v;
}

pub Shuffled-trans : {n : ℕ} {h g f : Heap} → Shuffled n h g → Shuffled n g f → Shuffled n h f
Shuffled-trans s t = record {
  size = t.size ∙ s.size;
  same = λ a. t.same a ∙ s.same a;
  cores = λ a. t.cores a ∙ s.cores a;
  beyond = λ c p. t.beyond c p ∙ s.beyond c p;
  indexed = λ v. t.indexed (s.indexed v);
  idle = λ v. t.idle (s.idle v);
}

pub expire-core : (t u : TimerTask) → core t ≡ core u → t.expire ≡ u.expire
expire-core t u e = ap (λ (x : TimerTask). x.expire) e

pub core-set_index :
    (a : ℕ) (i : ℤ) (task : ℕ → TimerTask) (b : ℕ) → core (set_index a i task b) ≡ core (task b)
unfolding set_index
core-set_index a i task b = ground arith

pub load-ok : (i : ℕ) (h : Heap) → i < length h.tasks → load i h ≡ ok (get_or h.tasks i 0)
unfolding load
load-ok i h p = rw (get_elem?-get_or h.tasks i 0 p)

module _ (i j : ℕ) (h : Heap) (hi : i < length h.tasks) (hj : j < length h.tasks) where
  -- For a later `i`, entries of equal times are not `less`.
  pub less-ok : j ≤ i → less i j h ≡ ok (ltb (keys h i) (keys h j))
  unfolding less
  less-ok p = rw (load-ok i h hi, load-ok j h hj) (ground arith)

  abbrev pub traded : Heap
  traded = record {
    tasks = set (set h.tasks i (get_or h.tasks j 0)) j (get_or h.tasks i 0);
    task = set_index (get_or h.tasks i 0) (pos j) (set_index (get_or h.tasks j 0) (pos i) h.task);
  }

  pub swap-ok : swap i j h ≡ ok traded
  unfolding swap
  swap-ok = rw (load-ok i h hi, load-ok j h hj)

  pub entry-traded :
      (c : ℕ)
      → get_or traded.tasks c 0 ≡ (
          if c == j
          then get_or h.tasks i 0
          else if c == i
          then get_or h.tasks j 0
          else get_or h.tasks c 0)
  entry-traded c = ground (
    arith,
    length-set h.tasks i (get_or h.tasks j 0),
    get_or-set (set h.tasks i (get_or h.tasks j 0)) j c (get_or h.tasks i 0) 0,
    get_or-set h.tasks i c (get_or h.tasks j 0) 0,
  )

  core-traded : (a : ℕ) → core (traded.task a) ≡ core (h.task a)
  core-traded a =
      core-set_index (get_or h.tasks i 0) (pos j) (set_index (get_or h.tasks j 0) (pos i) h.task) a
      ∙ core-set_index (get_or h.tasks j 0) (pos i) h.task a

  pub keys-traded : (c : ℕ) → keys traded c ≡ swapped (keys h) i j c
  keys-traded c = ground (
    arith,
    expire-core (traded.task (get_or traded.tasks c 0)) (h.task (get_or traded.tasks c 0))
        (core-traded (get_or traded.tasks c 0)),
    entry-traded c,
  )

  count-traded : (a : ℕ) → count a traded.tasks ≡ count a h.tasks
  count-traded a =
      let b = set h.tasks i (get_or h.tasks j 0) in
      ground (
        arith,
        length-set h.tasks i (get_or h.tasks j 0),
        get_or-set h.tasks i j (get_or h.tasks j 0) 0,
        count-set a h.tasks i (get_or h.tasks j 0),
        count-set a b j (get_or h.tasks i 0),
      )

  traded-IsIndexed : IsIndexed h → IsIndexed traded
  unfolding set_index
  traded-IsIndexed v c p = ground (
    arith,
    v i hi,
    v j hj,
    v c,
    entry-traded c,
    length-set (set h.tasks i (get_or h.tasks j 0)) j (get_or h.tasks i 0),
    length-set h.tasks i (get_or h.tasks j 0),
  )

  traded-IsIdle : IsIdle h → IsIdle traded
  unfolding set_index
  traded-IsIdle v b z =
      let gone : count b h.tasks ≡ 0 = sym (count-traded b) ∙ z in
      ground (arith, v b gone, absent_entry b h.tasks i gone hi, absent_entry b h.tasks j gone hj)

  pub traded-Shuffled : (n : ℕ) → i < n → j < n → Shuffled n h traded
  traded-Shuffled n p q = record {
    size =
        length-set (set h.tasks i (get_or h.tasks j 0)) j (get_or h.tasks i 0)
        ∙ length-set h.tasks i (get_or h.tasks j 0);
    same = λ a. count-traded a;
    cores = core-traded;
    beyond = λ c r. ground (arith, entry-traded c);
    indexed = traded-IsIndexed;
    idle = traded-IsIdle;
  }
