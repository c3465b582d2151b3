-- ===== src/Timer/Keys.antt =====
-- timer.go and container/heap: the heap order on the expiry times, by index.
use muduo_go.Prelude.{ℕ, ◌≤◌, ◌<◌, ◌≡◌, ◌≢◌, if◌then◌else◌, ◌==◌, arith, zero, suc}
use muduo_go.Timer.{parent}

-- Entries `i` and `j` trade places.
abbrev pub swapped : (ℕ → ℕ) → ℕ → ℕ → ℕ → ℕ
swapped k i j c = if c == i then k j else if c == j then k i else k c

-- Every parent is no later than its children, among the first `n` entries.
abbrev pub Ordered : ℕ → (ℕ → ℕ) → Type 0
Ordered n k = (c : ℕ) → 0 < c → c < n → k (parent c) ≤ k c

-- The same but for the entry `j` and its parent; the children of `j` are not before its parent.
pub record Rising (n : ℕ) (k : ℕ → ℕ) (j : ℕ) : Type 0 where
  pub edges : (c : ℕ) → 0 < c → c < n → c ≢ j → k (parent c) ≤ k c
  pub bridge : (c : ℕ) → 0 < c → c < n → parent c ≡ j → 0 < j → k (parent j) ≤ k c

-- The same but for the entry `i` and its children.
pub record Sinking (n : ℕ) (k : ℕ → ℕ) (i : ℕ) : Type 0 where
  pub edges : (c : ℕ) → 0 < c → c < n → parent c ≢ i → k (parent c) ≤ k c
  pub bridge : (c : ℕ) → 0 < c → c < n → parent c ≡ i → 0 < i → k (parent i) ≤ k c

pub rise :
    (n j : ℕ) (k : ℕ → ℕ)
    → Rising n k j
    → 0 < j
    → j < n
    → k j < k (parent j)
    → Rising n (swapped k (parent j) j) (parent j)
rise n j k v pos_j in_j late = record {
  edges = λ c p q ne. ground (arith, v.edges c, v.edges j, v.bridge c, v.edges (parent j));
  bridge = λ c p q e r. ground (arith, v.edges c, v.edges (parent j), v.bridge c);
}

pub risen : (n j : ℕ) (k : ℕ → ℕ) → Rising n k j → (0 < j → k (parent j) ≤ k j) → Ordered n k
risen n j k v top c p q = ground (arith, v.edges c p q, top)

-- `j` is the smaller child of `i`.
pub sink :
    (n i j : ℕ) (k : ℕ → ℕ)
    → Sinking n k i
    → 0 < j
    → j < n
    → parent j ≡ i
    → k j < k i
    → ((c : ℕ) → 0 < c → c < n → parent c ≡ i → k j ≤ k c)
    → Sinking n (swapped k i j) j
sink n i j k v pos_j in_j child late least = record {
  edges = λ c p q ne. ground (arith, v.edges c, v.bridge c, least c, v.bridge j);
  bridge = λ c p q e r. ground (arith, v.edges c, v.bridge c, least c);
}

pub sunk :
    (n i : ℕ) (k : ℕ → ℕ)
    → Sinking n k i
    → ((c : ℕ) → 0 < c → c < n → parent c ≡ i → k i ≤ k c)
    → Ordered n k
sunk n i k v low c p q = ground (arith, v.edges c p q, low c p q)

first_least_below : (b n c : ℕ) (k : ℕ → ℕ) → Ordered n k → c < b → c < n → k 0 ≤ k c
first_least_below zero n c k h f q = absurd (omega arith)
first_least_below (suc b) n c k h f q = ground (arith, h c, first_least_below b n (parent c) k h)

-- The first entry is a least one.
pub first_least : (n c : ℕ) (k : ℕ → ℕ) → Ordered n k → c < n → k 0 ≤ k c
first_least n c k h q = first_least_below (suc c) n c k h (omega arith) q
