-- ===== src/IntrusiveQueue/Chain.antt =====
-- The list of nodes that an IntrusiveQueue.hpp queue stands for.
use twisted_os_v.Common.{
  ℕ, ◌≡◌, ◌≢◌, refl, Bool, true, false, ◌||◌, List, [], ◌∷◌, ◌++◌, arith, ◌==◌, if◌then◌else◌,
}
use twisted_os_v.IntrusiveQueue.{IntrusiveQueue, write}

-- From `p` the next fields lead through the nodes of the list to nullptr.
abbrev pub Chain : (ℕ → ℕ) → ℕ → List ℕ → Type 0
Chain next p [] = p ≡ 0
Chain next p (x ∷ xs) = (p ≡ x) × (x ≢ 0) × Chain next (next x) xs

abbrev pub has : ℕ → List ℕ → Bool
has a [] = false
has a (x ∷ xs) = a == x || has a xs

abbrev pub Distinct : List ℕ → Type 0
Distinct [] = Unit
Distinct (x ∷ xs) = (has x xs ≡ false) × Distinct xs

-- The last node, or nullptr.
abbrev pub last : List ℕ → ℕ
last [] = 0
last (x ∷ []) = x
last (x ∷ y ∷ xs) = last (y ∷ xs)

pub record IsQueue (q : IntrusiveQueue) (xs : List ℕ) : Type 0 where
  pub chain : Chain q.next q.head_node xs
  pub distinct : Distinct xs
  pub tail : q.tail_node ≡ last xs

-- The next fields agree but at the nodes of the list.
abbrev pub SameOutside : List ℕ → (ℕ → ℕ) → (ℕ → ℕ) → Type 0
SameOutside xs next next' = (a : ℕ) → has a xs ≡ false → next' a ≡ next a

-- The first node is removed.
abbrev pub erase : ℕ → List ℕ → List ℕ
erase a [] = []
erase a (x ∷ xs) = if a == x then xs else x ∷ erase a xs

-- A chain is read through its own nodes alone.
pub Chain-frame :
    (next next' : ℕ → ℕ) (p : ℕ) (xs : List ℕ)
    → ((a : ℕ) → has a xs ≡ true → next' a ≡ next a)
    → Chain next p xs
    → Chain next' p xs
Chain-frame next next' p [] same chain = chain
Chain-frame next next' p (x ∷ xs) same (at, some_node, chain) = (
  at,
  some_node,
  rw (same x (ground arith))
      (Chain-frame next next' (next x) xs (λ a h. same a (ground arith)) chain),
)

pub Chain-write :
    (next : ℕ → ℕ) (p node value : ℕ) (xs : List ℕ)
    → has node xs ≡ false
    → Chain next p xs
    → Chain (write next node value) p xs
Chain-write next p node value [] out chain = chain
Chain-write next p node value (x ∷ xs) out (at, some_node, chain) =
    (at, some_node, ground (arith, Chain-write next (next x) node value xs))

pub last-has : (x : ℕ) (xs : List ℕ) → has (last (x ∷ xs)) (x ∷ xs) ≡ true
last-has x [] = ground arith
last-has x (y ∷ xs) = ground (arith, last-has y xs)

pub last-ne_zero :
    (next : ℕ → ℕ) (p x : ℕ) (xs : List ℕ) → Chain next p (x ∷ xs) → last (x ∷ xs) ≢ 0
last-ne_zero next p x [] (at, some_node, chain) = some_node
last-ne_zero next p x (y ∷ xs) (at, some_node, chain) = last-ne_zero next (next x) y xs chain

pub last-append : (xs : List ℕ) (a : ℕ) → last (xs ++ a ∷ []) ≡ a
last-append [] a = refl
last-append (x ∷ []) a = refl
last-append (x ∷ y ∷ xs) a = last-append (y ∷ xs) a

pub has-append : (a b : ℕ) (xs : List ℕ) → has a (xs ++ b ∷ []) ≡ (has a xs || a == b)
has-append a b [] = ground arith
has-append a b (x ∷ xs) = ground (arith, has-append a b xs)

pub Distinct-append :
    (xs : List ℕ) (a : ℕ) → Distinct xs → has a xs ≡ false → Distinct (xs ++ a ∷ [])
Distinct-append [] a d out = (refl, tt)
Distinct-append (x ∷ xs) a (fresh, d) out =
    (ground (arith, has-append x a xs), Distinct-append xs a d (ground arith))
