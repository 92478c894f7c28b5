-- ===== src/IntrusiveQueue/Find.antt =====
-- FindFirst of IntrusiveQueue.hpp, on lists.
use twisted_os_v.Common.{
  ℕ, zero, suc, ◌<◌, ◌≡◌, Bool, List, [], ◌∷◌, some, arith, ◌==◌, if◌then◌else◌, Bool-cases, inl,
  inr, length,
}
use twisted_os_v.IntrusiveQueue.{find_first}
use twisted_os_v.IntrusiveQueue.Chain.{Chain}

-- The first node of the list that passes the test, or nullptr.
abbrev pub first_passing : (ℕ → Bool) → List ℕ → ℕ
first_passing test [] = 0
first_passing test (x ∷ xs) = if test x then x else first_passing test xs

-- With fuel for more rounds than there are nodes, FindFirst returns the first node that has the
-- value, or nullptr if none has.
pub find_first-first_passing :
    (fuel : ℕ) (next : ℕ → ℕ) (test : ℕ → Bool) (p : ℕ) (xs : List ℕ)
    → Chain next p xs
    → length xs < fuel
    → find_first fuel next test p ≡ some (first_passing test xs)
unfolding find_first
find_first-first_passing zero next test p xs chain enough = absurd (omega arith)
find_first-first_passing (suc fuel) next test p [] chain enough = rw chain
find_first-first_passing (suc fuel) next test p (x ∷ xs) (at, some_node, chain) enough =
    let nonzero : (x == 0) ≡ Bool.false = ground arith in
    let further = find_first-first_passing fuel next test (next x) xs chain (omega arith) in
    elim (Bool-cases (test x)) [
      | inl passes ↦ rw (at, nonzero, passes)
      | inr fails ↦ rw (at, nonzero, fails) further
    ]
