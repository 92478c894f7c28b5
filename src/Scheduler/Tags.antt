-- ===== src/Scheduler/Tags.antt =====
-- What the scheduler of Scheduler.cpp keeps: the nodes of its ready queue and the selected one.
use twisted_os_v.Common.{ℕ, ◌≡◌, ◌≢◌, refl, true, false, List, [], ◌∷◌, ◌⊎◌, arith, ◌==◌}
use twisted_os_v.IntrusiveQueue.{IntrusiveQueue}
use twisted_os_v.IntrusiveQueue.Chain.{IsQueue, has, erase}
use twisted_os_v.Scheduler.{Scheduler}

-- The ready queue holds the nodes `tags` in this order, and the selected node is nullptr or one of
-- them, never a node that is deleted.
pub record IsScheduler (s : Scheduler) (tags : List ℕ) : Type 0 where
  pub queue : IsQueue s.ready_queue tags
  pub current : (s.current_process ≡ 0) ⊎ (has s.current_process tags ≡ true)

-- The first node, or nullptr.
abbrev pub first : List ℕ → ℕ
first [] = 0
first (x ∷ xs) = x

pub first-head : (q : IntrusiveQueue) (xs : List ℕ) → IsQueue q xs → q.head_node ≡ first xs
first-head q [] is = is.chain
first-head q (x ∷ xs) is = is.chain.0

pub has-first : (x : ℕ) (xs : List ℕ) → has (first (x ∷ xs)) (x ∷ xs) ≡ true
has-first x xs = ground arith

pub has-erase : (a b : ℕ) (xs : List ℕ) → a ≢ b → has a (erase b xs) ≡ has a xs
has-erase a b [] apart = refl
has-erase a b (x ∷ xs) apart = ground (arith, has-erase a b xs apart)

pub erase-absent : (b : ℕ) (xs : List ℕ) → has b xs ≡ false → erase b xs ≡ xs
erase-absent b [] out = refl
erase-absent b (x ∷ xs) out =
    let apart : (b == x) ≡ false = ground arith in
    let absent : has b xs ≡ false = ground arith in rw (apart, erase-absent b xs absent)
