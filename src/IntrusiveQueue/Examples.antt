-- ===== src/IntrusiveQueue/Examples.antt =====
-- A queue of the nodes 8, 16 and 24, and the theorems at it.
use twisted_os_v.Common.{ℕ, ◌≡◌, refl, true, [], ◌∷◌, some, arith, ◌==◌, if◌then◌else◌}
use twisted_os_v.IntrusiveQueue.{
  IntrusiveQueue, push_back, pop_front, remove, find_first, rotate_front_to_back, clear_and_delete,
}
use twisted_os_v.IntrusiveQueue.Chain.{IsQueue, SameOutside}
use twisted_os_v.IntrusiveQueue.Push.{
  push_back-IsQueue, pop_front-IsQueue, rotate_front_to_back-IsQueue, clear_and_delete-IsQueue,
}
use twisted_os_v.IntrusiveQueue.Remove.{remove-IsQueue}
use twisted_os_v.IntrusiveQueue.Find.{find_first-first_passing}

abbrev next_fields : ℕ → ℕ
next_fields a = if a == 8 then 16 else if a == 16 then 24 else 0

abbrev three : IntrusiveQueue
three = record { head_node = 8; tail_node = 24; next = next_fields }

three-IsQueue : IsQueue three (8 ∷ 16 ∷ 24 ∷ [])
three-IsQueue = record {
  chain = (refl, omega arith, (refl, omega arith, (refl, omega arith, refl)));
  distinct = (refl, (refl, (refl, tt)));
  tail = refl;
}

push_back-IsQueue_example :
    IsQueue (push_back three 32) (8 ∷ 16 ∷ 24 ∷ 32 ∷ [])
    × SameOutside (24 ∷ 32 ∷ []) three.next (push_back three 32).next
push_back-IsQueue_example =
    push_back-IsQueue three 32 (8 ∷ 16 ∷ 24 ∷ []) three-IsQueue (omega arith) refl

pop_front-IsQueue_example :
    ((pop_front three).0 ≡ 8)
    × IsQueue (pop_front three).1 (16 ∷ 24 ∷ [])
    × ((pop_front three).1.next 8 ≡ 0)
    × SameOutside (8 ∷ []) three.next (pop_front three).1.next
pop_front-IsQueue_example = pop_front-IsQueue three 8 (16 ∷ 24 ∷ []) three-IsQueue

remove-IsQueue_example :
    (q : IntrusiveQueue) × (remove 5 three 16 ≡ some (true, q)) × IsQueue q (8 ∷ 24 ∷ [])
remove-IsQueue_example = remove-IsQueue 5 three 16 (8 ∷ 16 ∷ 24 ∷ []) three-IsQueue (omega arith)

rotate_front_to_back-IsQueue_example : IsQueue (rotate_front_to_back three) (16 ∷ 24 ∷ 8 ∷ [])
rotate_front_to_back-IsQueue_example =
    rotate_front_to_back-IsQueue three 8 (16 ∷ 24 ∷ []) three-IsQueue

clear_and_delete-IsQueue_example :
    (q : IntrusiveQueue) × (clear_and_delete 4 three ≡ some (8 ∷ 16 ∷ 24 ∷ [], q)) × IsQueue q []
clear_and_delete-IsQueue_example =
    clear_and_delete-IsQueue 4 three (8 ∷ 16 ∷ 24 ∷ []) three-IsQueue (omega arith)

find_first-first_passing_example : find_first 4 next_fields (λ a. a == 24) 8 ≡ some 24
find_first-first_passing_example =
    find_first-first_passing 4 next_fields (λ a. a == 24) 8 (8 ∷ 16 ∷ 24 ∷ []) three-IsQueue.chain
      (omega arith)
