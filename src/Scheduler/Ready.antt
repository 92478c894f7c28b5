-- ===== src/Scheduler/Ready.antt =====
-- AddToReadyQueue, RemoveFromReadyQueue and SelectNextProcess of Scheduler.cpp, on the list of nodes.
use twisted_os_v.Common.{
  ℕ, ap, sym, subst, ◌∙◌, ◌<◌, ◌≡◌, ◌≢◌, refl, true, false, not, ◌&&◌, List, [], ◌∷◌, ◌++◌, ◌⊎◌,
  inl, inr, some, arith, ◌==◌, if◌then◌else◌, Bool-cases, ==_iff, length,
}
use twisted_os_v.IntrusiveQueue.{IntrusiveQueue, write, is_empty, rotate_front_to_back}
use twisted_os_v.IntrusiveQueue.Chain.{IsQueue, Chain, Chain-write, has, erase}
use twisted_os_v.IntrusiveQueue.Push.{push_back-IsQueue, rotate_front_to_back-IsQueue}
use twisted_os_v.IntrusiveQueue.Remove.{remove-IsQueue, has-zero}
use twisted_os_v.IntrusiveQueue.Find.{first_passing, find_first-first_passing}
use twisted_os_v.Process.{process_id_invalid}
use twisted_os_v.Scheduler.{
  Scheduler, add_to_ready_queue, current_after_remove, remove_from_ready_queue, select_next_process,
}
use twisted_os_v.Scheduler.Tags.{IsScheduler, first, first-head, has-first, has-erase, erase-absent}
use twisted_os_v.IntrusiveQueue.Chain.{has-append}

-- AddToReadyQueue with a new node puts it behind all others with the process id, keeps the ids of
-- the others and the selected node.
pub add_to_ready_queue-IsScheduler :
    (s : Scheduler) (new_tag process_id : ℕ) (tags : List ℕ)
    → IsScheduler s tags
    → new_tag ≢ 0
    → has new_tag tags ≡ false
    → IsScheduler (add_to_ready_queue s new_tag process_id) (tags ++ new_tag ∷ [])
      × ((add_to_ready_queue s new_tag process_id).id new_tag ≡ process_id)
      × ((a : ℕ) → a ≢ new_tag → (add_to_ready_queue s new_tag process_id).id a ≡ s.id a)
      × ((add_to_ready_queue s new_tag process_id).current_process ≡ s.current_process)
unfolding add_to_ready_queue
add_to_ready_queue-IsScheduler s new_tag process_id tags is nonzero out =
    let some_node : (new_tag == 0) ≡ false = ground arith in
    let q = s.ready_queue in
    let fresh : IsQueue (record q { next = write q.next new_tag 0 }) tags = record {
      chain = Chain-write q.next q.head_node new_tag 0 tags out is.queue.chain;
      distinct = is.queue.distinct;
      tail = is.queue.tail;
    } in
    rw some_node (
      record {
        queue =
            (push_back-IsQueue (record q { next = write q.next new_tag 0 }) new_tag tags fresh
              nonzero out).0;
        current = elim is.current [
          | inl null ↦ inl null
          | inr member ↦ inr (ground (arith, has-append s.current_process new_tag tags, member))
        ];
      },
      ground arith,
      λ a apart. ground arith,
      refl,
    )

-- The node that RemoveFromReadyQueue leaves selected is nullptr or still queued.
pub current_after_remove-queued :
    (q : IntrusiveQueue) (current node next : ℕ) (ys : List ℕ)
    → IsQueue q ys
    → (current ≢ node → (current ≡ 0) ⊎ (has current ys ≡ true))
    → (current_after_remove q current node next ≡ 0)
      ⊎ (has (current_after_remove q current node next) ys ≡ true)
unfolding current_after_remove is_empty
current_after_remove-queued q current node next [] is queued =
    let empty : (q.head_node == 0) ≡ true = ground (arith, is.chain) in inl (rw empty)
current_after_remove-queued q current node next (y ∷ ys) is queued =
    let (at, nonzero, _) = is.chain in
    let filled : (q.head_node == 0) ≡ false = ground arith in
    let queued_at : (c : ℕ)
        → current_after_remove q current node next ≡ c
        → (c ≡ 0) ⊎ (has c (y ∷ ys) ≡ true)
        → (current_after_remove q current node next ≡ 0)
          ⊎ (has (current_after_remove q current node next) (y ∷ ys) ≡ true) =
      λ c e. subst (λ c. (c ≡ 0) ⊎ (has c (y ∷ ys) ≡ true)) (sym e) in
    elim (Bool-cases (current == node)) [
      | inl same ↦ elim (Bool-cases (next == 0)) [
        | inl none_next ↦
            queued_at q.head_node (rw (filled, same, none_next)) (inr (ground (arith, at)))
        | inr some_next ↦ queued_at 0 (rw (filled, same, some_next)) (inl refl)
      ]
      | inr other ↦ queued_at current (rw (filled, other)) (queued (ground arith))
    ]

-- A selected node that is not removed stays selected.
pub current_after_remove-kept :
    (q : IntrusiveQueue) (current node next : ℕ) (ys : List ℕ)
    → IsQueue q ys
    → (current ≡ 0) ⊎ (has current ys ≡ true)
    → current ≢ node
    → current_after_remove q current node next ≡ current
unfolding current_after_remove is_empty
current_after_remove-kept q current node next [] is (inl null) apart = ground (arith, is.chain)
current_after_remove-kept q current node next [] is (inr queued) apart = absurd (ground arith)
current_after_remove-kept q current node next (y ∷ ys) is queued apart =
    let (at, nonzero, _) = is.chain in
    let filled : (q.head_node == 0) ≡ false = ground arith in
    let other : (current == node) ≡ false = ground arith in rw (filled, other)

-- RemoveFromReadyQueue removes the first node with the process id and says whether there is one; the
-- selected node stays selected unless it is the removed one.
pub remove_from_ready_queue-IsScheduler :
    (fuel : ℕ) (s : Scheduler) (process_id : ℕ) (tags : List ℕ)
    → IsScheduler s tags
    → length tags < fuel
    → (s' : Scheduler) × (remove_from_ready_queue fuel s process_id
        ≡ some (not (first_passing (λ a. s.id a == process_id) tags == 0), s'))
      × IsScheduler s' (erase (first_passing (λ a. s.id a == process_id) tags) tags)
      × (s'.id ≡ s.id)
      × (s.current_process ≢ first_passing (λ a. s.id a == process_id) tags
          → s'.current_process ≡ s.current_process)
unfolding remove_from_ready_queue
remove_from_ready_queue-IsScheduler fuel s process_id tags is enough =
    let q = s.ready_queue in
    let node = first_passing (λ a. s.id a == process_id) tags in
    let found =
      find_first-first_passing fuel q.next (λ a. s.id a == process_id) q.head_node tags
        is.queue.chain enough in
    let (q', removed, is') = remove-IsQueue fuel q node tags is.queue enough in
    let queued : s.current_process ≢ node
        → (s.current_process ≡ 0) ⊎ (has s.current_process (erase node tags) ≡ true) =
      λ apart. elim is.current [
        | inl null ↦ inl null
        | inr member ↦ inr (has-erase s.current_process node tags apart ∙ member)
      ] in
    elim (Bool-cases (node == 0)) [
      | inl null ↦ (
        s,
        rw (remove_from_ready_queue, found, null),
        let same = erase-absent node tags (
              subst (λ n. has n tags ≡ false) (sym ((==_iff node 0).0 null))
                (has-zero q.next q.head_node tags is.queue.chain)) in
            subst (IsScheduler s) (sym same) is,
        refl,
        λ apart. refl,
      )
      | inr some_node ↦ (
        record s {
          ready_queue = q';
          current_process = current_after_remove q' s.current_process node (q.next node);
        },
        rw (remove_from_ready_queue, found, some_node, removed),
        record {
          queue = is';
          current =
              current_after_remove-queued q' s.current_process node (q.next node) (erase node tags)
                is' queued;
        },
        refl,
        λ apart.
            current_after_remove-kept q' s.current_process node (q.next node) (erase node tags) is'
              (queued apart) apart,
      )
    ]

-- What the next selection makes of the queue: the first node goes behind the others once a node is
-- selected.
abbrev pub rotated : ℕ → List ℕ → List ℕ
rotated current [] = []
rotated current (x ∷ xs) = if current == 0 then x ∷ xs else xs ++ x ∷ []

abbrev pub id_of : (ℕ → ℕ) → List ℕ → ℕ
id_of id [] = process_id_invalid
id_of id (x ∷ xs) = id x

has-first_append : (x : ℕ) (xs : List ℕ) → has (first (xs ++ x ∷ [])) (xs ++ x ∷ []) ≡ true
has-first_append x [] = has-first x []
has-first_append x (y ∷ xs) = has-first y (xs ++ x ∷ [])

id_of-first :
    (id : ℕ → ℕ) (x : ℕ) (xs : List ℕ) → id_of id (xs ++ x ∷ []) ≡ id (first (xs ++ x ∷ []))
id_of-first id x [] = refl
id_of-first id x (y ∷ xs) = refl

single : (next : ℕ → ℕ) (p : ℕ) (xs : List ℕ) → Chain next p xs → p ≡ 0 → xs ≡ []
single next p [] chain null = refl
single next p (x ∷ xs) (at, nonzero, chain) null = absurd (ground arith)

-- SelectNextProcess takes the first node of the queue, which it rotates before if a node is selected
-- already, selects it and returns its id, or 0xFF for an empty queue.
pub select_next_process-IsScheduler :
    (s : Scheduler) (tags : List ℕ)
    → IsScheduler s tags
    → IsScheduler (select_next_process s).1 (rotated s.current_process tags)
      × ((select_next_process s).1.current_process ≡ first (rotated s.current_process tags))
      × ((select_next_process s).0 ≡ id_of s.id (rotated s.current_process tags))
      × ((select_next_process s).1.id ≡ s.id)
unfolding select_next_process is_empty
select_next_process-IsScheduler s [] is =
    let empty : (s.ready_queue.head_node == 0) ≡ true = ground (arith, is.queue.chain) in
    let null : s.current_process ≡ 0 = elim is.current [
      | inl e ↦ e
      | inr e ↦ absurd (ground arith)
    ] in
    rw empty (is, null, refl, refl)
select_next_process-IsScheduler s (x ∷ xs) is =
    let (at, nonzero, chain) = is.queue.chain in
    let filled : (s.ready_queue.head_node == 0) ≡ false = ground arith in
    let q = s.ready_queue in
    elim (Bool-cases (s.current_process == 0)) [
      | inl none_yet ↦
          rw (filled, none_yet)
            (record { queue = is.queue; current = inr (ground (arith, at)) }, at, ap s.id at, refl)
      | inr selected ↦
          elim (Bool-cases (q.head_node == s.current_process && q.next s.current_process == 0)) [
            | inl alone ↦
                rw (filled, selected, alone)
                  (let e : q.head_node ≡ s.current_process = ground arith in
                    let alone_xs = single q.next (q.next x) xs chain (ground (arith, at, e)) in
                    subst
                      (λ ys.
                        IsScheduler s (ys ++ x ∷ [])
                        × (s.current_process ≡ first (ys ++ x ∷ []))
                        × (s.id s.current_process ≡ id_of s.id (ys ++ x ∷ []))
                        × (s.id ≡ s.id))
                      (sym alone_xs)
                      (
                        subst (IsScheduler s) (ap (λ ys. x ∷ ys) alone_xs) is,
                        sym e ∙ at,
                        ap s.id (sym e ∙ at),
                        refl,
                      ))
            | inr more ↦
                rw (filled, selected, more)
                  (let is' = rotate_front_to_back-IsQueue q x xs is.queue in
                    let head = first-head (rotate_front_to_back q) (xs ++ x ∷ []) is' in
                    (
                      record { queue = is'; current = inr rw head (has-first_append x xs) },
                      head,
                      ap s.id head ∙ sym (id_of-first s.id x xs),
                      refl,
                    ))
          ]
    ]
