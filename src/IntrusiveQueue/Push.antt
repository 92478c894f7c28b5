-- ===== src/IntrusiveQueue/Push.antt =====
-- PushBack, PopFront, RotateFrontToBack and ClearAndDelete of IntrusiveQueue.hpp, on lists.
use twisted_os_v.Common.{
  ℕ, zero, suc, ◌<◌, ◌≡◌, ◌≢◌, refl, sym, true, false, List, [], ◌∷◌, ◌++◌, some, arith, ◌==◌,
  if◌then◌else◌, length,
}
use twisted_os_v.IntrusiveQueue.{
  IntrusiveQueue, write, is_empty, push_back, pop_front, rotate_front_to_back, clear_and_delete,
}
use twisted_os_v.IntrusiveQueue.Chain.{
  Chain, has, Distinct, last, IsQueue, SameOutside, Chain-write, last-has, last-ne_zero,
  last-append, Distinct-append,
}

-- A node linked behind the last one.
Chain-link :
    (next : ℕ → ℕ) (p x node : ℕ) (xs : List ℕ)
    → Chain next p (x ∷ xs)
    → Distinct (x ∷ xs)
    → has node (x ∷ xs) ≡ false
    → node ≢ 0
    → Chain (write (write next node 0) (last (x ∷ xs)) node) p (x ∷ xs ++ node ∷ [])
Chain-link next p x node [] (at, some_node, end) distinct out nonzero =
    (at, some_node, (ground arith, nonzero, ground arith))
Chain-link next p x node (y ∷ xs) (at, some_node, chain) (fresh, distinct) out nonzero =
    let tail = last (y ∷ xs) in
    (
      at,
      some_node,
      let kept : write (write next node 0) tail node x ≡ next x = ground (arith, last-has y xs) in
          rw kept (Chain-link next (next x) y node xs chain distinct (ground arith) nonzero),
    )

-- PushBack on a queue that is not empty.
push_back-linked :
    (q : IntrusiveQueue) (node x : ℕ) (xs : List ℕ)
    → IsQueue q (x ∷ xs)
    → node ≢ 0
    → push_back q node
      ≡ record q { tail_node = node; next = write (write q.next node 0) (last (x ∷ xs)) node }
unfolding push_back
push_back-linked q node x xs is nonzero =
    let some_node : (node == 0) ≡ false = ground arith in
    let some_tail : (q.tail_node == 0) ≡ false =
      ground (arith, is.tail, last-ne_zero q.next q.head_node x xs is.chain) in
    rw (some_node, some_tail)
      λ i. record q { tail_node = node; next = write (write q.next node 0) (is.tail i) node }

-- PushBack of a node that is in no queue puts it at the end, and writes the next field of that
-- node and of the last one alone.
pub push_back-IsQueue :
    (q : IntrusiveQueue) (node : ℕ) (xs : List ℕ)
    → IsQueue q xs
    → node ≢ 0
    → has node xs ≡ false
    → IsQueue (push_back q node) (xs ++ node ∷ [])
      × SameOutside (last xs ∷ node ∷ []) q.next (push_back q node).next
unfolding push_back
push_back-IsQueue q node [] is nonzero out =
    let some_node : (node == 0) ≡ false = ground arith in
    let no_tail : (q.tail_node == 0) ≡ true = ground (arith, is.tail) in
    rw (some_node, no_tail)
      (
        record { chain = (refl, nonzero, ground arith); distinct = (refl, tt); tail = refl },
        λ a h. ground arith,
      )
push_back-IsQueue q node (x ∷ xs) is nonzero out = rw (push_back-linked q node x xs is nonzero) (
  record {
    chain = Chain-link q.next q.head_node x node xs is.chain is.distinct out nonzero;
    distinct = Distinct-append (x ∷ xs) node is.distinct out;
    tail = sym (last-append (x ∷ xs) node);
  },
  λ a h. ground (arith, h),
)

popped_tail :
    (q : IntrusiveQueue) (x : ℕ) (xs : List ℕ)
    → IsQueue q (x ∷ xs)
    → (if q.next x == 0 then 0 else q.tail_node) ≡ last xs
popped_tail q x [] is = ground (arith, is.chain)
popped_tail q x (y ∷ xs) is = ground (arith, is.chain, is.tail)

-- PopFront of the empty queue returns nullptr and leaves the queue alone.
pub pop_front-empty : (q : IntrusiveQueue) → IsQueue q [] → pop_front q ≡ (0, q)
unfolding pop_front
pop_front-empty q is = ground (arith, is.chain)

-- PopFront of a queue with a node returns the first node, takes it off the queue, clears its next
-- field and writes no other.
pub pop_front-IsQueue :
    (q : IntrusiveQueue) (x : ℕ) (xs : List ℕ)
    → IsQueue q (x ∷ xs)
    → ((pop_front q).0 ≡ x)
      × IsQueue (pop_front q).1 xs
      × ((pop_front q).1.next x ≡ 0)
      × SameOutside (x ∷ []) q.next (pop_front q).1.next
unfolding pop_front
pop_front-IsQueue q x xs is =
    let (at, some_node, chain) = is.chain in
    let (fresh, distinct) = is.distinct in
    let nonzero : (x == 0) ≡ false = ground arith in
    rw (at, nonzero)
      (
        refl,
        record {
          chain = Chain-write q.next (q.next x) x 0 xs fresh chain;
          distinct = distinct;
          tail = popped_tail q x xs is;
        },
        ground arith,
        λ a h. ground (arith, h),
      )

-- RotateFrontToBack moves the first node to the end.
pub rotate_front_to_back-IsQueue :
    (q : IntrusiveQueue) (x : ℕ) (xs : List ℕ)
    → IsQueue q (x ∷ xs)
    → IsQueue (rotate_front_to_back q) (xs ++ x ∷ [])
unfolding rotate_front_to_back
rotate_front_to_back-IsQueue q x [] is =
    let alone : (q.head_node == q.tail_node) ≡ true = ground (arith, is.chain, is.tail) in
    let some_head : (q.head_node == 0) ≡ false = ground (arith, is.chain) in
    rw (some_head, alone) is
rotate_front_to_back-IsQueue q x (y ∷ xs) is =
    let more : (q.head_node == q.tail_node) ≡ false =
      ground (arith, is.chain, is.tail, is.distinct.0, last-has y xs) in
    let some_head : (q.head_node == 0) ≡ false = ground (arith, is.chain) in
    let (popped, rest, _, _) = pop_front-IsQueue q x (y ∷ xs) is in
    rw (some_head, more, popped)
      (push_back-IsQueue (pop_front q).1 x (y ∷ xs) rest is.chain.1 is.distinct.0).0

-- ClearAndDelete deletes every node, from the first on, and leaves the queue empty.
pub clear_and_delete-IsQueue :
    (fuel : ℕ) (q : IntrusiveQueue) (xs : List ℕ)
    → IsQueue q xs
    → length xs < fuel
    → (q' : IntrusiveQueue) × (clear_and_delete fuel q ≡ some (xs, q')) × IsQueue q' []
unfolding clear_and_delete is_empty
clear_and_delete-IsQueue zero q xs is enough = absurd (omega arith)
clear_and_delete-IsQueue (suc fuel) q [] is enough =
    let stop : (q.head_node == 0) ≡ true = ground (arith, is.chain) in (q, rw stop, is)
clear_and_delete-IsQueue (suc fuel) q (x ∷ xs) is enough =
    let go : (q.head_node == 0) ≡ false = ground (arith, is.chain) in
    let (popped, rest, _, _) = pop_front-IsQueue q x xs is in
    let (q', done, empty) = clear_and_delete-IsQueue fuel (pop_front q).1 xs rest (omega arith) in
    (q', rw (go, done, popped), empty)
