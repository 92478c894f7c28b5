-- ===== src/IntrusiveQueue/Remove.antt =====
-- Remove of IntrusiveQueue.hpp, on lists.
use twisted_os_v.Common.{
  ℕ, zero, suc, ◌<◌, ◌≡◌, ◌≢◌, refl, sym, ap, true, false, List, [], ◌∷◌, some, arith, ◌==◌,
  if◌then◌else◌, Bool-cases, inl, inr, length, ==_iff, subst,
}
use twisted_os_v.IntrusiveQueue.{IntrusiveQueue, write, pop_front, find_previous, unlink, remove}
use twisted_os_v.IntrusiveQueue.Chain.{
  Chain, has, Distinct, last, IsQueue, erase, Chain-write, last-has,
}
use twisted_os_v.IntrusiveQueue.Push.{pop_front-IsQueue}

-- The node before `node` in `x ∷ xs`, or nullptr.
abbrev predecessor : ℕ → ℕ → List ℕ → ℕ
predecessor node x [] = 0
predecessor node x (y ∷ xs) = if y == node then x else predecessor node y xs

find_previous-predecessor :
    (fuel : ℕ) (next : ℕ → ℕ) (p node x : ℕ) (xs : List ℕ)
    → Chain next p (x ∷ xs)
    → node ≢ 0
    → length (x ∷ xs) < fuel
    → find_previous fuel next p node ≡ some (predecessor node x xs)
unfolding find_previous
find_previous-predecessor zero next p node x xs chain nonzero enough = absurd (omega arith)
find_previous-predecessor (suc zero) next p node x xs chain nonzero enough = absurd (omega arith)
find_previous-predecessor (suc (suc fuel)) next p node x [] (at, some_node, end) nonzero enough =
    ground arith
find_previous-predecessor (suc (suc fuel)) next p node x (y ∷ xs) (at, some_node, chain) nonzero
      enough =
    ground (
      arith,
      chain,
      find_previous-predecessor (suc fuel) next (next x) node y xs chain nonzero (omega arith),
    )

predecessor-has :
    (node x : ℕ) (xs : List ℕ) → has node xs ≡ true → has (predecessor node x xs) (x ∷ xs) ≡ true
predecessor-has node x [] h = cc
predecessor-has node x (y ∷ xs) h = ground (arith, predecessor-has node y xs)

predecessor-missing : (node x : ℕ) (xs : List ℕ) → has node xs ≡ false → predecessor node x xs ≡ 0
predecessor-missing node x [] h = refl
predecessor-missing node x (y ∷ xs) h = ground (arith, predecessor-missing node y xs)

Chain-has_nonzero :
    (next : ℕ → ℕ) (p a : ℕ) (xs : List ℕ) → Chain next p xs → has a xs ≡ true → a ≢ 0
Chain-has_nonzero next p a [] chain h = cc
Chain-has_nonzero next p a (x ∷ xs) chain h =
    ground (arith, Chain-has_nonzero next (next x) a xs chain.2)

-- The node is bypassed.
Chain-unlink :
    (next : ℕ → ℕ) (p node x previous : ℕ) (xs : List ℕ)
    → previous ≡ predecessor node x xs
    → Chain next p (x ∷ xs)
    → Distinct (x ∷ xs)
    → has node xs ≡ true
    → Chain (write (write next previous (next node)) node 0) p (x ∷ erase node xs)
Chain-unlink next p node x previous [] before chain distinct h = cc
Chain-unlink next p node x previous (y ∷ xs) before (at, some_node, chain) (fresh, distinct) h =
    elim (Bool-cases (node == y)) [
      | inl here ↦
          let e : node ≡ y = (==_iff node y).0 here in
          let first : previous ≡ x = ground (arith, before) in
          let value : write (write next previous (next node)) node 0 x ≡ next y =
            ground (arith, ap next e) in
          let out : has node xs ≡ false = rw e distinct.0 in
          let skipped : has previous xs ≡ false = rw first (ground arith) in
          rw here (
            at,
            some_node,
            rw value (
                Chain-write (write next previous (next node)) (next y) node 0 xs out
                  (Chain-write next (next y) previous (next node) xs skipped chain.2)),
          )
      | inr later ↦
          let further : has node xs ≡ true = ground arith in
          let before' : previous ≡ predecessor node y xs = ground (arith, before) in
          let kept : write (write next previous (next node)) node 0 x ≡ next x =
            ground (arith, before', predecessor-has node y xs further) in
          rw later (
            at,
            some_node,
            rw kept (Chain-unlink next (next x) node y previous xs before' chain distinct further),
          )
    ]

last-unlink_next :
    (x y : ℕ) (xs : List ℕ)
    → Distinct (x ∷ y ∷ xs)
    → last (x ∷ xs) ≡ (if last (y ∷ xs) == y then predecessor y x (y ∷ xs) else last (y ∷ xs))
last-unlink_next x y [] distinct = ground arith
last-unlink_next x y (z ∷ xs) distinct = ground (arith, last-has z xs)

last-unlink :
    (node x : ℕ) (xs : List ℕ)
    → Distinct (x ∷ xs)
    → has node xs ≡ true
    → last (x ∷ erase node xs)
      ≡ (if last (x ∷ xs) == node then predecessor node x xs else last (x ∷ xs))
last-unlink node x [] distinct h = cc
last-unlink node x (y ∷ xs) distinct h = elim (Bool-cases (node == y)) [
  | inl here ↦ rw here (ground (arith, last-unlink_next x y xs distinct))
  | inr later ↦
      let back : (y == node) ≡ false = ground arith in
      rw (later, back) (last-unlink node y xs distinct.1 (ground arith))
]

has-erase : (a node : ℕ) (xs : List ℕ) → has a xs ≡ false → has a (erase node xs) ≡ false
has-erase a node [] h = refl
has-erase a node (x ∷ xs) h = ground (arith, has-erase a node xs)

Distinct-erase : (node : ℕ) (xs : List ℕ) → Distinct xs → Distinct (erase node xs)
Distinct-erase node [] d = d
Distinct-erase node (x ∷ xs) (fresh, d) = elim (Bool-cases (node == x)) [
  | inl here ↦ rw here d
  | inr later ↦ rw later (has-erase x node xs fresh, Distinct-erase node xs d)
]

-- Removing a node that is not the first one.
unlink-IsQueue :
    (q : IntrusiveQueue) (node x : ℕ) (xs : List ℕ)
    → IsQueue q (x ∷ xs)
    → has node xs ≡ true
    → IsQueue
        (record q {
          tail_node = if q.tail_node == node then predecessor node x xs else q.tail_node;
          next = write (write q.next (predecessor node x xs) (q.next node)) node 0;
        })
        (x ∷ erase node xs)
unlink-IsQueue q node x xs is h = record {
  chain = Chain-unlink q.next q.head_node node x _ xs refl is.chain is.distinct h;
  distinct = (has-erase x node xs is.distinct.0, Distinct-erase node xs is.distinct.1);
  tail = ground (arith, is.tail, last-unlink node x xs is.distinct h);
}

erase-missing : (node : ℕ) (xs : List ℕ) → has node xs ≡ false → erase node xs ≡ xs
erase-missing node [] h = refl
erase-missing node (x ∷ xs) h = ground (arith, erase-missing node xs)

pub has-zero : (next : ℕ → ℕ) (p : ℕ) (xs : List ℕ) → Chain next p xs → has 0 xs ≡ false
has-zero next p [] chain = refl
has-zero next p (x ∷ xs) chain = ground (arith, has-zero next (next x) xs chain.2)

-- What Remove does behind its loop, for a node that is not the first one.
unlink_lem :
    (q : IntrusiveQueue) (node x : ℕ) (xs : List ℕ)
    → IsQueue q (x ∷ xs)
    → (q' : IntrusiveQueue) × (unlink q (predecessor node x xs) node ≡ (has node xs, q'))
      × IsQueue q' (x ∷ erase node xs)
unfolding unlink
unlink_lem q node x xs is =
    let previous = predecessor node x xs in
    elim (Bool-cases (has node xs)) [
      | inl there ↦
          let some_previous : (previous == 0) ≡ false = ground (
            arith,
            Chain-has_nonzero q.next q.head_node previous (x ∷ xs) is.chain
                (predecessor-has node x xs there),
          ) in
          (
            record q {
              tail_node = if q.tail_node == node then previous else q.tail_node;
              next = write (write q.next previous (q.next node)) node 0;
            },
            rw (some_previous, there),
            unlink-IsQueue q node x xs is there,
          )
      | inr missing ↦
          let no_previous : (previous == 0) ≡ true =
            ground (arith, predecessor-missing node x xs missing) in
          (q, rw (no_previous, missing), rw (erase-missing node xs missing) is)
    ]

-- Remove on a queue that is not empty, for a node that is not nullptr.
removed_node :
    (fuel : ℕ) (q : IntrusiveQueue) (node x : ℕ) (xs : List ℕ)
    → IsQueue q (x ∷ xs)
    → length (x ∷ xs) < fuel
    → node ≢ 0
    → (q' : IntrusiveQueue) × (remove fuel q node ≡ some (has node (x ∷ xs), q'))
      × IsQueue q' (erase node (x ∷ xs))
unfolding remove
removed_node fuel q node x xs is enough nonzero =
    let some_node : (node == 0) ≡ false = ground arith in
    let some_head : (q.head_node == 0) ≡ false = ground (arith, is.chain) in
    elim (Bool-cases (node == x)) [
      | inl first ↦
          let at_head : (q.head_node == node) ≡ true = ground (arith, is.chain) in
          let (_, popped, _, _) = pop_front-IsQueue q x xs is in
          ((pop_front q).1, rw (some_node, some_head, at_head, first), rw first popped)
      | inr later ↦
          let behind : (q.head_node == node) ≡ false = ground (arith, is.chain) in
          let found =
            find_previous-predecessor fuel q.next q.head_node node x xs is.chain nonzero enough in
          let (q', unlinked, is') = unlink_lem q node x xs is in
          (q', rw (some_node, some_head, behind, found, unlinked, later), rw later is')
    ]

-- With fuel for more rounds than there are nodes, Remove returns; it says whether the node was in
-- the queue, takes it out if it was, and keeps the order of the others.
pub remove-IsQueue :
    (fuel : ℕ) (q : IntrusiveQueue) (node : ℕ) (xs : List ℕ)
    → IsQueue q xs
    → length xs < fuel
    → (q' : IntrusiveQueue) × (remove fuel q node ≡ some (has node xs, q'))
      × IsQueue q' (erase node xs)
unfolding remove
remove-IsQueue fuel q node [] is enough =
    let empty : (q.head_node == 0) ≡ true = ground (arith, is.chain) in
    (q, ground (arith, empty), is)
remove-IsQueue fuel q node (x ∷ xs) is enough = elim (Bool-cases (node == 0)) [
  | inl null ↦
      let e : 0 ≡ node = sym ((==_iff node 0).0 null) in
      let out : has node (x ∷ xs) ≡ false =
        subst (λ n. has n (x ∷ xs) ≡ false) e (has-zero q.next q.head_node (x ∷ xs) is.chain) in
      (
        q,
        rw null (ap (λ b. some (b, q)) (sym out)),
        subst (IsQueue q) (sym (erase-missing node (x ∷ xs) out)) is,
      )
  | inr some_node ↦ removed_node fuel q node x xs is enough (ground arith)
]
