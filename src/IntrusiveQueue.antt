-- ===== src/IntrusiveQueue.antt =====
-- Kernel/Layers/Logic/IntrusiveQueue.hpp: a singly linked queue through a field of its nodes. A node
-- is its address, nullptr is 0, and `next` is the field NextMember of every node in memory. A loop
-- over the nodes takes fuel, and `none` means that the fuel ran out.
pub mod Chain
pub mod Push
pub mod Remove
pub mod Find
mod Examples
use twisted_os_v.Common.{
  ℕ, zero, suc, ◌+◌, Bool, true, false, ◌||◌, List, [], ◌∷◌, Option, none, some, ◌==◌,
  if◌then◌else◌,
}

pub record IntrusiveQueue : Type 0 where
  pub head_node : ℕ
  pub tail_node : ℕ
  pub next : ℕ → ℕ

-- `NextOf(Node) = value`.
abbrev pub write : (ℕ → ℕ) → ℕ → ℕ → ℕ → ℕ
write next node value a = if a == node then value else next a

unfoldable pub is_empty : IntrusiveQueue → Bool
is_empty q = q.head_node == 0

unfoldable pub push_back : IntrusiveQueue → ℕ → IntrusiveQueue
push_back q node =
    let cleared = write q.next node 0 in
    if node == 0
    then q
    else if q.tail_node == 0
    then record { head_node = node; tail_node = node; next = cleared }
    else record q { tail_node = node; next = write cleared q.tail_node node }

unfoldable pub pop_front : IntrusiveQueue → ℕ × IntrusiveQueue
pop_front q =
    let node = q.head_node in
    let rest = q.next node in
    if node == 0 then (0, q) else (
      node,
      record {
        head_node = rest;
        tail_node = if rest == 0 then 0 else q.tail_node;
        next = write q.next node 0;
      },
    )

-- The loop of Remove: the first node from `previous` on whose next node is `node`, or nullptr.
unfoldable pub find_previous : ℕ → (ℕ → ℕ) → (previous node : ℕ) → Option ℕ
find_previous zero next previous node = none
find_previous (suc fuel) next previous node =
    let further = find_previous fuel next (next previous) node in
    if previous == 0 || next previous == node then some previous else further

-- What Remove does behind its loop.
unfoldable pub unlink : IntrusiveQueue → (previous node : ℕ) → Bool × IntrusiveQueue
unlink q previous node = if previous == 0 then (false, q) else (
  true,
  record q {
    tail_node = if q.tail_node == node then previous else q.tail_node;
    next = write (write q.next previous (q.next node)) node 0;
  },
)

unfoldable pub remove : ℕ → IntrusiveQueue → ℕ → Option (Bool × IntrusiveQueue)
remove fuel q node =
    if node == 0 || q.head_node == 0
    then some (false, q)
    else if q.head_node == node
    then some (true, (pop_front q).1)
    else elim (find_previous fuel q.next q.head_node node) [
      | none ↦ none
      | some previous ↦ some (unlink q previous node)
    ]

-- FindFirst: `test` says whether the member of a node has the value that is looked for.
unfoldable pub find_first : ℕ → (ℕ → ℕ) → (ℕ → Bool) → ℕ → Option ℕ
find_first zero next test node = none
find_first (suc fuel) next test node =
    let further = find_first fuel next test (next node) in
    if node == 0 then some 0 else if test node then some node else further

unfoldable pub rotate_front_to_back : IntrusiveQueue → IntrusiveQueue
rotate_front_to_back q =
    let (old_head, rest) = pop_front q in
    if q.head_node == 0 || q.head_node == q.tail_node then q else push_back rest old_head

-- The nodes that ClearAndDelete hands to `delete`, in order.
unfoldable pub clear_and_delete : ℕ → IntrusiveQueue → Option (List ℕ × IntrusiveQueue)
clear_and_delete zero q = none
clear_and_delete (suc fuel) q =
    let (node, rest) = pop_front q in
    let further = clear_and_delete fuel rest in
    if is_empty q
    then some ([], q)
    else elim further [ none ↦ none | some (deleted, q') ↦ some (node ∷ deleted, q') ]
