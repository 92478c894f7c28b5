-- ===== src/Scheduler.antt =====
-- Kernel/Layers/Logic/Scheduler.cpp: the ready queue, an IntrusiveQueue of ProcessTag nodes, and the
-- node that was selected last. `id` is the field Id of every node in memory. The address that
-- `new ProcessTag` returns is a parameter, 0 where it fails. The loops of the queue take fuel, and
-- `none` means that the fuel ran out.
pub mod Tags
pub mod Ready
pub mod RoundRobin
mod Examples
use twisted_os_v.Common.{
  ℕ, Bool, true, false, not, ◌&&◌, List, Option, none, some, ◌==◌, if◌then◌else◌,
}
use twisted_os_v.Process.{process_id_invalid}
use twisted_os_v.IntrusiveQueue.{
  IntrusiveQueue, write, is_empty, push_back, remove, find_first, rotate_front_to_back,
  clear_and_delete,
}

pub record Scheduler : Type 0 where
  pub ready_queue : IntrusiveQueue
  pub id : ℕ → ℕ
  pub current_process : ℕ

unfoldable pub add_to_ready_queue : Scheduler → (new_tag process_id : ℕ) → Scheduler
add_to_ready_queue s new_tag process_id =
    let fresh = record s.ready_queue { next = write s.ready_queue.next new_tag 0 } in
    if new_tag == 0
    then s
    else record s { id = write s.id new_tag process_id; ready_queue = push_back fresh new_tag }

-- What RemoveFromReadyQueue makes of CurrentProcess once `node` is unlinked: `next` is the node that
-- stood behind it.
unfoldable pub current_after_remove : IntrusiveQueue → (current node next : ℕ) → ℕ
current_after_remove q current node next =
    let moved = if current == node then if not (next == 0) then 0 else q.head_node else current in
    if is_empty q then 0 else moved

unfoldable pub remove_from_ready_queue : ℕ → Scheduler → ℕ → Option (Bool × Scheduler)
remove_from_ready_queue fuel s process_id =
    elim (find_first fuel s.ready_queue.next (λ a. s.id a == process_id) s.ready_queue.head_node) [
      | none ↦ none
      | some node ↦ if node == 0 then some (false, s) else elim (remove fuel s.ready_queue node) [
        | none ↦ none
        | some (_, q) ↦ some (
          true,
          record s {
            ready_queue = q;
            current_process =
                current_after_remove q s.current_process node (s.ready_queue.next node);
          },
        )
      ]
    ]

unfoldable pub select_next_process : Scheduler → ℕ × Scheduler
select_next_process s =
    let q = s.ready_queue in
    let rotated = rotate_front_to_back q in
    if is_empty q
    then (process_id_invalid, s)
    else if s.current_process == 0
    then (s.id q.head_node, record s { current_process = q.head_node })
    else if q.head_node == s.current_process && q.next s.current_process == 0
    then (s.id s.current_process, s)
    else (
      s.id rotated.head_node,
      record s { ready_queue = rotated; current_process = rotated.head_node },
    )

-- The destructor, with the nodes that it deletes.
unfoldable pub destroy_scheduler : ℕ → Scheduler → Option (List ℕ × Scheduler)
destroy_scheduler fuel s = elim (clear_and_delete fuel s.ready_queue) [
  | none ↦ none
  | some (deleted, q) ↦ some (deleted, record s { ready_queue = q; current_process = 0 })
]
