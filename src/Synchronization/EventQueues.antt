-- ===== src/Synchronization/EventQueues.antt =====
-- Kernel/Layers/Logic/SynchronizationManager.cpp: the event queues (epoll) and their watches.
pub mod Lookup
pub mod Control
pub mod Watches
use twisted_os_v.Common.{
  ℕ, zero, suc, ◌+◌, ◌/◌, ◌%◌, Bool, true, false, ◌&&◌, not, List, [], ◌∷◌, ◌++◌, Option, none,
  some, ◌==◌, if◌then◌else◌,
}
use twisted_os_v.Synchronization.{SleepTag, FutexWaitTag, find_tag, remove_tag}

-- The codes that the operations return; `success` is 0.
pub data LinuxCode : Type 0 where
  success : LinuxCode
  efault : LinuxCode
  enomem : LinuxCode
  einval : LinuxCode
  enoent : LinuxCode
  eexist : LinuxCode

pub record EpollWatchTag : Type 0 where
  pub file_descriptor : ℕ
  pub events : ℕ
  pub user_data : ℕ

pub record EventQueueEventTag : Type 0 where
  pub file_descriptor : ℕ
  pub events : ℕ

-- `node` says whether the pointer Node is set.
pub record EventQueueKernelObject : Type 0 where
  pub process_id : ℕ
  pub file_descriptor : ℕ
  pub flags : ℕ
  pub watches : List EpollWatchTag
  pub events : List EventQueueEventTag
  pub node : Bool

abbrev pub is_queue : (process_id file_descriptor : ℕ) → EventQueueKernelObject → Bool
is_queue process_id file_descriptor q =
    q.process_id == process_id && q.file_descriptor == file_descriptor

unfoldable pub find_event_queue :
    List EventQueueKernelObject → (process_id file_descriptor : ℕ) → Option EventQueueKernelObject
find_event_queue store process_id file_descriptor =
    find_tag (is_queue process_id file_descriptor) store

unfoldable pub has_event_queue :
    List EventQueueKernelObject → (process_id file_descriptor : ℕ) → Bool
has_event_queue store process_id file_descriptor =
    elim (find_event_queue store process_id file_descriptor) [ none ↦ false | some _ ↦ true ]

unfoldable pub find_watch : EventQueueKernelObject → ℕ → Option EpollWatchTag
find_watch queue watched = find_tag (λ w. w.file_descriptor == watched) queue.watches

unfoldable pub clear_event_queue : EventQueueKernelObject → EventQueueKernelObject
clear_event_queue queue = record queue { watches = []; events = []; node = false }

unfoldable pub create_event_queue :
    (allocated node_allocated : Bool)
    → List EventQueueKernelObject
    → (process_id file_descriptor flags : ℕ) → Bool × List EventQueueKernelObject
create_event_queue allocated node_allocated store process_id file_descriptor flags =
    elim (find_event_queue store process_id file_descriptor) [
      | some _ ↦ (false, store)
      | none ↦
          if not allocated then (false, store) else if not node_allocated then (false, store) else (
            true,
            store
                ++ record {
                  process_id = process_id;
                  file_descriptor = file_descriptor;
                  flags = flags;
                  watches = [];
                  events = [];
                  node = true;
                }
                  ∷ [],
          )
    ]

unfoldable pub remove_event_queue :
    List EventQueueKernelObject
    → (process_id file_descriptor : ℕ) → Bool × List EventQueueKernelObject
remove_event_queue store process_id file_descriptor =
    elim (find_event_queue store process_id file_descriptor) [
      | none ↦ (false, store)
      | some _ ↦ (true, remove_tag (is_queue process_id file_descriptor) store)
    ]

-- The inner loop of RemoveWatchesForFile.
unfoldable pub drop_watches : ℕ → List EpollWatchTag → List EpollWatchTag
drop_watches target [] = []
drop_watches target (w ∷ ws) =
    let rest = drop_watches target ws in if w.file_descriptor == target then rest else w ∷ rest

unfoldable pub remove_watches_for_file :
    List EventQueueKernelObject → (process_id target : ℕ) → List EventQueueKernelObject
remove_watches_for_file [] process_id target = []
remove_watches_for_file (q ∷ qs) process_id target =
    let rest = remove_watches_for_file qs process_id target in
    if not (q.process_id == process_id)
    then q ∷ rest
    else record q { watches = drop_watches target q.watches } ∷ rest

-- A write through the pointer that FindWatch returned.
unfoldable pub modify_watch :
    (target events user_data : ℕ) → List EpollWatchTag → List EpollWatchTag
modify_watch target events user_data [] = []
modify_watch target events user_data (w ∷ ws) =
    let rest = modify_watch target events user_data ws in
    if w.file_descriptor == target
    then record w { events = events; user_data = user_data } ∷ ws
    else w ∷ rest

-- The switch of ControlEventQueue, on the watches of the queue that was found.
unfoldable pub control_watches :
    (allocated : Bool)
    → EventQueueKernelObject
    → (operation target events user_data : ℕ) → LinuxCode × List EpollWatchTag
control_watches allocated queue operation target events user_data =
    if operation == 1
    then elim (find_watch queue target) [
      | some _ ↦ (eexist, queue.watches)
      | none ↦ if not allocated then (enomem, queue.watches) else (
        success,
        queue.watches
            ++ record { file_descriptor = target; events = events; user_data = user_data } ∷ [],
      )
    ]
    else if operation == 2
    then elim (find_watch queue target) [
      | none ↦ (enoent, queue.watches)
      | some _ ↦ (success, remove_tag (λ w. w.file_descriptor == target) queue.watches)
    ]
    else if operation == 3
    then elim (find_watch queue target) [
      | none ↦ (enoent, queue.watches)
      | some _ ↦ (success, modify_watch target events user_data queue.watches)
    ]
    else (einval, queue.watches)

-- The queue that FindEventQueue points to is written back in its place.
unfoldable pub write_queue :
    (process_id file_descriptor : ℕ)
    → List EpollWatchTag
    → List EventQueueKernelObject
    → List EventQueueKernelObject
write_queue process_id file_descriptor watches [] = []
write_queue process_id file_descriptor watches (q ∷ qs) =
    let rest = write_queue process_id file_descriptor watches qs in
    if is_queue process_id file_descriptor q then record q { watches = watches } ∷ qs else q ∷ rest

unfoldable pub control_event_queue :
    (allocated : Bool)
    → List EventQueueKernelObject
    → (process_id epoll_file_descriptor operation target events user_data : ℕ)
    → LinuxCode × List EventQueueKernelObject
control_event_queue allocated store process_id epoll_file_descriptor operation target events
      user_data =
    if target == epoll_file_descriptor
    then (einval, store)
    else elim (find_event_queue store process_id epoll_file_descriptor) [
      | none ↦ (enoent, store)
      | some queue ↦
          let (code, watches) = control_watches allocated queue operation target events user_data in
          (code, write_queue process_id epoll_file_descriptor watches store)
    ]

-- The copies of the watches, with `memory` allocations left before one fails; `none` if one does.
unfoldable pub copy_watches : (memory : ℕ) → List EpollWatchTag → Option (ℕ × List EpollWatchTag)
copy_watches memory [] = some (memory, [])
copy_watches zero (w ∷ ws) = none
copy_watches (suc memory) (w ∷ ws) = elim (copy_watches memory ws) [
  | none ↦ none
  | some (left, copies) ↦ some (left, w ∷ copies)
]

-- One round of DuplicateEventQueuesForProcess: the copy of a queue, if the memory suffices.
unfoldable pub copy_queue :
    (memory dest : ℕ) → EventQueueKernelObject → Option (ℕ × EventQueueKernelObject)
copy_queue zero dest queue = none
copy_queue (suc zero) dest queue = none
copy_queue (suc (suc memory)) dest queue = elim (copy_watches memory queue.watches) [
  | none ↦ none
  | some (left, watches) ↦
      some (left, record queue { process_id = dest; watches = watches; events = []; node = true })
]

-- The loop of DuplicateEventQueuesForProcess behind the queues `before`: the next queue is read before
-- the copy is pushed. `none` means that the fuel ran out.
unfoldable pub duplicate_loop :
    (fuel memory source dest : ℕ) (before rest : List EventQueueKernelObject)
    → Option (Bool × List EventQueueKernelObject)
duplicate_loop fuel memory source dest before [] = some (true, before)
duplicate_loop zero memory source dest before (q ∷ qs) = none
duplicate_loop (suc fuel) memory source dest before (q ∷ []) =
    if not (q.process_id == source)
    then some (true, before ++ q ∷ [])
    else elim (copy_queue memory dest q) [
      | none ↦ some (false, before ++ q ∷ [])
      | some (left, copy) ↦ some (true, before ++ q ∷ copy ∷ [])
    ]
duplicate_loop (suc fuel) memory source dest before (q ∷ r ∷ qs) =
    let skipped = duplicate_loop fuel memory source dest (before ++ q ∷ []) (r ∷ qs) in
    if not (q.process_id == source) then skipped else elim (copy_queue memory dest q) [
      | none ↦ some (false, before ++ q ∷ r ∷ qs)
      | some (left, copy) ↦
          duplicate_loop fuel left source dest (before ++ q ∷ []) (r ∷ (qs ++ copy ∷ []))
    ]

unfoldable pub duplicate_event_queues_for_process :
    (fuel memory : ℕ)
    → List EventQueueKernelObject
    → (source dest : ℕ) → Option (Bool × List EventQueueKernelObject)
duplicate_event_queues_for_process fuel memory store source dest =
    duplicate_loop fuel memory source dest [] store

unfoldable pub is_empty {ℓ} : {A : Type ℓ} → List A → Bool
is_empty [] = true
is_empty (x ∷ xs) = false

-- The bits POLLIN (1) and POLLOUT (4) of `requested` that are ready. The file is `none` if a pointer on
-- the way to the queue is nullptr.
unfoldable pub event_queue_poll_file_operation :
    Option EventQueueKernelObject → (requested : ℕ) → LinuxCode × Option ℕ
event_queue_poll_file_operation none requested = (efault, none)
event_queue_poll_file_operation (some queue) requested =
    let waiting = not (is_empty queue.events) in
    let in_bit = if requested % 2 == 1 && waiting then 1 else 0 in
    let out_bit = if requested / 4 % 2 == 1 then 4 else 0 in (success, some (in_bit + out_bit))

-- The queues of the manager; the operations take the one that they work on.
pub record SynchronizationManager : Type 0 where
  pub sleep_queue : List SleepTag
  pub tty_input_wait_queue : List ℕ
  pub event_queue_store : List EventQueueKernelObject
  pub futex_wait_queue : List FutexWaitTag

-- The destructor.
unfoldable pub destroy_synchronization_manager : SynchronizationManager → SynchronizationManager
destroy_synchronization_manager m = record {
  sleep_queue = [];
  tty_input_wait_queue = [];
  event_queue_store = [];
  futex_wait_queue = [];
}
