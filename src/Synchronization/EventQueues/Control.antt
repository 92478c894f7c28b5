-- ===== src/Synchronization/EventQueues/Control.antt =====
-- ControlEventQueue of SynchronizationManager.cpp against a map from files to watches.
use twisted_os_v.Common.{
  ℕ, ◌≡◌, ◌≢◌, refl, sym, ap, ◌∙◌, subst, Bool, false, ◌&&◌, List, [], ◌∷◌, Option, none, some,
  arith, ◌==◌, if◌then◌else◌, Bool-cases, Option-cases, inl, inr,
}
use twisted_os_v.Synchronization.{find_tag}
use twisted_os_v.Synchronization.EventQueues.{
  EpollWatchTag, EventQueueKernelObject, LinuxCode, success, enomem, einval, enoent, eexist,
  is_queue, find_event_queue, find_watch, control_watches, write_queue, control_event_queue,
}
use twisted_os_v.Synchronization.EventQueues.Lookup.{
  lookup, WatchedOnce, absent-lookup, WatchedOnce-append, lookup-append_self, lookup-append_ne,
  WatchedOnce-removed, lookup-removed_self, lookup-removed_ne, WatchedOnce-modified,
  lookup-modified_self, lookup-modified_ne,
}

-- What an operation makes of the entry of its file: add 1 makes a new one, delete 2 removes it and
-- modify 3 overwrites it.
abbrev pub controlled :
    (allocated : Bool) (operation : ℕ) (new : EpollWatchTag)
    → Option EpollWatchTag
    → LinuxCode × Option EpollWatchTag
controlled allocated operation new none =
    if operation == 1
    then (if allocated then (success, some new) else (enomem, none))
    else if operation == 2
    then (enoent, none)
    else if operation == 3
    then (enoent, none)
    else (einval, none)
controlled allocated operation new (some old) =
    if operation == 1
    then (eexist, some old)
    else if operation == 2
    then (success, none)
    else if operation == 3
    then (success, some new)
    else (einval, some old)

-- The code and the watches do to the map what the specification says.
record Refines (ws : List EpollWatchTag) (target : ℕ) (outcome : LinuxCode × Option EpollWatchTag)
    (result : LinuxCode × List EpollWatchTag) : Type 0 where
  pub once : WatchedOnce result.1
  pub code : result.0 ≡ outcome.0
  pub entry : lookup target result.1 ≡ outcome.1
  pub others : (file : ℕ) → file ≢ target → lookup file result.1 ≡ lookup file ws

unchanged :
    (ws : List EpollWatchTag) (target : ℕ) (code : LinuxCode) (entry : Option EpollWatchTag)
    → WatchedOnce ws
    → lookup target ws ≡ entry
    → Refines ws target (code, entry) (code, ws)
unchanged ws target code entry once found = record {
  once = once;
  code = refl;
  entry = found;
  others = λ file apart. refl;
}

control_watches-missing :
    (allocated : Bool) (queue : EventQueueKernelObject) (operation target events user_data : ℕ)
    → WatchedOnce queue.watches
    → lookup target queue.watches ≡ none
    → Refines queue.watches target
        (controlled allocated operation
          (record { file_descriptor = target; events = events; user_data = user_data })
          none)
        (control_watches allocated queue operation target events user_data)
unfolding control_watches find_watch
control_watches-missing allocated queue operation target events user_data once missing =
    let ws = queue.watches in
    let new : EpollWatchTag = record {
      file_descriptor = target;
      events = events;
      user_data = user_data;
    } in
    let out = absent-lookup target ws missing in
    elim (Bool-cases (operation == 1)) [
      | inl add ↦ elim (Bool-cases allocated) [
        | inl given ↦
            rw (control_watches, add, missing, given)
              (record {
                once = WatchedOnce-append ws new out once;
                code = refl;
                entry = lookup-append_self ws new out;
                others = λ file apart. lookup-append_ne file ws new (λ e. apart (sym e));
              })
        | inr denied ↦
            rw (control_watches, add, missing, denied)
              (unchanged ws target enomem none once missing)
      ]
      | inr not_add ↦ elim (Bool-cases (operation == 2)) [
        | inl delete ↦
            rw (control_watches, not_add, delete, missing)
              (unchanged ws target enoent none once missing)
        | inr not_delete ↦ elim (Bool-cases (operation == 3)) [
          | inl modify ↦
              rw (control_watches, not_add, not_delete, modify, missing)
                (unchanged ws target enoent none once missing)
          | inr other ↦
              rw (control_watches, not_add, not_delete, other)
                (unchanged ws target einval none once missing)
        ]
      ]
    ]

control_watches-found :
    (allocated : Bool) (queue : EventQueueKernelObject) (operation target events user_data : ℕ)
    (old : EpollWatchTag)
    → WatchedOnce queue.watches
    → lookup target queue.watches ≡ some old
    → Refines queue.watches target
        (controlled allocated operation
          (record { file_descriptor = target; events = events; user_data = user_data })
          (some old))
        (control_watches allocated queue operation target events user_data)
unfolding control_watches find_watch
control_watches-found allocated queue operation target events user_data old once found =
    let ws = queue.watches in
    elim (Bool-cases (operation == 1)) [
      | inl add ↦
          rw (control_watches, add, found) (unchanged ws target eexist (some old) once found)
      | inr not_add ↦ elim (Bool-cases (operation == 2)) [
        | inl delete ↦
            rw (control_watches, not_add, delete, found)
              (record {
                once = WatchedOnce-removed target ws once;
                code = refl;
                entry = lookup-removed_self target ws once;
                others = λ file apart. lookup-removed_ne target file ws apart;
              })
        | inr not_delete ↦ elim (Bool-cases (operation == 3)) [
          | inl modify ↦
              rw (control_watches, not_add, not_delete, modify, found)
                (record {
                  once = WatchedOnce-modified target events user_data ws once;
                  code = refl;
                  entry = lookup-modified_self target events user_data ws old found;
                  others = λ file apart. lookup-modified_ne target events user_data file ws apart;
                })
          | inr other ↦
              rw (control_watches, not_add, not_delete, other)
                (unchanged ws target einval (some old) once found)
        ]
      ]
    ]

control_watches-Refines :
    (allocated : Bool) (queue : EventQueueKernelObject) (operation target events user_data : ℕ)
    → WatchedOnce queue.watches
    → Refines queue.watches target
        (controlled allocated operation
          (record { file_descriptor = target; events = events; user_data = user_data })
          (lookup target queue.watches))
        (control_watches allocated queue operation target events user_data)
control_watches-Refines allocated queue operation target events user_data once =
    let new : EpollWatchTag = record {
      file_descriptor = target;
      events = events;
      user_data = user_data;
    } in
    let result = control_watches allocated queue operation target events user_data in
    elim (Option-cases (lookup target queue.watches)) [
      | inl missing ↦
          subst (λ o. Refines queue.watches target (controlled allocated operation new o) result)
            (sym missing)
            (control_watches-missing allocated queue operation target events user_data once missing)
      | inr (old, found) ↦
          subst (λ o. Refines queue.watches target (controlled allocated operation new o) result)
            (sym found)
            (control_watches-found allocated queue operation target events user_data old once found)
    ]

find_event_queue-write_self :
    (process_id file_descriptor : ℕ) (watches : List EpollWatchTag)
    (store : List EventQueueKernelObject) (q : EventQueueKernelObject)
    → find_event_queue store process_id file_descriptor ≡ some q
    → find_event_queue
        (write_queue process_id file_descriptor watches store)
        process_id
        file_descriptor
      ≡ some (record q { watches = watches })
unfolding find_event_queue find_tag write_queue
find_event_queue-write_self process_id file_descriptor watches [] q found =
    absurd (ground (arith, found))
find_event_queue-write_self process_id file_descriptor watches (p ∷ store) q found =
    elim (Bool-cases (is_queue process_id file_descriptor p)) [
      | inl same ↦
          let put : Option EventQueueKernelObject → Option EventQueueKernelObject =
            λ o. elim o [ none ↦ none | some z ↦ some (record z { watches = watches }) ] in
          let here : find_event_queue (p ∷ store) process_id file_descriptor ≡ some p =
            rw (find_event_queue, same) refl in
          rw (same, find_event_queue, same) (ap put (sym here ∙ found))
      | inr other ↦
          let below : find_event_queue (p ∷ store) process_id file_descriptor
              ≡ find_event_queue store process_id file_descriptor =
            rw (find_event_queue, other) refl in
          rw (other, find_event_queue, other)
            (find_event_queue-write_self process_id file_descriptor watches store q
              (sym below ∙ found))
    ]

find_event_queue-write_ne :
    (process_id file_descriptor other_id other_descriptor : ℕ) (watches : List EpollWatchTag)
    (store : List EventQueueKernelObject)
    → (other_id == process_id && other_descriptor == file_descriptor) ≡ false
    → find_event_queue
        (write_queue process_id file_descriptor watches store)
        other_id
        other_descriptor
      ≡ find_event_queue store other_id other_descriptor
unfolding find_event_queue find_tag write_queue
find_event_queue-write_ne process_id file_descriptor other_id other_descriptor watches [] apart =
    refl
find_event_queue-write_ne process_id file_descriptor other_id other_descriptor watches (p ∷ store)
      apart =
    elim (Bool-cases (is_queue process_id file_descriptor p)) [
      | inl same ↦
          let other : is_queue other_id other_descriptor p ≡ false = ground (arith, same, apart) in
          rw (same, other)
      | inr other ↦ rw (
        other,
        find_event_queue-write_ne process_id file_descriptor other_id other_descriptor watches store
            apart,
      )
    ]

-- ControlEventQueue for a file other than the queue's own, at a queue that exists and watches no file
-- twice, treats the watches as a map from files: it returns the code and leaves the file's entry that
-- adding, deleting or modifying it calls for, keeps the entry of every other file and no file watched
-- twice, and changes no queue with another key.
pub control_event_queue-controlled :
    (allocated : Bool) (store : List EventQueueKernelObject)
    (process_id epoll operation target events user_data : ℕ) (queue : EventQueueKernelObject)
    → target ≢ epoll
    → find_event_queue store process_id epoll ≡ some queue
    → WatchedOnce queue.watches
    → (code : LinuxCode) × (store' : List EventQueueKernelObject)
      × (queue' : EventQueueKernelObject) × (control_event_queue allocated store process_id epoll
            operation target events user_data
          ≡ (code, store'))
      × (find_event_queue store' process_id epoll ≡ some queue')
      × WatchedOnce queue'.watches
      × ((code, lookup target queue'.watches)
          ≡ controlled allocated operation
              (record { file_descriptor = target; events = events; user_data = user_data })
              (lookup target queue.watches))
      × ((file : ℕ) → file ≢ target → lookup file queue'.watches ≡ lookup file queue.watches)
      × ((p e : ℕ)
          → (p == process_id && e == epoll) ≡ false
          → find_event_queue store' p e ≡ find_event_queue store p e)
unfolding control_event_queue
control_event_queue-controlled allocated store process_id epoll operation target events user_data
      queue apart found once =
    let other : (target == epoll) ≡ false = ground arith in
    let refined = control_watches-Refines allocated queue operation target events user_data once in
    let (code, watches) = control_watches allocated queue operation target events user_data in
    (
      code,
      write_queue process_id epoll watches store,
      record queue { watches = watches },
      rw (control_event_queue, other, found) refl,
      find_event_queue-write_self process_id epoll watches store queue found,
      refined.once,
      (λ i. (refined.code i, refined.entry i)),
      refined.others,
      λ p e. find_event_queue-write_ne process_id epoll p e watches store,
    )
