-- ===== src/Synchronization/Examples.antt =====
-- Small queues of waiters, and the theorems at them.
use twisted_os_v.Common.{
  ℕ, ◌≢◌, ◌&&◌, arith, some, ◌≡◌, refl, true, false, List, [], ◌∷◌, ◌++◌, ◌⊎◌, ◌==◌, if◌then◌else◌,
}
use twisted_os_v.Process.{process_id_invalid}
use twisted_os_v.Synchronization.{
  find_tag, SleepTag, FutexWaitTag, add_futex_waiter, is_process_waiting_on_futex,
  wake_single_futex_waiter, get_next_process_to_wake,
}
use twisted_os_v.Synchronization.Search.{AllFail}
use twisted_os_v.Synchronization.Futex.{
  WaitsOnce, add_futex_waiter-WaitsOnce, wake_single_futex_waiter-first,
}
use twisted_os_v.Synchronization.Sleep.{ticks, get_next_process_to_wake-ticks}
use twisted_os_v.Synchronization.EventQueues.{
  EventQueueKernelObject, LinuxCode, find_event_queue, control_event_queue, remove_watches_for_file,
}
use twisted_os_v.Synchronization.EventQueues.Lookup.{lookup, WatchedOnce}
use twisted_os_v.Synchronization.EventQueues.Control.{controlled, control_event_queue-controlled}
use twisted_os_v.Synchronization.EventQueues.Watches.{watched, remove_watches_for_file-watched}

abbrev futex_waiters : List FutexWaitTag
futex_waiters =
    record { process_id = 1; user_address = 4096 }
    ∷ record { process_id = 2; user_address = 8192 }
    ∷ []

add_futex_waiter-WaitsOnce_example :
    WaitsOnce (add_futex_waiter true futex_waiters 1 8192).1
    × WaitsOnce (add_futex_waiter false futex_waiters 1 8192).1
    × ((q a : ℕ)
        → is_process_waiting_on_futex (add_futex_waiter true futex_waiters 1 8192).1 q a
          ≡ (if q == 1 then 8192 == a else is_process_waiting_on_futex futex_waiters q a))
add_futex_waiter-WaitsOnce_example =
    add_futex_waiter-WaitsOnce futex_waiters 1 8192 (refl, (refl, tt))

wake_single_futex_waiter-first_example :
    ((earlier : List FutexWaitTag) × (w : FutexWaitTag) × (later : List FutexWaitTag)
      × (futex_waiters ≡ earlier ++ w ∷ later)
      × AllFail (λ v. v.user_address == 8192) earlier
      × (w.user_address ≡ 8192)
      × (wake_single_futex_waiter futex_waiters 8192 ≡ (w.process_id, earlier ++ later)))
    ⊎ AllFail (λ v. v.user_address == 8192) futex_waiters
      × (wake_single_futex_waiter futex_waiters 8192 ≡ (process_id_invalid, futex_waiters))
wake_single_futex_waiter-first_example = wake_single_futex_waiter-first futex_waiters 8192

abbrev sleepers : List SleepTag
sleepers =
    record { id = 1; wait_ticks_remaining = 5 }
    ∷ record { id = 2; wait_ticks_remaining = 2 }
    ∷ record { id = 3; wait_ticks_remaining = 1 }
    ∷ []

get_next_process_to_wake-ticks_example : get_next_process_to_wake (ticks 2 sleepers) ≡ 2
get_next_process_to_wake-ticks_example = get_next_process_to_wake-ticks 2 sleepers

abbrev first_object : EventQueueKernelObject
first_object = record {
  process_id = 1;
  file_descriptor = 7;
  flags = 0;
  watches =
      record { file_descriptor = 3; events = 1; user_data = 0 }
      ∷ record { file_descriptor = 4; events = 1; user_data = 0 }
      ∷ [];
  events = [];
  node = true;
}

abbrev event_queues : List EventQueueKernelObject
event_queues = first_object ∷ []

remove_watches_for_file-watched_example :
    watched (remove_watches_for_file event_queues 1 3) 1 7 4 ≡ true
remove_watches_for_file-watched_example = remove_watches_for_file-watched event_queues 1 3 1 7 4

first_queue : find_event_queue event_queues 1 7 ≡ some first_object
unfolding find_event_queue find_tag
first_queue = refl

control_event_queue-controlled_example :
    (code : LinuxCode) × (store' : List EventQueueKernelObject) × (queue' : EventQueueKernelObject)
    × (control_event_queue true event_queues 1 7 2 3 0 0 ≡ (code, store'))
    × (find_event_queue store' 1 7 ≡ some queue')
    × WatchedOnce queue'.watches
    × ((code, lookup 3 queue'.watches)
        ≡ controlled true 2
            (record { file_descriptor = 3; events = 0; user_data = 0 })
            (lookup 3 first_object.watches))
    × ((file : ℕ) → file ≢ 3 → lookup file queue'.watches ≡ lookup file first_object.watches)
    × ((p e : ℕ)
        → (p == 1 && e == 7) ≡ false
        → find_event_queue store' p e ≡ find_event_queue event_queues p e)
control_event_queue-controlled_example =
    control_event_queue-controlled true event_queues 1 7 2 3 0 0 first_object (omega arith)
      first_queue (refl, (refl, tt))
