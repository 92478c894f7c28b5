-- ===== src/Synchronization.antt =====
-- Kernel/Layers/Logic/SynchronizationManager.cpp: sleep, terminal, futex and event queues. A queue is
-- the list of its nodes, which IntrusiveQueue refines; FindFirst and then Remove of that node take the
-- first node that passes off the list. `allocated` says whether `new` returns a node.
pub mod EventQueues
pub mod Search
pub mod Futex
pub mod Sleep
mod Examples
use twisted_os_v.Common.{
  ℕ, ◌-◌, Bool, true, false, ◌&&◌, not, List, [], ◌∷◌, ◌++◌, Option, none, some, ◌==◌, ltb,
  if◌then◌else◌,
}
use twisted_os_v.Process.{process_id_invalid}

pub record SleepTag : Type 0 where
  pub id : ℕ
  pub wait_ticks_remaining : ℕ

pub record FutexWaitTag : Type 0 where
  pub process_id : ℕ
  pub user_address : ℕ

-- `find_tag` and `remove_tag` are the loops that look for the first node that passes, and that unlink
-- it.
unfoldable pub find_tag {ℓ} : {A : Type ℓ} → (A → Bool) → List A → Option A
find_tag test [] = none
find_tag test (x ∷ xs) = let rest = find_tag test xs in if test x then some x else rest

unfoldable pub remove_tag {ℓ} : {A : Type ℓ} → (A → Bool) → List A → List A
remove_tag test [] = []
remove_tag test (x ∷ xs) = let rest = remove_tag test xs in if test x then xs else x ∷ rest

unfoldable pub add_to_sleep_queue :
    (allocated : Bool) → List SleepTag → (id wait_ticks : ℕ) → List SleepTag
add_to_sleep_queue allocated sleepers id wait_ticks =
    if not allocated
    then sleepers
    else sleepers ++ record { id = id; wait_ticks_remaining = wait_ticks } ∷ []

unfoldable pub remove_from_sleep_queue : List SleepTag → ℕ → List SleepTag
remove_from_sleep_queue sleepers id = remove_tag (λ t. t.id == id) sleepers

unfoldable pub tick : List SleepTag → List SleepTag
tick [] = []
tick (t ∷ ts) =
    record t {
      wait_ticks_remaining =
          if ltb 0 t.wait_ticks_remaining
          then t.wait_ticks_remaining - 1
          else t.wait_ticks_remaining;
    }
    ∷ tick ts

unfoldable pub get_next_process_to_wake : List SleepTag → ℕ
get_next_process_to_wake sleepers = elim (find_tag (λ t. t.wait_ticks_remaining == 0) sleepers) [
  | none ↦ process_id_invalid
  | some t ↦ t.id
]

unfoldable pub add_to_tty_input_wait_queue : (allocated : Bool) → List ℕ → ℕ → List ℕ
add_to_tty_input_wait_queue allocated waiters id = elim (find_tag (λ w. w == id) waiters) [
  | some _ ↦ waiters
  | none ↦ if not allocated then waiters else waiters ++ id ∷ []
]

unfoldable pub remove_from_tty_input_wait_queue : List ℕ → ℕ → List ℕ
remove_from_tty_input_wait_queue waiters id = remove_tag (λ w. w == id) waiters

unfoldable pub get_next_tty_input_waiter : List ℕ → ℕ
get_next_tty_input_waiter [] = process_id_invalid
get_next_tty_input_waiter (w ∷ ws) = w

unfoldable pub remove_futex_waiters_for_process : List FutexWaitTag → ℕ → List FutexWaitTag
remove_futex_waiters_for_process [] process_id = []
remove_futex_waiters_for_process (w ∷ ws) process_id =
    let rest = remove_futex_waiters_for_process ws process_id in
    if w.process_id == process_id then rest else w ∷ rest

unfoldable pub add_futex_waiter :
    (allocated : Bool)
    → List FutexWaitTag
    → (process_id user_address : ℕ) → Bool × List FutexWaitTag
add_futex_waiter allocated waiters process_id user_address =
    let others = remove_futex_waiters_for_process waiters process_id in
    if not allocated
    then (false, others)
    else (true, others ++ record { process_id = process_id; user_address = user_address } ∷ [])

unfoldable pub remove_futex_waiter :
    List FutexWaitTag → (process_id user_address : ℕ) → List FutexWaitTag
remove_futex_waiter waiters process_id user_address =
    remove_tag (λ w. w.process_id == process_id && w.user_address == user_address) waiters

unfoldable pub is_process_waiting_on_futex :
    List FutexWaitTag → (process_id user_address : ℕ) → Bool
is_process_waiting_on_futex [] process_id user_address = false
is_process_waiting_on_futex (w ∷ ws) process_id user_address =
    let rest = is_process_waiting_on_futex ws process_id user_address in
    if w.process_id == process_id && w.user_address == user_address then true else rest

unfoldable pub wake_single_futex_waiter : List FutexWaitTag → ℕ → ℕ × List FutexWaitTag
wake_single_futex_waiter waiters user_address =
    elim (find_tag (λ w. w.user_address == user_address) waiters) [
      | none ↦ (process_id_invalid, waiters)
      | some w ↦ (w.process_id, remove_tag (λ w. w.user_address == user_address) waiters)
    ]
