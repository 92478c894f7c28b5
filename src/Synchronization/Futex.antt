-- ===== src/Synchronization/Futex.antt =====
-- The futex waiters of SynchronizationManager.cpp.
use twisted_os_v.Common.{
  ℕ, ◌≡◌, refl, Bool, true, false, ◌&&◌, ◌||◌, not, List, [], ◌∷◌, ◌++◌, arith, ◌==◌, if◌then◌else◌,
  Bool-cases, ==_iff, ◌⊎◌, inl, inr,
}
use twisted_os_v.Process.{process_id_invalid}
use twisted_os_v.Synchronization.Search.{AllFail, find_tag-first}
use twisted_os_v.Synchronization.{
  FutexWaitTag, remove_futex_waiters_for_process, add_futex_waiter, is_process_waiting_on_futex,
  wake_single_futex_waiter,
}

-- Whether a process waits at all.
abbrev pub waits : ℕ → List FutexWaitTag → Bool
waits process_id [] = false
waits process_id (w ∷ ws) = w.process_id == process_id || waits process_id ws

-- No process waits twice.
abbrev pub WaitsOnce : List FutexWaitTag → Type 0
WaitsOnce [] = Unit
WaitsOnce (w ∷ ws) = (waits w.process_id ws ≡ false) × WaitsOnce ws

waits-removed :
    (ws : List FutexWaitTag) (p q : ℕ)
    → waits q (remove_futex_waiters_for_process ws p) ≡ (waits q ws && not (q == p))
unfolding remove_futex_waiters_for_process
waits-removed [] p q = refl
waits-removed (w ∷ ws) p q = ground (arith, waits-removed ws p q)

WaitsOnce-removed :
    (ws : List FutexWaitTag) (p : ℕ)
    → WaitsOnce ws
    → WaitsOnce (remove_futex_waiters_for_process ws p)
unfolding remove_futex_waiters_for_process
WaitsOnce-removed [] p once = tt
WaitsOnce-removed (w ∷ ws) p (fresh, once) = elim (Bool-cases (w.process_id == p)) [
  | inl same ↦ rw same (WaitsOnce-removed ws p once)
  | inr other ↦
      rw other (ground (arith, waits-removed ws p w.process_id), WaitsOnce-removed ws p once)
]

WaitsOnce-append :
    (ws : List FutexWaitTag) (v : FutexWaitTag)
    → waits v.process_id ws ≡ false
    → WaitsOnce ws
    → WaitsOnce (ws ++ v ∷ [])
WaitsOnce-append [] v out once = (refl, tt)
WaitsOnce-append (w ∷ ws) v out (fresh, once) =
    (ground (arith, waits-append ws v w.process_id), WaitsOnce-append ws v (ground arith) once)
  where
    waits-append :
        (ws : List FutexWaitTag) (v : FutexWaitTag) (q : ℕ)
        → waits q (ws ++ v ∷ []) ≡ (waits q ws || v.process_id == q)
    waits-append [] v q = ground arith
    waits-append (w ∷ ws) v q = ground (arith, waits-append ws v q)

waiting-append :
    (ws : List FutexWaitTag) (v : FutexWaitTag) (q a : ℕ)
    → is_process_waiting_on_futex (ws ++ v ∷ []) q a
      ≡ (is_process_waiting_on_futex ws q a || (v.process_id == q && v.user_address == a))
unfolding is_process_waiting_on_futex
waiting-append [] v q a = ground arith
waiting-append (w ∷ ws) v q a = ground (arith, waiting-append ws v q a)

waiting-removed :
    (ws : List FutexWaitTag) (p q a : ℕ)
    → is_process_waiting_on_futex (remove_futex_waiters_for_process ws p) q a
      ≡ (is_process_waiting_on_futex ws q a && not (q == p))
unfolding is_process_waiting_on_futex remove_futex_waiters_for_process
waiting-removed [] p q a = refl
waiting-removed (w ∷ ws) p q a = ground (arith, waiting-removed ws p q a)

-- AddFutexWaiter keeps every process waiting at most once. If the tag is allocated, the process then
-- waits at the address and at no other, and every other process waits where it did.
pub add_futex_waiter-WaitsOnce :
    (waiters : List FutexWaitTag) (process_id user_address : ℕ)
    → WaitsOnce waiters
    → WaitsOnce (add_futex_waiter true waiters process_id user_address).1
      × WaitsOnce (add_futex_waiter false waiters process_id user_address).1
      × ((q a : ℕ)
          → is_process_waiting_on_futex
              (add_futex_waiter true waiters process_id user_address).1
              q
              a
            ≡ (if q == process_id
                then user_address == a
                else is_process_waiting_on_futex waiters q a))
unfolding add_futex_waiter
add_futex_waiter-WaitsOnce waiters p address once =
    let others = remove_futex_waiters_for_process waiters p in
    let kept = WaitsOnce-removed waiters p once in
    let out : waits p others ≡ false = ground (arith, waits-removed waiters p p) in
    let tag : FutexWaitTag = record { process_id = p; user_address = address } in
    (
      WaitsOnce-append others tag out kept,
      kept,
      λ q a. ground (arith, waiting-append others tag q a, waiting-removed waiters p q a),
    )

-- WakeSingleFutexWaiter wakes the waiter at the address that was added first: it is taken off, the
-- others stay in order, and its process is returned. If nobody waits at the address it returns 0xFF and
-- changes nothing.
pub wake_single_futex_waiter-first :
    (waiters : List FutexWaitTag) (address : ℕ)
    → ((earlier : List FutexWaitTag) × (w : FutexWaitTag) × (later : List FutexWaitTag) × (waiters
          ≡ earlier ++ w ∷ later)
        × AllFail (λ v. v.user_address == address) earlier
        × (w.user_address ≡ address)
        × (wake_single_futex_waiter waiters address ≡ (w.process_id, earlier ++ later)))
      ⊎ AllFail (λ v. v.user_address == address) waiters
        × (wake_single_futex_waiter waiters address ≡ (process_id_invalid, waiters))
unfolding wake_single_futex_waiter
wake_single_futex_waiter-first waiters address =
    elim (find_tag-first (λ v. v.user_address == address) waiters) [
      | inl (earlier, w, later, split, before, at, found, removed) ↦ inl (
        earlier,
        w,
        later,
        split,
        before,
        (==_iff w.user_address address).0 at,
        rw (wake_single_futex_waiter, found, removed),
      )
      | inr (none_pass, missing) ↦ inr (none_pass, rw (wake_single_futex_waiter, missing))
    ]
