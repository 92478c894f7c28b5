-- ===== src/Synchronization/EventQueues/Watches.antt =====
-- The watches of the event queues of SynchronizationManager.cpp.
use twisted_os_v.Common.{
  ℕ, ◌≡◌, refl, Bool, false, ◌&&◌, ◌||◌, not, List, [], ◌∷◌, arith, ◌==◌, Bool-cases, inl, inr,
}
use twisted_os_v.Synchronization.EventQueues.{
  EpollWatchTag, EventQueueKernelObject, drop_watches, remove_watches_for_file,
}

-- Whether a list of watches has one of the file.
abbrev pub watches_file : ℕ → List EpollWatchTag → Bool
watches_file file [] = false
watches_file file (w ∷ ws) = w.file_descriptor == file || watches_file file ws

-- Whether some queue with this key watches the file.
abbrev pub watched : List EventQueueKernelObject → (process_id epoll file : ℕ) → Bool
watched [] process_id epoll file = false
watched (q ∷ qs) process_id epoll file =
    (q.process_id == process_id && (q.file_descriptor == epoll && watches_file file q.watches))
    || watched qs process_id epoll file

drop_watches-file :
    (target file : ℕ) (ws : List EpollWatchTag)
    → watches_file file (drop_watches target ws) ≡ (watches_file file ws && not (file == target))
unfolding drop_watches
drop_watches-file target file [] = refl
drop_watches-file target file (w ∷ ws) = ground (arith, drop_watches-file target file ws)

-- RemoveWatchesForFile ends every watch of the file by a queue of the process; every other watch, of
-- the process or of another one, stays.
pub remove_watches_for_file-watched :
    (store : List EventQueueKernelObject) (process_id target q_process epoll file : ℕ)
    → watched (remove_watches_for_file store process_id target) q_process epoll file
      ≡ (watched store q_process epoll file && not (q_process == process_id && file == target))
unfolding remove_watches_for_file
remove_watches_for_file-watched [] process_id target q_process epoll file = refl
remove_watches_for_file-watched (q ∷ qs) process_id target q_process epoll file =
    elim (Bool-cases (q.process_id == process_id)) [
      | inl own ↦ rw own (
          ground (
            arith,
            own,
            drop_watches-file target file q.watches,
            remove_watches_for_file-watched qs process_id target q_process epoll file,
          ))
      | inr other ↦ rw other (
          ground (
            arith,
            other,
            remove_watches_for_file-watched qs process_id target q_process epoll file,
          ))
    ]
