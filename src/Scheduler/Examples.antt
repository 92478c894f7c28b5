-- ===== src/Scheduler/Examples.antt =====
-- A scheduler with the nodes 8, 16 and 24 of the processes 1, 2 and 3, and the theorems at it.
use twisted_os_v.Common.{ℕ, ◌≡◌, ◌≢◌, refl, true, [], ◌∷◌, some, arith, ◌==◌, inr, if◌then◌else◌}
use twisted_os_v.Scheduler.{
  Scheduler, add_to_ready_queue, remove_from_ready_queue, select_next_process,
}
use twisted_os_v.Scheduler.Tags.{IsScheduler}
use twisted_os_v.Scheduler.Ready.{
  add_to_ready_queue-IsScheduler, remove_from_ready_queue-IsScheduler,
  select_next_process-IsScheduler,
}
use twisted_os_v.Scheduler.RoundRobin.{selections, selections-round}

abbrev next_fields : ℕ → ℕ
next_fields a = if a == 8 then 16 else if a == 16 then 24 else 0

abbrev ids : ℕ → ℕ
ids a = if a == 8 then 1 else if a == 16 then 2 else 3

abbrev running : Scheduler
running = record {
  ready_queue = record { head_node = 8; tail_node = 24; next = next_fields };
  id = ids;
  current_process = 8;
}

running-IsScheduler : IsScheduler running (8 ∷ 16 ∷ 24 ∷ [])
running-IsScheduler = record {
  queue = record {
    chain = (refl, omega arith, (refl, omega arith, (refl, omega arith, refl)));
    distinct = (refl, (refl, (refl, tt)));
    tail = refl;
  };
  current = inr refl;
}

add_to_ready_queue-IsScheduler_example :
    IsScheduler (add_to_ready_queue running 32 4) (8 ∷ 16 ∷ 24 ∷ 32 ∷ [])
    × ((add_to_ready_queue running 32 4).id 32 ≡ 4)
    × ((a : ℕ) → a ≢ 32 → (add_to_ready_queue running 32 4).id a ≡ ids a)
    × ((add_to_ready_queue running 32 4).current_process ≡ running.current_process)
add_to_ready_queue-IsScheduler_example =
    add_to_ready_queue-IsScheduler running 32 4 (8 ∷ 16 ∷ 24 ∷ []) running-IsScheduler (omega arith)
      refl

remove_from_ready_queue-IsScheduler_example :
    (s : Scheduler) × (remove_from_ready_queue 5 running 2 ≡ some (true, s))
    × IsScheduler s (8 ∷ 24 ∷ [])
    × (s.id ≡ ids)
    × (running.current_process ≢ 16 → s.current_process ≡ 8)
remove_from_ready_queue-IsScheduler_example =
    remove_from_ready_queue-IsScheduler 5 running 2 (8 ∷ 16 ∷ 24 ∷ []) running-IsScheduler
      (omega arith)

select_next_process-IsScheduler_example :
    IsScheduler (select_next_process running).1 (16 ∷ 24 ∷ 8 ∷ [])
    × ((select_next_process running).1.current_process ≡ 16)
    × ((select_next_process running).0 ≡ 2)
    × ((select_next_process running).1.id ≡ ids)
select_next_process-IsScheduler_example =
    select_next_process-IsScheduler running (8 ∷ 16 ∷ 24 ∷ []) running-IsScheduler

selections-round_example : selections 3 running ≡ 2 ∷ 3 ∷ 1 ∷ []
selections-round_example = selections-round running 8 (16 ∷ 24 ∷ []) running-IsScheduler refl
