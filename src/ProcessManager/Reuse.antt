-- ===== src/ProcessManager/Reuse.antt =====
-- KillProcess and then CreateUserProcess of ProcessManager.cpp.
use twisted_os_v.Common.{
  ℕ, ◌<◌, ◌≡◌, sym, ap, subst, true, arith, inl, inr, some, get_elem?, set, get_elem?-set_self,
}
use twisted_os_v.Process.{Process, FileType, CpuState, process_level_user}
use twisted_os_v.ProcessManager.{
  ProcessManager, max_processes, is_terminated, create_user_process, kill_process,
}
use twisted_os_v.ProcessManager.Slots.{FirstAt-get_elem?, NonePass-get_elem?, get_elem?-lt}
use twisted_os_v.ProcessManager.Table.{IsTable}
use twisted_os_v.ProcessManager.Lifecycle.{
  Created, create_user_process-Created, kill_process-outcome,
}

-- A table with a free slot has room for a process.
created_lem :
    (m : ProcessManager) (stack_pointer address_space id : ℕ) (state : CpuState)
    (result : ℕ × ProcessManager) (p : Process)
    → IsTable m
    → get_elem? m.processes id ≡ some p
    → is_terminated p.status ≡ true
    → Created m stack_pointer address_space process_level_user state result
    → result.0 < max_processes
created_lem m stack_pointer address_space id state result p is at free
      (inl (index, q, entry, first, made, _, _, _, _, _, _, _)) =
    let inside =
      get_elem?-lt m.processes index q
        (FirstAt-get_elem? is_terminated m.processes index q first).0 in
    let e : result.0 ≡ index = ap (λ r. r.0) made in omega (arith, inside, e, is.size)
created_lem m stack_pointer address_space id state result p is at free (inr (full, made)) =
    absurd (ground (arith, NonePass-get_elem? is_terminated m.processes id p full at, free))

-- After KillProcess of a slot of the table, CreateUserProcess succeeds: it returns the id of a slot.
pub create_user_process-kill_process :
    (stacks : ℕ) (heap_start : ℕ → ℕ) (m : ProcessManager) (id stack_pointer : ℕ) (state : CpuState)
    (address_space : ℕ) (file_type : FileType)
    → IsTable m
    → id < max_processes
    → (create_user_process stacks heap_start
        (kill_process m id).2
        stack_pointer
        state
        address_space
        file_type).0
      < max_processes
create_user_process-kill_process stacks heap_start m id stack_pointer state address_space file_type
      is inside =
    elim (kill_process-outcome m id is) [
      | inl (p, entry, at, killed, free, _, is') ↦
          let m' = record m { processes = set m.processes id entry } in
          let there : get_elem? m'.processes id ≡ some entry =
            get_elem?-set_self m.processes id entry (omega (arith, inside, is.size)) in
          let made =
            create_user_process-Created stacks heap_start m' stack_pointer state address_space
              file_type is' in
          let fits =
            created_lem m' stack_pointer address_space id state
              (create_user_process stacks heap_start m' stack_pointer state address_space file_type)
              entry is' there free made in
          subst
            (λ t.
              (create_user_process stacks heap_start t stack_pointer state address_space
                file_type).0
              < max_processes)
            (sym (ap (λ r. r.2) killed)) fits
      | inr (outside, _) ↦ absurd (omega (arith, inside, outside))
    ]
