-- ===== src/ProcessManager/Lifecycle.antt =====
-- The operations of ProcessManager.cpp on a table.
use twisted_os_v.Common.{
  ℕ, ◌+◌, ◌*◌, ◌<◌, ◌≤◌, ◌≡◌, refl, sym, ap, subst, ◌∙◌, true, not, List, [], Option, none, some,
  arith, ltb, ltb→lt, ◌==◌, if◌then◌else◌, Bool-cases, Option-cases, ◌⊎◌, inl, inr, get_elem?,
  length, set, replicate,
}
use twisted_os_v.Process.{
  Process, ProcessLevel, process_level_kernel, process_level_user, FileType, file_type_raw_binary,
  CpuState, empty_cpu_state, process_terminated, process_ready, process_id_invalid, SignalAction,
  empty_signal_action,
}
use twisted_os_v.ProcessManager.{
  kernel_system_call_stack_size, reset_file_table_entries, ProcessManager, max_processes,
  is_terminated, is_running, initialize_process_entry, create_process, create_kernel_process,
  create_user_process, kill_process, get_process_by_id, get_current_process, get_running_process,
  search_running, released_files, reset_signal_actions, ensure_signal_actions,
}
use twisted_os_v.ProcessManager.Slots.{
  NonePass, FirstAt, find_slot-first, FirstAt-get_elem?, get_elem?-lt, get_elem?-some,
}
use twisted_os_v.ProcessManager.Table.{IsTable, IsEntry, IsTable-set}

-- What a Create function returns: the first free slot, now ready with what it was given, or 0xFF and
-- the table as it was if no slot is free.
abbrev pub Created :
    ProcessManager
    → (stack_pointer address_space : ℕ) → ProcessLevel
    → CpuState
    → ℕ × ProcessManager
    → Type 0
Created m stack_pointer address_space level state result =
    ((index : ℕ) × (p entry : Process) × FirstAt is_terminated m.processes index p
      × (result ≡ (index, record m { processes = set m.processes index entry }))
      × IsTable result.1
      × (entry.status ≡ process_ready)
      × (entry.level ≡ level)
      × (entry.stack_pointer ≡ stack_pointer)
      × (entry.address_space ≡ address_space)
      × (entry.state ≡ state)
      × (entry.signal_actions ≡ some (replicate 64 empty_signal_action)))
    ⊎ NonePass is_terminated m.processes × (result ≡ (process_id_invalid, m))

reset_ensure :
    (actions : Option (List SignalAction))
    → reset_signal_actions (ensure_signal_actions actions) ≡ some (replicate 64 empty_signal_action)
unfolding reset_signal_actions ensure_signal_actions
reset_ensure none = refl
reset_ensure (some actions) = refl

create_process-Created :
    (m : ProcessManager) (level : ProcessLevel) (file_type : FileType)
    (stack_pointer stacks program_break address_space : ℕ) (state : CpuState)
    → IsTable m
    → Created m stack_pointer address_space level state
        (create_process m level file_type stack_pointer stacks program_break address_space state)
unfolding create_process initialize_process_entry reset_signal_actions ensure_signal_actions
create_process-Created m level file_type stack_pointer stacks program_break address_space state is =
    elim (find_slot-first is_terminated m.processes) [
      | inl (index, p, found, first) ↦
          let (at, passes) = FirstAt-get_elem? is_terminated m.processes index p first in
          let is_p = is.entries index p at in
          let entry =
            (initialize_process_entry p process_ready level file_type stack_pointer
              (stacks + kernel_system_call_stack_size * index) program_break address_space state
              true).1 in
          let m' = record m { processes = set m.processes index entry } in
          let is' : IsTable m' =
            IsTable-set m index entry is
              (record { id = is_p.id; cleared = λ e. absurd (ground (arith, e)) })
              (get_elem?-lt m.processes index p at) in
          let made : create_process m level file_type stack_pointer stacks program_break
                address_space state
              ≡ (index, m') =
            rw (create_process, found) (ap (λ k. (k, m')) is_p.id) in
          inl (
            index,
            p,
            entry,
            first,
            made,
            subst (λ r. IsTable r.1) (sym made) is',
            refl,
            refl,
            refl,
            refl,
            refl,
            reset_ensure p.signal_actions,
          )
      | inr (missing, full) ↦ inr (full, rw (create_process, missing))
    ]

-- CreateKernelProcess makes the first free slot a ready kernel process with the stack pointer and
-- the state that it is given, no address space and fresh signal actions, and returns its index; if no
-- slot is free it returns 0xFF and changes nothing.
pub create_kernel_process-Created :
    (stacks : ℕ) (m : ProcessManager) (stack_pointer : ℕ) (state : CpuState)
    → IsTable m
    → Created m stack_pointer 0 process_level_kernel state
        (create_kernel_process stacks m stack_pointer state)
unfolding create_kernel_process
create_kernel_process-Created stacks m stack_pointer state is =
    create_process-Created m process_level_kernel file_type_raw_binary stack_pointer stacks 0 0
      state is

-- CreateUserProcess makes the first free slot a ready user process with the stack pointer, the
-- address space and the state that it is given and fresh signal actions, and returns its index; if no
-- slot is free it returns 0xFF and changes nothing.
pub create_user_process-Created :
    (stacks : ℕ) (heap_start : ℕ → ℕ) (m : ProcessManager) (stack_pointer : ℕ) (state : CpuState)
    (address_space : ℕ) (file_type : FileType)
    → IsTable m
    → Created m stack_pointer address_space process_level_user state
        (create_user_process stacks heap_start m stack_pointer state address_space file_type)
unfolding create_user_process
create_user_process-Created stacks heap_start m stack_pointer state address_space file_type is =
    create_process-Created m process_level_user file_type stack_pointer stacks
      (if not (address_space == 0) then heap_start address_space else 0) address_space state is

pub kill_process-outcome :
    (m : ProcessManager) (id : ℕ)
    → IsTable m
    → ((p entry : Process) × (get_elem? m.processes id ≡ some p)
        × (kill_process m id ≡ (
          p.stack_pointer,
          released_files p.file_table,
          record m { processes = set m.processes id entry },
        ))
        × (is_terminated entry.status ≡ true)
        × IsEntry id entry
        × IsTable (record m { processes = set m.processes id entry }))
      ⊎ (max_processes ≤ id) × (kill_process m id ≡ (0, [], m))
unfolding kill_process initialize_process_entry reset_signal_actions
kill_process-outcome m id is = elim (Bool-cases (ltb id max_processes)) [
  | inr outside ↦ inr (ground arith, rw outside)
  | inl inside ↦
      let within : id < length m.processes =
        omega (arith, ltb→lt id max_processes inside, is.size) in
      let (p, at) = get_elem?-some m.processes id within in
      let entry =
        (initialize_process_entry (record p { file_table = reset_file_table_entries })
          process_terminated process_level_kernel file_type_raw_binary 0 0 0 0 empty_cpu_state
          true).1 in
      let is_entry : IsEntry id entry = record {
        id = (is.entries id p at).id;
        cleared = λ _. record { stack = refl; files = refl; space = refl; actions = refl };
      } in
      inl (
        p,
        entry,
        at,
        rw (kill_process, inside, at),
        refl,
        is_entry,
        IsTable-set m id entry is is_entry within,
      )
]

-- A running process of the table is found, whose id is the current one then, or there is none.
abbrev pub Running : ProcessManager → Option Process × ProcessManager → Type 0
Running m result =
    ((p : Process) × (m' : ProcessManager) × (result ≡ (some p, m'))
      × (is_running p.status ≡ true)
      × (get_elem? m.processes p.id ≡ some p)
      × (m'.current_process_id ≡ p.id)
      × (m'.processes ≡ m.processes))
    ⊎ NonePass is_running m.processes
      × (result ≡ (none, record m { current_process_id = process_id_invalid }))

search_running-Running : (m : ProcessManager) → IsTable m → Running m (search_running m)
unfolding search_running
search_running-Running m is = elim (find_slot-first is_running m.processes) [
  | inl (index, p, found, first) ↦
      let (at, runs) = FirstAt-get_elem? is_running m.processes index p first in
      let here =
        subst (λ k. get_elem? m.processes k ≡ some p) (sym (is.entries index p at).id) at in
      inl (
        p,
        record m { current_process_id = p.id },
        rw (search_running, found),
        runs,
        here,
        refl,
        refl,
      )
  | inr (missing, idle) ↦ inr (idle, rw (search_running, missing))
]

get_process_by_id-entry :
    (m : ProcessManager) (id : ℕ) (p : Process)
    → get_process_by_id m id ≡ some p
    → get_elem? m.processes id ≡ some p
unfolding get_process_by_id
get_process_by_id-entry m id p got = elim (Bool-cases (ltb id max_processes)) [
  | inl inside ↦ sym (rw (get_process_by_id, inside) refl) ∙ got
  | inr outside ↦ absurd (ground (arith, got, outside))
]

get_current_process-entry :
    (m : ProcessManager) (p : Process)
    → get_current_process m ≡ some p
    → get_elem? m.processes m.current_process_id ≡ some p
unfolding get_current_process
get_current_process-entry m p got = elim (Option-cases (get_process_by_id m m.current_process_id)) [
  | inl missing ↦
      let nothing : get_current_process m ≡ none = rw (get_current_process, missing) refl in
      absurd (ground (arith, sym nothing ∙ got))
  | inr (q, found) ↦ elim (Bool-cases (is_terminated q.status)) [
    | inl over ↦
        let nothing : get_current_process m ≡ none = rw (get_current_process, found, over) refl in
        absurd (ground (arith, sym nothing ∙ got))
    | inr live ↦
        let this : get_current_process m ≡ some q = rw (get_current_process, found, live) refl in
        get_process_by_id-entry m m.current_process_id p (found ∙ sym this ∙ got)
  ]
]

-- GetRunningProcess returns a running process of the table whenever there is one and keeps its id as
-- the current one; if there is none it sets the current id to 0xFF. The table stays as it is.
pub get_running_process-Running :
    (m : ProcessManager) → IsTable m → Running m (get_running_process m)
unfolding get_running_process
get_running_process-Running m is = elim (Option-cases (get_current_process m)) [
  | inl missing ↦
      subst (Running m) (sym (rw (get_running_process, missing) refl)) (search_running-Running m is)
  | inr (p, found) ↦ elim (Bool-cases (is_running p.status)) [
    | inl runs ↦
        let at = get_current_process-entry m p found in
        let current = (is.entries m.current_process_id p at).id in
        inl (
          p,
          m,
          rw (get_running_process, found, runs),
          runs,
          subst (λ k. get_elem? m.processes k ≡ some p) (sym current) at,
          sym current,
          refl,
        )
    | inr idle ↦
        subst (Running m) (sym (rw (get_running_process, found, idle) refl))
          (search_running-Running m is)
  ]
]
