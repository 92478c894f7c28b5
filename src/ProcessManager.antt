-- ===== src/ProcessManager.antt =====
-- Kernel/Layers/Logic/ProcessManager.cpp: the process table and its operations. A process is
-- pointed to by its index in the table. Parameters are the address of
-- ProcessKernelSystemCallStacks and the heap start that an address space keeps.
pub mod Slots
pub mod Table
pub mod Lifecycle
pub mod Reuse
mod Examples
use twisted_os_v.Common.{
  ℕ, zero, suc, ◌+◌, ◌-◌, ◌*◌, ◌/◌, ◌<◌, Bool, true, false, not, ◌&&◌, List, [], ◌∷◌, Option, none,
  some, ◌==◌, ltb, if◌then◌else◌, get_elem?, set, replicate,
}
use twisted_os_v.Common.Words.{u64, u64_limit}
use twisted_os_v.Process.{
  process_id_invalid, ProcessState, process_running, process_ready, process_blocked,
  process_terminated, ProcessLevel, process_level_kernel, process_level_user, FileType,
  file_type_raw_binary, CpuState, empty_cpu_state, empty_frame, empty_mapping, SignalAction,
  empty_signal_action, Process,
}

abbrev pub max_processes : ℕ
max_processes = 32

abbrev pub max_open_files_per_process : ℕ
max_open_files_per_process = 256

abbrev pub kernel_system_call_stack_size : ℕ
kernel_system_call_stack_size = 65536

pub record ProcessManager : Type 0 where
  pub processes : List Process
  pub current_process_id : ℕ

abbrev pub is_terminated : ProcessState → Bool
is_terminated process_terminated = true
is_terminated process_running = false
is_terminated process_ready = false
is_terminated process_blocked = false

abbrev pub is_running : ProcessState → Bool
is_running process_running = true
is_running process_terminated = false
is_running process_ready = false
is_running process_blocked = false

-- `& ~0xF` rounds down to a multiple of 16; the arithmetic is on uint64_t.
unfoldable pub compute_kernel_system_call_stack_top : ℕ → ℕ
compute_kernel_system_call_stack_top stack_base =
    if stack_base == 0
    then 0
    else u64 (u64 (stack_base + kernel_system_call_stack_size) / 16 * 16 + (u64_limit - 8))

abbrev pub reset_file_table_entries : List ℕ
reset_file_table_entries = replicate max_open_files_per_process 0

-- ReleaseProcessFileTable deletes the open files, in order; deleting nullptr does nothing.
unfoldable pub released_files : List ℕ → List ℕ
released_files [] = []
released_files (file ∷ files) =
    let rest = released_files files in if file == 0 then rest else file ∷ rest

unfoldable pub reset_signal_actions : Option (List SignalAction) → Option (List SignalAction)
reset_signal_actions none = none
reset_signal_actions (some actions) = some (replicate 64 empty_signal_action)

unfoldable pub ensure_signal_actions : Option (List SignalAction) → Option (List SignalAction)
ensure_signal_actions (some actions) = some actions
ensure_signal_actions none = some (replicate 64 empty_signal_action)

-- InitializeProcessEntry, which never fails: EnsureProcessSignalActions always returns true.
unfoldable pub initialize_process_entry :
    Process
    → ProcessState
    → ProcessLevel
    → FileType
    → (stack_pointer kernel_system_call_stack_base program_break address_space : ℕ) → CpuState
    → (reset_file_table : Bool) → Bool × Process
initialize_process_entry entry status level file_type stack_pointer kernel_system_call_stack_base
      program_break address_space state reset_file_table =
    (
      true,
      record {
        id = entry.id;
        parent_id = process_id_invalid;
        waiting_for_vfork_child = false;
        vfork_child_id = process_id_invalid;
        is_vfork_child = false;
        vfork_parent_id = process_id_invalid;
        waiting_for_child = false;
        waiting_for_system_call_return = false;
        has_saved_system_call_frame = false;
        has_pending_child_exit = false;
        has_executed_execve = false;
        pending_child_id = process_id_invalid;
        pending_child_status = 0;
        saved_system_call_frame = empty_frame;
        state = state;
        status = status;
        level = level;
        file_type = file_type;
        stack_pointer = stack_pointer;
        kernel_system_call_stack_base = kernel_system_call_stack_base;
        kernel_system_call_stack_top =
            compute_kernel_system_call_stack_top kernel_system_call_stack_base;
        user_fs_base = 0;
        process_group_id = if is_terminated status then 0 else entry.id;
        session_id = if is_terminated status then 0 else entry.id;
        blocked_signal_mask = 0;
        pending_signal_mask = 0;
        interrupted_by_signal = false;
        has_saved_signal_state = false;
        saved_signal_mask = 0;
        saved_signal_frame = empty_frame;
        saved_signal_rip = 0;
        saved_signal_rsp = 0;
        saved_signal_was_syscall = false;
        debug_syscall_trace_remaining = 0;
        debug_is_xorg_process = false;
        clear_child_tid_address = 0;
        program_break = program_break;
        real_interval_timer_remaining_ticks = 0;
        real_interval_timer_interval_ticks = 0;
        file_creation_mask = 18;
        resource_limits_initialized = false;
        resource_limit_current = replicate 16 0;
        resource_limit_maximum = replicate 16 0;
        name = replicate 16 0;
        address_space = address_space;
        current_file_system_location = 0;
        running_executable_dentry = 0;
        running_executable_inode = 0;
        file_table = if reset_file_table then reset_file_table_entries else entry.file_table;
        signal_actions =
            reset_signal_actions
              (if is_terminated status then none else ensure_signal_actions entry.signal_actions);
        memory_mappings = replicate 1024 empty_mapping;
      },
    )

-- The loop of the constructor, from an index on.
unfoldable pub new_processes : (remaining index : ℕ) → (ℕ → Process) → List Process
new_processes zero index raw = []
new_processes (suc remaining) index raw =
    (initialize_process_entry (record (raw index) { id = index }) process_terminated
      process_level_kernel file_type_raw_binary 0 0 0 0 empty_cpu_state true).1
    ∷ new_processes remaining (suc index) raw

-- The constructor. `raw` is what the memory of the entries holds before it.
unfoldable pub new_process_manager : (ℕ → Process) → ProcessManager
new_process_manager raw = record {
  processes = new_processes max_processes 0 raw;
  current_process_id = 0;
}

unfoldable pub get_process_by_id : ProcessManager → ℕ → Option Process
get_process_by_id m id = if not (ltb id max_processes) then none else get_elem? m.processes id

unfoldable pub get_current_process : ProcessManager → Option Process
get_current_process m = elim (get_process_by_id m m.current_process_id) [
  | none ↦ none
  | some p ↦ if is_terminated p.status then none else some p
]

-- The loops over the table: the first entry with a status that passes, and its index.
unfoldable pub find_slot : (ProcessState → Bool) → List Process → Option (ℕ × Process)
find_slot test [] = none
find_slot test (p ∷ ps) =
    let rest = find_slot test ps in
    if test p.status
    then some (0, p)
    else elim rest [ none ↦ none | some (index, found) ↦ some (suc index, found) ]

unfoldable pub search_running : ProcessManager → Option Process × ProcessManager
search_running m = elim (find_slot is_running m.processes) [
  | none ↦ (none, record m { current_process_id = process_id_invalid })
  | some (index, p) ↦ (some p, record m { current_process_id = p.id })
]

unfoldable pub get_running_process : ProcessManager → Option Process × ProcessManager
get_running_process m = elim (get_current_process m) [
  | none ↦ search_running m
  | some p ↦ if is_running p.status then (some p, m) else search_running m
]

unfoldable pub update_current_process_id : ProcessManager → ℕ → ProcessManager
update_current_process_id m id = record m { current_process_id = id }

-- What both Create functions do in the first free slot.
unfoldable pub create_process :
    ProcessManager
    → ProcessLevel
    → FileType
    → (stack_pointer stacks program_break address_space : ℕ) → CpuState
    → ℕ × ProcessManager
create_process m level file_type stack_pointer stacks program_break address_space state =
    elim (find_slot is_terminated m.processes) [
      | none ↦ (process_id_invalid, m)
      | some (index, p) ↦
          let (initialized, entry) =
            initialize_process_entry p process_ready level file_type stack_pointer
              (stacks + kernel_system_call_stack_size * index) program_break address_space state
              true in
          let m' = record m { processes = set m.processes index entry } in
          if not initialized then (process_id_invalid, m') else (entry.id, m')
    ]

unfoldable pub create_kernel_process :
    (stacks : ℕ) → ProcessManager → (stack_pointer : ℕ) → CpuState → ℕ × ProcessManager
create_kernel_process stacks m stack_pointer state =
    create_process m process_level_kernel file_type_raw_binary stack_pointer stacks 0 0 state

unfoldable pub create_user_process :
    (stacks : ℕ) (heap_start : ℕ → ℕ)
    → ProcessManager
    → (stack_pointer : ℕ) → CpuState
    → (address_space : ℕ) → FileType
    → ℕ × ProcessManager
create_user_process stacks heap_start m stack_pointer state address_space file_type =
    let program_break = if not (address_space == 0) then heap_start address_space else 0 in
    create_process m process_level_user file_type stack_pointer stacks program_break address_space
      state

-- KillProcess: the stack pointer, the files that are deleted, and the table.
unfoldable pub kill_process : ProcessManager → ℕ → ℕ × List ℕ × ProcessManager
kill_process m id =
    if not (ltb id max_processes) then (0, [], m) else elim (get_elem? m.processes id) [
      | none ↦ (0, [], m)
      | some p ↦
          let (_, entry) =
            initialize_process_entry (record p { file_table = reset_file_table_entries })
              process_terminated process_level_kernel file_type_raw_binary 0 0 0 0 empty_cpu_state
              true in
          (
            p.stack_pointer,
            released_files p.file_table,
            record m { processes = set m.processes id entry },
          )
    ]
