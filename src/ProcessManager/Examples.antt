-- ===== src/ProcessManager/Examples.antt =====
-- A fresh process table, and the theorems at it.
use twisted_os_v.Common.{◌<◌, arith, ◌+◌, false, [], none}
use twisted_os_v.Process.{
  Process, empty_frame, empty_cpu_state, process_blocked, process_level_user, process_level_kernel,
  file_type_elf,
}
use twisted_os_v.ProcessManager.{
  ProcessManager, new_process_manager, create_kernel_process, create_user_process, kill_process,
  get_running_process,
}
use twisted_os_v.ProcessManager.Table.{new_process_manager-IsTable}
use twisted_os_v.ProcessManager.Reuse.{create_user_process-kill_process}
use twisted_os_v.ProcessManager.Lifecycle.{
  Created, Running, create_kernel_process-Created, create_user_process-Created,
  get_running_process-Running,
}

abbrev raw_process : Process
raw_process = record {
  id = 0;
  parent_id = 0;
  waiting_for_vfork_child = false;
  vfork_child_id = 0;
  is_vfork_child = false;
  vfork_parent_id = 0;
  waiting_for_child = false;
  waiting_for_system_call_return = false;
  has_saved_system_call_frame = false;
  has_pending_child_exit = false;
  has_executed_execve = false;
  pending_child_id = 0;
  pending_child_status = 0;
  saved_system_call_frame = empty_frame;
  state = empty_cpu_state;
  status = process_blocked;
  level = process_level_user;
  file_type = file_type_elf;
  stack_pointer = 0;
  kernel_system_call_stack_base = 0;
  kernel_system_call_stack_top = 0;
  user_fs_base = 0;
  process_group_id = 0;
  session_id = 0;
  blocked_signal_mask = 0;
  pending_signal_mask = 0;
  interrupted_by_signal = false;
  has_saved_signal_state = false;
  saved_signal_mask = 0;
  saved_signal_frame = empty_frame;
  saved_signal_rip = 0;
  saved_signal_rsp = 0;
  saved_signal_was_syscall = false;
  debug_syscall_trace_remaining = 0;
  debug_is_xorg_process = false;
  clear_child_tid_address = 0;
  program_break = 0;
  real_interval_timer_remaining_ticks = 0;
  real_interval_timer_interval_ticks = 0;
  file_creation_mask = 0;
  resource_limits_initialized = false;
  resource_limit_current = [];
  resource_limit_maximum = [];
  name = [];
  address_space = 0;
  current_file_system_location = 0;
  running_executable_dentry = 0;
  running_executable_inode = 0;
  file_table = [];
  signal_actions = none;
  memory_mappings = [];
}

abbrev fresh : ProcessManager
fresh = new_process_manager (λ _. raw_process)

create_kernel_process-Created_example :
    Created fresh 4096 0 process_level_kernel empty_cpu_state
      (create_kernel_process 65536 fresh 4096 empty_cpu_state)
create_kernel_process-Created_example =
    create_kernel_process-Created 65536 fresh 4096 empty_cpu_state
      (new_process_manager-IsTable (λ _. raw_process))

create_user_process-Created_example :
    Created fresh 4096 512 process_level_user empty_cpu_state
      (create_user_process 65536 (λ a. a + 8) fresh 4096 empty_cpu_state 512 file_type_elf)
create_user_process-Created_example =
    create_user_process-Created 65536 (λ a. a + 8) fresh 4096 empty_cpu_state 512 file_type_elf
      (new_process_manager-IsTable (λ _. raw_process))

get_running_process-Running_example : Running fresh (get_running_process fresh)
get_running_process-Running_example =
    get_running_process-Running fresh (new_process_manager-IsTable (λ _. raw_process))

create_user_process-kill_process_example :
    (create_user_process 65536
      (λ a. a + 8)
      (kill_process fresh 3).2
      4096
      empty_cpu_state
      512
      file_type_elf).0
    < 32
create_user_process-kill_process_example =
    create_user_process-kill_process 65536 (λ a. a + 8) fresh 3 4096 empty_cpu_state 512
      file_type_elf (new_process_manager-IsTable (λ _. raw_process)) (omega arith)
