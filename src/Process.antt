-- ===== src/Process.antt =====
-- Kernel/Layers/Logic/ProcessManager.hpp: the entries of the process table, with CpuState of
-- Kernel/Arch/x86.hpp. A pointer is its address, nullptr is 0; `none` for signal_actions is nullptr,
-- and `some` the array that the pointer leads to.
use twisted_os_v.Common.{ℕ, Bool, false, List, Option}

abbrev pub process_id_invalid : ℕ
process_id_invalid = 255

pub data ProcessState : Type 0 where
  process_running : ProcessState
  process_ready : ProcessState
  process_blocked : ProcessState
  process_terminated : ProcessState

pub data ProcessLevel : Type 0 where
  process_level_kernel : ProcessLevel
  process_level_user : ProcessLevel

pub data FileType : Type 0 where
  file_type_raw_binary : FileType
  file_type_elf : FileType

pub record CpuState : Type 0 where
  pub rax : ℕ
  pub rcx : ℕ
  pub rdx : ℕ
  pub rbx : ℕ
  pub rbp : ℕ
  pub rsi : ℕ
  pub rdi : ℕ
  pub r8 : ℕ
  pub r9 : ℕ
  pub r10 : ℕ
  pub r11 : ℕ
  pub r12 : ℕ
  pub r13 : ℕ
  pub r14 : ℕ
  pub r15 : ℕ
  pub rip : ℕ
  pub rflags : ℕ
  pub rsp : ℕ
  pub cs : ℕ
  pub ss : ℕ

abbrev pub empty_cpu_state : CpuState
empty_cpu_state = record {
  rax = 0;
  rcx = 0;
  rdx = 0;
  rbx = 0;
  rbp = 0;
  rsi = 0;
  rdi = 0;
  r8 = 0;
  r9 = 0;
  r10 = 0;
  r11 = 0;
  r12 = 0;
  r13 = 0;
  r14 = 0;
  r15 = 0;
  rip = 0;
  rflags = 0;
  rsp = 0;
  cs = 0;
  ss = 0;
}

pub record SavedSystemCallFrame : Type 0 where
  pub user_rsp : ℕ
  pub user_rip : ℕ
  pub user_rflags : ℕ
  pub user_rax : ℕ
  pub user_rcx : ℕ
  pub user_rdx : ℕ
  pub user_rbx : ℕ
  pub user_rbp : ℕ
  pub user_rsi : ℕ
  pub user_rdi : ℕ
  pub user_r8 : ℕ
  pub user_r9 : ℕ
  pub user_r10 : ℕ
  pub user_r11 : ℕ
  pub user_r12 : ℕ
  pub user_r13 : ℕ
  pub user_r14 : ℕ
  pub user_r15 : ℕ

abbrev pub empty_frame : SavedSystemCallFrame
empty_frame = record {
  user_rsp = 0;
  user_rip = 0;
  user_rflags = 0;
  user_rax = 0;
  user_rcx = 0;
  user_rdx = 0;
  user_rbx = 0;
  user_rbp = 0;
  user_rsi = 0;
  user_rdi = 0;
  user_r8 = 0;
  user_r9 = 0;
  user_r10 = 0;
  user_r11 = 0;
  user_r12 = 0;
  user_r13 = 0;
  user_r14 = 0;
  user_r15 = 0;
}

pub record MemoryMapping : Type 0 where
  pub in_use : Bool
  pub virtual_address_start : ℕ
  pub length : ℕ
  pub physical_address_start : ℕ
  pub is_anonymous : Bool

abbrev pub empty_mapping : MemoryMapping
empty_mapping = record {
  in_use = false;
  virtual_address_start = 0;
  length = 0;
  physical_address_start = 0;
  is_anonymous = false;
}

pub record SignalAction : Type 0 where
  pub handler : ℕ
  pub flags : ℕ
  pub restorer : ℕ
  pub mask : ℕ

abbrev pub empty_signal_action : SignalAction
empty_signal_action = record { handler = 0; flags = 0; restorer = 0; mask = 0 }

-- PendingChildStatus is an int32_t in the source; here it is only ever set to 0.
pub record Process : Type 0 where
  pub id : ℕ
  pub parent_id : ℕ
  pub waiting_for_vfork_child : Bool
  pub vfork_child_id : ℕ
  pub is_vfork_child : Bool
  pub vfork_parent_id : ℕ
  pub waiting_for_child : Bool
  pub waiting_for_system_call_return : Bool
  pub has_saved_system_call_frame : Bool
  pub has_pending_child_exit : Bool
  pub has_executed_execve : Bool
  pub pending_child_id : ℕ
  pub pending_child_status : ℕ
  pub saved_system_call_frame : SavedSystemCallFrame
  pub state : CpuState
  pub status : ProcessState
  pub level : ProcessLevel
  pub file_type : FileType
  pub stack_pointer : ℕ
  pub kernel_system_call_stack_base : ℕ
  pub kernel_system_call_stack_top : ℕ
  pub user_fs_base : ℕ
  pub process_group_id : ℕ
  pub session_id : ℕ
  pub blocked_signal_mask : ℕ
  pub pending_signal_mask : ℕ
  pub interrupted_by_signal : Bool
  pub has_saved_signal_state : Bool
  pub saved_signal_mask : ℕ
  pub saved_signal_frame : SavedSystemCallFrame
  pub saved_signal_rip : ℕ
  pub saved_signal_rsp : ℕ
  pub saved_signal_was_syscall : Bool
  pub debug_syscall_trace_remaining : ℕ
  pub debug_is_xorg_process : Bool
  pub clear_child_tid_address : ℕ
  pub program_break : ℕ
  pub real_interval_timer_remaining_ticks : ℕ
  pub real_interval_timer_interval_ticks : ℕ
  pub file_creation_mask : ℕ
  pub resource_limits_initialized : Bool
  pub resource_limit_current : List ℕ
  pub resource_limit_maximum : List ℕ
  pub name : List ℕ
  pub address_space : ℕ
  pub current_file_system_location : ℕ
  pub running_executable_dentry : ℕ
  pub running_executable_inode : ℕ
  pub file_table : List ℕ
  pub signal_actions : Option (List SignalAction)
  pub memory_mappings : List MemoryMapping
