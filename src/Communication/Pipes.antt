-- ===== src/Communication/Pipes.antt =====
-- PipeRead, PipeWrite and PipePoll of InterProcessComunicationManager.cpp. What other processes do
-- while a call sleeps is a list of states, one for each time that it wakes up; a call that is still
-- waiting at the end of the list is asleep. The chain from the dispatcher to the running process is
-- one flag, whether it is there.
use twisted_os_v.Common.{
  ℕ, ◌+◌, ◌-◌, ◌/◌, ◌%◌, Bool, false, ◌&&◌, not, Option, none, some, List, [], ◌∷◌, length, ◌==◌,
  ltb, if◌then◌else◌,
}
use twisted_os_v.Common.Words.{u64, u64_limit}
use twisted_os_v.Communication.Ring.{read_loop, write_loop}

abbrev pub linux_pipe_buffer_capacity : ℕ
linux_pipe_buffer_capacity = 4096

pub data PipeError : Type 0 where
  einval : PipeError
  enomem : PipeError
  eagain : PipeError
  emfile : PipeError
  ebadf : PipeError
  epipe : PipeError
  eintr : PipeError

-- What a call returns: a number of bytes, or a negative number.
pub data IoResult : Type 0 where
  transferred : ℕ → IoResult
  failed : PipeError → IoResult

pub record PipeKernelObject : Type 0 where
  pub buffer : ℕ → ℕ
  pub read_offset : ℕ
  pub write_offset : ℕ
  pub buffered_bytes : ℕ
  pub reader_reference_count : ℕ
  pub writer_reference_count : ℕ
  pub read_endpoint : ℕ
  pub write_endpoint : ℕ
  pub read_node : ℕ
  pub write_node : ℕ

-- An endpoint as the calls see it.
pub record PipeEnd : Type 0 where
  pub has_pipe : Bool
  pub is_read_end : Bool

pub record PipeFile : Type 0 where
  pub endpoint : Option PipeEnd
  pub is_non_blocking : Bool

-- The pipe, and the flag of the running process that a signal sets.
pub record PipeCall : Type 0 where
  pub pipe : PipeKernelObject
  pub interrupted_by_signal : Bool

-- The result, the bytes at the start of the caller's buffer, and the state after the call.
pub data Outcome : Type 0 where
  returned : IoResult → List ℕ → PipeCall → Outcome
  asleep : PipeCall → Outcome

-- The end of a loop of waiting.
pub data Waited : Type 0 where
  ready : PipeCall → Waited
  ended : IoResult → PipeCall → Waited
  waiting : PipeCall → Waited

-- A loop that sleeps as long as its check has no answer.
unfoldable pub wait_loop : (PipeCall → Option Waited) → List PipeCall → PipeCall → Waited
wait_loop check [] call = elim (check call) [ some answer ↦ answer | none ↦ waiting call ]
wait_loop check (woken ∷ later) call = elim (check call) [
  | some answer ↦ answer
  | none ↦
      if woken.interrupted_by_signal
      then ended (failed eintr) (record woken { interrupted_by_signal = false })
      else wait_loop check later woken
]

-- One round of the loop of PipeRead.
unfoldable pub read_check : (is_non_blocking active : Bool) → PipeCall → Option Waited
read_check is_non_blocking active call =
    if not (call.pipe.buffered_bytes == 0)
    then some (ready call)
    else if call.pipe.writer_reference_count == 0
    then some (ended (transferred 0) call)
    else if is_non_blocking
    then some (ended (failed eagain) call)
    else if not active
    then some (ended (failed eagain) call)
    else none

abbrev pub available_space : PipeKernelObject → ℕ
available_space pipe = u64 (linux_pipe_buffer_capacity + (u64_limit - pipe.buffered_bytes))

-- One round of the loop of PipeWrite.
unfoldable pub write_check : (is_non_blocking active : Bool) → PipeCall → Option Waited
write_check is_non_blocking active call =
    if not (available_space call.pipe == 0)
    then some (ready call)
    else if call.pipe.reader_reference_count == 0
    then some (ended (failed epipe) call)
    else if is_non_blocking
    then some (ended (failed eagain) call)
    else if not active
    then some (ended (failed eagain) call)
    else none

abbrev pub min : ℕ → ℕ → ℕ
min a b = if ltb a b then a else b

-- The end of PipeRead.
unfoldable pub copy_out : ℕ → PipeCall → Outcome
copy_out count call =
    let pipe = call.pipe in
    let size = min count pipe.buffered_bytes in
    let (bytes, offset) = read_loop size linux_pipe_buffer_capacity pipe.read_offset pipe.buffer in
    returned (transferred size) bytes (record call {
      pipe = record pipe { read_offset = offset; buffered_bytes = pipe.buffered_bytes - size };
    })

-- The end of PipeWrite.
unfoldable pub copy_in : List ℕ → PipeCall → Outcome
copy_in bytes call =
    let pipe = call.pipe in
    let size = min (length bytes) (available_space pipe) in
    let (buffer, offset) =
      write_loop size linux_pipe_buffer_capacity pipe.write_offset bytes pipe.buffer in
    returned (transferred size) [] (record call {
      pipe = record pipe {
        buffer = buffer;
        write_offset = offset;
        buffered_bytes = u64 (pipe.buffered_bytes + size);
      };
    })

abbrev pub settle : (PipeCall → Outcome) → Waited → Outcome
settle copy (ready call) = copy call
settle copy (ended result call) = returned result [] call
settle copy (waiting call) = asleep call

-- The two operations from the endpoint on.
unfoldable pub read_from_end :
    PipeEnd → (is_non_blocking active : Bool) → (count : ℕ) → List PipeCall → PipeCall → Outcome
read_from_end end is_non_blocking active count wakes call =
    if not end.has_pipe
    then returned (failed ebadf) [] call
    else if not end.is_read_end
    then returned (failed ebadf) [] call
    else settle (copy_out count) (wait_loop (read_check is_non_blocking active) wakes call)

unfoldable pub write_to_end :
    PipeEnd → (is_non_blocking active : Bool) → List ℕ → List PipeCall → PipeCall → Outcome
write_to_end end is_non_blocking active bytes wakes call =
    if not end.has_pipe
    then returned (failed ebadf) [] call
    else if end.is_read_end
    then returned (failed ebadf) [] call
    else if call.pipe.reader_reference_count == 0
    then returned (failed epipe) [] call
    else settle (copy_in bytes) (wait_loop (write_check is_non_blocking active) wakes call)

unfoldable pub pipe_read :
    Option PipeFile
    → (buffer_is_null active : Bool) → (count : ℕ) → List PipeCall
    → PipeCall
    → Outcome
pipe_read none buffer_is_null active count wakes call = returned (failed einval) [] call
pipe_read (some file) buffer_is_null active count wakes call =
    if buffer_is_null && not (count == 0)
    then returned (failed einval) [] call
    else if count == 0
    then returned (transferred 0) [] call
    else elim file.endpoint [
      | none ↦ returned (failed ebadf) [] call
      | some end ↦ read_from_end end file.is_non_blocking active count wakes call
    ]

-- The bytes are the caller's buffer, Count of them.
unfoldable pub pipe_write :
    Option PipeFile → (buffer_is_null active : Bool) → List ℕ → List PipeCall → PipeCall → Outcome
pipe_write none buffer_is_null active bytes wakes call = returned (failed einval) [] call
pipe_write (some file) buffer_is_null active bytes wakes call =
    if buffer_is_null && not (length bytes == 0)
    then returned (failed einval) [] call
    else if length bytes == 0
    then returned (transferred 0) [] call
    else elim file.endpoint [
      | none ↦ returned (failed ebadf) [] call
      | some end ↦ write_to_end end file.is_non_blocking active bytes wakes call
    ]

-- PipePoll where the returned events are asked for: LINUX_POLLIN is 1, LINUX_POLLOUT 4, LINUX_POLLERR 8
-- and LINUX_POLLHUP 16.
unfoldable pub pipe_poll : Option PipeEnd → PipeKernelObject → (requested : ℕ) → ℕ
pipe_poll none pipe requested = 8
pipe_poll (some end) pipe requested =
    if not end.has_pipe
    then 8
    else if end.is_read_end
    then (if requested % 2 == 0
        then 0
        else if ltb 0 pipe.buffered_bytes
        then 1
        else if pipe.writer_reference_count == 0
        then 16
        else 0)
    else if requested / 4 % 2 == 0
    then 0
    else if pipe.reader_reference_count == 0
    then 24
    else if ltb pipe.buffered_bytes linux_pipe_buffer_capacity
    then 4
    else 0
