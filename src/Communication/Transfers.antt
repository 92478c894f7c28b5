-- ===== src/Communication/Transfers.antt =====
-- PipeRead and PipeWrite of InterProcessComunicationManager.cpp as operations on a queue of bytes.
use twisted_os_v.Common.{
  ℕ, ◌-◌, ◌<◌, ◌≡◌, ◌≢◌, refl, ap, ◌∙◌, Bool, true, false, Option, some, List, [], ◌∷◌, ◌++◌,
  length, take, drop, arith, ◌==◌,
}
use twisted_os_v.Communication.Pipes.{
  transferred, PipeFile, PipeCall, returned, Waited, ready, wait_loop, read_check, available_space,
  write_check, min, copy_out, copy_in, settle, read_from_end, write_to_end, pipe_read, pipe_write,
}
use twisted_os_v.Communication.Queue.{
  IsPipe, queue, copied_out, copy_out-queue, accepted, copied_in, copy_in-queue,
}

-- A file that is open at one end of a pipe.
abbrev pub pipe_file : (is_read_end is_non_blocking : Bool) → PipeFile
pipe_file is_read_end is_non_blocking = record {
  endpoint = some (record { has_pipe = true; is_read_end = is_read_end });
  is_non_blocking = is_non_blocking;
}

wait_loop-answer :
    (check : PipeCall → Option Waited) (wakes : List PipeCall) (call : PipeCall) (answer : Waited)
    → check call ≡ some answer
    → wait_loop check wakes call ≡ answer
unfolding wait_loop
wait_loop-answer check [] call answer e = rw (wait_loop, e) refl
wait_loop-answer check (woken ∷ later) call answer e = rw (wait_loop, e) refl

pub read-opens :
    (is_non_blocking active : Bool) (count : ℕ) (wakes : List PipeCall) (call : PipeCall)
    → count ≢ 0
    → pipe_read (some (pipe_file true is_non_blocking)) false active count wakes call
      ≡ settle (copy_out count) (wait_loop (read_check is_non_blocking active) wakes call)
unfolding pipe_read read_from_end
read-opens is_non_blocking active count wakes call some_count =
    let asked : (count == 0) ≡ false = ground arith in rw (pipe_read, asked, read_from_end) refl

-- PipeRead of some bytes from a pipe that has some returns at once, blocking or not, whatever the other
-- processes do: as many bytes as there are or as were asked for, the first in the order of writing, and
-- those are the ones the pipe loses.
pub pipe_read-queue :
    (is_non_blocking active : Bool) (count : ℕ) (wakes : List PipeCall) (call : PipeCall)
    → IsPipe call.pipe
    → count ≢ 0
    → call.pipe.buffered_bytes ≢ 0
    → (pipe_read (some (pipe_file true is_non_blocking)) false active count wakes call
        ≡ returned
            (transferred (min count call.pipe.buffered_bytes))
            (take (min count call.pipe.buffered_bytes) (queue call.pipe))
            (copied_out count call))
      × IsPipe (copied_out count call).pipe
      × (queue (copied_out count call).pipe
          ≡ drop (min count call.pipe.buffered_bytes) (queue call.pipe))
unfolding read_check
pipe_read-queue is_non_blocking active count wakes call is some_count some_bytes =
    let (made, valid, left) = copy_out-queue count call is in
    let filled : (call.pipe.buffered_bytes == 0) ≡ false = ground arith in
    let check = read_check is_non_blocking active in
    let answer : check call ≡ some (ready call) = rw (read_check, filled) refl in
    (
      read-opens is_non_blocking active count wakes call some_count
          ∙ ap (settle (copy_out count)) (wait_loop-answer check wakes call (ready call) answer)
          ∙ made,
      valid,
      left,
    )

-- PipeWrite of some bytes to a pipe that has a reader and room returns at once, blocking or not,
-- whatever the other processes do: it takes as many bytes as there is room for or as are offered, the
-- first ones, and they stand behind those that were in the pipe.
pub pipe_write-queue :
    (is_non_blocking active : Bool) (bytes : List ℕ) (wakes : List PipeCall) (call : PipeCall)
    → IsPipe call.pipe
    → length bytes ≢ 0
    → call.pipe.reader_reference_count ≢ 0
    → call.pipe.buffered_bytes < 4096
    → (pipe_write (some (pipe_file false is_non_blocking)) false active bytes wakes call
        ≡ returned (transferred (accepted bytes call.pipe)) [] (copied_in bytes call))
      × IsPipe (copied_in bytes call).pipe
      × (queue (copied_in bytes call).pipe
          ≡ queue call.pipe ++ take (accepted bytes call.pipe) bytes)
unfolding pipe_write write_to_end write_check
pipe_write-queue is_non_blocking active bytes wakes call is some_bytes readers room =
    let (made, valid, left) = copy_in-queue bytes call is room in
    let offered : (length bytes == 0) ≡ false = ground arith in
    let read : (call.pipe.reader_reference_count == 0) ≡ false = ground arith in
    let space : (available_space call.pipe == 0) ≡ false =
      (let e : available_space call.pipe ≡ 4096 - call.pipe.buffered_bytes = omega arith in
        ground (arith, e)) in
    let check = write_check is_non_blocking active in
    let answer : check call ≡ some (ready call) = rw (write_check, space) refl in
    (
      rw (pipe_write, offered, write_to_end, read)
          (ap (settle (copy_in bytes)) (wait_loop-answer check wakes call (ready call) answer)
            ∙ made),
      valid,
      left,
    )
