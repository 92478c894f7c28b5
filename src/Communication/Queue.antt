-- ===== src/Communication/Queue.antt =====
-- The pipes of InterProcessComunicationManager.cpp as queues of bytes.
use twisted_os_v.Common.{
  ℕ, ◌+◌, ◌-◌, ◌≤◌, ◌<◌, ◌≡◌, refl, sym, ap, subst, ◌∙◌, List, [], ◌++◌, length, take, drop, arith,
}
use twisted_os_v.Common.Words.{u64}
use twisted_os_v.Communication.Ring.{write_loop}
use twisted_os_v.Communication.Fifo.{
  contents, wrap, wrap-inside, wrap-rest, read_loop_lem, write_loop-end,
}
use twisted_os_v.Communication.Buffers.{contents-cut, contents-write_loop}
use twisted_os_v.Communication.Pipes.{
  transferred, PipeKernelObject, PipeCall, returned, available_space, min, copy_out, copy_in,
}

-- The offsets of a pipe's buffer agree with the number of its bytes.
pub record IsPipe (pipe : PipeKernelObject) : Type 0 where
  pub start : pipe.read_offset < 4096
  pub bounded : pipe.buffered_bytes ≤ 4096
  pub end : pipe.write_offset ≡ wrap pipe.read_offset pipe.buffered_bytes 4096

-- The bytes in a pipe, in the order in which they were written.
abbrev pub queue : PipeKernelObject → List ℕ
queue pipe = contents pipe.buffered_bytes 4096 pipe.read_offset pipe.buffer

-- What copy_out leaves.
abbrev pub copied_out : ℕ → PipeCall → PipeCall
copied_out count call = record call {
  pipe = record call.pipe {
    read_offset = wrap call.pipe.read_offset (min count call.pipe.buffered_bytes) 4096;
    buffered_bytes = call.pipe.buffered_bytes - min count call.pipe.buffered_bytes;
  };
}

pub copy_out-queue :
    (count : ℕ) (call : PipeCall)
    → IsPipe call.pipe
    → (copy_out count call
        ≡ returned
            (transferred (min count call.pipe.buffered_bytes))
            (take (min count call.pipe.buffered_bytes) (queue call.pipe))
            (copied_out count call))
      × IsPipe (copied_out count call).pipe
      × (queue (copied_out count call).pipe
          ≡ drop (min count call.pipe.buffered_bytes) (queue call.pipe))
unfolding copy_out
copy_out-queue count call is =
    let pipe = call.pipe in
    let size = min count pipe.buffered_bytes in
    let small : size ≤ pipe.buffered_bytes = ground arith in
    let (taken, dropped) =
      contents-cut size pipe.buffered_bytes 4096 pipe.read_offset pipe.buffer is.start small
        is.bounded in
    let looped =
      read_loop_lem size 4096 pipe.read_offset pipe.buffer is.start
        (omega (arith, small, is.bounded)) in
    (
      (λ i. returned (transferred size) (looped i).0 (record call {
        pipe = record pipe {
          read_offset = (looped i).1;
          buffered_bytes = pipe.buffered_bytes - size;
        };
      }))
          ∙ (λ i. returned (transferred size) (taken i) (copied_out count call)),
      record {
        start = wrap-inside pipe.read_offset size 4096 is.start (omega (arith, small, is.bounded));
        bounded = omega (arith, is.bounded);
        end =
            is.end
            ∙ wrap-rest pipe.read_offset size pipe.buffered_bytes 4096 is.start small is.bounded;
      },
      dropped,
    )

-- How many bytes a pipe takes.
abbrev pub accepted : List ℕ → PipeKernelObject → ℕ
accepted bytes pipe = min (length bytes) (4096 - pipe.buffered_bytes)

-- What copy_in leaves.
abbrev pub copied_in : List ℕ → PipeCall → PipeCall
copied_in bytes call = record call {
  pipe = record call.pipe {
    buffer =
        (write_loop (accepted bytes call.pipe) 4096 call.pipe.write_offset bytes
          call.pipe.buffer).0;
    write_offset = wrap call.pipe.write_offset (accepted bytes call.pipe) 4096;
    buffered_bytes = call.pipe.buffered_bytes + accepted bytes call.pipe;
  };
}

copied_in-queue :
    (bytes : List ℕ) (pipe : PipeKernelObject)
    → IsPipe pipe
    → pipe.buffered_bytes < 4096
    → contents
        (pipe.buffered_bytes + accepted bytes pipe)
        4096
        pipe.read_offset
        (write_loop (accepted bytes pipe) 4096 pipe.write_offset bytes pipe.buffer).0
      ≡ queue pipe ++ take (accepted bytes pipe) bytes
copied_in-queue bytes pipe is more =
    let size = accepted bytes pipe in
    let small : size ≤ length bytes = ground arith in
    let room : pipe.buffered_bytes + size ≤ 4096 = ground (arith, is.bounded) in
    ap
      (λ o.
        contents (pipe.buffered_bytes + size) 4096 pipe.read_offset
          (write_loop size 4096 o bytes pipe.buffer).0)
      is.end
    ∙ contents-write_loop size pipe.buffered_bytes 4096 pipe.read_offset bytes pipe.buffer is.start
        (omega arith) room small

pub copy_in-queue :
    (bytes : List ℕ) (call : PipeCall)
    → IsPipe call.pipe
    → call.pipe.buffered_bytes < 4096
    → (copy_in bytes call
        ≡ returned (transferred (accepted bytes call.pipe)) [] (copied_in bytes call))
      × IsPipe (copied_in bytes call).pipe
      × (queue (copied_in bytes call).pipe
          ≡ queue call.pipe ++ take (accepted bytes call.pipe) bytes)
unfolding copy_in
copy_in-queue bytes call is more =
    let pipe = call.pipe in
    let size = accepted bytes pipe in
    let small : size ≤ length bytes = ground arith in
    let room : pipe.buffered_bytes + size ≤ 4096 = ground (arith, is.bounded) in
    let from : pipe.write_offset < 4096 =
      subst (λ o. o < 4096) (sym is.end)
        (wrap-inside pipe.read_offset pipe.buffered_bytes 4096 is.start is.bounded) in
    let available : available_space pipe ≡ 4096 - pipe.buffered_bytes = omega (arith, is.bounded) in
    let counted : u64 (pipe.buffered_bytes + size) ≡ pipe.buffered_bytes + size =
      omega (arith, room) in
    let end =
      write_loop-end size 4096 pipe.write_offset bytes pipe.buffer from (omega (arith, room))
        small in
    (
      rw (copy_in, available, counted, end) refl,
      record {
        start = is.start;
        bounded = room;
        end =
            (let moved = ap (λ o. wrap o size 4096) is.end in
              moved ∙ (let start = is.start in ground (arith, start, room)));
      },
      copied_in-queue bytes pipe is more,
    )
