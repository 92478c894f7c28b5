-- ===== src/Communication/Examples.antt =====
-- The theorems on pipes at a pipe whose bytes stand across the end of the buffer.
use twisted_os_v.Common.{
  ◌≡◌, refl, true, false, some, [], ◌∷◌, ◌++◌, take, drop, arith, ◌==◌, if◌then◌else◌,
}
use twisted_os_v.Communication.Ring.{read_loop}
use twisted_os_v.Communication.Pipes.{
  transferred, PipeCall, returned, copy_out, wait_loop, read_check, read_from_end, pipe_read,
  pipe_write,
}
use twisted_os_v.Communication.Table.{
  NewPipe, PipeTable, empty_table, at, fresh_pipe, add_pipe, create_pipe, is_tracked, add_reference,
  duplicate_pipe_descriptor,
}
use twisted_os_v.Communication.Close.{close_pipe}
use twisted_os_v.Communication.References.{IsTable}
use twisted_os_v.Communication.Creating.{IsUnused}
use twisted_os_v.Communication.Tables.{starts, creates, duplicates, closes, Reachable-IsTable}
use twisted_os_v.Communication.Sockets.{
  moved, UnixSocket, Socket, is_connected_unix_stream_socket, read_from_unix_receive_buffer,
  write_to_unix_peer_buffer,
}
use twisted_os_v.Communication.Delivery.{IsReceiver, accepting, giving, write-read}
use twisted_os_v.Communication.Queue.{IsPipe, queue, copied_out, copied_in}
use twisted_os_v.Communication.Transfers.{pipe_file, pipe_read-queue, pipe_write-queue}
use twisted_os_v.Communication.Waiting.{Reads, pipe_read-Reads}

-- Two bytes, 7 in the last place of the buffer and 9 in the first.
abbrev two_bytes : PipeCall
two_bytes = record {
  pipe = record {
    buffer = λ i. if i == 4095 then 7 else if i == 0 then 9 else 0;
    read_offset = 4095;
    write_offset = 1;
    buffered_bytes = 2;
    reader_reference_count = 1;
    writer_reference_count = 1;
    read_endpoint = 0x100;
    write_endpoint = 0x200;
    read_node = 0x300;
    write_node = 0x400;
  };
  interrupted_by_signal = false;
}

-- The pipe once both bytes are read.
abbrev no_bytes : PipeCall
no_bytes = record two_bytes { pipe = record two_bytes.pipe { read_offset = 1; buffered_bytes = 0 } }

two_bytes-IsPipe : IsPipe two_bytes.pipe
two_bytes-IsPipe = record { start = omega arith; bounded = omega arith; end = refl }

no_bytes-IsPipe : IsPipe no_bytes.pipe
no_bytes-IsPipe = record { start = omega arith; bounded = omega arith; end = refl }

both_read :
    pipe_read (some (pipe_file true false)) false true 5 [] two_bytes
    ≡ returned (transferred 2) (7 ∷ 9 ∷ []) no_bytes
unfolding pipe_read read_from_end wait_loop read_check copy_out read_loop
both_read = refl

pipe_read-queue_example :
    (pipe_read (some (pipe_file true false)) false true 1 [] two_bytes
      ≡ returned (transferred 1) (take 1 (queue two_bytes.pipe)) (copied_out 1 two_bytes))
    × IsPipe (copied_out 1 two_bytes).pipe
    × (queue (copied_out 1 two_bytes).pipe ≡ drop 1 (queue two_bytes.pipe))
pipe_read-queue_example =
    pipe_read-queue false true 1 [] two_bytes two_bytes-IsPipe (omega arith) (omega arith)

pipe_write-queue_example :
    (pipe_write (some (pipe_file false true)) false true (3 ∷ 4 ∷ []) [] two_bytes
      ≡ returned (transferred 2) [] (copied_in (3 ∷ 4 ∷ []) two_bytes))
    × IsPipe (copied_in (3 ∷ 4 ∷ []) two_bytes).pipe
    × (queue (copied_in (3 ∷ 4 ∷ []) two_bytes).pipe ≡ queue two_bytes.pipe ++ (3 ∷ 4 ∷ []))
pipe_write-queue_example =
    pipe_write-queue true true (3 ∷ 4 ∷ []) [] two_bytes two_bytes-IsPipe (omega arith)
      (omega arith) (omega arith)

-- A reader that finds no bytes and sleeps once, until the two bytes are there.
pipe_read-Reads_example :
    Reads false true 5
      (two_bytes ∷ [])
      no_bytes
      (pipe_read (some (pipe_file true false)) false true 5 (two_bytes ∷ []) no_bytes)
pipe_read-Reads_example =
    pipe_read-Reads false true 5 (two_bytes ∷ []) no_bytes no_bytes-IsPipe (two_bytes-IsPipe, tt)
      (omega arith)

-- The first pipe, duplicated at its end for reading, and the first descriptor closed.
abbrev first_pipe : NewPipe
first_pipe = record {
  new_pipe = 0x100;
  new_read_endpoint = 0x200;
  new_write_endpoint = 0x300;
  new_read_node = 0x400;
  new_write_node = 0x500;
}

first_pipe-IsUnused : IsUnused empty_table first_pipe
first_pipe-IsUnused = record {
  pipe_unused = refl;
  read_unused = refl;
  write_unused = refl;
  two_ends = omega arith;
}

abbrev with_pipe : PipeTable
with_pipe = (create_pipe empty_table 1 3 4 false (λ i. 0) first_pipe).1

abbrev with_duplicate : PipeTable
with_duplicate = (duplicate_pipe_descriptor with_pipe 1 5 0x400).1

two_readers :
    at with_duplicate.pipes 0x100
    ≡ some (record (fresh_pipe (λ i. 0) first_pipe) { reader_reference_count = 2 })
unfolding create_pipe add_pipe duplicate_pipe_descriptor is_tracked add_reference
two_readers = refl

Reachable-IsTable_example : IsTable (close_pipe with_duplicate 1 3 0x400).1
Reachable-IsTable_example = Reachable-IsTable (close_pipe with_duplicate 1 3 0x400).1 (
    closes with_duplicate 1 3 0x400 (
      duplicates with_pipe 1 5 0x400
        (creates empty_table 1 3 4 false (λ i. 0) first_pipe starts first_pipe-IsUnused)))

-- Two connected local sockets, the second with a byte in the last place of a buffer of four.
abbrev sender : UnixSocket
sender = record {
  connected_peer = 0x700;
  has_receive_buffer = true;
  receive_buffer = λ i. 0;
  receive_buffer_capacity = 4;
  receive_read_offset = 0;
  receive_write_offset = 0;
  receive_buffered_bytes = 0;
  is_shutdown_read = false;
}

abbrev receiver : UnixSocket
receiver = record sender {
  connected_peer = 0x600;
  receive_buffer = λ i. if i == 3 then 8 else 0;
  receive_read_offset = 3;
  receive_buffered_bytes = 1;
}

abbrev local_socket : UnixSocket → Socket
local_socket socket = record { domain = 1; socket_type = 1; implementation = some socket }

receiver-IsReceiver : IsReceiver receiver
receiver-IsReceiver = record {
  has_buffer = refl;
  start = omega arith;
  bounded = omega arith;
  sized = omega arith;
  end = refl;
}

connected : is_connected_unix_stream_socket (local_socket sender) sender ≡ true
unfolding is_connected_unix_stream_socket
connected = refl

write-read_example :
    (write_to_unix_peer_buffer
        (some (local_socket sender))
        (some sender)
        (some (local_socket receiver))
        false
        (1 ∷ 2 ∷ 3 ∷ 4 ∷ [])
      ≡ (moved 3, some (local_socket (accepting (1 ∷ 2 ∷ 3 ∷ 4 ∷ []) receiver))))
    × (read_from_unix_receive_buffer (some (accepting (1 ∷ 2 ∷ 3 ∷ 4 ∷ []) receiver)) false 9 ≡ (
      moved 4,
      (8 ∷ 1 ∷ 2 ∷ 3 ∷ [], some (giving 9 (accepting (1 ∷ 2 ∷ 3 ∷ 4 ∷ []) receiver))),
    ))
write-read_example =
    write-read (local_socket sender) sender (local_socket receiver) receiver (1 ∷ 2 ∷ 3 ∷ 4 ∷ []) 9
      connected refl refl receiver-IsReceiver refl (omega arith) (omega arith) (omega arith)
