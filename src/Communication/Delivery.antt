-- ===== src/Communication/Delivery.antt =====
-- Bytes that go over a local socket in InterProcessComunicationManager.cpp.
use twisted_os_v.Common.{
  ℕ, ◌+◌, ◌-◌, ◌≤◌, ◌<◌, ◌≡◌, ◌≢◌, refl, sym, ap, subst, ◌∙◌, true, false, not, ◌||◌, some, List,
  ◌++◌, length, take, drop, arith, ◌==◌, leb,
}
use twisted_os_v.Common.Words.{u64, u64_limit}
use twisted_os_v.Communication.Ring.{write_loop}
use twisted_os_v.Communication.Fifo.{contents, wrap, wrap-inside, read_loop_lem, write_loop-end}
use twisted_os_v.Communication.Buffers.{contents-cut, contents-write_loop}
use twisted_os_v.Communication.Pipes.{min}
use twisted_os_v.Communication.Sockets.{
  moved, UnixSocket, Socket, is_connected_unix_stream_socket, read_from_unix_receive_buffer,
  write_to_peer, write_to_unix_peer_buffer,
}

-- A socket that can receive: it has a buffer whose offsets agree with the number of its bytes.
pub record IsReceiver (socket : UnixSocket) : Type 0 where
  pub has_buffer : socket.has_receive_buffer ≡ true
  pub start : socket.receive_read_offset < socket.receive_buffer_capacity
  pub bounded : socket.receive_buffered_bytes ≤ socket.receive_buffer_capacity
  pub sized : socket.receive_buffer_capacity < u64_limit
  pub end :
      socket.receive_write_offset
      ≡ wrap socket.receive_read_offset socket.receive_buffered_bytes socket.receive_buffer_capacity

-- The bytes that a socket has received, in order.
abbrev pub received : UnixSocket → List ℕ
received socket =
    contents socket.receive_buffered_bytes socket.receive_buffer_capacity socket.receive_read_offset
      socket.receive_buffer

abbrev pub accepted_bytes : List ℕ → UnixSocket → ℕ
accepted_bytes bytes peer =
    min (length bytes) (peer.receive_buffer_capacity - peer.receive_buffered_bytes)

-- What a socket is once it has accepted some bytes.
abbrev pub accepting : List ℕ → UnixSocket → UnixSocket
accepting bytes peer = record peer {
  receive_buffer =
      (write_loop (accepted_bytes bytes peer) peer.receive_buffer_capacity peer.receive_write_offset
        bytes peer.receive_buffer).0;
  receive_write_offset =
      wrap peer.receive_write_offset (accepted_bytes bytes peer) peer.receive_buffer_capacity;
  receive_buffered_bytes = peer.receive_buffered_bytes + accepted_bytes bytes peer;
}

pub write_to_peer-received :
    (peer : UnixSocket) (bytes : List ℕ)
    → IsReceiver peer
    → peer.is_shutdown_read ≡ false
    → peer.receive_buffered_bytes < peer.receive_buffer_capacity
    → (write_to_peer peer bytes ≡ (moved (accepted_bytes bytes peer), accepting bytes peer))
      × IsReceiver (accepting bytes peer)
      × (received (accepting bytes peer) ≡ received peer ++ take (accepted_bytes bytes peer) bytes)
unfolding write_to_peer
write_to_peer-received peer bytes is listens more =
    let capacity = peer.receive_buffer_capacity in
    let count = peer.receive_buffered_bytes in
    let size = accepted_bytes bytes peer in
    let small : size ≤ length bytes = ground arith in
    let room : count + size ≤ capacity = ground (arith, is.bounded) in
    let buffer_there : (not peer.has_receive_buffer || capacity == 0) ≡ false =
      (let has = is.has_buffer in ground (arith, has, more)) in
    let space : leb capacity count ≡ false = ground (arith, more) in
    let counted : u64 (count + size) ≡ count + size = omega (arith, room, is.sized) in
    let from : peer.receive_write_offset < capacity =
      subst (λ o. o < capacity) (sym is.end)
        (wrap-inside peer.receive_read_offset count capacity is.start is.bounded) in
    let end =
      write_loop-end size capacity peer.receive_write_offset bytes peer.receive_buffer from
        (omega (arith, room)) small in
    let bytes_there =
      ap
        (λ o.
          contents (count + size) capacity peer.receive_read_offset
            (write_loop size capacity o bytes peer.receive_buffer).0)
        is.end
      ∙ contents-write_loop size count capacity peer.receive_read_offset bytes peer.receive_buffer
          is.start (omega arith) room small in
    (
      rw (write_to_peer, listens, buffer_there, space, counted, end) refl,
      record {
        has_buffer = is.has_buffer;
        start = is.start;
        bounded = room;
        sized = is.sized;
        end =
            ap (λ o. wrap o size capacity) is.end
            ∙ (let start = is.start in ground (arith, start, room));
      },
      bytes_there,
    )

-- What a socket is once some bytes are read.
abbrev pub giving : ℕ → UnixSocket → UnixSocket
giving count socket = record socket {
  receive_read_offset =
      wrap socket.receive_read_offset (min count socket.receive_buffered_bytes)
        socket.receive_buffer_capacity;
  receive_buffered_bytes = socket.receive_buffered_bytes - min count socket.receive_buffered_bytes;
}

pub read_from_unix_receive_buffer-received :
    (socket : UnixSocket) (count : ℕ)
    → IsReceiver socket
    → count ≢ 0
    → socket.receive_buffered_bytes ≢ 0
    → (read_from_unix_receive_buffer (some socket) false count ≡ (
      moved (min count socket.receive_buffered_bytes),
      (
        take (min count socket.receive_buffered_bytes) (received socket),
        some (giving count socket),
      ),
    ))
      × (received (giving count socket)
          ≡ drop (min count socket.receive_buffered_bytes) (received socket))
unfolding read_from_unix_receive_buffer
read_from_unix_receive_buffer-received socket count is some_count some_bytes =
    let capacity = socket.receive_buffer_capacity in
    let size = min count socket.receive_buffered_bytes in
    let small : size ≤ socket.receive_buffered_bytes = ground arith in
    let asked : (count == 0) ≡ false = ground arith in
    let filled : (socket.receive_buffered_bytes == 0) ≡ false = ground arith in
    let buffer_there : (not socket.has_receive_buffer || capacity == 0) ≡ false =
      (let has = is.has_buffer in let start = is.start in ground (arith, has, start)) in
    let (taken, dropped) =
      contents-cut size socket.receive_buffered_bytes capacity socket.receive_read_offset
        socket.receive_buffer is.start small is.bounded in
    let looped =
      read_loop_lem size capacity socket.receive_read_offset socket.receive_buffer is.start
        (omega (arith, small, is.bounded)) in
    (
      rw (read_from_unix_receive_buffer, asked, buffer_there, filled)
            (λ i. (
              moved size,
              (
                (looped i).0,
                some (record socket {
                  receive_read_offset = (looped i).1;
                  receive_buffered_bytes = socket.receive_buffered_bytes - size;
                }),
              ),
            ))
          ∙ (λ i. (moved size, (taken i, some (giving count socket)))),
      dropped,
    )

-- Bytes that are written to a connected local socket, whose peer can receive, listens and has room,
-- arrive: the call returns how many it took, as many as there is room for or as are offered, and what
-- the peer then reads are the bytes that it had received before and those bytes, in order.
pub write-read :
    (entry : Socket) (socket : UnixSocket) (peer_socket : Socket) (peer : UnixSocket)
    (bytes : List ℕ) (count : ℕ)
    → is_connected_unix_stream_socket entry socket ≡ true
    → peer_socket.domain ≡ 1
    → peer_socket.implementation ≡ some peer
    → IsReceiver peer
    → peer.is_shutdown_read ≡ false
    → peer.receive_buffered_bytes < peer.receive_buffer_capacity
    → length bytes ≢ 0
    → count ≢ 0
    → (write_to_unix_peer_buffer (some entry) (some socket) (some peer_socket) false bytes ≡ (
      moved (accepted_bytes bytes peer),
      some (record peer_socket { implementation = some (accepting bytes peer) }),
    ))
      × (read_from_unix_receive_buffer (some (accepting bytes peer)) false count ≡ (
        moved (min count (peer.receive_buffered_bytes + accepted_bytes bytes peer)),
        (
          take
              (min count (peer.receive_buffered_bytes + accepted_bytes bytes peer))
              (received peer ++ take (accepted_bytes bytes peer) bytes),
          some (giving count (accepting bytes peer)),
        ),
      ))
unfolding write_to_unix_peer_buffer
write-read entry socket peer_socket peer bytes count connected local at_peer is listens more offered
      asked =
    let (made, valid, there) = write_to_peer-received peer bytes is listens more in
    let some_bytes : (length bytes == 0) ≡ false = ground arith in
    let unix : (peer_socket.domain == 1) ≡ true = ground (arith, local) in
    let filled : peer.receive_buffered_bytes + accepted_bytes bytes peer ≢ 0 =
      ground (arith, more, offered) in
    let (taken, _) =
      read_from_unix_receive_buffer-received (accepting bytes peer) count valid asked filled in
    (
      rw (write_to_unix_peer_buffer, some_bytes, connected, unix, at_peer)
          (λ i. ((made i).0, some (record peer_socket { implementation = some (made i).1 }))),
      taken ∙ (λ i. (
        moved (min count (peer.receive_buffered_bytes + accepted_bytes bytes peer)),
        (
          take (min count (peer.receive_buffered_bytes + accepted_bytes bytes peer)) (there i),
          some (giving count (accepting bytes peer)),
        ),
      )),
    )
