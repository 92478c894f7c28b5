-- ===== src/Communication/Sockets.antt =====
-- The transfer of bytes over local sockets in InterProcessComunicationManager.cpp: the functions
-- ReadFromUnixReceiveBuffer and WriteToUnixPeerBuffer. A socket has the fields that they use.
use twisted_os_v.Common.{
  ℕ, ◌+◌, ◌-◌, Bool, false, ◌&&◌, ◌||◌, not, Option, none, some, List, [], length, ◌==◌, leb,
  if◌then◌else◌,
}
use twisted_os_v.Common.Words.{u64}
use twisted_os_v.Communication.Ring.{read_loop, write_loop}
use twisted_os_v.Communication.Pipes.{min}

pub data SocketError : Type 0 where
  socket_einval : SocketError
  socket_ebadf : SocketError
  socket_enotconn : SocketError
  socket_epipe : SocketError
  socket_eagain : SocketError

pub data SocketResult : Type 0 where
  moved : ℕ → SocketResult
  refused : SocketError → SocketResult

pub record UnixSocket : Type 0 where
  pub connected_peer : ℕ
  pub has_receive_buffer : Bool
  pub receive_buffer : ℕ → ℕ
  pub receive_buffer_capacity : ℕ
  pub receive_read_offset : ℕ
  pub receive_write_offset : ℕ
  pub receive_buffered_bytes : ℕ
  pub is_shutdown_read : Bool

pub record Socket : Type 0 where
  pub domain : ℕ
  pub socket_type : ℕ
  pub implementation : Option UnixSocket

-- LINUX_AF_UNIX is 1; LINUX_SOCK_STREAM is 1 and LINUX_SOCK_SEQPACKET 5.
unfoldable pub is_connected_unix_stream_socket : Socket → UnixSocket → Bool
is_connected_unix_stream_socket entry socket =
    if not (entry.domain == 1)
    then false
    else if not (entry.socket_type == 1) && not (entry.socket_type == 5)
    then false
    else not (socket.connected_peer == 0)

-- The result, the bytes at the start of the caller's buffer, and the socket.
unfoldable pub read_from_unix_receive_buffer :
    Option UnixSocket
    → (buffer_is_null : Bool) → (count : ℕ) → SocketResult × (List ℕ × Option UnixSocket)
read_from_unix_receive_buffer none buffer_is_null count = (refused socket_einval, ([], none))
read_from_unix_receive_buffer (some socket) buffer_is_null count =
    let size = min count socket.receive_buffered_bytes in
    let (bytes, offset) =
      read_loop size socket.receive_buffer_capacity socket.receive_read_offset
        socket.receive_buffer in
    if buffer_is_null && not (count == 0)
    then (refused socket_einval, ([], some socket))
    else if count == 0
    then (moved 0, ([], some socket))
    else if not socket.has_receive_buffer || socket.receive_buffer_capacity == 0
    then (refused socket_ebadf, ([], some socket))
    else if socket.receive_buffered_bytes == 0
    then (moved 0, ([], some socket))
    else (
      moved size,
      (
        bytes,
        some (record socket {
          receive_read_offset = offset;
          receive_buffered_bytes = socket.receive_buffered_bytes - size;
        }),
      ),
    )

-- WriteToUnixPeerBuffer from the peer's UnixSocket on.
unfoldable pub write_to_peer : UnixSocket → List ℕ → SocketResult × UnixSocket
write_to_peer peer bytes =
    let size = min (length bytes) (peer.receive_buffer_capacity - peer.receive_buffered_bytes) in
    let (buffer, offset) =
      write_loop size peer.receive_buffer_capacity peer.receive_write_offset bytes
        peer.receive_buffer in
    if peer.is_shutdown_read
    then (refused socket_epipe, peer)
    else if not peer.has_receive_buffer || peer.receive_buffer_capacity == 0
    then (refused socket_ebadf, peer)
    else if leb peer.receive_buffer_capacity peer.receive_buffered_bytes
    then (refused socket_eagain, peer)
    else (
      moved size,
      record peer {
        receive_buffer = buffer;
        receive_write_offset = offset;
        receive_buffered_bytes = u64 (peer.receive_buffered_bytes + size);
      },
    )

-- The sender, its UnixSocket, and the Socket at ConnectedPeer, which the call returns.
unfoldable pub write_to_unix_peer_buffer :
    Option Socket
    → Option UnixSocket
    → (peer : Option Socket) → (buffer_is_null : Bool) → List ℕ
    → SocketResult × Option Socket
write_to_unix_peer_buffer none socket peer buffer_is_null bytes = (refused socket_einval, peer)
write_to_unix_peer_buffer (some entry) none peer buffer_is_null bytes =
    (refused socket_einval, peer)
write_to_unix_peer_buffer (some entry) (some socket) peer buffer_is_null bytes =
    if buffer_is_null && not (length bytes == 0)
    then (refused socket_einval, peer)
    else if length bytes == 0
    then (moved 0, peer)
    else if not (is_connected_unix_stream_socket entry socket)
    then (refused socket_enotconn, peer)
    else elim peer [
      | none ↦ (refused socket_enotconn, none)
      | some peer_socket ↦
          if not (peer_socket.domain == 1)
          then (refused socket_enotconn, some peer_socket)
          else elim peer_socket.implementation [
            | none ↦ (refused socket_enotconn, some peer_socket)
            | some implementation ↦
                let (result, written) = write_to_peer implementation bytes in
                (result, some (record peer_socket { implementation = some written }))
          ]
    ]
