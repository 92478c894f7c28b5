-- ===== src/Communication.antt =====
-- Kernel/Layers/Logic/InterProcessComunicationManager.cpp and InterProcessComunicationManager.hpp: the
-- pipes and the local sockets. A buffer is a function from an offset to a byte, and the bytes that a call copies are a list,
-- the prefix of the caller's buffer in order. Of the sockets, the transfer of bytes over connected local
-- ones is here.
pub mod Ring
pub mod Fifo
pub mod Pipes
pub mod Buffers
pub mod Queue
pub mod Sockets
pub mod Delivery
pub mod Transfers
pub mod Waiting
pub mod Table
pub mod Close
pub mod References
pub mod Duplicates
pub mod Closing
pub mod Closed
pub mod Creating
pub mod Created
pub mod Tables
mod Examples
