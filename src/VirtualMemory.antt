-- ===== src/VirtualMemory.antt =====
-- Kernel/Memory/VirtualMemoryManager.cpp and VirtualMemoryManager.hpp: the page tables of x86-64.
-- `memory` gives the 64-bit entry at a physical address, which is also where the kernel reads it; entry
-- i of the table at t stands at t + 8 * i. Bits are arithmetic on numbers: a mask of low bits is `%`, and
-- flags that share no bit are added. The flush of a translation (invlpg) is left out, and so is the
-- copy of a hierarchy, CopyPageMapL4Table.
pub mod Entries
pub mod Tables
pub mod Map
pub mod Protect
pub mod Ranges
pub mod Walk
pub mod Leaf
pub mod Changes
pub mod Recorded
pub mod Enter
pub mod Steps
pub mod Fresh
pub mod MapPath
pub mod MapPage
mod Examples
