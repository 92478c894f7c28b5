-- ===== src/KernelHeap.antt =====
-- Kernel/Layers/Resource/KernelHeapManager.cpp and KernelHeapManager.hpp: the kernel heap, cut into
-- slabs of a page. `memory` gives the 32-bit word at an address, so that an allocation header and the
-- link of a free object share their bytes as they do in the source. A list index of -1 is `none`, and
-- the arrays Slabs and ClassAvailableHead are functions of an index. The messages of the debug build
-- are left out. Headers and objects stand at multiples of four; the word at another address is kept
-- apart from its neighbours.
pub mod Data
pub mod Lists
pub mod Slabs
pub mod Malloc
pub mod Free
pub mod Runs
pub mod Loops
pub mod Large
pub mod Twice
mod Examples
