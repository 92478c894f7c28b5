-- ===== src/Lib.antt =====
-- A model of TwistedOS, a kernel for x86-64 in three layers: Translation decodes system calls, Logic
-- keeps processes, scheduling, synchronization and files, and Resource keeps memory, devices and disks.
-- The files here model the managers of Logic that keep state of their own, the container they keep it
-- in, and below them the page tables, the kernel heap and the allocator of physical pages.
--
-- PhysicalMemory.antt is Kernel/Memory/PhysicalMemoryManager.cpp and .hpp. The free lists of the buddy
-- allocator are lists of addresses, one for each order, in the order of the links; the counters are
-- numbers. AllocatePagesFromDescriptor is allocate_pages_from_descriptor, which searches an order
-- (find_order), takes its first block and splits it (take_block, split_blocks);
-- FreePagesFromDescriptor is free_pages_from_descriptor with its guards, merge_buddies for the loop
-- over the buddies and push_block. InitializeMemoryDescriptors and InitializeBuddyAllocator are in
-- PhysicalMemory/Boot.antt.
-- IntrusiveQueue.antt is Kernel/Layers/Logic/IntrusiveQueue.hpp. The queue is a head, a tail and a memory of
-- next fields; IntrusiveQueue/Chain.antt says which list of nodes it stands for.
-- Scheduler.antt is Kernel/Layers/Logic/Scheduler.cpp and .hpp, over that queue. Its client calls
-- AddToReadyQueue, RemoveFromReadyQueue and SelectNextProcess.
-- Process.antt has the records of Kernel/Layers/Logic/ProcessManager.hpp, and CpuState of
-- Kernel/Arch/x86.hpp. ProcessManager.antt is Kernel/Layers/Logic/ProcessManager.cpp, a table of 32 entries
-- in which a process is pointed to by its index.
-- Synchronization.antt is Kernel/Layers/Logic/SynchronizationManager.cpp and .hpp, the queues of those that
-- sleep, wait for terminal input or wait at a futex; Synchronization/EventQueues.antt has the event
-- queues. A queue is the list of its nodes here, in the sense of IntrusiveQueue/Chain.antt.
-- KernelHeap.antt is Kernel/Layers/Resource/KernelHeapManager.cpp and .hpp, the slab allocator behind
-- kmalloc and kfree. KernelHeap/Data.antt has the descriptors and Initialize, Lists.antt the size
-- classes and their lists, Slabs.antt the runs of slabs, Malloc.antt kmalloc and Free.antt kfree.
-- VirtualMemory.antt is Kernel/Memory/VirtualMemoryManager.cpp and .hpp. VirtualMemory/Entries.antt has
-- the entries, Tables.antt the state and the tables that MapPage makes, which come from
-- PhysicalMemory.antt, Map.antt MapPage, Protect.antt ProtectPage and UnmapPage, and Ranges.antt the
-- operations on ranges. VirtualMemory/Walk.antt is what the processor makes of the tables, and
-- VirtualMemory/Fresh.antt says what MapPage relies on in the tables and the pages that it is given.
-- Communication.antt is Kernel/Layers/Logic/InterProcessComunicationManager.cpp and .hpp: its
-- pipes and the transfer of bytes over local sockets, in Sockets.antt.
-- Communication/Ring.antt has the loops that copy bytes, Pipes.antt the calls that read, write and poll,
-- with the waiting, and Table.antt and Close.antt the list of the ends and their references.
-- Communication/Queue.antt says which queue of bytes a pipe stands for.
-- Elf.antt is Kernel/Layers/Logic/ELFManager.cpp and .hpp, the checks of a program image.
-- Common.antt has names of the libraries, tests on numbers, lists measured by native numbers, words of 32
-- and 64 bits, and the bit that `^` flips.
--
-- The parts meet where the Logic layer calls them: it creates a process in the table, puts its id into
-- the ready queue, and moves ids between the ready queue and the queues of Synchronization. MapPage
-- takes its tables from the allocator of pages.
--
-- Numbers are natural numbers; 64-bit arithmetic that can wrap is written with `% 2 ^ 64`. A pointer is
-- an address and nullptr is 0, or an Option where only its being null matters. What `new` returns, the
-- memory map of the firmware and the addresses that the linker chooses are parameters.
--
-- A wait in a pipe runs over the states in which the call wakes up, and a call still waiting behind
-- the last of them is asleep. The loops of the queue run on fuel, and the theorems ask for more fuel
-- than there are nodes; that is enough because a queue visits a node once.
-- DuplicateEventQueuesForProcess runs on fuel as well, since with equal source and destination its
-- loop can go on as long as memory lasts. The loops of the buddy allocator run over the orders, of
-- which there are at most 52, and over the pages that are left.
--
-- Not modelled are the drivers and the processor's tables (port I/O), drawing, the boot loader (calls of
-- UEFI), printf (another project's library), and the layers that only pass calls on. The copy of
-- page tables, the heap before the slabs, the file systems, the making of sockets and the
-- terminal are not modelled.
pub mod Common
pub mod Communication
pub mod Elf
pub mod IntrusiveQueue
pub mod KernelHeap
pub mod PhysicalMemory
pub mod Process
pub mod ProcessManager
pub mod Scheduler
pub mod Synchronization
pub mod VirtualMemory
