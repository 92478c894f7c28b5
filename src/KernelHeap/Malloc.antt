-- ===== src/KernelHeap/Malloc.antt =====
-- kmalloc of KernelHeapManager.cpp.
use twisted_os_v.Common.{
  ℕ, zero, suc, ◌+◌, ◌-◌, ◌/◌, ◌%◌, ◌||◌, not, none, some, ◌==◌, ltb, if◌then◌else◌,
}
use twisted_os_v.Common.Words.{u64, u32, u64_limit}
use twisted_os_v.KernelHeap.Data.{
  slab_page_size, slab_class_count, header_size, allocation_magic, large_class_sentinel,
  SlabDescriptor, KernelHeapManager, put, free_descriptor, slab_large_head, slab_large_tail,
}
use twisted_os_v.KernelHeap.Lists.{
  select_class_index, get_slab_base_address, unlink_slab_from_class_list, read_next,
}
use twisted_os_v.KernelHeap.Slabs.{initialize_small_slab, find_free_slab_run}

-- An allocation header: the magic number, the slab's index, and the class in the low half of a word.
unfoldable pub write_header : (ℕ → ℕ) → (address index class : ℕ) → ℕ → ℕ
write_header memory address index class =
    put (put (put memory address allocation_magic) (address + 4) (u32 index)) (address + 8)
      (class % 0x1_0000)

-- What kmalloc does with a slab of the class's list.
unfoldable pub take_object : KernelHeapManager → (index class : ℕ) → ℕ × KernelHeapManager
take_object m index class =
    let d = m.slabs index in
    let object = d.free_list in
    let taken = record m {
      slabs =
          put m.slabs index
            (record d { free_list = read_next m.memory object; free_objects = d.free_objects - 1 });
    } in
    let listed =
      if d.free_objects - 1 == 0 then unlink_slab_from_class_list taken index class else taken in
    if d.free_list == 0 || d.free_objects == 0 then (0, m) else (
      u64 (object + header_size),
      record listed { memory = write_header listed.memory object index class },
    )

-- kmalloc for a size that has a class.
unfoldable pub kmalloc_small : KernelHeapManager → ℕ → ℕ × KernelHeapManager
kmalloc_small m class = elim (m.class_available_head class) [
  | some index ↦ take_object m index class
  | none ↦ elim (find_free_slab_run m 1) [
    | none ↦ (0, m)
    | some fresh ↦
        let (initialized, m') = initialize_small_slab m fresh class in
        if not initialized then (0, m') else elim (m'.class_available_head class) [
          | none ↦ (0, m')
          | some index ↦ take_object m' index class
        ]
  ]
]

abbrev pub large_head : ℕ → SlabDescriptor
large_head span = record free_descriptor {
  state = slab_large_head;
  owner_or_span = u32 span;
  total_objects = 1;
}

abbrev pub large_tail : ℕ → SlabDescriptor
large_tail head = record free_descriptor { state = slab_large_tail; owner_or_span = u32 head }

-- The loop of kmalloc over the slabs behind the head of a large allocation.
unfoldable pub tail_loop : (remaining index head : ℕ) → (ℕ → SlabDescriptor) → ℕ → SlabDescriptor
tail_loop zero index head slabs = slabs
tail_loop (suc remaining) index head slabs =
    tail_loop remaining (index + 1) head (put slabs index (large_tail head))

-- kmalloc for a size without a class.
unfoldable pub kmalloc_large : KernelHeapManager → ℕ → ℕ × KernelHeapManager
kmalloc_large m size =
    let span = u64 (size + header_size + (slab_page_size - 1)) / slab_page_size in
    if ltb (u64_limit - 1 - header_size) size
    then (0, m)
    else if span == 0
    then (0, m)
    else elim (find_free_slab_run m span) [
      | none ↦ (0, m)
      | some head ↦ (
        u64 (get_slab_base_address m head + header_size),
        record m {
          slabs = tail_loop (span - 1) (head + 1) head (put m.slabs head (large_head span));
          memory = write_header m.memory (get_slab_base_address m head) head large_class_sentinel;
        },
      )
    ]

unfoldable pub kmalloc : KernelHeapManager → ℕ → ℕ × KernelHeapManager
kmalloc m size =
    let class = select_class_index size in
    if size == 0
    then (0, m)
    else if m.slab_count == 0
    then (0, m)
    else if ltb class slab_class_count
    then kmalloc_small m class
    else kmalloc_large m size
