-- ===== src/KernelHeap/Examples.antt =====
-- The heap's theorems at a heap of four slabs.
use twisted_os_v.Common.{◌≡◌, refl, none, arith, inl, inr, Bool-cases, ◌==◌}
use twisted_os_v.KernelHeap.Data.{
  KernelHeapManager, free_descriptor, put, slab_small, allocation_magic,
}
use twisted_os_v.KernelHeap.Malloc.{kmalloc, kmalloc_large}
use twisted_os_v.KernelHeap.Slabs.{find_free_slab_run, run_loop}
use twisted_os_v.KernelHeap.Lists.{
  select_class_index, class_loop, get_class_object_size, get_slab_base_address,
}
use twisted_os_v.KernelHeap.Runs.{find_free_slab_run-Found, Found}
use twisted_os_v.KernelHeap.Loops.{IsHeap}
use twisted_os_v.KernelHeap.Large.{kfree-kmalloc}
use twisted_os_v.KernelHeap.Twice.{kfree-kfree, EvenLists}
use twisted_os_v.KernelHeap.Free.{kfree, kfree_header, kfree_small, return_object}

abbrev heap : KernelHeapManager
heap = record {
  heap_start = 0x10_0000;
  heap_end = 0x10_4000;
  managed_heap_size = 0x4000;
  slab_count = 4;
  slabs = λ i. free_descriptor;
  class_available_head = λ class. none;
  memory = λ address. 0;
}

-- The same heap with its third slab in use.
abbrev divided : KernelHeapManager
divided = record heap { slabs = put heap.slabs 2 (record free_descriptor { state = slab_small }) }

heap-IsHeap : IsHeap heap
heap-IsHeap = record {
  managed = omega arith;
  start = omega arith;
  inside = omega arith;
  few = omega arith;
  reset = λ i e. refl;
}

kmalloc-heap : kmalloc heap 5000 ≡ (0x10_000C, (kmalloc heap 5000).1)
unfolding kmalloc kmalloc_large find_free_slab_run run_loop select_class_index class_loop
    get_class_object_size get_slab_base_address
kmalloc-heap = refl

kfree-kmalloc_example :
    kfree (kmalloc heap 5000).1 0x10_000C
    ≡ record heap { memory = (kfree (kmalloc heap 5000).1 0x10_000C).memory }
kfree-kmalloc_example =
    kfree-kmalloc heap (kmalloc heap 5000).1 5000 0x10_000C heap-IsHeap (omega arith) kmalloc-heap
      (omega arith)

-- The heap with one object of the smallest class in use, at the start of the first slab.
abbrev used : KernelHeapManager
used = record heap {
  slabs = put heap.slabs 0 (record free_descriptor {
    state = slab_small;
    owner_or_span = 1;
    total_objects = 64;
    free_objects = 62;
    free_list = 0x10_0040;
  });
  memory = put heap.memory 0x10_0000 allocation_magic;
}

used-EvenLists : EvenLists used
used-EvenLists i = elim (Bool-cases (i == 0)) [ inl e ↦ rw e refl | inr e ↦ rw e refl ]

kfree-used : ((kfree used 0x10_000C).slabs 0).free_objects ≡ 63
unfolding kfree kfree_header kfree_small return_object get_slab_base_address get_class_object_size
kfree-used = refl

kfree-kfree_example : kfree (kfree used 0x10_000C) 0x10_000C ≡ kfree used 0x10_000C
kfree-kfree_example = kfree-kfree used 0x10_000C used-EvenLists

find_free_slab_run-Found_example : Found divided.slabs 2 4 (find_free_slab_run divided 2)
find_free_slab_run-Found_example = find_free_slab_run-Found divided 2 (omega arith)
