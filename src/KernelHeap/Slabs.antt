-- ===== src/KernelHeap/Slabs.antt =====
-- KernelHeapManager.cpp: setting a slab up, finding a run of free slabs and releasing one.
use twisted_os_v.Common.{
  ℕ, zero, suc, ◌+◌, ◌*◌, ◌/◌, Bool, true, false, ◌||◌, not, Option, none, some, ◌==◌, ltb,
  if◌then◌else◌,
}
use twisted_os_v.Common.Words.{u64}
use twisted_os_v.KernelHeap.Data.{
  slab_page_size, slab_class_count, SlabDescriptor, KernelHeapManager, put, is_free,
  free_descriptor, slab_small,
}
use twisted_os_v.KernelHeap.Lists.{
  get_class_object_size, get_slab_base_address, link_slab_into_class_list, write_next,
}

-- The loop of InitializeSmallSlab: the memory and the free list.
unfoldable pub object_loop : (remaining index base size : ℕ) → (ℕ → ℕ) → ℕ → (ℕ → ℕ) × ℕ
object_loop zero index base size memory free_list = (memory, free_list)
object_loop (suc remaining) index base size memory free_list =
    let object = u64 (base + index * size) in
    object_loop remaining (index + 1) base size (write_next memory object free_list) object

unfoldable pub initialize_small_slab :
    KernelHeapManager → (index class : ℕ) → Bool × KernelHeapManager
initialize_small_slab m index class =
    let size = get_class_object_size class in
    let objects = slab_page_size / size in
    let (memory, free_list) =
      object_loop objects 0 (get_slab_base_address m index) size m.memory 0 in
    let d : SlabDescriptor = record {
      state = slab_small;
      class_index = class;
      owner_or_span = 1;
      total_objects = objects;
      free_objects = objects;
      free_list = free_list;
      prev_available = none;
      next_available = none;
    } in
    if not (ltb index m.slab_count) || not (ltb class slab_class_count)
    then (false, m)
    else if size == 0
    then (false, m)
    else if objects == 0
    then (false, m)
    else (
      true,
      link_slab_into_class_list (record m { slabs = put m.slabs index d; memory = memory }) index
          class,
    )

-- The loop of FindFreeSlabRun over the slabs that remain.
unfoldable pub run_loop :
    (remaining index run_start run_length span : ℕ) → (ℕ → SlabDescriptor) → Option ℕ
run_loop zero index run_start run_length span slabs = none
run_loop (suc remaining) index run_start run_length span slabs =
    let start = if run_length == 0 then index else run_start in
    let skipped = run_loop remaining (index + 1) run_start 0 span slabs in
    let further = run_loop remaining (index + 1) start (run_length + 1) span slabs in
    if not (is_free (slabs index).state)
    then skipped
    else if run_length + 1 == span
    then some start
    else further

unfoldable pub find_free_slab_run : KernelHeapManager → ℕ → Option ℕ
find_free_slab_run m span =
    if span == 0 || ltb m.slab_count span then none else run_loop m.slab_count 0 0 0 span m.slabs

-- The loop of ReleaseSlabRun.
unfoldable pub release_loop : (span start : ℕ) → (ℕ → SlabDescriptor) → ℕ → SlabDescriptor
release_loop zero start slabs = slabs
release_loop (suc span) start slabs =
    release_loop span (start + 1) (put slabs start free_descriptor)

unfoldable pub release_slab_run : KernelHeapManager → (start span : ℕ) → KernelHeapManager
release_slab_run m start span =
    if span == 0 || ltb m.slab_count (u64 (start + span))
    then m
    else record m { slabs = release_loop span start m.slabs }
