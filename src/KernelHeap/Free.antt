-- ===== src/KernelHeap/Free.antt =====
-- kfree of KernelHeapManager.cpp.
use twisted_os_v.Common.{ℕ, ◌+◌, ◌-◌, ◌*◌, ◌%◌, ◌||◌, not, ◌==◌, ltb, if◌then◌else◌}
use twisted_os_v.Common.Words.{u64, u32, u64_limit}
use twisted_os_v.KernelHeap.Data.{
  slab_page_size, slab_class_count, header_size, allocation_magic, large_class_sentinel,
  KernelHeapManager, put, is_small, is_large_head,
}
use twisted_os_v.KernelHeap.Lists.{
  get_class_object_size, get_slab_base_address, link_slab_into_class_list,
  unlink_slab_from_class_list, write_next,
}
use twisted_os_v.KernelHeap.Slabs.{release_slab_run}

-- kfree of a header whose class is the sentinel.
unfoldable pub kfree_large : KernelHeapManager → (address index : ℕ) → KernelHeapManager
kfree_large m address index =
    let d = m.slabs index in
    let span = d.owner_or_span in
    if not (is_large_head d.state)
    then m
    else if span == 0 || ltb m.slab_count (u64 (index + span))
    then m
    else if not (address == get_slab_base_address m index)
    then m
    else release_slab_run (record m { memory = put m.memory address 0 }) index span

-- kfree of an object behind its guards.
unfoldable pub return_object : KernelHeapManager → (address index class : ℕ) → KernelHeapManager
return_object m address index class =
    let cleared = record m { memory = put m.memory address 0 } in
    let listed =
      if (m.slabs index).free_objects == 0
      then link_slab_into_class_list cleared index class
      else cleared in
    let d = listed.slabs index in
    let returned = record listed {
      slabs =
          put listed.slabs index
            (record d { free_list = address; free_objects = u32 (d.free_objects + 1) });
      memory = write_next listed.memory address d.free_list;
    } in
    if u32 (d.free_objects + 1) == d.total_objects
    then release_slab_run (unlink_slab_from_class_list returned index class) index 1
    else returned

unfoldable pub kfree_small : KernelHeapManager → (address index class : ℕ) → KernelHeapManager
kfree_small m address index class =
    let d = m.slabs index in
    let base = get_slab_base_address m index in
    let size = get_class_object_size class in
    if not (ltb class slab_class_count)
    then m
    else if not (is_small d.state) || not (d.class_index == class)
    then m
    else if size == 0
    then m
    else if ltb address base || not (ltb address (u64 (base + slab_page_size)))
    then m
    else if not ((address - base) % size == 0)
    then m
    else if not (ltb d.free_objects d.total_objects)
    then m
    else return_object m address index class

-- kfree behind the check of the magic number.
unfoldable pub kfree_header : KernelHeapManager → ℕ → KernelHeapManager
kfree_header m address =
    let index = m.memory (address + 4) in
    let class = m.memory (address + 8) % 0x1_0000 in
    if not (ltb index m.slab_count)
    then m
    else if class == large_class_sentinel
    then kfree_large m address index
    else kfree_small m address index class

unfoldable pub kfree : KernelHeapManager → ℕ → KernelHeapManager
kfree m pointer =
    let base = m.heap_start in
    let limit = u64 (base + u64 (m.slab_count * slab_page_size)) in
    let address = u64 (pointer + (u64_limit - header_size)) in
    if pointer == 0
    then m
    else if m.managed_heap_size == 0 || m.slab_count == 0
    then m
    else if ltb pointer (u64 (base + header_size)) || not (ltb pointer limit)
    then m
    else if ltb address base || not (ltb address limit)
    then m
    else if not (m.memory address == allocation_magic)
    then m
    else kfree_header m address
