-- ===== src/KernelHeap/Lists.antt =====
-- KernelHeapManager.cpp: size classes and the lists of the slabs that have free objects.
use twisted_os_v.Common.{
  ℕ, zero, suc, ◌+◌, ◌-◌, ◌*◌, ◌/◌, Bool, true, false, ◌&&◌, ◌||◌, not, Option, none, some, ◌==◌,
  ltb, leb, if◌then◌else◌,
}
use twisted_os_v.Common.Words.{u64, u32, u64_limit}
use twisted_os_v.KernelHeap.Data.{
  slab_page_size, slab_class_count, header_size, SlabDescriptor, KernelHeapManager, put,
}

-- SLAB_CLASS_SIZES; 0 from the seventh class on.
unfoldable pub get_class_object_size : ℕ → ℕ
get_class_object_size class =
    if class == 0
    then 64
    else if class == 1
    then 128
    else if class == 2
    then 256
    else if class == 3
    then 512
    else if class == 4
    then 1024
    else if class == 5
    then 2048
    else if class == 6
    then 4096
    else 0

-- The loop of SelectClassIndex over the classes that remain.
unfoldable pub class_loop : (remaining class required : ℕ) → ℕ
class_loop zero class required = slab_class_count
class_loop (suc remaining) class required =
    let further = class_loop remaining (class + 1) required in
    if leb required (get_class_object_size class) then class else further

unfoldable pub select_class_index : ℕ → ℕ
select_class_index size =
    if ltb (u64_limit - 1 - header_size) size
    then slab_class_count
    else class_loop slab_class_count 0 (size + header_size)

unfoldable pub get_slab_base_address : KernelHeapManager → ℕ → ℕ
get_slab_base_address m index = u64 (m.heap_start + u64 (index * slab_page_size))

abbrev pub is_index : Option ℕ → ℕ → Bool
is_index none index = false
is_index (some i) index = i == index

abbrev pub is_none : Option ℕ → Bool
is_none none = true
is_none (some i) = false

-- A write of NextAvailable or PrevAvailable at an index that may be -1.
unfoldable pub set_next : Option ℕ → Option ℕ → (ℕ → SlabDescriptor) → ℕ → SlabDescriptor
set_next none value slabs = slabs
set_next (some index) value slabs =
    put slabs index (record (slabs index) { next_available = value })

unfoldable pub set_prev : Option ℕ → Option ℕ → (ℕ → SlabDescriptor) → ℕ → SlabDescriptor
set_prev none value slabs = slabs
set_prev (some index) value slabs =
    put slabs index (record (slabs index) { prev_available = value })

unfoldable pub link_slab_into_class_list : KernelHeapManager → (index class : ℕ) → KernelHeapManager
link_slab_into_class_list m index class =
    let d = m.slabs index in
    let head = m.class_available_head class in
    let linked = put m.slabs index (record d { prev_available = none; next_available = head }) in
    if not (is_none d.prev_available) || not (is_none d.next_available) || is_index head index
    then m
    else record m {
      slabs = set_prev head (some index) linked;
      class_available_head = put m.class_available_head class (some index);
    }

unfoldable pub unlink_slab_from_class_list :
    KernelHeapManager → (index class : ℕ) → KernelHeapManager
unlink_slab_from_class_list m index class =
    let d = m.slabs index in
    let slabs =
      set_prev d.next_available d.prev_available
        (set_next d.prev_available d.next_available m.slabs) in
    let heads =
      if is_none d.prev_available && is_index (m.class_available_head class) index
      then put m.class_available_head class d.next_available
      else m.class_available_head in
    record m {
      slabs =
          put slabs index (record (slabs index) { prev_available = none; next_available = none });
      class_available_head = heads;
    }

-- The field Next of a free object: two words.
unfoldable pub read_next : (ℕ → ℕ) → ℕ → ℕ
read_next memory address = memory address + 0x1_0000_0000 * memory (address + 4)

unfoldable pub write_next : (ℕ → ℕ) → (address next : ℕ) → ℕ → ℕ
write_next memory address next =
    put (put memory address (u32 next)) (address + 4) (next / 0x1_0000_0000)
