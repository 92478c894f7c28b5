-- ===== src/KernelHeap/Data.antt =====
-- KernelHeapManager.hpp and the start of KernelHeapManager.cpp: the state of the heap and its reset.
use twisted_os_v.Common.{
  ℕ, ◌+◌, ◌-◌, ◌*◌, ◌/◌, Bool, true, false, not, Option, none, ◌==◌, ltb, leb, if◌then◌else◌,
}
use twisted_os_v.Common.Words.{u64}

abbrev pub kernel_heap_size : ℕ
kernel_heap_size = 8192 * 4096

abbrev pub slab_page_size : ℕ
slab_page_size = 4096

abbrev pub slab_class_count : ℕ
slab_class_count = 7

abbrev pub header_size : ℕ
header_size = 12

abbrev pub allocation_magic : ℕ
allocation_magic = 0x4B484D47

abbrev pub large_class_sentinel : ℕ
large_class_sentinel = 0xFFFF

pub data SlabState : Type 0 where
  slab_free : SlabState
  slab_small : SlabState
  slab_large_head : SlabState
  slab_large_tail : SlabState

pub record SlabDescriptor : Type 0 where
  pub state : SlabState
  pub class_index : ℕ
  pub owner_or_span : ℕ
  pub total_objects : ℕ
  pub free_objects : ℕ
  pub free_list : ℕ
  pub prev_available : Option ℕ
  pub next_available : Option ℕ

pub record KernelHeapManager : Type 0 where
  pub heap_start : ℕ
  pub heap_end : ℕ
  pub managed_heap_size : ℕ
  pub slab_count : ℕ
  pub slabs : ℕ → SlabDescriptor
  pub class_available_head : ℕ → Option ℕ
  pub memory : ℕ → ℕ

abbrev pub put {ℓ} : {A : Type ℓ} → (ℕ → A) → ℕ → A → ℕ → A
put f index value i = if i == index then value else f i

abbrev pub is_free : SlabState → Bool
is_free slab_free = true
is_free slab_small = false
is_free slab_large_head = false
is_free slab_large_tail = false

abbrev pub is_small : SlabState → Bool
is_small slab_small = true
is_small slab_free = false
is_small slab_large_head = false
is_small slab_large_tail = false

abbrev pub is_large_head : SlabState → Bool
is_large_head slab_large_head = true
is_large_head slab_free = false
is_large_head slab_small = false
is_large_head slab_large_tail = false

-- The descriptor of a slab that nothing uses.
abbrev pub free_descriptor : SlabDescriptor
free_descriptor = record {
  state = slab_free;
  class_index = 0;
  owner_or_span = 0;
  total_objects = 0;
  free_objects = 0;
  free_list = 0;
  prev_available = none;
  next_available = none;
}

unfoldable pub get_managed_heap_size : (heap_start heap_end : ℕ) → ℕ
get_managed_heap_size heap_start heap_end =
    if leb heap_end heap_start
    then (if heap_start == 0 then 0 else kernel_heap_size)
    else if ltb (heap_end - heap_start) kernel_heap_size
    then heap_end - heap_start
    else kernel_heap_size

unfoldable pub get_effective_slab_count : (heap_start heap_end : ℕ) → ℕ
get_effective_slab_count heap_start heap_end =
    get_managed_heap_size heap_start heap_end / slab_page_size

-- What Initialize makes of the end of the range.
unfoldable pub clamp_heap_end : (heap_start heap_end : ℕ) → ℕ
clamp_heap_end heap_start heap_end =
    let expected = u64 (heap_start + kernel_heap_size) in
    if heap_start == 0
    then heap_end
    else if not (ltb heap_start expected)
    then heap_end
    else if leb heap_end heap_start
    then expected
    else if ltb kernel_heap_size (heap_end - heap_start)
    then expected
    else heap_end

-- ResetAllocatorState, on a heap whose fields besides are set.
unfoldable pub reset_allocator_state : KernelHeapManager → KernelHeapManager
reset_allocator_state m = record m {
  slabs = λ index. free_descriptor;
  class_available_head = λ class. none;
}

unfoldable pub initialize : KernelHeapManager → (heap_start heap_end : ℕ) → KernelHeapManager
initialize m heap_start heap_end =
    let end = clamp_heap_end heap_start heap_end in
    reset_allocator_state (record m {
      heap_start = heap_start;
      heap_end = end;
      managed_heap_size = get_managed_heap_size heap_start end;
      slab_count = get_effective_slab_count heap_start end;
    })
