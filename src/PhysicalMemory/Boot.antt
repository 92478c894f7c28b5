-- ===== src/PhysicalMemory/Boot.antt =====
-- How PhysicalMemoryManager.cpp sets itself up from the boot memory map: InitializeMemoryStats, the
-- allocations from the map before the buddy allocator runs, InitializeMemoryDescriptors and
-- InitializeBuddyAllocator.
use twisted_os_v.Common.{
  ℕ, zero, suc, ◌+◌, ◌*◌, ◌-◌, ◌/◌, ◌%◌, Bool, not, ◌&&◌, List, [], ◌∷◌, Option, none, some, ltb,
  leb, ◌==◌, if◌then◌else◌, drop,
}
use twisted_os_v.Common.Words.{u64}
use twisted_os_v.PhysicalMemory.{
  EfiMemoryDescriptor, MemoryDescriptor, FreeLists, PhysicalMemoryManager, page_size,
  pmm_buddy_physical_limit, efi_conventional_memory, pages_for_order, floor_log2_pages, push_block,
}

abbrev pub is_conventional : EfiMemoryDescriptor → Bool
is_conventional d = d.type == efi_conventional_memory

-- The loop of InitializeMemoryStats: bytes and pages so far.
unfoldable pub stats_loop : List EfiMemoryDescriptor → (bytes pages : ℕ) → ℕ × ℕ
stats_loop [] bytes pages = (bytes, pages)
stats_loop (d ∷ map) bytes pages =
    stats_loop map
      (if is_conventional d then u64 (bytes + u64 (d.number_of_pages * page_size)) else bytes)
      (if is_conventional d then u64 (pages + d.number_of_pages) else pages)

abbrev pub no_memory : MemoryDescriptor
no_memory = record {
  physical_address_start = 0;
  total_number_of_pages = 0;
  number_of_free_pages = 0;
  bit_map = 0;
}

-- The constructor, with InitializeMemoryStats.
unfoldable pub new_physical_memory_manager :
    List EfiMemoryDescriptor
    → (next_page_address current_descriptor remaining_pages : ℕ) → PhysicalMemoryManager
unfolding stats_loop
new_physical_memory_manager map next_page_address current_descriptor remaining_pages =
    let (bytes, pages) = stats_loop map 0 0 in
    record {
      memory_map = map;
      next_page_address = next_page_address;
      current_descriptor = current_descriptor;
      remaining_pages_in_descriptor = remaining_pages;
      total_usable_memory = bytes;
      total_number_of_pages = pages;
      descriptor_info = no_memory;
      buddy_free_lists = λ order. [];
      buddy_max_order = 0;
    }

-- The first conventional descriptor, from the index `i` of the map's head, with enough pages.
unfoldable pub find_descriptor :
    (pages i : ℕ) → List EfiMemoryDescriptor → Option (ℕ × EfiMemoryDescriptor)
find_descriptor pages i [] = none
find_descriptor pages i (d ∷ map) =
    let rest = find_descriptor pages (i + 1) map in
    if is_conventional d && leb pages d.number_of_pages then some (i, d) else rest

unfoldable pub allocate_pages_from_memory_map :
    PhysicalMemoryManager → ℕ → ℕ × PhysicalMemoryManager
unfolding find_descriptor
allocate_pages_from_memory_map p pages =
    let i = p.current_descriptor + 1 in
    if ltb p.remaining_pages_in_descriptor pages
    then elim (find_descriptor pages i (drop i p.memory_map)) [
      | none ↦ (0, p)
      | some (j, d) ↦ (
        d.physical_start,
        record p {
          current_descriptor = j;
          remaining_pages_in_descriptor = d.number_of_pages - pages;
          next_page_address = u64 (d.physical_start + u64 (pages * page_size));
        },
      )
    ]
    else (
      p.next_page_address,
      record p {
        remaining_pages_in_descriptor = p.remaining_pages_in_descriptor - pages;
        next_page_address = u64 (p.next_page_address + u64 (pages * page_size));
      },
    )

-- The inner loop of InitializeBuddyAllocator: down to an order whose blocks the offset is aligned to.
unfoldable pub aligned_order : ℕ → ℕ → ℕ
aligned_order zero offset = 0
aligned_order (suc order) offset =
    let lower = aligned_order order offset in
    if offset % pages_for_order (suc order) == 0 then suc order else lower

-- The outer loop, which cuts the remaining pages into aligned blocks. Each round takes a page at
-- least, so the number of pages is fuel enough.
unfoldable pub carve_blocks : ℕ → (base remaining offset : ℕ) → FreeLists → FreeLists
carve_blocks zero base remaining offset fl = fl
carve_blocks (suc fuel) base remaining offset fl =
    let order = aligned_order (floor_log2_pages remaining) offset in
    let pages = pages_for_order order in
    let next =
      carve_blocks fuel base (remaining - pages) (offset + pages)
        (push_block fl order (u64 (base + u64 (offset * page_size)))) in
    if remaining == 0 then fl else next

unfoldable pub initialize_buddy_allocator : PhysicalMemoryManager → PhysicalMemoryManager
unfolding carve_blocks
initialize_buddy_allocator p =
    let info = p.descriptor_info in
    let total = info.total_number_of_pages in
    let base = info.physical_address_start in
    if total == 0
    then record p { buddy_free_lists = λ order. []; buddy_max_order = 0 }
    else record p {
      buddy_free_lists = carve_blocks total base total 0 (λ order. []);
      buddy_max_order = floor_log2_pages total;
      descriptor_info = record info { bit_map = base };
    }

-- The start and the page count that InitializeMemoryDescriptors considers for descriptor `i`, if
-- any: what is left of the current descriptor, cut off at the physical limit.
unfoldable pub candidate : PhysicalMemoryManager → ℕ → EfiMemoryDescriptor → Option (ℕ × ℕ)
candidate p i d =
    let current = i == p.current_descriptor in
    let start = if current then p.next_page_address else d.physical_start in
    let pages = if current then p.remaining_pages_in_descriptor else d.number_of_pages in
    let fitting = (pmm_buddy_physical_limit - start) / page_size in
    if not (is_conventional d)
    then none
    else if ltb i p.current_descriptor
    then none
    else if current && p.remaining_pages_in_descriptor == 0
    then none
    else if leb pmm_buddy_physical_limit start
    then none
    else if ltb pmm_buddy_physical_limit (u64 (start + u64 (pages * page_size)))
    then (if fitting == 0 then none else some (start, fitting))
    else some (start, pages)

-- A candidate with more pages than the best so far takes its place.
unfoldable pub consider : Option (ℕ × ℕ) → MemoryDescriptor → MemoryDescriptor
consider none best = best
consider (some (start, pages)) best =
    if ltb best.total_number_of_pages pages
    then record {
      physical_address_start = start;
      total_number_of_pages = pages;
      number_of_free_pages = pages;
      bit_map = 0;
    }
    else best

-- The loop of InitializeMemoryDescriptors: the best candidate so far, from descriptor `i` on.
unfoldable pub largest_candidate :
    PhysicalMemoryManager → ℕ → List EfiMemoryDescriptor → MemoryDescriptor → MemoryDescriptor
largest_candidate p i [] best = best
largest_candidate p i (d ∷ map) best =
    largest_candidate p (i + 1) map (consider (candidate p i d) best)

unfoldable pub initialize_memory_descriptors : PhysicalMemoryManager → PhysicalMemoryManager
initialize_memory_descriptors p =
    initialize_buddy_allocator
      (record p { descriptor_info = largest_candidate p 0 p.memory_map no_memory })
