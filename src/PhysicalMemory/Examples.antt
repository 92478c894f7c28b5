-- ===== src/PhysicalMemory/Examples.antt =====
-- Eight pages at 0x1000, and the theorems at them.
use twisted_os_v.Common.{ℕ, ◌+◌, ◌*◌, ◌≤◌, ◌<◌, ◌≡◌, ◌≢◌, ◌⊎◌, refl, [], ◌∷◌, arith, true}
use twisted_os_v.PhysicalMemory.{
  EfiMemoryDescriptor, PhysicalMemoryManager, page_size, max_buddy_orders, pages_for_order,
  floor_log2_loop, floor_log2_pages, ceil_log2_pages, push_block, find_order, split_blocks,
  take_block, alloc_order, allocate_pages_from_descriptor, free_pages_from_descriptor,
}
use twisted_os_v.PhysicalMemory.Orders.{floor_log2_pages_bounds, ceil_log2_pages_bounds}
use twisted_os_v.PhysicalMemory.Measure.{Measure, held}
use twisted_os_v.PhysicalMemory.Sound.{IsSound}
use twisted_os_v.PhysicalMemory.Alloc.{Granted, NoBlock, allocate_pages_from_descriptor-outcome}
use twisted_os_v.PhysicalMemory.Guards.{free-allocate}
use twisted_os_v.PhysicalMemory.Boot.{
  stats_loop, new_physical_memory_manager, candidate, consider, largest_candidate, aligned_order,
  carve_blocks, initialize_buddy_allocator, initialize_memory_descriptors,
}
use twisted_os_v.PhysicalMemory.Offers.{MapFits, Chosen, NoneLarger}
use twisted_os_v.PhysicalMemory.Largest.{initialize_memory_descriptors-IsSound}

abbrev low_memory : EfiMemoryDescriptor
low_memory = record { type = 7; physical_start = 0x1000; number_of_pages = 8 }

abbrev booted : PhysicalMemoryManager
booted = new_physical_memory_manager (low_memory ∷ []) 0x1000 0 8

abbrev ready : PhysicalMemoryManager
ready = initialize_memory_descriptors booted

ready_range :
    (ready.descriptor_info.physical_address_start ≡ 0x1000)
    × (ready.descriptor_info.total_number_of_pages ≡ 8)
    × (ready.buddy_free_lists 3 ≡ 0x1000 ∷ [])
unfolding initialize_memory_descriptors initialize_buddy_allocator new_physical_memory_manager
    stats_loop largest_candidate candidate consider carve_blocks aligned_order floor_log2_pages
    floor_log2_loop push_block pages_for_order
ready_range = (refl, refl, refl)

booted-MapFits : MapFits booted
unfolding new_physical_memory_manager
booted-MapFits = record { rest = omega arith; descriptors = (omega arith, tt) }

initialize_memory_descriptors-IsSound_example :
    (ready.descriptor_info.physical_address_start
        + ready.descriptor_info.total_number_of_pages * page_size
      ≤ 0xC000_0000)
    × ((ready.descriptor_info.total_number_of_pages ≡ 0)
        ⊎ Chosen booted 0 booted.memory_map ready.descriptor_info.physical_address_start
            ready.descriptor_info.total_number_of_pages)
    × NoneLarger booted 0 booted.memory_map ready.descriptor_info.total_number_of_pages
    × (ready.descriptor_info.total_number_of_pages ≢ 0
        → ready.descriptor_info.physical_address_start ≢ 0
        → IsSound ready
          × ((μ : Measure)
              → held μ max_buddy_orders ready.buddy_free_lists
                ≡ μ.size ready.descriptor_info.physical_address_start
                    ready.descriptor_info.total_number_of_pages))
initialize_memory_descriptors-IsSound_example =
    initialize_memory_descriptors-IsSound booted booted-MapFits

ready-IsSound : IsSound ready
ready-IsSound =
    (initialize_memory_descriptors-IsSound_example.3 (omega (arith, ready_range))
      (omega (arith, ready_range))).0

floor_log2_pages_bounds_example :
    (pages_for_order (floor_log2_pages 5) ≤ 5) × (5 < pages_for_order (floor_log2_pages 5 + 1))
unfolding pages_for_order
floor_log2_pages_bounds_example = floor_log2_pages_bounds 5 (omega arith) (omega arith)

ceil_log2_pages_bounds_example :
    (5 ≤ pages_for_order (ceil_log2_pages 5)) × (pages_for_order (ceil_log2_pages 5) < 2 * 5)
unfolding pages_for_order
ceil_log2_pages_bounds_example = ceil_log2_pages_bounds 5 (omega arith) (omega arith)

allocate_pages_from_descriptor-outcome_example :
    Granted ready (ceil_log2_pages 3) (allocate_pages_from_descriptor ready 3)
    ⊎ ((allocate_pages_from_descriptor ready 3 ≡ (0, ready))
        × ((◌≡◌ {A = ℕ} 3 0)
            ⊎ (ready.descriptor_info.number_of_free_pages < 3)
            ⊎ NoBlock ready (ceil_log2_pages 3)))
allocate_pages_from_descriptor-outcome_example =
    allocate_pages_from_descriptor-outcome ready 3 ready-IsSound

three_pages : (allocate_pages_from_descriptor ready 3).0 ≡ 0x1000
unfolding allocate_pages_from_descriptor initialize_memory_descriptors initialize_buddy_allocator
    new_physical_memory_manager stats_loop largest_candidate candidate consider carve_blocks
    aligned_order floor_log2_pages floor_log2_loop ceil_log2_pages push_block pages_for_order
    alloc_order find_order take_block split_blocks
three_pages = refl

free-allocate_example :
    let (address, q) = allocate_pages_from_descriptor ready 3 in
    let (done, back) = free_pages_from_descriptor q address 3 in
    (done ≡ true)
    × IsSound back
    × (back.descriptor_info.number_of_free_pages ≡ ready.descriptor_info.number_of_free_pages)
    × ((μ : Measure)
        → held μ max_buddy_orders back.buddy_free_lists
          ≡ held μ max_buddy_orders ready.buddy_free_lists)
free-allocate_example = free-allocate ready 3 ready-IsSound (omega (arith, three_pages))
