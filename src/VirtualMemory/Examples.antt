-- ===== src/VirtualMemory/Examples.antt =====
-- The theorems on translations at tables that map one page.
use twisted_os_v.Common.{ℕ, ◌≡◌, refl, true, false, none, some, ◌⊎◌, arith, ◌&&◌, [], ◌∷◌}
use twisted_os_v.PhysicalMemory.{
  pages_for_order, floor_log2_loop, floor_log2_pages, ceil_log2_pages, push_block, find_order,
  split_blocks, take_block, alloc_order, allocate_pages_from_descriptor,
}
use twisted_os_v.PhysicalMemory.Boot.{
  stats_loop, new_physical_memory_manager, candidate, consider, largest_candidate, aligned_order,
  carve_blocks, initialize_buddy_allocator, initialize_memory_descriptors,
}
use twisted_os_v.VirtualMemory.Tables.{
  VirtualMemoryManager, PageMappingFlags, put, page_table_mutation_none,
}
use twisted_os_v.VirtualMemory.Protect.{
  pt_slot, are_tables, has_page_table, protect_page, unmap_page,
}
use twisted_os_v.VirtualMemory.Map.{map_page}
use twisted_os_v.VirtualMemory.Walk.{Mapping, IsApart, upper_user, upper_write}
use twisted_os_v.VirtualMemory.Changes.{
  mapping, LeafApart, unmap_page-outcome, protect_page-outcome, others-keep,
}
use twisted_os_v.VirtualMemory.Fresh.{Tables}
use twisted_os_v.VirtualMemory.MapPage.{Exhausted, map_page-translate}

-- Tables of four levels, each in a page of its own, with the second page of the address space mapped.
abbrev entries : ℕ → ℕ
entries = put (put (put (put (λ i. 0) 0x1000 0x2007) 0x2000 0x3007) 0x3000 0x4007) 0x4008 0x9003

abbrev tables : VirtualMemoryManager
tables = record {
  page_map_l4_table = 0x1000;
  pmm = new_physical_memory_manager [] 0x1000 0 8;
  memory = entries;
  last_mutation = record {
    event = page_table_mutation_none;
    mutated_pml4_index = 0xFFFF;
    mutated_pdpt_index = 0xFFFF;
    mutated_pd_index = 0xFFFF;
    mutated_pt_index = 0xFFFF;
    entry_value = 0;
    derived_address = 0;
  };
}

tables-LeafApart : LeafApart tables 0x1000
tables-LeafApart = record { not_pml4 = omega arith; not_pdpt = omega arith; not_pd = omega arith }

tables-has_page_table : has_page_table tables.memory 0x1000 0x1000 ≡ true
unfolding are_tables
tables-has_page_table = refl

unmapped : (unmap_page tables 0x1000).1.memory 0x4008 ≡ 0
unfolding unmap_page are_tables
unmapped = refl

unmap_page-outcome_example :
    ((unmap_page tables 0x1000 ≡ (false, tables))
      × (has_page_table tables.memory 0x1000 0x1000 ≡ false))
    ⊎ (((unmap_page tables 0x1000).0 ≡ true) × (mapping (unmap_page tables 0x1000).1 0x1000 ≡ none))
unmap_page-outcome_example = unmap_page-outcome tables 0x1000 tables-LeafApart

protect_page-outcome_example :
    ((protect_page tables 0x1000 true false false ≡ (false, tables))
      × ((has_page_table tables.memory 0x1000 0x1000 ≡ false) ⊎ (mapping tables 0x1000 ≡ none)))
    ⊎ ((old : Mapping) × ((mapping tables 0x1000 ≡ some old)
          × ((protect_page tables 0x1000 true false false).0 ≡ true)
          × (mapping (protect_page tables 0x1000 true false false).1 0x1000
              ≡ some (record {
                physical = old.physical;
                for_user = upper_user tables.memory 0x1000 0x1000 && true;
                for_write = upper_write tables.memory 0x1000 0x1000 && false;
              }))))
protect_page-outcome_example =
    protect_page-outcome tables 0x1000 true false false tables-LeafApart (omega arith)

second_page-IsApart : IsApart tables.memory 0x1000 0x2000 (pt_slot tables.memory 0x1000 0x1000)
second_page-IsApart = record {
  not_pml4 = omega arith;
  not_pdpt = omega arith;
  not_pd = omega arith;
}

others-keep_example :
    (mapping (unmap_page tables 0x1000).1 0x2000 ≡ mapping tables 0x2000)
    × (mapping (protect_page tables 0x1000 true false false).1 0x2000 ≡ mapping tables 0x2000)
others-keep_example =
    others-keep tables 0x1000 0x2000 true false false second_page-IsApart (omega arith)

-- The same tables, and an allocator with eight pages at 0x10000.
abbrev with_pages : VirtualMemoryManager
with_pages = record tables {
  pmm = initialize_memory_descriptors (
      new_physical_memory_manager
        (record { type = 7; physical_start = 0x10000; number_of_pages = 8 } ∷ []) 0x10000 0 8);
}

first_given : (allocate_pages_from_descriptor with_pages.pmm 1).0 ≡ 0x10000
unfolding initialize_memory_descriptors initialize_buddy_allocator new_physical_memory_manager
    stats_loop largest_candidate candidate consider carve_blocks aligned_order floor_log2_pages
    floor_log2_loop ceil_log2_pages push_block pages_for_order find_order split_blocks take_block
    alloc_order allocate_pages_from_descriptor
first_given = refl

-- An address of the third megabyte, which has no page table.
with_pages-Tables : Tables 3 with_pages.memory with_pages.pmm 0x1000 [] 0x20_0000
with_pages-Tables = (
  λ is. (
    refl,
    omega arith,
    (omega arith, tt),
    (
      λ is'. (
        refl,
        omega arith,
        (omega arith, (omega arith, tt)),
        (
          λ is''. absurd (ground (arith, is'')),
          λ is'' some_page.
              rw first_given
                (refl, omega arith, (omega arith, (omega arith, (omega arith, tt))), tt),
        ),
      ),
      λ is'. absurd (ground (arith, is')),
    ),
  ),
  λ is. absurd (ground (arith, is)),
)

abbrev for_user : PageMappingFlags
for_user = record { user_access = true; writeable = true }

map_page-translate_example :
    (((map_page with_pages 0xA000 0x20_0000 for_user).0 ≡ false) × Exhausted 3 with_pages.pmm)
    ⊎ (((map_page with_pages 0xA000 0x20_0000 for_user).0 ≡ true)
        × (mapping (map_page with_pages 0xA000 0x20_0000 for_user).1 0x20_0000
            ≡ some (record { physical = 0xA000; for_user = true; for_write = true })))
map_page-translate_example =
    map_page-translate with_pages 0xA000 0x20_0000 for_user (omega arith) refl refl
      with_pages-Tables
