-- ===== src/VirtualMemory/Recorded.antt =====
-- The record that VirtualMemoryManager.cpp keeps of writes to watched entries: it touches no table.
use twisted_os_v.Common.{ℕ, ◌/◌, ◌%◌, ◌≡◌, refl, ◌&&◌, ◌==◌, inl, inr, Bool-cases}
use twisted_os_v.VirtualMemory.Entries.{pml4_index, pdpt_index, pd_index, table_address}
use twisted_os_v.VirtualMemory.Tables.{
  VirtualMemoryManager, PageTableMutationEvent, record_mutation,
}
use twisted_os_v.VirtualMemory.Map.{observe_noncanonical}

pub record_mutation-keeps :
    (virtual : ℕ) (event : PageTableMutationEvent) (value derived : ℕ) (m : VirtualMemoryManager)
    → ((record_mutation virtual event value derived m).memory ≡ m.memory)
      × ((record_mutation virtual event value derived m).page_map_l4_table ≡ m.page_map_l4_table)
      × ((record_mutation virtual event value derived m).pmm ≡ m.pmm)
unfolding record_mutation
record_mutation-keeps virtual event value derived m =
    elim (Bool-cases
      (pml4_index virtual == 0 && pdpt_index virtual == 2 && pd_index virtual == 0)) [
        | inl tracked ↦ rw (record_mutation, tracked) (refl, refl, refl)
        | inr other ↦ rw (record_mutation, other) (refl, refl, refl)
      ]

pub observe_noncanonical-keeps :
    (virtual entry : ℕ) (m : VirtualMemoryManager)
    → ((observe_noncanonical virtual entry m).memory ≡ m.memory)
      × ((observe_noncanonical virtual entry m).page_map_l4_table ≡ m.page_map_l4_table)
      × ((observe_noncanonical virtual entry m).pmm ≡ m.pmm)
unfolding observe_noncanonical
observe_noncanonical-keeps virtual entry m =
    elim (Bool-cases (table_address entry / 0x1_0000_0000_0000 % 0x1_0000 == 0)) [
      | inl canonical ↦ rw (observe_noncanonical, canonical) (refl, refl, refl)
      | inr other ↦ rw (observe_noncanonical, other) (record_mutation-keeps virtual _ entry _ m)
    ]
