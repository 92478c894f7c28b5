-- ===== src/VirtualMemory/Map.antt =====
-- MapPage of VirtualMemoryManager.cpp.
use twisted_os_v.Common.{
  ℕ, ◌+◌, ◌*◌, ◌/◌, ◌%◌, Bool, true, false, ◌&&◌, Option, none, some, ◌==◌, if◌then◌else◌,
}
use twisted_os_v.VirtualMemory.Entries.{
  pt_index, pd_index, pdpt_index, pml4_index, is_present, is_large, table_address,
  build_leaf_entry_value,
}
use twisted_os_v.VirtualMemory.Tables.{
  PageTableMutationEvent, page_table_mutation_write_pml4, page_table_mutation_write_pdpt,
  page_table_mutation_write_pd, page_table_mutation_write_pt,
  page_table_mutation_observe_pd_noncanonical, PageMappingFlags, VirtualMemoryManager, write,
  record_mutation, create_table, allow_user, giga_page_part, mega_page_part, split_large_page,
}

-- The level of the PML4, which has no large pages.
unfoldable pub enter_pml4 :
    VirtualMemoryManager → (virtual : ℕ) → (user : Bool) → Option ℕ × VirtualMemoryManager
enter_pml4 m virtual user =
    let slot = m.page_map_l4_table + 8 * pml4_index virtual in
    let entry = m.memory slot in
    if is_present entry
    then allow_user m slot entry user
    else create_table m virtual slot user page_table_mutation_write_pml4

-- A level below: the entry of a present page is split when it is large.
unfoldable pub open_entry :
    VirtualMemoryManager
    → (slot entry : ℕ) → (user : Bool) → (ℕ → ℕ → ℕ)
    → Option ℕ × VirtualMemoryManager
open_entry m slot entry user part =
    if is_present entry && is_large entry
    then split_large_page m slot entry user (part entry)
    else allow_user m slot entry user

unfoldable pub enter_table :
    VirtualMemoryManager
    → (virtual slot : ℕ) → (user : Bool) → PageTableMutationEvent
    → (ℕ → ℕ → ℕ)
    → Option ℕ × VirtualMemoryManager
enter_table m virtual slot user event part =
    if is_present (m.memory slot)
    then open_entry m slot (m.memory slot) user part
    else (let (created, m') = create_table m virtual slot user event in
        elim created [ none ↦ (none, m') | some entry ↦ open_entry m' slot entry user part ])

-- The check of the address of the page table.
unfoldable pub observe_noncanonical :
    (virtual entry : ℕ) → VirtualMemoryManager → VirtualMemoryManager
observe_noncanonical virtual entry m =
    if table_address entry / 0x1_0000_0000_0000 % 0x1_0000 == 0
    then m
    else record_mutation virtual page_table_mutation_observe_pd_noncanonical entry
        (table_address entry) m

-- The end of MapPage: the entry of the page itself.
unfoldable pub write_leaf :
    VirtualMemoryManager → (physical virtual table : ℕ) → PageMappingFlags → VirtualMemoryManager
write_leaf m physical virtual table flags =
    let entry = build_leaf_entry_value physical 0 flags.user_access flags.writeable in
    record_mutation virtual page_table_mutation_write_pt entry (table_address entry)
      (write m (table + 8 * pt_index virtual) entry)

-- MapPage returns false where a level has no entry.
abbrev pub after :
    Option ℕ × VirtualMemoryManager
    → (VirtualMemoryManager → ℕ → Bool × VirtualMemoryManager)
    → Bool × VirtualMemoryManager
after (none, m) continue = (false, m)
after (some entry, m) continue = continue m entry

-- MapPage from the page directory on.
unfoldable pub map_in_directory :
    VirtualMemoryManager
    → (physical virtual directory : ℕ) → PageMappingFlags
    → Bool × VirtualMemoryManager
map_in_directory m physical virtual directory flags =
    after
      (enter_table m virtual (directory + 8 * pd_index virtual) flags.user_access
        page_table_mutation_write_pd mega_page_part)
      (λ m' entry. (
        true,
        write_leaf (observe_noncanonical virtual entry m') physical virtual (table_address entry)
            flags,
      ))

unfoldable pub map_page :
    VirtualMemoryManager → (physical virtual : ℕ) → PageMappingFlags → Bool × VirtualMemoryManager
map_page m physical virtual flags = after (enter_pml4 m virtual flags.user_access) (λ m' pml4_entry.
    after
      (enter_table m' virtual (table_address pml4_entry + 8 * pdpt_index virtual) flags.user_access
        page_table_mutation_write_pdpt giga_page_part)
      (λ m'' pdpt_entry. map_in_directory m'' physical virtual (table_address pdpt_entry) flags))
