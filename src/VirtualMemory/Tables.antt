-- ===== src/VirtualMemory/Tables.antt =====
-- VirtualMemoryManager.hpp: the state, and the steps of MapPage that make tables.
use twisted_os_v.Common.{
  ℕ, zero, suc, ◌+◌, ◌*◌, ◌/◌, Bool, true, ◌&&◌, ◌||◌, not, Option, none, some, ◌==◌, ltb, leb,
  if◌then◌else◌,
}
use twisted_os_v.PhysicalMemory.{page_size, PhysicalMemoryManager, allocate_pages_from_descriptor}
use twisted_os_v.VirtualMemory.Entries.{
  pt_index, pd_index, pdpt_index, pml4_index, is_writeable, has_user_access, table_address,
  valid_physical_address, build_non_leaf_entry_value, build_leaf_entry_value,
}

pub data PageTableMutationEvent : Type 0 where
  page_table_mutation_none : PageTableMutationEvent
  page_table_mutation_write_pml4 : PageTableMutationEvent
  page_table_mutation_write_pdpt : PageTableMutationEvent
  page_table_mutation_write_pd : PageTableMutationEvent
  page_table_mutation_write_pt : PageTableMutationEvent
  page_table_mutation_observe_pd_noncanonical : PageTableMutationEvent
  page_table_mutation_pdpt_large_page_conflict : PageTableMutationEvent
  page_table_mutation_pd_large_page_conflict : PageTableMutationEvent

pub record PageTableMutationDebugInfo : Type 0 where
  pub event : PageTableMutationEvent
  pub mutated_pml4_index : ℕ
  pub mutated_pdpt_index : ℕ
  pub mutated_pd_index : ℕ
  pub mutated_pt_index : ℕ
  pub entry_value : ℕ
  pub derived_address : ℕ

pub record PageMappingFlags : Type 0 where
  pub user_access : Bool
  pub writeable : Bool

pub record VirtualMemoryManager : Type 0 where
  pub page_map_l4_table : ℕ
  pub pmm : PhysicalMemoryManager
  pub memory : ℕ → ℕ
  pub last_mutation : PageTableMutationDebugInfo

abbrev pub put : (ℕ → ℕ) → ℕ → ℕ → ℕ → ℕ
put memory address value i = if i == address then value else memory i

abbrev pub write : VirtualMemoryManager → (address value : ℕ) → VirtualMemoryManager
write m address value = record m { memory = put m.memory address value }

-- kmemset of a page to 0.
unfoldable pub clear_page : (ℕ → ℕ) → ℕ → ℕ → ℕ
clear_page memory page i = if leb page i && ltb i (page + page_size) then 0 else memory i

unfoldable pub record_mutation :
    (virtual : ℕ)
    → PageTableMutationEvent
    → (value derived : ℕ) → VirtualMemoryManager
    → VirtualMemoryManager
record_mutation virtual event value derived m =
    if pml4_index virtual == 0 && pdpt_index virtual == 2 && pd_index virtual == 0
    then record m {
      last_mutation = record {
        event = event;
        mutated_pml4_index = pml4_index virtual;
        mutated_pdpt_index = pdpt_index virtual;
        mutated_pd_index = pd_index virtual;
        mutated_pt_index = pt_index virtual;
        entry_value = value;
        derived_address = derived;
      };
    }
    else m

-- MapPage where an entry is not present: the entry of a new table, or none without memory.
unfoldable pub create_table :
    VirtualMemoryManager
    → (virtual slot : ℕ) → (user : Bool) → PageTableMutationEvent
    → Option ℕ × VirtualMemoryManager
create_table m virtual slot user event =
    let (address, pmm) = allocate_pages_from_descriptor m.pmm 1 in
    let entry = build_non_leaf_entry_value address 0 user in
    let cleared = record m { pmm = pmm; memory = clear_page m.memory address } in
    if address == 0 then (none, record m { pmm = pmm }) else (
      some entry,
      record_mutation virtual event entry (table_address entry) (write cleared slot entry),
    )

-- MapPage where an entry is present and the mapping is for the user.
unfoldable pub allow_user :
    VirtualMemoryManager → (slot entry : ℕ) → (user : Bool) → Option ℕ × VirtualMemoryManager
allow_user m slot entry user =
    let opened = build_non_leaf_entry_value entry entry true in
    if user && not (has_user_access entry)
    then (some opened, write m slot opened)
    else (some entry, m)

-- The entries of the table that replaces a page of 1 GB, and of the one that replaces a page of 2 MB.
unfoldable pub giga_page_part : (entry index : ℕ) → ℕ
giga_page_part entry index =
    let base = valid_physical_address (table_address entry) / 0x4000_0000 * 0x4000_0000 in
    valid_physical_address (base + index * 0x20_0000)
    + 1
    + 128
    + (if is_writeable entry then 2 else 0)
    + (if has_user_access entry then 4 else 0)

unfoldable pub mega_page_part : (entry index : ℕ) → ℕ
mega_page_part entry index =
    let base = valid_physical_address (table_address entry) / 0x20_0000 * 0x20_0000 in
    build_leaf_entry_value (base + index * page_size) 0 (has_user_access entry) (is_writeable entry)

-- The loop that fills the table of a page that is split.
unfoldable pub split_loop : (remaining index table : ℕ) → (ℕ → ℕ) → (ℕ → ℕ) → ℕ → ℕ
split_loop zero index table part memory = memory
split_loop (suc remaining) index table part memory =
    split_loop remaining (index + 1) table part (put memory (table + 8 * index) (part index))

-- MapPage where an entry is a large page.
unfoldable pub split_large_page :
    VirtualMemoryManager
    → (slot entry : ℕ) → (user : Bool) → (ℕ → ℕ)
    → Option ℕ × VirtualMemoryManager
split_large_page m slot entry user part =
    let (address, pmm) = allocate_pages_from_descriptor m.pmm 1 in
    let parts = split_loop 512 0 address part (clear_page m.memory address) in
    let opened = build_non_leaf_entry_value address 0 (has_user_access entry || user) in
    if address == 0
    then (none, record m { pmm = pmm })
    else (some opened, write (record m { pmm = pmm; memory = parts }) slot opened)
