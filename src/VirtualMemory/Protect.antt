-- ===== src/VirtualMemory/Protect.antt =====
-- ProtectPage and UnmapPage of VirtualMemoryManager.cpp.
use twisted_os_v.Common.{ℕ, ◌+◌, ◌*◌, Bool, true, false, not, if◌then◌else◌}
use twisted_os_v.VirtualMemory.Entries.{
  pt_index, pd_index, pdpt_index, pml4_index, is_present, is_large, table_address,
  build_leaf_entry_value,
}
use twisted_os_v.VirtualMemory.Tables.{VirtualMemoryManager, write}

-- The entries that a virtual address goes through, by where they stand.
abbrev pub pml4_slot : (memory : ℕ → ℕ) → (root virtual : ℕ) → ℕ
pml4_slot memory root virtual = root + 8 * pml4_index virtual

abbrev pub pdpt_slot : (memory : ℕ → ℕ) → (root virtual : ℕ) → ℕ
pdpt_slot memory root virtual =
    table_address (memory (pml4_slot memory root virtual)) + 8 * pdpt_index virtual

abbrev pub pd_slot : (memory : ℕ → ℕ) → (root virtual : ℕ) → ℕ
pd_slot memory root virtual =
    table_address (memory (pdpt_slot memory root virtual)) + 8 * pd_index virtual

abbrev pub pt_slot : (memory : ℕ → ℕ) → (root virtual : ℕ) → ℕ
pt_slot memory root virtual =
    table_address (memory (pd_slot memory root virtual)) + 8 * pt_index virtual

-- The guards that ProtectPage and UnmapPage share, on the entries they read: every level is there, and
-- no page is large.
unfoldable pub are_tables : (pml4_entry pdpt_entry pd_entry : ℕ) → Bool
are_tables pml4_entry pdpt_entry pd_entry =
    if not (is_present pml4_entry)
    then false
    else if not (is_present pdpt_entry)
    then false
    else if is_large pdpt_entry
    then false
    else if not (is_present pd_entry)
    then false
    else not (is_large pd_entry)

abbrev pub has_page_table : (memory : ℕ → ℕ) → (root virtual : ℕ) → Bool
has_page_table memory root virtual =
    are_tables (memory (pml4_slot memory root virtual)) (memory (pdpt_slot memory root virtual))
      (memory (pd_slot memory root virtual))

unfoldable pub protect_page :
    VirtualMemoryManager
    → (virtual : ℕ) → (user_access writeable executable : Bool) → Bool × VirtualMemoryManager
protect_page m virtual user_access writeable executable =
    let slot = pt_slot m.memory m.page_map_l4_table virtual in
    let entry = m.memory slot in
    if not (has_page_table m.memory m.page_map_l4_table virtual)
    then (false, m)
    else if not (is_present entry)
    then (false, m)
    else (true, write m slot (build_leaf_entry_value entry entry user_access writeable))

unfoldable pub unmap_page : VirtualMemoryManager → (virtual : ℕ) → Bool × VirtualMemoryManager
unmap_page m virtual =
    if not (has_page_table m.memory m.page_map_l4_table virtual)
    then (false, m)
    else (true, write m (pt_slot m.memory m.page_map_l4_table virtual) 0)
