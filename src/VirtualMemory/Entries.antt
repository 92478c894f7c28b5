-- ===== src/VirtualMemory/Entries.antt =====
-- The entries of page tables in VirtualMemoryManager.cpp and VirtualMemoryManager.hpp.
use twisted_os_v.Common.{ℕ, ◌+◌, ◌*◌, ◌/◌, ◌%◌, Bool, true, false, not, ◌==◌, ltb, if◌then◌else◌}
use twisted_os_v.PhysicalMemory.{page_size}

-- The fields of a virtual address.
abbrev pub pt_index : ℕ → ℕ
pt_index address = address / 0x1000 % 512

abbrev pub pd_index : ℕ → ℕ
pd_index address = address / 0x20_0000 % 512

abbrev pub pdpt_index : ℕ → ℕ
pdpt_index address = address / 0x4000_0000 % 512

abbrev pub pml4_index : ℕ → ℕ
pml4_index address = address / 0x80_0000_0000 % 512

-- The fields of an entry.
abbrev pub is_present : ℕ → Bool
is_present entry = entry % 2 == 1

abbrev pub is_writeable : ℕ → Bool
is_writeable entry = entry / 2 % 2 == 1

abbrev pub has_user_access : ℕ → Bool
has_user_access entry = entry / 4 % 2 == 1

abbrev pub is_large : ℕ → Bool
is_large entry = entry / 128 % 2 == 1

-- PHYS_PAGE_ADDR_MASK.
abbrev pub table_address : ℕ → ℕ
table_address entry = entry % 0x10_0000_0000_0000 / 0x1000 * 0x1000

-- VALID_PHYSICAL_ADDR_MASK.
abbrev pub valid_physical_address : ℕ → ℕ
valid_physical_address address = address % 0x1_0000_0000 / 0x1000 * 0x1000

abbrev pub max_supported_physical_address : ℕ
max_supported_physical_address = 0x1_0000_0000

-- LEAF_ALLOWED_FLAG_MASK: the twelve low bits.
abbrev pub leaf_allowed_flags : ℕ → ℕ
leaf_allowed_flags entry = entry % 0x1000

-- NON_LEAF_ALLOWED_FLAG_MASK: the low bits but for bits 6, 7 and 8.
abbrev pub non_leaf_allowed_flags : ℕ → ℕ
non_leaf_allowed_flags entry = entry % 64 + entry % 0x1000 / 512 * 512

-- NON_PRESENT_COPY_FLAG_MASK: the low bits but for the lowest.
abbrev pub non_present_copy_flags : ℕ → ℕ
non_present_copy_flags entry = entry % 0x1000 / 2 * 2

-- An assignment of one flag.
abbrev pub set_present : ℕ → ℕ
set_present flags = flags / 2 * 2 + 1

abbrev pub set_writeable : Bool → ℕ → ℕ
set_writeable writeable flags = flags / 4 * 4 + (if writeable then 2 else 0) + flags % 2

abbrev pub set_user_access : Bool → ℕ → ℕ
set_user_access user flags = flags / 8 * 8 + (if user then 4 else 0) + flags % 4

unfoldable pub build_non_leaf_entry_value : (address existing : ℕ) → (user_access : Bool) → ℕ
build_non_leaf_entry_value address existing user_access =
    let flags = set_writeable true (set_present (non_leaf_allowed_flags existing)) in
    valid_physical_address address + (if user_access then set_user_access true flags else flags)

unfoldable pub build_leaf_entry_value : (address existing : ℕ) → (user_access writeable : Bool) → ℕ
build_leaf_entry_value address existing user_access writeable =
    valid_physical_address address
    + set_writeable writeable
        (set_user_access user_access (set_present (leaf_allowed_flags existing)))

unfoldable pub is_valid_leaf_physical_address : ℕ → Bool
is_valid_leaf_physical_address address =
    if address == 0
    then false
    else if not (address % page_size == 0)
    then false
    else ltb address max_supported_physical_address

unfoldable pub sanitize_non_present_copied_entry : ℕ → ℕ
sanitize_non_present_copied_entry entry =
    valid_physical_address entry + non_present_copy_flags entry
