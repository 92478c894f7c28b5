-- ===== src/VirtualMemory/Leaf.antt =====
-- What the entries that VirtualMemoryManager.cpp builds say.
use twisted_os_v.Common.{ℕ, ◌/◌, ◌%◌, ◌<◌, ◌≡◌, Bool, true, false, arith}
use twisted_os_v.VirtualMemory.Entries.{
  is_present, is_writeable, has_user_access, table_address, valid_physical_address,
  build_leaf_entry_value,
}

-- A built entry of a page is present, has the rights that were asked for, stands for the page of the
-- address below 4 GB, is below 4 GB itself, and keeps the flags from the fourth bit to the twelfth.
pub build_leaf_entry_value-fields :
    (address existing : ℕ) (user_access writeable : Bool)
    → (is_present (build_leaf_entry_value address existing user_access writeable) ≡ true)
      × (has_user_access (build_leaf_entry_value address existing user_access writeable)
          ≡ user_access)
      × (is_writeable (build_leaf_entry_value address existing user_access writeable) ≡ writeable)
      × (table_address (build_leaf_entry_value address existing user_access writeable)
          ≡ valid_physical_address address)
      × (build_leaf_entry_value address existing user_access writeable < 0x1_0000_0000)
      × (build_leaf_entry_value address existing user_access writeable % 0x1000 / 8
          ≡ existing % 0x1000 / 8)
unfolding build_leaf_entry_value
build_leaf_entry_value-fields address existing false false =
    (ground arith, ground arith, ground arith, omega arith, omega arith, omega arith)
build_leaf_entry_value-fields address existing false true =
    (ground arith, ground arith, ground arith, omega arith, omega arith, omega arith)
build_leaf_entry_value-fields address existing true false =
    (ground arith, ground arith, ground arith, omega arith, omega arith, omega arith)
build_leaf_entry_value-fields address existing true true =
    (ground arith, ground arith, ground arith, omega arith, omega arith, omega arith)
