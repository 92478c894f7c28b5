-- ===== src/VirtualMemory/Enter.antt =====
-- What a step of MapPage of VirtualMemoryManager.cpp from a table to the one below comes to, and what the
-- clearing and the filling of a page write.
use twisted_os_v.Common.{
  ℕ, zero, suc, ◌+◌, ◌*◌, ◌/◌, ◌%◌, ◌<◌, ◌≤◌, ◌≡◌, ◌≢◌, refl, ◌∙◌, Bool, true, false, ◌&&◌, not,
  Option, none, some, ◌⊎◌, inl, inr, arith, ◌==◌, Bool-cases,
}
use twisted_os_v.PhysicalMemory.{allocate_pages_from_descriptor}
use twisted_os_v.VirtualMemory.Entries.{
  is_present, is_writeable, has_user_access, is_large, table_address, valid_physical_address,
  build_non_leaf_entry_value,
}
use twisted_os_v.VirtualMemory.Tables.{VirtualMemoryManager, put, clear_page, split_loop}

-- An entry that leads to a table.
abbrev pub is_table : ℕ → Bool
is_table entry = is_present entry && not (is_large entry)

-- The page of an address.
abbrev pub page_of : ℕ → ℕ
page_of i = i / 0x1000 * 0x1000

-- The entry was there: no other word changes, and it leads to the same table.
abbrev pub Kept : VirtualMemoryManager → (slot entry : ℕ) → VirtualMemoryManager → Type 0
Kept m slot entry m' =
    (is_table (m.memory slot) ≡ true)
    × (table_address (m.memory slot) < 0x1_0000_0000
        → table_address entry ≡ table_address (m.memory slot))
    × (m'.pmm ≡ m.pmm)
    × ((i : ℕ) → i ≢ slot → m'.memory i ≡ m.memory i)

-- The entry leads to the page that the allocator gave, outside of which no other word changes; in it no
-- entry leads to a table, if no part of a large page does.
abbrev pub Made :
    VirtualMemoryManager → (slot entry : ℕ) → (ℕ → ℕ → ℕ) → VirtualMemoryManager → Type 0
Made m slot entry part m' =
    let page = (allocate_pages_from_descriptor m.pmm 1).0 in
    (is_table (m.memory slot) ≡ false)
    × (page ≢ 0)
    × (table_address entry ≡ valid_physical_address page)
    × (m'.pmm ≡ (allocate_pages_from_descriptor m.pmm 1).1)
    × ((i : ℕ) → i ≢ slot → page % 0x1000 ≡ 0 → page_of i ≢ page → m'.memory i ≡ m.memory i)
    × (((old index : ℕ) → is_table (part old index) ≡ false)
        → (index : ℕ) → index < 512
        → page + 8 * index ≢ slot
        → is_table (m'.memory (page + 8 * index)) ≡ false)

-- A step to an entry, which is there now, present, not large, open to the user if that is asked for, and
-- to writing unless an entry that was there is not.
pub record Entered (m : VirtualMemoryManager) (slot : ℕ) (user : Bool) (part : ℕ → ℕ → ℕ)
    (entry : ℕ) (m' : VirtualMemoryManager) : Type 0 where
  pub here : m'.memory slot ≡ entry
  pub present : is_present entry ≡ true
  pub small : is_large entry ≡ false
  pub granted : user ≡ true → has_user_access entry ≡ true
  pub writes :
      (is_table (m.memory slot) ≡ true → is_writeable (m.memory slot) ≡ true)
      → is_writeable entry ≡ true
  pub root : m'.page_map_l4_table ≡ m.page_map_l4_table
  pub origin : Kept m slot entry m' ⊎ Made m slot entry part m'

pub build_non_leaf_entry_value-fields :
    (address existing : ℕ) (user : Bool)
    → (is_present (build_non_leaf_entry_value address existing user) ≡ true)
      × (is_large (build_non_leaf_entry_value address existing user) ≡ false)
      × (user ≡ true → has_user_access (build_non_leaf_entry_value address existing user) ≡ true)
      × (table_address (build_non_leaf_entry_value address existing user)
          ≡ valid_physical_address address)
      × (is_writeable (build_non_leaf_entry_value address existing user) ≡ true)
unfolding build_non_leaf_entry_value
build_non_leaf_entry_value-fields address existing false =
    (ground arith, ground arith, (λ asked. ground (arith, asked)), omega arith, ground arith)
build_non_leaf_entry_value-fields address existing true =
    (ground arith, ground arith, (λ asked. ground arith), omega arith, ground arith)

pub put-here : (memory : ℕ → ℕ) (slot value : ℕ) → put memory slot value slot ≡ value
put-here memory slot value = let same : (slot == slot) ≡ true = ground arith in rw same refl

pub put-other : (memory : ℕ → ℕ) (slot value i : ℕ) → i ≢ slot → put memory slot value i ≡ memory i
put-other memory slot value i other = let e : (i == slot) ≡ false = ground arith in rw e

pub clear_page-outside :
    (memory : ℕ → ℕ) (page i : ℕ)
    → page % 0x1000 ≡ 0
    → page_of i ≢ page
    → clear_page memory page i ≡ memory i
unfolding clear_page
clear_page-outside memory page i aligned outside = ground arith

pub clear_page-inside :
    (memory : ℕ → ℕ) (page index : ℕ) → index < 512 → clear_page memory page (page + 8 * index) ≡ 0
unfolding clear_page
clear_page-inside memory page index inside = ground arith

-- The loop of a split writes the words from `index` on and no other.
pub split_loop-outside :
    (remaining index table : ℕ) (part memory : ℕ → ℕ) (i : ℕ)
    → (i < table + 8 * index) ⊎ (table + 8 * (index + remaining) ≤ i)
    → split_loop remaining index table part memory i ≡ memory i
unfolding split_loop
split_loop-outside zero index table part memory i outside = refl
split_loop-outside (suc remaining) index table part memory i outside =
    split_loop-outside remaining (index + 1) table part
      (put memory (table + 8 * index) (part index)) i (behind outside)
    ∙ put-other memory (table + 8 * index) (part index) i (ground (arith, outside))
  where
    behind :
        (i < table + 8 * index) ⊎ (table + 8 * (index + suc remaining) ≤ i)
        → (i < table + 8 * (index + 1)) ⊎ (table + 8 * (index + 1 + remaining) ≤ i)
    behind (inl before) = inl (omega (arith, before))
    behind (inr past) = inr (omega (arith, past))

pub split_loop-inside :
    (remaining index table : ℕ) (part memory : ℕ → ℕ) (k : ℕ)
    → index ≤ k
    → k < index + remaining
    → split_loop remaining index table part memory (table + 8 * k) ≡ part k
unfolding split_loop
split_loop-inside zero index table part memory k low high = absurd (omega (arith, low, high))
split_loop-inside (suc remaining) index table part memory k low high =
    elim (Bool-cases (k == index)) [
      | inr other ↦
          split_loop-inside remaining (index + 1) table part
            (put memory (table + 8 * index) (part index)) k (ground (arith, other, low))
            (omega (arith, high))
      | inl same ↦
          let e : k ≡ index = ground (arith, same) in
          rw e (
            split_loop-outside remaining (index + 1) table part
              (put memory (table + 8 * index) (part index)) (table + 8 * index) (inl (omega arith))
            ∙ put-here memory (table + 8 * index) (part index))
    ]

-- What a step can come to.
abbrev pub Outcome :
    VirtualMemoryManager
    → (slot : ℕ) → (user : Bool) → (ℕ → ℕ → ℕ)
    → Option ℕ × VirtualMemoryManager
    → Type 0
Outcome m slot user part result =
    ((m' : VirtualMemoryManager) × ((result ≡ (none, m'))
        × ((allocate_pages_from_descriptor m.pmm 1).0 ≡ 0)))
    ⊎ ((entry : ℕ) × (m' : VirtualMemoryManager) × ((result ≡ (some entry, m'))
          × Entered m slot user part entry m'))
