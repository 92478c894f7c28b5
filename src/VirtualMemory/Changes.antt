-- ===== src/VirtualMemory/Changes.antt =====
-- What ProtectPage, UnmapPage and MapPage of VirtualMemoryManager.cpp do to translations.
use twisted_os_v.Common.{
  ℕ, ◌+◌, ◌*◌, ◌/◌, ◌%◌, ◌<◌, ◌≡◌, ◌≢◌, refl, ap, ◌∙◌, Bool, true, false, ◌&&◌, not, Option, none,
  some, ◌⊎◌, inl, inr, arith, ◌==◌, if◌then◌else◌, Bool-cases,
}
use twisted_os_v.VirtualMemory.Entries.{is_present, table_address, build_leaf_entry_value}
use twisted_os_v.VirtualMemory.Tables.{VirtualMemoryManager, put}
use twisted_os_v.VirtualMemory.Protect.{
  pml4_slot, pdpt_slot, pd_slot, pt_slot, are_tables, has_page_table, protect_page, unmap_page,
}
use twisted_os_v.VirtualMemory.Leaf.{build_leaf_entry_value-fields}
use twisted_os_v.VirtualMemory.Walk.{
  Mapping, leaf_mapping, upper_user, upper_write, translate, walk, IsApart, put-apart, pt_slot-put,
  walk-leaf,
}

-- The mapping of an address in a state.
abbrev pub mapping : VirtualMemoryManager → ℕ → Option Mapping
mapping m virtual = translate m.memory m.page_map_l4_table virtual

-- No level above the last goes through the entry of the page.
abbrev pub LeafApart : VirtualMemoryManager → ℕ → Type 0
LeafApart m virtual =
    IsApart m.memory m.page_map_l4_table virtual (pt_slot m.memory m.page_map_l4_table virtual)

pub has_page_table-put :
    (memory : ℕ → ℕ) (root virtual slot value : ℕ)
    → IsApart memory root virtual slot
    → has_page_table (put memory slot value) root virtual ≡ has_page_table memory root virtual
has_page_table-put memory root virtual slot value is =
    let (e4, e3, e2, e1) = pt_slot-put memory root virtual slot value is in
    λ i. are_tables (e4 i) (e3 i) (e2 i)

-- The walk of an address whose own entry is written.
pub translate-put :
    (memory : ℕ → ℕ) (root virtual value : ℕ)
    → IsApart memory root virtual (pt_slot memory root virtual)
    → has_page_table memory root virtual ≡ true
    → translate (put memory (pt_slot memory root virtual) value) root virtual ≡ (
        if not (is_present value)
        then none
        else some (
            leaf_mapping value 0x1000 virtual
              (upper_user memory root virtual)
              (upper_write memory root virtual)))
translate-put memory root virtual value is there =
    let slot = pt_slot memory root virtual in
    let written = put memory slot value in
    let (e4, e3, e2, e1) = pt_slot-put memory root virtual slot value is in
    let own : written (pt_slot written root virtual) ≡ value =
      (let same : (slot == slot) ≡ true = ground arith in ap written e1 ∙ rw same refl) in
    (λ i. walk virtual (e4 i) (e3 i) (e2 i) (own i))
    ∙ walk-leaf virtual (memory (pml4_slot memory root virtual))
        (memory (pdpt_slot memory root virtual)) (memory (pd_slot memory root virtual)) value there

-- UnmapPage, where no level above the last goes through the entry of the page: it returns false and
-- changes nothing, and then a table is missing or a page is large, or it returns true and the address
-- has no mapping any more.
pub unmap_page-outcome :
    (m : VirtualMemoryManager) (virtual : ℕ)
    → LeafApart m virtual
    → ((unmap_page m virtual ≡ (false, m))
        × (has_page_table m.memory m.page_map_l4_table virtual ≡ false))
      ⊎ (((unmap_page m virtual).0 ≡ true) × (mapping (unmap_page m virtual).1 virtual ≡ none))
unfolding unmap_page
unmap_page-outcome m virtual is =
    let root = m.page_map_l4_table in
    elim (Bool-cases (has_page_table m.memory root virtual)) [
      | inr missing ↦ inl (rw (unmap_page, missing) refl, missing)
      | inl there ↦ inr (
        rw (unmap_page, there) refl,
        rw (unmap_page, there) (translate-put m.memory root virtual 0 is there),
      )
    ]

-- ProtectPage, where no level above the last goes through the entry of the page and the page is below
-- 4 GB: it returns false and changes nothing, and then a table is missing, a page is large or the address
-- has no mapping, or it returns true; the address had a mapping then, and stands for the same physical
-- address as before, with the rights asked for as far as the levels above grant them.
pub protect_page-outcome :
    (m : VirtualMemoryManager) (virtual : ℕ) (user_access writeable executable : Bool)
    → LeafApart m virtual
    → m.memory (pt_slot m.memory m.page_map_l4_table virtual) % 0x10_0000_0000_0000 < 0x1_0000_0000
    → ((protect_page m virtual user_access writeable executable ≡ (false, m))
        × ((has_page_table m.memory m.page_map_l4_table virtual ≡ false)
            ⊎ (mapping m virtual ≡ none)))
      ⊎ ((old : Mapping) × ((mapping m virtual ≡ some old)
            × ((protect_page m virtual user_access writeable executable).0 ≡ true)
            × (mapping (protect_page m virtual user_access writeable executable).1 virtual
                ≡ some (record {
                  physical = old.physical;
                  for_user = upper_user m.memory m.page_map_l4_table virtual && user_access;
                  for_write = upper_write m.memory m.page_map_l4_table virtual && writeable;
                }))))
unfolding protect_page
protect_page-outcome m virtual user_access writeable executable is low =
    let root = m.page_map_l4_table in
    let memory = m.memory in
    let entry = memory (pt_slot memory root virtual) in
    let built = build_leaf_entry_value entry entry user_access writeable in
    let (present, user, writes, page, _, _) =
      build_leaf_entry_value-fields entry entry user_access writeable in
    let same_page : table_address built ≡ table_address entry = page ∙ omega (arith, low) in
    let walked =
      walk-leaf virtual (memory (pml4_slot memory root virtual))
        (memory (pdpt_slot memory root virtual)) (memory (pd_slot memory root virtual)) entry in
    elim (Bool-cases (has_page_table memory root virtual)) [
      | inr missing ↦ inl (rw (protect_page, missing) refl, inl missing)
      | inl there ↦ elim (Bool-cases (is_present entry)) [
        | inr absent ↦
            inl (rw (protect_page, there, absent) refl, inr (walked there ∙ rw absent refl))
        | inl mapped ↦ inr (
          leaf_mapping entry 0x1000 virtual (upper_user memory root virtual)
              (upper_write memory root virtual),
          (
            walked there ∙ rw mapped refl,
            rw (protect_page, there, mapped) refl,
            rw (protect_page, there, mapped)
                (translate-put memory root virtual built is there
                  ∙ rw present (λ i. some (record {
                    physical = same_page i / 0x1000 * 0x1000 + virtual % 0x1000;
                    for_user = upper_user memory root virtual && user i;
                    for_write = upper_write memory root virtual && writes i;
                  }))),
          ),
        )
      ]
    ]

-- An address whose walk reads the entry of another page nowhere keeps its mapping when that page is
-- unmapped or protected.
pub others-keep :
    (m : VirtualMemoryManager) (virtual other : ℕ) (user_access writeable executable : Bool)
    → IsApart m.memory m.page_map_l4_table other (pt_slot m.memory m.page_map_l4_table virtual)
    → pt_slot m.memory m.page_map_l4_table other ≢ pt_slot m.memory m.page_map_l4_table virtual
    → (mapping (unmap_page m virtual).1 other ≡ mapping m other)
      × (mapping (protect_page m virtual user_access writeable executable).1 other
          ≡ mapping m other)
unfolding unmap_page protect_page
others-keep m virtual other user_access writeable executable is apart =
    let root = m.page_map_l4_table in
    let slot = pt_slot m.memory root virtual in
    let kept : (value : ℕ) → translate (put m.memory slot value) root other ≡ mapping m other =
      λ value.
        let (e4, e3, e2, e1) = pt_slot-put m.memory root other slot value is in
        let own =
          ap (put m.memory slot value) e1
          ∙ put-apart m.memory slot value (pt_slot m.memory root other) apart in
        λ i. walk other (e4 i) (e3 i) (e2 i) (own i) in
    elim (Bool-cases (has_page_table m.memory root virtual)) [
      | inr missing ↦ (rw (unmap_page, missing) refl, rw (protect_page, missing) refl)
      | inl there ↦ (
        rw (unmap_page, there) (kept 0),
        elim (Bool-cases (is_present (m.memory slot))) [
          | inr absent ↦ rw (protect_page, there, absent) refl
          | inl mapped ↦
              rw (protect_page, there, mapped)
                (kept
                  (build_leaf_entry_value (m.memory slot) (m.memory slot) user_access writeable))
        ],
      )
    ]
