-- ===== src/VirtualMemory/Steps.antt =====
-- The steps of MapPage of VirtualMemoryManager.cpp from a table to the one below: an entry that is
-- there, that is made, or whose large page is split.
use twisted_os_v.Common.{
  ℕ, ◌+◌, ◌*◌, ◌%◌, ◌<◌, ◌≤◌, ◌≡◌, ◌≢◌, refl, ap, ◌∙◌, Bool, true, false, ◌&&◌, ◌||◌, not, Option,
  none, some, ◌⊎◌, inl, inr, arith, ◌==◌, ltb, Bool-cases,
}
use twisted_os_v.PhysicalMemory.{allocate_pages_from_descriptor}
use twisted_os_v.VirtualMemory.Entries.{
  pml4_index, is_present, has_user_access, is_large, table_address, build_non_leaf_entry_value,
}
use twisted_os_v.VirtualMemory.Tables.{
  VirtualMemoryManager, PageTableMutationEvent, page_table_mutation_write_pml4, write, clear_page,
  record_mutation, allow_user, create_table, split_loop, split_large_page,
}
use twisted_os_v.VirtualMemory.Map.{enter_pml4, open_entry, enter_table}
use twisted_os_v.VirtualMemory.Recorded.{record_mutation-keeps}
use twisted_os_v.VirtualMemory.Enter.{
  is_table, page_of, Outcome, build_non_leaf_entry_value-fields, put-here, put-other,
  clear_page-outside, clear_page-inside, split_loop-outside, split_loop-inside,
}

allow_user-Outcome :
    (m : VirtualMemoryManager) (slot : ℕ) (user : Bool) (part : ℕ → ℕ → ℕ)
    → is_present (m.memory slot) ≡ true
    → is_large (m.memory slot) ≡ false
    → Outcome m slot user part (allow_user m slot (m.memory slot) user)
unfolding allow_user
allow_user-Outcome m slot user part there small =
    let old = m.memory slot in
    let opened = build_non_leaf_entry_value old old true in
    let (present', small', granted', page, writes') =
      build_non_leaf_entry_value-fields old old true in
    elim (Bool-cases (user && not (has_user_access old))) [
      | inl opens ↦ inr (
        opened,
        write m slot opened,
        (
          rw (allow_user, opens) refl,
          record {
            here = put-here m.memory slot opened;
            present = present';
            small = small';
            granted = λ asked. granted' refl;
            writes = λ before. writes';
            root = refl;
            origin = inl (
              ground (arith, there, small),
              λ low. page ∙ omega (arith, low),
              refl,
              put-other m.memory slot opened,
            );
          },
        ),
      )
      | inr keeps ↦ inr (
        old,
        m,
        (
          rw (allow_user, keeps) refl,
          record {
            here = refl;
            present = there;
            small = small;
            granted = λ asked. ground (arith, keeps, asked);
            writes = λ before. before (ground (arith, there, small));
            root = refl;
            origin = inl (ground (arith, there, small), (λ low. refl), refl, λ i other. refl);
          },
        ),
      )
    ]

create_table-Outcome :
    (m : VirtualMemoryManager) (virtual slot : ℕ) (user : Bool) (event : PageTableMutationEvent)
    (part : ℕ → ℕ → ℕ)
    → is_present (m.memory slot) ≡ false
    → Outcome m slot user part (create_table m virtual slot user event)
unfolding create_table
create_table-Outcome m virtual slot user event part absent =
    let (page, pmm) = allocate_pages_from_descriptor m.pmm 1 in
    let entry = build_non_leaf_entry_value page 0 user in
    let (present, small, granted, leads, writes) = build_non_leaf_entry_value-fields page 0 user in
    let cleared = clear_page m.memory page in
    let written = write (record m { pmm = pmm; memory = cleared }) slot entry in
    let (memory, root, kept_pmm) =
      record_mutation-keeps virtual event entry (table_address entry) written in
    elim (Bool-cases (page == 0)) [
      | inl out_of_memory ↦ inl (
        record m { pmm = pmm },
        (rw (create_table, out_of_memory) refl, ground (arith, out_of_memory)),
      )
      | inr found ↦ inr (
        entry,
        record_mutation virtual event entry (table_address entry) written,
        (
          rw (create_table, found) refl,
          record {
            here = (λ i. memory i slot) ∙ put-here cleared slot entry;
            present = present;
            small = small;
            granted = granted;
            writes = λ before. writes;
            root = root;
            origin = inr (
              ground (arith, absent),
              ground (arith, found),
              leads,
              kept_pmm,
              (λ i other aligned outside.
                  (λ j. memory j i)
                  ∙ put-other cleared slot entry i other
                  ∙ clear_page-outside m.memory page i aligned outside),
              λ parts index inside other. ap is_table (
                  (λ j. memory j (page + 8 * index))
                  ∙ put-other cleared slot entry (page + 8 * index) other
                  ∙ clear_page-inside m.memory page index inside),
            );
          },
        ),
      )
    ]

split_large_page-Outcome :
    (m : VirtualMemoryManager) (slot : ℕ) (user : Bool) (part : ℕ → ℕ → ℕ)
    → is_large (m.memory slot) ≡ true
    → Outcome m slot user part (split_large_page m slot (m.memory slot) user (part (m.memory slot)))
unfolding split_large_page
split_large_page-Outcome m slot user part large =
    let old = m.memory slot in
    let (page, pmm) = allocate_pages_from_descriptor m.pmm 1 in
    let cleared = clear_page m.memory page in
    let parts = split_loop 512 0 page (part old) cleared in
    let opened = build_non_leaf_entry_value page 0 (has_user_access old || user) in
    let (present, small, granted, leads, writes) =
      build_non_leaf_entry_value-fields page 0 (has_user_access old || user) in
    elim (Bool-cases (page == 0)) [
      | inl out_of_memory ↦ inl (
        record m { pmm = pmm },
        (rw (split_large_page, out_of_memory) refl, ground (arith, out_of_memory)),
      )
      | inr found ↦ inr (
        opened,
        write (record m { pmm = pmm; memory = parts }) slot opened,
        (
          rw (split_large_page, found) refl,
          record {
            here = put-here parts slot opened;
            present = present;
            small = small;
            granted = λ asked. granted (ground (arith, asked));
            writes = λ before. writes;
            root = refl;
            origin = inr (
              ground (arith, large),
              ground (arith, found),
              leads,
              refl,
              (λ i other aligned outside.
                  put-other parts slot opened i other
                  ∙ split_loop-outside 512 0 page (part old) cleared i
                      (beside page i aligned outside)
                  ∙ clear_page-outside m.memory page i aligned outside),
              λ no_tables index inside other.
                  ap is_table (
                    put-other parts slot opened (page + 8 * index) other
                    ∙ split_loop-inside 512 0 page (part old) cleared index (omega arith)
                        (omega (arith, inside)))
                  ∙ no_tables old index,
            );
          },
        ),
      )
    ]
  where
    beside :
        (page i : ℕ)
        → page % 0x1000 ≡ 0
        → page_of i ≢ page
        → (i < page + 8 * 0) ⊎ (page + 8 * (0 + 512) ≤ i)
    beside page i aligned outside = elim (Bool-cases (ltb i page)) [
      | inl before ↦ inl (ground (arith, before))
      | inr past ↦ inr (ground (arith, past, aligned, outside))
    ]

pub enter_table-Outcome :
    (m : VirtualMemoryManager) (virtual slot : ℕ) (user : Bool) (event : PageTableMutationEvent)
    (part : ℕ → ℕ → ℕ)
    → Outcome m slot user part (enter_table m virtual slot user event part)
unfolding enter_table open_entry allow_user
enter_table-Outcome m virtual slot user event part =
    let old = m.memory slot in
    let resume : Option ℕ × VirtualMemoryManager → Option ℕ × VirtualMemoryManager = λ result.
      elim result.0 [
        | none ↦ (none, result.1)
        | some entry ↦ open_entry result.1 slot entry user part
      ] in
    elim (Bool-cases (is_present old)) [
      | inl there ↦ elim (Bool-cases (is_large old)) [
        | inl large ↦
            rw (enter_table, there, open_entry, large)
              (split_large_page-Outcome m slot user part large)
        | inr small ↦
            rw (enter_table, there, open_entry, small)
              (allow_user-Outcome m slot user part there small)
      ]
      | inr absent ↦ elim (create_table-Outcome m virtual slot user event part absent) [
        | inl (m', (failed, out_of_memory)) ↦
            inl (m', (rw (enter_table, absent) (ap resume failed), out_of_memory))
        | inr (entry, m', (made, entered)) ↦
            let granted : (user && not (has_user_access entry)) ≡ false =
              allowed user (has_user_access entry) entered.granted in
            inr (
              entry,
              m',
              (
                rw (enter_table, absent)
                    (ap resume made
                      ∙ rw (open_entry, entered.present, entered.small, allow_user, granted) refl),
                entered,
              ),
            )
      ]
    ]
  where
    allowed : (user open_ : Bool) → (user ≡ true → open_ ≡ true) → (user && not open_) ≡ false
    allowed false open_ granted = refl
    allowed true open_ granted = rw (granted refl) refl

pub enter_pml4-Outcome :
    (m : VirtualMemoryManager) (virtual : ℕ) (user : Bool) (part : ℕ → ℕ → ℕ)
    → is_large (m.memory (m.page_map_l4_table + 8 * pml4_index virtual)) ≡ false
    → Outcome m (m.page_map_l4_table + 8 * pml4_index virtual) user part (enter_pml4 m virtual user)
unfolding enter_pml4
enter_pml4-Outcome m virtual user part small =
    let slot = m.page_map_l4_table + 8 * pml4_index virtual in
    elim (Bool-cases (is_present (m.memory slot))) [
      | inl there ↦ rw (enter_pml4, there) (allow_user-Outcome m slot user part there small)
      | inr absent ↦
          rw (enter_pml4, absent)
            (create_table-Outcome m virtual slot user page_table_mutation_write_pml4 part absent)
    ]
