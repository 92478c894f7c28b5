-- ===== src/VirtualMemory/MapPage.antt =====
-- MapPage of VirtualMemoryManager.cpp: what an address that it maps stands for.
use twisted_os_v.Common.{
  ℕ, zero, suc, ◌+◌, ◌*◌, ◌/◌, ◌%◌, ◌<◌, ◌≡◌, refl, subst, ◌∙◌, Bool, true, false, some, ◌⊎◌, inl,
  inr, [], ◌∷◌, arith,
}
use twisted_os_v.PhysicalMemory.{PhysicalMemoryManager, allocate_pages_from_descriptor}
use twisted_os_v.VirtualMemory.Entries.{pml4_index, pdpt_index, pd_index, is_large, table_address}
use twisted_os_v.VirtualMemory.Tables.{
  VirtualMemoryManager, PageMappingFlags, page_table_mutation_write_pdpt,
  page_table_mutation_write_pd, giga_page_part, mega_page_part,
}
use twisted_os_v.VirtualMemory.Map.{map_in_directory, map_page}
use twisted_os_v.VirtualMemory.Protect.{pml4_slot}
use twisted_os_v.VirtualMemory.Changes.{mapping}
use twisted_os_v.VirtualMemory.Enter.{is_table, page_of, Entered}
use twisted_os_v.VirtualMemory.Steps.{enter_table-Outcome, enter_pml4-Outcome}
use twisted_os_v.VirtualMemory.Fresh.{Tables, enter-Tables}
use twisted_os_v.VirtualMemory.MapPath.{Path3, write_leaf-mapping}

-- One of the next `n` pages asked for is not given.
abbrev pub Exhausted : ℕ → PhysicalMemoryManager → Type 0
Exhausted zero pmm = ⊥
Exhausted (suc n) pmm =
    ((allocate_pages_from_descriptor pmm 1).0 ≡ 0)
    ⊎ Exhausted n (allocate_pages_from_descriptor pmm 1).1

Exhausted-more : (n : ℕ) (pmm : PhysicalMemoryManager) → Exhausted n pmm → Exhausted (suc n) pmm
Exhausted-more zero pmm none_left = absurd none_left
Exhausted-more (suc n) pmm (inl now) = inl now
Exhausted-more (suc n) pmm (inr later) = inr (Exhausted-more n _ later)

Exhausted-before :
    (n : ℕ) (m : VirtualMemoryManager) (slot : ℕ) (user : Bool) (part : ℕ → ℕ → ℕ) (entry : ℕ)
    (m' : VirtualMemoryManager)
    → Entered m slot user part entry m'
    → Exhausted n m'.pmm
    → Exhausted (suc n) m.pmm
Exhausted-before n m slot user part entry m' entered later = elim entered.origin [
  | inl (_, _, pmm, _) ↦ Exhausted-more n m.pmm (subst (Exhausted n) pmm later)
  | inr (_, _, _, pmm, _, _) ↦ inr (subst (Exhausted n) pmm later)
]

giga_page_part-large : (old index : ℕ) → is_table (giga_page_part old index) ≡ false
unfolding giga_page_part
giga_page_part-large old index = ground arith

-- The three steps lead to the page table.
Entered-Path3 :
    (m : VirtualMemoryManager) (virtual : ℕ) (user : Bool) (e4 e3 e2 : ℕ)
    (m1 m2 m3 : VirtualMemoryManager)
    → m.page_map_l4_table % 0x1000 ≡ 0
    → Tables 3 m.memory m.pmm m.page_map_l4_table [] virtual
    → Entered m (m.page_map_l4_table + 8 * pml4_index virtual) user giga_page_part e4 m1
    → Entered m1 (table_address e4 + 8 * pdpt_index virtual) user giga_page_part e3 m2
    → Entered m2 (table_address e3 + 8 * pd_index virtual) user mega_page_part e2 m3
    → Path3 m3.memory m.page_map_l4_table virtual e4 e3 e2 user
Entered-Path3 m virtual user e4 e3 e2 m1 m2 m3 root_aligned tables entered4 entered3 entered2 =
    let root = m.page_map_l4_table in
    let aligned : page_of root ≡ root = omega (arith, root_aligned) in
    let (apart3, tables3, _) =
      enter-Tables 2 m root [] virtual user giga_page_part e4 m1 aligned tt
        (λ some_levels. giga_page_part-large) entered4 tables in
    let (apart2, tables2, same2) =
      enter-Tables 1 m1 (table_address e4) (root ∷ []) virtual user giga_page_part e3 m2
        (omega arith) apart3 (λ some_levels. giga_page_part-large) entered3 tables3 in
    let (apart1, _, same1) =
      enter-Tables 0 m2 (table_address e3) (table_address e4 ∷ root ∷ []) virtual user
        mega_page_part e2 m3 (omega arith) apart2 (λ some_levels. absurd (some_levels refl))
        entered2 tables2 in
    record {
      first =
          same1.1.0 (root + 8 * pml4_index virtual) (omega (arith, root_aligned))
          ∙ same2.0 (root + 8 * pml4_index virtual) (omega (arith, root_aligned))
          ∙ entered4.here;
      second = same1.0 (table_address e4 + 8 * pdpt_index virtual) (omega arith) ∙ entered3.here;
      third = entered2.here;
      present =
          (entered4.present, entered3.present, entered3.small, entered2.present, entered2.small);
      granted =
          λ asked. rw (entered4.granted asked, entered3.granted asked, entered2.granted asked) refl;
      writes =
          rw
            (
              entered4.writes (λ is. (tables.0 is).0),
              entered3.writes (λ is. (tables3.0 is).0),
              entered2.writes (λ is. (tables2.0 is).0),
            )
            refl;
      aligned = aligned;
      apart = (apart1.1.1.0, apart1.1.0, apart1.0);
    }

-- MapPage of a physical address below 4 GB, where the root table is aligned, its entry is not marked
-- large, the tables that the virtual address goes through are open to writing, below 4 GB and different
-- from one another, and the next three pages that the allocator gives are aligned, below 4 GB, and none
-- of these tables or of each other. Whether a table is there, closed to the user, missing or in the place
-- of a large page: it returns false, and then one of the next three pages is not given, or it returns true
-- and the virtual address stands for the page, with just the rights asked for.
pub map_page-translate :
    (m : VirtualMemoryManager) (physical virtual : ℕ) (flags : PageMappingFlags)
    → physical < 0x1_0000_0000
    → m.page_map_l4_table % 0x1000 ≡ 0
    → is_large (m.memory (pml4_slot m.memory m.page_map_l4_table virtual)) ≡ false
    → Tables 3 m.memory m.pmm m.page_map_l4_table [] virtual
    → (((map_page m physical virtual flags).0 ≡ false) × Exhausted 3 m.pmm)
      ⊎ (((map_page m physical virtual flags).0 ≡ true)
          × (mapping (map_page m physical virtual flags).1 virtual
              ≡ some (record {
                physical = physical / 0x1000 * 0x1000 + virtual % 0x1000;
                for_user = flags.user_access;
                for_write = flags.writeable;
              })))
unfolding map_page map_in_directory
map_page-translate m physical virtual flags low root_aligned small tables =
    let root = m.page_map_l4_table in
    let user = flags.user_access in
    let s4 = root + 8 * pml4_index virtual in
    elim (enter_pml4-Outcome m virtual user giga_page_part small) [
      | inl (m1, (first, exhausted)) ↦ inl (rw (map_page, first) refl, inl exhausted)
      | inr (e4, m1, (first, entered4)) ↦
          let s3 = table_address e4 + 8 * pdpt_index virtual in
          let before4 = Exhausted-before 2 m s4 user giga_page_part e4 m1 entered4 in
          elim (enter_table-Outcome m1 virtual s3 user page_table_mutation_write_pdpt
            giga_page_part) [
              | inl (m2, (second, exhausted)) ↦
                  inl (rw (map_page, first, second) refl, before4 (inl exhausted))
              | inr (e3, m2, (second, entered3)) ↦
                  let s2 = table_address e3 + 8 * pd_index virtual in
                  let before3 = Exhausted-before 1 m1 s3 user giga_page_part e3 m2 entered3 in
                  elim (enter_table-Outcome m2 virtual s2 user page_table_mutation_write_pd
                    mega_page_part) [
                      | inl (m3, (third, exhausted)) ↦ inl (
                        rw (map_page, first, second, map_in_directory, third) refl,
                        before4 (before3 (inl exhausted)),
                      )
                      | inr (e2, m3, (third, entered2)) ↦
                          let path =
                            Entered-Path3 m virtual user e4 e3 e2 m1 m2 m3 root_aligned tables
                              entered4 entered3 entered2 in
                          inr (
                            rw (map_page, first, second, map_in_directory, third) refl,
                            rw (map_page, first, second, map_in_directory, third)
                                (write_leaf-mapping m3 root virtual e4 e3 e2 physical flags low
                                  (entered2.root ∙ entered3.root ∙ entered4.root) path),
                          )
                    ]
            ]
    ]
