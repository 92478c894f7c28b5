-- ===== src/VirtualMemory/MapPath.antt =====
-- The end of MapPage of VirtualMemoryManager.cpp: the entry of the page, below three that lead to it.
use twisted_os_v.Common.{
  ℕ, ◌+◌, ◌*◌, ◌/◌, ◌%◌, ◌<◌, ◌≡◌, ◌≢◌, refl, ap, sym, ◌∙◌, Bool, true, false, ◌&&◌, some, arith,
}
use twisted_os_v.VirtualMemory.Entries.{
  pml4_index, pdpt_index, pd_index, pt_index, is_present, is_writeable, has_user_access, is_large,
  table_address, build_leaf_entry_value,
}
use twisted_os_v.VirtualMemory.Tables.{
  VirtualMemoryManager, PageMappingFlags, put, write, page_table_mutation_write_pt,
}
use twisted_os_v.VirtualMemory.Map.{observe_noncanonical, write_leaf}
use twisted_os_v.VirtualMemory.Protect.{pdpt_slot, pd_slot, pt_slot, are_tables, has_page_table}
use twisted_os_v.VirtualMemory.Leaf.{build_leaf_entry_value-fields}
use twisted_os_v.VirtualMemory.Walk.{IsApart, upper_user, upper_write, translate}
use twisted_os_v.VirtualMemory.Changes.{mapping, translate-put}
use twisted_os_v.VirtualMemory.Recorded.{record_mutation-keeps, observe_noncanonical-keeps}
use twisted_os_v.VirtualMemory.Enter.{page_of}

-- Entries of tables in different pages.
slots_apart :
    (a b i j : ℕ)
    → page_of a ≡ a
    → page_of b ≡ b
    → i < 512
    → j < 512
    → a ≢ b
    → a + 8 * i ≢ b + 8 * j
slots_apart a b i j h k low low' other e = other (omega (arith, h, k, low, low', e))

-- The three entries that lead to the page table, open to writing, to the user if asked for, and their
-- tables, with the page table in a page of its own.
pub record Path3 (memory : ℕ → ℕ) (root virtual e4 e3 e2 : ℕ) (user : Bool) : Type 0 where
  pub first : memory (root + 8 * pml4_index virtual) ≡ e4
  pub second : memory (table_address e4 + 8 * pdpt_index virtual) ≡ e3
  pub third : memory (table_address e3 + 8 * pd_index virtual) ≡ e2
  pub present :
      (is_present e4 ≡ true)
      × (is_present e3 ≡ true)
      × (is_large e3 ≡ false)
      × (is_present e2 ≡ true)
      × (is_large e2 ≡ false)
  pub granted :
      user ≡ true → (has_user_access e4 && has_user_access e3 && has_user_access e2) ≡ true
  pub writes : (is_writeable e4 && is_writeable e3 && is_writeable e2) ≡ true
  pub aligned : page_of root ≡ root
  pub apart :
      (root ≢ table_address e2)
      × (table_address e4 ≢ table_address e2)
      × (table_address e3 ≢ table_address e2)

Path3-translate :
    (memory : ℕ → ℕ) (root virtual e4 e3 e2 physical : ℕ) (flags : PageMappingFlags)
    → physical < 0x1_0000_0000
    → Path3 memory root virtual e4 e3 e2 flags.user_access
    → translate
        (put memory
          (table_address e2 + 8 * pt_index virtual)
          (build_leaf_entry_value physical 0 flags.user_access flags.writeable))
        root
        virtual
      ≡ some (record {
        physical = physical / 0x1000 * 0x1000 + virtual % 0x1000;
        for_user = flags.user_access;
        for_write = flags.writeable;
      })
unfolding are_tables
Path3-translate memory root virtual e4 e3 e2 physical flags low path =
    let built = build_leaf_entry_value physical 0 flags.user_access flags.writeable in
    let s3 : pdpt_slot memory root virtual ≡ table_address e4 + 8 * pdpt_index virtual =
      ap (λ e. table_address e + 8 * pdpt_index virtual) path.first in
    let h3 : memory (pdpt_slot memory root virtual) ≡ e3 = ap memory s3 ∙ path.second in
    let s2 : pd_slot memory root virtual ≡ table_address e3 + 8 * pd_index virtual =
      ap (λ e. table_address e + 8 * pd_index virtual) h3 in
    let h2 : memory (pd_slot memory root virtual) ≡ e2 = ap memory s2 ∙ path.third in
    let s1 : pt_slot memory root virtual ≡ table_address e2 + 8 * pt_index virtual =
      ap (λ e. table_address e + 8 * pt_index virtual) h2 in
    let (p4, p3, l3, p2, l2) = path.present in
    let there : has_page_table memory root virtual ≡ true =
      (λ i. are_tables (path.first i) (h3 i) (h2 i)) ∙ rw (p4, p3, l3, p2, l2) refl in
    let (apart4, apart3, apart2) = path.apart in
    let apart : IsApart memory root virtual (pt_slot memory root virtual) = record {
      not_pml4 = λ e.
          slots_apart root (table_address e2) (pml4_index virtual) (pt_index virtual) path.aligned
            (omega arith) (omega arith) (omega arith) apart4 (e ∙ s1);
      not_pdpt = λ e.
          slots_apart (table_address e4) (table_address e2) (pdpt_index virtual) (pt_index virtual)
            (omega arith) (omega arith) (omega arith) (omega arith) apart3 (sym s3 ∙ e ∙ s1);
      not_pd = λ e.
          slots_apart (table_address e3) (table_address e2) (pd_index virtual) (pt_index virtual)
            (omega arith) (omega arith) (omega arith) (omega arith) apart2 (sym s2 ∙ e ∙ s1);
    } in
    let (present, user, writes, page, _, _) =
      build_leaf_entry_value-fields physical 0 flags.user_access flags.writeable in
    let same_page : table_address built / 0x1000 * 0x1000 ≡ physical / 0x1000 * 0x1000 =
      omega (arith, page, low) in
    let above_user : upper_user memory root virtual
        ≡ (has_user_access e4 && has_user_access e3 && has_user_access e2) =
      λ i. has_user_access (path.first i) && has_user_access (h3 i) && has_user_access (h2 i) in
    let above_write : upper_write memory root virtual ≡ true =
      (λ i. is_writeable (path.first i) && is_writeable (h3 i) && is_writeable (h2 i))
      ∙ path.writes in
    let for_user : (upper_user memory root virtual && has_user_access built) ≡ flags.user_access =
      (λ i. above_user i && user i) ∙ open_user _ flags.user_access path.granted in
    let for_write : (upper_write memory root virtual && is_writeable built) ≡ flags.writeable =
      λ i. above_write i && writes i in
    (λ i. translate (put memory (sym s1 i) built) root virtual)
    ∙ translate-put memory root virtual built apart there
    ∙ rw present (λ i. some (record {
      physical = same_page i + virtual % 0x1000;
      for_user = for_user i;
      for_write = for_write i;
    }))
  where
    open_user : (above user : Bool) → (user ≡ true → above ≡ true) → (above && user) ≡ user
    open_user above false granted = ground arith
    open_user above true granted = rw (granted refl) refl

-- The end of MapPage.
pub write_leaf-mapping :
    (m : VirtualMemoryManager) (root virtual e4 e3 e2 physical : ℕ) (flags : PageMappingFlags)
    → physical < 0x1_0000_0000
    → m.page_map_l4_table ≡ root
    → Path3 m.memory root virtual e4 e3 e2 flags.user_access
    → mapping
        (write_leaf (observe_noncanonical virtual e2 m) physical virtual (table_address e2) flags)
        virtual
      ≡ some (record {
        physical = physical / 0x1000 * 0x1000 + virtual % 0x1000;
        for_user = flags.user_access;
        for_write = flags.writeable;
      })
unfolding write_leaf
write_leaf-mapping m root virtual e4 e3 e2 physical flags low is path =
    let built = build_leaf_entry_value physical 0 flags.user_access flags.writeable in
    let slot = table_address e2 + 8 * pt_index virtual in
    let observed = observe_noncanonical virtual e2 m in
    let (memory, table, _) = observe_noncanonical-keeps virtual e2 m in
    let leaf = write observed slot built in
    let (memory', table', _) =
      record_mutation-keeps virtual page_table_mutation_write_pt built (table_address built) leaf in
    (λ i. translate (memory' i) (table' i) virtual)
    ∙ (λ i. translate (put (memory i) slot built) ((table ∙ is) i) virtual)
    ∙ Path3-translate m.memory root virtual e4 e3 e2 physical flags low path
