-- ===== src/VirtualMemory/Fresh.antt =====
-- The tables that MapPage of VirtualMemoryManager.cpp goes through: those that are there, and the pages
-- that the allocator gives for the others.
use twisted_os_v.Common.{
  ℕ, zero, suc, ◌+◌, ◌*◌, ◌%◌, ◌<◌, ◌≡◌, ◌≢◌, ap, sym, subst, ◌∙◌, Bool, true, false, List, [], ◌∷◌,
  All, inl, inr, arith,
}
use twisted_os_v.PhysicalMemory.{PhysicalMemoryManager, allocate_pages_from_descriptor}
use twisted_os_v.VirtualMemory.Entries.{
  pd_index, pdpt_index, pml4_index, is_writeable, table_address,
}
use twisted_os_v.VirtualMemory.Tables.{VirtualMemoryManager}
use twisted_os_v.VirtualMemory.Enter.{is_table, page_of, Entered}

-- The index of the entry that is followed where `n` more are.
abbrev pub index_at : ℕ → ℕ → ℕ
index_at zero virtual = pd_index virtual
index_at (suc zero) virtual = pdpt_index virtual
index_at (suc (suc n)) virtual = pml4_index virtual

index_at-below : (n virtual : ℕ) → index_at n virtual < 512
index_at-below zero virtual = omega arith
index_at-below (suc zero) virtual = omega arith
index_at-below (suc (suc n)) virtual = omega arith

-- Each of the next `n` pages that the allocator gives is aligned, below 4 GB, and none of those above or
-- given before.
abbrev pub NewTables : ℕ → PhysicalMemoryManager → List ℕ → Type 0
NewTables zero pmm above = Unit
NewTables (suc n) pmm above =
    let page = (allocate_pages_from_descriptor pmm 1).0 in
    page ≢ 0
    → (page % 0x1000 ≡ 0)
      × (page < 0x1_0000_0000)
      × All (λ t. t ≢ page) above
      × NewTables n (allocate_pages_from_descriptor pmm 1).1 (page ∷ above)

-- The next `n` tables behind `table`: those that are there are open to writing, below 4 GB and none of
-- those above, and the pages for the others are new.
abbrev pub Tables : ℕ → (ℕ → ℕ) → PhysicalMemoryManager → ℕ → List ℕ → ℕ → Type 0
Tables zero memory pmm table above virtual = Unit
Tables (suc n) memory pmm table above virtual =
    let entry = memory (table + 8 * index_at n virtual) in
    (is_table entry ≡ true
      → (is_writeable entry ≡ true)
        × (table_address entry < 0x1_0000_0000)
        × All (λ t. t ≢ table_address entry) (table ∷ above)
        × Tables n memory pmm (table_address entry) (table ∷ above) virtual)
    × (is_table entry ≡ false → NewTables (suc n) pmm (table ∷ above))

All-zip :
    (P Q R : ℕ → Type 0) (xs : List ℕ)
    → ((x : ℕ) → P x → Q x → R x)
    → All P xs
    → All Q xs
    → All R xs
All-zip P Q R [] f p q = tt
All-zip P Q R (x ∷ xs) f (p, ps) (q, qs) = (f x p q, All-zip P Q R xs f ps qs)

in_page :
    (table n virtual : ℕ) → page_of table ≡ table → page_of (table + 8 * index_at n virtual) ≡ table
in_page table n virtual aligned = omega (arith, aligned, index_at-below n virtual)

-- A change in a page above leaves the tables behind.
Tables-keep :
    (n : ℕ) (memory memory' : ℕ → ℕ) (pmm : PhysicalMemoryManager) (table : ℕ) (above : List ℕ)
    (virtual x : ℕ)
    → ((P : ℕ → Type 0) → All P above → P x)
    → x ≢ table
    → page_of table ≡ table
    → ((i : ℕ) → page_of i ≢ x → memory' i ≡ memory i)
    → Tables n memory pmm table above virtual
    → Tables n memory' pmm table above virtual
Tables-keep zero memory memory' pmm table above virtual x pick other aligned same tables = tt
Tables-keep (suc n) memory memory' pmm table above virtual x pick other aligned same (old, new) =
    let slot = table + 8 * index_at n virtual in
    let kept : memory' slot ≡ memory slot =
      same slot (λ e. other (sym e ∙ in_page table n virtual aligned)) in
    let Behind : ℕ → Type 0 = λ entry.
      (is_writeable entry ≡ true)
      × (table_address entry < 0x1_0000_0000)
      × All (λ t. t ≢ table_address entry) (table ∷ above)
      × Tables n memory' pmm (table_address entry) (table ∷ above) virtual in
    (
      λ is.
          let (writes, low, apart, rest) = old (ap is_table (sym kept) ∙ is) in
          let e = table_address (memory slot) in
          subst Behind (sym kept) (
            writes,
            low,
            apart,
            Tables-keep n memory memory' pmm e (table ∷ above) virtual x (λ P all. pick P all.1)
                (pick (λ t. t ≢ e) apart.1) (omega arith) same rest,
          ),
      λ is. new (ap is_table (sym kept) ∙ is),
    )

-- A step leaves the words in the pages above, and comes to a table that is none of those above, from
-- where the others go on.
pub enter-Tables :
    (n : ℕ) (m : VirtualMemoryManager) (table : ℕ) (above : List ℕ) (virtual : ℕ) (user : Bool)
    (part : ℕ → ℕ → ℕ) (entry : ℕ) (m' : VirtualMemoryManager)
    → page_of table ≡ table
    → All (λ t. t ≢ table) above
    → (n ≢ 0 → (old index : ℕ) → is_table (part old index) ≡ false)
    → Entered m (table + 8 * index_at n virtual) user part entry m'
    → Tables (suc n) m.memory m.pmm table above virtual
    → All (λ t. t ≢ table_address entry) (table ∷ above)
      × Tables n m'.memory m'.pmm (table_address entry) (table ∷ above) virtual
      × All (λ t. (i : ℕ) → page_of i ≡ t → m'.memory i ≡ m.memory i) above
enter-Tables n m table above virtual user part entry m' aligned apart parts entered (old, new) =
    let slot = table + 8 * index_at n virtual in
    let inside = in_page table n virtual aligned in
    elim entered.origin [
      | inl (there, leads, pmm, same) ↦
          let (_, low, distinct, rest) = old there in
          let keeps : (i : ℕ) → page_of i ≢ table → m'.memory i ≡ m.memory i =
            λ i other. same i (λ e. other (ap page_of e ∙ inside)) in
          let rest' =
            Tables-keep n m.memory m'.memory m.pmm (table_address (m.memory slot)) (table ∷ above)
              virtual table (λ P all. all.0) distinct.0 (omega arith) keeps rest in
          (
            subst (λ a. All (λ t. t ≢ a) (table ∷ above)) (sym (leads low)) distinct,
            subst (λ a. Tables n m'.memory m'.pmm a (table ∷ above) virtual) (sym (leads low))
                (subst
                  (λ p.
                    Tables n m'.memory p (table_address (m.memory slot)) (table ∷ above) virtual)
                  (sym pmm) rest'),
            All-zip (λ t. t ≢ table) (λ t. t ≢ table)
                (λ t. (i : ℕ) → page_of i ≡ t → m'.memory i ≡ m.memory i) above
                (λ t other other' i e. keeps i (λ e'. other (sym e ∙ e'))) apart apart,
          )
      | inr (there, found, leads, pmm, same, empty) ↦
          let page = (allocate_pages_from_descriptor m.pmm 1).0 in
          let (page_aligned, low, distinct, rest) = new there found in
          let to_page : table_address entry ≡ page = leads ∙ omega (arith, page_aligned, low) in
          (
            subst (λ a. All (λ t. t ≢ a) (table ∷ above)) (sym to_page) distinct,
            subst (λ a. Tables n m'.memory m'.pmm a (table ∷ above) virtual) (sym to_page)
                (subst (λ p. Tables n m'.memory p page (table ∷ above) virtual) (sym pmm)
                  (empty_table n page page_aligned low distinct parts empty rest)),
            All-zip (λ t. t ≢ table) (λ t. t ≢ page)
                (λ t. (i : ℕ) → page_of i ≡ t → m'.memory i ≡ m.memory i) above
                (λ t other other' i e.
                  same i (λ e'. other (sym e ∙ ap page_of e' ∙ inside)) page_aligned
                    (λ e'. other' (sym e ∙ e')))
                apart distinct.1,
          )
    ]
  where
    empty_table :
        (n page : ℕ)
        → page % 0x1000 ≡ 0
        → page < 0x1_0000_0000
        → All (λ t. t ≢ page) (table ∷ above)
        → (n ≢ 0 → (old index : ℕ) → is_table (part old index) ≡ false)
        → (((old index : ℕ) → is_table (part old index) ≡ false)
            → (index : ℕ) → index < 512
            → page + 8 * index ≢ table + 8 * index_at n virtual
            → is_table (m'.memory (page + 8 * index)) ≡ false)
        → NewTables n (allocate_pages_from_descriptor m.pmm 1).1 (page ∷ table ∷ above)
        → Tables n m'.memory (allocate_pages_from_descriptor m.pmm 1).1 page (table ∷ above) virtual
    empty_table zero page page_aligned low distinct parts empty rest = tt
    empty_table (suc n) page page_aligned low distinct parts empty rest =
        let no_table =
          empty (parts (omega arith)) (index_at n virtual) (index_at-below n virtual) (λ e.
            distinct.0 (
              sym (in_page table (suc n) virtual aligned)
              ∙ sym (ap page_of e)
              ∙ in_page page n virtual (omega (arith, page_aligned)))) in
        (λ is. absurd (ground (arith, is, no_table)), λ is. rest)
