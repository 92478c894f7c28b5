-- ===== src/VirtualMemory/Walk.antt =====
-- What the processor makes of the tables of VirtualMemoryManager.cpp.
use twisted_os_v.Common.{
  ℕ, ◌+◌, ◌*◌, ◌/◌, ◌%◌, ◌≡◌, ◌≢◌, refl, ap, ◌∙◌, Bool, true, false, ◌&&◌, not, Option, none, some,
  arith, ◌==◌, if◌then◌else◌,
}
use twisted_os_v.VirtualMemory.Entries.{
  pt_index, pd_index, pdpt_index, is_present, is_writeable, has_user_access, is_large,
  table_address,
}
use twisted_os_v.VirtualMemory.Tables.{put}
use twisted_os_v.VirtualMemory.Protect.{pml4_slot, pdpt_slot, pd_slot, pt_slot, are_tables}

-- What a virtual address stands for: a physical address and the rights of every level together.
pub record Mapping : Type 0 where
  pub physical : ℕ
  pub for_user : Bool
  pub for_write : Bool

-- A page of 4 KB, or a larger one, and the rights of the levels above.
abbrev pub leaf_mapping : (entry size virtual : ℕ) → (for_user for_write : Bool) → Mapping
leaf_mapping entry size virtual for_user for_write = record {
  physical = table_address entry / size * size + virtual % size;
  for_user = for_user && has_user_access entry;
  for_write = for_write && is_writeable entry;
}

-- The walk on the entries it reads, from the top.
unfoldable pub walk : (virtual e4 e3 e2 e1 : ℕ) → Option Mapping
walk virtual e4 e3 e2 e1 =
    if not (is_present e4)
    then none
    else if not (is_present e3)
    then none
    else if is_large e3
    then some (leaf_mapping e3 0x4000_0000 virtual (has_user_access e4) (is_writeable e4))
    else if not (is_present e2)
    then none
    else if is_large e2
    then some (
        leaf_mapping e2 0x20_0000 virtual (has_user_access e4 && has_user_access e3)
          (is_writeable e4 && is_writeable e3))
    else if not (is_present e1)
    then none
    else some (
        leaf_mapping e1 0x1000 virtual
          (has_user_access e4 && has_user_access e3 && has_user_access e2)
          (is_writeable e4 && is_writeable e3 && is_writeable e2))

abbrev pub translate : (memory : ℕ → ℕ) → (root virtual : ℕ) → Option Mapping
translate memory root virtual =
    walk virtual (memory (pml4_slot memory root virtual)) (memory (pdpt_slot memory root virtual))
      (memory (pd_slot memory root virtual)) (memory (pt_slot memory root virtual))

-- The rights of the levels above a page of 4 KB.
abbrev pub upper_user : (memory : ℕ → ℕ) → (root virtual : ℕ) → Bool
upper_user memory root virtual =
    has_user_access (memory (pml4_slot memory root virtual))
    && has_user_access (memory (pdpt_slot memory root virtual))
    && has_user_access (memory (pd_slot memory root virtual))

abbrev pub upper_write : (memory : ℕ → ℕ) → (root virtual : ℕ) → Bool
upper_write memory root virtual =
    is_writeable (memory (pml4_slot memory root virtual))
    && is_writeable (memory (pdpt_slot memory root virtual))
    && is_writeable (memory (pd_slot memory root virtual))

-- An entry that no level above the last goes through.
pub record IsApart (memory : ℕ → ℕ) (root virtual slot : ℕ) : Type 0 where
  pub not_pml4 : pml4_slot memory root virtual ≢ slot
  pub not_pdpt : pdpt_slot memory root virtual ≢ slot
  pub not_pd : pd_slot memory root virtual ≢ slot

pub put-apart : (memory : ℕ → ℕ) (slot value i : ℕ) → i ≢ slot → put memory slot value i ≡ memory i
put-apart memory slot value i other = let e : (i == slot) ≡ false = ground arith in rw e

-- A write of an entry apart leaves the walk down to the last level.
pub pt_slot-put :
    (memory : ℕ → ℕ) (root virtual slot value : ℕ)
    → IsApart memory root virtual slot
    → (put memory slot value (pml4_slot memory root virtual)
        ≡ memory (pml4_slot memory root virtual))
      × (put memory slot value (pdpt_slot (put memory slot value) root virtual)
          ≡ memory (pdpt_slot memory root virtual))
      × (put memory slot value (pd_slot (put memory slot value) root virtual)
          ≡ memory (pd_slot memory root virtual))
      × (pt_slot (put memory slot value) root virtual ≡ pt_slot memory root virtual)
pt_slot-put memory root virtual slot value is =
    let written = put memory slot value in
    let e4 = put-apart memory slot value (pml4_slot memory root virtual) is.not_pml4 in
    let s3 : pdpt_slot written root virtual ≡ pdpt_slot memory root virtual =
      ap (λ e. table_address e + 8 * pdpt_index virtual) e4 in
    let e3 =
      ap written s3 ∙ put-apart memory slot value (pdpt_slot memory root virtual) is.not_pdpt in
    let s2 : pd_slot written root virtual ≡ pd_slot memory root virtual =
      ap (λ e. table_address e + 8 * pd_index virtual) e3 in
    let e2 = ap written s2 ∙ put-apart memory slot value (pd_slot memory root virtual) is.not_pd in
    (e4, e3, e2, ap (λ e. table_address e + 8 * pt_index virtual) e2)

pub are_tables-levels :
    (e4 e3 e2 : ℕ)
    → are_tables e4 e3 e2 ≡ true
    → (is_present e4 ≡ true)
      × (is_present e3 ≡ true)
      × (is_large e3 ≡ false)
      × (is_present e2 ≡ true)
      × (is_large e2 ≡ false)
unfolding are_tables
are_tables-levels e4 e3 e2 there =
    (ground arith, ground arith, ground arith, ground arith, ground arith)

-- The walk of an address whose tables are all there.
pub walk-leaf :
    (virtual e4 e3 e2 e1 : ℕ)
    → are_tables e4 e3 e2 ≡ true
    → walk virtual e4 e3 e2 e1 ≡ (
        if not (is_present e1)
        then none
        else some (
            leaf_mapping e1 0x1000 virtual
              (has_user_access e4 && has_user_access e3 && has_user_access e2)
              (is_writeable e4 && is_writeable e3 && is_writeable e2)))
unfolding walk
walk-leaf virtual e4 e3 e2 e1 there =
    let (p4, p3, l3, p2, l2) = are_tables-levels e4 e3 e2 there in
    rw (walk, p4, p3, l3, p2, l2) refl
