-- ===== src/PhysicalMemory/Sound.antt =====
-- The invariant of the buddy allocator of PhysicalMemoryManager.cpp.
use twisted_os_v.Common.{
  ℕ, ◌+◌, ◌*◌, ◌≤◌, ◌<◌, ◌≡◌, ◌≢◌, sym, subst, inl, inr, [], ◌∷◌, arith, Bool-cases, ==_iff, ◌==◌,
  All, List, true,
}
use twisted_os_v.Common.Words.{u64_limit}
use twisted_os_v.PhysicalMemory.{
  PhysicalMemoryManager, FreeLists, page_size, max_buddy_orders, pages_for_order, push_block,
  remove_block, update,
}
use twisted_os_v.PhysicalMemory.Orders.{pages_for_order-add_one}
use twisted_os_v.PhysicalMemory.Measure.{held, page_count}

-- A block of the order starts at `address`: at a multiple of its size, counted from the base, and
-- inside the managed pages.
pub record Fits (base total order address : ℕ) : Type 0 where
  pub index : ℕ
  pub placed : address ≡ base + index * pages_for_order order * page_size
  pub inside : index * pages_for_order order + pages_for_order order ≤ total

-- Every free block fits its order.
abbrev pub AllFit : (base total : ℕ) → FreeLists → Type 0
AllFit base total fl = (k : ℕ) → All (Fits base total k) (fl k)

-- The managed range: not at address 0, and not wrapping around.
pub record Range (base total : ℕ) : Type 0 where
  pub base_pos : 0 < base
  pub no_wrap : base + total * page_size < u64_limit

pub record IsSound (p : PhysicalMemoryManager) : Type 0 where
  pub range : Range p.descriptor_info.physical_address_start p.descriptor_info.total_number_of_pages
  pub max_order : p.buddy_max_order < max_buddy_orders
  pub fits :
      AllFit p.descriptor_info.physical_address_start p.descriptor_info.total_number_of_pages
        p.buddy_free_lists
  pub counted :
      held page_count max_buddy_orders p.buddy_free_lists ≡ p.descriptor_info.number_of_free_pages
  pub bounded : p.descriptor_info.number_of_free_pages ≤ p.descriptor_info.total_number_of_pages
  pub ready : p.descriptor_info.bit_map ≢ 0

module _ (base total : ℕ) where
  pub AllFit-update :
      (fl : FreeLists) (order : ℕ) (l : List ℕ)
      → AllFit base total fl
      → All (Fits base total order) l
      → AllFit base total (update fl order l)
  AllFit-update fl order l fits fit k = elim (Bool-cases (k == order)) [
    | inl e ↦ rw e (subst (λ j. All (Fits base total j) l) (sym ((==_iff k order).0 e)) fit)
    | inr e ↦ rw e (fits k)
  ]

  pub push_block-AllFit :
      (fl : FreeLists) (order address : ℕ)
      → AllFit base total fl
      → Fits base total order address
      → AllFit base total (push_block fl order address)
  unfolding push_block
  push_block-AllFit fl order address fits fit =
      AllFit-update fl order _ fits
        (elim (Bool-cases (address == 0)) [ inl e ↦ rw e tt | inr e ↦ rw e (fit, fits order) ])

  pub remove_block-Fits :
      (order address : ℕ) (l : List ℕ)
      → All (Fits base total order) l
      → All (Fits base total order) (remove_block address l).0
  unfolding remove_block
  remove_block-Fits order address [] fit = fit
  remove_block-Fits order address (a ∷ l) fit = elim (Bool-cases (a == address)) [
    | inl e ↦ rw e fit.1
    | inr e ↦ rw e (fit.0, remove_block-Fits order address l fit.1)
  ]

  -- A block that is found in a list of fitting blocks fits.
  pub removed-Fits :
      (order address : ℕ) (l : List ℕ)
      → All (Fits base total order) l
      → (remove_block address l).1 ≡ true
      → Fits base total order address
  unfolding remove_block
  removed-Fits order address [] fit h = cc
  removed-Fits order address (a ∷ l) fit h = elim (Bool-cases (a == address)) [
    | inl e ↦ subst (Fits base total order) ((==_iff a address).0 e) fit.0
    | inr e ↦ removed-Fits order address l fit.1 (rw e at h)
  ]

-- A run of blocks counted in halves.
halves : (m p q : ℕ) → q ≡ p + p → m * q ≡ 2 * m * p
halves m p q e = rw e (omega arith)

next_half : (m p : ℕ) → (2 * m + 1) * p ≡ 2 * m * p + p
next_half m p = omega arith

-- Two halves of a block are blocks of the next lower order.
module _ (base total order address : ℕ) (whole : Fits base total (order + 1) address) where
  pub lower-Fits : Fits base total order address
  lower-Fits = record {
    index = 2 * whole.index;
    placed = omega (
      arith,
      whole.placed,
      pages_for_order-add_one order,
      halves whole.index _ _ (pages_for_order-add_one order),
      next_half whole.index (pages_for_order order),
    );
    inside = omega (
      arith,
      whole.inside,
      pages_for_order-add_one order,
      halves whole.index _ _ (pages_for_order-add_one order),
      next_half whole.index (pages_for_order order),
    );
  }

  pub upper-Fits : Fits base total order (address + pages_for_order order * page_size)
  upper-Fits = record {
    index = 2 * whole.index + 1;
    placed = omega (
      arith,
      whole.placed,
      pages_for_order-add_one order,
      halves whole.index _ _ (pages_for_order-add_one order),
      next_half whole.index (pages_for_order order),
    );
    inside = omega (
      arith,
      whole.inside,
      pages_for_order-add_one order,
      halves whole.index _ _ (pages_for_order-add_one order),
      next_half whole.index (pages_for_order order),
    );
  }

-- Both halves joined, at an even index.
pub joined-Fits :
    (base total order address : ℕ) (low : Fits base total order address) (half : ℕ)
    → low.index ≡ 2 * half
    → low.index * pages_for_order order + 2 * pages_for_order order ≤ total
    → Fits base total (order + 1) address
joined-Fits base total order address low half e h = record {
  index = half;
  placed = omega (arith, low.placed, doubled);
  inside = omega (arith, doubled, pages_for_order-add_one order);
}
  where
    doubled : half * pages_for_order (order + 1) ≡ low.index * pages_for_order order
    doubled = rw e (halves half _ _ (pages_for_order-add_one order))

-- Addresses of fitting blocks are inside the range, and do not wrap around.
pub Fits-bounds :
    (base total order address : ℕ)
    → Range base total
    → Fits base total order address
    → (base ≤ address)
      × (address + pages_for_order order * page_size ≤ base + total * page_size)
      × (address + pages_for_order order * page_size < u64_limit)
Fits-bounds base total order address range fit =
    omega (arith, range.no_wrap, fit.placed, fit.inside)
