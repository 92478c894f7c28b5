-- ===== src/PhysicalMemory/Carve.antt =====
-- InitializeBuddyAllocator of PhysicalMemoryManager.cpp starts from all pages and the invariant.
use twisted_os_v.Common.{
  ℕ, zero, suc, ◌+◌, ◌*◌, ◌-◌, ◌/◌, ◌%◌, ◌≤◌, ◌<◌, ◌≡◌, ap, arith, ◌==◌, Bool-cases, inl, inr,
  ==_iff,
}
use native.Mathlib.Nat.{div-add-mod'}
use twisted_os_v.Common.Words.{u64}
use twisted_os_v.PhysicalMemory.{
  FreeLists, page_size, max_buddy_orders, pages_for_order, floor_log2_pages, push_block,
}
use twisted_os_v.PhysicalMemory.Orders.{
  floor_log2_pages_bounds, pages_for_order_pos, pages_for_order_mono, pages_for_order_top,
  pages_for_order_zero,
}
use twisted_os_v.PhysicalMemory.Measure.{Measure, held, held-push_block}
use twisted_os_v.PhysicalMemory.Sound.{Fits, AllFit, Range, push_block-AllFit}
use twisted_os_v.PhysicalMemory.Boot.{aligned_order, carve_blocks}

-- The order that is tried is no larger, and the offset is a multiple of its size.
aligned_order_lem :
    (order offset : ℕ)
    → (aligned_order order offset ≤ order)
      × (offset % pages_for_order (aligned_order order offset) ≡ 0)
unfolding aligned_order
aligned_order_lem zero offset = rw pages_for_order_zero (omega arith)
aligned_order_lem (suc order) offset = ground (arith, aligned_order_lem order offset)

size-zero : (μ : Measure) (address : ℕ) → μ.size address 0 ≡ 0
size-zero μ address =
    let here : address + 0 * page_size ≡ address = omega arith in
    omega (arith, rw here at (μ.additive address 0 0))

-- A run of pages cut behind its first `pages`.
size-cut :
    (μ : Measure) (base offset pages remaining : ℕ)
    → pages ≤ remaining
    → μ.size (base + offset * page_size) remaining
      ≡ μ.size (base + offset * page_size) pages
        + μ.size (base + (offset + pages) * page_size) (remaining - pages)
size-cut μ base offset pages remaining h =
    let address = base + offset * page_size in
    let whole : pages + (remaining - pages) ≡ remaining = omega arith in
    let next : address + pages * page_size ≡ base + (offset + pages) * page_size = omega arith in
    omega (
      arith,
      ap (μ.size address) whole,
      μ.additive address pages (remaining - pages),
      ap (λ a. μ.size a (remaining - pages)) next,
    )

module _ (base total : ℕ) (range : Range base total) where
  -- The block that a round takes is below the last order, no larger than what remains, and in its
  -- place.
  record Carved (remaining offset order : ℕ) : Type 0 where
    below : order < max_buddy_orders
    fewer : pages_for_order order ≤ remaining
    block : Fits base total order (base + offset * page_size)

  carved :
      (remaining offset : ℕ)
      → 0 < remaining
      → offset + remaining ≡ total
      → Carved remaining offset (aligned_order (floor_log2_pages remaining) offset)
  carved remaining offset more split =
      let floor = floor_log2_pages remaining in
      let order = aligned_order floor offset in
      let (least, aligned) = aligned_order_lem floor offset in
      let small : remaining < pages_for_order 52 =
        omega (arith, range.no_wrap, pages_for_order_top) in
      let fewer : pages_for_order order ≤ remaining = omega (
        arith,
        least,
        floor_log2_pages_bounds remaining more small,
        pages_for_order_mono order floor,
      ) in
      let whole : offset / pages_for_order order * pages_for_order order ≡ offset =
        omega (arith, div-add-mod' offset (pages_for_order order), aligned) in
      record {
        below = grind (arith, fewer, small, pages_for_order_mono 52 order);
        fewer = fewer;
        block = record {
          index = offset / pages_for_order order;
          placed = omega (arith, whole);
          inside = omega (arith, whole, fewer, split);
        };
      }

  pub carve_blocks-held :
      (fuel remaining offset : ℕ) (fl : FreeLists)
      → remaining ≤ fuel
      → offset + remaining ≡ total
      → AllFit base total fl
      → AllFit base total (carve_blocks fuel base remaining offset fl)
        × ((μ : Measure)
            → held μ max_buddy_orders (carve_blocks fuel base remaining offset fl)
              ≡ held μ max_buddy_orders fl + μ.size (base + offset * page_size) remaining)
  unfolding carve_blocks
  carve_blocks-held zero remaining offset fl enough split fits =
      let done : remaining ≡ 0 = omega arith in
      (fits, λ μ. rw done (omega (arith, size-zero μ (base + offset * page_size))))
  carve_blocks-held (suc fuel) remaining offset fl enough split fits =
      elim (Bool-cases (remaining == 0)) [
        | inl stop ↦
            let done : remaining ≡ 0 = (==_iff remaining 0).0 stop in
            rw stop (fits, λ μ. rw done (omega (arith, size-zero μ (base + offset * page_size))))
        | inr more ↦
            let order = aligned_order (floor_log2_pages remaining) offset in
            let pages = pages_for_order order in
            let c = carved remaining offset (ground arith) split in
            let exact : u64 (base + u64 (offset * page_size)) ≡ base + offset * page_size =
              omega (arith, range.no_wrap) in
            let fl' = push_block fl order (base + offset * page_size) in
            let (fits', same) =
              carve_blocks-held fuel (remaining - pages) (offset + pages) fl'
                (omega (arith, pages_for_order_pos order)) (omega (arith, c.fewer))
                (push_block-AllFit base total fl order _ fits c.block) in
            rw (more, exact)
              (
                fits',
                λ μ. omega (
                  arith,
                  same μ,
                  range.base_pos,
                  held-push_block μ max_buddy_orders order (base + offset * page_size) fl c.below,
                  size-cut μ base offset pages remaining c.fewer,
                ),
              )
      ]
