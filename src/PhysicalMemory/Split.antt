-- ===== src/PhysicalMemory/Split.antt =====
-- The splitting loop of AllocatePagesFromDescriptor, PhysicalMemoryManager.cpp.
use native.Mathlib.Nat.{add-zero, add-suc}
use twisted_os_v.Common.{ℕ, zero, suc, ◌+◌, ◌*◌, ◌<◌, ◌≡◌, arith, ap, subst}
use twisted_os_v.Common.Words.{u64}
use twisted_os_v.PhysicalMemory.{
  FreeLists, page_size, max_buddy_orders, pages_for_order, push_block, split_blocks,
}
use twisted_os_v.PhysicalMemory.Orders.{pages_for_order-suc}
use twisted_os_v.PhysicalMemory.Measure.{Measure, held, held-push_block}
use twisted_os_v.PhysicalMemory.Sound.{
  Fits, AllFit, Range, push_block-AllFit, lower-Fits, upper-Fits, Fits-bounds,
}

module _ (base total : ℕ) (range : Range base total) where
  whole_block :
      (requested rounds address : ℕ)
      → Fits base total (requested + suc rounds) address
      → Fits base total (requested + rounds + 1) address
  whole_block requested rounds address =
      subst (λ order. Fits base total order address)
        (let e : requested + suc rounds ≡ requested + rounds + 1 = omega arith in e)

  buddy_exact :
      (order address : ℕ)
      → Fits base total (order + 1) address
      → u64 (address + pages_for_order order * page_size)
        ≡ address + pages_for_order order * page_size
  buddy_exact order address whole =
      let low = lower-Fits base total order address whole in
      omega (arith, Fits-bounds base total order address range low)

  -- Splitting keeps every block in its place.
  pub split_blocks-AllFit :
      (rounds requested address : ℕ) (fl : FreeLists)
      → AllFit base total fl
      → Fits base total (requested + rounds) address
      → AllFit base total (split_blocks rounds requested address fl)
        × Fits base total requested address
  unfolding split_blocks
  split_blocks-AllFit zero requested address fl fits fit =
      (fits, subst (λ order. Fits base total order address) (add-zero requested) fit)
  split_blocks-AllFit (suc rounds) requested address fl fits fit =
      let order = requested + rounds in
      let whole = whole_block requested rounds address fit in
      let upper = upper-Fits base total order address whole in
      split_blocks-AllFit rounds requested address _
        (rw (buddy_exact order address whole) (push_block-AllFit base total fl order _ fits upper))
        (lower-Fits base total order address whole)

  -- What is split off and what remains are the block that was split.
  pub split_blocks-held :
      (μ : Measure) (rounds requested address : ℕ) (fl : FreeLists)
      → requested + rounds < max_buddy_orders
      → Fits base total (requested + rounds) address
      → held μ max_buddy_orders (split_blocks rounds requested address fl)
          + μ.size address (pages_for_order requested)
        ≡ held μ max_buddy_orders fl + μ.size address (pages_for_order (requested + rounds))
  unfolding split_blocks
  split_blocks-held μ zero requested address fl h fit = rw add-zero
  split_blocks-held μ (suc rounds) requested address fl h fit =
      let order = requested + rounds in
      let whole = whole_block requested rounds address fit in
      let low = lower-Fits base total order address whole in
      rw (buddy_exact order address whole, add-suc)
        (omega (
          arith,
          split_blocks-held μ rounds requested address
              (push_block fl order (address + pages_for_order order * page_size)) (omega arith) low,
          held-push_block μ max_buddy_orders order (address + pages_for_order order * page_size) fl,
          Fits-bounds base total order address range low,
          range.base_pos,
          ap (μ.size address) (pages_for_order-suc order),
          μ.additive address (pages_for_order order) (pages_for_order order),
        ))
