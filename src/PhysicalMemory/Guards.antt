-- ===== src/PhysicalMemory/Guards.antt =====
-- The guards of FreePagesFromDescriptor of PhysicalMemoryManager.cpp, and the way back of a block.
use native.Mathlib.Nat.{mul-mod_left, div-add-mod'}
use twisted_os_v.PhysicalMemory.Free.{free_order-Returned}
use twisted_os_v.PhysicalMemory.Alloc.{
  Granted, allocate_pages_from_descriptor-outcome, allocate_pages_from_descriptor-zero,
}
use twisted_os_v.Common.{
  ℕ, ◌+◌, ◌*◌, ◌-◌, ◌/◌, ◌%◌, ◌≤◌, ◌<◌, ◌≡◌, ◌≢◌, inl, inr, refl, ap, arith, true,
}
use twisted_os_v.Common.Words.{u64}
use twisted_os_v.PhysicalMemory.{
  PhysicalMemoryManager, page_size, max_buddy_orders, pages_for_order, free_order, ceil_log2_pages,
  is_address_in_managed_range, free_pages_from_descriptor, allocate_pages_from_descriptor,
}
use twisted_os_v.PhysicalMemory.Orders.{
  pages_for_order_51, pages_for_order_mono, pages_for_order_pos,
}
use twisted_os_v.PhysicalMemory.Measure.{Measure, page_count, held}
use twisted_os_v.PhysicalMemory.Sound.{Fits, IsSound}

module _ (p : PhysicalMemoryManager) (address pages : ℕ) (sound : IsSound p) where
  open p.descriptor_info use {physical_address_start as base, total_number_of_pages as total}

  exact_end : u64 (base + u64 (total * page_size)) ≡ base + total * page_size
  exact_end = omega (arith, sound.range.no_wrap)

  -- The guards let a block pass that is in its place.
  pub Fits-guards :
      pages ≢ 0
      → ceil_log2_pages pages ≤ p.buddy_max_order
      → Fits base total (ceil_log2_pages pages) address
      → free_pages_from_descriptor p address pages
        ≡ (true, free_order p address (ceil_log2_pages pages))
  unfolding free_pages_from_descriptor is_address_in_managed_range
  Fits-guards some_pages small fit =
      let size = pages_for_order (ceil_log2_pages pages) in
      let start : (address - base) / page_size ≡ fit.index * size = omega (arith, fit.placed) in
      let exact : u64 (fit.index * size + size) ≡ fit.index * size + size =
        omega (arith, fit.inside, sound.range.no_wrap) in
      rw (exact_end, start, exact, mul-mod_left fit.index size)
        (ground (
          arith,
          sound.range.base_pos,
          sound.ready,
          fit.inside,
          fit.placed,
          pages_for_order_pos (ceil_log2_pages pages),
        ))

  -- What a call that returns true has passed.
  passed_guards :
      (free_pages_from_descriptor p address pages).0 ≡ true
      → (pages ≢ 0)
        × (ceil_log2_pages pages ≤ p.buddy_max_order)
        × (base ≤ address)
        × (address < base + total * page_size)
        × ((address - base) % page_size ≡ 0)
        × (u64 ((address - base) / page_size + pages_for_order (ceil_log2_pages pages)) ≤ total)
        × ((address - base) / page_size % pages_for_order (ceil_log2_pages pages) ≡ 0)
  unfolding free_pages_from_descriptor is_address_in_managed_range
  passed_guards h = ground (arith, exact_end, h)

  -- A block that the guards let pass is in its place.
  pub guards-Fits :
      (free_pages_from_descriptor p address pages).0 ≡ true
      → (pages ≢ 0)
        × (ceil_log2_pages pages ≤ p.buddy_max_order)
        × Fits base total (ceil_log2_pages pages) address
  guards-Fits h =
      let (some_pages, small, above, below, page, end, aligned) = passed_guards h in
      let size = pages_for_order (ceil_log2_pages pages) in
      let start = (address - base) / page_size in
      let whole : start / size * size ≡ start = omega (arith, div-add-mod' start size, aligned) in
      let exact : u64 (start + size) ≡ start + size = omega (
        arith,
        sound.range.no_wrap,
        sound.max_order,
        pages_for_order_mono (ceil_log2_pages pages) 51,
        pages_for_order_51,
      ) in
      (
        some_pages,
        small,
        record {
          index = start / size;
          placed = omega (arith, whole);
          inside = omega (arith, whole, exact, end);
        },
      )

-- A call that gives back some pages, of a managed order, at the place of a block of that order.
abbrev pub IsReleasable : PhysicalMemoryManager → (address pages : ℕ) → Type 0
IsReleasable p address pages =
    (pages ≢ 0)
    × (ceil_log2_pages pages ≤ p.buddy_max_order)
    × Fits p.descriptor_info.physical_address_start p.descriptor_info.total_number_of_pages
        (ceil_log2_pages pages) address

given_back :
    (p : PhysicalMemoryManager) (pages : ℕ) (r : ℕ × PhysicalMemoryManager)
    → IsSound p
    → Granted p (ceil_log2_pages pages) r
    → pages ≢ 0
    → let (done, back) = free_pages_from_descriptor r.1 r.0 pages in
      (done ≡ true)
      × IsSound back
      × (back.descriptor_info.number_of_free_pages ≡ p.descriptor_info.number_of_free_pages)
      × ((μ : Measure)
          → held μ max_buddy_orders back.buddy_free_lists
            ≡ held μ max_buddy_orders p.buddy_free_lists)
given_back p pages r sound granted some_pages =
    let order = ceil_log2_pages pages in
    let fit : Fits r.1.descriptor_info.physical_address_start
        r.1.descriptor_info.total_number_of_pages order r.0 =
      rw (granted.base, granted.total) granted.block in
    let small : order ≤ r.1.buddy_max_order = omega (arith, granted.small, granted.max_order) in
    let count : r.1.descriptor_info.number_of_free_pages + pages_for_order order
        ≡ p.descriptor_info.number_of_free_pages =
      omega (arith, granted.conserved page_count, granted.sound.counted, sound.counted) in
    let room : r.1.descriptor_info.number_of_free_pages + pages_for_order order
        ≤ r.1.descriptor_info.total_number_of_pages =
      omega (arith, count, sound.bounded, granted.total) in
    let returned = free_order-Returned r.1 granted.sound order r.0 small fit room in
    rw (Fits-guards r.1 r.0 pages granted.sound some_pages small fit) (
      refl,
      returned.sound,
      omega (arith, returned.free_pages, count),
      λ μ. omega (arith, returned.conserved μ, granted.conserved μ),
    )

-- Whatever AllocatePagesFromDescriptor grants can be given back with the same number of pages: the
-- call returns true, the allocator keeps the invariant, and the number of free pages and, by every
-- measure, the free lists are what they were before the allocation.
pub free-allocate :
    (p : PhysicalMemoryManager) (pages : ℕ)
    → IsSound p
    → (allocate_pages_from_descriptor p pages).0 ≢ 0
    → let (address, q) = allocate_pages_from_descriptor p pages in
      let (done, back) = free_pages_from_descriptor q address pages in
      (done ≡ true)
      × IsSound back
      × (back.descriptor_info.number_of_free_pages ≡ p.descriptor_info.number_of_free_pages)
      × ((μ : Measure)
          → held μ max_buddy_orders back.buddy_free_lists
            ≡ held μ max_buddy_orders p.buddy_free_lists)
free-allocate p pages sound success = elim (allocate_pages_from_descriptor-outcome p pages sound) [
  | inr (failed, _) ↦ absurd (success (ap (λ r. r.0) failed))
  | inl granted ↦
      given_back p pages (allocate_pages_from_descriptor p pages) sound granted λ none_asked.
        success (rw none_asked (ap (λ r. r.0) (allocate_pages_from_descriptor-zero p)))
]
