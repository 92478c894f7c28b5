-- ===== src/PhysicalMemory/Largest.antt =====
-- InitializeMemoryDescriptors of PhysicalMemoryManager.cpp: the choice of the managed range, and the
-- allocator that it starts.
use twisted_os_v.Common.{
  ℕ, ◌+◌, ◌*◌, ◌≤◌, ◌<◌, ◌≡◌, ◌≢◌, refl, ap, sym, subst, ◌∙◌, false, arith, List, [], ◌∷◌, Option,
  none, some, ◌==◌, ltb, Bool-cases, inl, inr, All, ◌⊎◌,
}
use twisted_os_v.Common.Words.{u64_limit}
use twisted_os_v.PhysicalMemory.{
  PhysicalMemoryManager, EfiMemoryDescriptor, MemoryDescriptor, page_size, max_buddy_orders,
  pmm_buddy_physical_limit, floor_log2_pages,
}
use twisted_os_v.PhysicalMemory.Orders.{
  floor_log2_pages_bounds, pages_for_order_mono, pages_for_order_top,
}
use twisted_os_v.PhysicalMemory.Measure.{Measure, held, held-empty, page_count}
use twisted_os_v.PhysicalMemory.Sound.{IsSound, Range}
use twisted_os_v.PhysicalMemory.Offers.{
  MapFits, Chosen, NoneLarger, Offers, candidate-Offers, candidate-offered, Offers-below,
}
use twisted_os_v.PhysicalMemory.Boot.{
  no_memory, candidate, consider, largest_candidate, carve_blocks, initialize_buddy_allocator,
  initialize_memory_descriptors,
}
use twisted_os_v.PhysicalMemory.Carve.{carve_blocks-held}

-- A range below the physical limit, all of it free.
pub record BelowLimit (m : MemoryDescriptor) : Type 0 where
  pub end :
      m.physical_address_start + m.total_number_of_pages * page_size ≤ pmm_buddy_physical_limit
  pub all_free : m.number_of_free_pages ≡ m.total_number_of_pages

-- One candidate considered.
consider_lem :
    (c : Option (ℕ × ℕ)) (best : MemoryDescriptor)
    → ((start pages : ℕ)
        → c ≡ some (start, pages)
        → start + pages * page_size ≤ pmm_buddy_physical_limit)
    → BelowLimit best
    → BelowLimit (consider c best)
      × (best.total_number_of_pages ≤ (consider c best).total_number_of_pages)
      × ((start pages : ℕ)
          → c ≡ some (start, pages)
          → pages ≤ (consider c best).total_number_of_pages)
      × ((consider c best ≡ best)
          ⊎ (c
              ≡ some (
                (consider c best).physical_address_start,
                (consider c best).total_number_of_pages,
              )))
unfolding consider
consider_lem none best end below = (below, omega arith, (λ start pages e. cc), inl refl)
consider_lem (some (start, pages)) best end below =
    let fits = end start pages refl in
    elim (Bool-cases (ltb best.total_number_of_pages pages)) [
      | inl more ↦ rw more (
        record { end = fits; all_free = refl },
        ground arith,
        (λ start' pages' e. ground arith),
        inr refl,
      )
      | inr fewer ↦ rw fewer (below, omega arith, (λ start' pages' e. ground arith), inl refl)
    ]

largest_candidate_lem :
    (p : PhysicalMemoryManager) (i : ℕ) (map : List EfiMemoryDescriptor) (best : MemoryDescriptor)
    → p.next_page_address + p.remaining_pages_in_descriptor * page_size < u64_limit
    → All (λ d. d.physical_start + d.number_of_pages * page_size < u64_limit) map
    → BelowLimit best
    → BelowLimit (largest_candidate p i map best)
      × (best.total_number_of_pages ≤ (largest_candidate p i map best).total_number_of_pages)
      × NoneLarger p i map (largest_candidate p i map best).total_number_of_pages
      × ((largest_candidate p i map best ≡ best)
          ⊎ Chosen p i map
              (largest_candidate p i map best).physical_address_start
              (largest_candidate p i map best).total_number_of_pages)
unfolding largest_candidate
largest_candidate_lem p i [] best rest fits below = (below, omega arith, tt, inl refl)
largest_candidate_lem p i (d ∷ map) best rest fits below =
    let offers = λ (start : ℕ) (pages : ℕ). candidate-Offers p i d start pages rest fits.0 in
    let (below', grows, covers, made) =
      consider_lem (candidate p i d) best
        (λ start pages e. Offers-below p i d start pages (offers start pages e)) below in
    let (end, grows', none_larger, chosen) =
      largest_candidate_lem p (i + 1) map (consider (candidate p i d) best) rest fits.1 below' in
    (
      end,
      omega (arith, grows, grows'),
      (
        (λ start pages offered. elim (Bool-cases (pages == 0)) [
          | inl empty ↦ ground (arith, empty)
          | inr filled ↦
              let found =
                candidate-offered p i d start pages rest fits.0 (ground (arith, filled)) offered in
              omega (arith, covers start pages found, grows')
        ]),
        none_larger,
      ),
      elim chosen [
        | inr behind ↦ inr (inr behind)
        | inl same ↦ elim made [
          | inl kept ↦ inl (same ∙ kept)
          | inr taken ↦ inr (
              inl (
                subst (λ m. Offers p i d m.physical_address_start m.total_number_of_pages)
                  (sym same) (offers _ _ taken)))
        ]
      ],
    )

-- InitializeBuddyAllocator on a range below the limit, all of it free.
initialize_buddy_allocator-IsSound :
    (p : PhysicalMemoryManager)
    → BelowLimit p.descriptor_info
    → p.descriptor_info.total_number_of_pages ≢ 0
    → p.descriptor_info.physical_address_start ≢ 0
    → let q = initialize_buddy_allocator p in
      IsSound q
      × ((μ : Measure)
          → held μ max_buddy_orders q.buddy_free_lists
            ≡ μ.size p.descriptor_info.physical_address_start
                p.descriptor_info.total_number_of_pages)
unfolding initialize_buddy_allocator
initialize_buddy_allocator-IsSound p below some_pages some_base =
    let info = p.descriptor_info in
    let total = info.total_number_of_pages in
    let base = info.physical_address_start in
    let max = floor_log2_pages total in
    let range : Range base total = record {
      base_pos = omega arith;
      no_wrap = omega (arith, below.end);
    } in
    let (fits, same) =
      carve_blocks-held base total range total total 0 (λ order. []) (omega arith) (omega arith)
        (λ k. tt) in
    let nonzero : (total == 0) ≡ false = ground arith in
    let start : base + 0 * page_size ≡ base = omega arith in
    let all : (μ : Measure)
        → held μ max_buddy_orders (carve_blocks total base total 0 (λ order. []))
          ≡ μ.size base total =
      λ μ. omega (arith, same μ, held-empty μ max_buddy_orders, ap (λ a. μ.size a total) start) in
    rw nonzero (
      record {
        range = range;
        max_order = grind (
          arith,
          floor_log2_pages_bounds total,
          pages_for_order_mono 52 max,
          pages_for_order_top,
          below.end,
        );
        fits = fits;
        counted = omega (arith, all page_count, below.all_free);
        bounded = omega (arith, below.all_free);
        ready = some_base;
      },
      all,
    )

-- It keeps the range that it is given.
initialize_buddy_allocator-range :
    (p : PhysicalMemoryManager)
    → let q = initialize_buddy_allocator p in
      (q.descriptor_info.physical_address_start ≡ p.descriptor_info.physical_address_start)
      × (q.descriptor_info.total_number_of_pages ≡ p.descriptor_info.total_number_of_pages)
unfolding initialize_buddy_allocator
initialize_buddy_allocator-range p =
    elim (Bool-cases (p.descriptor_info.total_number_of_pages == 0)) [
      | inl e ↦ rw e (refl, refl)
      | inr e ↦ rw e (refl, refl)
    ]

-- InitializeMemoryDescriptors, on a map that does not reach past the address space: the managed range
-- is what a conventional descriptor offers that the boot has not used up, of the current one just what
-- is left of it, cut off at the physical limit, or there is no page to manage; no descriptor offers more;
-- and unless there is no page to manage or the range starts at address 0, the allocator satisfies its
-- invariant and its free lists hold, by every measure, just the pages of the range.
pub initialize_memory_descriptors-IsSound :
    (p : PhysicalMemoryManager)
    → MapFits p
    → let q = initialize_memory_descriptors p in
      let info = q.descriptor_info in
      (info.physical_address_start + info.total_number_of_pages * page_size
        ≤ pmm_buddy_physical_limit)
      × ((info.total_number_of_pages ≡ 0)
          ⊎ Chosen p 0 p.memory_map info.physical_address_start info.total_number_of_pages)
      × NoneLarger p 0 p.memory_map info.total_number_of_pages
      × (info.total_number_of_pages ≢ 0
          → info.physical_address_start ≢ 0
          → IsSound q
            × ((μ : Measure)
                → held μ max_buddy_orders q.buddy_free_lists
                  ≡ μ.size info.physical_address_start info.total_number_of_pages))
unfolding initialize_memory_descriptors
initialize_memory_descriptors-IsSound p fits =
    let m = largest_candidate p 0 p.memory_map no_memory in
    let p' = record p { descriptor_info = m } in
    let (below, _, none_larger, chosen) =
      largest_candidate_lem p 0 p.memory_map no_memory fits.rest fits.descriptors
        (record { end = omega arith; all_free = refl }) in
    let (base, total) = initialize_buddy_allocator-range p' in
    (
      omega (arith, base, total, below.end),
      elim chosen [
        | inl empty ↦ inl (total ∙ ap (λ m. m.total_number_of_pages) empty)
        | inr offered ↦ inr (rw (base, total) offered)
      ],
      rw total none_larger,
      λ some_pages some_base.
          let (sound, all) =
            initialize_buddy_allocator-IsSound p' below (λ e. some_pages (total ∙ e))
              (λ e. some_base (base ∙ e)) in
          (sound, λ μ. all μ ∙ sym (same_size μ base total)),
    )
  where
    same_size : (μ : Measure) {a b m n : ℕ} → a ≡ b → m ≡ n → μ.size a m ≡ μ.size b n
    same_size μ e f = rw (e, f)
