-- ===== src/PhysicalMemory/Free.antt =====
-- FreePagesFromDescriptor of PhysicalMemoryManager.cpp keeps the invariant and makes up no page.
use twisted_os_v.Common.{
  ℕ, zero, suc, ◌+◌, ◌*◌, ◌-◌, ◌≤◌, ◌<◌, ◌≡◌, inl, inr, refl, arith, ltb, true, false, Bool-cases,
}
use twisted_os_v.Common.Words.{u64}
use twisted_os_v.PhysicalMemory.{
  PhysicalMemoryManager, Merged, page_size, max_buddy_orders, pages_for_order, buddy_index,
  push_block, remove_block, update, merge_buddies, free_order,
}
use twisted_os_v.PhysicalMemory.Measure.{
  Measure, page_count, held, held-update, held-push_block, weigh-remove_block,
}
use twisted_os_v.PhysicalMemory.Sound.{
  Fits, AllFit, Range, IsSound, AllFit-update, push_block-AllFit, remove_block-Fits, Fits-bounds,
}
use twisted_os_v.PhysicalMemory.Buddy.{lower_address, buddy-Joined, buddy_index-le}

-- Where the merging loop is between two rounds: a block in its place, lists of blocks in their
-- places, and by every measure the lists and the block together are what they were at the start.
record Merging (base total max : ℕ) (start m : Merged) : Type 0 where
  block : Fits base total m.order m.address
  lists : AllFit base total m.lists
  order : m.order ≤ max
  same :
      (μ : Measure)
      → held μ max_buddy_orders m.lists + μ.size m.address (pages_for_order m.order)
        ≡ held μ max_buddy_orders start.lists + μ.size start.address (pages_for_order start.order)

module _ (base total max : ℕ) (range : Range base total) (small : max < max_buddy_orders)
    (start : Merged) where
  -- One round that finds the buddy.
  merged_round :
      (m : Merged)
      → Merging base total max start m
      → m.order < max
      → buddy_index base m.address m.order + pages_for_order m.order ≤ total
      → let buddy = base + buddy_index base m.address m.order * page_size in
        (remove_block buddy (m.lists m.order)).1 ≡ true
        → Merging base total max start (record {
          address = lower_address buddy m.address;
          order = m.order + 1;
          lists = update m.lists m.order (remove_block buddy (m.lists m.order)).0;
        })
  merged_round m inv more inside found =
      let buddy = base + buddy_index base m.address m.order * page_size in
      let rest = (remove_block buddy (m.lists m.order)).0 in
      let joined = buddy-Joined base total m.order m.address range inv.block inside in
      record {
        block = joined.fits;
        lists =
            AllFit-update base total m.lists m.order rest inv.lists
              (remove_block-Fits base total m.order buddy (m.lists m.order) (inv.lists m.order));
        order = omega arith;
        same = λ μ. omega (
          arith,
          inv.same μ,
          joined.sizes μ,
          held-update μ max_buddy_orders m.order m.lists rest,
          weigh-remove_block μ m.order buddy (m.lists m.order) found,
        );
      }

  merge_buddies-Merging :
      (rounds : ℕ) (m : Merged)
      → m.order + rounds ≡ max
      → Merging base total max start m
      → Merging base total max start (merge_buddies base total rounds m)
  unfolding merge_buddies
  merge_buddies-Merging zero m e inv = inv
  merge_buddies-Merging (suc rounds) m e inv =
      let index = buddy_index base m.address m.order in
      let pages = pages_for_order m.order in
      let buddy = base + index * page_size in
      let low : index ≤ total = buddy_index-le base total m.order m.address inv.block in
      let exact_end : u64 (index + pages) ≡ index + pages =
        omega (arith, range.no_wrap, inv.block.inside) in
      let exact_buddy : u64 (base + u64 (index * page_size)) ≡ buddy =
        omega (arith, range.no_wrap) in
      rw (exact_end, exact_buddy)
        (elim (Bool-cases (ltb total (index + pages))) [
          | inl outside ↦ rw outside inv
          | inr inside ↦ rw inside (elim (Bool-cases (remove_block buddy (m.lists m.order)).1) [
            | inl found ↦ rw found (
                merge_buddies-Merging rounds _ (omega arith)
                  (merged_round m inv (omega arith) (ground arith) found))
            | inr missing ↦ rw missing inv
          ])
        ])

-- A block that came back: an allocator that keeps the invariant, and by every measure the free
-- pages after are those before and the block.
pub record Returned (p : PhysicalMemoryManager) (order address : ℕ) (q : PhysicalMemoryManager)
    : Type 0 where
  pub sound : IsSound q
  pub free_pages :
      q.descriptor_info.number_of_free_pages
      ≡ p.descriptor_info.number_of_free_pages + pages_for_order order
  pub conserved :
      (μ : Measure)
      → held μ max_buddy_orders q.buddy_free_lists
        ≡ held μ max_buddy_orders p.buddy_free_lists + μ.size address (pages_for_order order)

module _ (p : PhysicalMemoryManager) (sound : IsSound p) (order address : ℕ)
    (small : order ≤ p.buddy_max_order)
    (fit : Fits p.descriptor_info.physical_address_start p.descriptor_info.total_number_of_pages
      order address)
    (room : p.descriptor_info.number_of_free_pages + pages_for_order order
      ≤ p.descriptor_info.total_number_of_pages) where
  open p.descriptor_info use {physical_address_start as base, total_number_of_pages as total}

  start : Merged
  start = record { address = address; order = order; lists = p.buddy_free_lists }

  end : Merged
  end = merge_buddies base total (p.buddy_max_order - order) start

  end-Merging : Merging base total p.buddy_max_order start end
  unfolding start end
  end-Merging =
      merge_buddies-Merging base total p.buddy_max_order sound.range sound.max_order start
        (p.buddy_max_order - order) start (omega arith)
        (record { block = fit; lists = sound.fits; order = small; same = λ μ. refl })

  merged-held :
      (μ : Measure)
      → held μ max_buddy_orders (push_block end.lists end.order end.address)
        ≡ held μ max_buddy_orders p.buddy_free_lists + μ.size address (pages_for_order order)
  unfolding start
  merged-held μ = omega (
    arith,
    end-Merging.same μ,
    held-push_block μ max_buddy_orders end.order end.address end.lists,
    end-Merging.order,
    sound.max_order,
    sound.range.base_pos,
    Fits-bounds base total end.order end.address sound.range end-Merging.block,
  )

  exact_free :
      u64 (p.descriptor_info.number_of_free_pages + pages_for_order order)
      ≡ p.descriptor_info.number_of_free_pages + pages_for_order order
  exact_free = omega (arith, sound.range.no_wrap)

  pub free_order-Returned : Returned p order address (free_order p address order)
  unfolding free_order start end
  free_order-Returned =
      let unclamped : ltb total (p.descriptor_info.number_of_free_pages + pages_for_order order)
          ≡ false =
        ground arith in
      rw (exact_free, unclamped)
        (record {
          sound = record {
            range = sound.range;
            max_order = sound.max_order;
            fits =
                push_block-AllFit base total end.lists end.order end.address end-Merging.lists
                  end-Merging.block;
            counted = omega (arith, merged-held page_count, sound.counted);
            bounded = room;
            ready = sound.ready;
          };
          free_pages = refl;
          conserved = merged-held;
        })
