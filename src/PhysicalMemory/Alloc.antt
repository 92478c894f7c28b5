-- ===== src/PhysicalMemory/Alloc.antt =====
-- AllocatePagesFromDescriptor of PhysicalMemoryManager.cpp keeps the invariant and loses no page.
use twisted_os_v.Common.{
  ℕ, zero, suc, ◌+◌, ◌-◌, ◌≤◌, ◌<◌, ◌≡◌, ◌⊎◌, refl, inl, inr, [], ◌∷◌, List, All, arith, true,
  false, ltb, ltb→lt, ◌==◌, Bool-cases, ap, subst,
}
use twisted_os_v.PhysicalMemory.{
  PhysicalMemoryManager, FreeLists, max_buddy_orders, pages_for_order, update, is_empty, find_order,
  split_blocks, take_block, alloc_order, ceil_log2_pages, allocate_pages_from_descriptor,
}
use twisted_os_v.PhysicalMemory.Measure.{Measure, held, weigh, held-update, page_count}
use twisted_os_v.PhysicalMemory.Split.{split_blocks-AllFit, split_blocks-held}
use twisted_os_v.PhysicalMemory.Sound.{Fits, IsSound, AllFit-update}

-- The search ends above `max`, or at an order from `order` on whose list is not empty.
find_order-found :
    (rounds order max : ℕ) (fl : FreeLists)
    → rounds + order ≡ max + 1
    → find_order rounds order fl ≤ max
    → (order ≤ find_order rounds order fl) × (is_empty (fl (find_order rounds order fl)) ≡ false)
unfolding find_order
find_order-found zero order max fl e h = absurd (omega arith)
find_order-found (suc rounds) order max fl e h =
    ground (arith, find_order-found rounds (order + 1) max fl)

-- No list from `order` up to `max` has a block when the search ends above `max`.
find_order-exhausted :
    (rounds order max : ℕ) (fl : FreeLists)
    → rounds + order ≡ max + 1
    → max < find_order rounds order fl
    → (k : ℕ) → order ≤ k
    → k ≤ max
    → is_empty (fl k) ≡ true
unfolding find_order
find_order-exhausted zero order max fl e h k lo hi = absurd (omega arith)
find_order-exhausted (suc rounds) order max fl e h k lo hi =
    elim (Bool-cases (is_empty (fl order))) [
      | inl none_here ↦ elim (Bool-cases (k == order)) [
        | inl here ↦ ground arith
        | inr above ↦
            find_order-exhausted rounds (order + 1) max fl (omega arith) (rw none_here at h) k
              (ground arith) hi
      ]
      | inr some_here ↦ ground arith
    ]

-- A successful allocation: a block of the requested order in its place, an allocator that keeps
-- the invariant, and by every measure the free pages before are those after and the block.
pub record Granted (p : PhysicalMemoryManager) (order : ℕ) (r : ℕ × PhysicalMemoryManager)
    : Type 0 where
  pub small : order ≤ p.buddy_max_order
  pub sound : IsSound r.1
  pub base : r.1.descriptor_info.physical_address_start ≡ p.descriptor_info.physical_address_start
  pub total : r.1.descriptor_info.total_number_of_pages ≡ p.descriptor_info.total_number_of_pages
  pub max_order : r.1.buddy_max_order ≡ p.buddy_max_order
  pub block :
      Fits p.descriptor_info.physical_address_start p.descriptor_info.total_number_of_pages order
        r.0
  pub conserved :
      (μ : Measure)
      → held μ max_buddy_orders p.buddy_free_lists
        ≡ held μ max_buddy_orders r.1.buddy_free_lists + μ.size r.0 (pages_for_order order)

module _ (p : PhysicalMemoryManager) (sound : IsSound p) (requested rounds address : ℕ)
    (rest : List ℕ) (found : p.buddy_free_lists (requested + rounds) ≡ address ∷ rest)
    (small : requested + rounds ≤ p.buddy_max_order) where
  open p.descriptor_info use {physical_address_start as base, total_number_of_pages as total}

  taken-Fits : All (Fits base total (requested + rounds)) (address ∷ rest)
  taken-Fits =
      subst (All (Fits base total (requested + rounds))) found (sound.fits (requested + rounds))

  split_lists : FreeLists
  split_lists =
      split_blocks rounds requested address (update p.buddy_free_lists (requested + rounds) rest)

  split_lists-held :
      (μ : Measure)
      → held μ max_buddy_orders p.buddy_free_lists
        ≡ held μ max_buddy_orders split_lists + μ.size address (pages_for_order requested)
  unfolding split_lists weigh
  split_lists-held μ =
      let order = requested + rounds in
      omega (
        arith,
        sound.max_order,
        split_blocks-held base total sound.range μ rounds requested address
            (update p.buddy_free_lists order rest) (omega (arith, sound.max_order)) taken-Fits.0,
        held-update μ max_buddy_orders order p.buddy_free_lists rest,
        ap (weigh μ order) found,
      )

  enough :
      held page_count max_buddy_orders split_lists + pages_for_order requested
      ≡ p.descriptor_info.number_of_free_pages
  enough = omega (arith, split_lists-held page_count, sound.counted)

  taken : PhysicalMemoryManager
  taken = record p {
    buddy_free_lists = split_lists;
    descriptor_info = record p.descriptor_info {
      number_of_free_pages = p.descriptor_info.number_of_free_pages - pages_for_order requested;
    };
  }

  -- Taking the head of a list that is not empty always succeeds.
  take_block-taken : take_block p requested (requested + rounds) (address ∷ rest) ≡ (address, taken)
  unfolding take_block taken split_lists
  take_block-taken =
      let exact : requested + rounds - requested ≡ rounds = omega arith in
      rw exact (ground (arith, enough))

  taken-Granted : Granted p requested (address, taken)
  unfolding taken split_lists
  taken-Granted =
      let (fits, block) =
        split_blocks-AllFit base total sound.range rounds requested address _
          (AllFit-update base total p.buddy_free_lists (requested + rounds) rest sound.fits
            taken-Fits.1)
          taken-Fits.0 in
      record {
        small = omega arith;
        sound = record {
          range = sound.range;
          max_order = sound.max_order;
          fits = fits;
          counted = omega (arith, enough);
          bounded = omega (arith, sound.bounded);
          ready = sound.ready;
        };
        base = refl;
        total = refl;
        max_order = refl;
        block = block;
        conserved = split_lists-held;
      }

is_empty-false : (l : List ℕ) → is_empty l ≡ false → (a : ℕ) × (rest : List ℕ) × (l ≡ a ∷ rest)
is_empty-false [] h = cc
is_empty-false (a ∷ rest) h = (a, rest, refl)

take_block-Granted :
    (p : PhysicalMemoryManager) (order current : ℕ)
    → IsSound p
    → order ≤ current
    → current ≤ p.buddy_max_order
    → is_empty (p.buddy_free_lists current) ≡ false
    → Granted p order (take_block p order current (p.buddy_free_lists current))
take_block-Granted p order current sound least small full =
    let (a, rest, found) = is_empty-false _ full in
    let exact : order + (current - order) ≡ current = omega arith in
    subst (λ c. Granted p order (take_block p order c (p.buddy_free_lists current))) exact
      (rw found (
        rw (take_block-taken p sound order (current - order) a rest (rw exact found) (omega arith))
          (taken-Granted p sound order (current - order) a rest (rw exact found) (omega arith))))

-- Every list from the order up to the largest order is empty.
abbrev pub NoBlock : PhysicalMemoryManager → ℕ → Type 0
NoBlock p order =
    (k : ℕ) → order ≤ k → k ≤ p.buddy_max_order → is_empty (p.buddy_free_lists k) ≡ true

alloc_order_outcome :
    (p : PhysicalMemoryManager) (order : ℕ)
    → IsSound p
    → order ≤ p.buddy_max_order
    → Granted p order (alloc_order p order) ⊎ ((alloc_order p order ≡ (0, p)) × NoBlock p order)
unfolding alloc_order
alloc_order_outcome p order sound small =
    let max = p.buddy_max_order in
    let fl = p.buddy_free_lists in
    let current = find_order (max + 1 - order) order fl in
    elim (Bool-cases (ltb max current)) [
      | inl above ↦ inr (
        rw above,
        find_order-exhausted (max + 1 - order) order max fl (omega arith) (ltb→lt _ _ above),
      )
      | inr within ↦
          let (least, full) =
            find_order-found (max + 1 - order) order max fl (omega arith) (ground arith) in
          rw within (inl (take_block-Granted p order current sound least (ground arith) full))
    ]

-- The request of no page is refused.
pub allocate_pages_from_descriptor-zero :
    (p : PhysicalMemoryManager) → allocate_pages_from_descriptor p 0 ≡ (0, p)
unfolding allocate_pages_from_descriptor
allocate_pages_from_descriptor-zero p = refl

-- AllocatePagesFromDescriptor on every path, for an allocator that satisfies the invariant: it
-- grants a block of the least sufficient order, or it returns NULL and changes nothing; then the
-- request is for no page, or for more pages than are free, or no list has a block large enough.
pub allocate_pages_from_descriptor-outcome :
    (p : PhysicalMemoryManager) (pages : ℕ)
    → IsSound p
    → Granted p (ceil_log2_pages pages) (allocate_pages_from_descriptor p pages)
      ⊎ ((allocate_pages_from_descriptor p pages ≡ (0, p))
          × ((pages ≡ 0)
              ⊎ (p.descriptor_info.number_of_free_pages < pages)
              ⊎ NoBlock p (ceil_log2_pages pages)))
unfolding allocate_pages_from_descriptor
allocate_pages_from_descriptor-outcome p pages sound = elim (Bool-cases (pages == 0)) [
  | inl empty ↦ rw empty (inr (refl, inl (ground arith)))
  | inr some_pages ↦ rw some_pages (
      rw ready (elim (Bool-cases (ltb free pages)) [
        | inl many ↦ rw many (inr (refl, inr (inl (ltb→lt _ _ many))))
        | inr few ↦ rw few (elim (Bool-cases (ltb p.buddy_max_order order)) [
          | inl large ↦ rw large (inr (refl, inr (inr (λ k lo hi. absurd (ground arith)))))
          | inr small ↦ rw small (elim (alloc_order_outcome p order sound (ground arith)) [
            | inl granted ↦ inl granted
            | inr (same, exhausted) ↦ inr (same, inr (inr exhausted))
          ])
        ])
      ]))
]
  where
    order : ℕ
    order = ceil_log2_pages pages

    free : ℕ
    free = p.descriptor_info.number_of_free_pages

    ready : (p.descriptor_info.bit_map == 0) ≡ false
    ready = ground (arith, sound.ready)
