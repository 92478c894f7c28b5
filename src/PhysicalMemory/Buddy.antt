-- ===== src/PhysicalMemory/Buddy.antt =====
-- The buddy of a block, as FreePagesFromDescriptor of PhysicalMemoryManager.cpp finds it.
use twisted_os_v.Common.{
  ℕ, ◌+◌, ◌*◌, ◌-◌, ◌/◌, ◌%◌, ◌≤◌, ◌≡◌, ◌⊎◌, inl, inr, refl, sym, ap, subst, ◌∙◌, arith, ltb,
  Bool-cases, ◌==◌, if◌then◌else◌,
}
use twisted_os_v.Common.Bits.{bit_xor_set, bit_xor_clear}
use twisted_os_v.PhysicalMemory.{page_size, pages_for_order, buddy_index}
use twisted_os_v.PhysicalMemory.Orders.{pages_for_order-add_one, pages_for_order_pos}
use twisted_os_v.PhysicalMemory.Measure.{Measure}
use twisted_os_v.PhysicalMemory.Sound.{Fits, Range, joined-Fits}

-- The lower of the two addresses, which the loop goes on with.
abbrev pub lower_address : ℕ → ℕ → ℕ
lower_address buddy address = if ltb buddy address then buddy else address

-- A block and its buddy are the two halves of a block of the next order.
pub record Joined (base total order address buddy : ℕ) : Type 0 where
  pub fits : Fits base total (order + 1) (lower_address buddy address)
  pub sizes :
      (μ : Measure)
      → μ.size (lower_address buddy address) (pages_for_order (order + 1))
        ≡ μ.size address (pages_for_order order) + μ.size buddy (pages_for_order order)

parity : (i : ℕ) → ((m : ℕ) × (i ≡ 2 * m)) ⊎ ((m : ℕ) × (i ≡ 2 * m + 1))
parity i = elim (Bool-cases (i % 2 == 0)) [
  | inl even ↦ inl (i / 2, ground arith)
  | inr odd ↦ inr (i / 2, ground arith)
]

doubled_size :
    (μ : Measure) (order low : ℕ)
    → μ.size low (pages_for_order (order + 1))
      ≡ μ.size low (pages_for_order order)
        + μ.size (low + pages_for_order order * page_size) (pages_for_order order)
doubled_size μ order low = rw (pages_for_order-add_one order) (μ.additive low _ _)

module _ (base total order address : ℕ) (fit : Fits base total order address) where
  page_index : (address - base) / page_size ≡ fit.index * pages_for_order order
  page_index = omega (arith, fit.placed)

  buddy_index-even :
      (m : ℕ)
      → fit.index ≡ 2 * m
      → buddy_index base address order ≡ fit.index * pages_for_order order + pages_for_order order
  unfolding buddy_index pages_for_order
  buddy_index-even m e = rw (page_index, e) (bit_xor_set order m)

  buddy_index-odd :
      (m : ℕ)
      → fit.index ≡ 2 * m + 1
      → buddy_index base address order ≡ 2 * m * pages_for_order order
  unfolding buddy_index pages_for_order
  buddy_index-odd m e = rw (page_index, e) (bit_xor_clear order m)

  Joined-even :
      (m buddy : ℕ)
      → fit.index ≡ 2 * m
      → fit.index * pages_for_order order + 2 * pages_for_order order ≤ total
      → buddy ≡ address + pages_for_order order * page_size
      → Joined base total order address buddy
  Joined-even m buddy e inside at =
      let low : lower_address buddy address ≡ address = ground (arith, pages_for_order_pos order) in
      record {
        fits =
            subst (Fits base total (order + 1)) (sym low)
              (joined-Fits base total order address fit m e inside);
        sizes = λ μ.
            ap (λ a. μ.size a (pages_for_order (order + 1))) low
            ∙ rw at (doubled_size μ order address);
      }

  Joined-odd :
      (m buddy : ℕ)
      → fit.index ≡ 2 * m + 1
      → buddy ≡ base + 2 * m * pages_for_order order * page_size
      → Joined base total order address buddy
  Joined-odd m buddy e at =
      let next : (2 * m + 1) * pages_for_order order
          ≡ 2 * m * pages_for_order order + pages_for_order order =
        omega arith in
      let placed = ap (λ i. i * pages_for_order order) e ∙ next in
      let upper : address ≡ buddy + pages_for_order order * page_size =
        omega (arith, fit.placed, placed) in
      let low : lower_address buddy address ≡ buddy = ground (arith, pages_for_order_pos order) in
      let half : Fits base total order buddy = record {
        index = 2 * m;
        placed = at;
        inside = omega (arith, fit.inside, placed);
      } in
      record {
        fits =
            subst (Fits base total (order + 1)) (sym low)
              (joined-Fits base total order buddy half m refl (omega (arith, fit.inside, placed)));
        sizes = λ μ.
            ap (λ a. μ.size a (pages_for_order (order + 1))) low
            ∙ doubled_size μ order buddy
            ∙ rw upper (omega arith);
      }

-- The buddy whose pages lie in the range is the other half.
pub buddy-Joined :
    (base total order address : ℕ)
    → Range base total
    → Fits base total order address
    → buddy_index base address order + pages_for_order order ≤ total
    → Joined base total order address (base + buddy_index base address order * page_size)
buddy-Joined base total order address range fit inside = elim (parity fit.index) [
  | inl (m, e) ↦
      let index = buddy_index-even base total order address fit m e in
      Joined-even base total order address fit m _ e (omega (arith, inside, index))
        (omega (arith, index, fit.placed))
  | inr (m, e) ↦
      let index = buddy_index-odd base total order address fit m e in
      Joined-odd base total order address fit m _ e (omega (arith, index))
]

-- The index of the buddy of a block in the range is at most the number of pages.
pub buddy_index-le :
    (base total order address : ℕ)
    → Fits base total order address
    → buddy_index base address order ≤ total
buddy_index-le base total order address fit = elim (parity fit.index) [
  | inl (m, e) ↦ omega (arith, fit.inside, buddy_index-even base total order address fit m e)
  | inr (m, e) ↦ omega (
    arith,
    fit.inside,
    buddy_index-odd base total order address fit m e,
    ap (λ i. i * pages_for_order order) e,
  )
]
