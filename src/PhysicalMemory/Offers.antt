-- ===== src/PhysicalMemory/Offers.antt =====
-- What the descriptors of the memory map offer InitializeMemoryDescriptors of
-- PhysicalMemoryManager.cpp, and that its candidates are just that.
use twisted_os_v.Common.{
  ℕ, ◌+◌, ◌*◌, ◌≤◌, ◌<◌, ◌≡◌, ◌≢◌, arith, List, [], ◌∷◌, Option, none, some, ◌==◌, ltb, Bool-cases,
  inl, inr, All, ◌⊎◌, ◌/◌, ◌-◌, leb, if◌then◌else◌,
}
use twisted_os_v.Common.Words.{u64, u64_limit}
use twisted_os_v.PhysicalMemory.{
  PhysicalMemoryManager, EfiMemoryDescriptor, page_size, pmm_buddy_physical_limit,
  efi_conventional_memory,
}
use twisted_os_v.PhysicalMemory.Boot.{candidate}

-- No descriptor of the map, and no rest of the current one, reaches past the end of the address
-- space.
pub record MapFits (p : PhysicalMemoryManager) : Type 0 where
  pub rest : p.next_page_address + p.remaining_pages_in_descriptor * page_size < u64_limit
  pub descriptors :
      All (λ d. d.physical_start + d.number_of_pages * page_size < u64_limit) p.memory_map

-- The whole pages of `count` pages from `base` that end at the physical limit at the latest.
abbrev pub CutOff : (base count start pages : ℕ) → Type 0
CutOff base count start pages =
    (start ≡ base)
    × (base < pmm_buddy_physical_limit)
    × (pages ≤ count)
    × (base + pages * page_size ≤ pmm_buddy_physical_limit)
    × ((pages ≡ count) ⊎ (pmm_buddy_physical_limit < base + (pages + 1) * page_size))

-- What descriptor `i` has to offer: nothing unless it is conventional memory, nothing if the boot used it
-- up, what the boot left of it if that is the current one, and else all of it, below the limit.
abbrev pub Offers : PhysicalMemoryManager → ℕ → EfiMemoryDescriptor → (start pages : ℕ) → Type 0
Offers p i d start pages =
    (d.type ≡ efi_conventional_memory)
    × (((i ≡ p.current_descriptor)
          × (p.remaining_pages_in_descriptor ≢ 0)
          × CutOff p.next_page_address p.remaining_pages_in_descriptor start pages)
        ⊎ ((p.current_descriptor < i) × CutOff d.physical_start d.number_of_pages start pages))

-- A descriptor of the map, from descriptor `i` on, offers the range.
abbrev pub Chosen :
    PhysicalMemoryManager → ℕ → List EfiMemoryDescriptor → (start pages : ℕ) → Type 0
Chosen p i [] start pages = ⊥
Chosen p i (d ∷ map) start pages = Offers p i d start pages ⊎ Chosen p (i + 1) map start pages

-- No descriptor of the map, from descriptor `i` on, offers more than `total` pages.
abbrev pub NoneLarger : PhysicalMemoryManager → ℕ → List EfiMemoryDescriptor → ℕ → Type 0
NoneLarger p i [] total = Unit
NoneLarger p i (d ∷ map) total =
    ((start pages : ℕ) → Offers p i d start pages → pages ≤ total) × NoneLarger p (i + 1) map total

-- The end of a candidate that starts below the limit.
abbrev cut : (base count : ℕ) → Option (ℕ × ℕ)
cut base count =
    let fitting = (pmm_buddy_physical_limit - base) / page_size in
    if leb pmm_buddy_physical_limit base
    then none
    else if ltb pmm_buddy_physical_limit (u64 (base + u64 (count * page_size)))
    then (if fitting == 0 then none else some (base, fitting))
    else some (base, count)

cut-CutOff :
    (base count start pages : ℕ)
    → base + count * page_size < u64_limit
    → cut base count ≡ some (start, pages)
    → CutOff base count start pages
cut-CutOff base count start pages fits h = (
  ground arith,
  ground arith,
  ground arith,
  ground arith,
  elim (Bool-cases (ltb pmm_buddy_physical_limit (u64 (base + u64 (count * page_size))))) [
    | inl over ↦ inr (ground arith)
    | inr under ↦ inl (ground arith)
  ],
)

cut-cutoff :
    (base count start pages : ℕ)
    → base + count * page_size < u64_limit
    → pages ≢ 0
    → CutOff base count start pages
    → cut base count ≡ some (start, pages)
cut-cutoff base count start pages fits some_pages (first, low, few, end, most) = ground arith

-- A candidate is what its descriptor offers.
pub candidate-Offers :
    (p : PhysicalMemoryManager) (i : ℕ) (d : EfiMemoryDescriptor) (start pages : ℕ)
    → p.next_page_address + p.remaining_pages_in_descriptor * page_size < u64_limit
    → d.physical_start + d.number_of_pages * page_size < u64_limit
    → candidate p i d ≡ some (start, pages)
    → Offers p i d start pages
unfolding candidate
candidate-Offers p i d start pages rest fits h =
    let conventional : d.type ≡ efi_conventional_memory = ground arith in
    elim (Bool-cases (i == p.current_descriptor)) [
      | inl same ↦ (
        conventional,
        inl (
          ground arith,
          ground arith,
          cut-CutOff p.next_page_address p.remaining_pages_in_descriptor start pages rest
              (ground arith),
        ),
      )
      | inr other ↦ (
        conventional,
        inr (
          ground arith,
          cut-CutOff d.physical_start d.number_of_pages start pages fits (ground arith),
        ),
      )
    ]

-- What a descriptor offers, if that is a page or more, is its candidate.
pub candidate-offered :
    (p : PhysicalMemoryManager) (i : ℕ) (d : EfiMemoryDescriptor) (start pages : ℕ)
    → p.next_page_address + p.remaining_pages_in_descriptor * page_size < u64_limit
    → d.physical_start + d.number_of_pages * page_size < u64_limit
    → pages ≢ 0
    → Offers p i d start pages
    → candidate p i d ≡ some (start, pages)
unfolding candidate
candidate-offered p i d start pages rest fits some_pages (conventional, inl (same, left, range)) =
    let made =
      cut-cutoff p.next_page_address p.remaining_pages_in_descriptor start pages rest some_pages
        range in
    ground arith
candidate-offered p i d start pages rest fits some_pages (conventional, inr (later, range)) =
    let made = cut-cutoff d.physical_start d.number_of_pages start pages fits some_pages range in
    ground arith

pub Offers-below :
    (p : PhysicalMemoryManager) (i : ℕ) (d : EfiMemoryDescriptor) (start pages : ℕ)
    → Offers p i d start pages
    → start + pages * page_size ≤ pmm_buddy_physical_limit
Offers-below p i d start pages (_, inl (_, _, (first, _, _, end, _))) = omega (arith, first, end)
Offers-below p i d start pages (_, inr (_, (first, _, _, end, _))) = omega (arith, first, end)
