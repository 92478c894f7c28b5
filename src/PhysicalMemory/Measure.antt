-- ===== src/PhysicalMemory/Measure.antt =====
-- Additive measures of page runs, and what the free lists hold by such a measure.
use twisted_os_v.Common.{
  ℕ, zero, suc, ◌+◌, ◌*◌, ◌≤◌, ◌<◌, ◌≡◌, refl, true, List, [], ◌∷◌, arith, ltb, if◌then◌else◌, leb,
  ◌&&◌,
}
use twisted_os_v.PhysicalMemory.{
  FreeLists, update, page_size, pages_for_order, push_block, remove_block,
}

-- A number for each run of pages, given by its address and its length in pages, that adds up when
-- a run is cut in two.
pub record Measure : Type 0 where
  pub size : ℕ → ℕ → ℕ
  pub additive :
      (address m n : ℕ) → size address (m + n) ≡ size address m + size (address + m * page_size) n

-- The length of the run.
abbrev pub page_count : Measure
page_count = record { size = λ address n. n; additive = λ address m n. refl }

-- 1 if the run holds the byte, else 0.
abbrev pub covers : ℕ → ℕ → ℕ → ℕ
covers byte address n = if leb address byte && ltb byte (address + n * page_size) then 1 else 0

pub covers_additive :
    (byte address m n : ℕ)
    → covers byte address (m + n) ≡ covers byte address m + covers byte (address + m * page_size) n
covers_additive byte address m n = ground arith

abbrev pub coverage : ℕ → Measure
coverage byte = record { size = covers byte; additive = covers_additive byte }

-- The measure of the blocks of one order, and of all orders below `n`.
unfoldable pub weigh : Measure → ℕ → List ℕ → ℕ
weigh μ order [] = 0
weigh μ order (a ∷ l) = μ.size a (pages_for_order order) + weigh μ order l

unfoldable pub held : Measure → ℕ → FreeLists → ℕ
held μ zero fl = 0
held μ (suc n) fl = held μ n fl + weigh μ n (fl n)

module _ (μ : Measure) where
  pub held-update_above :
      (n order : ℕ) (fl : FreeLists) (l : List ℕ)
      → n ≤ order
      → held μ n (update fl order l) ≡ held μ n fl
  unfolding held
  held-update_above zero order fl l h = refl
  held-update_above (suc n) order fl l h = ground (arith, held-update_above n order fl l)

  pub held-update :
      (n order : ℕ) (fl : FreeLists) (l : List ℕ)
      → order < n
      → held μ n (update fl order l) + weigh μ order (fl order) ≡ held μ n fl + weigh μ order l
  unfolding held
  held-update zero order fl l h = absurd (omega arith)
  held-update (suc n) order fl l h =
      ground (arith, held-update n order fl l, held-update_above n order fl l)

  -- Linking a block in adds its measure.
  pub held-push_block :
      (n order address : ℕ) (fl : FreeLists)
      → order < n
      → 0 < address
      → held μ n (push_block fl order address)
        ≡ held μ n fl + μ.size address (pages_for_order order)
  unfolding push_block weigh
  held-push_block n order address fl h pos =
      ground (arith, held-update n order fl (address ∷ fl order))

  -- Unlinking a block that is there takes its measure away.
  pub weigh-remove_block :
      (order address : ℕ) (l : List ℕ)
      → (remove_block address l).1 ≡ true
      → weigh μ order l
        ≡ μ.size address (pages_for_order order) + weigh μ order (remove_block address l).0
  unfolding remove_block weigh
  weigh-remove_block order address [] h = ground arith
  weigh-remove_block order address (a ∷ l) h = ground (arith, weigh-remove_block order address l)

  -- Empty lists hold nothing.
  pub held-empty : (n : ℕ) → held μ n (λ order. []) ≡ 0
  unfolding held weigh
  held-empty zero = refl
  held-empty (suc n) = omega (arith, held-empty n)
