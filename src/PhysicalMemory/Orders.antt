-- ===== src/PhysicalMemory/Orders.antt =====
-- The block sizes of PhysicalMemoryManager.cpp: PagesForOrder, FloorLog2Pages, CeilLog2Pages.
use native.Mathlib.Numerals.{add-one}
use native.Mathlib.Nat.{one-le-pow, two-pow-succ, pow-le-pow_right}
use twisted_os_v.Common.{ℕ, zero, suc, ◌+◌, ◌*◌, ◌≤◌, ◌<◌, ◌≡◌, refl, ap, arith}
use twisted_os_v.PhysicalMemory.{
  pages_for_order, floor_log2_loop, floor_log2_pages, ceil_log2_pages,
}

pub pages_for_order-suc : (k : ℕ) → pages_for_order (suc k) ≡ pages_for_order k + pages_for_order k
unfolding pages_for_order
pages_for_order-suc k = two-pow-succ k

pub pages_for_order-add_one :
    (k : ℕ) → pages_for_order (k + 1) ≡ pages_for_order k + pages_for_order k
pages_for_order-add_one k = rw add-one (pages_for_order-suc k)

pub pages_for_order_pos : (k : ℕ) → 1 ≤ pages_for_order k
unfolding pages_for_order
pages_for_order_pos k = one-le-pow k 2 (omega arith)

pub pages_for_order_mono : (j k : ℕ) → j ≤ k → pages_for_order j ≤ pages_for_order k
unfolding pages_for_order
pages_for_order_mono j k h = pow-le-pow_right (omega arith) h

pub pages_for_order_top : pages_for_order 52 ≡ 0x10_0000_0000_0000
unfolding pages_for_order
pages_for_order_top = refl

pub pages_for_order_51 : pages_for_order 51 ≡ 0x8_0000_0000_0000
unfolding pages_for_order
pages_for_order_51 = refl

-- The loop stops at the largest order whose block is no larger than the request.
floor_log2_loop_bounds :
    (rounds order pages : ℕ)
    → order + rounds ≡ 52
    → pages_for_order order ≤ pages
    → pages < pages_for_order 52
    → (pages_for_order (floor_log2_loop rounds order pages) ≤ pages)
      × (pages < pages_for_order (floor_log2_loop rounds order pages + 1))
unfolding floor_log2_loop
floor_log2_loop_bounds zero order pages e lo hi =
    absurd (omega (arith, ap pages_for_order (let f : order ≡ 52 = omega arith in f)))
floor_log2_loop_bounds (suc rounds) order pages e lo hi =
    ground
      (arith, floor_log2_loop_bounds rounds (order + 1) pages, pages_for_order_mono 52 (order + 1))

-- FloorLog2Pages is the binary logarithm, rounded down, for every page count below 2^52.
pub floor_log2_pages_bounds :
    (pages : ℕ)
    → 0 < pages
    → pages < pages_for_order 52
    → (pages_for_order (floor_log2_pages pages) ≤ pages)
      × (pages < pages_for_order (floor_log2_pages pages + 1))
unfolding floor_log2_pages pages_for_order
floor_log2_pages_bounds pages pos hi = ground (arith, floor_log2_loop_bounds 52 0 pages)

pub pages_for_order_zero : pages_for_order 0 ≡ 1
unfolding pages_for_order
pages_for_order_zero = refl

-- CeilLog2Pages is the least order whose block holds the request, for every request of up to 2^51
-- pages: the block is large enough, and less than twice as large as the request.
pub ceil_log2_pages_bounds :
    (pages : ℕ)
    → 0 < pages
    → pages ≤ pages_for_order 51
    → (pages ≤ pages_for_order (ceil_log2_pages pages))
      × (pages_for_order (ceil_log2_pages pages) < 2 * pages)
unfolding ceil_log2_pages
ceil_log2_pages_bounds pages pos hi = ground (
  arith,
  floor_log2_pages_bounds pages pos,
  pages_for_order_top,
  pages_for_order-add_one 51,
  pages_for_order-add_one (floor_log2_pages pages),
  pages_for_order_mono 52 (floor_log2_pages pages + 1),
  pages_for_order_mono 51 (floor_log2_pages pages),
  pages_for_order_zero,
)
