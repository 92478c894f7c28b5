-- ===== src/KernelHeap/Loops.antt =====
-- The loops of KernelHeapManager.cpp over a run of slabs, and the guards of kfree.
use twisted_os_v.Common.{
  ℕ, zero, suc, ◌+◌, ◌-◌, ◌*◌, ◌≤◌, ◌<◌, ◌≡◌, ◌≢◌, true, false, ◌&&◌, ◌||◌, not, inl, inr, arith,
  ◌==◌, ltb, leb, if◌then◌else◌, Bool-cases,
}
use twisted_os_v.Common.Words.{u64, u64_limit}
use twisted_os_v.KernelHeap.Data.{
  SlabDescriptor, KernelHeapManager, is_free, free_descriptor, put, header_size, slab_page_size,
  allocation_magic,
}
use twisted_os_v.KernelHeap.Slabs.{release_loop}
use twisted_os_v.KernelHeap.Malloc.{large_tail, tail_loop}
use twisted_os_v.KernelHeap.Free.{kfree_header, kfree}

-- The managed range lies in the address space, and a slab that is free has the descriptor of one.
pub record IsHeap (m : KernelHeapManager) : Type 0 where
  pub managed : m.managed_heap_size ≢ 0
  pub start : 0 < m.heap_start
  pub inside : m.heap_start + m.slab_count * slab_page_size < u64_limit
  pub few : m.slab_count ≤ 8192
  pub reset : (i : ℕ) → is_free (m.slabs i).state ≡ true → m.slabs i ≡ free_descriptor

pub tail_loop_lem :
    (remaining index head : ℕ) (slabs : ℕ → SlabDescriptor) (i : ℕ)
    → tail_loop remaining index head slabs i
      ≡ (if leb index i && ltb i (index + remaining) then large_tail head else slabs i)
unfolding tail_loop
tail_loop_lem zero index head slabs i =
    let out : (leb index i && ltb i (index + 0)) ≡ false = ground arith in rw out
tail_loop_lem (suc remaining) index head slabs i = elim (Bool-cases (i == index)) [
  | inl same ↦
      let past : (leb (index + 1) i && ltb i (index + 1 + remaining)) ≡ false =
        ground (arith, same) in
      let inside : (leb index i && ltb i (index + suc remaining)) ≡ true = ground (arith, same) in
      rw (
        tail_loop_lem remaining (index + 1) head (put slabs index (large_tail head)) i,
        past,
        same,
        inside,
      )
  | inr other ↦
      let e : (leb (index + 1) i && ltb i (index + 1 + remaining))
          ≡ (leb index i && ltb i (index + suc remaining)) =
        ground (arith, other) in
      rw (tail_loop_lem remaining (index + 1) head (put slabs index (large_tail head)) i, e, other)
]

pub release_loop_lem :
    (span start : ℕ) (slabs : ℕ → SlabDescriptor) (i : ℕ)
    → release_loop span start slabs i
      ≡ (if leb start i && ltb i (start + span) then free_descriptor else slabs i)
unfolding release_loop
release_loop_lem zero start slabs i =
    let out : (leb start i && ltb i (start + 0)) ≡ false = ground arith in rw out
release_loop_lem (suc span) start slabs i = elim (Bool-cases (i == start)) [
  | inl same ↦
      let past : (leb (start + 1) i && ltb i (start + 1 + span)) ≡ false = ground (arith, same) in
      let inside : (leb start i && ltb i (start + suc span)) ≡ true = ground (arith, same) in
      rw (release_loop_lem span (start + 1) (put slabs start free_descriptor) i, past, same, inside)
  | inr other ↦
      let e : (leb (start + 1) i && ltb i (start + 1 + span))
          ≡ (leb start i && ltb i (start + suc span)) =
        ground (arith, other) in
      rw (release_loop_lem span (start + 1) (put slabs start free_descriptor) i, e, other)
]

-- kfree of a pointer behind a header in the range.
pub kfree-passes :
    (m : KernelHeapManager) (address : ℕ)
    → m.managed_heap_size ≢ 0
    → m.heap_start + m.slab_count * slab_page_size < u64_limit
    → m.heap_start ≤ address
    → address + header_size < m.heap_start + m.slab_count * slab_page_size
    → m.memory address ≡ allocation_magic
    → kfree m (address + header_size) ≡ kfree_header m address
unfolding kfree
kfree-passes m address managed bounded from to magic =
    let some_pointer : (address + header_size == 0) ≡ false = ground arith in
    let some_heap : (m.managed_heap_size == 0 || m.slab_count == 0) ≡ false = ground arith in
    let limit : u64 (m.heap_start + u64 (m.slab_count * slab_page_size))
        ≡ m.heap_start + m.slab_count * slab_page_size =
      omega arith in
    let first : u64 (m.heap_start + header_size) ≡ m.heap_start + header_size = omega arith in
    let in_range : (ltb (address + header_size) (m.heap_start + header_size)
          || not (ltb (address + header_size) (m.heap_start + m.slab_count * slab_page_size)))
        ≡ false =
      ground arith in
    let back : u64 (address + header_size + (u64_limit - header_size)) ≡ address = omega arith in
    let header_in_range : (ltb address m.heap_start
          || not (ltb address (m.heap_start + m.slab_count * slab_page_size)))
        ≡ false =
      ground arith in
    rw (kfree, some_pointer, some_heap, limit, first, in_range, back, header_in_range, magic)
