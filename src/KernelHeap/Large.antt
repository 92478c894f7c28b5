-- ===== src/KernelHeap/Large.antt =====
-- Large allocations of KernelHeapManager.cpp: kmalloc and then kfree.
use mathlib.Core.Path.{fun_ext}
use twisted_os_v.Common.{
  ℕ, ◌+◌, ◌-◌, ◌*◌, ◌/◌, ◌%◌, ◌≤◌, ◌<◌, ◌≡◌, ◌≢◌, refl, sym, ap, subst, ◌∙◌, true, false, ◌&&◌,
  ◌||◌, inl, inr, arith, ◌==◌, ltb, leb, Bool-cases,
}
use twisted_os_v.Common.Words.{u64, u32, u64_limit}
use twisted_os_v.KernelHeap.Data.{
  KernelHeapManager, put, header_size, slab_page_size, allocation_magic, large_class_sentinel,
  slab_class_count,
}
use twisted_os_v.KernelHeap.Lists.{
  get_class_object_size, class_loop, select_class_index, get_slab_base_address,
}
use twisted_os_v.KernelHeap.Slabs.{release_loop, release_slab_run}
use twisted_os_v.KernelHeap.Malloc.{write_header, large_head, tail_loop, kmalloc_large, kmalloc}
use twisted_os_v.KernelHeap.Free.{kfree_large, kfree_header, kfree}
use twisted_os_v.KernelHeap.Runs.{AllFree, find_free_slab_run-Found}
use twisted_os_v.KernelHeap.Loops.{IsHeap, tail_loop_lem, release_loop_lem, kfree-passes}

-- The words of a header that was just written.
write_header_words :
    (memory : ℕ → ℕ) (a index class : ℕ)
    → (write_header memory a index class a ≡ allocation_magic)
      × (write_header memory a index class (a + 4) ≡ u32 index)
      × (write_header memory a index class (a + 8) ≡ class % 0x1_0000)
unfolding write_header
write_header_words memory a index class =
    let e1 : (a == a + 8) ≡ false = ground arith in
    let e2 : (a == a + 4) ≡ false = ground arith in
    let e3 : (a == a) ≡ true = ground arith in
    let e4 : (a + 4 == a + 8) ≡ false = ground arith in
    let e5 : (a + 4 == a + 4) ≡ true = ground arith in
    let e6 : (a + 8 == a + 8) ≡ true = ground arith in (rw (e1, e2, e3), rw (e4, e5), rw e6)

-- The heap behind a large allocation of the run from `head` on.
abbrev pub with_large : KernelHeapManager → (head span : ℕ) → KernelHeapManager
with_large m head span = record m {
  slabs = tail_loop (span - 1) (head + 1) head (put m.slabs head (large_head span));
  memory = write_header m.memory (m.heap_start + head * slab_page_size) head large_class_sentinel;
}

released_slabs :
    (m : KernelHeapManager) (head span : ℕ)
    → IsHeap m
    → AllFree m.slabs head span
    → span ≢ 0
    → (i : ℕ) → release_loop span head (with_large m head span).slabs i ≡ m.slabs i
released_slabs m head span is free some_span i =
    elim (Bool-cases (leb head i && ltb i (head + span))) [
      | inl inside ↦
          rw (release_loop_lem span head (with_large m head span).slabs i, inside)
            (sym (is.reset i (free i (ground (arith, inside)) (ground (arith, inside)))))
      | inr outside ↦
          let not_head : (i == head) ≡ false = ground (arith, outside) in
          let not_tail : (leb (head + 1) i && ltb i (head + 1 + (span - 1))) ≡ false =
            ground (arith, outside) in
          rw (
            release_loop_lem span head (with_large m head span).slabs i,
            outside,
            tail_loop_lem (span - 1) (head + 1) head (put m.slabs head (large_head span)) i,
            not_tail,
            not_head,
          )
    ]

large_head-at :
    (m : KernelHeapManager) (head span : ℕ) → (with_large m head span).slabs head ≡ large_head span
large_head-at m head span =
    let not_tail : (leb (head + 1) head && ltb head (head + 1 + (span - 1))) ≡ false =
      ground arith in
    let same : (head == head) ≡ true = ground arith in
    rw (
      tail_loop_lem (span - 1) (head + 1) head (put m.slabs head (large_head span)) head,
      not_tail,
      same,
    )

kfree_header-large :
    (m : KernelHeapManager) (a index : ℕ)
    → m.memory (a + 4) ≡ index
    → m.memory (a + 8) % 0x1_0000 ≡ large_class_sentinel
    → ltb index m.slab_count ≡ true
    → kfree_header m a ≡ kfree_large m a index
unfolding kfree_header
kfree_header-large m a index at_index at_class counted =
    let class : (m.memory (a + 8) % 0x1_0000 == large_class_sentinel) ≡ true =
      ground (arith, at_class) in
    rw (kfree_header, at_index, counted, class) refl

kfree_large-passes :
    (m : KernelHeapManager) (a index span : ℕ)
    → m.slabs index ≡ large_head span
    → u32 span ≡ span
    → (span == 0 || ltb m.slab_count (u64 (index + span))) ≡ false
    → get_slab_base_address m index ≡ a
    → kfree_large m a index
      ≡ record m { memory = put m.memory a 0; slabs = release_loop span index m.slabs }
unfolding kfree_large release_slab_run
kfree_large-passes m a index span descriptor small room base =
    let same : (a == a) ≡ true = ground arith in
    rw (kfree_large, descriptor, small, room, base, same) refl

kfree-with_large :
    (m : KernelHeapManager) (head span : ℕ)
    → IsHeap m
    → span ≢ 0
    → head + span ≤ m.slab_count
    → AllFree m.slabs head span
    → kfree (with_large m head span) (m.heap_start + head * slab_page_size + header_size)
      ≡ record m {
        memory =
            (kfree
              (with_large m head span)
              (m.heap_start + head * slab_page_size + header_size)).memory;
      }
unfolding get_slab_base_address
kfree-with_large m head span is some_span fits free =
    let a = m.heap_start + head * slab_page_size in
    let m' = with_large m head span in
    let (magic, index, class) = write_header_words m.memory a head large_class_sentinel in
    let passes =
      kfree-passes m' a is.managed is.inside (omega arith) (omega (arith, is.inside)) magic in
    let small_index : u32 head ≡ head = omega (arith, is.few) in
    let small_span : u32 span ≡ span = omega (arith, is.few) in
    let counted : ltb head m.slab_count ≡ true = ground arith in
    let room : (span == 0 || ltb m.slab_count (u64 (head + span))) ≡ false =
      (let wide : u64 (head + span) ≡ head + span = omega (arith, is.few, fits) in
        ground (arith, wide)) in
    let base : u64 (m.heap_start + u64 (head * slab_page_size)) ≡ a = omega (arith, is.inside) in
    let sentinel : m'.memory (a + 8) % 0x1_0000 ≡ large_class_sentinel = rw class in
    let freed : kfree_header m' a ≡ record m { memory = put m'.memory a 0 } =
      kfree_header-large m' a head (index ∙ small_index) sentinel counted
      ∙ kfree_large-passes m' a head span (large_head-at m head span) small_span room base
      ∙ ap (λ s. record m { slabs = s; memory = put m'.memory a 0 })
          (fun_ext (released_slabs m head span is free some_span)) in
    let e = passes ∙ freed in
    e ∙ ap (λ memory. record m { memory = memory }) (sym (ap (λ h. h.memory) e))

no_class :
    (size : ℕ) → slab_page_size < size + header_size → select_class_index size ≡ slab_class_count
unfolding select_class_index class_loop get_class_object_size
no_class size large = ground arith

-- A size that has no class, with what kmalloc returns for it unless it fails, is given back by kfree:
-- every field of the heap is then what it was before, its slabs and lists included, but for memory.
pub kfree-kmalloc :
    (m m' : KernelHeapManager) (size pointer : ℕ)
    → IsHeap m
    → slab_page_size < size + header_size
    → kmalloc m size ≡ (pointer, m')
    → pointer ≢ 0
    → kfree m' pointer ≡ record m { memory = (kfree m' pointer).memory }
unfolding kmalloc kmalloc_large select_class_index class_loop get_class_object_size
    get_slab_base_address
kfree-kmalloc m m' size pointer is large done some_pointer =
    let span = u64 (size + header_size + (slab_page_size - 1)) / slab_page_size in
    let refused : kmalloc m size ≡ (0, m) → ⊥ = λ e. some_pointer (ap (λ r. r.0) (sym done ∙ e)) in
    let some_size : (size == 0) ≡ false = ground arith in
    let class = no_class size large in
    elim (Bool-cases (m.slab_count == 0)) [
      | inl empty ↦ absurd (refused (rw (kmalloc, some_size, empty) refl))
      | inr slabs ↦ elim (Bool-cases (ltb (u64_limit - 1 - header_size) size)) [
        | inl huge ↦
            absurd (refused (rw (kmalloc, some_size, slabs, class, kmalloc_large, huge) refl))
        | inr sane ↦ elim (Bool-cases (span == 0)) [
          | inl none_needed ↦ absurd (
              refused
                (rw (kmalloc, some_size, slabs, class, kmalloc_large, sane, none_needed) refl))
          | inr needed ↦
              let some_span : span ≢ 0 = ground (arith, needed) in
              elim (find_free_slab_run-Found m span some_span) [
                | inr (missing, _) ↦ absurd (
                    refused (
                      rw (kmalloc, some_size, slabs, class, kmalloc_large, sane, needed, missing)
                        refl))
                | inl (head, found, fits, free, _) ↦
                    let a = m.heap_start + head * slab_page_size in
                    let base : u64 (m.heap_start + u64 (head * slab_page_size)) ≡ a =
                      omega (arith, is.inside, fits, some_span) in
                    let end : u64 (a + header_size) ≡ a + header_size =
                      omega (arith, is.inside, fits, some_span) in
                    let made : kmalloc m size ≡ (a + header_size, with_large m head span) =
                      rw
                        (
                          kmalloc, some_size, slabs, class, kmalloc_large, sane, needed, found,
                          base, end,
                        )
                        refl in
                    subst (λ r. kfree r.1 r.0 ≡ record m { memory = (kfree r.1 r.0).memory })
                      (sym made ∙ done) (kfree-with_large m head span is some_span fits free)
              ]
        ]
      ]
    ]
