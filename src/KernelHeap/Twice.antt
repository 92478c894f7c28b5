-- ===== src/KernelHeap/Twice.antt =====
-- A second kfree of one pointer in KernelHeapManager.cpp.
use twisted_os_v.Common.{
  ℕ, ◌+◌, ◌-◌, ◌*◌, ◌%◌, ◌≡◌, ◌≢◌, refl, sym, ap, ◌∙◌, true, false, ◌||◌, not, Option, none, some,
  ◌⊎◌, inl, inr, arith, ◌==◌, ltb, Bool-cases, ==_iff,
}
use twisted_os_v.Common.Words.{u64, u32, u64_limit}
use twisted_os_v.KernelHeap.Data.{
  SlabDescriptor, KernelHeapManager, is_large_head, is_small, put, header_size, slab_page_size,
  allocation_magic, large_class_sentinel, slab_class_count,
}
use twisted_os_v.KernelHeap.Lists.{
  get_class_object_size, get_slab_base_address, is_none, is_index, set_prev,
  link_slab_into_class_list, unlink_slab_from_class_list, write_next,
}
use twisted_os_v.KernelHeap.Slabs.{release_slab_run}
use twisted_os_v.KernelHeap.Free.{kfree_large, return_object, kfree_small, kfree_header, kfree}

-- The free lists hold addresses of objects, which are even.
abbrev pub EvenLists : KernelHeapManager → Type 0
EvenLists m = (i : ℕ) → (m.slabs i).free_list % 2 ≡ 0

release_slab_run-memory :
    (m : KernelHeapManager) (start span : ℕ) → (release_slab_run m start span).memory ≡ m.memory
unfolding release_slab_run
release_slab_run-memory m start span =
    elim (Bool-cases (span == 0 || ltb m.slab_count (u64 (start + span)))) [
      | inl bad ↦ rw (release_slab_run, bad) refl
      | inr good ↦ rw (release_slab_run, good) refl
    ]

-- A write of a descriptor with the same free list.
put-free_list :
    (slabs : ℕ → SlabDescriptor) (index : ℕ) (d : SlabDescriptor)
    → d.free_list ≡ (slabs index).free_list
    → (i : ℕ) → (put slabs index d i).free_list ≡ (slabs i).free_list
put-free_list slabs index d same_list i = elim (Bool-cases (i == index)) [
  | inl same ↦
      let (meets, _) = ==_iff i index in
      rw same (same_list ∙ ap (λ j. (slabs j).free_list) (sym (meets same)))
  | inr other ↦ rw other refl
]

set_prev-free_list :
    (index value : Option ℕ) (slabs : ℕ → SlabDescriptor) (i : ℕ)
    → (set_prev index value slabs i).free_list ≡ (slabs i).free_list
unfolding set_prev
set_prev-free_list none value slabs i = refl
set_prev-free_list (some index) value slabs i =
    put-free_list slabs index (record (slabs index) { prev_available = value }) refl i

link-free_list :
    (m : KernelHeapManager) (index class i : ℕ)
    → ((link_slab_into_class_list m index class).slabs i).free_list ≡ (m.slabs i).free_list
unfolding link_slab_into_class_list
link-free_list m index class i =
    let d = m.slabs index in
    let head = m.class_available_head class in
    let linked = record d { prev_available = none; next_available = head } in
    elim (Bool-cases
      (not (is_none d.prev_available) || not (is_none d.next_available) || is_index head index)) [
        | inl listed ↦ rw (link_slab_into_class_list, listed) refl
        | inr fresh ↦
            rw (link_slab_into_class_list, fresh)
              (set_prev-free_list head (some index) (put m.slabs index linked) i
                ∙ put-free_list m.slabs index linked refl i)
      ]

link-memory :
    (m : KernelHeapManager) (index class : ℕ)
    → (link_slab_into_class_list m index class).memory ≡ m.memory
unfolding link_slab_into_class_list
link-memory m index class =
    let d = m.slabs index in
    elim (Bool-cases (
      not (is_none d.prev_available)
      || not (is_none d.next_available)
      || is_index (m.class_available_head class) index)) [
        | inl listed ↦ rw (link_slab_into_class_list, listed) refl
        | inr fresh ↦ rw (link_slab_into_class_list, fresh) refl
      ]

-- What a call leaves of the header at an address: the heap is the one it was, or the header is gone.
abbrev Gone : (m m' : KernelHeapManager) → (address : ℕ) → Type 0
Gone m m' address = (m' ≡ m) ⊎ (m'.memory address ≢ allocation_magic)

kfree_large-Gone : (m : KernelHeapManager) (a index : ℕ) → Gone m (kfree_large m a index) a
unfolding kfree_large
kfree_large-Gone m a index =
    let d = m.slabs index in
    let span = d.owner_or_span in
    elim (Bool-cases (is_large_head d.state)) [
      | inr other ↦ inl (rw (kfree_large, other) refl)
      | inl head ↦ elim (Bool-cases (span == 0 || ltb m.slab_count (u64 (index + span)))) [
        | inl wide ↦ inl (rw (kfree_large, head, wide) refl)
        | inr room ↦ elim (Bool-cases (a == get_slab_base_address m index)) [
          | inr off ↦ inl (rw (kfree_large, head, room, off) refl)
          | inl base ↦
              let m' = record m { memory = put m.memory a 0 } in
              let same : (a == a) ≡ true = ground arith in
              let freed : (kfree_large m a index).memory a ≡ 0 =
                rw (kfree_large, head, room, base)
                  (ap (λ f. f a) (release_slab_run-memory m' index span) ∙ rw same refl) in
              inr (λ e. omega (arith, e, freed))
        ]
      ]
    ]

-- The word of the magic number, once an object's field Next stands on it.
even_word :
    (memory : ℕ → ℕ) (a free_list : ℕ)
    → free_list % 2 ≡ 0
    → write_next memory a free_list a ≢ allocation_magic
unfolding write_next
even_word memory a free_list even is_magic =
    let other : (a == a + 4) ≡ false = ground arith in
    let same : (a == a) ≡ true = ground arith in
    let word : write_next memory a free_list a ≡ u32 free_list =
      rw (write_next, other, same) refl in
    omega (arith, word, is_magic, even)

return_object-Gone :
    (m : KernelHeapManager) (a index class : ℕ)
    → EvenLists m
    → (return_object m a index class).memory a ≢ allocation_magic
unfolding return_object unlink_slab_from_class_list
return_object-Gone m a index class even =
    let cleared = record m { memory = put m.memory a 0 } in
    let linked = link_slab_into_class_list cleared index class in
    let d = m.slabs index in
    let d' = linked.slabs index in
    let even' : d'.free_list % 2 ≡ 0 = rw (link-free_list cleared index class index) (even index) in
    elim (Bool-cases (d.free_objects == 0)) [
      | inl full ↦ elim (Bool-cases (u32 (d'.free_objects + 1) == d'.total_objects)) [
        | inl last ↦
            rw (return_object, full, last, release_slab_run-memory)
              (even_word linked.memory a d'.free_list even')
        | inr more ↦ rw (return_object, full, more) (even_word linked.memory a d'.free_list even')
      ]
      | inr listed ↦ elim (Bool-cases (u32 (d.free_objects + 1) == d.total_objects)) [
        | inl last ↦
            rw (return_object, listed, last, release_slab_run-memory)
              (even_word cleared.memory a d.free_list (even index))
        | inr more ↦
            rw (return_object, listed, more) (even_word cleared.memory a d.free_list (even index))
      ]
    ]

kfree_small-Gone :
    (m : KernelHeapManager) (a index class : ℕ)
    → EvenLists m
    → Gone m (kfree_small m a index class) a
unfolding kfree_small
kfree_small-Gone m a index class even =
    let d = m.slabs index in
    let base = get_slab_base_address m index in
    let size = get_class_object_size class in
    let gone = return_object-Gone m a index class even in
    elim (Bool-cases (ltb class slab_class_count)) [
      | inr c ↦ inl (rw (kfree_small, c) refl)
      | inl c ↦ elim (Bool-cases (not (is_small d.state) || not (d.class_index == class))) [
        | inl s ↦ inl (rw (kfree_small, c, s) refl)
        | inr s ↦ elim (Bool-cases (size == 0)) [
          | inl z ↦ inl (rw (kfree_small, c, s, z) refl)
          | inr z ↦ elim (Bool-cases (ltb a base || not (ltb a (u64 (base + slab_page_size))))) [
            | inl o ↦ inl (rw (kfree_small, c, s, z, o) refl)
            | inr o ↦ elim (Bool-cases ((a - base) % size == 0)) [
              | inr l ↦ inl (rw (kfree_small, c, s, z, o, l) refl)
              | inl l ↦ elim (Bool-cases (ltb d.free_objects d.total_objects)) [
                | inr f ↦ inl (rw (kfree_small, c, s, z, o, l, f) refl)
                | inl f ↦ inr (rw (kfree_small, c, s, z, o, l, f) gone)
              ]
            ]
          ]
        ]
      ]
    ]

kfree_header-Gone : (m : KernelHeapManager) (a : ℕ) → EvenLists m → Gone m (kfree_header m a) a
unfolding kfree_header
kfree_header-Gone m a even =
    let index = m.memory (a + 4) in
    let class = m.memory (a + 8) % 0x1_0000 in
    elim (Bool-cases (ltb index m.slab_count)) [
      | inr out ↦ inl (rw (kfree_header, out) refl)
      | inl counted ↦ elim (Bool-cases (class == large_class_sentinel)) [
        | inl large ↦ rw (kfree_header, counted, large) (kfree_large-Gone m a index)
        | inr small ↦ rw (kfree_header, counted, small) (kfree_small-Gone m a index class even)
      ]
    ]

abbrev header_address : ℕ → ℕ
header_address pointer = u64 (pointer + (u64_limit - header_size))

-- kfree up to the header.
kfree-cases :
    (m : KernelHeapManager) (pointer : ℕ)
    → (kfree m pointer ≡ m)
      ⊎ ((m.memory (header_address pointer) ≡ allocation_magic)
          × (kfree m pointer ≡ kfree_header m (header_address pointer)))
unfolding kfree
kfree-cases m pointer =
    let base = m.heap_start in
    let limit = u64 (base + u64 (m.slab_count * slab_page_size)) in
    let address = header_address pointer in
    elim (Bool-cases (pointer == 0)) [
      | inl a ↦ inl (rw (kfree, a) refl)
      | inr a ↦ elim (Bool-cases (m.managed_heap_size == 0 || m.slab_count == 0)) [
        | inl b ↦ inl (rw (kfree, a, b) refl)
        | inr b ↦
            elim (Bool-cases (ltb pointer (u64 (base + header_size)) || not (ltb pointer limit))) [
              | inl c ↦ inl (rw (kfree, a, b, c) refl)
              | inr c ↦ elim (Bool-cases (ltb address base || not (ltb address limit))) [
                | inl d ↦ inl (rw (kfree, a, b, c, d) refl)
                | inr d ↦ elim (Bool-cases (m.memory address == allocation_magic)) [
                  | inr e ↦ inl (rw (kfree, a, b, c, d, e) refl)
                  | inl e ↦ inr (ground (arith, e), rw (kfree, a, b, c, d, e) refl)
                ]
              ]
            ]
      ]
    ]

-- On a heap whose free lists start at even addresses, kfree of a pointer a second time changes nothing,
-- whatever the pointer is.
pub kfree-kfree :
    (m : KernelHeapManager) (pointer : ℕ)
    → EvenLists m
    → kfree (kfree m pointer) pointer ≡ kfree m pointer
kfree-kfree m pointer even =
    let m' = kfree m pointer in
    elim (kfree-cases m pointer) [
      | inl same ↦ ap (λ h. kfree h pointer) same
      | inr (_, freed) ↦ elim (kfree_header-Gone m (header_address pointer) even) [
        | inl same ↦ ap (λ h. kfree h pointer) (freed ∙ same)
        | inr gone ↦ elim (kfree-cases m' pointer) [
          | inl same ↦ same
          | inr (magic, _) ↦
              absurd (gone (ap (λ h. h.memory (header_address pointer)) (sym freed) ∙ magic))
        ]
      ]
    ]
