-- ===== src/KernelHeap/Runs.antt =====
-- FindFreeSlabRun of KernelHeapManager.cpp: which run it finds.
use twisted_os_v.Common.{
  ℕ, zero, suc, ◌+◌, ◌-◌, ◌≤◌, ◌<◌, ◌≡◌, ◌≢◌, refl, sym, subst, true, false, Option, none, some,
  ◌⊎◌, inl, inr, arith, ◌==◌, ltb, if◌then◌else◌, Bool-cases, ==_iff,
}
use twisted_os_v.KernelHeap.Data.{SlabDescriptor, KernelHeapManager, is_free}
use twisted_os_v.KernelHeap.Slabs.{run_loop, find_free_slab_run}

-- Every slab of a run is free, or some slab of it is in use.
abbrev pub AllFree : (ℕ → SlabDescriptor) → (start span : ℕ) → Type 0
AllFree slabs start span = (i : ℕ) → start ≤ i → i < start + span → is_free (slabs i).state ≡ true

abbrev pub Blocked : (ℕ → SlabDescriptor) → (start span : ℕ) → Type 0
Blocked slabs start span =
    (i : ℕ) × (start ≤ i) × (i < start + span) × (is_free (slabs i).state ≡ false)

-- What a search below `limit` returns: the first run of free slabs, or that there is none.
abbrev pub Found : (ℕ → SlabDescriptor) → (span limit : ℕ) → Option ℕ → Type 0
Found slabs span limit result =
    ((start : ℕ) × (result ≡ some start)
      × (start + span ≤ limit)
      × AllFree slabs start span
      × ((s : ℕ) → s < start → Blocked slabs s span))
    ⊎ (result ≡ none) × ((s : ℕ) → s + span ≤ limit → Blocked slabs s span)

-- The run that the loop has arrived with starts at `p`, right behind a slab in use or at the start.
run_loop-Found :
    (remaining index run_start run_length span p limit : ℕ) (slabs : ℕ → SlabDescriptor)
    → run_length < span
    → p + run_length ≡ index
    → (run_length ≢ 0 → run_start ≡ p)
    → index + remaining ≡ limit
    → AllFree slabs p run_length
    → ((q : ℕ) → p ≡ suc q → is_free (slabs q).state ≡ false)
    → ((s : ℕ) → s + span ≤ index → Blocked slabs s span)
    → Found slabs span limit (run_loop remaining index run_start run_length span slabs)
unfolding run_loop
run_loop-Found zero index run_start run_length span p limit slabs short at same last free edge
      none_before =
    inr (refl, λ s fits. none_before s (omega (arith, fits)))
run_loop-Found (suc remaining) index run_start run_length span p limit slabs short at same last free
      edge none_before =
    elim (Bool-cases (is_free (slabs index).state)) [
      | inr used ↦
          rw (run_loop, used)
            (run_loop-Found remaining (index + 1) run_start 0 span (index + 1) limit slabs
              (omega arith) (omega arith) (λ e. absurd (e refl)) (omega arith)
              (λ i from to. absurd (omega (arith, from, to)))
              (λ q e. subst (λ k. is_free (slabs k).state ≡ false) (omega (arith, e)) used)
              (λ s fits. elim (Bool-cases (s + span == index + 1)) [
                | inl ends ↦ (index, ground (arith, ends), ground (arith, ends), used)
                | inr earlier ↦ none_before s (ground (arith, earlier, fits))
              ]))
      | inl unused ↦
          let start : (if run_length == 0 then index else run_start) ≡ p =
            elim (Bool-cases (run_length == 0)) [
              | inl e ↦ rw e (ground (arith, e))
              | inr e ↦ rw e (same (ground (arith, e)))
            ] in
          let longer : AllFree slabs p (run_length + 1) = λ i from to.
            elim (Bool-cases (i == index)) [
              | inl e ↦
                  subst (λ k. is_free (slabs k).state ≡ true) (sym ((==_iff i index).0 e)) unused
              | inr e ↦ free i from (ground (arith, e, to))
            ] in
          elim (Bool-cases (run_length + 1 == span)) [
            | inl full ↦ inl (
              p,
              rw (run_loop, unused, full, start) refl,
              ground (arith, full),
              (λ i from to. longer i from (ground (arith, full, to))),
              λ s before. none_before s (ground (arith, full, before)),
            )
            | inr more ↦
                rw (run_loop, unused, more, start)
                  (run_loop-Found remaining (index + 1) p (run_length + 1) span p limit slabs
                    (ground (arith, more)) (omega arith) (λ e. refl) (omega arith) longer edge
                    (λ s fits. elim (Bool-cases (s + span == index + 1)) [
                      | inl ends ↦
                          let e : s + span ≡ index + 1 = ground (arith, ends) in
                          let room : run_length + 1 < span = ground (arith, more) in
                          (
                            p - 1,
                            omega (arith, e, room),
                            omega (arith, e, room),
                            edge (p - 1) (omega (arith, e, room)),
                          )
                      | inr earlier ↦ none_before s (ground (arith, earlier, fits))
                    ]))
          ]
    ]

-- FindFreeSlabRun, for a span of at least one slab, returns the first run of free slabs of that length
-- among the slabs of the heap, and -1 only if every run of that length has a slab in use.
pub find_free_slab_run-Found :
    (m : KernelHeapManager) (span : ℕ)
    → span ≢ 0
    → Found m.slabs span m.slab_count (find_free_slab_run m span)
unfolding find_free_slab_run
find_free_slab_run-Found m span some_span =
    let e : (span == 0) ≡ false = ground arith in
    elim (Bool-cases (ltb m.slab_count span)) [
      | inl long ↦
          inr (rw (find_free_slab_run, e, long) refl, λ s fits. absurd (ground (arith, long, fits)))
      | inr fits ↦
          rw (find_free_slab_run, e, fits)
            (run_loop-Found m.slab_count 0 0 0 span 0 m.slab_count m.slabs (omega arith)
              (omega arith) (λ e. refl) (omega arith)
              (λ i from to. absurd (omega (arith, from, to))) (λ q e. absurd (omega (arith, e)))
              (λ s fits. absurd (omega (arith, fits))))
    ]
