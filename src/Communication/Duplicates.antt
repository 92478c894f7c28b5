-- ===== src/Communication/Duplicates.antt =====
-- DuplicatePipeDescriptor of InterProcessComunicationManager.cpp keeps the references counted.
use mathlib.Core.Option.{some-injective}
use twisted_os_v.Common.{
  ℕ, ◌+◌, ◌<◌, ◌≡◌, refl, sym, ap, subst, ◌∙◌, Bool, true, false, ◌||◌, ◌⊎◌, Option, some, inl, inr,
  [], ◌∷◌, ◌++◌, length, length-append, arith, ◌==◌, leb, if◌then◌else◌, Bool-cases, Option-cases,
}
use twisted_os_v.Communication.Pipes.{PipeKernelObject}
use twisted_os_v.Communication.Table.{
  max_tracked_pipes, is_negative, PipeEndpoint, PipeNode, TrackedPipeEndpoint, PipeTable, place, at,
  reference, add_reference, is_tracked, duplicate_pipe_descriptor,
}
use twisted_os_v.Communication.References.{
  same, is_end, points, references, counter, Alive, IsTable, at-some, placed, Alive-place,
  references-append, references-bounded, All-append, All-map,
}

counter-reference :
    (side other : Bool) (pipe : PipeKernelObject)
    → counter other pipe < max_tracked_pipes
    → counter side (reference other pipe) ≡ counter side pipe + (if same side other then 1 else 0)
counter-reference true true pipe few = omega arith
counter-reference true false pipe few = omega arith
counter-reference false true pipe few = omega arith
counter-reference false false pipe few = omega arith

-- The ends of a pipe stay where they are.
reference-ends :
    (side : Bool) (pipe : PipeKernelObject)
    → ((reference side pipe).read_endpoint ≡ pipe.read_endpoint)
      × ((reference side pipe).write_endpoint ≡ pipe.write_endpoint)
reference-ends true pipe = (refl, refl)
reference-ends false pipe = (refl, refl)

add_reference-IsTable :
    (m : PipeTable) (owner file_descriptor node endpoint : ℕ) (end : PipeEndpoint)
    (pipe : PipeKernelObject)
    → IsTable m
    → at m.endpoints endpoint ≡ some end
    → at m.pipes end.pipe ≡ some pipe
    → length m.pipe_endpoint_list < max_tracked_pipes
    → IsTable (add_reference m owner file_descriptor node endpoint end pipe)
unfolding add_reference
add_reference-IsTable m owner file_descriptor node endpoint end pipe is at_end at_pipe room =
    let list = m.pipe_endpoint_list in
    let side = end.is_read_end in
    let entry : TrackedPipeEndpoint = record {
      owner = owner;
      file_descriptor = file_descriptor;
      node = node;
      endpoint = endpoint;
    } in
    let there = at-some m.pipes end.pipe pipe at_pipe in
    let more = reference side pipe in
    let (same_read, same_write) = reference-ends side pipe in
    let fits : (s : Bool) → counter s pipe < max_tracked_pipes = λ s.
      (let counted = is.counted end.pipe pipe s at_pipe in
        let bounded = references-bounded m.endpoints end.pipe s list in
        omega (arith, counted, bounded)) in
    let new_end : (address : ℕ) (s : Bool)
        → points m.endpoints address s entry ≡ is_end address s (some end) =
      λ address s. ap (is_end address s) at_end in
    let added : (address : ℕ) (s : Bool)
        → references m.endpoints address s (list ++ (entry ∷ []))
          ≡ references m.endpoints address s list + (if is_end address s (some end) then 1 else 0) =
      λ address s.
        references-append m.endpoints address s list entry
        ∙ ap (λ b. references m.endpoints address s list + (if b then 1 else 0))
            (new_end address s) in
    record {
      few = (let l = length-append list (entry ∷ []) in omega (arith, l, room));
      counted = λ address pipe' side' e.
          elim (placed m end.pipe (some more) address pipe' there e) [
            | inl (here, same_pipe) ↦
                let itself : (end.pipe == end.pipe) ≡ true = ground arith in
                let own : is_end end.pipe side' (some end) ≡ same side' side = rw itself refl in
                subst
                  (λ a. counter side' pipe' ≡ references m.endpoints a side' (list ++ (entry ∷ [])))
                  (sym here)
                  (ap (counter side') (sym (some-injective more pipe' same_pipe))
                    ∙ counter-reference side' side pipe (fits side)
                    ∙ (λ i. is.counted end.pipe pipe side' at_pipe i + (if sym own i then 1 else 0))
                    ∙ sym (added end.pipe side'))
            | inr (other, old) ↦
                let apart : (end.pipe == address) ≡ false = ground (arith, other) in
                let none_added : is_end address side' (some end) ≡ false = rw apart refl in
                let new = added address side' in
                let counted = is.counted address pipe' side' old in
                counted
                ∙ sym (
                    new
                    ∙ ap (λ b. references m.endpoints address side' list + (if b then 1 else 0))
                        none_added
                    ∙ omega arith)
          ];
      read_end = λ address pipe' e. elim (placed m end.pipe (some more) address pipe' there e) [
        | inl (here, same_pipe) ↦
            ap (λ p. at m.endpoints p.read_endpoint) (sym (some-injective more pipe' same_pipe))
            ∙ ap (at m.endpoints) same_read
            ∙ is.read_end end.pipe pipe at_pipe
            ∙ ap (λ a. some (record { pipe = a; is_read_end = true })) (sym here)
        | inr (other, old) ↦ is.read_end address pipe' old
      ];
      write_end = λ address pipe' e. elim (placed m end.pipe (some more) address pipe' there e) [
        | inl (here, same_pipe) ↦
            ap (λ p. at m.endpoints p.write_endpoint) (sym (some-injective more pipe' same_pipe))
            ∙ ap (at m.endpoints) same_write
            ∙ is.write_end end.pipe pipe at_pipe
            ∙ ap (λ a. some (record { pipe = a; is_read_end = false })) (sym here)
        | inr (other, old) ↦ is.write_end address pipe' old
      ];
      alive =
          (let m' = record m {
            pipes = place m.pipes end.pipe (some more);
            pipe_endpoint_list = list ++ (entry ∷ []);
          } in
            All-append (Alive m') list entry
              (All-map (Alive m) (Alive m') list
                (λ x. Alive-place m (list ++ (entry ∷ [])) end.pipe more x there) is.alive)
              (Alive-place m (list ++ (entry ∷ [])) end.pipe more entry there
                (end, pipe, (at_end, at_pipe))));
    }

at-there {ℓ} :
    {A : Type ℓ} (objects : ℕ → Option A) (address : ℕ) (object : A)
    → (address == 0) ≡ false
    → objects address ≡ some object
    → at objects address ≡ some object
at-there objects address object there found = rw there found

-- DuplicatePipeDescriptor leaves the table, or it adds a reference to an end that is there.
duplicate-cases :
    (m : PipeTable) (owner file_descriptor source_node : ℕ)
    → ((duplicate_pipe_descriptor m owner file_descriptor source_node).1 ≡ m)
      ⊎ ((node : PipeNode) × (end : PipeEndpoint) × (pipe : PipeKernelObject) × (at m.endpoints
              node.node_data
            ≡ some end)
          × (at m.pipes end.pipe ≡ some pipe)
          × (length m.pipe_endpoint_list < max_tracked_pipes)
          × ((duplicate_pipe_descriptor m owner file_descriptor source_node).1
              ≡ add_reference m owner file_descriptor source_node node.node_data end pipe))
unfolding duplicate_pipe_descriptor
duplicate-cases m owner fd source_node =
    elim (Bool-cases (owner == 0 || source_node == 0 || is_negative fd)) [
      | inl bad ↦ inl (rw (duplicate_pipe_descriptor, bad) refl)
      | inr good ↦ elim (Option-cases (m.nodes source_node)) [
        | inl gone ↦ inl (rw (duplicate_pipe_descriptor, good, gone) refl)
        | inr (node, found) ↦ elim (Bool-cases node.has_pipe_operations) [
          | inr other ↦ inl (rw (duplicate_pipe_descriptor, good, found, other) refl)
          | inl ours ↦ elim (Bool-cases (node.node_data == 0)) [
            | inl null ↦ inl (rw (duplicate_pipe_descriptor, good, found, ours, null) refl)
            | inr data_ ↦
                elim (Bool-cases (is_tracked m.pipe_endpoint_list source_node node.node_data)) [
                  | inr lost ↦
                      inl (rw (duplicate_pipe_descriptor, good, found, ours, data_, lost) refl)
                  | inl tracked ↦
                      elim (Bool-cases (leb max_tracked_pipes (length m.pipe_endpoint_list))) [
                        | inl full ↦ inl (
                            rw (duplicate_pipe_descriptor, good, found, ours, data_, tracked, full)
                              refl)
                        | inr room ↦ elim (Option-cases (m.endpoints node.node_data)) [
                          | inl no_end ↦ inl (
                              rw
                                (
                                  duplicate_pipe_descriptor, good, found, ours, data_, tracked,
                                  room, no_end,
                                )
                                refl)
                          | inr (end, at_end) ↦ elim (Bool-cases (end.pipe == 0)) [
                            | inl no_pipe ↦ inl (
                                rw
                                  (
                                    duplicate_pipe_descriptor, good, found, ours, data_, tracked,
                                    room, at_end, no_pipe,
                                  )
                                  refl)
                            | inr some_pipe ↦ elim (Option-cases (m.pipes end.pipe)) [
                              | inl deleted ↦ inl (
                                  rw
                                    (
                                      duplicate_pipe_descriptor, good, found, ours, data_, tracked,
                                      room, at_end, some_pipe, deleted,
                                    )
                                    refl)
                              | inr (pipe, at_pipe) ↦ inr (
                                node,
                                end,
                                pipe,
                                at-there m.endpoints node.node_data end data_ at_end,
                                at-there m.pipes end.pipe pipe some_pipe at_pipe,
                                ground (arith, room),
                                rw
                                    (
                                      duplicate_pipe_descriptor, good, found, ours, data_, tracked,
                                      room, at_end, some_pipe, at_pipe,
                                    )
                                    refl,
                              )
                            ]
                          ]
                        ]
                      ]
                ]
          ]
        ]
      ]
    ]

-- A table keeps its references counted, and nothing in its list dangles, when an end is duplicated,
-- whatever the call returns.
pub duplicate_pipe_descriptor-IsTable :
    (m : PipeTable) (owner file_descriptor source_node : ℕ)
    → IsTable m
    → IsTable (duplicate_pipe_descriptor m owner file_descriptor source_node).1
duplicate_pipe_descriptor-IsTable m owner file_descriptor source_node is =
    elim (duplicate-cases m owner file_descriptor source_node) [
      | inl kept ↦ subst IsTable (sym kept) is
      | inr (node, end, pipe, at_end, at_pipe, room, made) ↦ subst IsTable (sym made) (
          add_reference-IsTable m owner file_descriptor source_node node.node_data end pipe is
            at_end at_pipe room)
    ]
