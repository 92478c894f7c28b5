-- ===== src/Communication/Created.antt =====
-- CreatePipe of InterProcessComunicationManager.cpp keeps the references counted.
use mathlib.Core.Option.{some-injective}
use twisted_os_v.Common.{
  ℕ, ◌+◌, ◌≤◌, ◌≡◌, refl, sym, ap, ◌∙◌, Bool, true, false, ◌||◌, some, inl, inr, ◌++◌, length,
  length-append, arith, ◌==◌, ltb, if◌then◌else◌, Bool-cases,
}
use twisted_os_v.Communication.Table.{
  max_tracked_pipes, is_negative, PipeTable, at, NewPipe, fresh_pipe, add_pipe, create_pipe,
}
use twisted_os_v.Communication.References.{placed, references, counter, Alive, IsTable, All-map}
use twisted_os_v.Communication.Creating.{
  IsUnused, IsGiven, references-append_list, All-append_list, added, still-there, read_there,
  write_there, references-old, references-new, two_entries, references-two, Alive-old, pipe_there,
}

module _ (m : PipeTable) (owner read_fd write_fd : ℕ) (garbage : ℕ → ℕ) (new : NewPipe)
    (is : IsTable m) (unused : IsUnused m new) (given : IsGiven new) where
  pub add_pipe-IsTable :
      length m.pipe_endpoint_list + 2 ≤ max_tracked_pipes
      → IsTable (add_pipe m owner read_fd write_fd garbage new)
  unfolding add_pipe
  add_pipe-IsTable room =
      let list = m.pipe_endpoint_list in
      let fresh = fresh_pipe garbage new in
      let all : (address : ℕ) (side : Bool)
          → references (added m owner read_fd write_fd garbage new is unused given).endpoints
              address side
              (list ++ (two_entries m owner read_fd write_fd garbage new is unused given))
            ≡ references m.endpoints address side list
              + (if new.new_pipe == address then 1 else 0) =
        λ address side.
          (let appended =
              references-append_list
                (added m owner read_fd write_fd garbage new is unused given).endpoints address side
                list (two_entries m owner read_fd write_fd garbage new is unused given) in
            let old =
              (references-old m owner read_fd write_fd garbage new is unused given) address side
                list is.alive in
            let two =
              (references-two m owner read_fd write_fd garbage new is unused given) address side in
            appended ∙ (λ i. old i + two i)) in
      record {
        few =
            (let l =
                length-append list
                  (two_entries m owner read_fd write_fd garbage new is unused given) in
              omega (arith, l, room));
        counted = λ address pipe side e.
            elim (placed m new.new_pipe (some fresh) address pipe given.some_pipe e) [
              | inl (here, same_pipe) ↦
                  let itself : (new.new_pipe == address) ≡ true = ground (arith, here) in
                  let zero_old =
                    ap (λ a. references m.endpoints a side list) here
                    ∙ (references-new m owner read_fd write_fd garbage new is unused given) side
                        list is.alive in
                  let one : counter side fresh ≡ 1 = elim (Bool-cases side) [
                    | inl s ↦ rw s refl
                    | inr s ↦ rw s refl
                  ] in
                  ap (counter side) (sym (some-injective fresh pipe same_pipe))
                  ∙ one
                  ∙ sym (all address side ∙ (λ i. zero_old i + (if itself i then 1 else 0)))
              | inr (other, old) ↦
                  let apart : (new.new_pipe == address) ≡ false = ground (arith, other) in
                  is.counted address pipe side old
                  ∙ sym (
                      all address side
                      ∙ ap (λ b. references m.endpoints address side list + (if b then 1 else 0))
                          apart
                      ∙ omega arith)
            ];
        read_end = λ address pipe e.
            elim (placed m new.new_pipe (some fresh) address pipe given.some_pipe e) [
              | inl (here, same_pipe) ↦
                  ap
                    (λ p.
                      at (added m owner read_fd write_fd garbage new is unused given).endpoints
                        p.read_endpoint)
                    (sym (some-injective fresh pipe same_pipe))
                  ∙ (read_there m owner read_fd write_fd garbage new is unused given)
                  ∙ ap (λ a. some (record { pipe = a; is_read_end = true })) (sym here)
              | inr (other, old) ↦
                  (still-there m owner read_fd write_fd garbage new is unused given)
                    pipe.read_endpoint _ (is.read_end address pipe old)
            ];
        write_end = λ address pipe e.
            elim (placed m new.new_pipe (some fresh) address pipe given.some_pipe e) [
              | inl (here, same_pipe) ↦
                  ap
                    (λ p.
                      at (added m owner read_fd write_fd garbage new is unused given).endpoints
                        p.write_endpoint)
                    (sym (some-injective fresh pipe same_pipe))
                  ∙ (write_there m owner read_fd write_fd garbage new is unused given)
                  ∙ ap (λ a. some (record { pipe = a; is_read_end = false })) (sym here)
              | inr (other, old) ↦
                  (still-there m owner read_fd write_fd garbage new is unused given)
                    pipe.write_endpoint _ (is.write_end address pipe old)
            ];
        alive =
            All-append_list _ list
              (two_entries m owner read_fd write_fd garbage new is unused given)
              (All-map (Alive m) _ list
                (Alive-old m owner read_fd write_fd garbage new is unused given) is.alive)
              (
                (
                  record { pipe = new.new_pipe; is_read_end = true },
                  fresh,
                  (
                    (read_there m owner read_fd write_fd garbage new is unused given),
                    (pipe_there m owner read_fd write_fd garbage new is unused given),
                  ),
                ),
                (
                  (
                    record { pipe = new.new_pipe; is_read_end = false },
                    fresh,
                    (
                      (write_there m owner read_fd write_fd garbage new is unused given),
                      (pipe_there m owner read_fd write_fd garbage new is unused given),
                    ),
                  ),
                  tt,
                ),
              );
      }

-- A table keeps its references counted, and nothing in its list dangles, when a pipe is created, as long
-- as what is allocated is not in use: the call fails and changes nothing, or the pipe has one
-- reference on either side.
pub create_pipe-IsTable :
    (m : PipeTable) (owner read_fd write_fd : ℕ) (out_is_null : Bool) (garbage : ℕ → ℕ)
    (new : NewPipe)
    → IsTable m
    → IsUnused m new
    → IsTable (create_pipe m owner read_fd write_fd out_is_null garbage new).1
unfolding create_pipe
create_pipe-IsTable m owner read_fd write_fd out_is_null garbage new is unused =
    elim (Bool-cases (owner == 0 || out_is_null || is_negative read_fd || is_negative write_fd)) [
      | inl bad ↦ rw (create_pipe, bad) is
      | inr good ↦ elim (Bool-cases (ltb max_tracked_pipes (length m.pipe_endpoint_list + 2))) [
        | inl full ↦ rw (create_pipe, good, full) is
        | inr room ↦ elim (Bool-cases (new.new_pipe == 0)) [
          | inl a ↦ rw (create_pipe, good, room, a) is
          | inr a ↦ elim (Bool-cases (new.new_read_endpoint == 0)) [
            | inl b ↦ rw (create_pipe, good, room, a, b) is
            | inr b ↦ elim (Bool-cases (new.new_write_endpoint == 0)) [
              | inl c ↦ rw (create_pipe, good, room, a, b, c) is
              | inr c ↦ elim (Bool-cases (new.new_read_node == 0)) [
                | inl d ↦ rw (create_pipe, good, room, a, b, c, d) is
                | inr d ↦ elim (Bool-cases (new.new_write_node == 0)) [
                  | inl e ↦ rw (create_pipe, good, room, a, b, c, d, e) is
                  | inr e ↦
                      rw (create_pipe, good, room, a, b, c, d, e)
                        (add_pipe-IsTable m owner read_fd write_fd garbage new is unused
                          (record {
                            some_pipe = ground (arith, a);
                            some_read = ground (arith, b);
                            some_write = ground (arith, c);
                          })
                          (ground (arith, room)))
                ]
              ]
            ]
          ]
        ]
      ]
    ]
