-- ===== src/Communication/Creating.antt =====
-- The table of InterProcessComunicationManager.cpp with a pipe that CreatePipe adds.
use mathlib.Core.Option.{none-ne-some}
use twisted_os_v.Common.{
  ℕ, ◌+◌, ◌≡◌, ◌≢◌, refl, sym, ap, ◌∙◌, Bool, true, false, Option, none, some, inl, inr, List, [],
  ◌∷◌, ◌++◌, All, arith, ◌==◌, if◌then◌else◌, Bool-cases, ==_iff,
}
use twisted_os_v.Communication.Pipes.{PipeKernelObject}
use twisted_os_v.Communication.Table.{
  PipeEndpoint, TrackedPipeEndpoint, PipeTable, place, at, NewPipe, fresh_pipe,
}
use twisted_os_v.Communication.References.{at-place, is_end, points, references, Alive, IsTable}

-- What `new` gives out is not in use.
pub record IsUnused (m : PipeTable) (new : NewPipe) : Type 0 where
  pub pipe_unused : at m.pipes new.new_pipe ≡ none
  pub read_unused : at m.endpoints new.new_read_endpoint ≡ none
  pub write_unused : at m.endpoints new.new_write_endpoint ≡ none
  pub two_ends : new.new_read_endpoint ≢ new.new_write_endpoint

-- The pointers are not null.
pub record IsGiven (new : NewPipe) : Type 0 where
  pub some_pipe : new.new_pipe ≢ 0
  pub some_read : new.new_read_endpoint ≢ 0
  pub some_write : new.new_write_endpoint ≢ 0

pub references-append_list :
    (endpoints : ℕ → Option PipeEndpoint) (pipe : ℕ) (side : Bool)
    (entries more : List TrackedPipeEndpoint)
    → references endpoints pipe side (entries ++ more)
      ≡ references endpoints pipe side entries + references endpoints pipe side more
references-append_list endpoints pipe side [] more = omega arith
references-append_list endpoints pipe side (entry ∷ entries) more =
    omega (arith, references-append_list endpoints pipe side entries more)

pub All-append_list :
    (P : TrackedPipeEndpoint → Type 0) (entries more : List TrackedPipeEndpoint)
    → All P entries
    → All P more
    → All P (entries ++ more)
All-append_list P [] more all all' = all'
All-append_list P (x ∷ entries) more (first, rest) all' =
    (first, All-append_list P entries more rest all')

module _ (m : PipeTable) (owner read_fd write_fd : ℕ) (garbage : ℕ → ℕ) (new : NewPipe)
    (is : IsTable m) (unused : IsUnused m new) (given : IsGiven new) where
  abbrev pub added : PipeTable
  added = record {
    pipes = place m.pipes new.new_pipe (some (fresh_pipe garbage new));
    endpoints =
        place
          (place m.endpoints new.new_read_endpoint
            (some (record { pipe = new.new_pipe; is_read_end = true })))
          new.new_write_endpoint (some (record { pipe = new.new_pipe; is_read_end = false }));
    nodes = m.nodes;
    pipe_endpoint_list = m.pipe_endpoint_list;
  }

  added-at :
      (i : ℕ)
      → at added.endpoints i ≡ (
          if i == new.new_write_endpoint
          then some (record { pipe = new.new_pipe; is_read_end = false })
          else if i == new.new_read_endpoint
          then some (record { pipe = new.new_pipe; is_read_end = true })
          else at m.endpoints i)
  added-at i =
      at-place
        (place m.endpoints new.new_read_endpoint
          (some (record { pipe = new.new_pipe; is_read_end = true })))
        new.new_write_endpoint (some (record { pipe = new.new_pipe; is_read_end = false })) i
        given.some_write
      ∙ ap
          (λ o.
            if i == new.new_write_endpoint
            then some (record { pipe = new.new_pipe; is_read_end = false })
            else o)
          (at-place m.endpoints new.new_read_endpoint
            (some (record { pipe = new.new_pipe; is_read_end = true })) i given.some_read)

  -- An end that was there is still there.
  pub still-there :
      (i : ℕ) (end : PipeEndpoint) → at m.endpoints i ≡ some end → at added.endpoints i ≡ some end
  still-there i end found = elim (Bool-cases (i == new.new_write_endpoint)) [
    | inl w ↦ absurd (
        none-ne-some end (
          sym unused.write_unused
          ∙ sym (ap (at m.endpoints) ((==_iff i new.new_write_endpoint).0 w))
          ∙ found))
    | inr w ↦ elim (Bool-cases (i == new.new_read_endpoint)) [
      | inl r ↦ absurd (
          none-ne-some end (
            sym unused.read_unused
            ∙ sym (ap (at m.endpoints) ((==_iff i new.new_read_endpoint).0 r))
            ∙ found))
      | inr r ↦ added-at i ∙ rw (w, r) found
    ]
  ]

  -- No end of the table is an end of the new pipe.
  not_new :
      (end : PipeEndpoint) (pipe : PipeKernelObject)
      → at m.pipes end.pipe ≡ some pipe
      → end.pipe ≢ new.new_pipe
  not_new end pipe found here =
      none-ne-some pipe (sym unused.pipe_unused ∙ sym (ap (at m.pipes) here) ∙ found)

  pub read_there :
      at added.endpoints new.new_read_endpoint
      ≡ some (record { pipe = new.new_pipe; is_read_end = true })
  read_there =
      let apart : (new.new_read_endpoint == new.new_write_endpoint) ≡ false =
        (let ends = unused.two_ends in ground (arith, ends)) in
      let itself : (new.new_read_endpoint == new.new_read_endpoint) ≡ true = ground arith in
      added-at new.new_read_endpoint ∙ rw (apart, itself) refl

  pub write_there :
      at added.endpoints new.new_write_endpoint
      ≡ some (record { pipe = new.new_pipe; is_read_end = false })
  write_there =
      let itself : (new.new_write_endpoint == new.new_write_endpoint) ≡ true = ground arith in
      added-at new.new_write_endpoint ∙ rw itself refl

  pub references-old :
      (address : ℕ) (side : Bool) (entries : List TrackedPipeEndpoint)
      → All (Alive m) entries
      → references added.endpoints address side entries
        ≡ references m.endpoints address side entries
  references-old address side [] alive = refl
  references-old address side (x ∷ entries) ((end, pipe, (at_end, at_pipe)), rest) =
      let kept = still-there x.endpoint end at_end ∙ sym at_end in
      let later = references-old address side entries rest in
      λ i. (if is_end address side (kept i) then 1 else 0) + later i

  pub references-new :
      (side : Bool) (entries : List TrackedPipeEndpoint)
      → All (Alive m) entries
      → references m.endpoints new.new_pipe side entries ≡ 0
  references-new side [] alive = refl
  references-new side (x ∷ entries) ((end, pipe, (at_end, at_pipe)), rest) =
      let other = not_new end pipe at_pipe in
      let apart : (end.pipe == new.new_pipe) ≡ false = ground (arith, other) in
      let none_here : points m.endpoints new.new_pipe side x ≡ false =
        ap (is_end new.new_pipe side) at_end ∙ rw apart refl in
      let later = references-new side entries rest in
      ap (λ b. (if b then 1 else 0) + references m.endpoints new.new_pipe side entries) none_here
      ∙ omega (arith, later)

  abbrev pub two_entries : List TrackedPipeEndpoint
  two_entries =
      record {
        owner = owner;
        file_descriptor = read_fd;
        node = new.new_read_node;
        endpoint = new.new_read_endpoint;
      }
      ∷ record {
        owner = owner;
        file_descriptor = write_fd;
        node = new.new_write_node;
        endpoint = new.new_write_endpoint;
      }
      ∷ []

  -- The new entries count for the new pipe, once on either side.
  pub references-two :
      (address : ℕ) (side : Bool)
      → references added.endpoints address side two_entries
        ≡ (if new.new_pipe == address then 1 else 0)
  references-two address side =
      let two : references added.endpoints address side two_entries
          ≡ (if is_end address side (some (record { pipe = new.new_pipe; is_read_end = true }))
              then 1
              else 0)
            + ((if is_end address side (some (record { pipe = new.new_pipe; is_read_end = false }))
                  then 1
                  else 0)
                + 0) =
        λ i.
          (if is_end address side (read_there i) then 1 else 0)
          + ((if is_end address side (write_there i) then 1 else 0) + 0) in
      two ∙ elim (Bool-cases (new.new_pipe == address)) [
        | inl e ↦ elim (Bool-cases side) [ inl s ↦ rw (e, s) refl | inr s ↦ rw (e, s) refl ]
        | inr e ↦ rw e refl
      ]

  pub Alive-old : (x : TrackedPipeEndpoint) → Alive m x → Alive added x
  Alive-old x (end, pipe, (at_end, at_pipe)) =
      let other = not_new end pipe at_pipe in
      let apart : (end.pipe == new.new_pipe) ≡ false = ground (arith, other) in
      (
        end,
        pipe,
        (
          still-there x.endpoint end at_end,
          at-place m.pipes new.new_pipe (some (fresh_pipe garbage new)) end.pipe given.some_pipe
              ∙ rw apart at_pipe,
        ),
      )

  pub pipe_there : at added.pipes new.new_pipe ≡ some (fresh_pipe garbage new)
  pipe_there =
      let itself : (new.new_pipe == new.new_pipe) ≡ true = ground arith in
      at-place m.pipes new.new_pipe (some (fresh_pipe garbage new)) new.new_pipe given.some_pipe
      ∙ rw itself refl
