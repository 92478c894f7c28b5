-- ===== src/Communication/Closed.antt =====
-- What ClosePipe of InterProcessComunicationManager.cpp leaves, with and without the pipe.
use mathlib.Core.Option.{some-injective, none-ne-some}
use twisted_os_v.Common.{
  ℕ, ◌+◌, ◌≤◌, ◌≡◌, ◌≢◌, refl, sym, ap, subst, ◌∙◌, Bool, true, false, Option, none, some, inl, inr,
  List, [], ◌∷◌, length, All, arith, ◌==◌, if◌then◌else◌, Bool-cases, ==_iff,
}
use twisted_os_v.Communication.Pipes.{PipeKernelObject}
use twisted_os_v.Communication.Table.{
  max_tracked_pipes, PipeEndpoint, PipeNode, TrackedPipeEndpoint, PipeTable, place, at,
}
use twisted_os_v.Communication.Close.{delete}
use twisted_os_v.Communication.References.{
  at-place, at-some, placed, Alive-place, same, is_end, points, references, counter, Alive, IsTable,
  All-map,
}
use twisted_os_v.Communication.Closing.{
  at-delete, release-ends, references-ext, Closing, closed, counted-here, counted-apart,
}

module _ (m : PipeTable) (entry : TrackedPipeEndpoint) (others : List TrackedPipeEndpoint)
    (c : Closing m entry others) where
  abbrev lost : PipeKernelObject
  lost = closed m entry others c

  there : c.end.pipe ≢ 0
  there = at-some m.pipes c.end.pipe c.pipe c.at_pipe

  few_left : length others ≤ max_tracked_pipes
  few_left = omega (arith, c.taken.shorter, c.table.few)

  others-Alive : All (Alive m) others
  others-Alive = (c.taken.kept (Alive m) c.table.alive).1

  lost-read_end :
      at m.endpoints lost.read_endpoint ≡ some (record { pipe = c.end.pipe; is_read_end = true })
  lost-read_end =
      ap (at m.endpoints) ((release-ends c.end.is_read_end c.pipe).0)
      ∙ c.table.read_end c.end.pipe c.pipe c.at_pipe

  lost-write_end :
      at m.endpoints lost.write_endpoint ≡ some (record { pipe = c.end.pipe; is_read_end = false })
  lost-write_end =
      ap (at m.endpoints) ((release-ends c.end.is_read_end c.pipe).1)
      ∙ c.table.write_end c.end.pipe c.pipe c.at_pipe

  -- The table where a reference is left.
  abbrev pub kept_table : PipeTable
  kept_table = record m {
    pipes = place m.pipes c.end.pipe (some lost);
    pipe_endpoint_list = others;
  }

  pub kept_table-IsTable : IsTable kept_table
  kept_table-IsTable = record {
    few = few_left;
    counted = λ address pipe side e. elim (placed m c.end.pipe (some lost) address pipe there e) [
      | inl (here, same_pipe) ↦
          subst (λ a. counter side pipe ≡ references m.endpoints a side others) (sym here)
            (ap (counter side) (sym (some-injective lost pipe same_pipe))
              ∙ counted-here m entry others c side)
      | inr (other, old) ↦ counted-apart m entry others c address pipe side other old
    ];
    read_end = λ address pipe e. elim (placed m c.end.pipe (some lost) address pipe there e) [
      | inl (here, same_pipe) ↦
          ap (λ p. at m.endpoints p.read_endpoint) (sym (some-injective lost pipe same_pipe))
          ∙ lost-read_end
          ∙ ap (λ a. some (record { pipe = a; is_read_end = true })) (sym here)
      | inr (other, old) ↦ c.table.read_end address pipe old
    ];
    write_end = λ address pipe e. elim (placed m c.end.pipe (some lost) address pipe there e) [
      | inl (here, same_pipe) ↦
          ap (λ p. at m.endpoints p.write_endpoint) (sym (some-injective lost pipe same_pipe))
          ∙ lost-write_end
          ∙ ap (λ a. some (record { pipe = a; is_read_end = false })) (sym here)
      | inr (other, old) ↦ c.table.write_end address pipe old
    ];
    alive =
        All-map (Alive m) (Alive kept_table) others
          (λ x. Alive-place m others c.end.pipe lost x there) others-Alive;
  }

  -- The table where none is.
  abbrev pub left_endpoints : ℕ → Option PipeEndpoint
  left_endpoints = delete (delete m.endpoints lost.read_endpoint) lost.write_endpoint

  abbrev pub left_table : (ℕ → Option PipeNode) → PipeTable
  left_table nodes = record {
    pipes = place (place m.pipes c.end.pipe (some lost)) c.end.pipe none;
    endpoints = left_endpoints;
    nodes = nodes;
    pipe_endpoint_list = others;
  }

  left-at :
      (i : ℕ)
      → at left_endpoints i ≡ (
          if i == lost.write_endpoint
          then none
          else if i == lost.read_endpoint
          then none
          else at m.endpoints i)
  left-at i =
      at-delete (delete m.endpoints lost.read_endpoint) lost.write_endpoint i
      ∙ ap (λ o. if i == lost.write_endpoint then none else o)
          (at-delete m.endpoints lost.read_endpoint i)

  -- An end of another pipe survives.
  survives :
      (i : ℕ) (end : PipeEndpoint)
      → end.pipe ≢ c.end.pipe
      → at m.endpoints i ≡ some end
      → at left_endpoints i ≡ some end
  survives i end other found = elim (Bool-cases (i == lost.write_endpoint)) [
    | inl w ↦ absurd (
        other (
          ap (λ d. d.pipe)
            (some-injective end _ (
              sym found
              ∙ ap (at m.endpoints) ((==_iff i lost.write_endpoint).0 w)
              ∙ lost-write_end))))
    | inr w ↦ elim (Bool-cases (i == lost.read_endpoint)) [
      | inl r ↦ absurd (
          other (
            ap (λ d. d.pipe)
              (some-injective end _ (
                sym found
                ∙ ap (at m.endpoints) ((==_iff i lost.read_endpoint).0 r)
                ∙ lost-read_end))))
      | inr r ↦ left-at i ∙ rw (w, r) found
    ]
  ]

  left-points :
      (address : ℕ) (side : Bool)
      → address ≢ c.end.pipe
      → (x : TrackedPipeEndpoint)
      → points left_endpoints address side x ≡ points m.endpoints address side x
  left-points address side other x =
      let i = x.endpoint in
      let apart : (c.end.pipe == address) ≡ false = ground (arith, other) in
      let gone : (b : Bool)
          → at left_endpoints i ≡ none
          → at m.endpoints i ≡ some (record { pipe = c.end.pipe; is_read_end = b })
          → points left_endpoints address side x ≡ points m.endpoints address side x =
        λ b now before.
          ap (is_end address side) now ∙ sym (ap (is_end address side) before ∙ rw apart refl) in
      elim (Bool-cases (i == lost.write_endpoint)) [
        | inl w ↦
            gone false (left-at i ∙ rw w refl)
              (ap (at m.endpoints) ((==_iff i lost.write_endpoint).0 w) ∙ lost-write_end)
        | inr w ↦ elim (Bool-cases (i == lost.read_endpoint)) [
          | inl r ↦
              gone true (left-at i ∙ rw (w, r) refl)
                (ap (at m.endpoints) ((==_iff i lost.read_endpoint).0 r) ∙ lost-read_end)
          | inr r ↦ ap (is_end address side) (left-at i ∙ rw (w, r) refl)
        ]
      ]

  -- An end of a list without references to the pipe is an end of another one.
  unreferenced :
      (x : TrackedPipeEndpoint) (end : PipeEndpoint) (rest : ℕ)
      → at m.endpoints x.endpoint ≡ some end
      → (if points m.endpoints c.end.pipe end.is_read_end x then 1 else 0) + rest ≡ 0
      → end.pipe ≢ c.end.pipe
  unreferenced x end rest found unused here =
      let same_pipe : (end.pipe == c.end.pipe) ≡ true = ground (arith, here) in
      let same_side : same end.is_read_end end.is_read_end ≡ true =
        elim (Bool-cases end.is_read_end) [ inl e ↦ rw e refl | inr e ↦ rw e refl ] in
      let counted : points m.endpoints c.end.pipe end.is_read_end x ≡ true =
        ap (is_end c.end.pipe end.is_read_end) found ∙ rw (same_pipe, same_side) refl in
      let one = ap (λ b. (if b then 1 else 0) + rest) (sym counted) in omega (arith, one, unused)

  left-Alive :
      (nodes : ℕ → Option PipeNode) (entries : List TrackedPipeEndpoint)
      → ((side : Bool) → references m.endpoints c.end.pipe side entries ≡ 0)
      → All (Alive m) entries
      → All (Alive (left_table nodes)) entries
  left-Alive nodes [] unused alive = tt
  left-Alive nodes (x ∷ entries) unused ((end, pipe, (at_end, at_pipe)), rest) =
      let other =
        unreferenced x end (references m.endpoints c.end.pipe end.is_read_end entries) at_end
          (unused end.is_read_end) in
      let apart : (end.pipe == c.end.pipe) ≡ false = ground (arith, other) in
      let still = at-place (place m.pipes c.end.pipe (some lost)) c.end.pipe none end.pipe there in
      (
        (end, pipe, (survives x.endpoint end other at_end, still ∙ rw apart at_pipe)),
        left-Alive nodes entries
            (λ side. (let none_left = unused side in ground (arith, none_left))) rest,
      )

  -- A pipe that the table is left with.
  left-placed :
      (address : ℕ) (pipe : PipeKernelObject)
      → at (place (place m.pipes c.end.pipe (some lost)) c.end.pipe none) address ≡ some pipe
      → (address ≢ c.end.pipe) × (at m.pipes address ≡ some pipe)
  left-placed address pipe e = elim (placed kept_table c.end.pipe none address pipe there e) [
    | inl (here, missing) ↦ absurd (none-ne-some pipe missing)
    | inr (other, kept) ↦ elim (placed m c.end.pipe (some lost) address pipe there kept) [
      | inl (here, _) ↦ absurd (other here)
      | inr (other', old) ↦ (other', old)
    ]
  ]

  pub left_table-IsTable :
      (nodes : ℕ → Option PipeNode)
      → ((side : Bool) → counter side lost ≡ 0)
      → IsTable (left_table nodes)
  left_table-IsTable nodes unused = record {
    few = few_left;
    counted = λ address pipe side e.
        (let (other, old) = left-placed address pipe e in
          counted-apart m entry others c address pipe side other old
          ∙ sym (
              references-ext m.endpoints left_endpoints address side others
                (left-points address side other)));
    read_end = λ address pipe e.
        (let (other, old) = left-placed address pipe e in
          survives pipe.read_endpoint _ other (c.table.read_end address pipe old));
    write_end = λ address pipe e.
        (let (other, old) = left-placed address pipe e in
          survives pipe.write_endpoint _ other (c.table.write_end address pipe old));
    alive =
        left-Alive nodes others (λ side. sym (counted-here m entry others c side) ∙ unused side)
          others-Alive;
  }
