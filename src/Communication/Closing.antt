-- ===== src/Communication/Closing.antt =====
-- ClosePipe of InterProcessComunicationManager.cpp keeps the references counted.
use twisted_os_v.Common.{
  ℕ, ◌+◌, ◌-◌, ◌≡◌, ◌≢◌, refl, ap, ◌∙◌, Bool, true, false, Option, none, some, inl, inr, List, [],
  ◌∷◌, arith, ◌==◌, if◌then◌else◌, Bool-cases,
}
use twisted_os_v.Communication.Pipes.{PipeKernelObject}
use twisted_os_v.Communication.Table.{PipeEndpoint, TrackedPipeEndpoint, PipeTable, at}
use twisted_os_v.Communication.Close.{release, delete}
use twisted_os_v.Communication.References.{
  at-place, same, is_end, points, references, counter, IsTable, Taken,
}

pub at-delete {ℓ} :
    {A : Type ℓ} (objects : ℕ → Option A) (address i : ℕ)
    → at (delete objects address) i ≡ (if i == address then none else at objects i)
at-delete objects address i = elim (Bool-cases (address == 0)) [
  | inl null ↦ elim (Bool-cases (i == address)) [
    | inl here ↦
        let zero_is : (i == 0) ≡ true = ground (arith, null, here) in rw (null, here, zero_is) refl
    | inr other ↦ rw (null, other) refl
  ]
  | inr there ↦ rw there (at-place objects address none i (ground (arith, there)))
]

counter-release :
    (side other : Bool) (pipe : PipeKernelObject)
    → counter side (release other pipe) ≡ counter side pipe - (if same side other then 1 else 0)
counter-release true true pipe = refl
counter-release true false pipe = omega arith
counter-release false true pipe = omega arith
counter-release false false pipe = refl

pub release-ends :
    (side : Bool) (pipe : PipeKernelObject)
    → ((release side pipe).read_endpoint ≡ pipe.read_endpoint)
      × ((release side pipe).write_endpoint ≡ pipe.write_endpoint)
release-ends true pipe = (refl, refl)
release-ends false pipe = (refl, refl)

pub references-ext :
    (endpoints endpoints' : ℕ → Option PipeEndpoint) (pipe : ℕ) (side : Bool)
    (entries : List TrackedPipeEndpoint)
    → ((entry : TrackedPipeEndpoint)
        → points endpoints' pipe side entry ≡ points endpoints pipe side entry)
    → references endpoints' pipe side entries ≡ references endpoints pipe side entries
references-ext endpoints endpoints' pipe side [] same_points = refl
references-ext endpoints endpoints' pipe side (entry ∷ entries) same_points =
    let rest = references-ext endpoints endpoints' pipe side entries same_points in
    λ i. (if same_points entry i then 1 else 0) + rest i

-- A table with an entry to close, whose end and pipe are there.
pub record Closing (m : PipeTable) (entry : TrackedPipeEndpoint) (others : List TrackedPipeEndpoint)
    : Type 1 where
  pub table : IsTable m
  pub taken : Taken m.pipe_endpoint_list entry others
  pub end : PipeEndpoint
  pub pipe : PipeKernelObject
  pub at_end : at m.endpoints entry.endpoint ≡ some end
  pub at_pipe : at m.pipes end.pipe ≡ some pipe

module _ (m : PipeTable) (entry : TrackedPipeEndpoint) (others : List TrackedPipeEndpoint)
    (c : Closing m entry others) where
  abbrev pub closed : PipeKernelObject
  closed = release c.end.is_read_end c.pipe

  pub entry-is_end :
      (address : ℕ) (side : Bool)
      → references m.endpoints address side m.pipe_endpoint_list
        ≡ (if is_end address side (some c.end) then 1 else 0)
          + references m.endpoints address side others
  entry-is_end address side =
      c.taken.fewer m.endpoints address side
      ∙ ap
          (λ o.
            (if is_end address side o then 1 else 0) + references m.endpoints address side others)
          c.at_end

  -- The counters of the pipe that loses a reference are those of the list without the entry.
  pub counted-here :
      (side : Bool) → counter side closed ≡ references m.endpoints c.end.pipe side others
  counted-here side =
      let itself : (c.end.pipe == c.end.pipe) ≡ true = ground arith in
      let own : is_end c.end.pipe side (some c.end) ≡ same side c.end.is_read_end =
        rw itself refl in
      let before =
        c.table.counted c.end.pipe c.pipe side c.at_pipe
        ∙ entry-is_end c.end.pipe side
        ∙ ap (λ b. (if b then 1 else 0) + references m.endpoints c.end.pipe side others) own in
      counter-release side c.end.is_read_end c.pipe
      ∙ ap (λ n. n - (if same side c.end.is_read_end then 1 else 0)) before
      ∙ omega arith

  pub counted-apart :
      (address : ℕ) (pipe : PipeKernelObject) (side : Bool)
      → address ≢ c.end.pipe
      → at m.pipes address ≡ some pipe
      → counter side pipe ≡ references m.endpoints address side others
  counted-apart address pipe side other old =
      let apart : (c.end.pipe == address) ≡ false = ground (arith, other) in
      let none_lost : is_end address side (some c.end) ≡ false = rw apart refl in
      c.table.counted address pipe side old
      ∙ entry-is_end address side
      ∙ ap (λ b. (if b then 1 else 0) + references m.endpoints address side others) none_lost
      ∙ omega arith
