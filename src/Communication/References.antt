-- ===== src/Communication/References.antt =====
-- The references to the pipes of InterProcessComunicationManager.cpp, counted in the list of the ends.
use mathlib.Core.Option.{none-ne-some}
use twisted_os_v.Common.{
  ℕ, suc, ◌+◌, ◌≤◌, ◌≡◌, ◌≢◌, refl, sym, ap, ◌∙◌, Bool, true, false, not, ◌&&◌, ◌⊎◌, Option, none,
  some, inl, inr, List, [], ◌∷◌, ◌++◌, length, All, arith, ◌==◌, if◌then◌else◌, Bool-cases,
}
use twisted_os_v.Communication.Pipes.{PipeKernelObject}
use twisted_os_v.Communication.Table.{
  max_tracked_pipes, PipeEndpoint, TrackedPipeEndpoint, PipeTable, place, at,
}
use twisted_os_v.Communication.Close.{is_entry, take_entry}

abbrev pub same : Bool → Bool → Bool
same true b = b
same false b = not b

-- An end of a given pipe and side.
abbrev pub is_end : (pipe : ℕ) → (side : Bool) → Option PipeEndpoint → Bool
is_end pipe side none = false
is_end pipe side (some end) = end.pipe == pipe && same side end.is_read_end

abbrev pub points :
    (ℕ → Option PipeEndpoint) → (pipe : ℕ) → (side : Bool) → TrackedPipeEndpoint → Bool
points endpoints pipe side entry = is_end pipe side (at endpoints entry.endpoint)

-- How many ends of a list are a given end.
abbrev pub references :
    (ℕ → Option PipeEndpoint) → (pipe : ℕ) → (side : Bool) → List TrackedPipeEndpoint → ℕ
references endpoints pipe side [] = 0
references endpoints pipe side (entry ∷ entries) =
    (if points endpoints pipe side entry then 1 else 0) + references endpoints pipe side entries

abbrev pub counter : Bool → PipeKernelObject → ℕ
counter true pipe = pipe.reader_reference_count
counter false pipe = pipe.writer_reference_count

-- An end in the list that is there, with its pipe.
abbrev pub Alive : PipeTable → TrackedPipeEndpoint → Type 0
Alive m entry =
    (end : PipeEndpoint) × (pipe : PipeKernelObject) × ((at m.endpoints entry.endpoint ≡ some end)
      × (at m.pipes end.pipe ≡ some pipe))

-- A pipe has its two ends, its counters are the numbers of its ends in the list, and no entry of the
-- list dangles.
pub record IsTable (m : PipeTable) : Type 0 where
  pub few : length m.pipe_endpoint_list ≤ max_tracked_pipes
  pub counted :
      (address : ℕ) (pipe : PipeKernelObject) (side : Bool)
      → at m.pipes address ≡ some pipe
      → counter side pipe ≡ references m.endpoints address side m.pipe_endpoint_list
  pub read_end :
      (address : ℕ) (pipe : PipeKernelObject)
      → at m.pipes address ≡ some pipe
      → at m.endpoints pipe.read_endpoint ≡ some (record { pipe = address; is_read_end = true })
  pub write_end :
      (address : ℕ) (pipe : PipeKernelObject)
      → at m.pipes address ≡ some pipe
      → at m.endpoints pipe.write_endpoint ≡ some (record { pipe = address; is_read_end = false })
  pub alive : All (Alive m) m.pipe_endpoint_list

pub at-place {ℓ} :
    {A : Type ℓ} (objects : ℕ → Option A) (address : ℕ) (object : Option A) (i : ℕ)
    → address ≢ 0
    → at (place objects address object) i ≡ (if i == address then object else at objects i)
at-place objects address object i some_address = elim (Bool-cases (i == 0)) [
  | inl null ↦ let other : (i == address) ≡ false = ground (arith, null) in rw (null, other) refl
  | inr there ↦ rw there refl
]

pub at-some {ℓ} :
    {A : Type ℓ} (objects : ℕ → Option A) (address : ℕ) (object : A)
    → at objects address ≡ some object
    → address ≢ 0
at-some objects address object e null =
    let zero_is : (address == 0) ≡ true = ground arith in
    let missing : at objects address ≡ none = rw zero_is refl in
    none-ne-some object (sym missing ∙ e)

-- A pipe of the table behind a write of one pipe: that one, or another.
pub placed :
    (m : PipeTable) (written : ℕ) (object : Option PipeKernelObject) (address : ℕ)
    (pipe : PipeKernelObject)
    → written ≢ 0
    → at (place m.pipes written object) address ≡ some pipe
    → ((address ≡ written) × (object ≡ some pipe))
      ⊎ ((address ≢ written) × (at m.pipes address ≡ some pipe))
placed m written object address pipe some_address e =
    let split = at-place m.pipes written object address some_address in
    elim (Bool-cases (address == written)) [
      | inl here ↦ inl (ground (arith, here), sym (rw here refl) ∙ sym split ∙ e)
      | inr other ↦ inr (ground (arith, other), sym (rw other refl) ∙ sym split ∙ e)
    ]

-- An entry stays alive where a pipe is written.
pub Alive-place :
    (m : PipeTable) (list : List TrackedPipeEndpoint) (written : ℕ) (pipe : PipeKernelObject)
    (entry : TrackedPipeEndpoint)
    → written ≢ 0
    → Alive m entry
    → Alive
        (record m { pipes = place m.pipes written (some pipe); pipe_endpoint_list = list })
        entry
Alive-place m list written pipe entry some_address (end, old, (at_end, at_pipe)) =
    let split = at-place m.pipes written (some pipe) end.pipe some_address in
    elim (Bool-cases (end.pipe == written)) [
      | inl here ↦ (end, pipe, (at_end, split ∙ rw here refl))
      | inr other ↦ (end, old, (at_end, split ∙ rw other at_pipe))
    ]

pub references-append :
    (endpoints : ℕ → Option PipeEndpoint) (pipe : ℕ) (side : Bool)
    (entries : List TrackedPipeEndpoint) (entry : TrackedPipeEndpoint)
    → references endpoints pipe side (entries ++ (entry ∷ []))
      ≡ references endpoints pipe side entries + (if points endpoints pipe side entry then 1 else 0)
references-append endpoints pipe side [] entry = omega arith
references-append endpoints pipe side (first ∷ entries) entry =
    omega (arith, references-append endpoints pipe side entries entry)

pub references-bounded :
    (endpoints : ℕ → Option PipeEndpoint) (pipe : ℕ) (side : Bool)
    (entries : List TrackedPipeEndpoint)
    → references endpoints pipe side entries ≤ length entries
references-bounded endpoints pipe side [] = omega arith
references-bounded endpoints pipe side (entry ∷ entries) =
    let rest = references-bounded endpoints pipe side entries in ground (arith, rest)

module _ (P : TrackedPipeEndpoint → Type 0) where
  pub All-append :
      (xs : List TrackedPipeEndpoint) (x : TrackedPipeEndpoint)
      → All P xs
      → P x
      → All P (xs ++ (x ∷ []))
  All-append [] x all p = (p, tt)
  All-append (y ∷ xs) x (first, rest) p = (first, All-append xs x rest p)

  pub All-map :
      (Q : TrackedPipeEndpoint → Type 0) (xs : List TrackedPipeEndpoint)
      → ((x : TrackedPipeEndpoint) → P x → Q x)
      → All P xs
      → All Q xs
  All-map Q [] f all = tt
  All-map Q (x ∷ xs) f (first, rest) = (f x first, All-map Q xs f rest)

-- What ClosePipe takes out of the list.
pub record Taken (entries : List TrackedPipeEndpoint) (entry : TrackedPipeEndpoint)
    (others : List TrackedPipeEndpoint) : Type 1 where
  pub shorter : length entries ≡ suc (length others)
  pub fewer :
      (endpoints : ℕ → Option PipeEndpoint) (pipe : ℕ) (side : Bool)
      → references endpoints pipe side entries
        ≡ (if points endpoints pipe side entry then 1 else 0)
          + references endpoints pipe side others
  pub kept : (P : TrackedPipeEndpoint → Type 0) → All P entries → P entry × All P others

pub take_entry-cases :
    (owner file_descriptor node : ℕ) (entries : List TrackedPipeEndpoint)
    → (take_entry owner file_descriptor node entries ≡ none)
      ⊎ ((entry : TrackedPipeEndpoint) × (others : List TrackedPipeEndpoint) × ((take_entry owner
                file_descriptor node entries
              ≡ some (entry, others))
            × Taken entries entry others))
unfolding take_entry
take_entry-cases owner file_descriptor node [] = inl refl
take_entry-cases owner file_descriptor node (first ∷ entries) =
    elim (Bool-cases (is_entry owner file_descriptor node first)) [
      | inl found ↦ inr (
        first,
        entries,
        (
          rw found refl,
          record { shorter = refl; fewer = λ endpoints pipe side. refl; kept = λ P all. all },
        ),
      )
      | inr other ↦ elim (take_entry-cases owner file_descriptor node entries) [
        | inl missing ↦ inl (rw (other, missing) refl)
        | inr (entry, others, (found, is)) ↦ inr (
          entry,
          first ∷ others,
          (
            rw (other, found) refl,
            record {
              shorter = ap suc is.shorter;
              fewer = λ endpoints pipe side. omega (arith, is.fewer endpoints pipe side);
              kept = λ P all. (let (p, rest) = is.kept P all.1 in (p, (all.0, rest)));
            },
          ),
        )
      ]
    ]
