-- ===== src/Communication/Close.antt =====
-- ClosePipe of InterProcessComunicationManager.cpp.
use twisted_os_v.Common.{
  ℕ, ◌-◌, Bool, true, false, ◌&&◌, ◌||◌, Option, none, some, List, [], ◌∷◌, ◌==◌, if◌then◌else◌,
}
use twisted_os_v.Communication.Pipes.{PipeKernelObject}
use twisted_os_v.Communication.Table.{is_negative, TrackedPipeEndpoint, PipeTable, place, at}

-- One fewer reference to an end, unless there is none.
abbrev pub release : Bool → PipeKernelObject → PipeKernelObject
release true pipe = record pipe { reader_reference_count = pipe.reader_reference_count - 1 }
release false pipe = record pipe { writer_reference_count = pipe.writer_reference_count - 1 }

-- The entry that ClosePipe looks for, and the list without it.
abbrev pub is_entry : (owner file_descriptor node : ℕ) → TrackedPipeEndpoint → Bool
is_entry owner file_descriptor node entry =
    entry.owner == owner && entry.file_descriptor == file_descriptor && entry.node == node

unfoldable pub take_entry :
    (owner file_descriptor node : ℕ)
    → List TrackedPipeEndpoint
    → Option (TrackedPipeEndpoint × List TrackedPipeEndpoint)
take_entry owner file_descriptor node [] = none
take_entry owner file_descriptor node (entry ∷ entries) =
    let rest = take_entry owner file_descriptor node entries in
    if is_entry owner file_descriptor node entry
    then some (entry, entries)
    else elim rest [ none ↦ none | some (found, others) ↦ some (found, entry ∷ others) ]

-- A pointer's object is deleted unless it is null.
abbrev pub delete {ℓ} : {A : Type ℓ} → (ℕ → Option A) → ℕ → ℕ → Option A
delete objects address = if address == 0 then objects else place objects address none

unfoldable pub delete_pipe : PipeTable → (address : ℕ) → PipeKernelObject → PipeTable
delete_pipe m address pipe = record m {
  nodes = delete (delete m.nodes pipe.read_node) pipe.write_node;
  endpoints = delete (delete m.endpoints pipe.read_endpoint) pipe.write_endpoint;
  pipes = place m.pipes address none;
}

-- ClosePipe with the entry's pipe, which has one reference fewer.
unfoldable pub drop_reference : PipeTable → (address : ℕ) → PipeKernelObject → PipeTable
drop_reference m address pipe =
    let m' = record m { pipes = place m.pipes address (some pipe) } in
    if pipe.reader_reference_count == 0 && pipe.writer_reference_count == 0
    then delete_pipe m' address pipe
    else m'

unfoldable pub close_entry : PipeTable → TrackedPipeEndpoint → PipeTable
close_entry m entry = elim (at m.endpoints entry.endpoint) [
  | none ↦ m
  | some end ↦ elim (at m.pipes end.pipe) [
    | none ↦ m
    | some pipe ↦ drop_reference m end.pipe (release end.is_read_end pipe)
  ]
]

unfoldable pub close_pipe : PipeTable → (owner file_descriptor node : ℕ) → Bool × PipeTable
close_pipe m owner file_descriptor node =
    if owner == 0 || is_negative file_descriptor || node == 0
    then (false, m)
    else elim (take_entry owner file_descriptor node m.pipe_endpoint_list) [
      | none ↦ (false, m)
      | some (entry, others) ↦ (true, close_entry (record m { pipe_endpoint_list = others }) entry)
    ]
