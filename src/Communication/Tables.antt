-- ===== src/Communication/Tables.antt =====
-- The tables of pipes that InterProcessComunicationManager.cpp can come to.
use mathlib.Core.Option.{none-ne-some}
use twisted_os_v.Common.{
  ℕ, ◌≡◌, ◌≢◌, refl, sym, ◌∙◌, Bool, true, false, ◌&&◌, ◌||◌, none, some, inl, inr, List, arith,
  ◌==◌, Bool-cases,
}
use twisted_os_v.Communication.Table.{
  is_negative, TrackedPipeEndpoint, PipeTable, at, NewPipe, empty_table, create_pipe,
  duplicate_pipe_descriptor,
}
use twisted_os_v.Communication.Close.{delete_pipe, drop_reference, close_entry, close_pipe}
use twisted_os_v.Communication.References.{counter, Alive, IsTable, take_entry-cases}
use twisted_os_v.Communication.Creating.{IsUnused}
use twisted_os_v.Communication.Created.{create_pipe-IsTable}
use twisted_os_v.Communication.Duplicates.{duplicate_pipe_descriptor-IsTable}
use twisted_os_v.Communication.Closing.{Closing, closed}
use twisted_os_v.Communication.Closed.{kept_table-IsTable, left_table-IsTable}

close_entry-IsTable :
    (m : PipeTable) (entry : TrackedPipeEndpoint) (others : List TrackedPipeEndpoint)
    → Closing m entry others
    → IsTable (close_entry (record m { pipe_endpoint_list = others }) entry)
unfolding close_entry drop_reference delete_pipe
close_entry-IsTable m entry others c =
    let lost = closed m entry others c in
    elim (Bool-cases (lost.reader_reference_count == 0 && lost.writer_reference_count == 0)) [
      | inl unused ↦
          let zero_counts : (side : Bool) → counter side lost ≡ 0 =
            λ side. elim side [ true ↦ ground (arith, unused) | false ↦ ground (arith, unused) ] in
          rw (close_entry, c.at_end, c.at_pipe, drop_reference, unused)
            (left_table-IsTable m entry others c _ zero_counts)
      | inr used ↦
          rw (close_entry, c.at_end, c.at_pipe, drop_reference, used)
            (kept_table-IsTable m entry others c)
    ]

-- A table keeps its references counted, and nothing in its list dangles, when an end is closed: the
-- pipe loses a reference, and with its last one it is deleted with its ends and nodes.
close_pipe-IsTable :
    (m : PipeTable) (owner file_descriptor node : ℕ)
    → IsTable m
    → IsTable (close_pipe m owner file_descriptor node).1
unfolding close_pipe
close_pipe-IsTable m owner file_descriptor node is =
    elim (Bool-cases (owner == 0 || is_negative file_descriptor || node == 0)) [
      | inl bad ↦ rw (close_pipe, bad) is
      | inr good ↦ elim (take_entry-cases owner file_descriptor node m.pipe_endpoint_list) [
        | inl missing ↦ rw (close_pipe, good, missing) is
        | inr (entry, others, (found, taken)) ↦
            let (end, pipe, (at_end, at_pipe)) = (taken.kept (Alive m) is.alive).0 in
            rw (close_pipe, good, found)
              (close_entry-IsTable m entry others (record {
                table = is;
                taken = taken;
                end = end;
                pipe = pipe;
                at_end = at_end;
                at_pipe = at_pipe;
              }))
      ]
    ]

-- The tables that calls of CreatePipe, DuplicatePipeDescriptor and ClosePipe lead to, with any
-- arguments, when what is allocated is not in use.
pub data Reachable : PipeTable → Type 0 where
  starts : Reachable empty_table
  creates :
      (m : PipeTable) (owner read_fd write_fd : ℕ) (out_is_null : Bool) (garbage : ℕ → ℕ)
      (new : NewPipe)
      → Reachable m
      → IsUnused m new
      → Reachable (create_pipe m owner read_fd write_fd out_is_null garbage new).1
  duplicates :
      (m : PipeTable) (owner file_descriptor source_node : ℕ)
      → Reachable m
      → Reachable (duplicate_pipe_descriptor m owner file_descriptor source_node).1
  closes :
      (m : PipeTable) (owner file_descriptor node : ℕ)
      → Reachable m
      → Reachable (close_pipe m owner file_descriptor node).1

at-empty {ℓ} : {A : Type ℓ} (address : ℕ) (object : A) → at (λ i. none) address ≢ some object
at-empty address object e = elim (Bool-cases (address == 0)) [
  | inl null ↦ none-ne-some object (sym (rw null refl) ∙ e)
  | inr there ↦ none-ne-some object (sym (rw there refl) ∙ e)
]

empty_table-IsTable : IsTable empty_table
empty_table-IsTable = record {
  few = omega arith;
  counted = λ address pipe side e. absurd (at-empty address pipe e);
  read_end = λ address pipe e. absurd (at-empty address pipe e);
  write_end = λ address pipe e. absurd (at-empty address pipe e);
  alive = tt;
}

-- In every table that the calls lead to from the empty one, when what is allocated is not in use, a
-- pipe's counters are the numbers of its ends in the list of either side, a pipe has its two ends, and
-- every entry of the list has its end and its pipe: no pipe and no
-- end is deleted that the list still refers to.
pub Reachable-IsTable : (m : PipeTable) → Reachable m → IsTable m
Reachable-IsTable m starts = empty_table-IsTable
Reachable-IsTable m (creates before owner read_fd write_fd out_is_null garbage new r unused) =
    create_pipe-IsTable before owner read_fd write_fd out_is_null garbage new
      (Reachable-IsTable before r) unused
Reachable-IsTable m (duplicates before owner file_descriptor source_node r) =
    duplicate_pipe_descriptor-IsTable before owner file_descriptor source_node
      (Reachable-IsTable before r)
Reachable-IsTable m (closes before owner file_descriptor node r) =
    close_pipe-IsTable before owner file_descriptor node (Reachable-IsTable before r)
