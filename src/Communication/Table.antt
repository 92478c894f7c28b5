-- ===== src/Communication/Table.antt =====
-- CreatePipe, DuplicatePipeDescriptor and ClosePipe of InterProcessComunicationManager.cpp. Objects
-- stand at addresses, and an address that holds none has been deleted or was never given out; what `new`
-- returns is a parameter, 0 where it fails. A file descriptor is a word, negative from 2 ^ 63 on.
use twisted_os_v.Common.{
  ℕ, ◌+◌, ◌*◌, Bool, true, false, ◌&&◌, ◌||◌, not, Option, none, some, List, [], ◌∷◌, ◌++◌, length,
  ◌==◌, ltb, leb, if◌then◌else◌,
}
use twisted_os_v.Common.Words.{u64}
use twisted_os_v.Communication.Pipes.{
  einval, enomem, emfile, ebadf, IoResult, transferred, failed, PipeKernelObject,
}

abbrev pub max_tracked_pipes : ℕ
max_tracked_pipes = 32 * 256

abbrev pub is_negative : ℕ → Bool
is_negative file_descriptor = leb 0x8000_0000_0000_0000 file_descriptor

pub record PipeEndpoint : Type 0 where
  pub pipe : ℕ
  pub is_read_end : Bool

-- The fields of an INode that these calls use: NodeData, and whether FileOps are those of pipes.
pub record PipeNode : Type 0 where
  pub node_data : ℕ
  pub has_pipe_operations : Bool

pub record TrackedPipeEndpoint : Type 0 where
  pub owner : ℕ
  pub file_descriptor : ℕ
  pub node : ℕ
  pub endpoint : ℕ

pub record PipeTable : Type 0 where
  pub pipes : ℕ → Option PipeKernelObject
  pub endpoints : ℕ → Option PipeEndpoint
  pub nodes : ℕ → Option PipeNode
  pub pipe_endpoint_list : List TrackedPipeEndpoint

-- The table that the constructor makes.
abbrev pub empty_table : PipeTable
empty_table = record {
  pipes = λ address. none;
  endpoints = λ address. none;
  nodes = λ address. none;
  pipe_endpoint_list = [];
}

-- A pointer's object, or its end.
abbrev pub place {ℓ} : {A : Type ℓ} → (ℕ → Option A) → ℕ → Option A → ℕ → Option A
place objects address object i = if i == address then object else objects i

-- The object behind a pointer that may be null.
abbrev pub at {ℓ} : {A : Type ℓ} → (ℕ → Option A) → ℕ → Option A
at objects address = if address == 0 then none else objects address

-- What the five calls of `new` in CreatePipe return.
pub record NewPipe : Type 0 where
  pub new_pipe : ℕ
  pub new_read_endpoint : ℕ
  pub new_write_endpoint : ℕ
  pub new_read_node : ℕ
  pub new_write_node : ℕ

abbrev pub fresh_pipe : (garbage : ℕ → ℕ) → NewPipe → PipeKernelObject
fresh_pipe garbage new = record {
  buffer = garbage;
  read_offset = 0;
  write_offset = 0;
  buffered_bytes = 0;
  reader_reference_count = 1;
  writer_reference_count = 1;
  read_endpoint = new.new_read_endpoint;
  write_endpoint = new.new_write_endpoint;
  read_node = new.new_read_node;
  write_node = new.new_write_node;
}

abbrev pub pipe_node : ℕ → PipeNode
pipe_node endpoint = record { node_data = endpoint; has_pipe_operations = true }

-- The state with a new pipe, and its two ends in the list.
unfoldable pub add_pipe :
    PipeTable → (owner read_fd write_fd : ℕ) → (garbage : ℕ → ℕ) → NewPipe → PipeTable
add_pipe m owner read_fd write_fd garbage new = record {
  pipes = place m.pipes new.new_pipe (some (fresh_pipe garbage new));
  endpoints =
      place
        (place m.endpoints new.new_read_endpoint
          (some (record { pipe = new.new_pipe; is_read_end = true })))
        new.new_write_endpoint (some (record { pipe = new.new_pipe; is_read_end = false }));
  nodes =
      place (place m.nodes new.new_read_node (some (pipe_node new.new_read_endpoint)))
        new.new_write_node (some (pipe_node new.new_write_endpoint));
  pipe_endpoint_list =
      m.pipe_endpoint_list
      ++ (record {
        owner = owner;
        file_descriptor = read_fd;
        node = new.new_read_node;
        endpoint = new.new_read_endpoint;
      }
          ∷ record {
            owner = owner;
            file_descriptor = write_fd;
            node = new.new_write_node;
            endpoint = new.new_write_endpoint;
          }
          ∷ []);
}

-- The result and the two nodes; an object is deleted again where a later one cannot be made.
unfoldable pub create_pipe :
    PipeTable
    → (owner read_fd write_fd : ℕ) → (out_is_null : Bool) → (garbage : ℕ → ℕ) → NewPipe
    → (IoResult × (ℕ × ℕ)) × PipeTable
create_pipe m owner read_fd write_fd out_is_null garbage new =
    if owner == 0 || out_is_null || is_negative read_fd || is_negative write_fd
    then ((failed einval, (0, 0)), m)
    else if ltb max_tracked_pipes (length m.pipe_endpoint_list + 2)
    then ((failed emfile, (0, 0)), m)
    else if new.new_pipe == 0
    then ((failed enomem, (0, 0)), m)
    else if new.new_read_endpoint == 0
    then ((failed enomem, (0, 0)), m)
    else if new.new_write_endpoint == 0
    then ((failed enomem, (0, 0)), m)
    else if new.new_read_node == 0
    then ((failed enomem, (0, 0)), m)
    else if new.new_write_node == 0
    then ((failed enomem, (0, 0)), m)
    else (
      (transferred 0, (new.new_read_node, new.new_write_node)),
      add_pipe m owner read_fd write_fd garbage new,
    )

-- The loop of DuplicatePipeDescriptor.
unfoldable pub is_tracked : List TrackedPipeEndpoint → (node endpoint : ℕ) → Bool
is_tracked [] node endpoint = false
is_tracked (entry ∷ entries) node endpoint =
    (entry.node == node && entry.endpoint == endpoint) || is_tracked entries node endpoint

-- One more reference to an end.
abbrev pub reference : Bool → PipeKernelObject → PipeKernelObject
reference true pipe = record pipe { reader_reference_count = u64 (pipe.reader_reference_count + 1) }
reference false pipe = record pipe {
  writer_reference_count = u64 (pipe.writer_reference_count + 1);
}

-- The end of DuplicatePipeDescriptor, with a pipe.
unfoldable pub add_reference :
    PipeTable
    → (owner file_descriptor node endpoint : ℕ) → PipeEndpoint
    → PipeKernelObject
    → PipeTable
add_reference m owner file_descriptor node endpoint end pipe = record m {
  pipes = place m.pipes end.pipe (some (reference end.is_read_end pipe));
  pipe_endpoint_list =
      m.pipe_endpoint_list
      ++ (record {
        owner = owner;
        file_descriptor = file_descriptor;
        node = node;
        endpoint = endpoint;
      }
          ∷ []);
}

-- DuplicatePipeDescriptor for a file with a node; it does nothing at an address that holds no object.
unfoldable pub duplicate_pipe_descriptor :
    PipeTable → (owner file_descriptor : ℕ) → (source_node : ℕ) → IoResult × PipeTable
duplicate_pipe_descriptor m owner file_descriptor source_node =
    if owner == 0 || source_node == 0 || is_negative file_descriptor
    then (failed einval, m)
    else elim (m.nodes source_node) [
      | none ↦ (transferred 0, m)
      | some node ↦
          if not node.has_pipe_operations
          then (transferred 0, m)
          else if node.node_data == 0
          then (failed ebadf, m)
          else if not (is_tracked m.pipe_endpoint_list source_node node.node_data)
          then (transferred 0, m)
          else if leb max_tracked_pipes (length m.pipe_endpoint_list)
          then (failed emfile, m)
          else elim (m.endpoints node.node_data) [
            | none ↦ (transferred 0, m)
            | some end ↦ if end.pipe == 0 then (failed ebadf, m) else elim (m.pipes end.pipe) [
              | none ↦ (transferred 0, m)
              | some pipe ↦ (
                transferred 0,
                add_reference m owner file_descriptor source_node node.node_data end pipe,
              )
            ]
          ]
    ]
