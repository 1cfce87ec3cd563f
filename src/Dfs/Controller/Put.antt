-- ===== src/Dfs/Controller/Put.antt =====
-- handlePutFile of dfs/controller/controller.go. It takes the locks of the files, of the pending
-- files and of the nodes one after the other, so other handlers may run in between: `put_plan` is
-- the part up to the last allocation, `put_commit` the part that records the file.
pub mod Plans
use mathlib.Core.Option
use dfs_mapreduce.Base.{
  ℕ, zero, suc, ◌+◌, ◌-◌, ◌*◌, ◌/◌, ◌%◌, String, true, false, Option, none, some, List, [], ◌∷◌,
  length, lookup, insert, ltb, ◌==◌, if◌then◌else◌,
}
use dfs_mapreduce.Dfs.Messages.{ChunkAllocation, PutFileRequest, no_chunk}
use dfs_mapreduce.Dfs.Messages.Send.{send_put_file_response}
use dfs_mapreduce.Dfs.Controller.{
  ChunkInfo, FileMetadata, Controller, Outcome, replication_factor, second,
}
use dfs_mapreduce.Dfs.Controller.Nodes.{map_array_addresses_to_node_info, u64}
use dfs_mapreduce.Dfs.Controller.Select.{Runtime, select_nodes}

-- The two lists that the allocation loop fills.
pub record Allocation : Type 0 where
  pub allocations : List ChunkAllocation
  pub metadata_chunks : List ChunkInfo

abbrev pub with_chunk : ℕ → List String → Allocation → Allocation
with_chunk i targets a = record {
  allocations =
      record {
        metadata = record no_chunk { id = i };
        nodes = map_array_addresses_to_node_info targets;
      }
      ∷ a.allocations;
  metadata_chunks =
      record { chunk_id = i; nodes = []; size = 0; checksum = [] } ∷ a.metadata_chunks;
}

-- `rounds` chunks from number `i` on; `none` as soon as one has too few nodes.
unfoldable pub allocate : Runtime → Controller → ℕ → ℕ → ℕ → Option Allocation
allocate rt c chunk_size zero i = some (record { allocations = []; metadata_chunks = [] })
allocate rt c chunk_size (suc rounds) i =
    let targets = select_nodes rt i replication_factor chunk_size [] c in
    let rest = allocate rt c chunk_size rounds (i + 1) in
    if ltb (length targets) replication_factor then none else Option.map (with_chunk i targets) rest

unfoldable pub num_chunks : PutFileRequest → ℕ
num_chunks req =
    if req.num_chunks == 0
    then (req.metadata.size + req.chunk.size - 1) % u64 / req.chunk.size
    else req.num_chunks

pub data Plan : Type 0 where
  refused : String → Plan
  allocated : Allocation → Plan

unfoldable pub put_plan : Runtime → PutFileRequest → Controller → Plan
put_plan rt req c = elim (lookup req.metadata.name c.files) [
  | some _ ↦ refused "File already exists"
  | none ↦ elim (lookup req.metadata.name c.pending_files) [
    | some _ ↦ refused "File is currently being uploaded"
    | none ↦
        if req.chunk.size == 0
        then refused "Chunk size must be greater than zero"
        else elim (allocate rt c req.chunk.size (num_chunks req) 0) [
          | none ↦ refused "Insufficient nodes for replication"
          | some a ↦ allocated a
        ]
  ]
]

unfoldable pub put_commit : ℕ → PutFileRequest → Plan → Controller → Outcome
put_commit now req (refused msg) c = record {
  controller = c;
  replies = send_put_file_response false msg [] ∷ [];
  sends = [];
}
put_commit now req (allocated a) c =
    let file_meta : FileMetadata = record {
      file_name = req.metadata.name;
      size = req.metadata.size;
      chunks = a.metadata_chunks;
      created_at = now;
      lease_expiry = now + 30 * second;
    } in
    record {
      controller = record c {
        pending_files = insert req.metadata.name file_meta c.pending_files;
        pending_chunks = insert req.metadata.name (num_chunks req) c.pending_chunks;
      };
      replies = send_put_file_response true "Allocation successful" a.allocations ∷ [];
      sends = [];
    }

unfoldable pub handle_put_file : Runtime → ℕ → PutFileRequest → Controller → Outcome
unfolding put_plan put_commit
handle_put_file rt now req c = put_commit now req (put_plan rt req c) c
