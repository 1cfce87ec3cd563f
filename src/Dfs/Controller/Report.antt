-- ===== src/Dfs/Controller/Report.antt =====
-- handleChunkStatusReport of dfs/controller/controller.go.
pub mod Chunks
pub mod Counting
pub mod Counts
pub mod Failure
use dfs_mapreduce.Base.{
  ℕ, ◌+◌, ◌-◌, ◌%◌, String, not, Option, none, some, List, [], ◌∷◌, ◌++◌, keep, length, contains,
  lookup, insert, erase, str_eq, ◌==◌, if◌then◌else◌,
}
use dfs_mapreduce.Dfs.Messages.{ChunkStatusReport}
use dfs_mapreduce.Dfs.Controller.{ChunkInfo, FileMetadata, Controller}
use dfs_mapreduce.Dfs.Controller.Nodes.{u64}
use dfs_mapreduce.Dfs.Controller.Wal.{Json, WalIo, append_wal_record}

-- The first chunk with a number, which is where the loops break.
unfoldable pub find_chunk : ℕ → List ChunkInfo → Option ChunkInfo
find_chunk id [] = none
find_chunk id (chunk ∷ chunks) = if chunk.chunk_id == id then some chunk else find_chunk id chunks

unfoldable pub set_nodes : ℕ → List String → List ChunkInfo → List ChunkInfo
set_nodes id nodes [] = []
set_nodes id nodes (chunk ∷ chunks) =
    if chunk.chunk_id == id
    then record chunk { nodes = nodes } ∷ chunks
    else chunk ∷ set_nodes id nodes chunks

unfoldable pub alive_nodes : String → List String → List String
alive_nodes address = keep λ addr. not (str_eq addr address)

unfoldable pub fail_pending : ChunkStatusReport → Controller → Controller
fail_pending req c = elim (lookup req.metadata.file_name c.pending_files) [
  | none ↦ c
  | some meta ↦ elim (find_chunk req.metadata.id meta.chunks) [
    | none ↦ c
    | some chunk ↦
        let nodes = alive_nodes req.node.address chunk.nodes in
        record c {
          pending_files =
              insert req.metadata.file_name
                (record meta { chunks = set_nodes req.metadata.id nodes meta.chunks })
                c.pending_files;
        }
  ]
]

-- `c.pendingChunks[name]--`: a missing entry reads 0, and 0 wraps to the largest number.
unfoldable pub decrement : Option ℕ → ℕ
decrement none = u64 - 1
decrement (some n) = (n + u64 - 1) % u64

module _ (json : Json) (io : ℕ → WalIo) where
  -- A new list of nodes for a chunk of a stored file, logged.
  unfoldable pub update_stored : FileMetadata → ℕ → List String → String → Controller → Controller
  update_stored meta id nodes name c =
      let meta' = record meta { chunks = set_nodes id nodes meta.chunks } in
      let files = insert name meta' c.files in
      record c {
        files = files;
        log = append_wal_record json io files "PUT" name (some meta') c.log;
      }

  unfoldable pub fail_stored : ChunkStatusReport → Controller → Controller
  fail_stored req c = elim (lookup req.metadata.file_name c.files) [
    | none ↦ c
    | some meta ↦ elim (find_chunk req.metadata.id meta.chunks) [
      | none ↦ c
      | some chunk ↦
          update_stored meta req.metadata.id (alive_nodes req.node.address chunk.nodes)
            req.metadata.file_name c
    ]
  ]

  unfoldable pub report_failure : ChunkStatusReport → Controller → Controller
  unfolding fail_stored fail_pending
  report_failure req c = fail_pending req (fail_stored req c)

  -- The file leaves the pending maps and is stored, and logged.
  unfoldable pub publish : String → FileMetadata → Controller → Controller
  publish name meta c =
      let files = insert name meta c.files in
      record c {
        files = files;
        log = append_wal_record json io files "PUT" name (some meta) c.log;
        pending_files = erase name c.pending_files;
        pending_chunks = erase name c.pending_chunks;
      }

  unfoldable pub count_down : String → FileMetadata → Controller → Controller
  count_down name meta c =
      let left = decrement (lookup name c.pending_chunks) in
      let counted = record c { pending_chunks = insert name left c.pending_chunks } in
      if left == 0 then publish name meta counted else counted

  unfoldable pub store_pending : ChunkStatusReport → FileMetadata → Controller → Controller
  store_pending req meta c = elim (find_chunk req.metadata.id meta.chunks) [
    | none ↦ c
    | some chunk ↦
        let name = req.metadata.file_name in
        let nodes = chunk.nodes ++ req.node.address ∷ [] in
        let meta' = record meta { chunks = set_nodes req.metadata.id nodes meta.chunks } in
        let added = record c { pending_files = insert name meta' c.pending_files } in
        if contains chunk.nodes req.node.address
        then c
        else if length chunk.nodes == 0
        then count_down name meta' added
        else added
  ]

  unfoldable pub store_stored : ChunkStatusReport → FileMetadata → Controller → Controller
  store_stored req meta c = elim (find_chunk req.metadata.id meta.chunks) [
    | none ↦ c
    | some chunk ↦
        if contains chunk.nodes req.node.address
        then c
        else update_stored meta req.metadata.id (chunk.nodes ++ req.node.address ∷ [])
            req.metadata.file_name c
  ]

  unfoldable pub report_success : ChunkStatusReport → Controller → Controller
  report_success req c = elim (lookup req.metadata.file_name c.pending_files) [
    | some meta ↦ store_pending req meta c
    | none ↦ elim (lookup req.metadata.file_name c.files) [
      | some meta ↦ store_stored req meta c
      | none ↦ c
    ]
  ]

  unfoldable pub handle_chunk_status_report : ChunkStatusReport → Controller → Controller
  handle_chunk_status_report req c =
      if req.success then report_success req c else report_failure req c
