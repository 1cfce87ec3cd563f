-- ===== src/Dfs/Controller/Replication.antt =====
-- processReplication and dispatchReplication of dfs/controller/controller.go.
pub mod Copies
use dfs_mapreduce.Base.{
  ℕ, ◌-◌, String, Bool, false, not, ◌||◌, some, List, [], ◌∷◌, ◌++◌, map, keep, length, contains,
  Dict, insert, ltb, ◌==◌, if◌then◌else◌,
}
use dfs_mapreduce.Dfs.Messages.{Wrapper}
use dfs_mapreduce.Dfs.Messages.Send.{send_dispatch_replica_task}
use dfs_mapreduce.Dfs.Controller.{
  ChunkInfo, FileMetadata, Log, Controller, Outcome, replication_factor,
}
use dfs_mapreduce.Dfs.Controller.Wal.{Json, WalIo, append_wal_record}

-- The part of a chunk's node list that is registered.
unfoldable pub alive : List String → ChunkInfo → List String
alive active chunk = keep (contains active) chunk.nodes

unfoldable pub maintain_chunk : List String → ChunkInfo → ChunkInfo
maintain_chunk active chunk =
    if length (alive active chunk) == length chunk.nodes
    then chunk
    else record chunk { nodes = alive active chunk }

unfoldable pub is_modified : List String → List ChunkInfo → Bool
is_modified active [] = false
is_modified active (chunk ∷ chunks) =
    not (length (alive active chunk) == length chunk.nodes) || is_modified active chunks

-- The task for the first node of a chunk that has some copies and too few.
unfoldable pub dispatch_for : String → ℕ → List String → List (String × Wrapper)
unfolding send_dispatch_replica_task
dispatch_for name id [] = []
dispatch_for name id (source ∷ nodes) =
    if ltb (length (source ∷ nodes)) replication_factor
    then (source, send_dispatch_replica_task name id (replication_factor - length (source ∷ nodes)))
      ∷ []
    else []

unfoldable pub dispatches : List String → String → List ChunkInfo → List (String × Wrapper)
unfolding dispatch_for maintain_chunk
dispatches active name [] = []
dispatches active name (chunk ∷ chunks) =
    dispatch_for name chunk.chunk_id (maintain_chunk active chunk).nodes
    ++ dispatches active name chunks

module _ (json : Json) (io : ℕ → WalIo) where
  -- The chunks of a file are changed in place; the file is logged if one lost a node.
  unfoldable pub maintain_file :
      List String → String → FileMetadata → Dict FileMetadata × Log → Dict FileMetadata × Log
  unfolding maintain_chunk is_modified
  maintain_file active name meta (files, log) =
      let meta' = record meta { chunks = map (maintain_chunk active) meta.chunks } in
      let files' = insert name meta' files in
      (
        files',
        if is_modified active meta.chunks
            then append_wal_record json io files' "PUT" name (some meta') log
            else log,
      )

  -- The loop over the files, whose entries it does not add to or remove.
  unfoldable pub maintain_files :
      List String → Dict FileMetadata → Dict FileMetadata × Log → Dict FileMetadata × Log
  maintain_files active [] s = s
  maintain_files active ((name, meta) ∷ todo) s =
      maintain_files active todo (maintain_file active name meta s)

  unfoldable pub all_dispatches : List String → Dict FileMetadata → List (String × Wrapper)
  all_dispatches active [] = []
  all_dispatches active ((name, meta) ∷ files) =
      dispatches active name meta.chunks ++ all_dispatches active files

  unfoldable pub process_replication : Controller → Outcome
  process_replication c =
      let active = map (λ e. e.1.address) c.nodes in
      let (files, log) = maintain_files active c.files (c.files, c.log) in
      if length active == 0 then record { controller = c; replies = []; sends = [] } else record {
        controller = record c { files = files; log = log };
        replies = [];
        sends = all_dispatches active c.files;
      }
