-- ===== src/Dfs/Controller/Report/Failure.antt =====
-- Failure reports of handleChunkStatusReport on a pending file.
use dfs_mapreduce.Base.{ℕ, ◌≡◌, refl, some, [], ◌∷◌, arith, lookup, insert, lookup-insert, eq_refl}
use dfs_mapreduce.Dfs.Messages
use dfs_mapreduce.Dfs.Messages.{ChunkStatusReport}
use dfs_mapreduce.Dfs.Controller.{ChunkInfo, FileMetadata, Controller}
use dfs_mapreduce.Dfs.Controller.Report.{
  find_chunk, set_nodes, update_stored, fail_stored, fail_pending, report_failure, report_success,
}
use dfs_mapreduce.Dfs.Controller.Report.Chunks.{
  uncopied, uncopied-set_nodes, find_chunk-set_nodes, alive_nodes_only,
}
use dfs_mapreduce.Dfs.Controller.Wal.{Json, WalIo}
use dfs_mapreduce.Dfs.Controller.Report.Counting.{Counts, with_copy, first_copy, counted_down}

-- The metadata after the only holder of a chunk reports a failure.
abbrev pub without_copies : ChunkStatusReport → FileMetadata → FileMetadata
without_copies req meta = record meta { chunks = set_nodes req.metadata.id [] meta.chunks }

module _ (json : Json) (io : ℕ → WalIo) where
  fail_stored_pending :
      (req : ChunkStatusReport) (c : Controller)
      → ((fail_stored json io req c).pending_files ≡ c.pending_files)
        × ((fail_stored json io req c).pending_chunks ≡ c.pending_chunks)
  unfolding fail_stored update_stored
  fail_stored_pending req c = ground arith

  -- The only holder of a chunk of a pending file reports a failure.
  report_failure_only :
      (req : ChunkStatusReport) (c : Controller) (meta : FileMetadata) (chunk : ChunkInfo)
      → lookup req.metadata.file_name c.pending_files ≡ some meta
      → find_chunk req.metadata.id meta.chunks ≡ some chunk
      → chunk.nodes ≡ req.node.address ∷ []
      → (lookup req.metadata.file_name (report_failure json io req c).pending_files
          ≡ some (without_copies req meta))
        × ((report_failure json io req c).pending_chunks ≡ c.pending_chunks)
  unfolding report_failure fail_pending
  report_failure_only req c meta chunk p f e =
      let name = req.metadata.file_name in
      let kept = fail_stored_pending req c in
      ground (
        arith,
        kept.0,
        kept.1,
        alive_nodes_only req.node.address,
        lookup-insert name name (without_copies req meta) c.pending_files,
        eq_refl name,
      )

  -- Where the counters are right: if one chunk of a pending file has no copy yet, and the only
  -- holder of another chunk reports a failure, then the next copy of that other chunk publishes
  -- the file, with a chunk that no node holds.
  pub publishes_too_early :
      (req : ChunkStatusReport) (other : Messages.NodeInfo) (c : Controller) (meta : FileMetadata)
      (chunk : ChunkInfo)
      → Counts c
      → lookup req.metadata.file_name c.pending_files ≡ some meta
      → find_chunk req.metadata.id meta.chunks ≡ some chunk
      → chunk.nodes ≡ req.node.address ∷ []
      → uncopied meta.chunks ≡ 1
      → let retry = record req { node = other } in
        (stored : FileMetadata) × (lookup req.metadata.file_name
            (report_success json io retry (report_failure json io req c)).files
          ≡ some stored)
        × (uncopied stored.chunks ≡ 1)
  publishes_too_early req other c meta chunk counts p f e missing =
      let name = req.metadata.file_name in
      let retry = record req { node = other } in
      let failed = report_failure json io req c in
      let (pending, counters) = report_failure_only req c meta chunk p f e in
      let lost = without_copies req meta in
      let empty = record chunk { nodes = [] } in
      let found = find_chunk-set_nodes req.metadata.id [] meta.chunks chunk f in
      let (known, small) = rw p at (counts name) in
      let more = uncopied-set_nodes req.metadata.id [] meta.chunks chunk f in
      let fewer = uncopied-set_nodes req.metadata.id (other.address ∷ []) lost.chunks empty found in
      let counted = record failed {
        pending_files = insert name (with_copy retry empty lost) failed.pending_files;
      } in
      (
        with_copy retry empty lost,
        rw (first_copy json io retry failed lost empty pending found refl) (
            ground (
              arith,
              counters,
              known,
              counted_down json io name (with_copy retry empty lost) counted 0,
            )),
        ground arith,
      )
