-- ===== src/Dfs/Controller/Report/Counting.antt =====
-- handleChunkStatusReport of dfs/controller/controller.go: the counter of a pending file against
-- the copies of its chunks.
use dfs_mapreduce.Base.{
  ℕ, suc, ◌+◌, ◌<◌, ◌≡◌, String, Option, none, some, [], ◌∷◌, ◌++◌, contains, arith, lookup, insert,
  lookup-insert, lookup-erase, eq_refl, ◌==◌, if◌then◌else◌,
}
use dfs_mapreduce.Dfs.Messages.{ChunkStatusReport}
use dfs_mapreduce.Dfs.Controller.{ChunkInfo, FileMetadata, Controller}
use dfs_mapreduce.Dfs.Controller.Nodes.{u64}
use dfs_mapreduce.Dfs.Controller.Report.{
  find_chunk, set_nodes, publish, decrement, count_down, store_pending, report_success,
}
use dfs_mapreduce.Dfs.Controller.Report.Chunks.{uncopied, uncopied-set_nodes, length_snoc}
use dfs_mapreduce.Dfs.Controller.Wal.{Json, WalIo}

-- The counter of one pending file is the number of its chunks without a copy.
abbrev pub IsCounted : Option FileMetadata → Option ℕ → Type 0
IsCounted none count = Unit {0}
IsCounted (some meta) count = (count ≡ some (uncopied meta.chunks)) × (uncopied meta.chunks < u64)

abbrev pub Counts : Controller → Type 0
Counts c = (name : String) → IsCounted (lookup name c.pending_files) (lookup name c.pending_chunks)

-- The metadata after a node is added to a chunk.
abbrev pub with_copy : ChunkStatusReport → ChunkInfo → FileMetadata → FileMetadata
with_copy req chunk meta = record meta {
  chunks = set_nodes req.metadata.id (chunk.nodes ++ req.node.address ∷ []) meta.chunks;
}

pub decrement_lem : (n : ℕ) → suc n < u64 → decrement (some (suc n)) ≡ n
unfolding decrement
decrement_lem n h = omega arith

module _ (json : Json) (io : ℕ → WalIo) where
  -- A first copy is noted, and counted.
  pub first_copy :
      (req : ChunkStatusReport) (c : Controller) (meta : FileMetadata) (chunk : ChunkInfo)
      → lookup req.metadata.file_name c.pending_files ≡ some meta
      → find_chunk req.metadata.id meta.chunks ≡ some chunk
      → chunk.nodes ≡ []
      → report_success json io req c
        ≡ count_down json io req.metadata.file_name (with_copy req chunk meta) (record c {
          pending_files = insert req.metadata.file_name (with_copy req chunk meta) c.pending_files;
        })
  unfolding report_success store_pending contains
  first_copy req c meta chunk p f e = ground arith

  pub counted_down :
      (name : String) (meta : FileMetadata) (c : Controller) (n : ℕ)
      → lookup name c.pending_chunks ≡ some (suc n)
      → suc n < u64
      → (lookup name (count_down json io name meta c).files
          ≡ (if n == 0 then some meta else lookup name c.files))
        × (lookup name (count_down json io name meta c).pending_files
            ≡ (if n == 0 then none else lookup name c.pending_files))
  unfolding count_down publish
  counted_down name meta c n p h = ground (
    arith,
    p,
    decrement_lem n h,
    eq_refl name,
    lookup-insert name name meta c.files,
    lookup-erase name name c.pending_files,
  )

  -- Where the counters are right, a success report on a chunk of a pending file that has no copy
  -- publishes the file exactly when no other chunk lacks one; otherwise the file stays pending,
  -- with the copy noted. Either way one chunk fewer lacks a copy.
  pub report_success_first :
      (req : ChunkStatusReport) (c : Controller) (meta : FileMetadata) (chunk : ChunkInfo)
      → Counts c
      → lookup req.metadata.file_name c.pending_files ≡ some meta
      → find_chunk req.metadata.id meta.chunks ≡ some chunk
      → chunk.nodes ≡ []
      → (lookup req.metadata.file_name (report_success json io req c).files ≡ (
          if uncopied meta.chunks == 1
          then some (with_copy req chunk meta)
          else lookup req.metadata.file_name c.files))
        × (lookup req.metadata.file_name (report_success json io req c).pending_files
            ≡ (if uncopied meta.chunks == 1 then none else some (with_copy req chunk meta)))
        × (uncopied (with_copy req chunk meta).chunks + 1 ≡ uncopied meta.chunks)
  report_success_first req c meta chunk counts p f e =
      let name = req.metadata.file_name in
      let nodes = chunk.nodes ++ req.node.address ∷ [] in
      let fewer = uncopied-set_nodes req.metadata.id nodes meta.chunks chunk f in
      let one = length_snoc chunk.nodes req.node.address in
      let left = uncopied (with_copy req chunk meta).chunks in
      let count : left + 1 ≡ uncopied meta.chunks = ground arith in
      let (known, small) = rw p at (counts name) in
      let added = record c {
        pending_files = insert name (with_copy req chunk meta) c.pending_files;
      } in
      rw (first_copy req c meta chunk p f e) (
        ground (
          arith,
          known,
          counted_down name (with_copy req chunk meta) added left,
          lookup-insert name name (with_copy req chunk meta) c.pending_files,
          eq_refl name,
          count,
        ))
