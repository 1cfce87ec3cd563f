-- ===== src/Dfs/Controller/Report/Counts.antt =====
-- Success reports of handleChunkStatusReport, over all the pending files.
use dfs_mapreduce.Base.{
  ℕ, suc, ◌<◌, ◌≡◌, refl, String, false, some, [], ◌∷◌, ◌++◌, length, contains, arith, lookup,
  insert, lookup-insert, lookup-erase, eq_iff, eq_refl, str_eq, ◌==◌, Option-cases, subst,
  Bool-cases, inl, inr,
}
use dfs_mapreduce.Dfs.Messages.{ChunkStatusReport}
use dfs_mapreduce.Dfs.Controller.{FileMetadata, Controller}
use dfs_mapreduce.Dfs.Controller.Nodes.{u64}
use dfs_mapreduce.Dfs.Controller.Report.{
  find_chunk, update_stored, publish, decrement, count_down, store_pending, store_stored,
  report_success,
}
use dfs_mapreduce.Dfs.Controller.Report.Chunks.{uncopied, uncopied-set_nodes, length_snoc}
use dfs_mapreduce.Dfs.Controller.Wal.{Json, WalIo}
use dfs_mapreduce.Dfs.Controller.Report.Counting.{IsCounted, Counts, with_copy, decrement_lem}

module _ (json : Json) (io : ℕ → WalIo) where
  -- A name that the report is not about.
  abbrev SameAt : String → Controller → Controller → Type 0
  SameAt j c d =
      (lookup j d.pending_files ≡ lookup j c.pending_files)
      × (lookup j d.pending_chunks ≡ lookup j c.pending_chunks)

  count_down_other :
      (name : String) (meta : FileMetadata) (c : Controller) (j : String)
      → str_eq name j ≡ false
      → SameAt j c (count_down json io name meta c)
  unfolding count_down publish
  count_down_other name meta c j ne =
      let left = decrement (lookup name c.pending_chunks) in
      ground (
        arith,
        lookup-erase j name c.pending_files,
        lookup-erase j name (insert name left c.pending_chunks),
        lookup-insert j name left c.pending_chunks,
      )

  store_pending_other :
      (req : ChunkStatusReport) (meta : FileMetadata) (c : Controller) (j : String)
      → str_eq req.metadata.file_name j ≡ false
      → SameAt j c (store_pending json io req meta c)
  unfolding store_pending
  store_pending_other req meta c j ne =
      elim (Option-cases (find_chunk req.metadata.id meta.chunks)) [
        | inl e ↦ rw (e, store_pending) (refl, refl)
        | inr (chunk, e) ↦
            let name = req.metadata.file_name in
            let added = record c {
              pending_files = insert name (with_copy req chunk meta) c.pending_files;
            } in
            ground (
              arith,
              e,
              lookup-insert j name (with_copy req chunk meta) c.pending_files,
              count_down_other name (with_copy req chunk meta) added j,
            )
      ]

  store_stored_same :
      (req : ChunkStatusReport) (meta : FileMetadata) (c : Controller) (j : String)
      → SameAt j c (store_stored json io req meta c)
  unfolding store_stored update_stored
  store_stored_same req meta c j = ground arith

  report_success_other :
      (req : ChunkStatusReport) (c : Controller) (j : String)
      → str_eq req.metadata.file_name j ≡ false
      → SameAt j c (report_success json io req c)
  unfolding report_success
  report_success_other req c j ne =
      let name = req.metadata.file_name in
      elim (Option-cases (lookup name c.pending_files)) [
        | inr (meta, e) ↦ rw (e, report_success) (store_pending_other req meta c j ne)
        | inl e ↦ elim (Option-cases (lookup name c.files)) [
          | inl f ↦ rw (e, report_success, f) (refl, refl)
          | inr (meta, f) ↦ rw (e, report_success, f) (store_stored_same req meta c j)
        ]
      ]

  -- The counter of the name itself after a first copy.
  left_over-IsCounted :
      (name : String) (meta : FileMetadata) (c : Controller)
      → lookup name c.pending_files ≡ some meta
      → lookup name c.pending_chunks ≡ some (suc (uncopied meta.chunks))
      → suc (uncopied meta.chunks) < u64
      → IsCounted
          (lookup name (count_down json io name meta c).pending_files)
          (lookup name (count_down json io name meta c).pending_chunks)
  unfolding count_down publish
  left_over-IsCounted name meta c p q h =
      let left = uncopied meta.chunks in
      elim (Bool-cases (left == 0)) [
        | inl e ↦
            rw (q, count_down, decrement_lem left h, e, publish, lookup-erase, eq_refl name) tt
        | inr e ↦
            rw
              (
                q,
                count_down,
                decrement_lem left h,
                e,
                p,
                lookup-insert name name left c.pending_chunks,
                eq_refl name,
              )
              (refl, omega arith)
      ]

  store_pending-IsCounted :
      (req : ChunkStatusReport) (meta : FileMetadata) (c : Controller)
      → lookup req.metadata.file_name c.pending_files ≡ some meta
      → IsCounted (some meta) (lookup req.metadata.file_name c.pending_chunks)
      → IsCounted
          (lookup req.metadata.file_name (store_pending json io req meta c).pending_files)
          (lookup req.metadata.file_name (store_pending json io req meta c).pending_chunks)
  unfolding store_pending
  store_pending-IsCounted req meta c p (q, h) =
      elim (Option-cases (find_chunk req.metadata.id meta.chunks)) [
        | inl e ↦ rw (e, store_pending, p) (q, h)
        | inr (chunk, e) ↦
            let name = req.metadata.file_name in
            let meta' = with_copy req chunk meta in
            let nodes = chunk.nodes ++ req.node.address ∷ [] in
            let added = record c { pending_files = insert name meta' c.pending_files } in
            let fewer = uncopied-set_nodes req.metadata.id nodes meta.chunks chunk e in
            let one = length_snoc chunk.nodes req.node.address in
            let found : lookup name added.pending_files ≡ some meta' =
              ground (arith, lookup-insert name name meta' c.pending_files, eq_refl name) in
            elim (Bool-cases (contains chunk.nodes req.node.address)) [
              | inl f ↦ rw (e, store_pending, f, p) (q, h)
              | inr f ↦ elim (Bool-cases (length chunk.nodes == 0)) [
                | inl g ↦
                    rw (e, store_pending, f, g)
                      (left_over-IsCounted name meta' added found (ground arith) (ground arith))
                | inr g ↦ rw (e, store_pending, f, g, found) (ground arith, ground arith)
              ]
            ]
      ]

  report_success_named :
      (req : ChunkStatusReport) (c : Controller)
      → Counts c
      → IsCounted
          (lookup req.metadata.file_name (report_success json io req c).pending_files)
          (lookup req.metadata.file_name (report_success json io req c).pending_chunks)
  unfolding report_success
  report_success_named req c counts =
      let name = req.metadata.file_name in
      elim (Option-cases (lookup name c.pending_files)) [
        | inr (meta, e) ↦
            rw (e, report_success) (store_pending-IsCounted req meta c e (rw e at (counts name)))
        | inl e ↦ elim (Option-cases (lookup name c.files)) [
          | inl f ↦ rw (e, report_success, f, e) tt
          | inr (meta, f) ↦
              let (g, h) = store_stored_same req meta c name in
              rw (e, report_success, f, g, h, e) tt
        ]
      ]

  -- If the counter of every pending file is the number of its chunks without a copy, it still is
  -- after a success report.
  pub report_success-Counts :
      (req : ChunkStatusReport) (c : Controller) → Counts c → Counts (report_success json io req c)
  report_success-Counts req c counts j =
      let name = req.metadata.file_name in
      elim (Bool-cases (str_eq name j)) [
        | inr ne ↦ let (f, g) = report_success_other req c j ne in rw (f, g) (counts j)
        | inl same ↦
            subst
              (λ k.
                IsCounted (lookup k (report_success json io req c).pending_files)
                  (lookup k (report_success json io req c).pending_chunks))
              ((eq_iff name j).0 same) (report_success_named req c counts)
      ]
