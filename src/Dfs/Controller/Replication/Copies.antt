-- ===== src/Dfs/Controller/Replication/Copies.antt =====
-- The nodes that a round of processReplication leaves to the chunks.
use mathlib.Core.Option
use dfs_mapreduce.Base.{
  ℕ, ◌≡◌, ◌≢◌, refl, sym, ap, subst, ◌∙◌, inl, inr, String, Bool, false, none, some, List, [], ◌∷◌,
  map, keep, length, length-keep-le, contains, arith, Dict, lookup, insert, lookup-insert, Distinct,
  eq_iff, str_eq, Bool-cases, Option-cases, ◌==◌,
}
use dfs_mapreduce.Dfs.Controller.{NodeInfo, ChunkInfo, FileMetadata, Log, Controller}
use dfs_mapreduce.Dfs.Controller.Replication.{
  alive, maintain_chunk, maintain_file, maintain_files, process_replication,
}
use dfs_mapreduce.Dfs.Controller.Select.Bounds.{length-map}
use dfs_mapreduce.Dfs.Controller.Wal.{Json, WalIo}

-- The file with the nodes of each chunk that are registered, in their order.
abbrev pub without_dead : List String → FileMetadata → FileMetadata
without_dead active meta = record meta {
  chunks =
      map (λ (chunk : ChunkInfo). record chunk { nodes = keep (contains active) chunk.nodes })
        meta.chunks;
}

keep_same : (p : String → Bool) (xs : List String) → length (keep p xs) ≡ length xs → keep p xs ≡ xs
keep_same p [] h = refl
keep_same p (x ∷ xs) h = elim (Bool-cases (p x)) [
  | inl e ↦ ground (arith, ap (◌∷◌ x) (keep_same p xs (ground arith)))
  | inr e ↦ absurd (ground (arith, length-keep-le p xs))
]

maintain_chunk_lem :
    (active : List String) (chunk : ChunkInfo)
    → maintain_chunk active chunk ≡ record chunk { nodes = keep (contains active) chunk.nodes }
unfolding maintain_chunk alive
maintain_chunk_lem active chunk =
    elim (Bool-cases (length (keep (contains active) chunk.nodes) == length chunk.nodes)) [
      | inr e ↦ rw e refl
      | inl e ↦
          let same = keep_same (contains active) chunk.nodes (grind arith) in
          rw e (ap (λ ns. record chunk { nodes = ns }) (sym same))
    ]

maintain_chunks :
    (active : List String) (chunks : List ChunkInfo)
    → map (maintain_chunk active) chunks
      ≡ map
          (λ (chunk : ChunkInfo). record chunk { nodes = keep (contains active) chunk.nodes })
          chunks
maintain_chunks active [] = refl
maintain_chunks active (chunk ∷ chunks) =
    rw (maintain_chunk_lem active chunk, maintain_chunks active chunks) refl

abbrev maintained : List String → FileMetadata → FileMetadata
maintained active meta = record meta { chunks = map (maintain_chunk active) meta.chunks }

maintained-without_dead :
    (active : List String) (meta : FileMetadata) → maintained active meta ≡ without_dead active meta
maintained-without_dead active meta =
    ap (λ cs. record meta { chunks = cs }) (maintain_chunks active meta.chunks)

module _ (json : Json) (io : ℕ → WalIo) where
  maintain_files-lookup :
      (active : List String) (todo files : Dict FileMetadata) (log : Log) (j : String)
      → Distinct todo
      → lookup j (maintain_files json io active todo (files, log)).0 ≡ elim (lookup j todo) [
        | none ↦ lookup j files
        | some meta ↦ some (without_dead active meta)
      ]
  unfolding maintain_files maintain_file lookup
  maintain_files-lookup active [] files log j d = refl
  maintain_files-lookup active ((name, meta) ∷ todo) files log j d =
      let files' = insert name (maintained active meta) files in
      let (done, log') = maintain_file json io active name meta (files, log) in
      let rest = maintain_files-lookup active todo files' log' j d.1 in
      elim (Bool-cases (str_eq name j)) [
        | inl e ↦
            let own : lookup j todo ≡ none =
              subst (λ k. lookup k todo ≡ none) ((eq_iff name j).0 e) d.0 in
            let put = lookup-insert j name (maintained active meta) files in
            rest ∙ rw (own, e) (put ∙ rw e (ap some (maintained-without_dead active meta)))
        | inr e ↦
            let put = lookup-insert j name (maintained active meta) files in
            rest ∙ elim (Option-cases (lookup j todo)) [
              | inl f ↦ rw (f, e) (put ∙ rw e refl)
              | inr (m, f) ↦ rw (f, e) refl
            ]
      ]

  -- If a node is registered, and no file stands twice in the map, a round of the maintenance
  -- leaves each stored file with exactly those nodes of its chunks that are registered, and adds
  -- or drops no file.
  pub process_replication_files :
      (c : Controller) (name : String)
      → Distinct c.files
      → length c.nodes ≢ 0
      → lookup name (process_replication json io c).controller.files
        ≡ Option.map (without_dead (map (λ e. e.1.address) c.nodes)) (lookup name c.files)
  unfolding process_replication
  process_replication_files c name d some_node =
      let active = map (λ (e : String × NodeInfo). e.1.address) c.nodes in
      let size : length active ≡ length c.nodes = length-map (λ e. e.1.address) c.nodes in
      let some_active : (length active == 0) ≡ false = grind arith in
      let files = maintain_files-lookup active c.files c.files c.log name d in
      rw some_active (
        files
        ∙ elim (Option-cases (lookup name c.files)) [ inl f ↦ rw f f | inr (m, f) ↦ rw f refl ])
