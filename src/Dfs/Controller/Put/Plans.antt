-- ===== src/Dfs/Controller/Put/Plans.antt =====
-- What handlePutFile allocates, and when it refuses.
use mathlib.Core.Option
use dfs_mapreduce.Base.{
  ℕ, zero, suc, ◌+◌, ◌-◌, ◌*◌, ◌<◌, ◌≤◌, ◌≡◌, ◌≢◌, refl, ap, ◌∙◌, true, false, none, some, List, [],
  ◌∷◌, All, length, arith, lookup, lookup-insert, eq_refl, min,
}
use dfs_mapreduce.Dfs.Messages.{ChunkAllocation, PutFileRequest}
use dfs_mapreduce.Dfs.Messages.Send.{send_put_file_response}
use dfs_mapreduce.Dfs.Controller.{Controller, replication_factor}
use dfs_mapreduce.Dfs.Controller.Nodes.{map_array_addresses_to_node_info, u64}
use dfs_mapreduce.Dfs.Controller.Select.{Runtime, select_nodes}
use dfs_mapreduce.Dfs.Controller.Select.Bounds.{
  RuntimeLaws, eligible, length-select_nodes, length-map,
}
use dfs_mapreduce.Dfs.Controller.Report.Chunks.{uncopied}
use dfs_mapreduce.Dfs.Controller.Put.{
  Allocation, with_chunk, allocate, num_chunks, refused, allocated, put_plan, put_commit,
  handle_put_file,
}

-- The chunk numbers of an allocation, in order, from `i` on.
abbrev pub Numbered : ℕ → List ChunkAllocation → Type 0
Numbered i [] = Unit {0}
Numbered i (a ∷ rest) = (a.metadata.id ≡ i) × Numbered (i + 1) rest

-- An allocation of `n` chunks numbered from `i`, each with as many nodes as there are to be copies.
pub record IsFull (i n : ℕ) (a : Allocation) : Type 0 where
  pub count : length a.allocations ≡ n
  pub numbered : Numbered i a.allocations
  pub replicated : All (λ al. length al.nodes ≡ replication_factor) a.allocations
  pub missing : uncopied a.metadata_chunks ≡ n

module _ (rt : Runtime) (laws : RuntimeLaws rt) (c : Controller) (chunk_size : ℕ) where
  -- As many targets as copies, or fewer if the cluster has fewer eligible nodes.
  length-targets :
      (i : ℕ)
      → length (select_nodes rt i replication_factor chunk_size [] c)
        ≡ min replication_factor (length (eligible chunk_size [] c.nodes))
  length-targets i = length-select_nodes rt laws i replication_factor chunk_size [] c

  allocate_enough :
      (rounds i : ℕ)
      → replication_factor ≤ length (eligible chunk_size [] c.nodes)
      → (a : Allocation) × (allocate rt c chunk_size rounds i ≡ some a) × IsFull i rounds a
  unfolding allocate uncopied map_array_addresses_to_node_info
  allocate_enough zero i h = (
    record { allocations = []; metadata_chunks = [] },
    refl,
    record { count = refl; numbered = tt; replicated = tt; missing = refl },
  )
  allocate_enough (suc rounds) i h =
      let targets = select_nodes rt i replication_factor chunk_size [] c in
      let (a, e, full) = allocate_enough rounds (i + 1) h in
      let three : length targets ≡ replication_factor = omega (arith, length-targets i) in
      (
        with_chunk i targets a,
        ground (arith, e, three),
        record {
          count = ap suc full.count;
          numbered = (refl, full.numbered);
          replicated = (length-map _ targets ∙ three, full.replicated);
          missing = omega (arith, full.missing);
        },
      )

  allocate_short :
      (rounds i : ℕ)
      → length (eligible chunk_size [] c.nodes) < replication_factor
      → allocate rt c chunk_size (suc rounds) i ≡ none
  unfolding allocate
  allocate_short rounds i h = ground (arith, length-targets i)

-- The number of chunks fits 64 bits, as the number in the request does.
pub num_chunks-lt : (req : PutFileRequest) → req.num_chunks < u64 → num_chunks req < u64
unfolding num_chunks
num_chunks-lt req h = ground arith

-- Where the client leaves the number of chunks to the controller, neither the file nor the chunk
-- size is 0, and their sum is at most 2 ^ 64, the chunks hold the file, and one fewer would not.
pub num_chunks_cover :
    (req : PutFileRequest)
    → req.num_chunks ≡ 0
    → 0 < req.chunk.size
    → 0 < req.metadata.size
    → req.metadata.size + req.chunk.size ≤ u64
    → (req.metadata.size ≤ num_chunks req * req.chunk.size)
      × (num_chunks req * req.chunk.size < req.metadata.size + req.chunk.size)
unfolding num_chunks
num_chunks_cover req z s m fits = ground arith

module _ (rt : Runtime) (laws : RuntimeLaws rt) (now : ℕ) (req : PutFileRequest)
    (c : Controller) where
  -- The file name is free, and the chunk size is one that can be divided by.
  pub record IsNew : Type 0 where
    pub not_stored : lookup req.metadata.name c.files ≡ none
    pub not_pending : lookup req.metadata.name c.pending_files ≡ none
    pub sized : 0 < req.chunk.size

  abbrev candidates : ℕ
  candidates = length (eligible req.chunk.size [] c.nodes)

  -- If a walk and the sort keep the elements, the file name is free, the chunk size is not 0 and
  -- three nodes have room for a chunk, the file is accepted: every chunk gets three nodes, in the
  -- order of the chunk numbers, and the file becomes pending with a counter of all its chunks,
  -- none of which has a copy. The stored files stay as they are.
  pub handle_put_file_accepts :
      IsNew
      → replication_factor ≤ candidates
      → let out = handle_put_file rt now req c in
        (a : Allocation) × IsFull 0 (num_chunks req) a
        × (out.replies ≡ send_put_file_response true "Allocation successful" a.allocations ∷ [])
        × (Option.map (λ m. m.chunks) (lookup req.metadata.name out.controller.pending_files)
            ≡ some a.metadata_chunks)
        × (lookup req.metadata.name out.controller.pending_chunks ≡ some (num_chunks req))
        × (out.controller.files ≡ c.files)
  unfolding handle_put_file put_plan put_commit
  handle_put_file_accepts new h =
      let (a, e, full) = allocate_enough rt laws c req.chunk.size (num_chunks req) 0 h in
      let planned : put_plan rt req c ≡ allocated a = ground (arith, e) in
      (
        a,
        full,
        rw (planned, put_commit) refl,
        rw (planned, put_commit, lookup-insert, eq_refl req.metadata.name) refl,
        rw (planned, put_commit, lookup-insert, eq_refl req.metadata.name) refl,
        rw (planned, put_commit) refl,
      )

  -- If a walk and the sort keep the elements, the file name is free and the chunk size is not 0,
  -- but fewer than three nodes have room for a chunk, a file of at least one chunk is refused, and
  -- nothing changes.
  pub handle_put_file_refuses :
      IsNew
      → candidates < replication_factor
      → num_chunks req ≢ 0
      → let out = handle_put_file rt now req c in
        (out.replies ≡ send_put_file_response false "Insufficient nodes for replication" [] ∷ [])
        × (out.controller ≡ c)
  unfolding handle_put_file put_plan put_commit
  handle_put_file_refuses new h some_chunk =
      let e : num_chunks req ≡ suc (num_chunks req - 1) = omega arith in
      let short = allocate_short rt laws c req.chunk.size (num_chunks req - 1) 0 h in
      let planned : put_plan rt req c ≡ refused "Insufficient nodes for replication" =
        ground (arith, e, short) in
      (rw (planned, put_commit) refl, rw (planned, put_commit) refl)
