-- ===== src/Dfs/Controller/Step/Pending.antt =====
-- The pending files over a whole history of the controller.
use dfs_mapreduce.Base.{
  ℕ, zero, suc, ◌+◌, ◌<◌, ◌≡◌, refl, inl, inr, String, true, some, List, [], ◌∷◌, arith, lookup,
  lookup-insert, subst, sym, All, Distinct, insert-Distinct, erase-Distinct, eq_iff, Option-cases,
  ◌⊎◌,
}
use dfs_mapreduce.Dfs.Messages.{
  Wrapper, PutFileRequest, ChunkStatusReport, FileInfo, put_file_req, chunk_status_report,
  lease_renew_req, delete_file_req, registration_req, heartbeat,
}
use dfs_mapreduce.Dfs.Controller.{FileMetadata, Controller}
use dfs_mapreduce.Dfs.Controller.Nodes.{
  u64, register_node, update_heartbeat, monitor_heartbeats, handle_node_stats,
}
use dfs_mapreduce.Dfs.Controller.Select.{Runtime}
use dfs_mapreduce.Dfs.Controller.Put.{
  Allocation, allocate, num_chunks, Plan, refused, allocated, put_plan, put_commit, handle_put_file,
}
use dfs_mapreduce.Dfs.Controller.Put.Plans.{num_chunks-lt}
use dfs_mapreduce.Dfs.Controller.Files.{
  handle_lease_renew, monitor_leases, handle_delete_file, handle_get_file, handle_replica_nodes,
  handle_list_files,
}
use dfs_mapreduce.Dfs.Controller.Files.Leases.{monitor_leases_exact, monitor_leases-Distinct}
use dfs_mapreduce.Dfs.Controller.Report.{
  report_success, store_pending, store_stored, update_stored, count_down, publish,
  handle_chunk_status_report,
}
use dfs_mapreduce.Dfs.Controller.Report.Chunks.{uncopied}
use dfs_mapreduce.Dfs.Controller.Report.Counting.{Counts}
use dfs_mapreduce.Dfs.Controller.Report.Counts.{report_success-Counts}
use dfs_mapreduce.Dfs.Controller.Replication.{process_replication}
use dfs_mapreduce.Dfs.Controller.Step.{
  Event, receives, heartbeat_round, lease_round, maintenance_round, handle_message, react, step,
  run,
}
use dfs_mapreduce.Dfs.Controller.Wal.{Json, WalIo}

-- One entry for each name, and a right counter for each entry.
pub record IsPending (c : Controller) : Type 0 where
  pub counts : Counts c
  pub distinct : Distinct c.pending_files

allocate-uncopied :
    (rt : Runtime) (c : Controller) (size rounds i : ℕ) (a : Allocation)
    → allocate rt c size rounds i ≡ some a
    → uncopied a.metadata_chunks ≡ rounds
unfolding allocate uncopied
allocate-uncopied rt c size zero i a e = ground arith
allocate-uncopied rt c size (suc rounds) i a e =
    elim (Option-cases (allocate rt c size rounds (i + 1))) [
      | inl f ↦ ground (arith, f)
      | inr (b, f) ↦ ground (arith, f, allocate-uncopied rt c size rounds (i + 1) b f)
    ]

put_plan-uncopied :
    (rt : Runtime) (req : PutFileRequest) (c : Controller) (a : Allocation)
    → put_plan rt req c ≡ allocated a
    → uncopied a.metadata_chunks ≡ num_chunks req
unfolding put_plan
put_plan-uncopied rt req c a e =
    ground (arith, allocate-uncopied rt c req.chunk.size (num_chunks req) 0 a)

Plan-cases :
    (p : Plan) → ((msg : String) × (p ≡ refused msg)) ⊎ ((a : Allocation) × (p ≡ allocated a))
Plan-cases (refused msg) = inl (msg, refl)
Plan-cases (allocated a) = inr (a, refl)

handle_put_file-IsPending :
    (rt : Runtime) (now : ℕ) (req : PutFileRequest) (c : Controller)
    → req.num_chunks < u64
    → IsPending c
    → IsPending (handle_put_file rt now req c).controller
unfolding handle_put_file put_commit
handle_put_file-IsPending rt now req c h v = elim (Plan-cases (put_plan rt req c)) [
  | inl (msg, e) ↦ rw (e, put_commit) v
  | inr (a, e) ↦
      let right = put_plan-uncopied rt req c a e in
      let small = num_chunks-lt req h in
      rw (e, put_commit)
        (record {
          counts = λ j.
              rw (lookup-insert j req.metadata.name, lookup-insert j req.metadata.name)
                (ground (arith, right, small, v.counts j));
          distinct = insert-Distinct _ _ c.pending_files v.distinct;
        })
]

count_down-Distinct :
    (json : Json) (io : ℕ → WalIo) (name : String) (meta : FileMetadata) (c : Controller)
    → Distinct c.pending_files
    → Distinct (count_down json io name meta c).pending_files
unfolding count_down publish
count_down-Distinct json io name meta c d =
    let erased = erase-Distinct name c.pending_files d in ground arith

store_pending-Distinct :
    (json : Json) (io : ℕ → WalIo) (req : ChunkStatusReport) (meta : FileMetadata) (c : Controller)
    → Distinct c.pending_files
    → Distinct (store_pending json io req meta c).pending_files
unfolding store_pending
store_pending-Distinct json io req meta c d = grind (arith, insert-Distinct, count_down-Distinct)

report_success-Distinct :
    (json : Json) (io : ℕ → WalIo) (req : ChunkStatusReport) (c : Controller)
    → Distinct c.pending_files
    → Distinct (report_success json io req c).pending_files
unfolding report_success store_stored update_stored
report_success-Distinct json io req c d = grind (arith, store_pending-Distinct)

handle_lease_renew-IsPending :
    (now : ℕ) (req : FileInfo) (c : Controller)
    → IsPending c
    → IsPending (handle_lease_renew now req c).controller
unfolding handle_lease_renew
handle_lease_renew-IsPending now req c v = elim (Option-cases (lookup req.name c.pending_files)) [
  | inl e ↦ rw (e, handle_lease_renew) v
  | inr (meta, e) ↦
      rw (e, handle_lease_renew)
        (record {
          counts = λ j.
              rw (lookup-insert j req.name)
                (ground (arith, eq_iff req.name j, e, v.counts j, v.counts req.name));
          distinct = insert-Distinct _ _ c.pending_files v.distinct;
        })
]

monitor_leases-IsPending :
    (now : ℕ) (c : Controller) → IsPending c → IsPending (monitor_leases now c).controller
monitor_leases-IsPending now c v = record {
  counts = λ j.
      let (f, g, _) = monitor_leases_exact now c j v.distinct in
      rw (f, g) (ground (arith, v.counts j));
  distinct = monitor_leases-Distinct now c v.distinct;
}

-- A step that leaves the two pending maps alone.
same-IsPending :
    (c d : Controller)
    → d.pending_files ≡ c.pending_files
    → d.pending_chunks ≡ c.pending_chunks
    → IsPending c
    → IsPending d
same-IsPending c d p q v = record {
  counts = λ j. rw (p, q) (v.counts j);
  distinct = rw p v.distinct;
}

-- No failure of a chunk is reported, and numbers of chunks are 64-bit numbers.
abbrev pub IsSteady : Event → Type 0
IsSteady (receives (chunk_status_report req)) = req.success ≡ true
IsSteady (receives (put_file_req req)) = req.num_chunks < u64
IsSteady _ = Unit {0}

module _ (json : Json) (io : ℕ → WalIo) (rt : Runtime) (now : ℕ) where
  handle_message-IsPending :
      (msg : Wrapper) (c : Controller)
      → IsSteady (receives msg)
      → IsPending c
      → IsPending (handle_message json io rt now msg c).controller
  unfolding handle_message handle_get_file handle_replica_nodes handle_list_files handle_node_stats
  handle_message-IsPending (put_file_req req) c h v = handle_put_file-IsPending rt now req c h v
  handle_message-IsPending (chunk_status_report req) c h v =
      let succeeded : handle_chunk_status_report json io req c ≡ report_success json io req c =
        unfold handle_chunk_status_report in ground arith in
      subst IsPending (sym succeeded) (record {
        counts = report_success-Counts json io req c v.counts;
        distinct = report_success-Distinct json io req c v.distinct;
      })
  handle_message-IsPending (lease_renew_req req) c h v = handle_lease_renew-IsPending now req c v
  handle_message-IsPending (delete_file_req req) c h v =
      same-IsPending c (handle_delete_file json io req c).controller
        (unfold handle_delete_file in ground arith) (unfold handle_delete_file in ground arith) v
  handle_message-IsPending (registration_req node) c h v =
      same-IsPending c (register_node now node.id node.address c) (unfold register_node in refl)
        (unfold register_node in refl) v
  handle_message-IsPending (heartbeat node) c h v =
      same-IsPending c (update_heartbeat now node c).controller
        (unfold update_heartbeat in ground arith) (unfold update_heartbeat in ground arith) v
  handle_message-IsPending _ c h v = v

  process_replication_pending :
      (c : Controller)
      → ((process_replication json io c).controller.pending_files ≡ c.pending_files)
        × ((process_replication json io c).controller.pending_chunks ≡ c.pending_chunks)
  unfolding process_replication
  process_replication_pending c = ground arith

  react-IsPending :
      (e : Event) (c : Controller)
      → IsSteady e
      → IsPending c
      → IsPending (react json io rt now e c).controller
  unfolding react
  react-IsPending (receives msg) c h v = handle_message-IsPending msg c h v
  react-IsPending heartbeat_round c h v =
      same-IsPending c (monitor_heartbeats now c) (unfold monitor_heartbeats in refl)
        (unfold monitor_heartbeats in refl) v
  react-IsPending lease_round c h v = monitor_leases-IsPending now c v
  react-IsPending maintenance_round c h v =
      let (p, q) = process_replication_pending c in
      same-IsPending c (process_replication json io c).controller p q v

module _ (json : Json) (io : ℕ → WalIo) (rt : Runtime) where
  step-IsPending :
      (e : ℕ × Event) (c : Controller)
      → IsSteady e.1
      → IsPending c
      → IsPending (step json io rt e c).controller
  unfolding step
  step-IsPending (now, e) c h v =
      let reacted = react-IsPending json io rt now e c h v in ground arith

  -- If each pending file has one entry, and its counter is the number of its chunks of which no
  -- copy has been reported, this still holds after any history in which no chunk failure is
  -- reported and no request asks for 2 ^ 64 chunks or more.
  pub run-IsPending :
      (es : List (ℕ × Event)) (c : Controller)
      → All (λ e. IsSteady e.1) es
      → IsPending c
      → IsPending (run json io rt es c)
  unfolding run
  run-IsPending [] c h v = v
  run-IsPending (e ∷ es) c h v =
      run-IsPending es (step json io rt e c).controller h.1 (step-IsPending e c h.0 v)
