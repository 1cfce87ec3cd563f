-- ===== src/Tests/Reports.antt =====
-- Reports on the chunks of a pending file.
use dfs_mapreduce.Base.{
  ℕ, ◌+◌, ◌≡◌, refl, String, true, none, some, List, [], ◌∷◌, All, arith, lookup, str_eq,
  Bool-cases, inl, inr, ◌==◌, if◌then◌else◌,
}
use dfs_mapreduce.Dfs.Messages.{
  ChunkStatusReport, put_file_req, chunk_status_report, no_chunk, no_node,
}
use dfs_mapreduce.Dfs.Controller.{ChunkInfo, FileMetadata, Controller}
use dfs_mapreduce.Dfs.Controller.Wal.{Json, WalIo}
use dfs_mapreduce.Dfs.Controller.Report.{find_chunk, report_success, report_failure}
use dfs_mapreduce.Dfs.Controller.Report.Chunks.{uncopied}
use dfs_mapreduce.Dfs.Controller.Report.Counting.{Counts, with_copy, report_success_first}
use dfs_mapreduce.Dfs.Controller.Report.Counts.{report_success-Counts}
use dfs_mapreduce.Dfs.Controller.Report.Failure.{publishes_too_early}
use dfs_mapreduce.Dfs.Controller.Step.{Event, receives, lease_round, run}
use dfs_mapreduce.Dfs.Controller.Step.Pending.{IsPending, IsSteady, run-IsPending}
use dfs_mapreduce.Tests.Controller.{in_order, empty, three_nodes, small_file}

-- Nothing marshals, and every system call succeeds.
abbrev pub no_json : Json
no_json = record { marshal = λ r. none; unmarshal = λ bs. none }

abbrev pub all_well : ℕ → WalIo
all_well i = record {
  write_error = none;
  tmp_open = true;
  tmp_write = true;
  rename = true;
  reopen = true;
}

abbrev pub chunk : ℕ → List String → ChunkInfo
chunk id nodes = record { chunk_id = id; nodes = nodes; size = 10; checksum = [] }

-- One of the two chunks has a copy.
abbrev half_stored : FileMetadata
half_stored = record {
  file_name = "f";
  size = 15;
  chunks = chunk 0 ("a" ∷ []) ∷ chunk 1 [] ∷ [];
  created_at = 0;
  lease_expiry = 7;
}

abbrev uploading : Controller
uploading = record empty { pending_files = ("f", half_stored) ∷ []; pending_chunks = ("f", 1) ∷ [] }

abbrev report : ℕ → String → ChunkStatusReport
report id address = record {
  metadata = record no_chunk { id = id; file_name = "f" };
  success = true;
  node = record no_node { address = address };
}

uploading-Counts : Counts uploading
unfolding lookup uncopied
uploading-Counts name = elim (Bool-cases (str_eq "f" name)) [
  | inl e ↦ rw e (refl, omega arith)
  | inr e ↦ rw e tt
]

pending : lookup "f" uploading.pending_files ≡ some half_stored
unfolding lookup
pending = refl

second_chunk : find_chunk 1 half_stored.chunks ≡ some (chunk 1 [])
unfolding find_chunk
second_chunk = refl

first_chunk : find_chunk 0 half_stored.chunks ≡ some (chunk 0 ("a" ∷ []))
unfolding find_chunk
first_chunk = refl

one_missing : uncopied half_stored.chunks ≡ 1
unfolding uncopied
one_missing = refl

report_success_first_example :
    (lookup "f" (report_success no_json all_well (report 1 "b") uploading).files ≡ (
      if uncopied half_stored.chunks == 1
      then some (with_copy (report 1 "b") (chunk 1 []) half_stored)
      else lookup "f" uploading.files))
    × (lookup "f" (report_success no_json all_well (report 1 "b") uploading).pending_files ≡ (
        if uncopied half_stored.chunks == 1
        then none
        else some (with_copy (report 1 "b") (chunk 1 []) half_stored)))
    × (uncopied (with_copy (report 1 "b") (chunk 1 []) half_stored).chunks + 1
        ≡ uncopied half_stored.chunks)
report_success_first_example =
    report_success_first no_json all_well (report 1 "b") uploading half_stored (chunk 1 [])
      uploading-Counts pending second_chunk refl

report_success-Counts_run : Counts (report_success no_json all_well (report 1 "b") uploading)
report_success-Counts_run =
    report_success-Counts no_json all_well (report 1 "b") uploading uploading-Counts

publishes_too_early_example :
    (stored : FileMetadata) × (lookup "f"
        (report_success no_json all_well
          (report 0 "c")
          (report_failure no_json all_well (report 0 "a") uploading)).files
      ≡ some stored)
    × (uncopied stored.chunks ≡ 1)
publishes_too_early_example =
    publishes_too_early no_json all_well (report 0 "a") (record no_node { address = "c" }) uploading
      half_stored (chunk 0 ("a" ∷ [])) uploading-Counts pending first_chunk refl one_missing

-- A file is allocated and its first chunk stored; then the leases are looked at.
abbrev history : List (ℕ × Event)
history =
    (1, receives (put_file_req small_file))
    ∷ (2, receives (chunk_status_report (report 0 "a")))
    ∷ (3, lease_round)
    ∷ []

history-IsSteady : All (λ e. IsSteady e.1) history
history-IsSteady = (omega arith, (refl, (tt, tt)))

three_nodes-IsPending : IsPending three_nodes
unfolding lookup
three_nodes-IsPending = record { counts = λ name. tt; distinct = tt }

run-IsPending_example : IsPending (run no_json all_well in_order history three_nodes)
run-IsPending_example =
    run-IsPending no_json all_well in_order history three_nodes history-IsSteady
      three_nodes-IsPending
