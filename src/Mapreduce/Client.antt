-- ===== src/Mapreduce/Client.antt =====
-- submitJob of mapreduce/client/client.go: what the client shows of the messages that it receives.
pub mod Watch
pub mod Top
pub mod Results
use dfs_mapreduce.Base.{
  ℕ, String, Bool, true, false, Option, none, some, List, [], ◌∷◌, ◌++◌, not, str_eq, if◌then◌else◌,
}
use dfs_mapreduce.Mapreduce.Messages.{
  JobProgress, MapReduceWrapper, response, job_req, job_resp, heartbeat, task_assign, task_report,
  fetch_inter, job_progress,
}

-- The lines that are shown.
pub data Line : Type 0 where
  task_failed : String → Line
  blank : Line
  success : String → Line
  starting : String → Line
  progress : ℕ → ℕ → Line

-- `ended` is the end of the loop by its `break`; else the connection is lost, and the client exits.
pub record Watched : Type 0 where
  pub shown : List Line
  pub ended : Bool

-- The job is rejected, or accepted under its id.
pub data Submission : Type 0 where
  no_response : Submission
  rejected : String → Submission
  accepted : String → Watched → Submission

abbrev pub say : List Line → Watched → Watched
say ls w = record { shown = ls ++ w.shown; ended = w.ended }

abbrev pub failure_lines : JobProgress → List Line
failure_lines prog = if prog.is_error then task_failed prog.message ∷ [] else []

abbrev pub progress_lines : JobProgress → List Line
progress_lines prog =
    if prog.is_complete then [] else progress prog.completed_tasks prog.total_tasks ∷ []

abbrev pub between_phases : String → List Line
between_phases current = if str_eq current "" then [] else blank ∷ []

-- The loop, with the current phase.
unfoldable pub watch : String → List MapReduceWrapper → Watched
watch current [] = record { shown = []; ended = false }
watch current (job_progress prog ∷ rest) = elim (str_eq prog.phase current) [
  | true ↦ say (failure_lines prog ++ progress_lines prog) (watch current rest)
  | false ↦ elim prog.is_complete [
    | true ↦ record {
      shown = failure_lines prog ++ between_phases current ++ success prog.message ∷ [];
      ended = true;
    }
    | false ↦
        say
          (failure_lines prog
            ++ between_phases current
            ++ starting prog.phase ∷ progress_lines prog)
          (watch prog.phase rest)
  ]
]
watch current (response x ∷ rest) = watch current rest
watch current (job_req x ∷ rest) = watch current rest
watch current (job_resp x ∷ rest) = watch current rest
watch current (heartbeat x ∷ rest) = watch current rest
watch current (task_assign x ∷ rest) = watch current rest
watch current (task_report x ∷ rest) = watch current rest
watch current (fetch_inter x ∷ rest) = watch current rest

-- The messages that the client receives after its request.
unfoldable pub submit_job : List MapReduceWrapper → Submission
unfolding watch
submit_job [] = no_response
submit_job (job_resp resp ∷ rest) =
    if resp.resp.ok then accepted resp.job_id (watch "" rest) else rejected resp.resp.message
submit_job (response x ∷ rest) = rejected ""
submit_job (job_req x ∷ rest) = rejected ""
submit_job (job_progress x ∷ rest) = rejected ""
submit_job (heartbeat x ∷ rest) = rejected ""
submit_job (task_assign x ∷ rest) = rejected ""
submit_job (task_report x ∷ rest) = rejected ""
submit_job (fetch_inter x ∷ rest) = rejected ""
