-- ===== src/Mapreduce/Worker/Connection.antt =====
-- handleConnection and handleTask of mapreduce/worker/worker.go: what the worker sends back on a connection, and
-- what the master makes of it.
use dfs_mapreduce.Base.{
  ℕ, zero, suc, ◌≡◌, refl, String, true, false, Option, none, some, List, [], ◌∷◌,
}
use dfs_mapreduce.Mapreduce.Messages.{
  TaskType, map_task, reduce_task, TaskAssignment, FetchIntermediateRequest, MapReduceWrapper,
  response, job_req, job_resp, heartbeat, task_assign, task_report, fetch_inter, job_progress,
}
use dfs_mapreduce.Mapreduce.Messages.Send.{send_response, send_task_report}
use dfs_mapreduce.Mapreduce.Master.Assign.{received, Told, told, not_done, contact_worker}
use dfs_mapreduce.Mapreduce.Worker.{
  Indexed, Stored, handle_fetch_intermediate, Outcome, returned, failed, panicked,
}

-- The messages that are sent, and the bytes behind them.
pub record Sent : Type 0 where
  pub messages : List MapReduceWrapper
  pub content : List ℕ

-- How the two kinds of tasks end, and the text of an error.
pub record Runs : Type 0 where
  pub run_map : TaskAssignment → Outcome (Indexed × List ℕ)
  pub run_reduce : TaskAssignment → Outcome (List ℕ)
  pub error_text : String

-- make([]uint64, n)
abbrev pub zeros : ℕ → List ℕ
zeros zero = []
zeros (suc n) = 0 ∷ zeros n

-- The report of a task that has ended; `none` is a panic, which ends the worker.
unfoldable pub report : String → TaskAssignment → Outcome (List ℕ) → Option Sent
unfolding send_task_report
report error_text task panicked = none
report error_text task failed = some (record {
  messages = send_task_report task.job_id task.task_id false error_text [] ∷ [];
  content = [];
})
report error_text task (returned sizes) = some (record {
  messages = send_task_report task.job_id task.task_id true "" sizes ∷ [];
  content = [];
})

-- The reduce data of a map task, and of a reduce task, for which they stay zero.
abbrev pub map_sizes : Outcome (Indexed × List ℕ) → Outcome (List ℕ)
map_sizes (returned (out, sizes)) = returned sizes
map_sizes failed = failed
map_sizes panicked = panicked

abbrev pub no_sizes : ℕ → Outcome (List ℕ) → Outcome (List ℕ)
no_sizes n (returned bytes) = returned (zeros n)
no_sizes n failed = failed
no_sizes n panicked = panicked

abbrev pub task_end : Runs → TaskAssignment → TaskType → Outcome (List ℕ)
task_end runs task map_task = map_sizes (runs.run_map task)
task_end runs task reduce_task = no_sizes task.num_reducers (runs.run_reduce task)

unfoldable pub handle_task : Runs → TaskAssignment → Option Sent
unfolding report
handle_task runs task = report runs.error_text task (task_end runs task task.task_type)

-- The messages of handleFetchIntermediate, with the section behind them.
unfoldable pub answer_fetch : Stored → ℕ → Sent
unfolding handle_fetch_intermediate send_response
answer_fetch disk r = elim (handle_fetch_intermediate disk r) [
  | none ↦ record {
    messages = send_response false "intermediate data index not found" ∷ [];
    content = [];
  }
  | some bytes ↦ record {
    messages = send_response true "sending intermediate data..." ∷ [];
    content = bytes;
  }
]

-- The messages that arrive before the connection ends: the first task or request is answered, others are
-- passed over. `results` is where a map task's result stands.
unfoldable pub handle_connection :
    Runs → (FetchIntermediateRequest → Stored) → List MapReduceWrapper → Option Sent
unfolding handle_task answer_fetch
handle_connection runs results [] = some (record { messages = []; content = [] })
handle_connection runs results (task_assign task ∷ rest) = handle_task runs task
handle_connection runs results (fetch_inter req ∷ rest) =
    some (answer_fetch (results req) req.reducer_id)
handle_connection runs results (response x ∷ rest) = handle_connection runs results rest
handle_connection runs results (job_req x ∷ rest) = handle_connection runs results rest
handle_connection runs results (job_resp x ∷ rest) = handle_connection runs results rest
handle_connection runs results (heartbeat x ∷ rest) = handle_connection runs results rest
handle_connection runs results (task_report x ∷ rest) = handle_connection runs results rest
handle_connection runs results (job_progress x ∷ rest) = handle_connection runs results rest

-- What the master takes from the messages.
abbrev taken : Option Sent → Told
taken none = contact_worker (received [])
taken (some sent) = contact_worker (received sent.messages)

abbrev reported : Outcome (List ℕ) → Told
reported (returned sizes) = told sizes
reported failed = not_done
reported panicked = not_done

report-taken :
    (error_text : String) (task : TaskAssignment) (end : Outcome (List ℕ))
    → taken (report error_text task end) ≡ reported end
unfolding report contact_worker send_task_report
report-taken error_text task (returned sizes) = refl
report-taken error_text task failed = refl
report-taken error_text task panicked = refl

-- The master has the sizes of a task exactly if the task has returned them.
handle_connection-taken :
    (runs : Runs) (results : FetchIntermediateRequest → Stored) (task : TaskAssignment)
    → (rest : List MapReduceWrapper)
    → taken (handle_connection runs results (task_assign task ∷ rest))
      ≡ reported (task_end runs task task.task_type)
unfolding handle_connection handle_task
handle_connection-taken runs results task rest =
    report-taken runs.error_text task (task_end runs task task.task_type)
