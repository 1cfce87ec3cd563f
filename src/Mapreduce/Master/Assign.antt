-- ===== src/Mapreduce/Master/Assign.antt =====
-- assignMapTask and assignReduceTask of mapreduce/master/master.go. What the workers do in each of
-- the attempts is an argument, as the master's own view of them, which heartbeats change meanwhile.
pub mod Retries
use dfs_mapreduce.Base.{
  ℕ, zero, suc, ◌+◌, ◌%◌, ◌^◌, String, Bool, true, false, Option, none, some, List, [], ◌∷◌, Dict,
  lookup, insert, str_eq, leb, if◌then◌else◌,
}
use dfs_mapreduce.Mapreduce.Messages.{
  MapReduceWrapper, response, job_req, job_resp, heartbeat, task_assign, task_report, fetch_inter,
  job_progress, TaskReport, map_task, reduce_task,
}
use dfs_mapreduce.Mapreduce.Messages.Send.{send_task_assignment}
use dfs_mapreduce.Mapreduce.Master.{WorkerStatus, MapTaskInfo}
use dfs_mapreduce.Mapreduce.Master.Select.{Runtime, select_worker, select_reduce_worker}

-- The connection to a worker: refused, lost while the task is sent, the messages received before
-- the connection fails, or the messages received on a connection that then stays open in silence.
pub data Contact : Type 0 where
  refused : Contact
  send_failed : Contact
  received : List MapReduceWrapper → Contact
  silent : List MapReduceWrapper → Contact

pub record Network : Type 0 where
  pub runtime : ℕ → Runtime
  pub workers : ℕ → Dict WorkerStatus
  pub workers_after : ℕ → Dict WorkerStatus
  pub contact : ℕ → String → Contact

-- `no_report` is a wait without end, since Receive has no deadline; `lost_worker` is the nil worker that the source dereferences.
pub data Assigned : Type 0 where
  done : String → List ℕ → Assigned
  failed : Assigned
  no_report : Assigned
  lost_worker : Assigned
  out_of_fuel : Assigned

-- fmt.Sprintf("%s-%d") is `format`.
module _ (format : String → ℕ → String) where
  -- Where each map task has left its result, by the task's id.
  unfoldable pub map_task_info : List MapTaskInfo → Dict String → Dict String
  map_task_info [] info = info
  map_task_info (task ∷ tasks) info =
      map_task_info tasks (insert (format task.file_name task.chunk_id) task.node_addr info)

  -- What is sent to the worker of a map task: the job's id, its binary and number of reducers.
  unfoldable pub map_assignment : String → List ℕ → ℕ → MapTaskInfo → MapReduceWrapper
  unfolding send_task_assignment
  map_assignment job_id job_binary num_reducers task =
      send_task_assignment job_id (format task.file_name task.chunk_id) map_task task.file_name
        task.chunk_id job_binary (num_reducers % 2 ^ 32) 0 []

  -- What is sent to the worker of a reduce task.
  unfoldable pub reduce_assignment : String → List ℕ → ℕ → List MapTaskInfo → ℕ → MapReduceWrapper
  unfolding send_task_assignment map_task_info
  reduce_assignment job_id job_binary num_reducers tasks reducer_id =
      send_task_assignment job_id (format "reduce" reducer_id) reduce_task "" 0 job_binary
        (num_reducers % 2 ^ 32) reducer_id (map_task_info tasks [])

abbrev pub limit : ℕ
limit = 5

-- What the master hears: the reduce data, that the task is not done, or nothing.
pub data Told : Type 0 where
  told : List ℕ → Told
  not_done : Told
  unheard : Told

-- The loop over the messages, up to the first report; behind the messages there is `end`.
unfoldable pub await_report : Told → List MapReduceWrapper → Told
await_report end [] = end
await_report end (task_report report ∷ rest) =
    if report.success then told report.reduce_data else not_done
await_report end (response x ∷ rest) = await_report end rest
await_report end (job_req x ∷ rest) = await_report end rest
await_report end (job_resp x ∷ rest) = await_report end rest
await_report end (heartbeat x ∷ rest) = await_report end rest
await_report end (task_assign x ∷ rest) = await_report end rest
await_report end (fetch_inter x ∷ rest) = await_report end rest
await_report end (job_progress x ∷ rest) = await_report end rest

-- One contact with a worker.
unfoldable pub contact_worker : Contact → Told
unfolding await_report
contact_worker refused = not_done
contact_worker send_failed = not_done
contact_worker (received messages) = await_report not_done messages
contact_worker (silent messages) = await_report unheard messages

-- What an attempt with the selected worker comes to; `none` is another round.
unfoldable pub attempt : Network → ℕ → String → Option Assigned
unfolding contact_worker
attempt net retry worker_id =
    if str_eq worker_id "" then none else elim (lookup worker_id (net.workers_after retry)) [
      | none ↦ some lost_worker
      | some ws ↦ elim (contact_worker (net.contact retry ws.info.address)) [
        | not_done ↦ none
        | unheard ↦ some no_report
        | told reduce_data ↦ some (done ws.info.address reduce_data)
      ]
    ]

-- The loop, given the selection of the worker in a round.
unfoldable pub assign : ℕ → Network → (ℕ → String) → ℕ → Assigned
assign zero net select retry = out_of_fuel
assign (suc fuel) net select retry =
    if leb limit retry then failed else elim (attempt net retry (select retry)) [
      | some result ↦ result
      | none ↦ assign fuel net select ((retry + 1) % 2 ^ 8)
    ]

-- Six rounds are enough.
unfoldable pub assign_map_task : Network → List String → Assigned
unfolding assign
assign_map_task net nodes =
    assign 6 net
      (λ retry. select_worker (net.runtime retry) (net.workers retry) nodes (leb retry 2)) 0

unfoldable pub assign_reduce_task : Network → Dict ℕ → Assigned
unfolding assign
assign_reduce_task net worker_data =
    assign 6 net
      (λ retry.
        select_reduce_worker (net.runtime retry) (net.workers retry) worker_data (leb retry 2))
      0
