-- ===== src/Mapreduce/Master/Submit.antt =====
-- getChunkInfoFromDFS, handleJobSubmission and handleConnection of mapreduce/master/master.go. The replies of the
-- storage controller are an argument, as are the job's id, the clock and the texts of errors.
pub mod Chunks
use dfs_mapreduce.Base.{
  ℕ, zero, suc, ◌+◌, String, Bool, true, false, Option, none, some, List, [], ◌∷◌, ◌++◌, length,
  map, Dict, insert, lookup, if◌then◌else◌,
}
use dfs_mapreduce.Dfs.Messages.{NodeInfo, ChunkLocation, GetFileResponse, Wrapper, get_file_resp}
use dfs_mapreduce.Mapreduce.Messages.{
  JobRequest, Heartbeat, MapReduceWrapper, response, job_req, job_resp, heartbeat, task_assign,
  task_report, fetch_inter, job_progress,
}
use dfs_mapreduce.Mapreduce.Messages.Send.{send_job_response}
use dfs_mapreduce.Mapreduce.Master.{
  WorkerStatus, MapTaskInfo, handle_worker_heartbeat, choose_num_reducers,
}
use dfs_mapreduce.Mapreduce.Master.Run.{Job, repeat}

-- The addresses of each chunk, an error, or a panic.
pub data ChunkNodes : Type 0 where
  chunks : List (List String) → ChunkNodes
  dfs_error : ChunkNodes
  out_of_range : ChunkNodes

-- chunkNodes[id] = addrs
unfoldable pub set_chunk : ℕ → List String → List (List String) → Option (List (List String))
set_chunk id addrs [] = none
set_chunk zero addrs (c ∷ cs) = some (addrs ∷ cs)
set_chunk (suc id) addrs (c ∷ cs) = elim (set_chunk id addrs cs) [
  | none ↦ none
  | some rest ↦ some (c ∷ rest)
]

-- The loop over the locations.
unfoldable pub fill_chunks : List ChunkLocation → List (List String) → Option (List (List String))
unfolding set_chunk
fill_chunks [] nodes = some nodes
fill_chunks (loc ∷ locs) nodes =
    elim (set_chunk loc.metadata.id (map (λ n. n.address) loc.nodes) nodes) [
      | none ↦ none
      | some next ↦ fill_chunks locs next
    ]

abbrev pub filled : Option (List (List String)) → ChunkNodes
filled none = out_of_range
filled (some nodes) = chunks nodes

-- `none` is a connection that fails before the reply; a reply of another kind is an error.
unfoldable pub get_chunk_info_from_dfs : Option Wrapper → ChunkNodes
unfolding fill_chunks
get_chunk_info_from_dfs none = dfs_error
get_chunk_info_from_dfs (some (get_file_resp resp)) =
    if resp.resp.ok
    then filled (fill_chunks resp.locations (repeat (length resp.locations) []))
    else dfs_error
get_chunk_info_from_dfs (some other) = dfs_error

-- One task for each of the chunks from `id` on.
unfoldable pub tasks_from : String → ℕ → List (List String) → List MapTaskInfo
tasks_from file id [] = []
tasks_from file id (c ∷ cs) =
    record { file_name = file; chunk_id = id; node_addr = "" } ∷ tasks_from file (id + 1) cs

-- The loop over the input files: the maps so far, or the file that fails.
pub data Inputs : Type 0 where
  gathered : Dict (List (List String)) → List MapTaskInfo → Inputs
  failed_at : String → Inputs
  input_panic : Inputs

unfoldable pub gather :
    (ℕ → String → Option Wrapper)
    → ℕ
    → List String
    → Dict (List (List String))
    → List MapTaskInfo
    → Inputs
unfolding get_chunk_info_from_dfs tasks_from insert
gather ask i [] nodes tasks = gathered nodes tasks
gather ask i (file ∷ files) nodes tasks = elim (get_chunk_info_from_dfs (ask i file)) [
  | dfs_error ↦ failed_at file
  | out_of_range ↦ input_panic
  | chunks found ↦
      gather ask (i + 1) files (insert file found nodes) (tasks ++ tasks_from file 0 found)
]

pub record Master : Type 0 where
  pub workers : Dict WorkerStatus
  pub jobs : Dict Job

-- What a message meets: the time, the replies of the controller, the new job's id, the text of an error.
pub record Arrival : Type 0 where
  pub now : ℕ
  pub ask : ℕ → String → Option Wrapper
  pub job_id : String
  pub error_text : String → String

-- What a message leads to: the state, what is sent, and the jobs that are run.
pub record Handled : Type 0 where
  pub master : Master
  pub sent : List MapReduceWrapper
  pub started : List Job

abbrev pub new_job : String → JobRequest → Dict (List (List String)) → List MapTaskInfo → Job
new_job job_id req nodes tasks = record {
  id = job_id;
  request = req;
  chunk_nodes = nodes;
  tasks = tasks;
  num_reducers = choose_num_reducers req.num_reducers (length tasks);
}

abbrev pub submitted : Arrival → JobRequest → Master → Inputs → Option Handled
submitted arrival req m input_panic = none
submitted arrival req m (failed_at file) = some (record {
  master = m;
  sent = send_job_response false (arrival.error_text file) "" ∷ [];
  started = [];
})
submitted arrival req m (gathered nodes tasks) =
    let job = new_job arrival.job_id req nodes tasks in
    some (record {
      master = record m { jobs = insert arrival.job_id job m.jobs };
      sent = send_job_response true "Job accepted" arrival.job_id ∷ [];
      started = job ∷ [];
    })

-- `none` is a panic.
unfoldable pub handle_job_submission : Arrival → JobRequest → Master → Option Handled
unfolding gather
handle_job_submission arrival req m =
    submitted arrival req m (gather arrival.ask 0 req.input_files [] [])

abbrev pub ignored : Master → Option Handled
ignored m = some (record { master = m; sent = []; started = [] })

-- The cases of handleConnection.
unfoldable pub handle_message : Arrival → MapReduceWrapper → Master → Option Handled
unfolding handle_worker_heartbeat handle_job_submission
handle_message arrival (heartbeat hb) m =
    ignored (record m { workers = handle_worker_heartbeat arrival.now hb m.workers })
handle_message arrival (job_req req) m = handle_job_submission arrival req m
handle_message arrival (response x) m = ignored m
handle_message arrival (job_resp x) m = ignored m
handle_message arrival (task_assign x) m = ignored m
handle_message arrival (task_report x) m = ignored m
handle_message arrival (fetch_inter x) m = ignored m
handle_message arrival (job_progress x) m = ignored m

-- The messages of one connection, up to its end.
unfoldable pub handle_connection : List (Arrival × MapReduceWrapper) → Master → Option Handled
unfolding handle_message
handle_connection [] m = ignored m
handle_connection ((arrival, msg) ∷ rest) m = elim (handle_message arrival msg m) [
  | none ↦ none
  | some first ↦ elim (handle_connection rest first.master) [
    | none ↦ none
    | some later ↦ some (record {
      master = later.master;
      sent = first.sent ++ later.sent;
      started = first.started ++ later.started;
    })
  ]
]
