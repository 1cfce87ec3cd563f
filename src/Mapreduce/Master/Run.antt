-- ===== src/Mapreduce/Master/Run.antt =====
-- runJob of mapreduce/master/master.go: the goroutines of the map tasks, the wait for them, the
-- goroutines of the reduce tasks, and the messages to the client. A goroutine is the place that it
-- has reached, with its local variables; between two places it takes one lock or sends one message.
pub mod Steps
pub mod Moves
pub mod Counts
pub mod Reached
pub mod Ranks
pub mod Ends
pub mod Sent
pub mod Told
use dfs_mapreduce.Base.{
  ℕ, zero, suc, ◌+◌, ◌%◌, ◌^◌, String, Bool, true, false, Option, none, some, List, [], ◌∷◌, ◌++◌,
  length, get_elem?, Dict, lookup, if◌then◌else◌, ◌&&◌,
}
use dfs_mapreduce.Mapreduce.Messages.{JobRequest, TaskType, map_task, MapReduceWrapper}
use dfs_mapreduce.Mapreduce.Messages.Send.{send_job_progress}
use dfs_mapreduce.Mapreduce.Master.{MapTaskInfo}
use dfs_mapreduce.Mapreduce.Master.Select.{is_empty}
use dfs_mapreduce.Mapreduce.Master.Assign.{
  Network, Assigned, done, failed, no_report, lost_worker, out_of_fuel, assign_map_task,
  assign_reduce_task,
}
use dfs_mapreduce.Mapreduce.Master.Jobs.{set_node_addr, add_bytes}

-- The job as it is submitted.
pub record Job : Type 0 where
  pub id : String
  pub request : JobRequest
  pub chunk_nodes : Dict (List (List String))
  pub tasks : List MapTaskInfo
  pub num_reducers : ℕ

-- `assigned` to `counted` are the places of a task that its worker has done, `failing` and
-- `has_read` those of a task that is skipped.
pub data Routine : Type 0 where
  waiting : Routine
  assigned : String → List ℕ → Routine
  placed : String → List ℕ → Routine
  added : String → List ℕ → Routine
  counted : ℕ → String → List ℕ → Routine
  completed : String → List ℕ → Routine
  failing : Routine
  has_read : ℕ → Routine
  skipped : Routine

pub record Run : Type 0 where
  pub phase : TaskType
  pub map_task_list : List MapTaskInfo
  pub reduce_data : List (Dict ℕ)
  pub map_completed : ℕ
  pub reduce_completed : ℕ
  pub maps : List Routine
  pub reduces : List Routine
  pub sent : List MapReduceWrapper
  pub finished : Bool

-- A panic in a goroutine ends the master.
pub data Turn (A : Type 0) : Type 0 where
  moved : A → Turn A
  blocked : Turn A
  crashed : Turn A

-- What the goroutines find: the workers of each task's attempts, and the text of their error.
pub record World : Type 0 where
  pub map_network : ℕ → Network
  pub reduce_network : ℕ → Network
  pub error_text : String

pub data Event : Type 0 where
  map_turn : ℕ → Event
  reduce_turn : ℕ → Event
  map_wait : Event
  reduce_wait : Event

abbrev pub repeat {ℓ} : {A : Type ℓ} → ℕ → A → List A
repeat zero x = []
repeat (suc n) x = x ∷ repeat n x

abbrev pub set_elem : ℕ → Routine → List Routine → List Routine
set_elem i r [] = []
set_elem zero r (x ∷ xs) = r ∷ xs
set_elem (suc i) r (x ∷ xs) = x ∷ set_elem i r xs

-- sendProgress
unfoldable pub send_progress : Job → String → ℕ → ℕ → Bool → Bool → String → Run → Run
unfolding send_job_progress
send_progress job phase done_tasks total is_complete is_error msg run = record run {
  sent =
      run.sent
      ++ send_job_progress job.id phase done_tasks (total % 2 ^ 32) is_complete is_error msg ∷ [];
}

-- job.chunkNodes[taskInfo.FileName][taskInfo.ChunkId]; a missing file is a nil slice.
unfoldable pub nodes_of : Job → MapTaskInfo → Option (List String)
unfolding lookup
nodes_of job task = elim (lookup task.file_name job.chunk_nodes) [
  | none ↦ none
  | some chunks ↦ get_elem? chunks task.chunk_id
]

-- The test of what assignMapTask returns: without reduce data and error, err.Error() panics. A
-- goroutine whose worker never reports has no further turn.
unfoldable pub after_map : Assigned → Turn Routine
after_map (done addr reduce_data) =
    if is_empty reduce_data then crashed else moved (assigned addr reduce_data)
after_map failed = moved failing
after_map no_report = blocked
after_map lost_worker = crashed
after_map out_of_fuel = crashed

unfoldable pub start_map : Job → World → ℕ → Run → Turn Routine
unfolding assign_map_task nodes_of after_map
start_map job world i run = elim (get_elem? run.map_task_list i) [
  | none ↦ crashed
  | some task ↦ elim (nodes_of job task) [
    | none ↦ crashed
    | some nodes ↦ after_map (assign_map_task (world.map_network i) nodes)
  ]
]

abbrev pub with_run : Run → Turn Routine → Turn (Routine × Run)
with_run run (moved r) = moved (r, run)
with_run run blocked = blocked
with_run run crashed = crashed

-- One turn of the goroutine of a map task.
unfoldable pub step_map : Job → World → ℕ → Routine → Run → Turn (Routine × Run)
unfolding start_map set_node_addr add_bytes send_progress
step_map job world i waiting run = with_run run (start_map job world i run)
step_map job world i (assigned addr bytes) run =
    moved (placed addr bytes, record run { map_task_list = set_node_addr i addr run.map_task_list })
step_map job world i (placed addr bytes) run = elim (add_bytes addr bytes run.reduce_data) [
  | none ↦ crashed
  | some table ↦ moved (added addr bytes, record run { reduce_data = table })
]
step_map job world i (added addr bytes) run =
    let c = (run.map_completed + 1) % 2 ^ 32 in
    moved (counted c addr bytes, record run { map_completed = c })
step_map job world i (counted c addr bytes) run =
    moved (completed addr bytes, send_progress job "MAP" c (length job.tasks) false false "" run)
step_map job world i failing run = moved (has_read run.map_completed, run)
step_map job world i (has_read c) run =
    moved (skipped, send_progress job "MAP" c (length job.tasks) false true world.error_text run)
step_map job world i (completed addr bytes) run = blocked
step_map job world i skipped run = blocked

-- The test of what assignReduceTask returns.
unfoldable pub after_reduce : Assigned → Turn Routine
after_reduce (done addr bytes) = moved (added addr bytes)
after_reduce failed = moved failing
after_reduce no_report = blocked
after_reduce lost_worker = crashed
after_reduce out_of_fuel = crashed

unfoldable pub start_reduce : World → ℕ → Run → Turn Routine
unfolding assign_reduce_task after_reduce
start_reduce world i run = elim (get_elem? run.reduce_data i) [
  | none ↦ crashed
  | some bytes ↦ after_reduce (assign_reduce_task (world.reduce_network i) bytes)
]

-- One turn of the goroutine of a reduce task. A skipped one sends the phase and the counter of the
-- map tasks.
unfoldable pub step_reduce : Job → World → ℕ → Routine → Run → Turn (Routine × Run)
unfolding start_reduce send_progress
step_reduce job world i waiting run = with_run run (start_reduce world i run)
step_reduce job world i (added addr bytes) run =
    let c = (run.reduce_completed + 1) % 2 ^ 32 in
    moved (counted c addr bytes, record run { reduce_completed = c })
step_reduce job world i (counted c addr bytes) run =
    moved (completed addr bytes, send_progress job "REDUCE" c job.num_reducers false false "" run)
step_reduce job world i failing run = moved (has_read run.map_completed, run)
step_reduce job world i (has_read c) run =
    moved (skipped, send_progress job "MAP" c (length job.tasks) false true world.error_text run)
step_reduce job world i (assigned addr bytes) run = blocked
step_reduce job world i (placed addr bytes) run = blocked
step_reduce job world i (completed addr bytes) run = blocked
step_reduce job world i skipped run = blocked

abbrev pub has_ended : Routine → Bool
has_ended (completed addr bytes) = true
has_ended skipped = true
has_ended waiting = false
has_ended (assigned addr bytes) = false
has_ended (placed addr bytes) = false
has_ended (added addr bytes) = false
has_ended (counted c addr bytes) = false
has_ended failing = false
has_ended (has_read c) = false

-- The wait group is down to zero.
abbrev pub all_ended : List Routine → Bool
all_ended [] = true
all_ended (r ∷ rs) = has_ended r && all_ended rs

-- The state when the goroutines of the map tasks are started.
unfoldable pub start_run : Job → Run
unfolding send_progress
start_run job = send_progress job "MAP" 0 (length job.tasks) false false "" (record {
  phase = map_task;
  map_task_list = job.tasks;
  reduce_data = repeat job.num_reducers [];
  map_completed = 0;
  reduce_completed = 0;
  maps = repeat (length job.tasks) waiting;
  reduces = [];
  sent = [];
  finished = false;
})
