-- ===== src/Mapreduce/Messages.antt =====
-- mapreduce/proto/mapreduce.proto: the messages between clients, master and workers.
pub mod Send
use dfs_mapreduce.Base.{ℕ, String, Bool, List, Dict}

pub record Response : Type 0 where
  pub ok : Bool
  pub message : String

pub record JobRequest : Type 0 where
  pub input_files : List String
  pub job_binary : List ℕ
  pub num_reducers : ℕ

pub record JobResponse : Type 0 where
  pub resp : Response
  pub job_id : String

pub record WorkerInfo : Type 0 where
  pub id : String
  pub address : String
  pub cpu_load : ℕ
  pub mem_load : ℕ
  pub active_tasks : ℕ

pub record Heartbeat : Type 0 where
  pub worker : WorkerInfo

pub data TaskType : Type 0 where
  map_task : TaskType
  reduce_task : TaskType

pub record TaskAssignment : Type 0 where
  pub job_id : String
  pub task_id : String
  pub task_type : TaskType
  pub input_file : String
  pub chunk_id : ℕ
  pub job_binary : List ℕ
  pub num_reducers : ℕ
  pub reducer_id : ℕ
  pub map_task_info : Dict String

pub record TaskReport : Type 0 where
  pub job_id : String
  pub task_id : String
  pub success : Bool
  pub message : String
  pub reduce_data : List ℕ

pub record FetchIntermediateRequest : Type 0 where
  pub job_id : String
  pub reducer_id : ℕ
  pub task_id : String

pub record JobProgress : Type 0 where
  pub job_id : String
  pub phase : String
  pub completed_tasks : ℕ
  pub total_tasks : ℕ
  pub is_complete : Bool
  pub is_error : Bool
  pub message : String

pub data MapReduceWrapper : Type 0 where
  response : Response → MapReduceWrapper
  job_req : JobRequest → MapReduceWrapper
  job_resp : JobResponse → MapReduceWrapper
  heartbeat : Heartbeat → MapReduceWrapper
  task_assign : TaskAssignment → MapReduceWrapper
  task_report : TaskReport → MapReduceWrapper
  fetch_inter : FetchIntermediateRequest → MapReduceWrapper
  job_progress : JobProgress → MapReduceWrapper
