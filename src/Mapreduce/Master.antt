-- ===== src/Mapreduce/Master.antt =====
-- mapreduce/master/master.go: the workers that the master knows, and the number of reducers.
pub mod Select
pub mod Assign
pub mod Jobs
pub mod Run
pub mod Submit
use dfs_mapreduce.Base.{
  ℕ, ◌+◌, ◌-◌, ◌/◌, String, List, [], ◌∷◌, Dict, insert, erase, ltb, max, min, ◌==◌, if◌then◌else◌,
}
use dfs_mapreduce.Mapreduce.Messages.{WorkerInfo, Heartbeat}

-- Times are in seconds.
pub record WorkerStatus : Type 0 where
  pub info : WorkerInfo
  pub last_heartbeat : ℕ

pub record MapTaskInfo : Type 0 where
  pub file_name : String
  pub chunk_id : ℕ
  pub node_addr : String

unfoldable pub handle_worker_heartbeat : ℕ → Heartbeat → Dict WorkerStatus → Dict WorkerStatus
handle_worker_heartbeat now hb workers =
    insert hb.worker.id (record { info = hb.worker; last_heartbeat = now }) workers

-- One walk over the workers, on the entries that are left.
unfoldable pub drop_dead : ℕ → Dict WorkerStatus → Dict WorkerStatus → Dict WorkerStatus
drop_dead now [] workers = workers
drop_dead now ((id, ws) ∷ rest) workers =
    let next = if ltb 15 (now - ws.last_heartbeat) then erase id workers else workers in
    drop_dead now rest next

unfoldable pub monitor_workers : ℕ → Dict WorkerStatus → Dict WorkerStatus
unfolding drop_dead
monitor_workers now workers = drop_dead now workers workers

abbrev pub num_chunks_per_reducers : ℕ
num_chunks_per_reducers = 5

-- 0.95 * 21 * 5 = 99.75, rounded.
abbrev pub max_num_reducers : ℕ
max_num_reducers = 100

unfoldable pub choose_num_reducers : ℕ → ℕ → ℕ
choose_num_reducers requested num_map_tasks =
    if requested == 0
    then max 1 (
        min ((num_map_tasks + num_chunks_per_reducers - 1) / num_chunks_per_reducers)
          max_num_reducers)
    else requested
