-- ===== src/Mapreduce/Master/Select.antt =====
-- selectWorker and selectReduceWorker of mapreduce/master/master.go. Go walks a map in an order of
-- its own, and net.SplitHostPort is the library's: both are arguments.
pub mod Least
pub mod Local
use dfs_mapreduce.Base.{
  ℕ, zero, suc, ◌+◌, ◌-◌, ◌%◌, ◌^◌, String, Bool, true, false, not, ◌&&◌, ◌||◌, Option, none, some,
  List, [], ◌∷◌, Dict, str_eq, ltb, ◌==◌, if◌then◌else◌,
}
use dfs_mapreduce.Mapreduce.Master.{WorkerStatus}

-- `order i` is the i-th walk within one call.
pub record Runtime : Type 0 where
  pub order : ℕ → Dict WorkerStatus → Dict WorkerStatus
  pub split_host_port : String → Option String

-- The host of an address, or the address itself if it cannot be split.
unfoldable pub host_of : Runtime → String → String
host_of rt addr = elim (rt.split_host_port addr) [ none ↦ addr | some host ↦ host ]

abbrev pub cpu_threshold : ℕ
cpu_threshold = 80

abbrev pub mem_threshold : ℕ
mem_threshold = 80

unfoldable pub is_available : WorkerStatus → Bool
is_available ws = ltb ws.info.cpu_load cpu_threshold && ltb ws.info.mem_load mem_threshold

-- `best_worker` and `min_tasks`.
pub record Best : Type 0 where
  pub worker : String
  pub tasks : ℕ

abbrev pub no_best : Best
no_best = record { worker = ""; tasks = 2 ^ 32 - 1 }

-- One walk over the workers that pass the test, for the least number of active tasks.
unfoldable pub pick_least : (WorkerStatus → Bool) → Dict WorkerStatus → Best → Best
pick_least test [] best = best
pick_least test ((id, ws) ∷ rest) best =
    let better = test ws && is_available ws && ltb ws.info.active_tasks best.tasks in
    let next : Best =
      if better then record { worker = id; tasks = ws.info.active_tasks } else best in
    pick_least test rest next

-- A walk for each node that stores the chunk.
unfoldable pub pick_local : Runtime → ℕ → Dict WorkerStatus → List String → Best → Best
unfolding pick_least
pick_local rt i workers [] best = best
pick_local rt i workers (addr ∷ nodes) best =
    let on_node : WorkerStatus → Bool =
      λ ws. str_eq (host_of rt addr) (host_of rt ws.info.address) in
    let next = pick_least on_node (rt.order i workers) best in
    pick_local rt (i + 1) workers nodes next

unfoldable pub is_empty {ℓ} : {A : Type ℓ} → List A → Bool
is_empty [] = true
is_empty (x ∷ xs) = false

-- `nodes` is nil in the source exactly when it has no address.
unfoldable pub select_worker : Runtime → Dict WorkerStatus → List String → Bool → String
unfolding pick_local
select_worker rt workers nodes delay =
    let best = pick_local rt 1 workers nodes no_best in
    let any = pick_least (λ ws. true) (rt.order 0 workers) no_best in
    if is_empty workers
    then ""
    else if not (str_eq best.worker "")
    then best.worker
    else if delay && not (is_empty nodes)
    then ""
    else any.worker

-- The bytes of the reducer that are on a host.
unfoldable pub bytes_on : Runtime → String → Dict ℕ → ℕ → ℕ
bytes_on rt host [] bytes = bytes
bytes_on rt host ((addr, b) ∷ rest) bytes =
    bytes_on rt host rest (if str_eq (host_of rt addr) host then (bytes + b) % 2 ^ 64 else bytes)

-- The walk for the most bytes. Nothing is found yet at `none`.
unfoldable pub pick_most : Runtime → Dict ℕ → Dict WorkerStatus → Option Best → Option Best
pick_most rt worker_data [] best = best
pick_most rt worker_data ((id, ws) ∷ rest) best =
    let bytes = bytes_on rt (host_of rt ws.info.address) worker_data 0 in
    let found : Best = record { worker = id; tasks = bytes } in
    let next : Option Best =
      if is_available ws
      then elim best [
        | none ↦ some found
        | some b ↦ if ltb b.tasks bytes then some found else some b
      ]
      else best in
    pick_most rt worker_data rest next

unfoldable pub select_reduce_worker : Runtime → Dict WorkerStatus → Dict ℕ → Bool → String
unfolding pick_most pick_least
select_reduce_worker rt workers worker_data delay =
    let any = pick_least (λ ws. true) (rt.order 1 workers) no_best in
    if is_empty workers then "" else elim (pick_most rt worker_data (rt.order 0 workers) none) [
      | some best ↦ best.worker
      | none ↦ if delay then "" else any.worker
    ]
