-- ===== src/Mapreduce/Master/Jobs.antt =====
-- The state of a job of mapreduce/master/master.go, and what runJob does with a finished map task.
pub mod Bytes
use dfs_mapreduce.Base.{
  ℕ, zero, suc, ◌+◌, ◌%◌, ◌^◌, String, Option, none, some, List, [], ◌∷◌, Dict, lookup, insert,
  if◌then◌else◌,
}
use dfs_mapreduce.Mapreduce.Master.{MapTaskInfo}
use dfs_mapreduce.Mapreduce.Master.Select.{is_empty}

pub record JobState : Type 0 where
  pub map_task_list : List MapTaskInfo
  pub reduce_data : List (Dict ℕ)
  pub map_completed : ℕ

unfoldable pub set_node_addr : ℕ → String → List MapTaskInfo → List MapTaskInfo
set_node_addr i addr [] = []
set_node_addr zero addr (t ∷ ts) = record t { node_addr = addr } ∷ ts
set_node_addr (suc i) addr (t ∷ ts) = t ∷ set_node_addr i addr ts

unfoldable pub count_of : String → Dict ℕ → ℕ
count_of addr m = elim (lookup addr m) [ none ↦ 0 | some n ↦ n ]

-- `reduceData[rId][workerAddr] += bytes` for each reducer; `none` is the index out of range.
unfoldable pub add_bytes : String → List ℕ → List (Dict ℕ) → Option (List (Dict ℕ))
unfolding count_of
add_bytes addr [] table = some table
add_bytes addr (n ∷ ns) [] = none
add_bytes addr (n ∷ ns) (m ∷ table) = elim (add_bytes addr ns table) [
  | none ↦ none
  | some rest ↦ some (insert addr ((count_of addr m + n) % 2 ^ 64) m ∷ rest)
]

-- What the master does once a map task has succeeded on a worker. `none` is a panic: no reduce data
-- is taken for an error, and there is none to print.
unfoldable pub finish_map_task : ℕ → String → List ℕ → JobState → Option JobState
unfolding set_node_addr add_bytes
finish_map_task i addr reduce_data job =
    if is_empty reduce_data then none else elim (add_bytes addr reduce_data job.reduce_data) [
      | none ↦ none
      | some table ↦ some (record {
        map_task_list = set_node_addr i addr job.map_task_list;
        reduce_data = table;
        map_completed = (job.map_completed + 1) % 2 ^ 32;
      })
    ]
