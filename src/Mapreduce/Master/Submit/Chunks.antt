-- ===== src/Mapreduce/Master/Submit/Chunks.antt =====
-- The map tasks of a submitted job of mapreduce/master/master.go, and the chunks that they are for.
use dfs_mapreduce.Base.{
  ℕ, zero, suc, ◌+◌, ◌≤◌, ◌<◌, ◌≡◌, String, Option, some, List, [], ◌∷◌, ◌++◌, length, Dict, lookup,
  All,
}
use dfs_mapreduce.Dfs.Messages.{Wrapper}
use dfs_mapreduce.Mapreduce.Master.{MapTaskInfo}
use dfs_mapreduce.Mapreduce.Master.Submit.{
  chunks, dfs_error, out_of_range, get_chunk_info_from_dfs, Inputs, gathered, failed_at,
  input_panic, Master,
}

-- The task's file and chunk are in the map.
abbrev pub HasChunk : Dict (List (List String)) → MapTaskInfo → Type 0
HasChunk nodes task =
    (found : List (List String)) × (lookup task.file_name nodes ≡ some found)
    × (task.chunk_id < length found)

-- An entry that is there already is overwritten by the same chunks.
Keeps : String → List (List String) → Dict (List (List String)) → Type 0
Keeps file found nodes =
    (old : List (List String)) → lookup file nodes ≡ some old → length old ≤ length found

-- The number of chunks of a file, as the controller says.
abbrev pub chunk_count : Option Wrapper → ℕ
chunk_count reply = elim (get_chunk_info_from_dfs reply) [
  | chunks found ↦ length found
  | dfs_error ↦ 0
  | out_of_range ↦ 0
]

-- The chunks of a file from the `i`-th on, each with an unassigned task.
abbrev pub tasks_of : String → ℕ → ℕ → List MapTaskInfo
tasks_of file zero i = []
tasks_of file (suc n) i =
    record { file_name = file; chunk_id = i; node_addr = "" } ∷ tasks_of file n (i + 1)

-- The tasks for all chunks of all files, in their order.
abbrev pub all_tasks_of : (String → ℕ) → List String → List MapTaskInfo
all_tasks_of n [] = []
all_tasks_of n (file ∷ files) = tasks_of file (n file) 0 ++ all_tasks_of n files

abbrev nodes_in : Dict (List (List String)) → Inputs → Dict (List (List String))
nodes_in d (gathered nodes tasks) = nodes
nodes_in d (failed_at file) = d
nodes_in d input_panic = d

abbrev tasks_in : List MapTaskInfo → Inputs → List MapTaskInfo
tasks_in d (gathered nodes tasks) = tasks
tasks_in d (failed_at file) = d
tasks_in d input_panic = d

module _ (reply : String → Option Wrapper) where
  -- The tasks so far have their chunks, and the map has the chunks of the replies.
  record AreFor (nodes : Dict (List (List String))) (tasks : List MapTaskInfo) : Type 0 where
    sound :
        (file : String) (found : List (List String))
        → lookup file nodes ≡ some found
        → get_chunk_info_from_dfs (reply file) ≡ chunks found
    have : All (HasChunk nodes) tasks

-- The controller knows the file, and its locations number its chunks from 0.
abbrev pub IsKnown : Option Wrapper → Type 0
IsKnown reply = (found : List (List String)) × (get_chunk_info_from_dfs reply ≡ chunks found)
