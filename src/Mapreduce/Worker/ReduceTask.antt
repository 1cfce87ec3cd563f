-- ===== src/Mapreduce/Worker/ReduceTask.antt =====
-- shuffle and runReduce of mapreduce/worker/worker.go. The plugin's Reduce, the network and the disk's
-- refusals are arguments.
pub mod Groups
pub mod Lines
pub mod Output
use dfs_mapreduce.Base.{
  ℕ, zero, suc, ◌+◌, Bool, true, false, not, ◌&&◌, Option, none, some, List, [], ◌∷◌, ◌++◌, map,
  take, ltb, scan_lines, ◌==◌, if◌then◌else◌,
}
use dfs_mapreduce.Mapreduce.Util.{KeyValue}
use dfs_mapreduce.Mapreduce.Util.Keys.{bytes_equal}
use dfs_mapreduce.Mapreduce.Util.Sort.{max_token_size, split_tab, ScannerHeap, external_sort}
use dfs_mapreduce.Mapreduce.Util.Sort.Merge.{pairs}
use dfs_mapreduce.Mapreduce.Worker.{
  Stored, read_section, find_section, handle_fetch_intermediate, Outcome, returned, failed,
}
use dfs_mapreduce.Mapreduce.Worker.MapTask.{line_limit}

-- Where the result of a map task is: on this machine, or behind a connection to another worker.
pub data MapResult : Type 0 where
  -- whether the copy can be created
  here : Stored → Bool → MapResult
  -- whether the exchange, the creation of the copy and the copying succeed, and after how many
  -- bytes the sender breaks off, if it does
  remote : Stored → Bool → Bool → Bool → Option ℕ → MapResult

-- What io.Copy gets from the connection: an end that comes early is no error.
unfoldable pub arrived : Option ℕ → List ℕ → List ℕ
arrived none bytes = bytes
arrived (some k) bytes = take k bytes

-- The copy of the reducer's section; `none` is a map task that is passed over.
unfoldable pub fetch : ℕ → MapResult → Option (List ℕ)
unfolding find_section read_section handle_fetch_intermediate arrived
fetch r (here disk created) = elim disk.lines [
  | none ↦ none
  | some lines ↦ elim (find_section r lines) [
    | none ↦ none
    | some s ↦ elim (ltb s.start s.stop) [
      | false ↦ none
      | true ↦ elim disk.file [
        | none ↦ none
        | some bytes ↦ if created then some (read_section s.start s.stop bytes) else none
      ]
    ]
  ]
]
fetch r (remote disk exchanged created copied cut) =
    if exchanged
    then elim (handle_fetch_intermediate disk r) [
      | none ↦ none
      | some bytes ↦ if created && copied then some (arrived cut bytes) else none
    ]
    else none

-- The files that shuffle sorts.
abbrev pub fetched_files : ℕ → List MapResult → List (Option (List ℕ))
fetched_files r [] = []
fetched_files r (m ∷ ms) = elim (fetch r m) [
  | none ↦ fetched_files r ms
  | some bytes ↦ some bytes ∷ fetched_files r ms
]

-- A line of the merged file.
pub record Group : Type 0 where
  pub key : List ℕ
  pub values : List (List ℕ)

-- The loop over the sorted pairs, with currentKey and values.
unfoldable pub collect : Option (List ℕ) → List (List ℕ) → List KeyValue → List Group
collect none values [] = []
collect (some k) values [] = record { key = k; values = values } ∷ []
collect none values (kv ∷ kvs) = collect (some kv.key) (values ++ kv.value ∷ []) kvs
collect (some k) values (kv ∷ kvs) = elim (bytes_equal kv.key k) [
  | true ↦ collect (some kv.key) (values ++ kv.value ∷ []) kvs
  | false ↦ record { key = k; values = values } ∷ collect (some kv.key) (kv.value ∷ []) kvs
]

-- The values, with a comma between two.
unfoldable pub join_values : List (List ℕ) → List ℕ
join_values [] = []
join_values (v ∷ []) = v
join_values (v ∷ w ∷ vs) = v ++ 44 ∷ join_values (w ∷ vs)

unfoldable pub write_groups : List Group → List ℕ
unfolding join_values
write_groups [] = []
write_groups (g ∷ gs) = g.key ++ 9 ∷ (join_values g.values ++ 10 ∷ write_groups gs)

abbrev pub push_byte : ℕ → List (List ℕ) → List (List ℕ)
push_byte b [] = (b ∷ []) ∷ []
push_byte b (w ∷ ws) = (b ∷ w) ∷ ws

-- bytes.Split(parts[1], ",")
unfoldable pub split_commas : List ℕ → List (List ℕ)
split_commas [] = [] ∷ []
split_commas (b ∷ bs) =
    let rest = split_commas bs in if b == 44 then [] ∷ rest else push_byte b rest

abbrev pub result_line : List ℕ → List ℕ → List ℕ
result_line key res = key ++ 58 ∷ 32 ∷ (res ++ 10 ∷ [])

-- The scan of the merged file.
unfoldable pub reduce_lines : (List ℕ → List (List ℕ) → List ℕ) → List (List ℕ) → List ℕ
unfolding split_tab split_commas
reduce_lines reduce_func [] = []
reduce_lines reduce_func (l ∷ ls) = elim (split_tab l) [
  | none ↦ reduce_lines reduce_func ls
  | some (key, vals) ↦
      result_line key (reduce_func key (split_commas vals)) ++ reduce_lines reduce_func ls
]

module _ (heap : ScannerHeap) where
  -- The bytes of the merged file; `merging` is whether it can be created and the sorted file opened.
  unfoldable pub shuffle : ℕ → (ℕ → ℕ → Bool) → Bool → ℕ → List MapResult → Option (List ℕ)
  unfolding external_sort fetch collect write_groups
  shuffle fuel created merging r results =
      elim (external_sort heap fuel created (fetched_files r results)) [
        | none ↦ none
        | some bytes ↦
            if merging
            then some (write_groups (collect none [] (pairs (scan_lines max_token_size bytes))))
            else none
      ]

  -- The bytes that are uploaded; `writing` is whether the result file can be created, after the merged one
  -- is opened.
  unfoldable pub run_reduce :
      ℕ
      → (ℕ → ℕ → Bool)
      → Bool
      → ℕ
      → List MapResult
      → Option (List ℕ → List (List ℕ) → List ℕ)
      → Bool
      → Bool
      → Outcome (List ℕ)
  unfolding shuffle reduce_lines
  run_reduce fuel created merging r results plugin writing uploaded =
      elim (shuffle fuel created merging r results) [
        | none ↦ failed
        | some file ↦ elim plugin [
          | none ↦ failed
          | some reduce_func ↦
              if writing && uploaded
              then returned (reduce_lines reduce_func (scan_lines line_limit file))
              else failed
        ]
      ]
