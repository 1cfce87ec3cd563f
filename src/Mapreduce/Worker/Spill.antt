-- ===== src/Mapreduce/Worker/Spill.antt =====
-- spill of mapreduce/worker/worker.go: a buffer of pairs, cut by reducer and sorted, as one file.
-- sort.Slice is an interface.
pub mod Partition
pub mod Layout
use dfs_mapreduce.Base.{
  ℕ, zero, suc, ◌+◌, ◌%◌, Bool, true, false, not, ◌&&◌, Option, none, some, List, [], ◌∷◌, ◌++◌,
  map, ◌==◌, if◌then◌else◌,
}
use mathlib.Core.List.{Permᴰ}
use dfs_mapreduce.Mapreduce.Util.{KeyValue}
use dfs_mapreduce.Mapreduce.Util.Keys.{IsSorted}
use dfs_mapreduce.Mapreduce.Worker.{
  ihash, Indexed, write_parts, Outcome, returned, failed, panicked,
}

-- sort.Slice by bytes.Compare of the keys; it need not be stable.
pub record KeySort : Type 0 where
  pub sort : List KeyValue → List KeyValue
  pub sort_items : (kvs : List KeyValue) → Permᴰ (sort kvs) kvs
  pub sort_sorted : (kvs : List KeyValue) → IsSorted (sort kvs)

abbrev pub empty_parts : ℕ → List (List KeyValue)
empty_parts zero = []
empty_parts (suc n) = [] ∷ empty_parts n

-- partitions[r] = append(partitions[r], kv); the index is in range.
unfoldable pub add_at : ℕ → KeyValue → List (List KeyValue) → List (List KeyValue)
add_at r kv [] = []
add_at zero kv (part ∷ parts) = (part ++ kv ∷ []) ∷ parts
add_at (suc r) kv (part ∷ parts) = part ∷ add_at r kv parts

-- `none` is a division by zero.
unfoldable pub partition : ℕ → List KeyValue → List (List KeyValue) → Option (List (List KeyValue))
unfolding add_at ihash
partition n [] parts = some parts
partition n (kv ∷ kvs) parts = elim (n == 0) [
  | true ↦ none
  | false ↦ partition n kvs (add_at (ihash kv.key % n) kv parts)
]

-- With whether the spill file and its index can be created.
unfoldable pub spill : KeySort → ℕ → Bool → Bool → List KeyValue → Outcome Indexed
unfolding partition write_parts
spill sorter n created indexed buffer = elim (partition n buffer (empty_parts n)) [
  | none ↦ panicked
  | some parts ↦
      if created && indexed then returned (write_parts 0 0 (map sorter.sort parts)) else failed
]
