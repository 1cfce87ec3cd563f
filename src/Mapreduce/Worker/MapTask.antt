-- ===== src/Mapreduce/Worker/MapTask.antt =====
-- runMap and mergeSpills of mapreduce/worker/worker.go. The plugin's Map, the DFS client and the disk's
-- refusals are arguments.
pub mod Spills
pub mod Fetch
use dfs_mapreduce.Base.{
  ℕ, zero, suc, ◌+◌, ◌-◌, ◌*◌, Bool, true, false, ◌&&◌, Option, none, some, List, [], ◌∷◌, ◌++◌,
  map, length, ltb, leb, scan_lines, ◌==◌, if◌then◌else◌,
}
use dfs_mapreduce.Mapreduce.Util.{KeyValue}
use dfs_mapreduce.Mapreduce.Util.Sort.{ScannerHeap, merge, open_files, rounds}
use dfs_mapreduce.Mapreduce.Worker.{
  Section, Indexed, Stored, stored, read_section, seek_section, write_parts, Outcome, returned,
  failed, panicked,
}
use dfs_mapreduce.Mapreduce.Worker.Spill.{KeySort, spill}

-- The section of one spill for the reducer, if it can be read and is not empty.
unfoldable pub spill_section : ℕ → Stored → Option (List ℕ)
unfolding seek_section read_section
spill_section r disk = elim disk.lines [
  | none ↦ none
  | some lines ↦
      let (start, stop) = seek_section r 0 0 lines in
      if ltb start stop
      then elim disk.file [ none ↦ none | some bytes ↦ some (read_section start stop bytes) ]
      else none
]

abbrev pub section_size : Section → ℕ
section_size s = s.stop - s.start

-- The pairs that a map task has buffered, and the spills that it has written.
pub record MapState : Type 0 where
  pub buffer : List KeyValue
  pub spills : List Indexed

abbrev pub buffer_limit : ℕ
buffer_limit = 10000

abbrev pub line_limit : ℕ
line_limit = 16 * 1024 * 1024

-- os.Open of a file.
pub data Opened : Type 0 where
  opened : List ℕ → Opened
  missing : Opened
  refused : Opened

-- The chunk: here, or fetched with the DFS client into a directory, and opened again.
unfoldable pub open_chunk : Opened → Bool → Bool → Opened → Option (List ℕ)
open_chunk (opened bytes) directory fetched again = some bytes
open_chunk refused directory fetched again = none
open_chunk missing directory fetched again =
    if directory && fetched
    then elim again [ opened bytes ↦ some bytes | missing ↦ none | refused ↦ none ]
    else none

module _ (heap : ScannerHeap) (sorter : KeySort) (n : ℕ) where
  -- The loop over the reducers, from the r-th on: the pairs of each in the order in which they are written.
  unfoldable pub merged_parts : ℕ → ℕ → List Stored → List (List KeyValue)
  unfolding merge open_files rounds spill_section
  merged_parts zero r spills = []
  merged_parts (suc left) r spills =
      let files = map (spill_section r) spills in
      merge heap (rounds files) (open_files heap files heap.init) ∷ merged_parts left (r + 1) spills

  -- With whether the intermediate file and its index can be created; the sizes are reduceData.
  unfoldable pub merge_spills : Bool → Bool → List Stored → Outcome (Indexed × List ℕ)
  unfolding merged_parts write_parts
  merge_spills created indexed spills =
      let out = write_parts 0 0 (merged_parts n 0 spills) in
      if created && indexed then returned (out, map section_size out.index) else failed

  -- A spill of the buffer; `created i` is whether the files of the i-th spill can be created.
  unfoldable pub spill_buffer : (ℕ → Bool) → MapState → Outcome MapState
  unfolding spill
  spill_buffer created st = elim (spill sorter n (created (length st.spills)) true st.buffer) [
    | returned x ↦ returned (record { buffer = []; spills = st.spills ++ x ∷ [] })
    | failed ↦ failed
    | panicked ↦ panicked
  ]

  unfoldable pub add_pairs : (ℕ → Bool) → List KeyValue → MapState → Outcome MapState
  unfolding spill_buffer
  add_pairs created [] st = returned st
  add_pairs created (kv ∷ kvs) st =
      let more : MapState = record { buffer = st.buffer ++ kv ∷ []; spills = st.spills } in
      elim (if leb buffer_limit (length more.buffer)
        then spill_buffer created more
        else returned more) [
          | returned next ↦ add_pairs created kvs next
          | failed ↦ failed
          | panicked ↦ panicked
        ]

  -- The scan of the chunk.
  unfoldable pub map_lines :
      (ℕ → Bool) → (List ℕ → List KeyValue) → List (List ℕ) → MapState → Outcome MapState
  unfolding add_pairs
  map_lines created map_func [] st = returned st
  map_lines created map_func (l ∷ ls) st = elim (add_pairs created (map_func l) st) [
    | returned next ↦ map_lines created map_func ls next
    | failed ↦ failed
    | panicked ↦ panicked
  ]

  unfoldable pub last_spill : (ℕ → Bool) → MapState → Outcome MapState
  unfolding spill_buffer
  last_spill created st = if ltb 0 (length st.buffer) then spill_buffer created st else returned st

  -- `none` is a chunk that cannot be had, or a plugin that cannot be loaded.
  unfoldable pub run_map :
      (ℕ → Bool)
      → Bool
      → Option (List ℕ)
      → Option (List ℕ → List KeyValue)
      → Outcome (Indexed × List ℕ)
  unfolding map_lines last_spill merge_spills
  run_map created merging none plugin = failed
  run_map created merging (some chunk) none = failed
  run_map created merging (some chunk) (some map_func) =
      elim (map_lines created map_func (scan_lines line_limit chunk)
        (record { buffer = []; spills = [] })) [
          | failed ↦ failed
          | panicked ↦ panicked
          | returned st ↦ elim (last_spill created st) [
            | failed ↦ failed
            | panicked ↦ panicked
            | returned end ↦ merge_spills merging true (map stored end.spills)
          ]
        ]
