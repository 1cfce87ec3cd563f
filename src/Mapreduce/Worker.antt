-- ===== src/Mapreduce/Worker.antt =====
-- mapreduce/worker/worker.go: the hash of a key, and the files that are cut into a section for each reducer.
-- A file is its bytes. An index file is its lines, each with the three numbers that are printed and scanned.
pub mod Spill
pub mod MapTask
pub mod ReduceTask
pub mod Job
pub mod Connection
use dfs_mapreduce.Base.{
  ℕ, zero, suc, ◌+◌, ◌-◌, ◌*◌, ◌%◌, ◌^◌, Bool, true, false, Option, none, some, List, [], ◌∷◌, ◌++◌,
  take, drop, length, ltb, ◌==◌, if◌then◌else◌,
}
use dfs_mapreduce.Mapreduce.Util.{KeyValue}
use dfs_mapreduce.Mapreduce.Util.Sort.{write_pairs}

-- h*31 + uint32(b) for each byte, in 32 bits.
unfoldable pub hash_from : ℕ → List ℕ → ℕ
hash_from h [] = h
hash_from h (b ∷ bs) = hash_from ((h * 31 + b) % 2 ^ 32) bs

-- & 0x7fffffff
unfoldable pub ihash : List ℕ → ℕ
unfolding hash_from
ihash s = hash_from 0 s % 2 ^ 31

-- A line of an index file: the reducer, the start and the end of its section.
pub record Section : Type 0 where
  pub reducer : ℕ
  pub start : ℕ
  pub stop : ℕ

-- A spill or intermediate file with its index.
pub record Indexed : Type 0 where
  pub bytes : List ℕ
  pub index : List Section

-- The two files as they are found later: each can be opened or not.
pub record Stored : Type 0 where
  pub file : Option (List ℕ)
  pub lines : Option (List Section)

abbrev pub stored : Indexed → Stored
stored x = record { file = some x.bytes; lines = some x.index }

-- io.NewSectionReader(f, start, stop-start), read to its end.
unfoldable pub read_section : ℕ → ℕ → List ℕ → List ℕ
read_section start stop bytes = take (stop - start) (drop start bytes)

-- The search of mergeSpills: without a break the values of the last line remain.
unfoldable pub seek_section : ℕ → ℕ → ℕ → List Section → ℕ × ℕ
seek_section r start stop [] = (start, stop)
seek_section r start stop (s ∷ ss) = elim (s.reducer == r) [
  | true ↦ (s.start, s.stop)
  | false ↦ seek_section r s.start s.stop ss
]

-- The search of handleFetchIntermediate and of shuffle, with `found`.
unfoldable pub find_section : ℕ → List Section → Option Section
find_section r [] = none
find_section r (s ∷ ss) = elim (s.reducer == r) [ true ↦ some s | false ↦ find_section r ss ]

-- The offset after the pairs are written.
unfoldable pub advance : ℕ → List KeyValue → ℕ
advance offset [] = offset
advance offset (kv ∷ kvs) = advance (offset + length kv.key + 1 + length kv.value + 1) kvs

-- The pairs of each reducer in turn, with the lines of the index.
unfoldable pub write_parts : ℕ → ℕ → List (List KeyValue) → Indexed
unfolding write_pairs advance
write_parts r offset [] = record { bytes = []; index = [] }
write_parts r offset (kvs ∷ parts) =
    let stop = advance offset kvs in
    let rest = write_parts (r + 1) stop parts in
    record {
      bytes = write_pairs kvs ++ rest.bytes;
      index = record { reducer = r; start = offset; stop = stop } ∷ rest.index;
    }

-- handleFetchIntermediate: `none` is the response that there is no index, else the bytes that are sent.
unfoldable pub handle_fetch_intermediate : Stored → ℕ → Option (List ℕ)
unfolding find_section read_section
handle_fetch_intermediate disk r = elim disk.lines [
  | none ↦ none
  | some lines ↦ elim (find_section r lines) [
    | none ↦ some []
    | some s ↦ elim (ltb s.start s.stop) [
      | false ↦ some []
      | true ↦ elim disk.file [
        | none ↦ some []
        | some bytes ↦ some (read_section s.start s.stop bytes)
      ]
    ]
  ]
]

-- How an operation of the worker ends; a panic ends the process.
pub data Outcome (A : Type 0) : Type 0 where
  returned : A → Outcome A
  failed : Outcome A
  panicked : Outcome A
