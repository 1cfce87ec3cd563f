-- ===== src/Mapreduce/Util/Sort.antt =====
-- mapreduce/util/sort.go: the scanner of pairs, and the sort of files that are too large for memory.
-- The priority queue of container/heap is an interface; files are their bytes.
pub mod Merge
pub mod Files
pub mod External
use dfs_mapreduce.Base.{
  ℕ, zero, suc, ◌+◌, ◌*◌, ◌≡◌, Bool, true, false, Option, none, some, List, [], ◌∷◌, ◌++◌, take,
  drop, length, All, leb, ◌==◌, scan_lines, if◌then◌else◌,
}
use mathlib.Core.List.{Permᴰ}
use dfs_mapreduce.Mapreduce.Util.{KeyValue}
use dfs_mapreduce.Mapreduce.Util.Keys.{bytes_less}

abbrev pub max_token_size : ℕ
max_token_size = 16 * 1024 * 1024

-- bytes.SplitN(line, "\t", 2), where it gives two parts.
unfoldable pub split_tab : List ℕ → Option (List ℕ × List ℕ)
split_tab [] = none
split_tab (b ∷ bs) = elim (b == 9) [
  | true ↦ some ([], bs)
  | false ↦ elim (split_tab bs) [ none ↦ none | some (k, v) ↦ some (b ∷ k, v) ]
]

-- The pair that it has read, and the lines that are left.
pub record KvScanner : Type 0 where
  pub current : KeyValue
  pub lines : List (List ℕ)

-- Lines without a tab are passed over.
unfoldable pub next : List (List ℕ) → Option KvScanner
unfolding split_tab
next [] = none
next (l ∷ ls) = elim (split_tab l) [
  | none ↦ next ls
  | some (k, v) ↦ some (record { current = record { key = k; value = v }; lines = ls })
]

unfoldable pub new_kv_scanner : List ℕ → Option KvScanner
unfolding next
new_kv_scanner bytes = next (scan_lines max_token_size bytes)

-- Less: the key of one scanner's pair comes before that of the other's.
abbrev pub less : KvScanner → KvScanner → Bool
less a b = bytes_less a.current.key b.current.key

-- ScannerHeap under container/heap: what `push` and `pop` are to do, with the scanners it holds.
pub record ScannerHeap : Type 1 where
  pub Heap : Type 0
  pub init : Heap
  pub push : KvScanner → Heap → Heap
  pub pop : Heap → Option (KvScanner × Heap)
  pub items : Heap → List KvScanner
  pub init_items : items init ≡ []
  pub push_items : (s : KvScanner) (h : Heap) → Permᴰ (items (push s h)) (s ∷ items h)
  pub pop_none : (h : Heap) → pop h ≡ none → items h ≡ []
  pub pop_items :
      (h : Heap) (s : KvScanner) (rest : Heap)
      → pop h ≡ some (s, rest)
      → Permᴰ (s ∷ items rest) (items h)
  pub pop_least :
      (h : Heap) (s : KvScanner) (rest : Heap)
      → pop h ≡ some (s, rest)
      → All (λ t. less t s ≡ false) (items rest)

unfoldable pub write_pair : KeyValue → List ℕ
write_pair kv = kv.key ++ 9 ∷ (kv.value ++ 10 ∷ [])

unfoldable pub write_pairs : List KeyValue → List ℕ
unfolding write_pair
write_pairs [] = []
write_pairs (kv ∷ kvs) = write_pair kv ++ write_pairs kvs

-- The lines of all files are enough rounds, and one for the end.
unfoldable pub rounds : List (Option (List ℕ)) → ℕ
rounds [] = 1
rounds (none ∷ files) = rounds files
rounds (some bytes ∷ files) = length (scan_lines max_token_size bytes) + rounds files

abbrev pub batch_size : ℕ
batch_size = 100

module _ (heap : ScannerHeap) where
  -- A scanner that has a pair is pushed.
  unfoldable pub push_some : Option KvScanner → heap.Heap → heap.Heap
  push_some none h = h
  push_some (some s) h = heap.push s h

  -- The loop that empties the heap, with the pairs in the order in which they are written.
  unfoldable pub merge : ℕ → heap.Heap → List KeyValue
  unfolding push_some next
  merge zero h = []
  merge (suc fuel) h = elim (heap.pop h) [
    | none ↦ []
    | some (s, rest) ↦ s.current ∷ merge fuel (push_some (next s.lines) rest)
  ]

  -- The loop that opens the files; one that cannot be opened is passed over.
  unfoldable pub open_files : List (Option (List ℕ)) → heap.Heap → heap.Heap
  unfolding push_some new_kv_scanner
  open_files [] h = h
  open_files (none ∷ files) h = open_files files h
  open_files (some bytes ∷ files) h = open_files files (push_some (new_kv_scanner bytes) h)

  -- `none` is an output that cannot be created.
  unfoldable pub external_sort_batch : List (Option (List ℕ)) → Bool → Option (List ℕ)
  unfolding write_pairs merge open_files rounds
  external_sort_batch files created =
      if created
      then some (write_pairs (merge (rounds files) (open_files files heap.init)))
      else none

  -- The temporary files of one pass; the i-th is created or not.
  unfoldable pub sort_batches :
      ℕ → ℕ → (ℕ → Bool) → List (Option (List ℕ)) → Option (List (Option (List ℕ)))
  sort_batches zero i created files = some []
  sort_batches (suc fuel) i created files = elim (length files == 0) [
    | true ↦ some []
    | false ↦ elim (external_sort_batch (take batch_size files) (created i)) [
      | none ↦ none
      | some temp ↦ elim (sort_batches fuel (i + 1) created (drop batch_size files)) [
        | none ↦ none
        | some temps ↦ some (some temp ∷ temps)
      ]
    ]
  ]

  -- `created d i` is whether the i-th file of the d-th pass can be created.
  unfoldable pub external_sort : ℕ → (ℕ → ℕ → Bool) → List (Option (List ℕ)) → Option (List ℕ)
  unfolding external_sort_batch sort_batches
  external_sort zero created files = none
  external_sort (suc fuel) created files = elim (leb (length files) batch_size) [
    | true ↦ external_sort_batch files (created fuel 0)
    | false ↦ elim (sort_batches (length files) 0 (created fuel) files) [
      | none ↦ none
      | some temps ↦ external_sort fuel created temps
    ]
  ]
