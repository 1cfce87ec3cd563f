-- ===== src/Mapreduce/Util/Sort/Files.antt =====
-- externalSortBatch of mapreduce/util/sort.go, from the files that it reads to the file that it writes.
use dfs_mapreduce.Base.{
  ℕ, ◌+◌, ◌<◌, ◌≤◌, ◌≡◌, ◌≢◌, refl, sym, ap, ◌∙◌, subst, Bool, true, Option, none, some, List, [],
  ◌∷◌, ◌++◌, All, All-map, length, map, arith, total, append-nil, append_assoc, IsLine, join_lines,
  scan_lines, scan_lines-join,
}
use dfs_mapreduce.Mapreduce.Util.{KeyValue}
use dfs_mapreduce.Mapreduce.Util.Keys.{IsSorted, count}
use dfs_mapreduce.Mapreduce.Util.Sort.{
  max_token_size, split_tab, KvScanner, next, new_kv_scanner, ScannerHeap, write_pair, write_pairs,
  push_some, merge, open_files, rounds,
}
use dfs_mapreduce.Mapreduce.Util.Sort.Merge.{
  pairs, contents, held, push_some-All, held-push_some, merge-All, merge-IsSorted, count-merge,
}

abbrev pub line_of : KeyValue → List ℕ
line_of kv = kv.key ++ 9 ∷ kv.value

-- A pair that is written as one line and read back as it is.
pub record IsPair (kv : KeyValue) : Type 0 where
  pub no_tab : All (λ b. b ≢ 9) kv.key
  pub line : IsLine max_token_size (line_of kv)

abbrev pub pairs_of : List ℕ → List KeyValue
pairs_of bytes = pairs (scan_lines max_token_size bytes)

pub split_tab_lem : (k v : List ℕ) → All (λ b. b ≢ 9) k → split_tab (k ++ 9 ∷ v) ≡ some (k, v)
unfolding split_tab
split_tab_lem [] v h = refl
split_tab_lem (b ∷ k) v h = ground (arith, split_tab_lem k v h.1)

pairs-lines : (kvs : List KeyValue) → All IsPair kvs → pairs (map line_of kvs) ≡ kvs
pairs-lines [] h = refl
pairs-lines (kv ∷ kvs) h =
    rw (split_tab_lem kv.key kv.value h.0.no_tab, pairs) (ap (◌∷◌ kv) (pairs-lines kvs h.1))

write_pairs-lines : (kvs : List KeyValue) → write_pairs kvs ≡ join_lines (map line_of kvs)
unfolding write_pairs write_pair
write_pairs-lines [] = refl
write_pairs-lines (kv ∷ kvs) = grind (arith, write_pairs-lines kvs, append_assoc)

lines-IsLine :
    (kvs : List KeyValue) → All IsPair kvs → All (IsLine max_token_size) (map line_of kvs)
lines-IsLine [] h = tt
lines-IsLine (kv ∷ kvs) h = (h.0.line, lines-IsLine kvs h.1)

-- Pairs that are written are read back.
pub pairs_of-write_pairs : (kvs : List KeyValue) → All IsPair kvs → pairs_of (write_pairs kvs) ≡ kvs
unfolding scan_lines
pairs_of-write_pairs kvs h =
    let lines = map line_of kvs in
    ap pairs (
      ap (scan_lines max_token_size) (write_pairs-lines kvs ∙ sym (append-nil (join_lines lines)))
      ∙ scan_lines-join max_token_size lines [] (lines-IsLine kvs h)
      ∙ append-nil lines)
    ∙ pairs-lines kvs h

abbrev pub file_pairs : Option (List ℕ) → List KeyValue
file_pairs none = []
file_pairs (some bytes) = pairs_of bytes

-- The pairs of all files that pass a test.
abbrev pub count_files : (KeyValue → Bool) → List (Option (List ℕ)) → ℕ
count_files p = total (λ f. count p (file_pairs f))

-- A file with sorted pairs that can be written again.
abbrev pub IsSortedFile : Option (List ℕ) → Type 0
IsSortedFile f = IsSorted (file_pairs f) × All IsPair (file_pairs f)

-- The bytes hold the pairs of the files, each as often as they do, in the order of the keys.
pub record IsSortOf (files : List (Option (List ℕ))) (bytes : List ℕ) : Type 0 where
  pub sorted : IsSorted (pairs_of bytes)
  pub same : (p : KeyValue → Bool) → count p (pairs_of bytes) ≡ count_files p files
  pub written : All IsPair (pairs_of bytes)

count-pairs-le : (p : KeyValue → Bool) (ls : List (List ℕ)) → count p (pairs ls) ≤ length ls
count-pairs-le p [] = omega arith
count-pairs-le p (l ∷ ls) = ground (arith, count-pairs-le p ls)

count_files-rounds :
    (p : KeyValue → Bool) (files : List (Option (List ℕ))) → count_files p files < rounds files
unfolding rounds
count_files-rounds p [] = omega arith
count_files-rounds p (none ∷ files) = omega (arith, count_files-rounds p files)
count_files-rounds p (some bytes ∷ files) =
    omega (arith, count_files-rounds p files, count-pairs-le p (scan_lines max_token_size bytes))

module _ (heap : ScannerHeap) where
  open_files-All :
      (P : List KeyValue → Type 0) (files : List (Option (List ℕ))) (h : heap.Heap)
      → All (λ f. P (file_pairs f)) files
      → All (λ s. P (contents s)) (heap.items h)
      → All (λ s. P (contents s)) (heap.items (open_files heap files h))
  unfolding open_files new_kv_scanner
  open_files-All P [] h q a = a
  open_files-All P (none ∷ files) h q a = open_files-All P files h q.1 a
  open_files-All P (some bytes ∷ files) h q a =
      open_files-All P files _ q.1 (push_some-All heap P (scan_lines max_token_size bytes) h q.0 a)

  held-open_files :
      (p : KeyValue → Bool) (files : List (Option (List ℕ))) (h : heap.Heap)
      → held heap p (open_files heap files h) ≡ count_files p files + held heap p h
  unfolding open_files new_kv_scanner
  held-open_files p [] h = omega arith
  held-open_files p (none ∷ files) h = omega (arith, held-open_files p files h)
  held-open_files p (some bytes ∷ files) h =
      let ls = scan_lines max_token_size bytes in
      let rest = held-open_files p files (push_some heap (next ls) h) in
      let own = held-push_some heap p ls h in omega arith

  All-init : (P : KvScanner → Type 0) → All P (heap.items heap.init)
  All-init P = subst (All P) (sym heap.init_items) tt

  abbrev pub merged : List (Option (List ℕ)) → List KeyValue
  merged files = merge heap (rounds files) (open_files heap files heap.init)

  held-init : (p : KeyValue → Bool) → held heap p heap.init ≡ 0
  held-init p = rw heap.init_items refl

  merged_count :
      (p : KeyValue → Bool) (files : List (Option (List ℕ)))
      → count p (merged files) ≡ count_files p files
  merged_count p files =
      let h = open_files heap files heap.init in
      let all = held-open_files (λ _. true) files heap.init in
      let enough : held heap (λ _. true) h < rounds files =
        omega (arith, held-init (λ _. true), count_files-rounds (λ _. true) files) in
      let own = held-open_files p files heap.init in
      let out = count-merge heap p (rounds files) h enough in omega (arith, held-init p)

  -- One batch: the output is the sort of the files.
  pub merged-IsSortOf :
      (files : List (Option (List ℕ)))
      → All IsSortedFile files
      → IsSortOf files (write_pairs (merged files))
  merged-IsSortOf files ok =
      let h = open_files heap files heap.init in
      let n = rounds files in
      let writable = merge-All heap IsPair n h (
        open_files-All (All IsPair) files heap.init
          (All-map IsSortedFile (λ f. All IsPair (file_pairs f)) (λ f k. k.1) files ok)
          (All-init (λ s. All IsPair (contents s)))) in
      let back = pairs_of-write_pairs (merged files) writable in
      let counted : (p : KeyValue → Bool) → count p (merged files) ≡ count_files p files =
        λ p. merged_count p files in
      record {
        sorted = subst IsSorted (sym back) (
            merge-IsSorted heap n h (
              open_files-All IsSorted files heap.init
                (All-map IsSortedFile (λ f. IsSorted (file_pairs f)) (λ f k. k.0) files ok)
                (All-init (λ s. IsSorted (contents s)))));
        same = λ p. ap (count p) back ∙ counted p;
        written = subst (All IsPair) (sym back) writable;
      }
