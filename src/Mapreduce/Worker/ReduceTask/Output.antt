-- ===== src/Mapreduce/Worker/ReduceTask/Output.antt =====
-- runReduce of mapreduce/worker/worker.go, from what is fetched to the file that is uploaded.
use dfs_mapreduce.Base.{
  some_inj, subst, ℕ, ◌<◌, ◌≡◌, refl, sym, ap, ◌∙◌, Bool, true, none, some, List, [], All, length,
  scan_lines,
}
use dfs_mapreduce.Mapreduce.Util.Sort.{ScannerHeap, external_sort}
use dfs_mapreduce.Mapreduce.Util.Sort.Files.{pairs_of, IsSortedFile, IsSortOf}
use dfs_mapreduce.Mapreduce.Util.Sort.External.{external_sort_sorts}
use dfs_mapreduce.Mapreduce.Worker.{returned}
use dfs_mapreduce.Mapreduce.Worker.MapTask.{line_limit}
use dfs_mapreduce.Mapreduce.Worker.ReduceTask.{
  MapResult, fetched_files, collect, write_groups, reduce_lines, shuffle, run_reduce,
}
use dfs_mapreduce.Mapreduce.Worker.ReduceTask.Groups.{groups, collect-groups}
use dfs_mapreduce.Mapreduce.Worker.ReduceTask.Lines.{IsGroup, outputs, reduce_lines-write_groups}

module _ (heap : ScannerHeap) where
  shuffle_lem :
      (fuel : ℕ) (created : ℕ → ℕ → Bool) (r : ℕ) (results : List MapResult) (bytes : List ℕ)
      → external_sort heap fuel created (fetched_files r results) ≡ some bytes
      → shuffle heap fuel created true r results
        ≡ some (write_groups (collect none [] (pairs_of bytes)))
  unfolding shuffle
  shuffle_lem fuel created r results bytes e = rw (e, shuffle) refl

  -- If all files can be created, the fetched files hold sorted pairs that can be written as lines,
  -- there is more fuel than files, the groups of their sort can be written as lines without a
  -- comma in a value, and the plugin and the upload work, the reduce task uploads what Reduce
  -- makes of each key and all the values that came with it, from the sort of the fetched files.
  pub run_reduce-outputs :
      (fuel : ℕ) (created : ℕ → ℕ → Bool) (r : ℕ) (results : List MapResult)
      → (f : List ℕ → List (List ℕ) → List ℕ) (bytes : List ℕ) → ((d i : ℕ) → created d i ≡ true)
      → All IsSortedFile (fetched_files r results)
      → length (fetched_files r results) < fuel
      → external_sort heap fuel created (fetched_files r results) ≡ some bytes
      → All IsGroup (groups (pairs_of bytes))
      → IsSortOf (fetched_files r results) bytes
        × (run_reduce heap fuel created true r results (some f) true true
            ≡ returned (outputs f (groups (pairs_of bytes))))
  unfolding run_reduce
  run_reduce-outputs fuel created r results f bytes all ok enough e fit =
      let (found, e', sort') =
        external_sort_sorts heap fuel created (fetched_files r results) all ok enough in
      let same : found ≡ bytes = some_inj (sym e' ∙ e) in
      let sort = subst (IsSortOf (fetched_files r results)) same sort' in
      let file = shuffle_lem fuel created r results bytes e in
      let collected : write_groups (collect none [] (pairs_of bytes))
          ≡ write_groups (groups (pairs_of bytes)) =
        ap write_groups (collect-groups (pairs_of bytes) sort.sorted) in
      (
        sort,
        rw (file, run_reduce)
            (ap returned (
              ap (λ t. reduce_lines f (scan_lines line_limit t)) collected
              ∙ reduce_lines-write_groups f (groups (pairs_of bytes)) fit)),
      )
