-- ===== src/Tests/Plugin.antt =====
-- A job that counts words, on two chunks.
use dfs_mapreduce.Base.{
  ℕ, ◌+◌, ◌*◌, ◌<◌, ◌≡◌, refl, ap, true, some, List, [], ◌∷◌, All, arith, length, min, scan_lines,
  Bool-cases, inl, inr, ◌==◌,
}
use dfs_mapreduce.Mapreduce.Util.{KeyValue}
use dfs_mapreduce.Mapreduce.Util.Keys.{bytes_equal, bytes_equal_iff}
use dfs_mapreduce.Mapreduce.Util.Sort.Files.{IsPair}
use dfs_mapreduce.Mapreduce.Worker.{returned}
use dfs_mapreduce.Mapreduce.Worker.MapTask.{line_limit}
use dfs_mapreduce.Mapreduce.Worker.ReduceTask.{MapResult, run_reduce}
use dfs_mapreduce.Mapreduce.Worker.Job.{run_maps}
use dfs_mapreduce.Mapreduce.Plugin.{map_words, map_ips, reduce_count}
use dfs_mapreduce.Mapreduce.Plugin.Counts.{occurs}
use dfs_mapreduce.Mapreduce.Plugin.Job.{number_of, count_lines, map_words-EmitsOnes, run_job-counts}
use dfs_mapreduce.Tests.Sorting.{list_heap, insertion_sort, b1-IsPair}

-- Each line is one word.
abbrev map_line : List ℕ → List KeyValue
map_line = map_words (λ l. l) (λ l. l ∷ [])

abbrev chunk : List ℕ
chunk = 98 ∷ 10 ∷ []

abbrev chunks : List (List ℕ)
chunks = chunk ∷ chunk ∷ []

abbrev digit : ℕ → List ℕ
digit n = (48 + n) ∷ []

pairs_written : All (λ l. All IsPair (map_line l)) (scan_lines line_limit chunk)
unfolding scan_lines map_words
pairs_written = ((b1-IsPair, tt), tt)

short_keys :
    (k : List ℕ)
    → 0 < number_of 2 0 map_line chunks k
    → length k + 2 * number_of 2 0 map_line chunks k < line_limit
unfolding scan_lines map_words
short_keys k h = elim (Bool-cases (bytes_equal (98 ∷ []) k)) [
  | inl e ↦
      let b : List ℕ = 98 ∷ [] in
      let size : 1 ≡ length k = ap (λ x. length x) ((bytes_equal_iff b k).0 e) in
      ground (arith, size)
  | inr e ↦ absurd (ground (arith, h, e))
]

-- The key of a line of unique_ips.go is its third part.
third_part :
    map_ips (1 ∷ 9 ∷ 2 ∷ 9 ∷ 3 ∷ 4 ∷ 9 ∷ []) ≡ record { key = 3 ∷ 4 ∷ []; value = 49 ∷ [] } ∷ []
unfolding map_ips
third_part = refl

run_job-counts_example :
    (results : List MapResult) × (keys : List (List ℕ)) × (run_maps list_heap insertion_sort 2
        (λ i. true)
        (λ i. i == 0)
        map_line
        chunks
      ≡ returned results)
    × ((k : List ℕ) → occurs k keys ≡ min 1 (number_of 2 0 map_line chunks k))
    × (run_reduce list_heap 3 (λ d i. true) true 0 results (some (reduce_count digit)) true true
        ≡ returned (count_lines digit (number_of 2 0 map_line chunks) keys))
run_job-counts_example =
    run_job-counts list_heap insertion_sort 2 0 3 (λ i. true) (λ i. i == 0) (λ d i. true) digit
      map_line chunks (omega arith) (omega arith) (λ i. refl) (λ d i. refl)
      (pairs_written, (pairs_written, tt)) (map_words-EmitsOnes (λ l. l) (λ l. l ∷ [])) short_keys
