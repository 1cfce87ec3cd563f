-- ===== src/Tests/Worker.antt =====
-- Runs of the map and reduce tasks of mapreduce/worker/worker.go.
use dfs_mapreduce.Base.{
  ℕ, zero, suc, ◌≤◌, ◌≡◌, ◌≢◌, refl, true, none, some, List, [], ◌∷◌, All, arith, length, get_elem?,
  scan_lines, drop_cr, ◌==◌,
}
use dfs_mapreduce.Mapreduce.Util.{KeyValue}
use dfs_mapreduce.Mapreduce.Util.Keys.{IsSorted, bytes_less, bytes_equal}
use dfs_mapreduce.Mapreduce.Util.Sort.{split_tab, external_sort}
use dfs_mapreduce.Mapreduce.Util.Sort.Files.{IsPair, pairs_of, IsSortOf}
use dfs_mapreduce.Mapreduce.Worker.{
  Indexed, stored, read_section, find_section, handle_fetch_intermediate, returned,
}
use dfs_mapreduce.Mapreduce.Worker.MapTask.{line_limit, run_map}
use dfs_mapreduce.Mapreduce.Worker.MapTask.Spills.{IsPartOf}
use dfs_mapreduce.Mapreduce.Worker.MapTask.Fetch.{emitted, run_map-fetch}
use dfs_mapreduce.Mapreduce.Worker.ReduceTask.{
  MapResult, here, Group, fetch, fetched_files, collect, join_values, write_groups, reduce_lines,
  run_reduce,
}
use dfs_mapreduce.Mapreduce.Worker.ReduceTask.Groups.{groups, collect-groups}
use dfs_mapreduce.Mapreduce.Worker.ReduceTask.Lines.{
  group_line, IsGroup, outputs, reduce_lines-long,
}
use dfs_mapreduce.Mapreduce.Worker.ReduceTask.Output.{run_reduce-outputs}
use dfs_mapreduce.Mapreduce.Worker.Job.{run_maps, Gathered, run_maps-Gathered}
use dfs_mapreduce.Tests.Sorting.{list_heap, insertion_sort, pop_list, a2, b1, b3, b1-IsPair}

-- Each line is a word that is counted once.
abbrev word : List ℕ → List KeyValue
word l = record { key = l; value = 49 ∷ [] } ∷ []

abbrev chunk_b : List ℕ
chunk_b = 98 ∷ 10 ∷ []

words_of_b-IsPair : All (λ l. All IsPair (word l)) (scan_lines line_limit chunk_b)
unfolding scan_lines
words_of_b-IsPair = ((b1-IsPair, tt), tt)

run_map-fetch_run :
    (out : Indexed) × (sizes : List ℕ) × (bytes : List ℕ) × (run_map list_heap insertion_sort 2
        (λ i. true)
        true
        (some chunk_b)
        (some word)
      ≡ returned (out, sizes))
    × (handle_fetch_intermediate (stored out) 0 ≡ some bytes)
    × (get_elem? sizes 0 ≡ some (length bytes))
    × IsPartOf 2 0 (emitted word (scan_lines line_limit chunk_b)) (pairs_of bytes)
run_map-fetch_run =
    run_map-fetch list_heap insertion_sort 2 0 (λ i. true) chunk_b word (omega arith) (λ i. refl)
      words_of_b-IsPair

run_maps-Gathered_example :
    (results : List MapResult) × (run_maps list_heap insertion_sort 2
        (λ i. true)
        (λ i. i == 0)
        word
        (chunk_b ∷ chunk_b ∷ [])
      ≡ returned results)
    × Gathered 2 0 word (chunk_b ∷ chunk_b ∷ []) (fetched_files 0 results)
run_maps-Gathered_example =
    run_maps-Gathered 2 0 word list_heap insertion_sort (λ i. true) (λ i. i == 0)
      (chunk_b ∷ chunk_b ∷ []) (omega arith) (λ i. refl)
      (words_of_b-IsPair, (words_of_b-IsPair, tt))

three_pairs-IsSorted : IsSorted (a2 ∷ b1 ∷ b3 ∷ [])
unfolding bytes_less
three_pairs-IsSorted = ((refl, (refl, tt)), ((refl, tt), (tt, tt)))

collect-groups_example : collect none [] (a2 ∷ b1 ∷ b3 ∷ []) ≡ groups (a2 ∷ b1 ∷ b3 ∷ [])
collect-groups_example = collect-groups (a2 ∷ b1 ∷ b3 ∷ []) three_pairs-IsSorted

groups_run :
    groups (a2 ∷ b1 ∷ b3 ∷ [])
    ≡ record { key = 97 ∷ []; values = (50 ∷ []) ∷ [] }
      ∷ record { key = 98 ∷ []; values = (49 ∷ []) ∷ (51 ∷ []) ∷ [] }
      ∷ []
unfolding bytes_equal
groups_run = refl

abbrev group_b : Group
group_b = record { key = 98 ∷ []; values = (49 ∷ []) ∷ [] }

differs_49 : ◌≢◌ {A = ℕ} 49 44
differs_49 = omega arith

differs_10 : ◌≢◌ {A = ℕ} 49 10
differs_10 = omega arith

group_b-IsGroup : IsGroup group_b
unfolding join_values drop_cr
group_b-IsGroup = record {
  no_tab = b1-IsPair.no_tab;
  line = b1-IsPair.line;
  some_value = omega arith;
  no_commas = ((differs_49, tt), tt);
}

-- A value of so many bytes.
fill : ℕ → List ℕ
fill zero = []
fill (suc n) = 49 ∷ fill n

length-fill : (n : ℕ) → length (fill n) ≡ n
unfolding fill
length-fill zero = refl
length-fill (suc n) = omega (arith, length-fill n)

fill-All : (n : ℕ) → All (λ b. b ≢ 10) (fill n)
unfolding fill
fill-All zero = tt
fill-All (suc n) = (differs_10, fill-All n)

long_group : Group
long_group = record { key = 98 ∷ []; values = fill line_limit ∷ [] }

long_group_line : group_line long_group ≡ 98 ∷ 9 ∷ fill line_limit
unfolding long_group join_values
long_group_line = refl

long_group-All : All (λ b. b ≢ 10) (group_line long_group)
long_group-All = rw long_group_line (omega arith, (omega arith, fill-All line_limit))

long_group_le : line_limit ≤ length (group_line long_group)
long_group_le = rw long_group_line (omega (arith, length-fill line_limit))

reduce_lines-long_example :
    reduce_lines
      (λ k vs. k)
      (scan_lines line_limit (write_groups (group_b ∷ long_group ∷ group_b ∷ [])))
    ≡ outputs (λ k vs. k) (group_b ∷ [])
reduce_lines-long_example =
    reduce_lines-long (λ k vs. k) (group_b ∷ []) (group_b ∷ []) long_group (group_b-IsGroup, tt)
      long_group-All long_group_le

abbrev one_result : List MapResult
one_result =
    here
      (stored (record {
        bytes = 98 ∷ 9 ∷ 49 ∷ 10 ∷ [];
        index = record { reducer = 0; start = 0; stop = 4 } ∷ [];
      }))
      true
    ∷ []

run_reduce-outputs_example :
    IsSortOf (fetched_files 0 one_result) (98 ∷ 9 ∷ 49 ∷ 10 ∷ [])
    × (run_reduce list_heap 2 (λ d i. true) true 0 one_result (some (λ k vs. k)) true true
        ≡ returned (outputs (λ k vs. k) (groups (pairs_of (98 ∷ 9 ∷ 49 ∷ 10 ∷ [])))))
unfolding fetch find_section read_section external_sort pop_list scan_lines bytes_less bytes_equal
    split_tab
run_reduce-outputs_example =
    run_reduce-outputs list_heap 2 (λ d i. true) 0 one_result (λ k vs. k) (98 ∷ 9 ∷ 49 ∷ 10 ∷ [])
      (λ d i. refl) (((tt, tt), (b1-IsPair, tt)), tt) (omega arith) refl (group_b-IsGroup, tt)
