-- ===== src/Mapreduce/Plugin/Job.antt =====
-- A whole job with one of the counting plugins of mapreduce/plugin/, on the map and reduce tasks of
-- mapreduce/worker/worker.go.
use dfs_mapreduce.Base.{
  ℕ, suc, ◌+◌, ◌*◌, ◌≤◌, ◌<◌, ◌≡◌, refl, sym, ap, ◌∙◌, Bool, true, false, not, Option, none, some,
  List, [], ◌∷◌, ◌++◌, length, map, All, All-map, All-append, arith, total, min, scan_lines,
  Option-cases, inl, inr, ◌⊎◌, get_elem?,
}
use dfs_mapreduce.Mapreduce.Util.{KeyValue}
use dfs_mapreduce.Mapreduce.Util.Keys.{count, bytes_equal, bytes_equal_iff}
use dfs_mapreduce.Mapreduce.Util.Sort.{ScannerHeap}
use dfs_mapreduce.Mapreduce.Util.Sort.Files.{IsPair, pairs_of}
use dfs_mapreduce.Mapreduce.Util.Sort.External.{external_sort_sorts}
use dfs_mapreduce.Mapreduce.Worker.{Outcome, returned, failed, panicked}
use dfs_mapreduce.Mapreduce.Worker.Spill.{KeySort}
use dfs_mapreduce.Mapreduce.Worker.Spill.Partition.{goes_to}
use dfs_mapreduce.Mapreduce.Worker.MapTask.{line_limit, run_map}
use dfs_mapreduce.Mapreduce.Worker.MapTask.Spills.{both}
use dfs_mapreduce.Mapreduce.Worker.MapTask.Fetch.{emitted}
use dfs_mapreduce.Mapreduce.Worker.ReduceTask.{
  MapResult, fetch, fetched_files, result_line, run_reduce,
}
use dfs_mapreduce.Mapreduce.Worker.ReduceTask.Groups.{values_of, distinct_keys}
use dfs_mapreduce.Mapreduce.Worker.ReduceTask.Lines.{outputs}
use dfs_mapreduce.Mapreduce.Worker.ReduceTask.Output.{run_reduce-outputs}
use dfs_mapreduce.Mapreduce.Worker.Job.{place, run_maps, emitted_for, run_maps-Gathered}
use dfs_mapreduce.Mapreduce.Plugin.{
  one, emit, split_tabs, map_ips, map_urls, map_domains, map_words, emit_domain, emit_words,
  reduce_count,
}
use dfs_mapreduce.Mapreduce.Plugin.Counts.{
  has_key, occurs, length-values_of, occurs-distinct_keys, count-zero,
}
use dfs_mapreduce.Mapreduce.Plugin.Groups.{IsOne, groups-IsGroup}

-- The result file: one line for each key, with its number.
abbrev pub count_lines : (ℕ → List ℕ) → (List ℕ → ℕ) → List (List ℕ) → List ℕ
count_lines decimal n [] = []
count_lines decimal n (k ∷ ks) = result_line k (decimal (n k)) ++ count_lines decimal n ks

outputs-count_lines :
    (decimal : ℕ → List ℕ) (n : List ℕ → ℕ) (kvs : List KeyValue) (ks : List (List ℕ))
    → ((k : List ℕ) → count (has_key k) kvs ≡ n k)
    → outputs (reduce_count decimal) (map (λ k. record { key = k; values = values_of k kvs }) ks)
      ≡ count_lines decimal n ks
unfolding reduce_count
outputs-count_lines decimal n kvs [] h = refl
outputs-count_lines decimal n kvs (k ∷ ks) h =
    ap
      (λ m.
        result_line k (decimal m)
        ++ outputs (reduce_count decimal)
            (map (λ j. record { key = j; values = values_of j kvs }) ks))
      (length-values_of k kvs ∙ h k)
    ∙ ap (λ t. result_line k (decimal (n k)) ++ t) (outputs-count_lines decimal n kvs ks h)

-- Map emits ones only.
abbrev pub EmitsOnes : (List ℕ → List KeyValue) → Type 0
EmitsOnes map_func = (l : List ℕ) → All (λ kv. IsOne kv.value) (map_func l)

abbrev not_one : KeyValue → Bool
not_one kv = not (bytes_equal kv.value one)

count-ones :
    (q : KeyValue → Bool) (kvs : List KeyValue)
    → All (λ kv. IsOne kv.value) kvs
    → count (both not_one q) kvs ≡ 0
count-ones q [] h = refl
count-ones q (kv ∷ kvs) h =
    let same : bytes_equal kv.value one ≡ true = (bytes_equal_iff kv.value one).1 h.0 in
    rw same (omega (arith, count-ones q kvs h.1))

emitted-ones :
    (map_func : List ℕ → List KeyValue)
    → EmitsOnes map_func
    → (ls : List (List ℕ)) → All (λ kv. IsOne kv.value) (emitted map_func ls)
emitted-ones map_func h [] = tt
emitted-ones map_func h (l ∷ ls) =
    All-append (λ kv. IsOne kv.value) (map_func l) (emitted map_func ls) (h l)
      (emitted-ones map_func h ls)

module _ (n r : ℕ) (map_func : List ℕ → List KeyValue) where
  -- How often Map emits a key that goes to the reducer.
  abbrev pub number_of : List (List ℕ) → List ℕ → ℕ
  number_of chunks k = total (emitted_for n r map_func (has_key k)) chunks

  total-ones :
      EmitsOnes map_func
      → (chunks : List (List ℕ)) → total (emitted_for n r map_func not_one) chunks ≡ 0
  total-ones h [] = refl
  total-ones h (c ∷ chunks) = omega (
    arith,
    count-ones (goes_to n r) (emitted map_func (scan_lines line_limit c))
        (emitted-ones map_func h (scan_lines line_limit c)),
    total-ones h chunks,
  )

fetched_files-le : (r : ℕ) (ms : List MapResult) → length (fetched_files r ms) ≤ length ms
fetched_files-le r [] = omega arith
fetched_files-le r (m ∷ ms) = elim (Option-cases (fetch r m)) [
  | inl e ↦ rw (e, fetched_files) (omega (arith, fetched_files-le r ms))
  | inr (bytes, e) ↦ rw (e, fetched_files) (omega (arith, fetched_files-le r ms))
]

Outcome-cases :
    {A : Type 0} (x : Outcome A) → ((a : A) × (x ≡ returned a)) ⊎ ((x ≡ failed) ⊎ (x ≡ panicked))
Outcome-cases (returned a) = inl (a, refl)
Outcome-cases failed = inr (inl refl)
Outcome-cases panicked = inr (inr refl)

returned_inj : {A : Type 0} {x y : A} → returned x ≡ returned y → x ≡ y
returned_inj {x = x} e = ap (λ o. elim o [ returned a ↦ a | failed ↦ x | panicked ↦ x ]) e

-- One result for each chunk.
length-run_maps :
    (heap : ScannerHeap) (sorter : KeySort) (n : ℕ) (created local : ℕ → Bool)
    → (map_func : List ℕ → List KeyValue) (chunks : List (List ℕ)) (results : List MapResult)
    → run_maps heap sorter n created local map_func chunks ≡ returned results
    → length results ≡ length chunks
length-run_maps heap sorter n created local map_func [] results e = ap length (sym (returned_inj e))
length-run_maps heap sorter n created local map_func (c ∷ chunks) results e =
    elim (Outcome-cases (run_map heap sorter n created true (some c) (some map_func))) [
      | inr (inl f) ↦ absurd (ground (arith, e, f))
      | inr (inr f) ↦ absurd (ground (arith, e, f))
      | inl ((out, sizes), f) ↦
          elim (Outcome-cases
            (run_maps heap sorter n created (λ i. local (suc i)) map_func chunks)) [
              | inr (inl g) ↦ absurd (ground (arith, e, f, g))
              | inr (inr g) ↦ absurd (ground (arith, e, f, g))
              | inl (rest, g) ↦
                  let whole : place (local 0) out ∷ rest ≡ results =
                    returned_inj (rw (f, g, run_maps) at e) in
                  sym (ap length whole)
                  ∙ ap suc (
                      length-run_maps heap sorter n created (λ i. local (suc i)) map_func chunks
                        rest g)
            ]
    ]

not_one-IsOne : (kv : KeyValue) → not_one kv ≡ false → IsOne kv.value
not_one-IsOne kv e = (bytes_equal_iff kv.value one).0 (ground (arith, e))

-- A job with a plugin whose Map emits pairs with the value "1" that can be written as lines, and
-- whose Reduce gives the decimal of the number of values: if all files can be created, the plugin
-- and the uploads work, each result of a map task stands on the reducer's own machine or on
-- another one that sends it whole, the reducer's number is below the number of reducers, there is
-- more fuel than chunks, and the line of each key with its ones is shorter than 16 MiB, then all
-- map tasks end, and the reduce task uploads one line for each key that Map has emitted and the
-- hash sends to it, and for no other, with the number of times that Map has emitted the key, over
-- all chunks.
pub run_job-counts :
    (heap : ScannerHeap) (sorter : KeySort) (n r fuel : ℕ) (created local : ℕ → Bool)
    → (merged : ℕ → ℕ → Bool) (decimal : ℕ → List ℕ) (map_func : List ℕ → List KeyValue)
    → (chunks : List (List ℕ)) → r < n
    → length chunks < fuel
    → ((i : ℕ) → created i ≡ true)
    → ((d i : ℕ) → merged d i ≡ true)
    → All (λ c. All (λ l. All IsPair (map_func l)) (scan_lines line_limit c)) chunks
    → EmitsOnes map_func
    → ((k : List ℕ)
        → 0 < number_of n r map_func chunks k
        → length k + 2 * number_of n r map_func chunks k < line_limit)
    → (results : List MapResult) × (keys : List (List ℕ)) × (run_maps heap sorter n created local
          map_func chunks
        ≡ returned results)
      × ((k : List ℕ) → occurs k keys ≡ min 1 (number_of n r map_func chunks k))
      × (run_reduce heap fuel merged true r results (some (reduce_count decimal)) true true
          ≡ returned (count_lines decimal (number_of n r map_func chunks) keys))
run_job-counts heap sorter n r fuel created local merged decimal map_func chunks h enough all
      all_merged ok ones fit =
    let (results, e, g) =
      run_maps-Gathered n r map_func heap sorter created local chunks h all ok in
    let few : length (fetched_files r results) < fuel = omega (
      arith,
      fetched_files-le r results,
      length-run_maps heap sorter n created local map_func chunks results e,
      enough,
    ) in
    let (bytes, sorts, sort) =
      external_sort_sorts heap fuel merged (fetched_files r results) all_merged g.sorted few in
    let same : (p : KeyValue → Bool)
        → count p (pairs_of bytes) ≡ total (emitted_for n r map_func p) chunks =
      λ p. sort.same p ∙ g.same p in
    let only_ones : All (λ kv. IsOne kv.value) (pairs_of bytes) =
      All-map (λ kv. not_one kv ≡ false) (λ kv. IsOne kv.value) not_one-IsOne (pairs_of bytes)
        (count-zero not_one (pairs_of bytes)
          (same not_one ∙ total-ones n r map_func ones chunks)) in
    let groups_fit =
      groups-IsGroup (pairs_of bytes) sort.written only_ones
        (λ k pos. omega (arith, same (has_key k), fit k (omega (arith, pos, same (has_key k))))) in
    let run =
      (run_reduce-outputs heap fuel merged r results (reduce_count decimal) bytes all_merged
        g.sorted few sorts groups_fit).1 in
    (
      results,
      distinct_keys (pairs_of bytes),
      e,
      λ k. occurs-distinct_keys k (pairs_of bytes) ∙ ap (min 1) (same (has_key k)),
      run
          ∙ ap returned (
              outputs-count_lines decimal (number_of n r map_func chunks) (pairs_of bytes)
                (distinct_keys (pairs_of bytes)) (λ k. same (has_key k))),
    )

emit-ones : (part : Option (List ℕ)) → All (λ kv. IsOne kv.value) (emit part)
emit-ones none = tt
emit-ones (some key) = (refl, tt)

emit_domain-ones : (domain : Option (List ℕ)) → All (λ kv. IsOne kv.value) (emit_domain domain)
emit_domain-ones none = tt
emit_domain-ones (some []) = tt
emit_domain-ones (some (b ∷ domain)) = (refl, tt)

emit_words-ones : (words : List (List ℕ)) → All (λ kv. IsOne kv.value) (emit_words words)
emit_words-ones [] = tt
emit_words-ones ([] ∷ words) = emit_words-ones words
emit_words-ones ((b ∷ word) ∷ words) = (refl, emit_words-ones words)

-- All four plugins emit ones only.
pub map_ips-EmitsOnes : EmitsOnes map_ips
unfolding map_ips
map_ips-EmitsOnes l = emit-ones (get_elem? (split_tabs [] l) 2)

pub map_urls-EmitsOnes : EmitsOnes map_urls
unfolding map_urls
map_urls-EmitsOnes l = emit-ones (get_elem? (split_tabs [] l) 3)

pub map_domains-EmitsOnes :
    (fields : List ℕ → List (List ℕ)) (hostname : List ℕ → Option (List ℕ))
    → EmitsOnes (map_domains fields hostname)
unfolding map_domains
map_domains-EmitsOnes fields hostname l = elim (Option-cases (get_elem? (fields l) 3)) [
  | inl e ↦ rw (e, map_domains) tt
  | inr (url, e) ↦ rw (e, map_domains) (emit_domain-ones (hostname url))
]

pub map_words-EmitsOnes :
    (to_lower : List ℕ → List ℕ) (find_all : List ℕ → List (List ℕ))
    → EmitsOnes (map_words to_lower find_all)
unfolding map_words
map_words-EmitsOnes to_lower find_all l = emit_words-ones (find_all (to_lower l))
