-- ===== src/Mapreduce/Worker/Job.antt =====
-- The map tasks of a job on mapreduce/worker/worker.go, and what shuffle gathers from all of them.
use dfs_mapreduce.Base.{
  some_inj, ℕ, suc, ◌<◌, ◌≡◌, refl, sym, ap, Bool, true, false, Option, none, some, List, [], ◌∷◌,
  All, arith, total, ltb, ◌⊎◌, Bool-cases, Option-cases, inl, inr, scan_lines,
}
use dfs_mapreduce.Mapreduce.Util.{KeyValue}
use dfs_mapreduce.Mapreduce.Util.Keys.{count}
use dfs_mapreduce.Mapreduce.Util.Sort.{ScannerHeap}
use dfs_mapreduce.Mapreduce.Util.Sort.Files.{IsPair, pairs_of, count_files, IsSortedFile}
use dfs_mapreduce.Mapreduce.Worker.{
  Indexed, stored, find_section, handle_fetch_intermediate, Outcome, returned, failed, panicked,
}
use dfs_mapreduce.Mapreduce.Worker.Spill.{KeySort}
use dfs_mapreduce.Mapreduce.Worker.Spill.Partition.{goes_to}
use dfs_mapreduce.Mapreduce.Worker.MapTask.{line_limit, run_map}
use dfs_mapreduce.Mapreduce.Worker.MapTask.Spills.{both, IsPartOf}
use dfs_mapreduce.Mapreduce.Worker.MapTask.Fetch.{emitted, run_map-fetch}
use dfs_mapreduce.Mapreduce.Worker.ReduceTask.{
  MapResult, here, remote, arrived, fetch, fetched_files,
}

-- What shuffle copies from a result on its own machine is what it would be sent, if that is not empty.
fetch-here :
    (x : Indexed) (r : ℕ) (bytes : List ℕ)
    → handle_fetch_intermediate (stored x) r ≡ some bytes
    → (fetch r (here (stored x) true) ≡ some bytes)
      ⊎ ((fetch r (here (stored x) true) ≡ none) × (bytes ≡ []))
unfolding fetch handle_fetch_intermediate
fetch-here x r bytes e = elim (Option-cases (find_section r x.index)) [
  | inl f ↦ inr (rw (f, fetch) refl, sym (some_inj (rw (f, handle_fetch_intermediate) at e)))
  | inr (s, f) ↦ elim (Bool-cases (ltb s.start s.stop)) [
    | inl g ↦ inl (rw (f, g, fetch) (rw (f, g, handle_fetch_intermediate) at e))
    | inr g ↦
        inr (rw (f, g, fetch) refl, sym (some_inj (rw (f, g, handle_fetch_intermediate) at e)))
  ]
]

-- What shuffle is sent from another machine, if the exchange and the whole copy succeed.
fetch-remote :
    (x : Indexed) (r : ℕ) (bytes : List ℕ)
    → handle_fetch_intermediate (stored x) r ≡ some bytes
    → fetch r (remote (stored x) true true true none) ≡ some bytes
unfolding fetch arrived
fetch-remote x r bytes e = rw e refl

-- Where the result of a map task stands for the reducer: on its own machine, or on another one
-- that sends it whole.
abbrev pub place : Bool → Indexed → MapResult
place true x = here (stored x) true
place false x = remote (stored x) true true true none

-- What shuffle gets of a result is what is stored for the reducer, if that is not empty.
fetch-place :
    (local : Bool) (x : Indexed) (r : ℕ) (bytes : List ℕ)
    → handle_fetch_intermediate (stored x) r ≡ some bytes
    → (fetch r (place local x) ≡ some bytes) ⊎ ((fetch r (place local x) ≡ none) × (bytes ≡ []))
fetch-place true x r bytes e = fetch-here x r bytes e
fetch-place false x r bytes e = inl (fetch-remote x r bytes e)

-- The map tasks of the chunks, with the results where the reducer finds them: `local i` is whether
-- the `i`-th chunk's worker is on the reducer's machine.
abbrev pub run_maps :
    ScannerHeap
    → KeySort
    → ℕ
    → (ℕ → Bool)
    → (ℕ → Bool)
    → (List ℕ → List KeyValue)
    → List (List ℕ)
    → Outcome (List MapResult)
run_maps heap sorter n created local map_func [] = returned []
run_maps heap sorter n created local map_func (c ∷ cs) =
    elim (run_map heap sorter n created true (some c) (some map_func)) [
      | failed ↦ failed
      | panicked ↦ panicked
      | returned (out, sizes) ↦
          elim (run_maps heap sorter n created (λ i. local (suc i)) map_func cs) [
            | failed ↦ failed
            | panicked ↦ panicked
            | returned results ↦ returned (place (local 0) out ∷ results)
          ]
    ]

module _ (n r : ℕ) (map_func : List ℕ → List KeyValue) where
  abbrev pub emitted_for : (KeyValue → Bool) → List ℕ → ℕ
  emitted_for p c = count (both p (goes_to n r)) (emitted map_func (scan_lines line_limit c))

  -- The files hold what the map tasks emitted for the reducer.
  pub record Gathered (chunks : List (List ℕ)) (files : List (Option (List ℕ))) : Type 0 where
    pub sorted : All IsSortedFile files
    pub same : (p : KeyValue → Bool) → count_files p files ≡ total (emitted_for p) chunks

  Gathered-next :
      (local : Bool) (c bytes : List ℕ) (chunks : List (List ℕ)) (out : Indexed)
      (results : List MapResult)
      → handle_fetch_intermediate (stored out) r ≡ some bytes
      → IsPartOf n r (emitted map_func (scan_lines line_limit c)) (pairs_of bytes)
      → Gathered chunks (fetched_files r results)
      → Gathered (c ∷ chunks) (fetched_files r (place local out ∷ results))
  unfolding scan_lines
  Gathered-next local c bytes chunks out results e part rest =
      elim (fetch-place local out r bytes e) [
        | inl f ↦
            rw (f, fetched_files)
              (record {
                sorted = ((part.sorted, part.written), rest.sorted);
                same = λ p. omega (arith, part.same p, rest.same p);
              })
        | inr (f, g) ↦
            let empty : (p : KeyValue → Bool) → count p (pairs_of bytes) ≡ 0 =
              λ p. ap (λ b. count p (pairs_of b)) g in
            rw (f, fetched_files)
              (record {
                sorted = rest.sorted;
                same = λ p. omega (arith, part.same p, rest.same p, empty p);
              })
      ]

  -- If all files can be created, the reducer's number is below the number of reducers, Map gives
  -- pairs that can be written as lines, and each result stands on the reducer's own machine or on
  -- another one that sends it whole, then all map tasks end, and what the reducer gathers from
  -- their results are sorted files that hold, taken together, the pairs that Map emitted for the
  -- chunks and whose hash sends them to it, each as often.
  pub run_maps-Gathered :
      (heap : ScannerHeap) (sorter : KeySort) (created local : ℕ → Bool) (chunks : List (List ℕ))
      → r < n
      → ((i : ℕ) → created i ≡ true)
      → All (λ c. All (λ l. All IsPair (map_func l)) (scan_lines line_limit c)) chunks
      → (results : List MapResult) × (run_maps heap sorter n created local map_func chunks
          ≡ returned results)
        × Gathered chunks (fetched_files r results)
  run_maps-Gathered heap sorter created local [] h all ok =
      ([], refl, record { sorted = tt; same = λ p. refl })
  run_maps-Gathered heap sorter created local (c ∷ chunks) h all ok =
      let (out, sizes, bytes, e, got, size, part) =
        run_map-fetch heap sorter n r created c map_func h all ok.0 in
      let (results, f, rest) =
        run_maps-Gathered heap sorter created (λ i. local (suc i)) chunks h all ok.1 in
      (
        place (local 0) out ∷ results,
        rw (e, f, run_maps) refl,
        Gathered-next (local 0) c bytes chunks out results got part rest,
      )
