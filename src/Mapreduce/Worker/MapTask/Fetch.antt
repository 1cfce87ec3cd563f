-- ===== src/Mapreduce/Worker/MapTask/Fetch.antt =====
-- runMap of mapreduce/worker/worker.go to the end, and what a reducer fetches of its result.
use dfs_mapreduce.Base.{
  ℕ, zero, suc, ◌+◌, ◌<◌, ◌≡◌, refl, sym, ap, ◌∙◌, subst, Bool, true, Option, some, List, [], ◌∷◌,
  ◌++◌, map, All, All-append, arith, total, length, get_elem?, ltb, leb, Bool-cases, inl, inr,
  append-nil, append_assoc, scan_lines,
}
use dfs_mapreduce.Mapreduce.Util.{KeyValue}
use dfs_mapreduce.Mapreduce.Util.Keys.{count, count-append}
use dfs_mapreduce.Mapreduce.Util.Sort.{ScannerHeap, write_pairs}
use dfs_mapreduce.Mapreduce.Util.Sort.Files.{
  IsPair, pairs_of, file_pairs, count_files, IsSortedFile, merged, merged-IsSortOf,
}
use dfs_mapreduce.Mapreduce.Worker.{
  Indexed, Stored, stored, write_parts, returned, handle_fetch_intermediate,
}
use dfs_mapreduce.Mapreduce.Worker.Spill.{KeySort, spill}
use dfs_mapreduce.Mapreduce.Worker.Spill.Layout.{
  handle_fetch_intermediate-write_parts, get_elem?-sizes, length-zero,
}
use dfs_mapreduce.Mapreduce.Worker.Spill.Partition.{goes_to}
use dfs_mapreduce.Mapreduce.Worker.MapTask.{
  spill_section, MapState, buffer_limit, line_limit, merged_parts, merge_spills, spill_buffer,
  add_pairs, map_lines, last_spill, run_map,
}
use dfs_mapreduce.Mapreduce.Worker.MapTask.Spills.{both, IsPartOf, spill-IsPartOf}

abbrev pub emitted : (List ℕ → List KeyValue) → List (List ℕ) → List KeyValue
emitted map_func [] = []
emitted map_func (l ∷ ls) = map_func l ++ emitted map_func ls

abbrev sections : ℕ → List Indexed → List (Option (List ℕ))
sections r spills = map (spill_section r) (map stored spills)

-- The pairs emitted so far are in the buffer or, if they go to the r-th reducer, in its sections.
record Holds (n r : ℕ) (st : MapState) (kvs : List KeyValue) : Type 0 where
  counted :
      (p : KeyValue → Bool)
      → count_files p (sections r st.spills) + count (both p (goes_to n r)) st.buffer
        ≡ count (both p (goes_to n r)) kvs
  sorted : All IsSortedFile (sections r st.spills)
  writable : All IsPair st.buffer

sections-append :
    (r : ℕ) (xs : List Indexed) (x : Indexed)
    → sections r (xs ++ x ∷ []) ≡ sections r xs ++ spill_section r (stored x) ∷ []
sections-append r [] x = refl
sections-append r (y ∷ xs) x = ap (◌∷◌ (spill_section r (stored y))) (sections-append r xs x)

total-append {ℓ} :
    {A : Type ℓ} (f : A → ℕ) (xs ys : List A) → total f (xs ++ ys) ≡ total f xs + total f ys
total-append f [] ys = omega arith
total-append f (x ∷ xs) ys = omega (arith, total-append f xs ys)

module _ (heap : ScannerHeap) (sorter : KeySort) (n r : ℕ) (created : ℕ → Bool) where
  spill_buffer-Holds :
      (st : MapState) (kvs : List KeyValue)
      → r < n
      → ((i : ℕ) → created i ≡ true)
      → Holds n r st kvs
      → (next : MapState) × (spill_buffer heap sorter n created st ≡ returned next)
        × Holds n r next kvs
        × (next.buffer ≡ [])
  unfolding spill_buffer
  spill_buffer-Holds st kvs h all inv =
      let (x, e, part) = spill-IsPartOf sorter n r st.buffer h inv.writable in
      let spilled : spill sorter n (created (length st.spills)) true st.buffer ≡ returned x =
        ap (λ b. spill sorter n b true st.buffer) (all (length st.spills)) ∙ e in
      let more = sections-append r st.spills x in
      let next : MapState = record { buffer = []; spills = st.spills ++ x ∷ [] } in
      let one = spill_section r (stored x) ∷ [] in
      let split = λ (p : KeyValue → Bool).
        ap (count_files p) more
        ∙ total-append (λ f. count p (file_pairs f)) (sections r st.spills) one in
      (
        next,
        rw (spilled, spill_buffer) refl,
        record {
          counted = λ p. omega (arith, inv.counted p, part.same p, split p);
          sorted = subst (All IsSortedFile) (sym more) (
              All-append IsSortedFile (sections r st.spills) one inv.sorted
                ((part.sorted, part.written), tt));
          writable = tt;
        },
        refl,
      )

  add_pairs-Holds :
      (kvs : List KeyValue) (st : MapState) (done : List KeyValue)
      → r < n
      → ((i : ℕ) → created i ≡ true)
      → All IsPair kvs
      → Holds n r st done
      → (next : MapState) × (add_pairs heap sorter n created kvs st ≡ returned next)
        × Holds n r next (done ++ kvs)
  unfolding add_pairs
  add_pairs-Holds [] st done h all ok inv =
      (st, refl, subst (Holds n r st) (sym (append-nil done)) inv)
  add_pairs-Holds (kv ∷ kvs) st done h all ok inv =
      let more : MapState = record { buffer = st.buffer ++ kv ∷ []; spills = st.spills } in
      let held : Holds n r more (done ++ kv ∷ []) = record {
        counted = λ p. omega (
          arith,
          inv.counted p,
          count-append (both p (goes_to n r)) done (kv ∷ []),
          count-append (both p (goes_to n r)) st.buffer (kv ∷ []),
        );
        sorted = inv.sorted;
        writable = All-append IsPair st.buffer (kv ∷ []) inv.writable (ok.0, tt);
      } in
      let again = append_assoc done (kv ∷ []) kvs in
      elim (Bool-cases (leb buffer_limit (length more.buffer))) [
        | inl e ↦
            let (mid, f, inv', _) = spill_buffer-Holds more (done ++ kv ∷ []) h all held in
            let (next, g, last) = add_pairs-Holds kvs mid (done ++ kv ∷ []) h all ok.1 inv' in
            (next, rw (e, f, add_pairs) g, subst (Holds n r next) again last)
        | inr e ↦
            let (next, g, last) = add_pairs-Holds kvs more (done ++ kv ∷ []) h all ok.1 held in
            (next, rw (e, add_pairs) g, subst (Holds n r next) again last)
      ]

  map_lines-Holds :
      (map_func : List ℕ → List KeyValue) (ls : List (List ℕ)) (st : MapState)
      (done : List KeyValue)
      → r < n
      → ((i : ℕ) → created i ≡ true)
      → All (λ l. All IsPair (map_func l)) ls
      → Holds n r st done
      → (next : MapState) × (map_lines heap sorter n created map_func ls st ≡ returned next)
        × Holds n r next (done ++ emitted map_func ls)
  unfolding map_lines
  map_lines-Holds map_func [] st done h all ok inv =
      (st, refl, subst (Holds n r st) (sym (append-nil done)) inv)
  map_lines-Holds map_func (l ∷ ls) st done h all ok inv =
      let (mid, f, inv') = add_pairs-Holds (map_func l) st done h all ok.0 inv in
      let (next, g, last) = map_lines-Holds map_func ls mid (done ++ map_func l) h all ok.1 inv' in
      (
        next,
        rw (f, map_lines) g,
        subst (Holds n r next) (append_assoc done (map_func l) (emitted map_func ls)) last,
      )

  last_spill-Holds :
      (st : MapState) (kvs : List KeyValue)
      → r < n
      → ((i : ℕ) → created i ≡ true)
      → Holds n r st kvs
      → (next : MapState) × (last_spill heap sorter n created st ≡ returned next)
        × Holds n r next kvs
        × (next.buffer ≡ [])
  unfolding last_spill
  last_spill-Holds st kvs h all inv = elim (Bool-cases (ltb 0 (length st.buffer))) [
    | inl e ↦
        let (next, f, held, empty) = spill_buffer-Holds st kvs h all inv in
        (next, rw (e, last_spill) f, held, empty)
    | inr e ↦
        let zero_long : length st.buffer ≡ 0 = ground arith in
        (st, rw (e, last_spill) refl, inv, length-zero st.buffer zero_long)
  ]

  get_elem?-merged_parts :
      (left first i : ℕ) (spills : List Stored)
      → i < left
      → get_elem? (merged_parts heap sorter n left first spills) i
        ≡ some (merged heap (map (spill_section (first + i)) spills))
  unfolding merged_parts
  get_elem?-merged_parts zero first i spills h = absurd (omega arith)
  get_elem?-merged_parts (suc left) first zero spills h =
      let same : first ≡ first + 0 = omega arith in
      ap (λ j. some (merged heap (map (spill_section j) spills))) same
  get_elem?-merged_parts (suc left) first (suc i) spills h =
      let same : first + 1 + i ≡ first + suc i = omega arith in
      subst
        (λ j.
          get_elem? (merged_parts heap sorter n left (first + 1) spills) i
          ≡ some (merged heap (map (spill_section j) spills)))
        same (get_elem?-merged_parts left (first + 1) i spills (omega arith))

  -- If all files can be created, the reducer's number is below the number of reducers, and Map
  -- gives pairs that can be written as lines, a map task over a chunk ends, and the reducer
  -- fetches from its result the pairs whose hash sends them to it, each as often as Map emitted
  -- it, in the order of keys. The size that is reported for it is the length of these bytes.
  pub run_map-fetch :
      (chunk : List ℕ) (map_func : List ℕ → List KeyValue)
      → r < n
      → ((i : ℕ) → created i ≡ true)
      → All (λ l. All IsPair (map_func l)) (scan_lines line_limit chunk)
      → (out : Indexed) × (sizes : List ℕ) × (bytes : List ℕ) × (run_map heap sorter n created true
            (some chunk)
            (some map_func)
          ≡ returned (out, sizes))
        × (handle_fetch_intermediate (stored out) r ≡ some bytes)
        × (get_elem? sizes r ≡ some (length bytes))
        × IsPartOf n r (emitted map_func (scan_lines line_limit chunk)) (pairs_of bytes)
  unfolding run_map merge_spills
  run_map-fetch chunk map_func h all ok =
      let ls = scan_lines line_limit chunk in
      let start : MapState = record { buffer = []; spills = [] } in
      let (mid, e, held) =
        map_lines-Holds map_func ls start [] h all ok
          (record { counted = λ p. refl; sorted = tt; writable = tt }) in
      let (end, f, last, empty) = last_spill-Holds mid (emitted map_func ls) h all held in
      let disk = map stored end.spills in
      let parts = merged_parts heap sorter n n 0 disk in
      let kvs = merged heap (sections r end.spills) in
      let own = get_elem?-merged_parts n 0 r disk h in
      let got : get_elem? parts r ≡ some kvs =
        subst (λ j. get_elem? parts r ≡ some (merged heap (map (spill_section j) disk)))
          (omega arith) own in
      let sort = merged-IsSortOf heap (sections r end.spills) last.sorted in
      let left = λ (p : KeyValue → Bool). ap (count (both p (goes_to n r))) empty in
      (
        write_parts 0 0 parts,
        _,
        write_pairs kvs,
        rw (e, f, run_map) refl,
        handle_fetch_intermediate-write_parts r parts kvs got,
        get_elem?-sizes 0 r 0 parts kvs got,
        record {
          sorted = sort.sorted;
          same = λ p. omega (arith, sort.same p, last.counted p, left p);
          written = sort.written;
        },
      )
