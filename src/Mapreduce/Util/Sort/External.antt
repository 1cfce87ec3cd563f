-- ===== src/Mapreduce/Util/Sort/External.antt =====
-- ExternalSort of mapreduce/util/sort.go: passes over batches of a hundred files.
use dfs_mapreduce.Base.{
  ℕ, zero, suc, ◌+◌, ◌*◌, ◌<◌, ◌≤◌, ◌≡◌, refl, ◌∙◌, inl, inr, Bool, true, false, Option, some, List,
  [], ◌∷◌, All, All-take, All-drop, length, length-drop, take, drop, arith, total, leb, Bool-cases,
  ◌==◌,
}
use dfs_mapreduce.Mapreduce.Util.{KeyValue}
use dfs_mapreduce.Mapreduce.Util.Keys.{count}
use dfs_mapreduce.Mapreduce.Util.Sort.{
  ScannerHeap, write_pairs, external_sort_batch, batch_size, sort_batches, external_sort,
}
use dfs_mapreduce.Mapreduce.Util.Sort.Files.{
  file_pairs, count_files, IsSortedFile, IsSortOf, merged, merged-IsSortOf,
}

total-take-drop {ℓ} :
    {A : Type ℓ} (f : A → ℕ) (n : ℕ) (xs : List A)
    → total f (take n xs) + total f (drop n xs) ≡ total f xs
total-take-drop f zero xs = omega arith
total-take-drop f (suc n) [] = omega arith
total-take-drop f (suc n) (x ∷ xs) = omega (arith, total-take-drop f n xs)

positive : (n : ℕ) → (n == 0) ≡ false → 1 ≤ n
positive n h = ground arith

nonempty : (n : ℕ) → (suc n == 0) ≡ false
nonempty n = ground arith

-- The temporary files of a pass: fewer, sorted, with the same pairs.
record IsPass (files temps : List (Option (List ℕ))) : Type 0 where
  sorted : All IsSortedFile temps
  same : (p : KeyValue → Bool) → count_files p temps ≡ count_files p files
  fewer : length temps * batch_size < length files + batch_size

module _ (heap : ScannerHeap) where
  batch :
      (files : List (Option (List ℕ)))
      → external_sort_batch heap files true ≡ some (write_pairs (merged heap files))
  unfolding external_sort_batch
  batch files = refl

  sort_batches-step :
      (fuel i : ℕ) (created : ℕ → Bool) (files temps : List (Option (List ℕ)))
      → created i ≡ true
      → (length files == 0) ≡ false
      → sort_batches heap fuel (i + 1) created (drop batch_size files) ≡ some temps
      → sort_batches heap (suc fuel) i created files
        ≡ some (some (write_pairs (merged heap (take batch_size files))) ∷ temps)
  unfolding sort_batches
  sort_batches-step fuel i created files temps c n e =
      rw (n, c, batch (take batch_size files), e, sort_batches) refl

  IsPass-step :
      (files temps : List (Option (List ℕ)))
      → (length files == 0) ≡ false
      → All IsSortedFile files
      → IsPass (drop batch_size files) temps
      → IsPass files (some (write_pairs (merged heap (take batch_size files))) ∷ temps)
  IsPass-step files temps n ok pass =
      let first =
        merged-IsSortOf heap (take batch_size files) (All-take IsSortedFile batch_size files ok) in
      let left = length-drop batch_size files in
      let split =
        λ (p : KeyValue → Bool). total-take-drop (λ f. count p (file_pairs f)) batch_size files in
      record {
        sorted = ((first.sorted, first.written), pass.sorted);
        same = λ p. omega (arith, first.same p, pass.same p, split p);
        fewer = omega (arith, pass.fewer, left, positive (length files) n);
      }

  sort_batches-IsPass :
      (fuel i : ℕ) (created : ℕ → Bool) (files : List (Option (List ℕ)))
      → ((j : ℕ) → created j ≡ true)
      → length files ≤ fuel
      → All IsSortedFile files
      → (temps : List (Option (List ℕ))) × (sort_batches heap fuel i created files ≡ some temps)
        × IsPass files temps
  unfolding sort_batches
  sort_batches-IsPass zero i created [] all h ok =
      ([], refl, record { sorted = tt; same = λ p. refl; fewer = omega arith })
  sort_batches-IsPass zero i created (f ∷ files) all h ok = absurd (omega arith)
  sort_batches-IsPass (suc fuel) i created [] all h ok =
      ([], refl, record { sorted = tt; same = λ p. refl; fewer = omega arith })
  sort_batches-IsPass (suc fuel) i created (f ∷ files) all h ok =
      let whole = f ∷ files in
      let n = nonempty (length files) in
      let small : length (drop batch_size whole) ≤ fuel =
        omega (arith, length-drop batch_size whole) in
      let (temps, e, pass) =
        sort_batches-IsPass fuel (i + 1) created (drop batch_size whole) all small
          (All-drop IsSortedFile batch_size whole ok) in
      (
        some (write_pairs (merged heap (take batch_size whole))) ∷ temps,
        sort_batches-step fuel i created whole temps (all i) n e,
        IsPass-step whole temps n ok pass,
      )

  IsSortOf-IsPass :
      (files temps : List (Option (List ℕ))) (bytes : List ℕ)
      → IsPass files temps
      → IsSortOf temps bytes
      → IsSortOf files bytes
  IsSortOf-IsPass files temps bytes pass sort = record {
    sorted = sort.sorted;
    same = λ p. sort.same p ∙ pass.same p;
    written = sort.written;
  }

  -- If all outputs can be created and the files hold sorted pairs that can be written as lines,
  -- then with more fuel than there are files the sort ends, and its output holds the pairs of all
  -- files, each as often, in the order of keys.
  pub external_sort_sorts :
      (fuel : ℕ) (created : ℕ → ℕ → Bool) (files : List (Option (List ℕ)))
      → ((d i : ℕ) → created d i ≡ true)
      → All IsSortedFile files
      → length files < fuel
      → (bytes : List ℕ) × (external_sort heap fuel created files ≡ some bytes)
        × IsSortOf files bytes
  unfolding external_sort external_sort_batch
  external_sort_sorts zero created files all ok h = absurd (omega arith)
  external_sort_sorts (suc fuel) created files all ok h =
      elim (Bool-cases (leb (length files) batch_size)) [
        | inl e ↦ (
          write_pairs (merged heap files),
          rw (e, all fuel 0, external_sort) refl,
          merged-IsSortOf heap files ok,
        )
        | inr e ↦
            let (temps, batches, pass) =
              sort_batches-IsPass (length files) 0 (created fuel) files (all fuel) (omega arith)
                ok in
            let small : length temps < fuel = ground (arith, pass.fewer, e) in
            let (bytes, rest, sort) =
              external_sort_sorts fuel created temps all pass.sorted small in
            (
              bytes,
              rw (e, batches, external_sort) rest,
              IsSortOf-IsPass files temps bytes pass sort,
            )
      ]
