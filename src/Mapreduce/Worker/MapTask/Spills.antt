-- ===== src/Mapreduce/Worker/MapTask/Spills.antt =====
-- What a spill of mapreduce/worker/worker.go holds for one reducer.
use dfs_mapreduce.Base.{
  ℕ, ◌+◌, ◌<◌, ◌≡◌, refl, sym, ap, ◌∙◌, subst, Bool, true, false, ◌&&◌, some, List, [], ◌∷◌, keep,
  map, All, arith, total, length, get_elem?, ltb, Bool-cases, inl, inr, Permᴰ-All, Permᴰ-total,
  Permᴰ-sym, if◌then◌else◌, scan_lines,
}
use dfs_mapreduce.Mapreduce.Util.{KeyValue}
use dfs_mapreduce.Mapreduce.Util.Keys.{IsSorted, count}
use dfs_mapreduce.Mapreduce.Util.Sort.{write_pairs}
use dfs_mapreduce.Mapreduce.Util.Sort.Files.{IsPair, pairs_of, pairs_of-write_pairs, file_pairs}
use dfs_mapreduce.Mapreduce.Worker.{Indexed, stored, find_section, write_parts, returned}
use dfs_mapreduce.Mapreduce.Worker.Spill.{KeySort, spill}
use dfs_mapreduce.Mapreduce.Worker.Spill.Layout.{
  find_section-write_parts, seek_section-find_section, length-zero,
}
use dfs_mapreduce.Mapreduce.Worker.Spill.Partition.{goes_to, partition_lem, get_elem?-map}
use dfs_mapreduce.Mapreduce.Worker.MapTask.{spill_section}

-- The section of a part that can be written is read back as that part.
pub file_pairs-spill_section :
    (r : ℕ) (parts : List (List KeyValue)) (kvs : List KeyValue)
    → get_elem? parts r ≡ some kvs
    → All IsPair kvs
    → file_pairs (spill_section r (stored (write_parts 0 0 parts))) ≡ kvs
unfolding spill_section scan_lines
file_pairs-spill_section r parts kvs g ok =
    let (s, f, b, n) = find_section-write_parts 0 r 0 [] parts kvs refl g in
    let found : find_section r (write_parts 0 0 parts).index ≡ some s =
      subst (λ j. find_section j (write_parts 0 0 parts).index ≡ some s) (omega arith) f in
    let sought = seek_section-find_section r 0 0 (write_parts 0 0 parts).index s found in
    elim (Bool-cases (ltb s.start s.stop)) [
      | inl e ↦ rw (sought, e, spill_section) (ap pairs_of b ∙ pairs_of-write_pairs kvs ok)
      | inr e ↦
          let empty : length (write_pairs kvs) ≡ 0 = ground (arith, n, e) in
          rw (sought, e, spill_section)
            (sym (ap pairs_of (length-zero (write_pairs kvs) empty)) ∙ pairs_of-write_pairs kvs ok)
    ]

abbrev pub both : (KeyValue → Bool) → (KeyValue → Bool) → KeyValue → Bool
both p q kv = p kv && q kv

count-if :
    (p : KeyValue → Bool) (b : Bool) (kv : KeyValue) (kvs : List KeyValue)
    → count p (if b then kv ∷ kvs else kvs) ≡ (if p kv && b then 1 else 0) + count p kvs
count-if p true kv kvs = ground arith
count-if p false kv kvs = ground arith

pub count-keep :
    (p q : KeyValue → Bool) (kvs : List KeyValue) → count p (keep q kvs) ≡ count (both p q) kvs
count-keep p q [] = refl
count-keep p q (kv ∷ kvs) =
    count-if p (q kv) kv (keep q kvs)
    ∙ ap (λ m. (if both p q kv then 1 else 0) + m) (count-keep p q kvs)

All-keep :
    (P : KeyValue → Type 0) (q : KeyValue → Bool) (kvs : List KeyValue)
    → All P kvs
    → All P (keep q kvs)
All-keep P q [] h = tt
All-keep P q (kv ∷ kvs) h = elim (Bool-cases (q kv)) [
  | inl e ↦ rw e (h.0, All-keep P q kvs h.1)
  | inr e ↦ rw e (All-keep P q kvs h.1)
]

count_total :
    (p : KeyValue → Bool) (kvs : List KeyValue)
    → count p kvs ≡ total (λ kv. if p kv then 1 else 0) kvs
count_total p [] = refl
count_total p (kv ∷ kvs) = ap (λ m. (if p kv then 1 else 0) + m) (count_total p kvs)

-- A file holds the pairs of the list that go to the r-th of n reducers, each as often, in the order of keys.
pub record IsPartOf (n r : ℕ) (kvs : List KeyValue) (part : List KeyValue) : Type 0 where
  pub sorted : IsSorted part
  pub same : (p : KeyValue → Bool) → count p part ≡ count (both p (goes_to n r)) kvs
  pub written : All IsPair part

module _ (sorter : KeySort) (n r : ℕ) where
  sort-IsPartOf :
      (kvs : List KeyValue)
      → All IsPair kvs
      → IsPartOf n r kvs (sorter.sort (keep (goes_to n r) kvs))
  sort-IsPartOf kvs ok =
      let own = keep (goes_to n r) kvs in
      let perm = sorter.sort_items own in
      record {
        sorted = sorter.sort_sorted own;
        same = λ p.
            count_total p (sorter.sort own)
            ∙ Permᴰ-total (λ kv. if p kv then 1 else 0) perm
            ∙ sym (count_total p own)
            ∙ count-keep p (goes_to n r) kvs;
        written = Permᴰ-All IsPair (Permᴰ-sym perm) (All-keep IsPair (goes_to n r) kvs ok);
      }

  -- The reducer's section of a spill has the part of the buffer that goes to it.
  pub spill-IsPartOf :
      (buffer : List KeyValue)
      → r < n
      → All IsPair buffer
      → (x : Indexed) × (spill sorter n true true buffer ≡ returned x)
        × IsPartOf n r buffer (file_pairs (spill_section r (stored x)))
  unfolding spill
  spill-IsPartOf buffer h ok =
      let (parts, e, g) = partition_lem n r buffer h in
      let sorted = map sorter.sort parts in
      let part = sort-IsPartOf buffer ok in
      let back =
        file_pairs-spill_section r sorted (sorter.sort (keep (goes_to n r) buffer))
          (get_elem?-map sorter.sort parts r (keep (goes_to n r) buffer) g) part.written in
      (write_parts 0 0 sorted, rw (e, spill) refl, subst (IsPartOf n r buffer) (sym back) part)
