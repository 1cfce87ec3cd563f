-- ===== src/Mapreduce/Plugin/Groups.antt =====
-- The groups of pairs whose values are "1", as the counting plugins of mapreduce/plugin/ emit them: when shuffle of
-- mapreduce/worker/worker.go can write them.
use dfs_mapreduce.Base.{
  ℕ, ◌+◌, ◌*◌, ◌<◌, ◌≡◌, ◌≢◌, refl, sym, ap, ◌∙◌, subst, true, List, [], ◌∷◌, ◌++◌, length, map,
  All, All-append, All-map, arith, append_assoc, length-append, drop_cr, IsLine,
}
use dfs_mapreduce.Mapreduce.Util.{KeyValue}
use dfs_mapreduce.Mapreduce.Util.Keys.{count, bytes_equal, bytes_equal_iff}
use dfs_mapreduce.Mapreduce.Util.Sort.Files.{IsPair}
use dfs_mapreduce.Mapreduce.Worker.MapTask.{line_limit}
use dfs_mapreduce.Mapreduce.Worker.ReduceTask.{join_values}
use dfs_mapreduce.Mapreduce.Worker.ReduceTask.Groups.{values_of, distinct_keys, groups}
use dfs_mapreduce.Mapreduce.Worker.ReduceTask.Lines.{IsGroup}
use dfs_mapreduce.Mapreduce.Plugin.{one}
use dfs_mapreduce.Mapreduce.Plugin.Counts.{
  has_key, length-values_of, All-distinct_keys, All-values_of,
}

abbrev pub IsOne : List ℕ → Type 0
IsOne v = v ≡ one

drop_cr-last : (xs : List ℕ) → drop_cr (xs ++ 49 ∷ []) ≡ xs ++ 49 ∷ []
unfolding drop_cr
drop_cr-last [] = refl
drop_cr-last (x ∷ []) = refl
drop_cr-last (x ∷ y ∷ xs) = ap (◌∷◌ x) (drop_cr-last (y ∷ xs))

-- Ones that are joined by commas end with a digit.
record IsJoined (vs : List (List ℕ)) (front : List ℕ) : Type 0 where
  joined : join_values vs ≡ front ++ 49 ∷ []
  one_line : All (λ b. b ≢ 10) front
  size : length front + 2 ≡ 2 * length vs

ones-IsJoined :
    (vs : List (List ℕ)) → 0 < length vs → All IsOne vs → (front : List ℕ) × IsJoined vs front
unfolding join_values
ones-IsJoined [] n h = absurd (omega (arith, n))
ones-IsJoined (v ∷ []) n h = ([], record { joined = h.0; one_line = tt; size = refl })
ones-IsJoined (v ∷ w ∷ vs) n h =
    let (front, rest) = ones-IsJoined (w ∷ vs) (omega arith) h.1 in
    (
      49 ∷ 44 ∷ front,
      record {
        joined = ap (λ x. x ++ 44 ∷ join_values (w ∷ vs)) h.0 ∙ ap (λ t. 49 ∷ 44 ∷ t) rest.joined;
        one_line = (omega arith, (omega arith, rest.one_line));
        size = omega (arith, rest.size);
      },
    )

All-front {ℓ} :
    {A : Type ℓ} (P : A → Type 0) (front back : List A) → All P (front ++ back) → All P front
All-front P [] back h = tt
All-front P (x ∷ front) back h = (h.0, All-front P front back h.1)

-- A key of a pair that can be written.
record IsKey (k : List ℕ) : Type 0 where
  no_tab : All (λ b. b ≢ 9) k
  one_line : All (λ b. b ≢ 10) k

IsPair-IsKey : (kv : KeyValue) → IsPair kv → IsKey kv.key
IsPair-IsKey kv p = record {
  no_tab = p.no_tab;
  one_line = All-front (λ b. b ≢ 10) kv.key (9 ∷ kv.value) p.line.no_newline;
}

one-clean : (v : List ℕ) → IsOne v → All (λ b. b ≢ 44) v
one-clean v e = subst (All (λ b. b ≢ 44)) (sym e) (omega arith, tt)

ones-IsGroup :
    (k : List ℕ) (vs : List (List ℕ))
    → IsKey k
    → All IsOne vs
    → 0 < length vs
    → length k + 2 * length vs < line_limit
    → IsGroup (record { key = k; values = vs })
ones-IsGroup k vs key ones n small =
    let (front, j) = ones-IsJoined vs n ones in
    let line : k ++ 9 ∷ join_values vs ≡ (k ++ 9 ∷ front) ++ 49 ∷ [] =
      ap (λ t. k ++ 9 ∷ t) j.joined ∙ sym (append_assoc k (9 ∷ front) (49 ∷ [])) in
    let fits : length ((k ++ 9 ∷ front) ++ 49 ∷ []) < line_limit = omega (
      arith,
      length-append (k ++ 9 ∷ front) (49 ∷ []),
      length-append k (9 ∷ front),
      j.size,
      small,
    ) in
    let clean : All (λ b. b ≢ 10) ((k ++ 9 ∷ front) ++ 49 ∷ []) =
      All-append (λ b. b ≢ 10) (k ++ 9 ∷ front) (49 ∷ [])
        (All-append (λ b. b ≢ 10) k (9 ∷ front) key.one_line (omega arith, j.one_line))
        (omega arith, tt) in
    record {
      no_tab = key.no_tab;
      line =
          subst (IsLine line_limit) (sym line)
            (record { no_newline = clean; no_cr = drop_cr-last (k ++ 9 ∷ front); fits = fits });
      some_value = n;
      no_commas = All-map IsOne (All (λ b. b ≢ 44)) one-clean vs ones;
    }

-- Every pair has a key that is counted.
keys_counted : (kvs : List KeyValue) → All (λ kv. 0 < count (has_key kv.key) kvs) kvs
keys_counted [] = tt
keys_counted (kv ∷ kvs) =
    let later : All (λ x. 0 < count (has_key x.key) (kv ∷ kvs)) kvs =
      All-map (λ x. 0 < count (has_key x.key) kvs) (λ x. 0 < count (has_key x.key) (kv ∷ kvs))
        (λ x h. omega (arith, h)) kvs (keys_counted kvs) in
    let own : bytes_equal kv.key kv.key ≡ true = (bytes_equal_iff kv.key kv.key).1 refl in
    (rw own (omega arith), later)

abbrev pub Fits : List KeyValue → Type 0
Fits kvs =
    (k : List ℕ) → 0 < count (has_key k) kvs → length k + 2 * count (has_key k) kvs < line_limit

groups_of-IsGroup :
    (kvs : List KeyValue) (ks : List (List ℕ))
    → All (λ kv. IsOne kv.value) kvs
    → Fits kvs
    → All IsKey ks
    → All (λ k. 0 < count (has_key k) kvs) ks
    → All IsGroup (map (λ k. record { key = k; values = values_of k kvs }) ks)
groups_of-IsGroup kvs [] ones fit keys some = tt
groups_of-IsGroup kvs (k ∷ ks) ones fit keys some =
    let n = length-values_of k kvs in
    (
      ones-IsGroup k (values_of k kvs) keys.0 (All-values_of IsOne k kvs ones)
          (omega (arith, n, some.0)) (omega (arith, n, fit k some.0)),
      groups_of-IsGroup kvs ks ones fit keys.1 some.1,
    )

-- The groups of pairs that are written with the value "1" can be written, if their lines are short enough.
pub groups-IsGroup :
    (kvs : List KeyValue)
    → All IsPair kvs
    → All (λ kv. IsOne kv.value) kvs
    → Fits kvs
    → All IsGroup (groups kvs)
groups-IsGroup kvs pairs ones fit =
    groups_of-IsGroup kvs (distinct_keys kvs) ones fit
      (All-distinct_keys IsKey kvs (All-map IsPair (λ kv. IsKey kv.key) IsPair-IsKey kvs pairs))
      (All-distinct_keys (λ k. 0 < count (has_key k) kvs) kvs (keys_counted kvs))
