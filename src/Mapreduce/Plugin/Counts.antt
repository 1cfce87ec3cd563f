-- ===== src/Mapreduce/Plugin/Counts.antt =====
-- The values and keys among pairs, by number: what the counting plugins of mapreduce/plugin/ add up.
use dfs_mapreduce.Base.{
  ℕ, ◌≡◌, refl, ap, ◌∙◌, Bool, false, List, [], ◌∷◌, keep, length, min, All, arith, total,
  Bool-cases, inl, inr, if◌then◌else◌,
}
use dfs_mapreduce.Mapreduce.Util.{KeyValue}
use dfs_mapreduce.Mapreduce.Util.Keys.{bytes_equal, bytes_equal_iff, count}
use dfs_mapreduce.Mapreduce.Worker.ReduceTask.Groups.{values_of, other, distinct_keys}

abbrev pub has_key : List ℕ → KeyValue → Bool
has_key k kv = bytes_equal kv.key k

-- How often a key stands in a list.
abbrev pub occurs : List ℕ → List (List ℕ) → ℕ
occurs k ks = total (λ j. if bytes_equal j k then 1 else 0) ks

pub length-values_of :
    (k : List ℕ) (kvs : List KeyValue) → length (values_of k kvs) ≡ count (has_key k) kvs
length-values_of k [] = refl
length-values_of k (kv ∷ kvs) = ground (arith, length-values_of k kvs)

occurs-keep-same : (k : List ℕ) (ks : List (List ℕ)) → occurs k (keep (other k) ks) ≡ 0
occurs-keep-same k [] = refl
occurs-keep-same k (j ∷ ks) = ground (arith, occurs-keep-same k ks)

occurs-keep :
    (j k : List ℕ) (ks : List (List ℕ))
    → bytes_equal j k ≡ false
    → occurs k (keep (other j) ks) ≡ occurs k ks
occurs-keep j k [] h = refl
occurs-keep j k (i ∷ ks) h = elim (Bool-cases (bytes_equal i j)) [
  | inl e ↦
      let same : i ≡ j = (bytes_equal_iff i j).0 e in
      let apart : bytes_equal i k ≡ false = ap (λ x. bytes_equal x k) same ∙ h in
      rw (e, apart) (occurs-keep j k ks h ∙ omega arith)
  | inr e ↦ rw e (omega (arith, occurs-keep j k ks h))
]

-- Each key that some pair has stands once in the list of keys, and no other key does.
pub occurs-distinct_keys :
    (k : List ℕ) (kvs : List KeyValue)
    → occurs k (distinct_keys kvs) ≡ min 1 (count (has_key k) kvs)
occurs-distinct_keys k [] = omega arith
occurs-distinct_keys k (kv ∷ kvs) = elim (Bool-cases (bytes_equal kv.key k)) [
  | inl e ↦
      let same : kv.key ≡ k = (bytes_equal_iff kv.key k).0 e in
      let nothing : occurs k (keep (other kv.key) (distinct_keys kvs)) ≡ 0 =
        ap (λ j. occurs k (keep (other j) (distinct_keys kvs))) same
        ∙ occurs-keep-same k (distinct_keys kvs) in
      rw e (omega (arith, nothing))
  | inr e ↦
      rw e (omega (arith, occurs-keep kv.key k (distinct_keys kvs) e, occurs-distinct_keys k kvs))
]

pub All-keep {ℓ} :
    {A : Type ℓ} (P : A → Type 0) (q : A → Bool) (xs : List A) → All P xs → All P (keep q xs)
All-keep P q [] h = tt
All-keep P q (x ∷ xs) h = elim (Bool-cases (q x)) [
  | inl e ↦ rw e (h.0, All-keep P q xs h.1)
  | inr e ↦ rw e (All-keep P q xs h.1)
]

-- What holds of the pairs' keys holds of the list of keys.
pub All-distinct_keys :
    (P : List ℕ → Type 0) (kvs : List KeyValue)
    → All (λ kv. P kv.key) kvs
    → All P (distinct_keys kvs)
All-distinct_keys P [] h = tt
All-distinct_keys P (kv ∷ kvs) h =
    (h.0, All-keep P (other kv.key) (distinct_keys kvs) (All-distinct_keys P kvs h.1))

pub All-values_of :
    (P : List ℕ → Type 0) (k : List ℕ) (kvs : List KeyValue)
    → All (λ kv. P kv.value) kvs
    → All P (values_of k kvs)
All-values_of P k [] h = tt
All-values_of P k (kv ∷ kvs) h = elim (Bool-cases (bytes_equal kv.key k)) [
  | inl e ↦ rw e (h.0, All-values_of P k kvs h.1)
  | inr e ↦ rw e (All-values_of P k kvs h.1)
]

pub count-zero {ℓ} :
    {A : Type ℓ} (p : A → Bool) (xs : List A) → count p xs ≡ 0 → All (λ x. p x ≡ false) xs
count-zero p [] h = tt
count-zero p (x ∷ xs) h = elim (Bool-cases (p x)) [
  | inl e ↦ absurd (ground arith)
  | inr e ↦ (e, count-zero p xs (ground arith))
]
