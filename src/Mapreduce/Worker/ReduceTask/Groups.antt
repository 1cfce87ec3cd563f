-- ===== src/Mapreduce/Worker/ReduceTask/Groups.antt =====
-- The grouping of shuffle in mapreduce/worker/worker.go, beside a description that does not depend on order.
use dfs_mapreduce.Base.{
  ℕ, ◌≡◌, refl, sym, ap, ◌∙◌, subst, Bool, true, false, not, none, some, List, [], ◌∷◌, ◌++◌, map,
  keep, All, arith, Bool-cases, inl, inr, append_assoc, append-nil, if◌then◌else◌,
}
use dfs_mapreduce.Mapreduce.Util.{KeyValue}
use dfs_mapreduce.Mapreduce.Util.Keys.{
  bytes_less, bytes_equal, bytes_equal_iff, bytes_le_antisym, IsBound, IsSorted,
}
use dfs_mapreduce.Mapreduce.Worker.ReduceTask.{Group, collect}

-- The values of a key, in the order of the pairs.
abbrev pub values_of : List ℕ → List KeyValue → List (List ℕ)
values_of k [] = []
values_of k (kv ∷ kvs) =
    let rest = values_of k kvs in if bytes_equal kv.key k then kv.value ∷ rest else rest

abbrev pub other : List ℕ → List ℕ → Bool
other k j = not (bytes_equal j k)

-- The keys, each where it occurs first.
abbrev pub distinct_keys : List KeyValue → List (List ℕ)
distinct_keys [] = []
distinct_keys (kv ∷ kvs) = kv.key ∷ keep (other kv.key) (distinct_keys kvs)

abbrev group_of : List KeyValue → List ℕ → Group
group_of kvs k = record { key = k; values = values_of k kvs }

-- One group for each key, with all its values.
abbrev pub groups : List KeyValue → List Group
groups kvs = map (group_of kvs) (distinct_keys kvs)

Absent : List ℕ → List KeyValue → Type 0
Absent k kvs = All (λ kv. bytes_equal kv.key k ≡ false) kvs

bytes_equal_sym : (a b : List ℕ) → bytes_equal a b ≡ bytes_equal b a
unfolding bytes_equal
bytes_equal_sym [] [] = refl
bytes_equal_sym [] (y ∷ b) = refl
bytes_equal_sym (x ∷ a) [] = refl
bytes_equal_sym (x ∷ a) (y ∷ b) = ground (arith, bytes_equal_sym a b)

keep_comm {ℓ} :
    {A : Type ℓ} (p q : A → Bool) (xs : List A) → keep p (keep q xs) ≡ keep q (keep p xs)
keep_comm p q [] = refl
keep_comm p q (x ∷ xs) = elim (Bool-cases (p x)) [
  | inl e ↦ elim (Bool-cases (q x)) [
    | inl f ↦ rw (e, f, e) (ap (◌∷◌ x) (keep_comm p q xs))
    | inr f ↦ rw (e, f) (keep_comm p q xs)
  ]
  | inr e ↦ elim (Bool-cases (q x)) [
    | inl f ↦ rw (e, f, e) (keep_comm p q xs)
    | inr f ↦ rw (e, f) (keep_comm p q xs)
  ]
]

keep_twice {ℓ} : {A : Type ℓ} (p : A → Bool) (xs : List A) → keep p (keep p xs) ≡ keep p xs
keep_twice p [] = refl
keep_twice p (x ∷ xs) = elim (Bool-cases (p x)) [
  | inl e ↦ rw (e, e) (ap (◌∷◌ x) (keep_twice p xs))
  | inr e ↦ rw e (keep_twice p xs)
]

values_of-Absent : (k : List ℕ) (kvs : List KeyValue) → Absent k kvs → values_of k kvs ≡ []
unfolding Absent
values_of-Absent k [] h = refl
values_of-Absent k (kv ∷ kvs) h = rw h.0 (values_of-Absent k kvs h.1)

keep-Absent :
    (k : List ℕ) (kvs : List KeyValue)
    → Absent k kvs
    → keep (other k) (distinct_keys kvs) ≡ distinct_keys kvs
unfolding Absent
keep-Absent k [] h = refl
keep-Absent k (kv ∷ kvs) h = rw h.0 (
    ap (◌∷◌ kv.key) (
      keep_comm (other k) (other kv.key) (distinct_keys kvs)
      ∙ ap (keep (other kv.key)) (keep-Absent k kvs h.1)))

-- A pair changes the groups of no other key.
map-keep :
    (kv : KeyValue) (kvs : List KeyValue) (ks : List (List ℕ))
    → map (group_of (kv ∷ kvs)) (keep (other kv.key) ks)
      ≡ map (group_of kvs) (keep (other kv.key) ks)
map-keep kv kvs [] = refl
map-keep kv kvs (k ∷ ks) = elim (Bool-cases (bytes_equal k kv.key)) [
  | inl e ↦ rw e (map-keep kv kvs ks)
  | inr e ↦ rw (e, bytes_equal_sym kv.key k, e) (ap (◌∷◌ (group_of kvs k)) (map-keep kv kvs ks))
]

bytes_equal-bound :
    (j k l : List ℕ) → bytes_less j l ≡ false → bytes_less k l ≡ true → bytes_equal j k ≡ false
bytes_equal-bound j k l h g = elim (Bool-cases (bytes_equal j k)) [
  | inl e ↦
      let same : j ≡ k = (bytes_equal_iff j k).0 e in
      absurd (grind (arith, h, g, ap (λ i. bytes_less i l) same))
  | inr e ↦ e
]

Absent-bound :
    (k l : List ℕ) (kvs : List KeyValue)
    → bytes_less k l ≡ true
    → All (IsBound l) kvs
    → Absent k kvs
unfolding Absent
Absent-bound k l [] g h = tt
Absent-bound k l (kv ∷ kvs) g h = (bytes_equal-bound kv.key k l h.0 g, Absent-bound k l kvs g h.1)

bytes_less-next :
    (j k : List ℕ) → bytes_less j k ≡ false → bytes_equal j k ≡ false → bytes_less k j ≡ true
bytes_less-next j k h g = elim (Bool-cases (bytes_less k j)) [
  | inl e ↦ e
  | inr e ↦
      let same : bytes_equal j k ≡ true = (bytes_equal_iff j k).1 (bytes_le_antisym j k h e) in
      absurd (grind (arith, g, same))
]

bytes_equal_refl : (k : List ℕ) → bytes_equal k k ≡ true
bytes_equal_refl k = (bytes_equal_iff k k).1 refl

Collects : List ℕ → List (List ℕ) → List KeyValue → Type 0
Collects k vs kvs =
    collect (some k) vs kvs
    ≡ record { key = k; values = vs ++ values_of k kvs }
      ∷ map (group_of kvs) (keep (other k) (distinct_keys kvs))

collect-same :
    (vs : List (List ℕ)) (kv : KeyValue) (kvs : List KeyValue)
    → Collects kv.key (vs ++ kv.value ∷ []) kvs
    → Collects kv.key vs (kv ∷ kvs)
unfolding Collects collect
collect-same vs kv kvs rest =
    let more = keep (other kv.key) (distinct_keys kvs) in
    let tail : map (group_of kvs) more ≡ map (group_of (kv ∷ kvs)) (keep (other kv.key) more) =
      sym (map-keep kv kvs (distinct_keys kvs))
      ∙ ap (map (group_of (kv ∷ kvs))) (sym (keep_twice (other kv.key) (distinct_keys kvs))) in
    let own : Group = record { key = kv.key; values = vs ++ kv.value ∷ values_of kv.key kvs } in
    rw (bytes_equal_refl kv.key, collect)
      (rest
        ∙ ap (λ l. record { key = kv.key; values = l } ∷ map (group_of kvs) more)
            (append_assoc vs (kv.value ∷ []) (values_of kv.key kvs))
        ∙ ap (◌∷◌ own) tail)

collect-next :
    (k : List ℕ) (vs : List (List ℕ)) (kv : KeyValue) (kvs : List KeyValue)
    → bytes_equal kv.key k ≡ false
    → Absent k kvs
    → Collects kv.key (kv.value ∷ []) kvs
    → Collects k vs (kv ∷ kvs)
unfolding Collects collect
collect-next k vs kv kvs e a rest =
    let ds = distinct_keys kvs in
    let none_left : vs ≡ vs ++ values_of k kvs =
      sym (ap (λ l. vs ++ l) (values_of-Absent k kvs a) ∙ append-nil vs) in
    let tail : map (group_of kvs) (keep (other kv.key) ds)
        ≡ map (group_of (kv ∷ kvs)) (keep (other k) (keep (other kv.key) ds)) =
      sym (
        ap (map (group_of (kv ∷ kvs)))
          (keep_comm (other k) (other kv.key) ds ∙ ap (keep (other kv.key)) (keep-Absent k kvs a))
        ∙ map-keep kv kvs ds) in
    let own : Group = record { key = kv.key; values = kv.value ∷ values_of kv.key kvs } in
    let all : collect (some kv.key) (kv.value ∷ []) kvs
        ≡ own ∷ map (group_of (kv ∷ kvs)) (keep (other k) (keep (other kv.key) ds)) =
      rest ∙ ap (◌∷◌ own) tail in
    rw (e, bytes_equal_refl kv.key, collect)
      (ap (λ l. record { key = k; values = l } ∷ collect (some kv.key) (kv.value ∷ []) kvs)
          none_left
        ∙ ap (◌∷◌ (record { key = k; values = vs ++ values_of k kvs })) all)

collect-some :
    (k : List ℕ) (vs : List (List ℕ)) (kvs : List KeyValue)
    → All (IsBound k) kvs
    → IsSorted kvs
    → Collects k vs kvs
unfolding Collects collect
collect-some k vs [] h s = ap (λ l. record { key = k; values = l } ∷ []) (sym (append-nil vs))
collect-some k vs (kv ∷ kvs) h s = elim (Bool-cases (bytes_equal kv.key k)) [
  | inl e ↦
      subst (λ j. Collects j vs (kv ∷ kvs)) ((bytes_equal_iff kv.key k).0 e)
        (collect-same vs kv kvs (collect-some kv.key (vs ++ kv.value ∷ []) kvs s.0 s.1))
  | inr e ↦
      collect-next k vs kv kvs e (Absent-bound k kv.key kvs (bytes_less-next kv.key k h.0 e) s.0)
        (collect-some kv.key (kv.value ∷ []) kvs s.0 s.1)
]

-- On pairs in the order of keys, the loop of shuffle gives what looking up each key gives: one
-- group for each key, with all its values in their order.
pub collect-groups : (kvs : List KeyValue) → IsSorted kvs → collect none [] kvs ≡ groups kvs
unfolding collect Collects
collect-groups [] s = refl
collect-groups (kv ∷ kvs) s =
    let own : Group = record { key = kv.key; values = kv.value ∷ values_of kv.key kvs } in
    rw (bytes_equal_refl kv.key) (
      collect-some kv.key (kv.value ∷ []) kvs s.0 s.1
      ∙ ap (◌∷◌ own) (sym (map-keep kv kvs (distinct_keys kvs))))
