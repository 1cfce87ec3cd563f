-- ===== src/Mapreduce/Worker/Spill/Partition.antt =====
-- The partitions of spill in mapreduce/worker/worker.go, by the hash of the key.
use dfs_mapreduce.Base.{
  ℕ, zero, suc, ◌%◌, ◌<◌, ◌≡◌, refl, sym, ap, ◌∙◌, Bool, true, false, some, List, [], ◌∷◌, ◌++◌,
  keep, map, arith, get_elem?, append_assoc, append-nil, ◌==◌, if◌then◌else◌,
}
use mathlib.Core.Option
use dfs_mapreduce.Mapreduce.Util.{KeyValue}
use dfs_mapreduce.Mapreduce.Worker.{ihash}
use dfs_mapreduce.Mapreduce.Worker.Spill.{empty_parts, add_at, partition}

-- Whether a pair goes to the r-th of n reducers.
abbrev pub goes_to : ℕ → ℕ → KeyValue → Bool
goes_to n r kv = (ihash kv.key % n) == r

get_elem?-empty_parts : (n r : ℕ) → r < n → get_elem? (empty_parts n) r ≡ some []
get_elem?-empty_parts zero r h = absurd (omega arith)
get_elem?-empty_parts (suc n) zero h = refl
get_elem?-empty_parts (suc n) (suc r) h = get_elem?-empty_parts n r (omega arith)

get_elem?-add_at :
    (q r : ℕ) (kv : KeyValue) (parts : List (List KeyValue)) (p : List KeyValue)
    → get_elem? parts r ≡ some p
    → get_elem? (add_at q kv parts) r ≡ some (p ++ (if q == r then kv ∷ [] else []))
unfolding add_at
get_elem?-add_at q r kv [] p h = ground arith
get_elem?-add_at zero zero kv (part ∷ parts) p h = ground arith
get_elem?-add_at zero (suc r) kv (part ∷ parts) p h = ground (arith, append-nil p)
get_elem?-add_at (suc q) zero kv (part ∷ parts) p h = ground (arith, append-nil p)
get_elem?-add_at (suc q) (suc r) kv (part ∷ parts) p h =
    ground (arith, get_elem?-add_at q r kv parts p h)

append-if :
    (b : Bool) (kv : KeyValue) (p rest : List KeyValue)
    → (p ++ (if b then kv ∷ [] else [])) ++ rest ≡ p ++ (if b then kv ∷ rest else rest)
append-if true kv p rest = append_assoc p (kv ∷ []) rest
append-if false kv p rest = ap (λ t. t ++ rest) (append-nil p)

partition-get_elem? :
    (n : ℕ) (kvs : List KeyValue) (parts : List (List KeyValue))
    → 0 < n
    → (done : List (List KeyValue)) × (partition n kvs parts ≡ some done)
      × ((r : ℕ) (p : List KeyValue)
          → get_elem? parts r ≡ some p
          → get_elem? done r ≡ some (p ++ keep (goes_to n r) kvs))
unfolding partition
partition-get_elem? n [] parts h = (parts, refl, λ r p e. e ∙ ap some (sym (append-nil p)))
partition-get_elem? n (kv ∷ kvs) parts h =
    let nonzero : (n == 0) ≡ false = ground arith in
    let next = add_at (ihash kv.key % n) kv parts in
    let (done, e, all) = partition-get_elem? n kvs next h in
    (
      done,
      rw (nonzero, partition) e,
      λ r p g.
          all r (p ++ (if goes_to n r kv then kv ∷ [] else []))
            (get_elem?-add_at (ihash kv.key % n) r kv parts p g)
          ∙ ap some (append-if (goes_to n r kv) kv p (keep (goes_to n r) kvs)),
    )

-- With a reducer at all nothing is divided by zero, and each partition has its pairs in their order.
pub partition_lem :
    (n r : ℕ) (kvs : List KeyValue)
    → r < n
    → (parts : List (List KeyValue)) × (partition n kvs (empty_parts n) ≡ some parts)
      × (get_elem? parts r ≡ some (keep (goes_to n r) kvs))
partition_lem n r kvs h =
    let (parts, e, all) = partition-get_elem? n kvs (empty_parts n) (omega arith) in
    (parts, e, all r [] (get_elem?-empty_parts n r h))

pub get_elem?-map {ℓ κ} :
    {A : Type ℓ} {B : Type κ} (f : A → B) (xs : List A) (i : ℕ) (x : A)
    → get_elem? xs i ≡ some x
    → get_elem? (map f xs) i ≡ some (f x)
get_elem?-map f [] i x h = ground arith
get_elem?-map f (y ∷ xs) zero x h = ap (Option.map f) h
get_elem?-map f (y ∷ xs) (suc i) x h = get_elem?-map f xs i x h
