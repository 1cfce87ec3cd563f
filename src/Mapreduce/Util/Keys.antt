-- ===== src/Mapreduce/Util/Keys.antt =====
-- The order of keys in mapreduce/util/sort.go and mapreduce/worker/worker.go: bytes.Compare.
use dfs_mapreduce.Base.{
  ℕ, ◌≡◌, ◌+◌, Bool, true, false, List, [], ◌∷◌, ltb, All, arith, ◌==◌, if◌then◌else◌, ◌&&◌, ◌++◌,
  refl, ◌↔◌,
}
use dfs_mapreduce.Mapreduce.Util.{KeyValue}

-- bytes.Compare(a, b) < 0
unfoldable pub bytes_less : List ℕ → List ℕ → Bool
bytes_less a [] = false
bytes_less [] (y ∷ b) = true
bytes_less (x ∷ a) (y ∷ b) = if ltb x y then true else if ltb y x then false else bytes_less a b

-- bytes.Equal(a, b)
unfoldable pub bytes_equal : List ℕ → List ℕ → Bool
bytes_equal [] [] = true
bytes_equal [] (y ∷ b) = false
bytes_equal (x ∷ a) [] = false
bytes_equal (x ∷ a) (y ∷ b) = x == y && bytes_equal a b

pub bytes_equal_iff : (a b : List ℕ) → (bytes_equal a b ≡ true) ↔ (a ≡ b)
unfolding bytes_equal
bytes_equal_iff [] [] = ground arith
bytes_equal_iff [] (y ∷ b) = ground arith
bytes_equal_iff (x ∷ a) [] = ground arith
bytes_equal_iff (x ∷ a) (y ∷ b) = ground (arith, bytes_equal_iff a b)

pub bytes_less_irrefl : (a : List ℕ) → bytes_less a a ≡ false
unfolding bytes_less
bytes_less_irrefl [] = refl
bytes_less_irrefl (x ∷ a) = ground (arith, bytes_less_irrefl a)

pub bytes_less_asym : (a b : List ℕ) → bytes_less a b ≡ true → bytes_less b a ≡ false
unfolding bytes_less
bytes_less_asym [] [] h = ground arith
bytes_less_asym [] (y ∷ b) h = refl
bytes_less_asym (x ∷ a) [] h = ground arith
bytes_less_asym (x ∷ a) (y ∷ b) h = ground (arith, bytes_less_asym a b)

-- a ≤ b and b ≤ c
pub bytes_le_trans :
    (a b c : List ℕ) → bytes_less b a ≡ false → bytes_less c b ≡ false → bytes_less c a ≡ false
unfolding bytes_less
bytes_le_trans [] b c h k = ground arith
bytes_le_trans (x ∷ a) [] c h k = ground arith
bytes_le_trans (x ∷ a) (y ∷ b) [] h k = ground arith
bytes_le_trans (x ∷ a) (y ∷ b) (z ∷ c) h k = ground (arith, bytes_le_trans a b c)

pub bytes_le_antisym : (a b : List ℕ) → bytes_less a b ≡ false → bytes_less b a ≡ false → a ≡ b
unfolding bytes_less
bytes_le_antisym [] [] h k = refl
bytes_le_antisym [] (y ∷ b) h k = ground arith
bytes_le_antisym (x ∷ a) [] h k = ground arith
bytes_le_antisym (x ∷ a) (y ∷ b) h k = ground (arith, bytes_le_antisym a b)

-- No pair has a smaller key.
abbrev pub IsBound : List ℕ → KeyValue → Type 0
IsBound k kv = bytes_less kv.key k ≡ false

abbrev pub IsSorted : List KeyValue → Type 0
IsSorted [] = Unit
IsSorted (kv ∷ kvs) = All (IsBound kv.key) kvs × IsSorted kvs

-- How many elements pass a test.
abbrev pub count {ℓ} : {A : Type ℓ} → (A → Bool) → List A → ℕ
count p [] = 0
count p (x ∷ xs) = (if p x then 1 else 0) + count p xs

pub count-append {ℓ} :
    {A : Type ℓ} (p : A → Bool) (xs ys : List A) → count p (xs ++ ys) ≡ count p xs + count p ys
count-append p [] ys = omega arith
count-append p (x ∷ xs) ys = ground (arith, count-append p xs ys)

pub All-IsBound_le :
    (j k : List ℕ) (kvs : List KeyValue)
    → bytes_less k j ≡ false
    → All (IsBound k) kvs
    → All (IsBound j) kvs
All-IsBound_le j k [] h a = tt
All-IsBound_le j k (kv ∷ kvs) h a = (bytes_le_trans j k kv.key h a.0, All-IsBound_le j k kvs h a.1)
