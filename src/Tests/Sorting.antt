-- ===== src/Tests/Sorting.antt =====
-- A priority queue and a sort that keep the promises of container/heap and sort.Slice, and runs of the external
-- sort of mapreduce/util/sort.go on them.
use dfs_mapreduce.Base.{
  some_inj, ℕ, ◌≢◌, not, ◌&&◌, ◌==◌, ltb, ltb→lt, drop_cr, ◌≡◌, refl, Bool, true, false, Option,
  none, some, List, [], ◌∷◌, All, arith, Bool-cases, inl, inr, Permᴰ-refl, subst, Permᴰ-All,
  Permᴰ-sym, length, scan_lines,
}
use mathlib.Core.List.{Permᴰ}
use dfs_mapreduce.Mapreduce.Util.{KeyValue}
use dfs_mapreduce.Mapreduce.Util.Keys.{
  bytes_less, bytes_less_irrefl, bytes_less_asym, bytes_le_trans, IsBound, IsSorted, All-IsBound_le,
}
use dfs_mapreduce.Mapreduce.Util.Sort.{
  max_token_size, split_tab, KvScanner, ScannerHeap, external_sort,
}
use dfs_mapreduce.Mapreduce.Util.Sort.Files.{line_of, IsPair, IsSortedFile, IsSortOf}
use dfs_mapreduce.Mapreduce.Util.Sort.External.{external_sort_sorts}
use dfs_mapreduce.Mapreduce.Worker.Spill.{KeySort}

abbrev pub key_of : KvScanner → List ℕ
key_of s = s.current.key

-- The least of the scanners, and the others.
unfoldable pub least : KvScanner → List KvScanner → KvScanner × List KvScanner
least s [] = (s, [])
least s (t ∷ ts) = elim (bytes_less (key_of t) (key_of s)) [
  | true ↦ let r = least t ts in (r.0, s ∷ r.1)
  | false ↦ let r = least s ts in (r.0, t ∷ r.1)
]

least-perm :
    (s : KvScanner) (ts : List KvScanner) → Permᴰ ((least s ts).0 ∷ (least s ts).1) (s ∷ ts)
unfolding least
least-perm s [] = Permᴰ-refl (s ∷ [])
least-perm s (t ∷ ts) = elim (Bool-cases (bytes_less (key_of t) (key_of s))) [
  | inl e ↦ rw (e, least) (Permᴰ.trans (Permᴰ.swap refl refl) (Permᴰ.cons refl (least-perm t ts)))
  | inr e ↦
      rw (e, least)
        (Permᴰ.trans (Permᴰ.swap refl refl)
          (Permᴰ.trans (Permᴰ.cons refl (least-perm s ts)) (Permᴰ.swap refl refl)))
]

least_le :
    (s : KvScanner) (ts : List KvScanner) → bytes_less (key_of s) (key_of (least s ts).0) ≡ false
unfolding least
least_le s [] = bytes_less_irrefl (key_of s)
least_le s (t ∷ ts) = elim (Bool-cases (bytes_less (key_of t) (key_of s))) [
  | inl e ↦
      rw (e, least)
        (bytes_le_trans (key_of (least t ts).0) (key_of t) (key_of s) (least_le t ts)
          (bytes_less_asym (key_of t) (key_of s) e))
  | inr e ↦ rw (e, least) (least_le s ts)
]

least-All :
    (s : KvScanner) (ts : List KvScanner)
    → All (λ t. bytes_less (key_of t) (key_of (least s ts).0) ≡ false) (least s ts).1
unfolding least
least-All s [] = tt
least-All s (t ∷ ts) = elim (Bool-cases (bytes_less (key_of t) (key_of s))) [
  | inl e ↦
      rw (e, least)
        (
          bytes_le_trans (key_of (least t ts).0) (key_of t) (key_of s) (least_le t ts)
              (bytes_less_asym (key_of t) (key_of s) e),
          least-All t ts,
        )
  | inr e ↦
      rw (e, least)
        (
          bytes_le_trans (key_of (least s ts).0) (key_of s) (key_of t) (least_le s ts) e,
          least-All s ts,
        )
]

unfoldable pub pop_list : List KvScanner → Option (KvScanner × List KvScanner)
unfolding least
pop_list [] = none
pop_list (s ∷ ts) = some (least s ts)

pub pop_list-none : (h : List KvScanner) → pop_list h ≡ none → h ≡ []
unfolding pop_list
pop_list-none [] e = refl
pop_list-none (s ∷ ts) e = ground arith

pub pop_list-items :
    (h : List KvScanner) (s : KvScanner) (rest : List KvScanner)
    → pop_list h ≡ some (s, rest)
    → Permᴰ (s ∷ rest) h
unfolding pop_list
pop_list-items [] s rest e = ground arith
pop_list-items (t ∷ ts) s rest e =
    subst (λ r. Permᴰ (r.0 ∷ r.1) (t ∷ ts)) (some_inj e) (least-perm t ts)

pub pop_list-least :
    (h : List KvScanner) (s : KvScanner) (rest : List KvScanner)
    → pop_list h ≡ some (s, rest)
    → All (λ t. bytes_less (key_of t) (key_of s) ≡ false) rest
unfolding pop_list
pop_list-least [] s rest e = ground arith
pop_list-least (t ∷ ts) s rest e =
    subst (λ r. All (λ u. bytes_less (key_of u) (key_of r.0) ≡ false) r.1) (some_inj e)
      (least-All t ts)

abbrev pub list_heap : ScannerHeap
list_heap = record {
  Heap = List KvScanner;
  init = [];
  push = λ s h. s ∷ h;
  pop = pop_list;
  items = λ h. h;
  init_items = refl;
  push_items = λ s h. Permᴰ-refl (s ∷ h);
  pop_none = pop_list-none;
  pop_items = pop_list-items;
  pop_least = pop_list-least;
}

unfoldable pub insert : KeyValue → List KeyValue → List KeyValue
insert kv [] = kv ∷ []
insert kv (x ∷ xs) = elim (bytes_less x.key kv.key) [
  | true ↦ x ∷ insert kv xs
  | false ↦ kv ∷ x ∷ xs
]

unfoldable pub sort_pairs : List KeyValue → List KeyValue
unfolding insert
sort_pairs [] = []
sort_pairs (x ∷ xs) = insert x (sort_pairs xs)

insert-perm : (kv : KeyValue) (xs : List KeyValue) → Permᴰ (insert kv xs) (kv ∷ xs)
unfolding insert
insert-perm kv [] = Permᴰ-refl (kv ∷ [])
insert-perm kv (x ∷ xs) = elim (Bool-cases (bytes_less x.key kv.key)) [
  | inl e ↦
      rw (e, insert) (Permᴰ.trans (Permᴰ.cons refl (insert-perm kv xs)) (Permᴰ.swap refl refl))
  | inr e ↦ rw (e, insert) (Permᴰ-refl (kv ∷ x ∷ xs))
]

insert-IsSorted : (kv : KeyValue) (xs : List KeyValue) → IsSorted xs → IsSorted (insert kv xs)
unfolding insert
insert-IsSorted kv [] s = (tt, tt)
insert-IsSorted kv (x ∷ xs) s = elim (Bool-cases (bytes_less x.key kv.key)) [
  | inl e ↦
      rw (e, insert)
        (
          Permᴰ-All (IsBound x.key) (Permᴰ-sym (insert-perm kv xs))
              (bytes_less_asym x.key kv.key e, s.0),
          insert-IsSorted kv xs s.1,
        )
  | inr e ↦ rw (e, insert) ((e, All-IsBound_le kv.key x.key xs e s.0), s)
]

pub sort_pairs-perm : (xs : List KeyValue) → Permᴰ (sort_pairs xs) xs
unfolding sort_pairs
sort_pairs-perm [] = Permᴰ-refl []
sort_pairs-perm (x ∷ xs) =
    Permᴰ.trans (insert-perm x (sort_pairs xs)) (Permᴰ.cons refl (sort_pairs-perm xs))

pub sort_pairs-IsSorted : (xs : List KeyValue) → IsSorted (sort_pairs xs)
unfolding sort_pairs
sort_pairs-IsSorted [] = tt
sort_pairs-IsSorted (x ∷ xs) = insert-IsSorted x (sort_pairs xs) (sort_pairs-IsSorted xs)

abbrev pub insertion_sort : KeySort
insertion_sort = record {
  sort = sort_pairs;
  sort_items = sort_pairs-perm;
  sort_sorted = sort_pairs-IsSorted;
}

differs : (c b : ℕ) → (c == b) ≡ false → c ≢ b
differs c b e = ground arith

abbrev avoids : ℕ → List ℕ → Bool
avoids b [] = true
avoids b (c ∷ cs) = not (c == b) && avoids b cs

avoids-All : (b : ℕ) (cs : List ℕ) → avoids b cs ≡ true → All (λ c. c ≢ b) cs
avoids-All b [] h = tt
avoids-All b (c ∷ cs) h = elim (Bool-cases (c == b)) [
  | inl e ↦ absurd (ground (arith, h, e))
  | inr e ↦ (differs c b e, avoids-All b cs (rw e at h))
]

-- A pair that passes the tests on its bytes.
pub pair_lem :
    (kv : KeyValue)
    → avoids 9 kv.key ≡ true
    → avoids 10 (line_of kv) ≡ true
    → drop_cr (line_of kv) ≡ line_of kv
    → ltb (length (line_of kv)) max_token_size ≡ true
    → IsPair kv
pair_lem kv tab newline cr size = record {
  no_tab = avoids-All 9 kv.key tab;
  line = record {
    no_newline = avoids-All 10 (line_of kv) newline;
    no_cr = cr;
    fits = ltb→lt _ _ size;
  };
}

abbrev two_files : List (Option (List ℕ))
two_files = some (98 ∷ 9 ∷ 49 ∷ 10 ∷ []) ∷ some (97 ∷ 9 ∷ 50 ∷ 10 ∷ 98 ∷ 9 ∷ 51 ∷ 10 ∷ []) ∷ []

abbrev pub a2 : KeyValue
a2 = record { key = 97 ∷ []; value = 50 ∷ [] }

abbrev pub b1 : KeyValue
b1 = record { key = 98 ∷ []; value = 49 ∷ [] }

abbrev pub b3 : KeyValue
b3 = record { key = 98 ∷ []; value = 51 ∷ [] }

pub a2-IsPair : IsPair a2
unfolding drop_cr
a2-IsPair = pair_lem a2 refl refl refl refl

pub b1-IsPair : IsPair b1
unfolding drop_cr
b1-IsPair = pair_lem b1 refl refl refl refl

pub b3-IsPair : IsPair b3
unfolding drop_cr
b3-IsPair = pair_lem b3 refl refl refl refl

two_files-IsSortedFile : All IsSortedFile two_files
unfolding scan_lines split_tab bytes_less
two_files-IsSortedFile =
    (((tt, tt), (b1-IsPair, tt)), ((((refl, tt), (tt, tt)), (a2-IsPair, (b3-IsPair, tt))), tt))

external_sort_sorts_example :
    (bytes : List ℕ) × (external_sort list_heap 3 (λ d i. true) two_files ≡ some bytes)
    × IsSortOf two_files bytes
external_sort_sorts_example =
    external_sort_sorts list_heap 3 (λ d i. true) two_files (λ d i. refl) two_files-IsSortedFile
      (omega arith)

external_sort_run :
    external_sort list_heap 3 (λ d i. true) two_files
    ≡ some (97 ∷ 9 ∷ 50 ∷ 10 ∷ 98 ∷ 9 ∷ 51 ∷ 10 ∷ 98 ∷ 9 ∷ 49 ∷ 10 ∷ [])
unfolding external_sort pop_list scan_lines bytes_less
external_sort_run = refl
