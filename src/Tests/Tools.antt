-- ===== src/Tests/Tools.antt =====
-- Runs of the programs of mapreduce/client/ on downloaded results, and of the load of mapreduce/util/sys_stats.go.
use mathlib.Core.List.{Permᴰ}
use dfs_mapreduce.Base.{
  ℕ, ◌-◌, ◌*◌, ◌/◌, ◌%◌, ◌^◌, ◌≤◌, ◌≡◌, refl, true, false, Option, none, some, List, [], ◌∷◌, ◌++◌,
  All, All-map, arith, length, map, keep, min, Bool-cases, inl, inr, Permᴰ-refl, Permᴰ-All,
  Permᴰ-sym, scan_lines, ltb, ◌==◌,
}
use dfs_mapreduce.Mapreduce.Util.Keys.{bytes_equal, count}
use dfs_mapreduce.Mapreduce.Client.Top.{
  Item, before, Texts, Sorting, Entry, directory, unreadable, file, line_item, lines_of, top,
}
use dfs_mapreduce.Mapreduce.Client.Top.Order.{IsOrdered, SortLaws, said, held, times, top_lem}
use dfs_mapreduce.Mapreduce.Client.Results.{has_prefix, run_for_results, run_for_results_lem}
use dfs_mapreduce.Mapreduce.Util.SysStats.{
  Numbers, cpu, get_cpu_stats, get_cpu_usage, get_cpu_usage_lem, add_fields,
}

unfoldable insert_item : Item → List Item → List Item
insert_item x [] = x ∷ []
insert_item x (y ∷ ys) = elim (before y x) [ true ↦ y ∷ insert_item x ys | false ↦ x ∷ y ∷ ys ]

unfoldable sort_items : List Item → List Item
unfolding insert_item
sort_items [] = []
sort_items (x ∷ xs) = insert_item x (sort_items xs)

insert_item-perm : (x : Item) (xs : List Item) → Permᴰ (insert_item x xs) (x ∷ xs)
unfolding insert_item
insert_item-perm x [] = Permᴰ-refl (x ∷ [])
insert_item-perm x (y ∷ ys) = elim (Bool-cases (before y x)) [
  | inl e ↦
      rw (e, insert_item)
        (Permᴰ.trans (Permᴰ.cons refl (insert_item-perm x ys)) (Permᴰ.swap refl refl))
  | inr e ↦ rw (e, insert_item) (Permᴰ-refl (x ∷ y ∷ ys))
]

before_trans : (x y z : Item) → before y x ≡ false → before z y ≡ false → before z x ≡ false
before_trans x y z h k = ground arith

before_asym : (x y : Item) → before y x ≡ true → before x y ≡ false
before_asym x y h = ground arith

insert_item-IsOrdered : (x : Item) (xs : List Item) → IsOrdered xs → IsOrdered (insert_item x xs)
unfolding insert_item
insert_item-IsOrdered x [] h = (tt, tt)
insert_item-IsOrdered x (y ∷ ys) h = elim (Bool-cases (before y x)) [
  | inl e ↦
      rw (e, insert_item)
        (
          Permᴰ-All (λ z. before z y ≡ false) (Permᴰ-sym (insert_item-perm x ys))
              (before_asym x y e, h.0),
          insert_item-IsOrdered x ys h.1,
        )
  | inr e ↦
      rw (e, insert_item)
        (
          (
            e,
            All-map (λ z. before z y ≡ false) (λ z. before z x ≡ false) (λ z. before_trans x y z e)
                ys h.0,
          ),
          h,
        )
]

sort_items-perm : (xs : List Item) → Permᴰ (sort_items xs) xs
unfolding sort_items
sort_items-perm [] = Permᴰ-refl []
sort_items-perm (x ∷ xs) =
    Permᴰ.trans (insert_item-perm x (sort_items xs)) (Permᴰ.cons refl (sort_items-perm xs))

sort_items-IsOrdered : (xs : List Item) → IsOrdered (sort_items xs)
unfolding sort_items
sort_items-IsOrdered [] = tt
sort_items-IsOrdered (x ∷ xs) = insert_item-IsOrdered x (sort_items xs) (sort_items-IsOrdered xs)

abbrev sorting : Sorting
sorting = record { walk = λ items. items; sort = λ less items. sort_items items }

sorting_laws : SortLaws sorting
sorting_laws = record {
  walked = λ items. Permᴰ-refl items;
  sorted = sort_items-perm;
  ordered = sort_items-IsOrdered;
}

abbrev digit : List ℕ → Option ℕ
digit [] = none
digit (b ∷ bs) = some (b - 48)

-- A line is a key of one byte and a digit.
abbrev bytes : List ℕ → List (List ℕ)
bytes l = map (λ b. b ∷ []) l

abbrev texts : Texts
texts = record { trim_space = λ l. l; fields = bytes; atoi = digit }

-- "a3" and "b5" in one file, "a4" in another.
abbrev entries : List Entry
entries =
    directory ∷ file (97 ∷ 51 ∷ 10 ∷ 98 ∷ 53 ∷ 10 ∷ []) ∷ unreadable ∷ file (97 ∷ 52 ∷ []) ∷ []

top_run : top sorting texts 1 entries ≡ record { key = 97 ∷ []; count = 7 } ∷ []
unfolding top line_item scan_lines bytes_equal sort_items
top_run = refl

top_example :
    (rest : List Item) × ((k : List ℕ)
      → held k (top sorting texts 1 entries ++ rest) % 2 ^ 64
        ≡ said texts k (lines_of entries) % 2 ^ 64)
    × ((k : List ℕ) → times k (top sorting texts 1 entries ++ rest) ≤ 1)
    × IsOrdered (top sorting texts 1 entries)
    × All (λ a. All (λ b. before b a ≡ false) rest) (top sorting texts 1 entries)
    × (length (top sorting texts 1 entries) ≡ min 1 (length (top sorting texts 1 entries ++ rest)))
top_example = top_lem sorting texts 1 entries sorting_laws

-- A list whose lines are a size and a name, and the names' first byte for the job.
abbrev listed : Texts
listed = record { trim_space = λ l. l; fields = λ l. (57 ∷ []) ∷ l ∷ []; atoi = digit }

abbrev listing : List (List ℕ × List ℕ)
listing = (97 ∷ [], 97 ∷ []) ∷ (98 ∷ 99 ∷ [], 98 ∷ 99 ∷ []) ∷ []

run_for_results_run : run_for_results listed (λ name. true) (98 ∷ []) (map (λ f. f.0) listing) ≡ (
  keep (λ name. has_prefix name (98 ∷ [])) (map (λ f. f.1) listing),
  count (λ name. true) (keep (λ name. has_prefix name (98 ∷ [])) (map (λ f. f.1) listing)),
)
unfolding bytes_equal
run_for_results_run = run_for_results_lem listed (λ name. true) (98 ∷ []) listing (refl, (refl, tt))

-- Each byte is a field, and its number is its value. A number of floating point is a fraction.
abbrev numbers : Numbers (ℕ × ℕ)
numbers = record {
  fields = λ l. cpu ∷ bytes l;
  parse_uint = λ f. elim f [ [] ↦ none | b ∷ bs ↦ some b ];
  parse_float = λ f. (0, 1);
  float64 = λ n. (n, 1);
  minus = λ x y. (x.0 * y.1 - y.0 * x.1, x.1 * y.1);
  over = λ x y. (x.0 * y.1, x.1 * y.0);
  times = λ x y. (x.0 * y.0, x.1 * y.1);
  is_above = λ x y. ltb (y.0 * x.1) (x.0 * y.1);
  is_equal = λ x y. x.0 * y.1 == y.0 * x.1;
  uint8 = λ x. x.0 / x.1;
}

abbrev first_stat : List ℕ
first_stat = 20 ∷ 30 ∷ 40 ∷ 50 ∷ 60 ∷ []

abbrev second_stat : List ℕ
second_stat = 30 ∷ 30 ∷ 40 ∷ 60 ∷ 60 ∷ []

get_cpu_usage_example : get_cpu_usage numbers (some first_stat) (some second_stat) ≡ some 50
unfolding get_cpu_stats scan_lines bytes_equal add_fields
get_cpu_usage_example =
    get_cpu_usage_lem numbers (some first_stat) (some second_stat)
      (record { idle = 110; total = 200 }) (record { idle = 120; total = 220 }) 10 10 refl refl refl
      refl (omega arith) (omega arith)
