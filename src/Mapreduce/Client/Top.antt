-- ===== src/Mapreduce/Client/Top.antt =====
-- The programs of mapreduce/client/ that read downloaded results: top10_domains.go, top5_ips.go and total_unique.go.
-- strings.TrimSpace, strings.Fields and strconv.Atoi are parameters, as are the order of a map and
-- sort.Slice. An int is a machine word of 64 bits with a sign.
pub mod Order
use dfs_mapreduce.Base.{
  ℕ, zero, suc, ◌+◌, ◌*◌, ◌%◌, ◌^◌, Bool, true, false, Option, none, some, List, [], ◌∷◌, ◌++◌,
  length, take, ltb, leb, get_elem?, if◌then◌else◌, scan_lines,
}
use dfs_mapreduce.Mapreduce.Util.Keys.{bytes_equal}

pub record Item : Type 0 where
  pub key : List ℕ
  pub count : ℕ

-- a < b for ints
abbrev pub int_less : ℕ → ℕ → Bool
int_less a b = ltb ((a + 2 ^ 63) % 2 ^ 64) ((b + 2 ^ 63) % 2 ^ 64)

-- The comparison that sort.Slice is given.
abbrev pub before : Item → Item → Bool
before a b = int_less b.count a.count

-- An entry of the directory.
pub data Entry : Type 0 where
  directory : Entry
  unreadable : Entry
  file : List ℕ → Entry

-- bufio.MaxScanTokenSize
abbrev pub max_scan_token_size : ℕ
max_scan_token_size = 64 * 1024

pub record Texts : Type 0 where
  pub trim_space : List ℕ → List ℕ
  pub fields : List ℕ → List (List ℕ)
  pub atoi : List ℕ → Option ℕ

abbrev pub last_of : List ℕ → List (List ℕ) → List ℕ
last_of f [] = f
last_of f (g ∷ fs) = last_of g fs

-- The key and the count of a line, if it has both.
abbrev pub item_of : Texts → List (List ℕ) → Option Item
item_of texts [] = none
item_of texts (f ∷ []) = none
item_of texts (f ∷ g ∷ fs) = elim (texts.atoi (last_of g fs)) [
  | none ↦ none
  | some n ↦ some (record { key = f; count = n })
]

unfoldable pub line_item : Texts → List ℕ → Option Item
line_item texts line = elim (texts.trim_space line) [
  | [] ↦ none
  | b ∷ bs ↦ item_of texts (texts.fields (b ∷ bs))
]

-- counts[key] += count
unfoldable pub add_count : Item → List Item → List Item
add_count x [] = record { key = x.key; count = x.count % 2 ^ 64 } ∷ []
add_count x (y ∷ ys) =
    let rest = add_count x ys in
    if bytes_equal y.key x.key
    then record { key = y.key; count = (y.count + x.count) % 2 ^ 64 } ∷ ys
    else y ∷ rest

unfoldable pub count_lines : Texts → List (List ℕ) → List Item → List Item
unfolding line_item add_count
count_lines texts [] counts = counts
count_lines texts (l ∷ ls) counts = elim (line_item texts l) [
  | none ↦ count_lines texts ls counts
  | some x ↦ count_lines texts ls (add_count x counts)
]

-- The lines of the files that can be opened.
unfoldable pub lines_of : List Entry → List (List ℕ)
lines_of [] = []
lines_of (directory ∷ entries) = lines_of entries
lines_of (unreadable ∷ entries) = lines_of entries
lines_of (file bytes ∷ entries) = scan_lines max_scan_token_size bytes ++ lines_of entries

-- The walk over the map, and sort.Slice.
pub record Sorting : Type 0 where
  pub walk : List Item → List Item
  pub sort : (Item → Item → Bool) → List Item → List Item

-- The items that are printed, in their order.
unfoldable pub top : Sorting → Texts → ℕ → List Entry → List Item
unfolding count_lines lines_of
top sorting texts limit entries =
    let items = sorting.sort before (sorting.walk (count_lines texts (lines_of entries) [])) in
    take (if ltb (length items) limit then length items else limit) items

unfoldable pub top10_domains : Sorting → Texts → List Entry → List Item
unfolding top
top10_domains sorting texts entries = top sorting texts 10 entries

unfoldable pub top5_ips : Sorting → Texts → List Entry → List Item
unfolding top
top5_ips sorting texts entries = top sorting texts 5 entries

-- The number that total_unique.go prints.
unfoldable pub total_unique : List Entry → ℕ
total_unique [] = 0
total_unique (directory ∷ entries) = total_unique entries
total_unique (unreadable ∷ entries) = total_unique entries
total_unique (file bytes ∷ entries) =
    length (scan_lines max_scan_token_size bytes) + total_unique entries
