-- ===== src/Mapreduce/Plugin.antt =====
-- mapreduce/plugin/: the Map and Reduce functions of the four plugins. All of them count: a pair has the value "1", and
-- Reduce prints the number of values.
pub mod Counts
pub mod Groups
pub mod Job
use dfs_mapreduce.Base.{
  ℕ, Bool, true, false, Option, none, some, List, [], ◌∷◌, ◌++◌, get_elem?, length, ◌==◌,
  if◌then◌else◌,
}
use dfs_mapreduce.Mapreduce.Util.{KeyValue}

-- []byte("1")
abbrev pub one : List ℕ
one = 49 ∷ []

-- bytes.Split(line, []byte("\t")), with the part read so far.
unfoldable pub split_tabs : List ℕ → List ℕ → List (List ℕ)
split_tabs part [] = part ∷ []
split_tabs part (b ∷ bs) = elim (b == 9) [
  | true ↦ part ∷ split_tabs [] bs
  | false ↦ split_tabs (part ++ b ∷ []) bs
]

-- One pair for a part that is there.
abbrev pub emit : Option (List ℕ) → List KeyValue
emit none = []
emit (some key) = record { key = key; value = one } ∷ []

-- Map of unique_ips.go
unfoldable pub map_ips : List ℕ → List KeyValue
unfolding split_tabs
map_ips line = emit (get_elem? (split_tabs [] line) 2)

-- Map of unique_urls.go
unfoldable pub map_urls : List ℕ → List KeyValue
unfolding split_tabs
map_urls line = emit (get_elem? (split_tabs [] line) 3)

-- The host name of a URL that parses, if it is not empty.
abbrev pub emit_domain : Option (List ℕ) → List KeyValue
emit_domain none = []
emit_domain (some []) = []
emit_domain (some (b ∷ domain)) = emit (some (b ∷ domain))

-- Map of unique_domains.go; bytes.Fields and url.Parse with Hostname are parameters.
unfoldable pub map_domains :
    (List ℕ → List (List ℕ)) → (List ℕ → Option (List ℕ)) → List ℕ → List KeyValue
map_domains fields hostname line = elim (get_elem? (fields line) 3) [
  | none ↦ []
  | some url ↦ emit_domain (hostname url)
]

-- One pair for each word that is not empty.
abbrev pub emit_words : List (List ℕ) → List KeyValue
emit_words [] = []
emit_words ([] ∷ words) = emit_words words
emit_words ((b ∷ word) ∷ words) = record { key = b ∷ word; value = one } ∷ emit_words words

-- Map of wordcount.go; bytes.ToLower and the search for \w+ are parameters.
unfoldable pub map_words : (List ℕ → List ℕ) → (List ℕ → List (List ℕ)) → List ℕ → List KeyValue
map_words to_lower find_all line = emit_words (find_all (to_lower line))

-- Reduce of all four; the decimal digits of a number are a parameter.
unfoldable pub reduce_count : (ℕ → List ℕ) → List ℕ → List (List ℕ) → List ℕ
reduce_count decimal key values = decimal (length values)
