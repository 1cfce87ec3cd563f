-- ===== src/Mapreduce/Client/Results.antt =====
-- download_results.go and delete_results.go of mapreduce/client/: the files of a job among the output of the storage
-- client's list, and the command that is run for each. strings.TrimSpace and strings.Fields are parameters.
use dfs_mapreduce.Base.{
  ℕ, ◌≡◌, refl, ap, Bool, true, false, ◌&&◌, ◌||◌, ◌==◌, Option, none, some, List, [], ◌∷◌, map,
  keep, All, if◌then◌else◌,
}
use dfs_mapreduce.Mapreduce.Util.Keys.{bytes_equal, count}
use dfs_mapreduce.Mapreduce.Client.Top.{Texts}

unfoldable pub has_prefix : List ℕ → List ℕ → Bool
has_prefix name [] = true
has_prefix [] (b ∷ prefix) = false
has_prefix (c ∷ name) (b ∷ prefix) = c == b && has_prefix name prefix

-- "LIST" and "no files were found."
abbrev pub list_word : List ℕ
list_word = 76 ∷ 73 ∷ 83 ∷ 84 ∷ []

abbrev pub no_files : List ℕ
no_files =
    110 ∷ 111 ∷ 32 ∷ 102 ∷ 105 ∷ 108 ∷ 101 ∷ 115 ∷ 32 ∷ 119 ∷ 101 ∷ 114 ∷ 101 ∷ 32 ∷ 102 ∷ 111 ∷ 117
    ∷ 110 ∷ 100 ∷ 46 ∷ []

abbrev pub second : List (List ℕ) → Option (List ℕ)
second [] = none
second (f ∷ []) = none
second (f ∷ g ∷ fs) = some g

-- The name of a line that is neither empty nor one of the two others.
abbrev pub name_in : Texts → List ℕ → Option (List ℕ)
name_in texts [] = none
name_in texts (b ∷ line) =
    if bytes_equal (b ∷ line) list_word || bytes_equal (b ∷ line) no_files
    then none
    else second (texts.fields (b ∷ line))

-- The names that the command is run for.
unfoldable pub selected : Texts → List ℕ → List (List ℕ) → List (List ℕ)
unfolding has_prefix
selected texts prefix [] = []
selected texts prefix (l ∷ ls) =
    let rest = selected texts prefix ls in
    elim (name_in texts (texts.trim_space l)) [
      | none ↦ rest
      | some name ↦ if has_prefix name prefix then name ∷ rest else rest
    ]

-- The commands that are run, and how many of them succeed.
unfoldable pub run_for_results :
    Texts → (List ℕ → Bool) → List ℕ → List (List ℕ) → List (List ℕ) × ℕ
unfolding selected
run_for_results texts command prefix lines =
    let names = selected texts prefix lines in (names, count command names)

-- A line of the list is read as this name.
abbrev pub IsListed : Texts → List ℕ → List ℕ → Type 0
IsListed texts line name = name_in texts (texts.trim_space line) ≡ some name

selected-keep :
    (texts : Texts) (prefix : List ℕ) (files : List (List ℕ × List ℕ))
    → All (λ f. IsListed texts f.0 f.1) files
    → selected texts prefix (map (λ f. f.0) files)
      ≡ keep (λ name. has_prefix name prefix) (map (λ f. f.1) files)
unfolding selected
selected-keep texts prefix [] h = refl
selected-keep texts prefix ((line, name) ∷ files) h =
    rw (h.0, selected-keep texts prefix files h.1, selected) refl

-- If each line of the list is read as the name of its file, the command is run for those files
-- whose name has the job's prefix, in their order, and for no other; the number is that of the
-- commands among them that succeed.
pub run_for_results_lem :
    (texts : Texts) (command : List ℕ → Bool) (prefix : List ℕ) (files : List (List ℕ × List ℕ))
    → All (λ f. IsListed texts f.0 f.1) files
    → run_for_results texts command prefix (map (λ f. f.0) files) ≡ (
      keep (λ name. has_prefix name prefix) (map (λ f. f.1) files),
      count command (keep (λ name. has_prefix name prefix) (map (λ f. f.1) files)),
    )
unfolding run_for_results
run_for_results_lem texts command prefix files h =
    ap (λ names. (names, count command names)) (selected-keep texts prefix files h)
