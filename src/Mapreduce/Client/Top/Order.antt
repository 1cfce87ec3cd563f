-- ===== src/Mapreduce/Client/Top/Order.antt =====
-- The items that top10_domains.go and top5_ips.go of mapreduce/client/ print: the largest counts.
use mathlib.Core.List.{Permᴰ}
use dfs_mapreduce.Base.{
  ℕ, zero, suc, ◌+◌, ◌%◌, ◌^◌, ◌≤◌, ◌≡◌, sym, ap, ◌∙◌, true, false, none, some, List, [], ◌∷◌, ◌++◌,
  length, take, drop, length-take, All-take, All-drop, min, max, ltb, All, arith, total, Bool-cases,
  Option-cases, inl, inr, if◌then◌else◌, Permᴰ-total, take-append-drop,
}
use dfs_mapreduce.Mapreduce.Util.Keys.{bytes_equal, bytes_equal_iff}
use dfs_mapreduce.Mapreduce.Client.Top.{
  Item, before, Entry, Texts, line_item, add_count, count_lines, lines_of, Sorting, top,
}

-- No item comes after one that it is before.
abbrev pub IsOrdered : List Item → Type 0
IsOrdered [] = Unit
IsOrdered (x ∷ xs) = All (λ y. before y x ≡ false) xs × IsOrdered xs

-- The walk over a map and sort.Slice keep the items, and the sort puts them in order.
pub record SortLaws (sorting : Sorting) : Type 0 where
  pub walked : (items : List Item) → Permᴰ (sorting.walk items) items
  pub sorted : (items : List Item) → Permᴰ (sorting.sort before items) items
  pub ordered : (items : List Item) → IsOrdered (sorting.sort before items)

-- What the lines say for a key.
abbrev pub said : Texts → List ℕ → List (List ℕ) → ℕ
said texts k ls =
    total
      (λ l. elim (line_item texts l) [
        | none ↦ 0
        | some x ↦ if bytes_equal x.key k then x.count else 0
      ])
      ls

-- What the items say for a key.
abbrev pub held : List ℕ → List Item → ℕ
held k items = total (λ x. if bytes_equal x.key k then x.count else 0) items

held-add_count :
    (k : List ℕ) (x : Item) (items : List Item)
    → held k (add_count x items) % 2 ^ 64
      ≡ (held k items + (if bytes_equal x.key k then x.count else 0)) % 2 ^ 64
unfolding add_count
held-add_count k x [] = ground arith
held-add_count k x (y ∷ ys) = elim (Bool-cases (bytes_equal y.key x.key)) [
  | inl e ↦
      let same : bytes_equal y.key k ≡ bytes_equal x.key k =
        ap (λ j. bytes_equal j k) ((bytes_equal_iff y.key x.key).0 e) in
      rw e (ground (arith, same))
  | inr e ↦ rw e (ground (arith, held-add_count k x ys))
]

-- How often a key stands among the items.
abbrev pub times : List ℕ → List Item → ℕ
times k items = total (λ x. if bytes_equal x.key k then 1 else 0) items

times-add_count :
    (k : List ℕ) (x : Item) (items : List Item)
    → times k (add_count x items) ≡ max (times k items) (if bytes_equal x.key k then 1 else 0)
unfolding add_count
times-add_count k x [] = ground arith
times-add_count k x (y ∷ ys) = elim (Bool-cases (bytes_equal y.key x.key)) [
  | inl e ↦
      let same : bytes_equal y.key k ≡ bytes_equal x.key k =
        ap (λ j. bytes_equal j k) ((bytes_equal_iff y.key x.key).0 e) in
      rw e (ground (arith, same))
  | inr e ↦
      let apart : bytes_equal x.key k ≡ true → bytes_equal y.key k ≡ false =
        λ f. ap (bytes_equal y.key) (sym ((bytes_equal_iff x.key k).0 f)) ∙ e in
      rw e (grind (arith, times-add_count k x ys, apart))
]

held-count_lines :
    (texts : Texts) (k : List ℕ) (ls : List (List ℕ)) (items : List Item)
    → held k (count_lines texts ls items) % 2 ^ 64 ≡ (held k items + said texts k ls) % 2 ^ 64
unfolding count_lines
held-count_lines texts k [] items = omega arith
held-count_lines texts k (l ∷ ls) items = elim (Option-cases (line_item texts l)) [
  | inl e ↦ rw (e, count_lines) (held-count_lines texts k ls items ∙ omega arith)
  | inr (x, e) ↦
      rw (e, count_lines)
        (omega (arith, held-count_lines texts k ls (add_count x items), held-add_count k x items))
]

times-count_lines :
    (texts : Texts) (k : List ℕ) (ls : List (List ℕ)) (items : List Item)
    → times k items ≤ 1
    → times k (count_lines texts ls items) ≤ 1
unfolding count_lines
times-count_lines texts k [] items h = h
times-count_lines texts k (l ∷ ls) items h = elim (Option-cases (line_item texts l)) [
  | inl e ↦ rw (e, count_lines) (times-count_lines texts k ls items h)
  | inr (x, e) ↦
      rw (e, count_lines)
        (times-count_lines texts k ls (add_count x items)
          (ground (arith, times-add_count k x items, h)))
]

IsOrdered-take : (n : ℕ) (items : List Item) → IsOrdered items → IsOrdered (take n items)
IsOrdered-take zero items h = tt
IsOrdered-take (suc n) [] h = tt
IsOrdered-take (suc n) (x ∷ xs) h =
    (All-take (λ y. before y x ≡ false) n xs h.0, IsOrdered-take n xs h.1)

ordered-front :
    (n : ℕ) (items : List Item)
    → IsOrdered items
    → All (λ a. All (λ b. before b a ≡ false) (drop n items)) (take n items)
ordered-front zero items h = tt
ordered-front (suc n) [] h = tt
ordered-front (suc n) (x ∷ xs) h =
    (All-drop (λ y. before y x ≡ false) n xs h.0, ordered-front n xs h.1)

-- If the walk over a map and sort.Slice keep the items and the sort puts them in order, the items
-- that are shown, with the rest of the items, hold for each key the sum of the counts of its
-- lines, modulo 2 ^ 64, in at most one item; those shown are in order, none of the rest has a
-- larger count than one that is shown, and there are as many as the limit, or all.
pub top_lem :
    (sorting : Sorting) (texts : Texts) (limit : ℕ) (entries : List Entry)
    → SortLaws sorting
    → (rest : List Item) × ((k : List ℕ)
        → held k (top sorting texts limit entries ++ rest) % 2 ^ 64
          ≡ said texts k (lines_of entries) % 2 ^ 64)
      × ((k : List ℕ) → times k (top sorting texts limit entries ++ rest) ≤ 1)
      × IsOrdered (top sorting texts limit entries)
      × All (λ a. All (λ b. before b a ≡ false) rest) (top sorting texts limit entries)
      × (length (top sorting texts limit entries)
          ≡ min limit (length (top sorting texts limit entries ++ rest)))
unfolding top
top_lem sorting texts limit entries laws =
    let counts = count_lines texts (lines_of entries) [] in
    let walked = sorting.walk counts in
    let items = sorting.sort before walked in
    let n = if ltb (length items) limit then length items else limit in
    let whole : take n items ++ drop n items ≡ items = take-append-drop n items in
    let sum : (f : Item → ℕ) → total f (take n items ++ drop n items) ≡ total f counts = λ f.
      ap (total f) whole
      ∙ Permᴰ-total f (laws.sorted walked)
      ∙ Permᴰ-total f (laws.walked counts) in
    let few : n ≡ min limit (length items) = ground arith in
    (
      drop n items,
      λ k.
          ap (λ m. m % 2 ^ 64) (sum (λ x. if bytes_equal x.key k then x.count else 0))
          ∙ held-count_lines texts k (lines_of entries) []
          ∙ omega arith,
      λ k. omega (
        arith,
        sum (λ x. if bytes_equal x.key k then 1 else 0),
        times-count_lines texts k (lines_of entries) [] (omega arith),
      ),
      IsOrdered-take n items (laws.ordered walked),
      ordered-front n items (laws.ordered walked),
      omega (arith, length-take n items, few, ap length whole),
    )
