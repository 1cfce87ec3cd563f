-- ===== src/Mapreduce/Worker/ReduceTask/Lines.antt =====
-- The merged file between shuffle and runReduce of mapreduce/worker/worker.go.
use dfs_mapreduce.Base.{
  ℕ, ◌<◌, ◌≡◌, ◌≢◌, refl, sym, ap, ◌∙◌, false, List, [], ◌∷◌, ◌++◌, map, All, arith, length, ltb,
  ◌≤◌, append_assoc, append-nil, IsLine, join_lines, scan_lines, scan_lines-join, scan_lines-long,
}
use dfs_mapreduce.Mapreduce.Util.Sort.Files.{split_tab_lem}
use dfs_mapreduce.Mapreduce.Worker.MapTask.{line_limit}
use dfs_mapreduce.Mapreduce.Worker.ReduceTask.{
  Group, join_values, write_groups, split_commas, result_line, reduce_lines,
}

split_commas-append :
    (v rest : List ℕ) → All (λ b. b ≢ 44) v → split_commas (v ++ 44 ∷ rest) ≡ v ∷ split_commas rest
unfolding split_commas
split_commas-append [] rest h = refl
split_commas-append (b ∷ v) rest h = ground (arith, split_commas-append v rest h.1)

split_commas-last : (v : List ℕ) → All (λ b. b ≢ 44) v → split_commas v ≡ v ∷ []
unfolding split_commas
split_commas-last [] h = refl
split_commas-last (b ∷ v) h = ground (arith, split_commas-last v h.1)

-- One value or more, without commas, are split as they were joined.
pub split_commas-join_values :
    (vs : List (List ℕ))
    → 0 < length vs
    → All (All (λ b. b ≢ 44)) vs
    → split_commas (join_values vs) ≡ vs
unfolding join_values
split_commas-join_values [] n h = absurd (omega arith)
split_commas-join_values (v ∷ []) n h = split_commas-last v h.0
split_commas-join_values (v ∷ w ∷ vs) n h =
    split_commas-append v (join_values (w ∷ vs)) h.0
    ∙ ap (◌∷◌ v) (split_commas-join_values (w ∷ vs) (omega arith) h.1)

abbrev pub group_line : Group → List ℕ
group_line g = g.key ++ 9 ∷ join_values g.values

-- A group whose line is scanned and split as it was written.
pub record IsGroup (g : Group) : Type 0 where
  pub no_tab : All (λ b. b ≢ 9) g.key
  pub line : IsLine line_limit (group_line g)
  pub some_value : 0 < length g.values
  pub no_commas : All (All (λ b. b ≢ 44)) g.values

-- What Reduce makes of the groups.
abbrev pub outputs : (List ℕ → List (List ℕ) → List ℕ) → List Group → List ℕ
outputs f [] = []
outputs f (g ∷ gs) = result_line g.key (f g.key g.values) ++ outputs f gs

write_groups-lines : (gs : List Group) → write_groups gs ≡ join_lines (map group_line gs)
unfolding write_groups
write_groups-lines [] = refl
write_groups-lines (g ∷ gs) =
    ap (λ t. g.key ++ 9 ∷ (join_values g.values ++ 10 ∷ t)) (write_groups-lines gs)
    ∙ sym (append_assoc g.key (9 ∷ join_values g.values) (10 ∷ join_lines (map group_line gs)))

write_groups-append :
    (gs hs : List Group) → write_groups (gs ++ hs) ≡ write_groups gs ++ write_groups hs
unfolding write_groups
write_groups-append [] hs = refl
write_groups-append (g ∷ gs) hs =
    let values = join_values g.values in
    ap (λ t. g.key ++ 9 ∷ t)
      (ap (λ t. values ++ 10 ∷ t) (write_groups-append gs hs)
        ∙ sym (append_assoc values (10 ∷ write_groups gs) (write_groups hs)))
    ∙ sym (append_assoc g.key (9 ∷ (values ++ 10 ∷ write_groups gs)) (write_groups hs))

lines-IsLine : (gs : List Group) → All IsGroup gs → All (IsLine line_limit) (map group_line gs)
lines-IsLine [] h = tt
lines-IsLine (g ∷ gs) h = (h.0.line, lines-IsLine gs h.1)

reduce_lines-outputs :
    (f : List ℕ → List (List ℕ) → List ℕ) (gs : List Group)
    → All IsGroup gs
    → reduce_lines f (map group_line gs) ≡ outputs f gs
unfolding reduce_lines
reduce_lines-outputs f [] h = refl
reduce_lines-outputs f (g ∷ gs) h =
    rw
      (
        split_tab_lem g.key (join_values g.values) h.0.no_tab,
        split_commas-join_values g.values h.0.some_value h.0.no_commas,
        reduce_lines,
      )
      (ap (λ t. result_line g.key (f g.key g.values) ++ t) (reduce_lines-outputs f gs h.1))

-- Reduce sees each group as it was collected, if the groups can be written as lines.
pub reduce_lines-write_groups :
    (f : List ℕ → List (List ℕ) → List ℕ) (gs : List Group)
    → All IsGroup gs
    → reduce_lines f (scan_lines line_limit (write_groups gs)) ≡ outputs f gs
unfolding scan_lines
reduce_lines-write_groups f gs h =
    let lines = map group_line gs in
    ap (reduce_lines f) (
      ap (scan_lines line_limit) (write_groups-lines gs ∙ sym (append-nil (join_lines lines)))
      ∙ scan_lines-join line_limit lines [] (lines-IsLine gs h)
      ∙ append-nil lines)
    ∙ reduce_lines-outputs f gs h

-- If the groups before it can be written as lines, and a group has no newline but a line of 16 MiB
-- or more, the output is that of the groups before it: neither it nor a later group is reduced.
pub reduce_lines-long :
    (f : List ℕ → List (List ℕ) → List ℕ) (gs rest : List Group) (g : Group)
    → All IsGroup gs
    → All (λ b. b ≢ 10) (group_line g)
    → line_limit ≤ length (group_line g)
    → reduce_lines f (scan_lines line_limit (write_groups (gs ++ g ∷ rest))) ≡ outputs f gs
unfolding write_groups
reduce_lines-long f gs rest g h n long =
    let lines = map group_line gs in
    let over : ltb (length (group_line g)) line_limit ≡ false = ground arith in
    let tail : scan_lines line_limit (write_groups (g ∷ rest)) ≡ [] =
      ap (scan_lines line_limit)
        (sym (append_assoc g.key (9 ∷ join_values g.values) (10 ∷ write_groups rest)))
      ∙ scan_lines-long line_limit (group_line g) (write_groups rest) n over in
    ap (reduce_lines f) (
      ap (scan_lines line_limit) (
        write_groups-append gs (g ∷ rest)
        ∙ ap (λ t. t ++ write_groups (g ∷ rest)) (write_groups-lines gs))
      ∙ scan_lines-join line_limit lines (write_groups (g ∷ rest)) (lines-IsLine gs h)
      ∙ ap (λ t. lines ++ t) tail
      ∙ append-nil lines)
    ∙ reduce_lines-outputs f gs h
