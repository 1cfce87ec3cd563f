-- ===== src/Mapreduce/Master/Jobs/Bytes.antt =====
-- The bytes per reducer and worker that runJob adds up over the map tasks.
use dfs_mapreduce.Base.{
  ℕ, zero, suc, ◌+◌, ◌%◌, ◌^◌, ◌<◌, ◌≡◌, String, Option, none, some, List, [], ◌∷◌, Dict, insert,
  str_eq, eq_iff, ap, lookup-insert, arith, inl, inr, Option-cases, sym, ◌∙◌, if◌then◌else◌,
}
use dfs_mapreduce.Mapreduce.Master.Jobs.{JobState, count_of, add_bytes, finish_map_task}

-- What the master holds for a reducer and a worker.
abbrev pub held : ℕ → String → List (Dict ℕ) → ℕ
held r addr [] = 0
held zero addr (m ∷ table) = count_of addr m
held (suc r) addr (m ∷ table) = held r addr table

abbrev pub reported : ℕ → List ℕ → ℕ
reported r [] = 0
reported zero (n ∷ ns) = n
reported (suc r) (n ∷ ns) = reported r ns

-- A map task that has finished: its index, its worker and the bytes for each reducer.
pub record Finished : Type 0 where
  pub index : ℕ
  pub addr : String
  pub reduce_data : List ℕ

abbrev pub finish_all : List Finished → JobState → Option JobState
finish_all [] job = some job
finish_all (t ∷ ts) job = elim (finish_map_task t.index t.addr t.reduce_data job) [
  | none ↦ none
  | some next ↦ finish_all ts next
]

abbrev pub total : ℕ → String → List Finished → ℕ
total r addr [] = 0
total r addr (t ∷ ts) =
    (if str_eq t.addr addr then reported r t.reduce_data else 0) + total r addr ts

count_of-insert :
    (a addr : String) (n : ℕ) (m : Dict ℕ)
    → count_of addr (insert a n m) ≡ (if str_eq a addr then n else count_of addr m)
unfolding count_of
count_of-insert a addr n m = ground (arith, lookup-insert addr a n m)

add_bytes-∷ :
    (a : String) (n : ℕ) (ns : List ℕ) (m : Dict ℕ) (table out : List (Dict ℕ))
    → add_bytes a (n ∷ ns) (m ∷ table) ≡ some out
    → (rest : List (Dict ℕ)) × (add_bytes a ns table ≡ some rest)
      × (out ≡ insert a ((count_of a m + n) % 2 ^ 64) m ∷ rest)
unfolding add_bytes
add_bytes-∷ a n ns m table out e = elim (Option-cases (add_bytes a ns table)) [
  | inl f ↦ absurd (ground arith)
  | inr (rest, f) ↦ (rest, f, ground arith)
]

-- Each reducer's entry grows by the bytes that are reported for it, for that worker only.
pub held-add_bytes :
    (r : ℕ) (a addr : String) (ns : List ℕ) (table out : List (Dict ℕ))
    → held r addr table < 2 ^ 64
    → add_bytes a ns table ≡ some out
    → held r addr out ≡ (held r addr table + (if str_eq a addr then reported r ns else 0)) % 2 ^ 64
unfolding add_bytes
held-add_bytes r a addr [] table out h e = ground arith
held-add_bytes r a addr (n ∷ ns) [] out h e = absurd (ground arith)
held-add_bytes zero a addr (n ∷ ns) (m ∷ table) out h e =
    let (rest, f, g) = add_bytes-∷ a n ns m table out e in
    rw g (ground (arith, eq_iff a addr, count_of-insert a addr ((count_of a m + n) % 2 ^ 64) m))
held-add_bytes (suc r) a addr (n ∷ ns) (m ∷ table) out h e =
    let (rest, f, g) = add_bytes-∷ a n ns m table out e in
    rw g (held-add_bytes r a addr ns table rest h f)

finish_map_task-held :
    (i : ℕ) (a : String) (ns : List ℕ) (r : ℕ) (addr : String) (job out : JobState)
    → held r addr job.reduce_data < 2 ^ 64
    → finish_map_task i a ns job ≡ some out
    → held r addr out.reduce_data
      ≡ (held r addr job.reduce_data + (if str_eq a addr then reported r ns else 0)) % 2 ^ 64
unfolding finish_map_task
finish_map_task-held i a ns r addr job out h e =
    elim (Option-cases (add_bytes a ns job.reduce_data)) [
      | inl f ↦ absurd (ground arith)
      | inr (table, f) ↦
          let g : table ≡ out.reduce_data = ground arith in
          ap (held r addr) (sym g) ∙ held-add_bytes r a addr ns job.reduce_data table h f
    ]

-- If the master takes in the map tasks without a panic, what it holds for a reducer and a worker,
-- which was below 2 ^ 64, has grown by the sum of what that worker's tasks report for the reducer,
-- modulo 2 ^ 64.
pub finish_all-held :
    (ts : List Finished) (r : ℕ) (addr : String) (job out : JobState)
    → held r addr job.reduce_data < 2 ^ 64
    → finish_all ts job ≡ some out
    → held r addr out.reduce_data ≡ (held r addr job.reduce_data + total r addr ts) % 2 ^ 64
finish_all-held [] r addr job out h e =
    let same : job.reduce_data ≡ out.reduce_data = ground arith in rw (sym same) (omega arith)
finish_all-held (t ∷ ts) r addr job out h e =
    elim (Option-cases (finish_map_task t.index t.addr t.reduce_data job)) [
      | inl f ↦ absurd (ground arith)
      | inr (next, f) ↦
          let step = finish_map_task-held t.index t.addr t.reduce_data r addr job next h f in
          let rest : finish_all ts next ≡ some out = ground arith in
          let tail = finish_all-held ts r addr next out (rw step (omega arith)) rest in
          tail ∙ rw step (omega arith)
    ]
