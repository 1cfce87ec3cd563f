-- ===== src/Mapreduce/Master/Run/Moves.antt =====
-- The moves of one goroutine of runJob of mapreduce/master/master.go, one constructor for each.
use dfs_mapreduce.Base.{
  ℕ, ◌+◌, ◌%◌, ◌^◌, ◌≡◌, String, true, false, some, List, [], ◌∷◌, length, get_elem?, Option-cases,
  inl, inr, arith, subst, Dict,
}
use dfs_mapreduce.Mapreduce.Master.Select.{is_empty}
use dfs_mapreduce.Mapreduce.Master.Assign.{
  Assigned, done, failed, no_report, lost_worker, out_of_fuel, assign_map_task, assign_reduce_task,
}
use dfs_mapreduce.Mapreduce.Master.Jobs.{set_node_addr, add_bytes}
use dfs_mapreduce.Mapreduce.Master.Run.{
  Job, Routine, waiting, assigned, placed, added, counted, completed, failing, has_read, skipped,
  Run, moved, World, send_progress, with_run, start_map, step_map, start_reduce, step_reduce,
  nodes_of, after_map, after_reduce,
}
use dfs_mapreduce.Mapreduce.Master.Run.Steps.{moved_inj}

-- The goroutine of a map task goes from one place to the next, and leaves the state.
pub data MapMove (job : Job) (world : World) (i : ℕ) (run : Run)
    : Routine → Routine → Run → Type 0 where
  begins :
      {addr : String} {bytes : List ℕ} → MapMove job world i run waiting (assigned addr bytes) run
  fails : MapMove job world i run waiting failing run
  places :
      {addr : String} {bytes : List ℕ}
      → MapMove job world i run
          (assigned addr bytes)
          (placed addr bytes)
          (record run { map_task_list = set_node_addr i addr run.map_task_list })
  adds :
      {addr : String} {bytes : List ℕ} {table : List (Dict ℕ)}
      → add_bytes addr bytes run.reduce_data ≡ some table
      → MapMove job world i run
          (placed addr bytes)
          (added addr bytes)
          (record run { reduce_data = table })
  counts :
      {addr : String} {bytes : List ℕ}
      → MapMove job world i run
          (added addr bytes)
          (counted ((run.map_completed + 1) % 2 ^ 32) addr bytes)
          (record run { map_completed = (run.map_completed + 1) % 2 ^ 32 })
  tells :
      {c : ℕ} {addr : String} {bytes : List ℕ}
      → MapMove job world i run
          (counted c addr bytes)
          (completed addr bytes)
          (send_progress job "MAP" c (length job.tasks) false false "" run)
  reads : MapMove job world i run failing (has_read run.map_completed) run
  skips :
      {c : ℕ}
      → MapMove job world i run
          (has_read c)
          skipped
          (send_progress job "MAP" c (length job.tasks) false true world.error_text run)

-- Likewise for a reduce task.
pub data ReduceMove (job : Job) (world : World) (run : Run) : Routine → Routine → Run → Type 0 where
  begins :
      {addr : String} {bytes : List ℕ} → ReduceMove job world run waiting (added addr bytes) run
  fails : ReduceMove job world run waiting failing run
  counts :
      {addr : String} {bytes : List ℕ}
      → ReduceMove job world run
          (added addr bytes)
          (counted ((run.reduce_completed + 1) % 2 ^ 32) addr bytes)
          (record run { reduce_completed = (run.reduce_completed + 1) % 2 ^ 32 })
  tells :
      {c : ℕ} {addr : String} {bytes : List ℕ}
      → ReduceMove job world run
          (counted c addr bytes)
          (completed addr bytes)
          (send_progress job "REDUCE" c job.num_reducers false false "" run)
  reads : ReduceMove job world run failing (has_read run.map_completed) run
  skips :
      {c : ℕ}
      → ReduceMove job world run
          (has_read c)
          skipped
          (send_progress job "MAP" c (length job.tasks) false true world.error_text run)

module _ (job : Job) (world : World) (i : ℕ) (run : Run) where
  -- The move that a pair of a new place and a new state stands for.
  abbrev Along : Routine → Routine × Run → Type 0
  Along old p = MapMove job world i run old p.0 p.1

  moves : (old : Routine) {p q : Routine × Run} → moved p ≡ moved q → Along old p → Along old q
  moves old e m = subst (Along old) (moved_inj e) m

  map-begins :
      (a : Assigned) (p : Routine × Run) → with_run run (after_map a) ≡ moved p → Along waiting p
  unfolding after_map is_empty
  map-begins (done addr []) p e = absurd (ground arith)
  map-begins (done addr (b ∷ bytes)) p e = moves waiting e MapMove.begins
  map-begins failed p e = moves waiting e MapMove.fails
  map-begins no_report p e = absurd (ground arith)
  map-begins lost_worker p e = absurd (ground arith)
  map-begins out_of_fuel p e = absurd (ground arith)

  map-starts :
      (p : Routine × Run) → with_run run (start_map job world i run) ≡ moved p → Along waiting p
  unfolding start_map
  map-starts p e = elim (Option-cases (get_elem? run.map_task_list i)) [
    | inl f ↦ absurd (ground arith)
    | inr (task, f) ↦ elim (Option-cases (nodes_of job task)) [
      | inl g ↦ absurd (ground arith)
      | inr (nodes, g) ↦
          map-begins (assign_map_task (world.map_network i) nodes) p (rw (f, g, start_map) at e)
    ]
  ]

  pub step_map-moves :
      (old new : Routine) (mid : Run)
      → step_map job world i old run ≡ moved (new, mid)
      → MapMove job world i run old new mid
  unfolding step_map
  step_map-moves waiting new mid e = map-starts (new, mid) e
  step_map-moves (assigned addr bytes) new mid e = moves (assigned addr bytes) e MapMove.places
  step_map-moves (placed addr bytes) new mid e =
      elim (Option-cases (add_bytes addr bytes run.reduce_data)) [
        | inl f ↦ absurd (ground arith)
        | inr (table, f) ↦ moves (placed addr bytes) (rw (f, step_map) at e) (MapMove.adds f)
      ]
  step_map-moves (added addr bytes) new mid e = moves (added addr bytes) e MapMove.counts
  step_map-moves (counted c addr bytes) new mid e = moves (counted c addr bytes) e MapMove.tells
  step_map-moves failing new mid e = moves failing e MapMove.reads
  step_map-moves (has_read c) new mid e = moves (has_read c) e MapMove.skips
  step_map-moves (completed addr bytes) new mid e = absurd (ground arith)
  step_map-moves skipped new mid e = absurd (ground arith)

module _ (job : Job) (world : World) (run : Run) where
  abbrev AlongReduce : Routine → Routine × Run → Type 0
  AlongReduce old p = ReduceMove job world run old p.0 p.1

  reduce_moves :
      (old : Routine) {p q : Routine × Run}
      → moved p ≡ moved q
      → AlongReduce old p
      → AlongReduce old q
  reduce_moves old e m = subst (AlongReduce old) (moved_inj e) m

  reduce-begins :
      (a : Assigned) (p : Routine × Run)
      → with_run run (after_reduce a) ≡ moved p
      → AlongReduce waiting p
  unfolding after_reduce
  reduce-begins (done addr bytes) p e = reduce_moves waiting e ReduceMove.begins
  reduce-begins failed p e = reduce_moves waiting e ReduceMove.fails
  reduce-begins no_report p e = absurd (ground arith)
  reduce-begins lost_worker p e = absurd (ground arith)
  reduce-begins out_of_fuel p e = absurd (ground arith)

  reduce-starts :
      (i : ℕ) (p : Routine × Run)
      → with_run run (start_reduce world i run) ≡ moved p
      → AlongReduce waiting p
  unfolding start_reduce
  reduce-starts i p e = elim (Option-cases (get_elem? run.reduce_data i)) [
    | inl f ↦ absurd (ground arith)
    | inr (bytes, f) ↦
        reduce-begins (assign_reduce_task (world.reduce_network i) bytes) p
          (rw (f, start_reduce) at e)
  ]

  pub step_reduce-moves :
      (i : ℕ) (old new : Routine) (mid : Run)
      → step_reduce job world i old run ≡ moved (new, mid)
      → ReduceMove job world run old new mid
  unfolding step_reduce
  step_reduce-moves i waiting new mid e = reduce-starts i (new, mid) e
  step_reduce-moves i (added addr bytes) new mid e =
      reduce_moves (added addr bytes) e ReduceMove.counts
  step_reduce-moves i (counted c addr bytes) new mid e =
      reduce_moves (counted c addr bytes) e ReduceMove.tells
  step_reduce-moves i failing new mid e = reduce_moves failing e ReduceMove.reads
  step_reduce-moves i (has_read c) new mid e = reduce_moves (has_read c) e ReduceMove.skips
  step_reduce-moves i (assigned addr bytes) new mid e = absurd (ground arith)
  step_reduce-moves i (placed addr bytes) new mid e = absurd (ground arith)
  step_reduce-moves i (completed addr bytes) new mid e = absurd (ground arith)
  step_reduce-moves i skipped new mid e = absurd (ground arith)
