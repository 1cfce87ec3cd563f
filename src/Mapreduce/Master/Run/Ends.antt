-- ===== src/Mapreduce/Master/Run/Ends.antt =====
-- The end of runJob of mapreduce/master/master.go under every schedule of its goroutines.
use dfs_mapreduce.Base.{
  ℕ, zero, suc, ◌+◌, ◌*◌, ◌≤◌, ◌≡◌, ◌≢◌, refl, true, false, some, List, [], ◌∷◌, length, get_elem?,
  arith, some_inj, ◌⊎◌, ap, Bool-cases, Option-cases, inl, inr, ◌∙◌,
}
use dfs_mapreduce.Mapreduce.Messages.{TaskType, map_task, reduce_task}
use dfs_mapreduce.Mapreduce.Master.Select.{is_empty}
use dfs_mapreduce.Mapreduce.Master.Assign.{
  Assigned, done, failed, no_report, lost_worker, out_of_fuel, assign_map_task, assign_reduce_task,
}
use dfs_mapreduce.Mapreduce.Master.Assign.Retries.{
  Answers, assign_map_task_attempts, assign_reduce_task-Ended,
}
use dfs_mapreduce.Mapreduce.Master.Jobs.{add_bytes}
use dfs_mapreduce.Mapreduce.Master.Run.{
  Job, Routine, waiting, assigned, placed, added, counted, completed, failing, has_read, skipped,
  Run, Turn, moved, blocked, crashed, World, Event, map_turn, reduce_turn, map_wait, reduce_wait,
  send_progress, with_run, nodes_of, after_map, after_reduce, start_map, start_reduce, step_map,
  step_reduce, has_ended, all_ended, start_run,
}
use dfs_mapreduce.Mapreduce.Master.Run.Steps.{
  start_reduces, complete, step, weigh, put_map, put_reduce, leave_maps, leave_reduces,
}
use dfs_mapreduce.Mapreduce.Master.Run.Ranks.{
  rank, map_place, left, phase_left, step-left, places_kept, weigh-repeat,
}

-- No worker of a task's attempts keeps a connection open without a report.
pub record WorldAnswers (world : World) : Type 0 where
  pub maps : (i : ℕ) → Answers (world.map_network i)
  pub reduces : (i : ℕ) → Answers (world.reduce_network i)

-- If not all goroutines have ended, there is one that has not.
unended :
    (rs : List Routine)
    → all_ended rs ≡ false
    → (i : ℕ) × (r : Routine) × (get_elem? rs i ≡ some r) × (has_ended r ≡ false)
unended [] e = absurd (ground arith)
unended (r ∷ rs) e = elim (Bool-cases (has_ended r)) [
  | inr f ↦ (0, r, refl, f)
  | inl f ↦ let (i, s, g, h) = unended rs (ground arith) in (suc i, s, g, h)
]

after_map-goes : (a : Assigned) (run : Run) → a ≢ no_report → with_run run (after_map a) ≢ blocked
unfolding after_map is_empty
after_map-goes (done addr []) run h e = ground arith
after_map-goes (done addr (b ∷ bytes)) run h e = ground arith
after_map-goes failed run h e = ground arith
after_map-goes no_report run h e = absurd (h refl)
after_map-goes lost_worker run h e = ground arith
after_map-goes out_of_fuel run h e = ground arith

after_reduce-goes :
    (a : Assigned) (run : Run) → a ≢ no_report → with_run run (after_reduce a) ≢ blocked
unfolding after_reduce
after_reduce-goes (done addr bytes) run h e = ground arith
after_reduce-goes failed run h e = ground arith
after_reduce-goes no_report run h e = absurd (h refl)
after_reduce-goes lost_worker run h e = ground arith
after_reduce-goes out_of_fuel run h e = ground arith

-- A goroutine that has not ended has a turn.
map-goes :
    (job : Job) (world : World)
    → WorldAnswers world
    → (i : ℕ) (r : Routine) (run : Run) → has_ended r ≡ false
    → step_map job world i r run ≢ blocked
unfolding step_map start_map
map-goes job world answers i waiting run h e = elim (Option-cases (get_elem? run.map_task_list i)) [
  | inl f ↦ ground arith
  | inr (task, f) ↦ elim (Option-cases (nodes_of job task)) [
    | inl g ↦ ground arith
    | inr (nodes, g) ↦
        after_map-goes (assign_map_task (world.map_network i) nodes) run
          (assign_map_task_attempts (world.map_network i) nodes (answers.maps i)).0.0
          (rw (f, g, start_map, step_map) at e)
  ]
]
map-goes job world answers i (assigned addr bytes) run h e = ground arith
map-goes job world answers i (placed addr bytes) run h e =
    elim (Option-cases (add_bytes addr bytes run.reduce_data)) [
      | inl f ↦ ground arith
      | inr (table, f) ↦ ground arith
    ]
map-goes job world answers i (added addr bytes) run h e = ground arith
map-goes job world answers i (counted c addr bytes) run h e = ground arith
map-goes job world answers i failing run h e = ground arith
map-goes job world answers i (has_read c) run h e = ground arith
map-goes job world answers i (completed addr bytes) run h e = ground arith
map-goes job world answers i skipped run h e = ground arith

reduce-goes :
    (job : Job) (world : World)
    → WorldAnswers world
    → (i : ℕ) (r : Routine) (run : Run) → has_ended r ≡ false
    → map_place r ≡ 0
    → step_reduce job world i r run ≢ blocked
unfolding step_reduce start_reduce
reduce-goes job world answers i waiting run h k e =
    elim (Option-cases (get_elem? run.reduce_data i)) [
      | inl f ↦ ground arith
      | inr (bytes, f) ↦
          after_reduce-goes (assign_reduce_task (world.reduce_network i) bytes) run
            (assign_reduce_task-Ended (world.reduce_network i) bytes (answers.reduces i)).0
            (rw (f, start_reduce, step_reduce) at e)
    ]
reduce-goes job world answers i (assigned addr bytes) run h k e = ground arith
reduce-goes job world answers i (placed addr bytes) run h k e = ground arith
reduce-goes job world answers i (added addr bytes) run h k e = ground arith
reduce-goes job world answers i (counted c addr bytes) run h k e = ground arith
reduce-goes job world answers i failing run h k e = ground arith
reduce-goes job world answers i (has_read c) run h k e = ground arith
reduce-goes job world answers i (completed addr bytes) run h k e = ground arith
reduce-goes job world answers i skipped run h k e = ground arith

weigh-get :
    (i : ℕ) (r : Routine) (rs : List Routine)
    → get_elem? rs i ≡ some r
    → weigh map_place rs ≡ 0
    → map_place r ≡ 0
weigh-get i r [] e h = absurd (ground arith)
weigh-get zero r (x ∷ rs) e h = omega (arith, ap map_place (some_inj e), h)
weigh-get (suc i) r (x ∷ rs) e h = weigh-get i r rs e (omega (arith, h))

put_map-goes : (i : ℕ) (t : Turn (Routine × Run)) → put_map i t ≡ blocked → t ≡ blocked
put_map-goes i blocked e = refl
put_map-goes i crashed e = absurd (ground arith)
put_map-goes i (moved (r, run)) e = absurd (ground arith)

put_reduce-goes : (i : ℕ) (t : Turn (Routine × Run)) → put_reduce i t ≡ blocked → t ≡ blocked
put_reduce-goes i blocked e = refl
put_reduce-goes i crashed e = absurd (ground arith)
put_reduce-goes i (moved (r, run)) e = absurd (ground arith)

-- A state that is not the last one has a step.
module _ (job : Job) (world : World) (answers : WorldAnswers world) (run : Run) where
  map_phase-goes : run.phase ≡ map_task → (event : Event) × (step job world event run ≢ blocked)
  unfolding step
  map_phase-goes p = elim (Bool-cases (all_ended run.maps)) [
    | inl f ↦
        let there : step job world map_wait run ≡ moved (start_reduces job run) =
          ap (λ x. leave_maps job run x (all_ended run.maps)) p
          ∙ ap (leave_maps job run map_task) f in
        (map_wait, λ e. ground (arith, e, there))
    | inr f ↦
        let (i, r, g, h) = unended run.maps f in
        (
          map_turn i,
          λ e.
              map-goes job world answers i r run h
                (put_map-goes i (step_map job world i r run) (rw (g, step) at e)),
        )
  ]

  reduce_phase-goes :
      run.phase ≡ reduce_task
      → run.finished ≡ false
      → weigh map_place run.reduces ≡ 0
      → (event : Event) × (step job world event run ≢ blocked)
  unfolding step
  reduce_phase-goes p u k = elim (Bool-cases (all_ended run.reduces)) [
    | inl f ↦
        let there : step job world reduce_wait run ≡ moved (complete job run) =
          ap (λ x. leave_reduces job run x (all_ended run.reduces) run.finished) p
          ∙ ap (λ x. leave_reduces job run reduce_task x run.finished) f
          ∙ ap (leave_reduces job run reduce_task true) u in
        (reduce_wait, λ e. ground (arith, e, there))
    | inr f ↦
        let (i, r, g, h) = unended run.reduces f in
        (
          reduce_turn i,
          λ e.
              reduce-goes job world answers i r run h (weigh-get i r run.reduces g k)
                (put_reduce-goes i (step_reduce job world i r run) (rw (g, step) at e)),
        )
  ]

-- At most `n` steps are left, under every schedule; until the job is finished there is a step, which
-- a panic may take.
pub data EndsWithin (job : Job) (world : World) : ℕ → Run → Type 0 where
  over : {n : ℕ} {run : Run} → run.finished ≡ true → EndsWithin job world n run
  goes_on :
      {n : ℕ} {run : Run} (event : Event)
      → step job world event run ≢ blocked
      → ((e : Event) (next : Run) → step job world e run ≡ moved next → EndsWithin job world n next)
      → EndsWithin job world (suc n) run

TaskType-cases : (t : TaskType) → (t ≡ map_task) ⊎ (t ≡ reduce_task)
TaskType-cases map_task = inl refl
TaskType-cases reduce_task = inr refl

phase_left-unfinished : (n : ℕ) (t : TaskType) → 1 ≤ phase_left n t false
phase_left-unfinished n map_task = omega arith
phase_left-unfinished n reduce_task = omega arith

unfinished-left : (job : Job) (run : Run) → run.finished ≡ false → 1 ≤ left job run
unfinished-left job run u = omega (
  arith,
  phase_left-unfinished job.num_reducers run.phase,
  ap (phase_left job.num_reducers run.phase) u,
)

unfinished-goes :
    (job : Job) (world : World) (answers : WorldAnswers world) (run : Run)
    → run.finished ≡ false
    → weigh map_place run.reduces ≡ 0
    → (event : Event) × (step job world event run ≢ blocked)
unfinished-goes job world answers run u k = elim (TaskType-cases run.phase) [
  | inl p ↦ map_phase-goes job world answers run p
  | inr p ↦ reduce_phase-goes job world answers run p u k
]

left-EndsWithin :
    (job : Job) (world : World) (answers : WorldAnswers world) (n : ℕ) (run : Run)
    → left job run ≤ n
    → weigh map_place run.reduces ≡ 0
    → EndsWithin job world n run
left-EndsWithin job world answers zero run h k = elim (Bool-cases run.finished) [
  | inl u ↦ EndsWithin.over u
  | inr u ↦ absurd (omega (arith, h, unfinished-left job run u))
]
left-EndsWithin job world answers (suc n) run h k = elim (Bool-cases run.finished) [
  | inl u ↦ EndsWithin.over u
  | inr u ↦
      let (event, goes) = unfinished-goes job world answers run u k in
      EndsWithin.goes_on event goes (λ e next s.
        left-EndsWithin job world answers n next
          (omega (arith, h, step-left job world e run next s))
          (places_kept job world e run next s k))
]

-- If no worker keeps a connection open without a report, then under every schedule of the
-- goroutines a job takes at most five steps for each map task and each reduce task, and two for
-- the waits; and in each state before its end there is a step to take, so no schedule is stuck. A
-- panic counts as an end.
pub runs_EndsWithin :
    (job : Job) (world : World)
    → WorldAnswers world
    → EndsWithin job world (length job.tasks * 5 + job.num_reducers * 5 + 2) (start_run job)
unfolding start_run send_progress
runs_EndsWithin job world answers =
    left-EndsWithin job world answers (length job.tasks * 5 + job.num_reducers * 5 + 2)
      (start_run job) (omega (arith, weigh-repeat rank (length job.tasks))) refl
