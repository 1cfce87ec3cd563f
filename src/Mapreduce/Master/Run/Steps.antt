-- ===== src/Mapreduce/Master/Run/Steps.antt =====
-- The steps of runJob of mapreduce/master/master.go in any order of its goroutines, and what they
-- leave of the tasks.
use dfs_mapreduce.Base.{
  ℕ, zero, suc, ◌+◌, ◌≡◌, refl, Bool, true, false, none, some, List, [], ◌∷◌, get_elem?, some_inj,
  arith, ap, inl, inr, ◌⊎◌, Option-cases,
}
use dfs_mapreduce.Mapreduce.Messages.{TaskType, map_task, reduce_task}
use dfs_mapreduce.Mapreduce.Master.Run.{
  Job, Routine, waiting, Run, Turn, moved, blocked, crashed, World, Event, map_turn, reduce_turn,
  map_wait, reduce_wait, repeat, set_elem, send_progress, step_map, step_reduce, all_ended,
  start_run,
}

abbrev pub put_map : ℕ → Turn (Routine × Run) → Turn Run
put_map i blocked = blocked
put_map i crashed = crashed
put_map i (moved (r, run)) = moved (record run { maps = set_elem i r run.maps })

abbrev pub put_reduce : ℕ → Turn (Routine × Run) → Turn Run
put_reduce i blocked = blocked
put_reduce i crashed = crashed
put_reduce i (moved (r, run)) = moved (record run { reduces = set_elem i r run.reduces })

-- After the first wait: the phase, its first message, and the goroutines of the reduce tasks.
unfoldable pub start_reduces : Job → Run → Run
unfolding send_progress
start_reduces job run = send_progress job "REDUCE" 0 job.num_reducers false false "" (record run {
  phase = reduce_task;
  reduce_completed = 0;
  reduces = repeat job.num_reducers waiting;
})

-- After the second wait: the last message, and the job is deleted.
unfoldable pub complete : Job → Run → Run
unfolding send_progress
complete job run =
    send_progress job "COMPLETED" 0 0 true false "Job completed successfully"
      (record run { finished = true })

-- The first wait, which ends in the map phase when all its goroutines have ended.
abbrev pub leave_maps : Job → Run → TaskType → Bool → Turn Run
leave_maps job run map_task true = moved (start_reduces job run)
leave_maps job run map_task false = blocked
leave_maps job run reduce_task ended = blocked

-- The second wait.
abbrev pub leave_reduces : Job → Run → TaskType → Bool → Bool → Turn Run
leave_reduces job run reduce_task true false = moved (complete job run)
leave_reduces job run reduce_task true true = blocked
leave_reduces job run reduce_task false finished = blocked
leave_reduces job run map_task ended finished = blocked

unfoldable pub step : Job → World → Event → Run → Turn Run
unfolding step_map step_reduce start_reduces complete
step job world (map_turn i) run = elim (get_elem? run.maps i) [
  | none ↦ blocked
  | some r ↦ put_map i (step_map job world i r run)
]
step job world (reduce_turn i) run = elim (get_elem? run.reduces i) [
  | none ↦ blocked
  | some r ↦ put_reduce i (step_reduce job world i r run)
]
step job world map_wait run = leave_maps job run run.phase (all_ended run.maps)
step job world reduce_wait run =
    leave_reduces job run run.phase (all_ended run.reduces) run.finished

-- The states of runJob under any schedule.
pub data Reaches (job : Job) (world : World) : Run → Type 0 where
  started : Reaches job world (start_run job)
  stepped :
      {run next : Run} (event : Event)
      → Reaches job world run
      → step job world event run ≡ moved next
      → Reaches job world next

-- A sum over the goroutines.
abbrev pub weigh : (Routine → ℕ) → List Routine → ℕ
weigh f [] = 0
weigh f (r ∷ rs) = f r + weigh f rs

pub weigh-set_elem :
    (f : Routine → ℕ) (i : ℕ) (old new : Routine) (rs : List Routine)
    → get_elem? rs i ≡ some old
    → weigh f (set_elem i new rs) + f old ≡ weigh f rs + f new
weigh-set_elem f i old new [] e = absurd (ground arith)
weigh-set_elem f zero old new (r ∷ rs) e = omega (arith, ap f (some_inj e))
weigh-set_elem f (suc i) old new (r ∷ rs) e = omega (arith, weigh-set_elem f i old new rs e)

pub moved_inj : {A : Type 0} {x y : A} → moved x ≡ moved y → x ≡ y
moved_inj {x = x} e = ap (λ t. elim t [ moved a ↦ a | blocked ↦ x | crashed ↦ x ]) e

-- Moved, or not.
pub Turn-cases :
    {A : Type 0} (t : Turn A) → ((a : A) × (t ≡ moved a)) ⊎ ((t ≡ blocked) ⊎ (t ≡ crashed))
Turn-cases (moved a) = inl (a, refl)
Turn-cases blocked = inr (inl refl)
Turn-cases crashed = inr (inr refl)

-- A step of a map task: where its goroutine was, and where it is.
pub map_turn-moved :
    (job : Job) (world : World) (i : ℕ) (run next : Run)
    → step job world (map_turn i) run ≡ moved next
    → (old : Routine) × (new : Routine) × (mid : Run) × (get_elem? run.maps i ≡ some old)
      × (step_map job world i old run ≡ moved (new, mid))
      × (record mid { maps = set_elem i new mid.maps } ≡ next)
unfolding step
map_turn-moved job world i run next e = elim (Option-cases (get_elem? run.maps i)) [
  | inl f ↦ absurd (ground arith)
  | inr (old, f) ↦ elim (Turn-cases (step_map job world i old run)) [
    | inl ((new, mid), g) ↦ (old, new, mid, f, g, moved_inj (rw (f, g, step) at e))
    | inr (inl g) ↦ absurd (ground arith)
    | inr (inr g) ↦ absurd (ground arith)
  ]
]

pub reduce_turn-moved :
    (job : Job) (world : World) (i : ℕ) (run next : Run)
    → step job world (reduce_turn i) run ≡ moved next
    → (old : Routine) × (new : Routine) × (mid : Run) × (get_elem? run.reduces i ≡ some old)
      × (step_reduce job world i old run ≡ moved (new, mid))
      × (record mid { reduces = set_elem i new mid.reduces } ≡ next)
unfolding step
reduce_turn-moved job world i run next e = elim (Option-cases (get_elem? run.reduces i)) [
  | inl f ↦ absurd (ground arith)
  | inr (old, f) ↦ elim (Turn-cases (step_reduce job world i old run)) [
    | inl ((new, mid), g) ↦ (old, new, mid, f, g, moved_inj (rw (f, g, step) at e))
    | inr (inl g) ↦ absurd (ground arith)
    | inr (inr g) ↦ absurd (ground arith)
  ]
]

leave_maps-moved :
    (job : Job) (run next : Run) (phase : TaskType) (ended : Bool)
    → leave_maps job run phase ended ≡ moved next
    → (phase ≡ map_task) × (ended ≡ true) × (start_reduces job run ≡ next)
leave_maps-moved job run next map_task true e = (refl, refl, moved_inj e)
leave_maps-moved job run next map_task false e = absurd (ground arith)
leave_maps-moved job run next reduce_task ended e = absurd (ground arith)

leave_reduces-moved :
    (job : Job) (run next : Run) (phase : TaskType) (ended finished : Bool)
    → leave_reduces job run phase ended finished ≡ moved next
    → (phase ≡ reduce_task) × (ended ≡ true) × (finished ≡ false) × (complete job run ≡ next)
leave_reduces-moved job run next reduce_task true false e = (refl, refl, refl, moved_inj e)
leave_reduces-moved job run next reduce_task true true e = absurd (ground arith)
leave_reduces-moved job run next reduce_task false finished e = absurd (ground arith)
leave_reduces-moved job run next map_task ended finished e = absurd (ground arith)

pub map_wait-moved :
    (job : Job) (world : World) (run next : Run)
    → step job world map_wait run ≡ moved next
    → (run.phase ≡ map_task) × (all_ended run.maps ≡ true) × (start_reduces job run ≡ next)
unfolding step
map_wait-moved job world run next e = leave_maps-moved job run next run.phase (all_ended run.maps) e

pub reduce_wait-moved :
    (job : Job) (world : World) (run next : Run)
    → step job world reduce_wait run ≡ moved next
    → (run.phase ≡ reduce_task)
      × (all_ended run.reduces ≡ true)
      × (run.finished ≡ false)
      × (complete job run ≡ next)
unfolding step
reduce_wait-moved job world run next e =
    leave_reduces-moved job run next run.phase (all_ended run.reduces) run.finished e
