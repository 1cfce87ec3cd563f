-- ===== src/Mapreduce/Master/Run/Ranks.antt =====
-- What the goroutines of runJob of mapreduce/master/master.go have left to do, and that each turn lowers it.
use dfs_mapreduce.Base.{
  ℕ, zero, suc, ◌+◌, ◌*◌, ◌≤◌, ◌<◌, ◌≡◌, refl, Bool, true, false, arith, ap, subst, ◌∙◌,
}
use dfs_mapreduce.Mapreduce.Messages.{TaskType, map_task, reduce_task}
use dfs_mapreduce.Mapreduce.Master.Run.{
  Job, Routine, waiting, assigned, placed, added, counted, completed, failing, has_read, skipped,
  Run, moved, World, Event, map_turn, reduce_turn, map_wait, reduce_wait, repeat, set_elem,
  send_progress,
}
use dfs_mapreduce.Mapreduce.Master.Run.Steps.{
  start_reduces, complete, step, weigh, weigh-set_elem, map_turn-moved, reduce_turn-moved,
  map_wait-moved, reduce_wait-moved,
}
use dfs_mapreduce.Mapreduce.Master.Run.Moves.{
  MapMove, ReduceMove, step_map-moves, step_reduce-moves,
}

-- The turns that a goroutine has left at most.
abbrev pub rank : Routine → ℕ
rank waiting = 5
rank (assigned addr bytes) = 4
rank (placed addr bytes) = 3
rank (added addr bytes) = 2
rank (counted c addr bytes) = 1
rank (completed addr bytes) = 0
rank failing = 2
rank (has_read c) = 1
rank skipped = 0

abbrev pub phase_left : ℕ → TaskType → Bool → ℕ
phase_left n map_task finished = n * 5 + 2
phase_left n reduce_task false = 1
phase_left n reduce_task true = 0

abbrev pub left : Job → Run → ℕ
left job run =
    weigh rank run.maps
    + weigh rank run.reduces
    + phase_left job.num_reducers run.phase run.finished

-- A goroutine has gone on, and the others have not.
pub record Lowers (run mid : Run) (old new : Routine) : Type 0 where
  pub lower : rank new < rank old
  pub maps_same : run.maps ≡ mid.maps
  pub reduces_same : run.reduces ≡ mid.reduces
  pub phase_same : run.phase ≡ mid.phase
  pub finished_same : run.finished ≡ mid.finished

lowers :
    (run mid : Run) (old new : Routine)
    → rank new < rank old
    → run.maps ≡ mid.maps
    → run.reduces ≡ mid.reduces
    → run.phase ≡ mid.phase
    → run.finished ≡ mid.finished
    → Lowers run mid old new
lowers run mid old new a b c d e = record {
  lower = a;
  maps_same = b;
  reduces_same = c;
  phase_same = d;
  finished_same = e;
}

pub map-Lowers :
    (job : Job) (world : World) (i : ℕ) (run : Run) {mid : Run} {old new : Routine}
    → MapMove job world i run old new mid
    → Lowers run mid old new
unfolding send_progress
map-Lowers job world i run MapMove.begins = lowers run _ _ _ (omega arith) refl refl refl refl
map-Lowers job world i run MapMove.fails = lowers run _ _ _ (omega arith) refl refl refl refl
map-Lowers job world i run MapMove.places = lowers run _ _ _ (omega arith) refl refl refl refl
map-Lowers job world i run (MapMove.adds e) = lowers run _ _ _ (omega arith) refl refl refl refl
map-Lowers job world i run MapMove.counts = lowers run _ _ _ (omega arith) refl refl refl refl
map-Lowers job world i run MapMove.tells = lowers run _ _ _ (omega arith) refl refl refl refl
map-Lowers job world i run MapMove.reads = lowers run _ _ _ (omega arith) refl refl refl refl
map-Lowers job world i run MapMove.skips = lowers run _ _ _ (omega arith) refl refl refl refl

-- One for the places that only a map task has.
abbrev pub map_place : Routine → ℕ
map_place waiting = 0
map_place (assigned addr bytes) = 1
map_place (placed addr bytes) = 1
map_place (added addr bytes) = 0
map_place (counted c addr bytes) = 0
map_place (completed addr bytes) = 0
map_place failing = 0
map_place (has_read c) = 0
map_place skipped = 0

pub reduce-Lowers :
    (job : Job) (world : World) (run : Run) {mid : Run} {old new : Routine}
    → ReduceMove job world run old new mid
    → Lowers run mid old new × (map_place new ≡ 0)
unfolding send_progress
reduce-Lowers job world run ReduceMove.begins =
    (lowers run _ _ _ (omega arith) refl refl refl refl, refl)
reduce-Lowers job world run ReduceMove.fails =
    (lowers run _ _ _ (omega arith) refl refl refl refl, refl)
reduce-Lowers job world run ReduceMove.counts =
    (lowers run _ _ _ (omega arith) refl refl refl refl, refl)
reduce-Lowers job world run ReduceMove.tells =
    (lowers run _ _ _ (omega arith) refl refl refl refl, refl)
reduce-Lowers job world run ReduceMove.reads =
    (lowers run _ _ _ (omega arith) refl refl refl refl, refl)
reduce-Lowers job world run ReduceMove.skips =
    (lowers run _ _ _ (omega arith) refl refl refl refl, refl)

pub weigh-repeat : (f : Routine → ℕ) (n : ℕ) → weigh f (repeat n waiting) ≡ n * f waiting
weigh-repeat f zero = omega arith
weigh-repeat f (suc n) = omega (arith, weigh-repeat f n)

abbrev phase_of : Job → Run → ℕ
phase_of job run = phase_left job.num_reducers run.phase run.finished

phase_left-reduce : (n : ℕ) (finished : Bool) → phase_left n reduce_task finished ≤ 1
phase_left-reduce n true = omega arith
phase_left-reduce n false = omega arith

-- Each step lowers what is left.
pub step-left :
    (job : Job) (world : World) (event : Event) (run next : Run)
    → step job world event run ≡ moved next
    → left job next < left job run
unfolding start_reduces complete send_progress
step-left job world (map_turn i) run next e =
    let (old, new, mid, f, g, same) = map_turn-moved job world i run next e in
    let l = map-Lowers job world i run (step_map-moves job world i run old new mid g) in
    let sum = weigh-set_elem rank i old new run.maps f in
    let goal : left job (record mid { maps = set_elem i new mid.maps }) < left job run = omega (
      arith,
      sum,
      l.lower,
      ap (λ rs. weigh rank (set_elem i new rs)) l.maps_same,
      ap (weigh rank) l.reduces_same,
      ap (λ p. phase_left job.num_reducers p run.finished) l.phase_same,
      ap (phase_left job.num_reducers mid.phase) l.finished_same,
    ) in
    subst (λ x. left job x < left job run) same goal
step-left job world (reduce_turn i) run next e =
    let (old, new, mid, f, g, same) = reduce_turn-moved job world i run next e in
    let (l, place) =
      reduce-Lowers job world run (step_reduce-moves job world run i old new mid g) in
    let sum = weigh-set_elem rank i old new run.reduces f in
    let goal : left job (record mid { reduces = set_elem i new mid.reduces }) < left job run =
      omega (
        arith,
        sum,
        l.lower,
        ap (λ rs. weigh rank (set_elem i new rs)) l.reduces_same,
        ap (weigh rank) l.maps_same,
        ap (λ p. phase_left job.num_reducers p run.finished) l.phase_same,
        ap (phase_left job.num_reducers mid.phase) l.finished_same,
      ) in
    subst (λ x. left job x < left job run) same goal
step-left job world map_wait run next e =
    let (p, q, same) = map_wait-moved job world run next e in
    let phase : phase_of job run ≡ job.num_reducers * 5 + 2 =
      ap (λ x. phase_left job.num_reducers x run.finished) p in
    subst (λ x. left job x < left job run) same
      (omega (
        arith,
        phase,
        phase_left-reduce job.num_reducers run.finished,
        weigh-repeat rank job.num_reducers,
      ))
step-left job world reduce_wait run next e =
    let (p, q, u, same) = reduce_wait-moved job world run next e in
    let phase : phase_of job run ≡ 1 =
      ap (λ x. phase_left job.num_reducers x run.finished) p
      ∙ ap (phase_left job.num_reducers reduce_task) u in
    let now : phase_left job.num_reducers run.phase true ≡ 0 =
      ap (λ x. phase_left job.num_reducers x true) p in
    subst (λ x. left job x < left job run) same (omega (arith, phase, now))

-- No reduce task gets to a place of a map task.
pub places_kept :
    (job : Job) (world : World) (event : Event) (run next : Run)
    → step job world event run ≡ moved next
    → weigh map_place run.reduces ≡ 0
    → weigh map_place next.reduces ≡ 0
unfolding start_reduces complete send_progress
places_kept job world (map_turn i) run next e h =
    let (old, new, mid, f, g, same) = map_turn-moved job world i run next e in
    let l = map-Lowers job world i run (step_map-moves job world i run old new mid g) in
    subst (λ x. weigh map_place x.reduces ≡ 0) same
      (omega (arith, h, ap (weigh map_place) l.reduces_same))
places_kept job world (reduce_turn i) run next e h =
    let (old, new, mid, f, g, same) = reduce_turn-moved job world i run next e in
    let (l, place) =
      reduce-Lowers job world run (step_reduce-moves job world run i old new mid g) in
    subst (λ x. weigh map_place x.reduces ≡ 0) same
      (omega (
        arith,
        h,
        place,
        weigh-set_elem map_place i old new run.reduces f,
        ap (λ rs. weigh map_place (set_elem i new rs)) l.reduces_same,
      ))
places_kept job world map_wait run next e h =
    let (p, q, same) = map_wait-moved job world run next e in
    subst (λ x. weigh map_place x.reduces ≡ 0) same
      (omega (arith, weigh-repeat map_place job.num_reducers))
places_kept job world reduce_wait run next e h =
    let (p, q, u, same) = reduce_wait-moved job world run next e in
    subst (λ x. weigh map_place x.reduces ≡ 0) same h
