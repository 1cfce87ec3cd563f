-- ===== src/Mapreduce/Master/Run/Reached.antt =====
-- The counters and the reduce data of runJob of mapreduce/master/master.go in every state that it reaches.
use dfs_mapreduce.Base.{
  ℕ, zero, suc, ◌≡◌, refl, String, some, [], length, get_elem?, arith, ap, sym, subst, lookup,
}
use dfs_mapreduce.Mapreduce.Master.Jobs.{count_of}
use dfs_mapreduce.Mapreduce.Master.Jobs.Bytes.{held}
use dfs_mapreduce.Mapreduce.Master.Run.{
  Job, Routine, waiting, Run, World, map_turn, reduce_turn, map_wait, reduce_wait, repeat, set_elem,
  send_progress, start_run,
}
use dfs_mapreduce.Mapreduce.Master.Run.Steps.{
  start_reduces, complete, Reaches, weigh, map_turn-moved, reduce_turn-moved, map_wait-moved,
  reduce_wait-moved,
}
use dfs_mapreduce.Mapreduce.Master.Run.Moves.{step_map-moves, step_reduce-moves}
use dfs_mapreduce.Mapreduce.Master.Run.Counts.{
  is_counted, bytes_of, IsCounted, Adds, AddsReduce, map-Adds, reduce-Adds, weigh-others,
}

IsCounted-map :
    (i : ℕ) (run mid : Run) (old new : Routine)
    → get_elem? run.maps i ≡ some old
    → Adds run mid old new
    → IsCounted run
    → IsCounted (record mid { maps = set_elem i new mid.maps })
IsCounted-map i run mid old new e a c =
    let same : (f : Routine → ℕ)
        → weigh f (set_elem i new mid.maps) ≡ weigh f (set_elem i new run.maps) =
      λ f. ap (λ rs. weigh f (set_elem i new rs)) (sym a.maps_same) in
    record {
      maps =
          let (n, p, q) = weigh-others is_counted i old new run.maps e in
          omega (arith, a.map_count n (omega (arith, c.maps, p)), q, same is_counted);
      reduces = omega (arith, c.reduces, a.reduce_same, ap (weigh is_counted) a.reduces_same);
      bytes = λ r w.
          let (n, p, q) = weigh-others (bytes_of r w) i old new run.maps e in
          omega (arith, a.byte_count r w n (omega (arith, c.bytes r w, p)), q, same (bytes_of r w));
    }

IsCounted-reduce :
    (i : ℕ) (run mid : Run) (old new : Routine)
    → get_elem? run.reduces i ≡ some old
    → AddsReduce run mid old new
    → IsCounted run
    → IsCounted (record mid { reduces = set_elem i new mid.reduces })
IsCounted-reduce i run mid old new e a c =
    let same : weigh is_counted (set_elem i new mid.reduces)
        ≡ weigh is_counted (set_elem i new run.reduces) =
      ap (λ rs. weigh is_counted (set_elem i new rs)) (sym a.reduces_same) in
    record {
      maps = omega (arith, c.maps, a.map_same, ap (weigh is_counted) a.maps_same);
      reduces =
          let (n, p, q) = weigh-others is_counted i old new run.reduces e in
          omega (arith, a.reduce_count n (omega (arith, c.reduces, p)), q, same);
      bytes = λ r w.
          omega
            (arith, c.bytes r w, ap (held r w) a.data_same, ap (weigh (bytes_of r w)) a.maps_same);
    }

weigh-repeat : (f : Routine → ℕ) (n : ℕ) → f waiting ≡ 0 → weigh f (repeat n waiting) ≡ 0
weigh-repeat f zero e = refl
weigh-repeat f (suc n) e = omega (arith, e, weigh-repeat f n e)

held-repeat : (r n : ℕ) (w : String) → held r w (repeat n []) ≡ 0
unfolding count_of lookup
held-repeat r zero w = refl
held-repeat zero (suc n) w = refl
held-repeat (suc r) (suc n) w = held-repeat r n w

IsCounted-start : (job : Job) → IsCounted (start_run job)
unfolding start_run send_progress
IsCounted-start job =
    let none_yet : (f : Routine → ℕ)
        → f waiting ≡ 0
        → weigh f (repeat (length job.tasks) waiting) ≡ 0 =
      λ f. weigh-repeat f (length job.tasks) in
    record {
      maps = omega (arith, none_yet is_counted refl);
      reduces = refl;
      bytes = λ r w. omega (arith, none_yet (bytes_of r w) refl, held-repeat r job.num_reducers w);
    }

IsCounted-start_reduces :
    (job : Job) (run : Run) → IsCounted run → IsCounted (start_reduces job run)
unfolding start_reduces send_progress
IsCounted-start_reduces job run c = record {
  maps = c.maps;
  reduces = omega (arith, weigh-repeat is_counted job.num_reducers refl);
  bytes = c.bytes;
}

IsCounted-complete : (job : Job) (run : Run) → IsCounted run → IsCounted (complete job run)
unfolding complete send_progress
IsCounted-complete job run c = record { maps = c.maps; reduces = c.reduces; bytes = c.bytes }

IsCounted-reached : {job : Job} {world : World} {run : Run} → Reaches job world run → IsCounted run
unfolding send_progress
IsCounted-reached {job = job} Reaches.started = IsCounted-start job
IsCounted-reached {job = job} {world = world}
      (Reaches.stepped {run = run} {next = next} (map_turn i) r e) =
    let (old, new, mid, f, g, same) = map_turn-moved job world i run next e in
    subst IsCounted same (
      IsCounted-map i run mid old new f
        (map-Adds job world i run (step_map-moves job world i run old new mid g))
        (IsCounted-reached r))
IsCounted-reached {job = job} {world = world}
      (Reaches.stepped {run = run} {next = next} (reduce_turn i) r e) =
    let (old, new, mid, f, g, same) = reduce_turn-moved job world i run next e in
    subst IsCounted same (
      IsCounted-reduce i run mid old new f
        (reduce-Adds job world run (step_reduce-moves job world run i old new mid g))
        (IsCounted-reached r))
IsCounted-reached {job = job} {world = world}
      (Reaches.stepped {run = run} {next = next} map_wait r e) =
    let (p, q, same) = map_wait-moved job world run next e in
    subst IsCounted same (IsCounted-start_reduces job run (IsCounted-reached r))
IsCounted-reached {job = job} {world = world}
      (Reaches.stepped {run = run} {next = next} reduce_wait r e) =
    let (p, q, u, same) = reduce_wait-moved job world run next e in
    subst IsCounted same (IsCounted-complete job run (IsCounted-reached r))

-- Whatever the order of the goroutines' turns, and whatever the workers do, in every state that
-- the job reaches: each counter is the number of the tasks that are done and counted, modulo 2 ^
-- 32, and what is held for a reducer and a worker is the sum of the bytes that the worker's tasks
-- have added for the reducer, modulo 2 ^ 64.
pub Reaches-IsCounted :
    (job : Job) (world : World) (run : Run) → Reaches job world run → IsCounted run
Reaches-IsCounted job world run r = IsCounted-reached r
