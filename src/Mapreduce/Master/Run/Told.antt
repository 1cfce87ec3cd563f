-- ===== src/Mapreduce/Master/Run/Told.antt =====
-- What runJob of mapreduce/master/master.go has told the client in each state that it reaches.
use dfs_mapreduce.Base.{
  ℕ, ◌+◌, ◌%◌, ◌^◌, ◌≡◌, refl, Bool, true, false, List, [], ◌∷◌, ◌++◌, length, get_elem?, arith, ap,
  sym, subst, Bool-cases, inl, inr, ◌∙◌, All, All-append,
}
use dfs_mapreduce.Mapreduce.Messages.{map_task, reduce_task}
use dfs_mapreduce.Mapreduce.Messages.Send.{send_job_progress}
use dfs_mapreduce.Mapreduce.Master.Run.{
  Job, Routine, waiting, completed, skipped, Run, moved, World, Event, map_turn, reduce_turn,
  map_wait, reduce_wait, set_elem, send_progress, all_ended, start_run,
}
use dfs_mapreduce.Mapreduce.Master.Run.Steps.{
  start_reduces, complete, step, Reaches, weigh, weigh-set_elem, map_turn-moved, reduce_turn-moved,
  map_wait-moved, reduce_wait-moved,
}
use dfs_mapreduce.Mapreduce.Master.Run.Moves.{step_map-moves, step_reduce-moves}
use dfs_mapreduce.Mapreduce.Master.Run.Ranks.{
  rank, left, step-left, map-Lowers, reduce-Lowers, weigh-repeat, phase_left,
}
use dfs_mapreduce.Mapreduce.Master.Run.Sent.{
  IsOpen, failures, skip_count, last_message, AreSent, failures-append, map-Tells, reduce-Tells,
}

pub record IsTold (job : Job) (run : Run) : Type 0 where
  pub sent : AreSent job run.finished run.sent
  pub failed : failures run.sent ≡ weigh skip_count run.maps + weigh skip_count run.reduces
  maps_over : run.phase ≡ reduce_task → weigh rank run.maps ≡ 0
  no_reduces : run.phase ≡ map_task → run.reduces ≡ []
  over : run.finished ≡ true → left job run ≡ 0

-- No step leads on from a finished job.
unfinished :
    (job : Job) (world : World) (event : Event) (run next : Run)
    → IsTold job run
    → step job world event run ≡ moved next
    → run.finished ≡ false
unfinished job world event run next t e = elim (Bool-cases run.finished) [
  | inr u ↦ u
  | inl u ↦ absurd (omega (arith, t.over u, step-left job world event run next e))
]

all_ended-rank : (rs : List Routine) → all_ended rs ≡ true → weigh rank rs ≡ 0
all_ended-rank [] e = refl
all_ended-rank (completed addr bytes ∷ rs) e = omega (arith, all_ended-rank rs e)
all_ended-rank (skipped ∷ rs) e = omega (arith, all_ended-rank rs e)
all_ended-rank (waiting ∷ rs) e = absurd (ground arith)
all_ended-rank (Routine.assigned addr bytes ∷ rs) e = absurd (ground arith)
all_ended-rank (Routine.placed addr bytes ∷ rs) e = absurd (ground arith)
all_ended-rank (Routine.added addr bytes ∷ rs) e = absurd (ground arith)
all_ended-rank (Routine.counted c addr bytes ∷ rs) e = absurd (ground arith)
all_ended-rank (Routine.failing ∷ rs) e = absurd (ground arith)
all_ended-rank (Routine.has_read c ∷ rs) e = absurd (ground arith)

-- The messages so far, in a state that is not finished.
IsTold-IsOpen :
    (job : Job) (run : Run) → IsTold job run → run.finished ≡ false → All IsOpen run.sent
IsTold-IsOpen job run t u = subst (λ b. AreSent job b run.sent) u t.sent

closed : {A : Type 0} (b c : Bool) → b ≡ false → b ≡ c → c ≡ true → A
closed b c e f g = absurd (ground arith)

IsTold-map :
    (job : Job) (world : World) (i : ℕ) (run next : Run)
    → step job world (map_turn i) run ≡ moved next
    → IsTold job run
    → IsTold job next
IsTold-map job world i run next e t =
    let u = unfinished job world (map_turn i) run next t e in
    let (old, new, mid, f, g, same) = map_turn-moved job world i run next e in
    let m = step_map-moves job world i run old new mid g in
    let l = map-Lowers job world i run m in
    let says = map-Tells job world i run m in
    let sums : (h : Routine → ℕ)
        → weigh h (set_elem i new mid.maps) + h old ≡ weigh h run.maps + h new =
      λ h.
        ap (λ rs. weigh h (set_elem i new rs) + h old) (sym l.maps_same)
        ∙ weigh-set_elem h i old new run.maps f in
    let still : mid.finished ≡ false = sym l.finished_same ∙ u in
    subst (IsTold job) same (record {
      sent =
          subst (λ b. AreSent job b mid.sent) (sym still) (says.opens (IsTold-IsOpen job run t u));
      failed =
          omega
            (arith, says.failed, t.failed, sums skip_count, ap (weigh skip_count) l.reduces_same);
      maps_over = λ p. omega (arith, sums rank, l.lower, t.maps_over (l.phase_same ∙ p));
      no_reduces = λ p. sym l.reduces_same ∙ t.no_reduces (l.phase_same ∙ p);
      over = λ p. closed mid.finished mid.finished still refl p;
    })

IsTold-reduce :
    (job : Job) (world : World) (i : ℕ) (run next : Run)
    → step job world (reduce_turn i) run ≡ moved next
    → IsTold job run
    → IsTold job next
IsTold-reduce job world i run next e t =
    let u = unfinished job world (reduce_turn i) run next t e in
    let (old, new, mid, f, g, same) = reduce_turn-moved job world i run next e in
    let m = step_reduce-moves job world run i old new mid g in
    let l = (reduce-Lowers job world run m).0 in
    let says = reduce-Tells job world run m in
    let sums : (h : Routine → ℕ)
        → weigh h (set_elem i new mid.reduces) + h old ≡ weigh h run.reduces + h new =
      λ h.
        ap (λ rs. weigh h (set_elem i new rs) + h old) (sym l.reduces_same)
        ∙ weigh-set_elem h i old new run.reduces f in
    let still : mid.finished ≡ false = sym l.finished_same ∙ u in
    subst (IsTold job) same (record {
      sent =
          subst (λ b. AreSent job b mid.sent) (sym still) (says.opens (IsTold-IsOpen job run t u));
      failed =
          omega (arith, says.failed, t.failed, sums skip_count, ap (weigh skip_count) l.maps_same);
      maps_over = λ p. ap (weigh rank) (sym l.maps_same) ∙ t.maps_over (l.phase_same ∙ p);
      no_reduces = λ p.
          let empty : run.reduces ≡ [] = t.no_reduces (l.phase_same ∙ p) in
          absurd (ground (arith, f, ap (λ rs. get_elem? rs i) empty));
      over = λ p. closed mid.finished mid.finished still refl p;
    })

IsTold-map_wait :
    (job : Job) (world : World) (run next : Run)
    → step job world map_wait run ≡ moved next
    → IsTold job run
    → IsTold job next
unfolding start_reduces send_progress send_job_progress
IsTold-map_wait job world run next e t =
    let u = unfinished job world map_wait run next t e in
    let (p, q, same) = map_wait-moved job world run next e in
    let message = send_job_progress job.id "REDUCE" 0 (job.num_reducers % 2 ^ 32) false false "" in
    subst (IsTold job) same (record {
      sent =
          subst (λ b. AreSent job b (run.sent ++ message ∷ [])) (sym u)
            (All-append IsOpen run.sent (message ∷ []) (IsTold-IsOpen job run t u)
              ((refl, refl), tt));
      failed = omega (
        arith,
        t.failed,
        failures-append run.sent (message ∷ []),
        ap (weigh skip_count) (t.no_reduces p),
        weigh-repeat skip_count job.num_reducers,
      );
      maps_over = λ r. all_ended-rank run.maps q;
      no_reduces = λ r. absurd (ground arith);
      over = λ r. closed run.finished run.finished u refl r;
    })

IsTold-reduce_wait :
    (job : Job) (world : World) (run next : Run)
    → step job world reduce_wait run ≡ moved next
    → IsTold job run
    → IsTold job next
unfolding complete send_progress send_job_progress
IsTold-reduce_wait job world run next e t =
    let u = unfinished job world reduce_wait run next t e in
    let (p, q, v, same) = reduce_wait-moved job world run next e in
    let nothing : phase_left job.num_reducers run.phase true ≡ 0 =
      ap (λ x. phase_left job.num_reducers x true) p in
    subst (IsTold job) same (record {
      sent = (run.sent, IsTold-IsOpen job run t u, refl);
      failed = omega (arith, t.failed, failures-append run.sent (last_message job ∷ []));
      maps_over = t.maps_over;
      no_reduces = t.no_reduces;
      over = λ r. omega (arith, t.maps_over p, all_ended-rank run.reduces q, nothing);
    })

IsTold-start : (job : Job) → IsTold job (start_run job)
unfolding start_run send_progress send_job_progress
IsTold-start job = record {
  sent = ((refl, refl), tt);
  failed = omega (arith, weigh-repeat skip_count (length job.tasks));
  maps_over = λ p. absurd (ground arith);
  no_reduces = λ p. refl;
  over = λ p. absurd (ground arith);
}

pub Reaches-IsTold :
    {job : Job} {world : World} {run : Run} → Reaches job world run → IsTold job run
unfolding start_run
Reaches-IsTold {job = job} Reaches.started = IsTold-start job
Reaches-IsTold {job = job} {world = world}
      (Reaches.stepped {run = run} {next = next} (map_turn i) r e) =
    IsTold-map job world i run next e (Reaches-IsTold r)
Reaches-IsTold {job = job} {world = world}
      (Reaches.stepped {run = run} {next = next} (reduce_turn i) r e) =
    IsTold-reduce job world i run next e (Reaches-IsTold r)
Reaches-IsTold {job = job} {world = world}
      (Reaches.stepped {run = run} {next = next} map_wait r e) =
    IsTold-map_wait job world run next e (Reaches-IsTold r)
Reaches-IsTold {job = job} {world = world}
      (Reaches.stepped {run = run} {next = next} reduce_wait r e) =
    IsTold-reduce_wait job world run next e (Reaches-IsTold r)
