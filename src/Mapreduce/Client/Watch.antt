-- ===== src/Mapreduce/Client/Watch.antt =====
-- What the loop of submitJob of mapreduce/client/client.go shows of the messages that runJob of mapreduce/master/master.go
-- sends.
use dfs_mapreduce.Base.{
  ℕ, ◌+◌, ◌≡◌, refl, String, Bool, true, false, List, [], ◌∷◌, ◌++◌, All, arith, ap, sym, subst,
  ◌∙◌, append-nil, str_eq, eq_iff, Bool-cases, inl, inr, if◌then◌else◌,
}
use dfs_mapreduce.Mapreduce.Messages.{
  JobProgress, MapReduceWrapper, response, job_req, job_resp, heartbeat, task_assign, task_report,
  fetch_inter, job_progress,
}
use dfs_mapreduce.Mapreduce.Messages.Send.{send_job_response}
use dfs_mapreduce.Mapreduce.Master.Run.{Job, Run, World}
use dfs_mapreduce.Mapreduce.Master.Run.Steps.{Reaches, weigh}
use dfs_mapreduce.Mapreduce.Master.Run.Sent.{
  IsOpen, failures, skip_count, last_message, AreSent, failures-append,
}
use dfs_mapreduce.Mapreduce.Master.Run.Told.{Reaches-IsTold}
use dfs_mapreduce.Mapreduce.Client.{
  Line, task_failed, blank, success, starting, progress, Watched, accepted, watch, submit_job, say,
  failure_lines, progress_lines, between_phases,
}

-- The failures that are shown.
abbrev pub failures_shown : List Line → ℕ
failures_shown [] = 0
failures_shown (task_failed msg ∷ ls) = 1 + failures_shown ls
failures_shown (blank ∷ ls) = failures_shown ls
failures_shown (success msg ∷ ls) = failures_shown ls
failures_shown (starting phase ∷ ls) = failures_shown ls
failures_shown (progress c total ∷ ls) = failures_shown ls

failures_shown-append :
    (xs ys : List Line) → failures_shown (xs ++ ys) ≡ failures_shown xs + failures_shown ys
failures_shown-append [] ys = omega arith
failures_shown-append (task_failed msg ∷ xs) ys = omega (arith, failures_shown-append xs ys)
failures_shown-append (blank ∷ xs) ys = failures_shown-append xs ys
failures_shown-append (success msg ∷ xs) ys = failures_shown-append xs ys
failures_shown-append (starting phase ∷ xs) ys = failures_shown-append xs ys
failures_shown-append (progress c total ∷ xs) ys = failures_shown-append xs ys

-- The loop has shown each failure, and has ended or not.
pub record IsShown (w : Watched) (n : ℕ) (over : Bool) : Type 0 where
  pub ends : w.ended ≡ over
  pub count : failures_shown w.shown ≡ n

failures-line :
    (prog : JobProgress) → failures_shown (failure_lines prog) ≡ (if prog.is_error then 1 else 0)
failures-line prog = ground arith

failures-progress : (prog : JobProgress) → failures_shown (progress_lines prog) ≡ 0
failures-progress prog = ground arith

failures-between : (current : String) → failures_shown (between_phases current) ≡ 0
failures-between current = ground arith

IsShown-say :
    (ls : List Line) (n total : ℕ) (w : Watched) (over : Bool)
    → failures_shown ls + n ≡ total
    → IsShown w n over
    → IsShown (say ls w) total over
IsShown-say ls n total w over e s = record {
  ends = s.ends;
  count = omega (arith, failures_shown-append ls w.shown, e, s.count);
}

-- The lines that are shown for one message: its failure and no other.
lines_same :
    (prog : JobProgress)
    → failures_shown (failure_lines prog ++ progress_lines prog) ≡ (if prog.is_error then 1 else 0)
lines_same prog = omega (
  arith,
  failures_shown-append (failure_lines prog) (progress_lines prog),
  failures-line prog,
  failures-progress prog,
)

lines_other :
    (prog : JobProgress) (current : String) (line : Line) (more : List Line)
    → failures_shown (line ∷ more) ≡ 0
    → failures_shown (failure_lines prog ++ between_phases current ++ line ∷ more)
      ≡ (if prog.is_error then 1 else 0)
lines_other prog current line more e = omega (
  arith,
  failures_shown-append (failure_lines prog ++ between_phases current) (line ∷ more),
  failures_shown-append (failure_lines prog) (between_phases current),
  failures-line prog,
  failures-between current,
  e,
)

-- Messages that do not end the loop, and then those behind them.
IsShown-watch :
    (xs rest : List MapReduceWrapper) (current : String) (n : ℕ) (over : Bool)
    → All IsOpen xs
    → str_eq current "COMPLETED" ≡ false
    → ((now : String) → str_eq now "COMPLETED" ≡ false → IsShown (watch now rest) n over)
    → IsShown (watch current (xs ++ rest)) (failures xs + n) over
unfolding watch
IsShown-watch [] rest current n over h c f =
    let s = f current c in record { ends = s.ends; count = omega (arith, s.count) }
IsShown-watch (job_progress prog ∷ xs) rest current n over h c f =
    elim (Bool-cases (str_eq prog.phase current)) [
      | inl e ↦
          rw (e, watch)
            (IsShown-say (failure_lines prog ++ progress_lines prog) (failures xs + n)
              ((if prog.is_error then 1 else 0) + failures xs + n) (watch current (xs ++ rest)) over
              (omega (arith, lines_same prog)) (IsShown-watch xs rest current n over h.1 c f))
      | inr e ↦
          rw (e, h.0.0, watch)
            (IsShown-say
              (failure_lines prog
                ++ between_phases current
                ++ starting prog.phase ∷ progress_lines prog)
              (failures xs + n) ((if prog.is_error then 1 else 0) + failures xs + n)
              (watch prog.phase (xs ++ rest)) over
              (omega (
                arith,
                lines_other prog current (starting prog.phase) (progress_lines prog)
                    (failures-progress prog),
              ))
              (IsShown-watch xs rest prog.phase n over h.1 h.0.1 f))
    ]
IsShown-watch (response x ∷ xs) rest current n over h c f =
    IsShown-watch xs rest current n over h.1 c f
IsShown-watch (job_req x ∷ xs) rest current n over h c f =
    IsShown-watch xs rest current n over h.1 c f
IsShown-watch (job_resp x ∷ xs) rest current n over h c f =
    IsShown-watch xs rest current n over h.1 c f
IsShown-watch (heartbeat x ∷ xs) rest current n over h c f =
    IsShown-watch xs rest current n over h.1 c f
IsShown-watch (task_assign x ∷ xs) rest current n over h c f =
    IsShown-watch xs rest current n over h.1 c f
IsShown-watch (task_report x ∷ xs) rest current n over h c f =
    IsShown-watch xs rest current n over h.1 c f
IsShown-watch (fetch_inter x ∷ xs) rest current n over h c f =
    IsShown-watch xs rest current n over h.1 c f

IsShown-last :
    (job : Job) (now : String)
    → str_eq now "COMPLETED" ≡ false
    → IsShown (watch now (last_message job ∷ [])) 0 true
unfolding watch
IsShown-last job now c =
    let apart : str_eq "COMPLETED" now ≡ false =
      grind (arith, c, eq_iff now "COMPLETED", eq_iff "COMPLETED" now) in
    rw (apart, watch) (record { ends = refl; count = ground (arith, failures-between now) })

IsShown-sent :
    (job : Job) (finished : Bool) (sent : List MapReduceWrapper)
    → AreSent job finished sent
    → IsShown (watch "" sent) (failures sent) finished
unfolding watch
IsShown-sent job false sent a =
    let s =
      IsShown-watch sent [] "" 0 false a refl (λ now c. record { ends = refl; count = refl }) in
    let whole : watch "" (sent ++ []) ≡ watch "" sent = ap (watch "") (append-nil sent) in
    subst (λ w. IsShown w (failures sent) false) whole
      (record { ends = s.ends; count = omega (arith, s.count) })
IsShown-sent job true sent (front, a, e) =
    let s = IsShown-watch front (last_message job ∷ []) "" 0 true a refl (IsShown-last job) in
    let count : failures sent ≡ failures front + 0 =
      ap failures e ∙ failures-append front (last_message job ∷ []) in
    let whole : watch "" (front ++ last_message job ∷ []) ≡ watch "" sent = ap (watch "") (sym e) in
    subst (λ w. IsShown w (failures sent) true) whole
      (record { ends = s.ends; count = s.count ∙ sym count })

-- In each state that a job reaches under any schedule, a client that has read the response and all
-- messages so far has shown one failure for each task that is skipped, map and reduce tasks
-- together, and has left its loop exactly if the job is finished.
pub Reaches-shown :
    (job : Job) (world : World) (run : Run)
    → Reaches job world run
    → (w : Watched) × (submit_job (send_job_response true "Job accepted" job.id ∷ run.sent)
        ≡ accepted job.id w)
      × (w.ended ≡ run.finished)
      × (failures_shown w.shown ≡ weigh skip_count run.maps + weigh skip_count run.reduces)
unfolding submit_job send_job_response
Reaches-shown job world run r =
    let t = Reaches-IsTold r in
    let s = IsShown-sent job run.finished run.sent t.sent in
    (watch "" run.sent, refl, s.ends, s.count ∙ t.failed)
