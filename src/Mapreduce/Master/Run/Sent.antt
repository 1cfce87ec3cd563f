-- ===== src/Mapreduce/Master/Run/Sent.antt =====
-- The messages that runJob of mapreduce/master/master.go sends to the client, under every schedule.
use dfs_mapreduce.Base.{
  ℕ, ◌+◌, ◌≡◌, refl, String, Bool, true, false, List, [], ◌∷◌, ◌++◌, arith, ap, subst, ◌%◌, ◌^◌,
  All, All-append, if◌then◌else◌, str_eq,
}
use dfs_mapreduce.Mapreduce.Messages.{
  MapReduceWrapper, response, job_req, job_resp, heartbeat, task_assign, task_report, fetch_inter,
  job_progress,
}
use dfs_mapreduce.Mapreduce.Messages.Send.{send_job_progress}
use dfs_mapreduce.Mapreduce.Master.Run.{
  Job, Routine, waiting, assigned, placed, added, counted, completed, failing, has_read, skipped,
  Run, World, send_progress,
}
use dfs_mapreduce.Mapreduce.Master.Run.Moves.{MapMove, ReduceMove}

-- A message that does not end the client's loop.
abbrev pub IsOpen : MapReduceWrapper → Type 0
IsOpen (job_progress prog) = (prog.is_complete ≡ false) × (str_eq prog.phase "COMPLETED" ≡ false)
IsOpen (response x) = Unit
IsOpen (job_req x) = Unit
IsOpen (job_resp x) = Unit
IsOpen (heartbeat x) = Unit
IsOpen (task_assign x) = Unit
IsOpen (task_report x) = Unit
IsOpen (fetch_inter x) = Unit

-- The failures among the messages.
abbrev pub failures : List MapReduceWrapper → ℕ
failures [] = 0
failures (job_progress prog ∷ rest) = (if prog.is_error then 1 else 0) + failures rest
failures (response x ∷ rest) = failures rest
failures (job_req x ∷ rest) = failures rest
failures (job_resp x ∷ rest) = failures rest
failures (heartbeat x ∷ rest) = failures rest
failures (task_assign x ∷ rest) = failures rest
failures (task_report x ∷ rest) = failures rest
failures (fetch_inter x ∷ rest) = failures rest

abbrev pub skip_count : Routine → ℕ
skip_count skipped = 1
skip_count (completed addr bytes) = 0
skip_count waiting = 0
skip_count (assigned addr bytes) = 0
skip_count (placed addr bytes) = 0
skip_count (added addr bytes) = 0
skip_count (counted c addr bytes) = 0
skip_count failing = 0
skip_count (has_read c) = 0

-- The last message.
abbrev pub last_message : Job → MapReduceWrapper
last_message job = job_progress (record {
  job_id = job.id;
  phase = "COMPLETED";
  completed_tasks = 0;
  total_tasks = 0;
  is_complete = true;
  is_error = false;
  message = "Job completed successfully";
})

-- All messages so far leave the loop on, but the last one of a finished job.
abbrev pub AreSent : Job → Bool → List MapReduceWrapper → Type 0
AreSent job false sent = All IsOpen sent
AreSent job true sent =
    (front : List MapReduceWrapper) × All IsOpen front × (sent ≡ front ++ last_message job ∷ [])

pub failures-append :
    (xs ys : List MapReduceWrapper) → failures (xs ++ ys) ≡ failures xs + failures ys
failures-append [] ys = omega arith
failures-append (job_progress prog ∷ xs) ys = omega (arith, failures-append xs ys)
failures-append (response x ∷ xs) ys = failures-append xs ys
failures-append (job_req x ∷ xs) ys = failures-append xs ys
failures-append (job_resp x ∷ xs) ys = failures-append xs ys
failures-append (heartbeat x ∷ xs) ys = failures-append xs ys
failures-append (task_assign x ∷ xs) ys = failures-append xs ys
failures-append (task_report x ∷ xs) ys = failures-append xs ys
failures-append (fetch_inter x ∷ xs) ys = failures-append xs ys

-- What the messages of one turn do.
pub record Tells (run mid : Run) (old new : Routine) : Type 0 where
  pub opens : All IsOpen run.sent → All IsOpen mid.sent
  pub failed : failures mid.sent + skip_count old ≡ failures run.sent + skip_count new

silent :
    (run mid : Run) (old new : Routine)
    → run.sent ≡ mid.sent
    → skip_count old ≡ skip_count new
    → Tells run mid old new
silent run mid old new e f = record {
  opens = λ h. subst (All IsOpen) e h;
  failed = omega (arith, ap failures e, f);
}

tells :
    (run : Run) (old new : Routine) (job : Job) (phase : String) (c total : ℕ) (is_error : Bool)
    (msg : String)
    → str_eq phase "COMPLETED" ≡ false
    → skip_count old ≡ 0
    → (if is_error then 1 else 0) ≡ skip_count new
    → Tells run (send_progress job phase c total false is_error msg run) old new
unfolding send_progress send_job_progress
tells run old new job phase c total is_error msg e f g =
    let message = send_job_progress job.id phase c (total % 2 ^ 32) false is_error msg in
    record {
      opens = λ h. All-append IsOpen run.sent (message ∷ []) h ((refl, e), tt);
      failed = omega (arith, failures-append run.sent (message ∷ []), f, g);
    }

pub map-Tells :
    (job : Job) (world : World) (i : ℕ) (run : Run) {mid : Run} {old new : Routine}
    → MapMove job world i run old new mid
    → Tells run mid old new
map-Tells job world i run MapMove.begins = silent run _ _ _ refl refl
map-Tells job world i run MapMove.fails = silent run _ _ _ refl refl
map-Tells job world i run MapMove.places = silent run _ _ _ refl refl
map-Tells job world i run (MapMove.adds e) = silent run _ _ _ refl refl
map-Tells job world i run MapMove.counts = silent run _ _ _ refl refl
map-Tells job world i run MapMove.tells = tells run _ _ job "MAP" _ _ false "" refl refl refl
map-Tells job world i run MapMove.reads = silent run _ _ _ refl refl
map-Tells job world i run MapMove.skips =
    tells run _ _ job "MAP" _ _ true world.error_text refl refl refl

pub reduce-Tells :
    (job : Job) (world : World) (run : Run) {mid : Run} {old new : Routine}
    → ReduceMove job world run old new mid
    → Tells run mid old new
reduce-Tells job world run ReduceMove.begins = silent run _ _ _ refl refl
reduce-Tells job world run ReduceMove.fails = silent run _ _ _ refl refl
reduce-Tells job world run ReduceMove.counts = silent run _ _ _ refl refl
reduce-Tells job world run ReduceMove.tells = tells run _ _ job "REDUCE" _ _ false "" refl refl refl
reduce-Tells job world run ReduceMove.reads = silent run _ _ _ refl refl
reduce-Tells job world run ReduceMove.skips =
    tells run _ _ job "MAP" _ _ true world.error_text refl refl refl
