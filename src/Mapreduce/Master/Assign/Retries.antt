-- ===== src/Mapreduce/Master/Assign/Retries.antt =====
-- The retry loops of assignMapTask and assignReduceTask.
use dfs_mapreduce.Base.{
  ℕ, zero, suc, ◌+◌, ◌%◌, ◌^◌, ◌<◌, ◌≡◌, ◌≢◌, ◌⊎◌, inl, inr, refl, sym, ap, subst, ◌∙◌, String,
  Bool, true, false, Option, none, some, List, [], ◌∷◌, ◌++◌, map, All, Dict, lookup, leb, str_eq,
  arith, Option-cases, Bool-cases,
}
use dfs_mapreduce.Mapreduce.Messages.{
  MapReduceWrapper, response, job_req, job_resp, heartbeat, task_assign, task_report, fetch_inter,
  job_progress, TaskReport,
}
use dfs_mapreduce.Mapreduce.Master.{WorkerStatus}
use dfs_mapreduce.Mapreduce.Master.Select.{select_worker, select_reduce_worker}
use dfs_mapreduce.Mapreduce.Master.Assign.{
  Contact, refused, send_failed, received, silent, Network, Assigned, done, failed, no_report,
  lost_worker, out_of_fuel, Told, told, not_done, unheard, await_report, contact_worker, attempt,
  assign, assign_map_task, assign_reduce_task, limit,
}

-- The first attempt that comes to something.
abbrev pub first_result : List (Option Assigned) → Assigned
first_result [] = failed
first_result (none ∷ rest) = first_result rest
first_result (some result ∷ rest) = result

abbrev pub rounds : ℕ → ℕ → List ℕ
rounds zero i = []
rounds (suc n) i = i ∷ rounds n (i + 1)

assign-rounds :
    (net : Network) (select : ℕ → String) (n retry : ℕ)
    → n + retry ≡ limit
    → assign (suc n) net select retry
      ≡ first_result (map (λ i. attempt net i (select i)) (rounds n retry))
unfolding assign
assign-rounds net select zero retry e = ground arith
assign-rounds net select (suc n) retry e =
    let rest = assign-rounds net select n (retry + 1) (omega arith) in
    let next : (retry + 1) % 2 ^ 8 ≡ retry + 1 = omega arith in ground (arith, rest, next)

-- A connection that does not stay open in silence.
abbrev pub is_silent : Contact → Bool
is_silent (silent messages) = true
is_silent (received messages) = false
is_silent refused = false
is_silent send_failed = false

-- No worker keeps a connection open without a report.
abbrev pub Answers : Network → Type 0
Answers net = (retry : ℕ) (addr : String) → is_silent (net.contact retry addr) ≡ false

await_report-heard : (messages : List MapReduceWrapper) → await_report not_done messages ≢ unheard
unfolding await_report
await_report-heard [] e = ground arith
await_report-heard (task_report report ∷ rest) e = ground arith
await_report-heard (response x ∷ rest) e = await_report-heard rest e
await_report-heard (job_req x ∷ rest) e = await_report-heard rest e
await_report-heard (job_resp x ∷ rest) e = await_report-heard rest e
await_report-heard (heartbeat x ∷ rest) e = await_report-heard rest e
await_report-heard (task_assign x ∷ rest) e = await_report-heard rest e
await_report-heard (fetch_inter x ∷ rest) e = await_report-heard rest e
await_report-heard (job_progress x ∷ rest) e = await_report-heard rest e

contact_worker-heard :
    (contact : Contact) → is_silent contact ≡ false → contact_worker contact ≢ unheard
unfolding contact_worker
contact_worker-heard refused h e = ground arith
contact_worker-heard send_failed h e = ground arith
contact_worker-heard (received messages) h e = await_report-heard messages e
contact_worker-heard (silent messages) h e = ground arith

Told-cases : (t : Told) → (t ≡ not_done) ⊎ ((t ≡ unheard) ⊎ ((bytes : List ℕ) × (t ≡ told bytes)))
Told-cases not_done = inl refl
Told-cases unheard = inr (inl refl)
Told-cases (told bytes) = inr (inr (bytes, refl))

-- An assignment that has come to an end.
abbrev pub Ended : Assigned → Type 0
Ended a = (a ≢ no_report) × (a ≢ out_of_fuel)

attempt-Ended :
    (net : Network) (i : ℕ) (worker_id : String) (a : Assigned)
    → Answers net
    → attempt net i worker_id ≡ some a
    → Ended a
unfolding attempt
attempt-Ended net i worker_id a answers h = elim (Bool-cases (str_eq worker_id "")) [
  | inl e ↦ absurd (ground arith)
  | inr e ↦ elim (Option-cases (lookup worker_id (net.workers_after i))) [
    | inl f ↦
        let is : lost_worker ≡ a = ground arith in
        subst Ended is ((λ k. ground arith), λ k. ground arith)
    | inr (ws, f) ↦ elim (Told-cases (contact_worker (net.contact i ws.info.address))) [
      | inl g ↦ absurd (ground arith)
      | inr (inl g) ↦
          absurd
            (contact_worker-heard (net.contact i ws.info.address) (answers i ws.info.address) g)
      | inr (inr (bytes, g)) ↦
          let is : done ws.info.address bytes ≡ a = ground arith in
          subst Ended is ((λ k. ground arith), λ k. ground arith)
    ]
  ]
]

rounds-Ended :
    (net : Network) (select : ℕ → String) (n retry : ℕ)
    → Answers net
    → Ended (first_result (map (λ i. attempt net i (select i)) (rounds n retry)))
rounds-Ended net select zero retry answers = ((λ k. ground arith), λ k. ground arith)
rounds-Ended net select (suc n) retry answers =
    elim (Option-cases (attempt net retry (select retry))) [
      | inl e ↦
          let rest = rounds-Ended net select n (retry + 1) answers in
          subst Ended (ground arith) rest
      | inr (a, e) ↦ subst Ended (ground arith) (attempt-Ended net retry (select retry) a answers e)
    ]

-- If no worker keeps a connection open without a report, the assignment of a map task ends: it
-- comes to what the first of five attempts comes to that does not fail, and has failed if all of
-- them do.
pub assign_map_task_attempts :
    (net : Network) (nodes : List String)
    → Answers net
    → Ended (assign_map_task net nodes)
      × (assign_map_task net nodes
          ≡ first_result (
              map
                (λ i. attempt net i (select_worker (net.runtime i) (net.workers i) nodes (leb i 2)))
                (0 ∷ 1 ∷ 2 ∷ 3 ∷ 4 ∷ [])))
unfolding assign_map_task
assign_map_task_attempts net nodes answers =
    let select : ℕ → String = λ i. select_worker (net.runtime i) (net.workers i) nodes (leb i 2) in
    let same = assign-rounds net select 5 0 refl in
    (subst Ended (sym same) (rounds-Ended net select 5 0 answers), same)

pub assign_reduce_task-Ended :
    (net : Network) (worker_data : Dict ℕ)
    → Answers net
    → Ended (assign_reduce_task net worker_data)
unfolding assign_reduce_task
assign_reduce_task-Ended net worker_data answers =
    let select : ℕ → String =
      λ i. select_reduce_worker (net.runtime i) (net.workers i) worker_data (leb i 2) in
    subst Ended (sym (assign-rounds net select 5 0 refl)) (rounds-Ended net select 5 0 answers)

-- Likewise, a reduce task comes to what the first of five attempts comes to that does not fail, and
-- has failed if all of them do.
pub assign_reduce_task_attempts :
    (net : Network) (worker_data : Dict ℕ)
    → assign_reduce_task net worker_data
      ≡ first_result (
          map
            (λ i.
              attempt net i
                (select_reduce_worker (net.runtime i) (net.workers i) worker_data (leb i 2)))
            (0 ∷ 1 ∷ 2 ∷ 3 ∷ 4 ∷ []))
unfolding assign_reduce_task
assign_reduce_task_attempts net worker_data =
    assign-rounds net
      (λ i. select_reduce_worker (net.runtime i) (net.workers i) worker_data (leb i 2)) 5 0 refl

-- The messages that a worker has sent on a connection.
abbrev pub messages_of : Contact → List MapReduceWrapper
messages_of refused = []
messages_of send_failed = []
messages_of (received messages) = messages
messages_of (silent messages) = messages

abbrev pub is_report : MapReduceWrapper → Bool
is_report (task_report report) = true
is_report (response x) = false
is_report (job_req x) = false
is_report (job_resp x) = false
is_report (heartbeat x) = false
is_report (task_assign x) = false
is_report (fetch_inter x) = false
is_report (job_progress x) = false

-- The first report among the messages is a success with these reduce data.
pub record IsSuccess (reduce_data : List ℕ) (messages : List MapReduceWrapper) : Type 0 where
  pub before : List MapReduceWrapper
  pub report : TaskReport
  pub after : List MapReduceWrapper
  pub cut : messages ≡ before ++ task_report report ∷ after
  pub first : All (λ m. is_report m ≡ false) before
  pub success : report.success ≡ true
  pub bytes : report.reduce_data ≡ reduce_data

IsSuccess-next :
    (reduce_data : List ℕ) (m : MapReduceWrapper) (messages : List MapReduceWrapper)
    → is_report m ≡ false
    → IsSuccess reduce_data messages
    → IsSuccess reduce_data (m ∷ messages)
IsSuccess-next reduce_data m messages h s = record {
  before = m ∷ s.before;
  report = s.report;
  after = s.after;
  cut = ap (◌∷◌ m) s.cut;
  first = (h, s.first);
  success = s.success;
  bytes = s.bytes;
}

await_report-IsSuccess :
    (end : Told) (reduce_data : List ℕ) (messages : List MapReduceWrapper)
    → end ≢ told reduce_data
    → await_report end messages ≡ told reduce_data
    → IsSuccess reduce_data messages
unfolding await_report
await_report-IsSuccess end bs [] h e = absurd (h e)
await_report-IsSuccess end bs (task_report report ∷ rest) h e = elim (Bool-cases report.success) [
  | inl f ↦ record {
    before = [];
    report = report;
    after = rest;
    cut = refl;
    first = tt;
    success = f;
    bytes = ground arith;
  }
  | inr f ↦ absurd (ground arith)
]
await_report-IsSuccess end bs (response x ∷ rest) h e =
    IsSuccess-next bs (response x) rest refl (await_report-IsSuccess end bs rest h e)
await_report-IsSuccess end bs (job_req x ∷ rest) h e =
    IsSuccess-next bs (job_req x) rest refl (await_report-IsSuccess end bs rest h e)
await_report-IsSuccess end bs (job_resp x ∷ rest) h e =
    IsSuccess-next bs (job_resp x) rest refl (await_report-IsSuccess end bs rest h e)
await_report-IsSuccess end bs (heartbeat x ∷ rest) h e =
    IsSuccess-next bs (heartbeat x) rest refl (await_report-IsSuccess end bs rest h e)
await_report-IsSuccess end bs (task_assign x ∷ rest) h e =
    IsSuccess-next bs (task_assign x) rest refl (await_report-IsSuccess end bs rest h e)
await_report-IsSuccess end bs (fetch_inter x ∷ rest) h e =
    IsSuccess-next bs (fetch_inter x) rest refl (await_report-IsSuccess end bs rest h e)
await_report-IsSuccess end bs (job_progress x ∷ rest) h e =
    IsSuccess-next bs (job_progress x) rest refl (await_report-IsSuccess end bs rest h e)

contact_worker-IsSuccess :
    (contact : Contact) (reduce_data : List ℕ)
    → contact_worker contact ≡ told reduce_data
    → IsSuccess reduce_data (messages_of contact)
unfolding contact_worker
contact_worker-IsSuccess refused bs e = absurd (ground arith)
contact_worker-IsSuccess send_failed bs e = absurd (ground arith)
contact_worker-IsSuccess (received messages) bs e =
    await_report-IsSuccess not_done bs messages (λ k. ground arith) e
contact_worker-IsSuccess (silent messages) bs e =
    await_report-IsSuccess unheard bs messages (λ k. ground arith) e

attempt_done :
    (net : Network) (i : ℕ) (worker_id addr : String) (reduce_data : List ℕ)
    → attempt net i worker_id ≡ some (done addr reduce_data)
    → (ws : WorkerStatus) × (lookup worker_id (net.workers_after i) ≡ some ws)
      × (ws.info.address ≡ addr)
      × IsSuccess reduce_data (messages_of (net.contact i addr))
unfolding attempt
attempt_done net i worker_id addr reduce_data h = elim (Bool-cases (str_eq worker_id "")) [
  | inl e ↦ absurd (ground arith)
  | inr e ↦ elim (Option-cases (lookup worker_id (net.workers_after i))) [
    | inl f ↦ absurd (ground arith)
    | inr (ws, f) ↦ elim (Told-cases (contact_worker (net.contact i ws.info.address))) [
      | inl g ↦ absurd (ground arith)
      | inr (inl g) ↦ absurd (ground arith)
      | inr (inr (bytes, g)) ↦
          let at : ws.info.address ≡ addr = ground arith in
          let same : bytes ≡ reduce_data = ground arith in
          (
            ws,
            f,
            at,
            contact_worker-IsSuccess (net.contact i addr) reduce_data
                (ap (λ a. contact_worker (net.contact i a)) (sym at) ∙ g ∙ ap told same),
          )
    ]
  ]
]

rounds_done :
    (net : Network) (select : ℕ → String) (n retry : ℕ) (addr : String) (reduce_data : List ℕ)
    → first_result (map (λ i. attempt net i (select i)) (rounds n retry)) ≡ done addr reduce_data
    → (i : ℕ) × (i < n + retry) × (attempt net i (select i) ≡ some (done addr reduce_data))
rounds_done net select zero retry addr reduce_data h = ground arith
rounds_done net select (suc n) retry addr reduce_data h =
    elim (Option-cases (attempt net retry (select retry))) [
      | inl e ↦
          let (i, p, d) : (i : ℕ) × (i < n + (retry + 1))
              × (attempt net i (select i) ≡ some (done addr reduce_data)) =
            rounds_done net select n (retry + 1) addr reduce_data (ground arith) in
          (i, omega arith, d)
      | inr (r, e) ↦ (retry, omega arith, ground arith)
    ]

assign_map_task-rounds :
    (net : Network) (nodes : List String)
    → assign_map_task net nodes
      ≡ first_result (
          map
            (λ i. attempt net i (select_worker (net.runtime i) (net.workers i) nodes (leb i 2)))
            (rounds 5 0))
unfolding assign_map_task
assign_map_task-rounds net nodes =
    assign-rounds net (λ i. select_worker (net.runtime i) (net.workers i) nodes (leb i 2)) 5 0 refl

-- If a map task counts as done, then in one of the five attempts the first report that came from
-- the worker whose address is returned was a success, with the bytes that are returned.
pub assign_map_task_done :
    (net : Network) (nodes : List String) (addr : String) (reduce_data : List ℕ)
    → assign_map_task net nodes ≡ done addr reduce_data
    → (i : ℕ) × (i < 5)
      × (ws : WorkerStatus) × (lookup
            (select_worker (net.runtime i) (net.workers i) nodes (leb i 2))
            (net.workers_after i)
          ≡ some ws)
      × (ws.info.address ≡ addr)
      × IsSuccess reduce_data (messages_of (net.contact i addr))
assign_map_task_done net nodes addr reduce_data h =
    let select : ℕ → String = λ i. select_worker (net.runtime i) (net.workers i) nodes (leb i 2) in
    let (i, p, d) =
      rounds_done net select 5 0 addr reduce_data (sym (assign_map_task-rounds net nodes) ∙ h) in
    let (ws, known, at, reported) = attempt_done net i (select i) addr reduce_data d in
    (i, p, ws, known, at, reported)
