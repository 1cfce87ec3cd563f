-- ===== src/Tests/Master.antt =====
-- A master with two workers: where a map task goes, and the bytes that it leads to.
use mathlib.Core.List.{Memᴰ}
use dfs_mapreduce.Base.{
  ℕ, ◌+◌, ◌%◌, ◌^◌, ◌<◌, ◌≤◌, ◌≡◌, ◌≢◌, refl, String, true, false, none, some, List, [], ◌∷◌, map,
  arith, Dict, lookup, insert, leb, eq_iff, str_eq, subst, sym, ap, ◌==◌, Bool-cases, inl, inr,
}
use dfs_mapreduce.Mapreduce.Messages.Send.{send_task_report}
use dfs_mapreduce.Mapreduce.Master.{WorkerStatus}
use dfs_mapreduce.Mapreduce.Master.Select.{
  Runtime, is_available, Best, select_worker, select_reduce_worker, host_of, is_empty,
}
use dfs_mapreduce.Mapreduce.Master.Select.Local.{
  WalkLaws, IsLocalPick, same_host, select_worker-IsFree, select_worker-local,
}
use dfs_mapreduce.Mapreduce.Master.Assign.{
  Network, Contact, refused, received, done, attempt, contact_worker, assign_map_task,
  assign_reduce_task,
}
use dfs_mapreduce.Mapreduce.Master.Assign.Retries.{
  Answers, Ended, is_silent, IsSuccess, messages_of, first_result, assign_map_task_attempts,
  assign_reduce_task_attempts, assign_map_task_done,
}
use dfs_mapreduce.Mapreduce.Master.Jobs.{JobState, count_of, finish_map_task}
use dfs_mapreduce.Mapreduce.Master.Jobs.Bytes.{Finished, held, finish_all, total, finish_all-held}

-- Maps are walked as they stand, and no address has a port.
abbrev in_order : Runtime
in_order = record { order = λ i d. d; split_host_port = λ addr. none }

in_order_laws : WalkLaws in_order
in_order_laws = record { order-sound = λ i d e m. m; order-complete = λ i d e m. m }

abbrev worker : String → ℕ → WorkerStatus
worker name tasks = record {
  info = record { id = name; address = name; cpu_load = 10; mem_load = 20; active_tasks = tasks };
  last_heartbeat = 0;
}

abbrev pub workers : Dict WorkerStatus
workers = ("a", worker "a" 1) ∷ ("b", worker "b" 4) ∷ []

-- The data is on the busier worker.
abbrev nodes : List String
nodes = "b" ∷ []

chosen : select_worker in_order workers nodes true ≡ "b"
unfolding select_worker host_of is_available is_empty
chosen = refl

differ : (a b : String) → str_eq a b ≡ false → a ≢ b
differ a b h e = grind (arith, eq_iff a b)

chosen_name : select_worker in_order workers nodes true ≢ ""
chosen_name = subst (λ s. s ≢ "") (sym chosen) (differ "b" "" refl)

b-IsFree : is_available (worker "b" 4) ≡ true
unfolding is_available
b-IsFree = refl

b_there : same_host in_order "b" (worker "b" 4) ≡ true
unfolding host_of
b_there = refl

named : (name : String) (w : WorkerStatus) → Memᴰ (name, w) workers → name ≢ ""
named name w (Memᴰ.head e) = subst (λ s. s ≢ "") (sym (ap (λ p. p.0) e)) (differ "a" "" refl)
named name w (Memᴰ.tail (Memᴰ.head e)) =
    subst (λ s. s ≢ "") (sym (ap (λ p. p.0) e)) (differ "b" "" refl)
named name w (Memᴰ.tail (Memᴰ.tail m)) = elim m [ ]

select_worker-IsFree_run :
    (ws : WorkerStatus) × Memᴰ (select_worker in_order workers nodes true, ws) workers
    × (is_available ws ≡ true)
select_worker-IsFree_run =
    select_worker-IsFree in_order in_order_laws workers nodes true chosen_name

select_worker-local_example :
    (best : Best) × (best.worker ≡ select_worker in_order workers nodes true)
    × IsLocalPick in_order workers nodes best
    × (best.tasks ≤ 4)
select_worker-local_example =
    select_worker-local in_order in_order_laws workers nodes true "b" "b" (worker "b" 4) named
      (Memᴰ.head refl) (Memᴰ.tail (Memᴰ.head refl)) b-IsFree b_there (omega arith)

abbrev second_try : ℕ → Contact
second_try i = elim (i == 1) [
  | true ↦ received (send_task_report "j" "t" true "" (3 ∷ 4 ∷ []) ∷ [])
  | false ↦ refused
]

-- The first attempt is refused; in the second one the worker reports its bytes.
abbrev pub network : Network
network = record {
  runtime = λ i. in_order;
  workers = λ i. workers;
  workers_after = λ i. workers;
  contact = λ i addr. second_try i;
}

-- No attempt waits in vain.
second_try-answers : (i : ℕ) → is_silent (second_try i) ≡ false
second_try-answers i = elim (Bool-cases (i == 1)) [
  | inl e ↦ rw (e, is_silent) refl
  | inr e ↦ rw (e, is_silent) refl
]

pub network-Answers : Answers network
network-Answers i addr = second_try-answers i

assign_map_task_attempts_example :
    Ended (assign_map_task network nodes)
    × (assign_map_task network nodes
        ≡ first_result (
            map
              (λ i. attempt network i (select_worker in_order workers nodes (leb i 2)))
              (0 ∷ 1 ∷ 2 ∷ 3 ∷ 4 ∷ [])))
assign_map_task_attempts_example = assign_map_task_attempts network nodes network-Answers

assign_reduce_task_attempts_run :
    assign_reduce_task network (("b", 7) ∷ [])
    ≡ first_result (
        map
          (λ i. attempt network i (select_reduce_worker in_order workers (("b", 7) ∷ []) (leb i 2)))
          (0 ∷ 1 ∷ 2 ∷ 3 ∷ 4 ∷ []))
assign_reduce_task_attempts_run = assign_reduce_task_attempts network (("b", 7) ∷ [])

map_task_done : assign_map_task network nodes ≡ done "b" (3 ∷ 4 ∷ [])
unfolding assign_map_task attempt contact_worker select_worker host_of is_available is_empty lookup
    send_task_report
map_task_done = refl

assign_map_task_done_example :
    (i : ℕ) × (i < 5)
    × (ws : WorkerStatus) × (lookup (select_worker in_order workers nodes (leb i 2)) workers
        ≡ some ws)
    × (ws.info.address ≡ "b")
    × IsSuccess (3 ∷ 4 ∷ []) (messages_of (second_try i))
assign_map_task_done_example = assign_map_task_done network nodes "b" (3 ∷ 4 ∷ []) map_task_done

abbrev fresh : JobState
fresh = record { map_task_list = []; reduce_data = [] ∷ [] ∷ []; map_completed = 0 }

abbrev both : List Finished
both =
    record { index = 0; addr = "b"; reduce_data = 3 ∷ 4 ∷ [] }
    ∷ record { index = 1; addr = "b"; reduce_data = 5 ∷ 6 ∷ [] }
    ∷ []

abbrev after : JobState
after = record {
  map_task_list = [];
  reduce_data = (("b", 8) ∷ []) ∷ (("b", 10) ∷ []) ∷ [];
  map_completed = 2;
}

finished : finish_all both fresh ≡ some after
unfolding finish_map_task insert lookup count_of is_empty
finished = refl

fresh_small : held 1 "b" fresh.reduce_data < 2 ^ 64
unfolding count_of lookup
fresh_small = omega arith

finish_all-held_run :
    held 1 "b" after.reduce_data ≡ (held 1 "b" fresh.reduce_data + total 1 "b" both) % 2 ^ 64
finish_all-held_run = finish_all-held both 1 "b" fresh after fresh_small finished
