-- ===== src/Tests/Jobs.antt =====
-- A job of one map task and one reducer on a master with two workers, and its submission.
use dfs_mapreduce.Base.{◌+◌, ◌*◌, ◌≡◌, refl, true, false, Option, some, [], ◌∷◌, lookup, insert}
use dfs_mapreduce.Dfs.Messages.{Wrapper, get_file_resp, no_node, no_chunk}
use dfs_mapreduce.Mapreduce.Messages.{JobRequest}
use dfs_mapreduce.Mapreduce.Messages.Send.{send_job_response, send_task_report}
use dfs_mapreduce.Mapreduce.Master.Select.{select_worker, host_of, is_available, is_empty}
use dfs_mapreduce.Mapreduce.Master.Assign.{assign_map_task, attempt, contact_worker}
use dfs_mapreduce.Mapreduce.Master.Jobs.{set_node_addr, add_bytes, count_of}
use dfs_mapreduce.Mapreduce.Master.Run.{
  Job, Run, World, map_turn, assigned, placed, added, counted, send_progress, nodes_of, start_run,
}
use dfs_mapreduce.Mapreduce.Master.Run.Steps.{step, Reaches, weigh}
use dfs_mapreduce.Mapreduce.Master.Run.Counts.{IsCounted}
use dfs_mapreduce.Mapreduce.Master.Run.Reached.{Reaches-IsCounted}
use dfs_mapreduce.Mapreduce.Master.Run.Ends.{WorldAnswers, EndsWithin, runs_EndsWithin}
use dfs_mapreduce.Mapreduce.Master.Run.Sent.{skip_count}
use dfs_mapreduce.Mapreduce.Master.Submit.{Master, Arrival}
use dfs_mapreduce.Mapreduce.Client.{Watched, accepted, submit_job}
use dfs_mapreduce.Mapreduce.Client.Watch.{failures_shown, Reaches-shown}
use dfs_mapreduce.Tests.Master.{network, network-Answers, workers}

abbrev request : JobRequest
request = record { input_files = "f" ∷ "f" ∷ []; job_binary = []; num_reducers = 2 }

abbrev job : Job
job = record {
  id = "j";
  request = request;
  chunk_nodes = ("f", ("b" ∷ []) ∷ []) ∷ [];
  tasks = record { file_name = "f"; chunk_id = 0; node_addr = "" } ∷ [];
  num_reducers = 2;
}

abbrev world : World
world = record {
  map_network = λ i. network;
  reduce_network = λ i. network;
  error_text = "failed to assign map task";
}

world-WorldAnswers : WorldAnswers world
world-WorldAnswers = record { maps = λ i. network-Answers; reduces = λ i. network-Answers }

runs_EndsWithin_example : EndsWithin job world (1 * 5 + 2 * 5 + 2) (start_run job)
runs_EndsWithin_example = runs_EndsWithin job world world-WorldAnswers

abbrev run1 : Run
run1 = record (start_run job) { maps = assigned "b" (3 ∷ 4 ∷ []) ∷ [] }

abbrev run2 : Run
run2 = record run1 {
  map_task_list = record { file_name = "f"; chunk_id = 0; node_addr = "b" } ∷ [];
  maps = placed "b" (3 ∷ 4 ∷ []) ∷ [];
}

abbrev run3 : Run
run3 = record run2 {
  reduce_data = (("b", 3) ∷ []) ∷ (("b", 4) ∷ []) ∷ [];
  maps = added "b" (3 ∷ 4 ∷ []) ∷ [];
}

abbrev run4 : Run
run4 = record run3 { map_completed = 1; maps = counted 1 "b" (3 ∷ 4 ∷ []) ∷ [] }

-- The only map task has its worker, its bytes and its count.
run4-Reaches : Reaches job world run4
unfolding step start_run send_progress nodes_of assign_map_task attempt contact_worker select_worker
    host_of is_available is_empty lookup send_task_report set_node_addr add_bytes count_of insert
run4-Reaches =
    let r1 : Reaches job world run1 = Reaches.stepped (map_turn 0) Reaches.started refl in
    let r2 : Reaches job world run2 = Reaches.stepped (map_turn 0) r1 refl in
    let r3 : Reaches job world run3 = Reaches.stepped (map_turn 0) r2 refl in
    Reaches.stepped (map_turn 0) r3 refl

Reaches-IsCounted_example : IsCounted run4
Reaches-IsCounted_example = Reaches-IsCounted job world run4 run4-Reaches

Reaches-shown_example :
    (w : Watched) × (submit_job (send_job_response true "Job accepted" "j" ∷ run4.sent)
      ≡ accepted "j" w)
    × (w.ended ≡ false)
    × (failures_shown w.shown ≡ weigh skip_count run4.maps + weigh skip_count run4.reduces)
unfolding start_run send_progress
Reaches-shown_example = Reaches-shown job world run4 run4-Reaches

-- A file of one chunk on one node.
abbrev reply : Option Wrapper
reply = some (
    get_file_resp (record {
      resp = record { ok = true; message = "" };
      metadata = record { name = "f"; size = 3 };
      locations =
          record { metadata = no_chunk; nodes = record no_node { address = "b" } ∷ [] } ∷ [];
    }))

abbrev arrival : Arrival
arrival = record { now = 0; ask = λ i file. reply; job_id = "j"; error_text = λ file. file }

abbrev master : Master
master = record { workers = workers; jobs = [] }
