-- ===== src/Mapreduce/Messages/Send.antt =====
-- The senders of mapreduce/messages/message_handler.go, each as the wrapper that it sends.
use dfs_mapreduce.Base.{ℕ, String, Bool, List, Dict}
use dfs_mapreduce.Mapreduce.Messages.{
  TaskType, MapReduceWrapper, response, job_req, job_resp, heartbeat, task_assign, task_report,
  fetch_inter, job_progress,
}

unfoldable pub send_response : Bool → String → MapReduceWrapper
send_response ok msg = response (record { ok = ok; message = msg })

unfoldable pub send_job_request : List String → List ℕ → ℕ → MapReduceWrapper
send_job_request input_files job_binary num_reducers =
    job_req
      (record { input_files = input_files; job_binary = job_binary; num_reducers = num_reducers })

unfoldable pub send_job_response : Bool → String → String → MapReduceWrapper
send_job_response ok msg job_id =
    job_resp (record { resp = record { ok = ok; message = msg }; job_id = job_id })

unfoldable pub send_job_progress : String → String → ℕ → ℕ → Bool → Bool → String → MapReduceWrapper
send_job_progress job_id phase completed total is_complete is_error msg = job_progress (record {
  job_id = job_id;
  phase = phase;
  completed_tasks = completed;
  total_tasks = total;
  is_complete = is_complete;
  is_error = is_error;
  message = msg;
})

unfoldable pub send_heartbeat : String → String → ℕ → ℕ → ℕ → MapReduceWrapper
send_heartbeat id address cpu mem active = heartbeat (record {
  worker = record {
    id = id;
    address = address;
    cpu_load = cpu;
    mem_load = mem;
    active_tasks = active;
  };
})

unfoldable pub send_task_assignment :
    String → String → TaskType → String → ℕ → List ℕ → ℕ → ℕ → Dict String → MapReduceWrapper
send_task_assignment job_id task_id t input_file chunk_id job_binary num_reducers reducer_id info =
    task_assign (record {
      job_id = job_id;
      task_id = task_id;
      task_type = t;
      input_file = input_file;
      chunk_id = chunk_id;
      job_binary = job_binary;
      num_reducers = num_reducers;
      reducer_id = reducer_id;
      map_task_info = info;
    })

unfoldable pub send_task_report : String → String → Bool → String → List ℕ → MapReduceWrapper
send_task_report job_id task_id success message reduce_data = task_report (record {
  job_id = job_id;
  task_id = task_id;
  success = success;
  message = message;
  reduce_data = reduce_data;
})

unfoldable pub send_fetch_intermediate_request : String → ℕ → String → MapReduceWrapper
send_fetch_intermediate_request job_id reducer_id task_id =
    fetch_inter (record { job_id = job_id; reducer_id = reducer_id; task_id = task_id })
