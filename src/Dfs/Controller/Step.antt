-- ===== src/Dfs/Controller/Step.antt =====
-- handleConnection, the background loops and main of dfs/controller/controller.go: one event at a
-- time, as the mutexes let the handlers through.
pub mod Pending
use dfs_mapreduce.Base.{ℕ, Bool, true, List, [], ◌∷◌, if◌then◌else◌}
use dfs_mapreduce.Dfs.Messages.{
  Wrapper, delete_file_req, put_file_req, get_file_req, list_files_req, lease_renew_req, stats_req,
  registration_req, heartbeat, chunk_status_report, replica_nodes_req,
}
use dfs_mapreduce.Dfs.Messages.Send.{send_response}
use dfs_mapreduce.Dfs.Controller.{Controller, Outcome, new_controller}
use dfs_mapreduce.Dfs.Controller.Wal.{Json, WalIo, recover_wal, init_wal}
use dfs_mapreduce.Dfs.Controller.Nodes.{
  register_node, update_heartbeat, monitor_heartbeats, handle_node_stats,
}
use dfs_mapreduce.Dfs.Controller.Select.{Runtime}
use dfs_mapreduce.Dfs.Controller.Put.{handle_put_file}
use dfs_mapreduce.Dfs.Controller.Files.{
  handle_get_file, handle_list_files, handle_lease_renew, monitor_leases, handle_replica_nodes,
  handle_delete_file,
}
use dfs_mapreduce.Dfs.Controller.Report.{handle_chunk_status_report}
use dfs_mapreduce.Dfs.Controller.Replication.{process_replication}

abbrev quiet : Controller → Outcome
quiet c = record { controller = c; replies = []; sends = [] }

pub data Event : Type 0 where
  receives : Wrapper → Event
  heartbeat_round lease_round maintenance_round : Event

module _ (json : Json) (io : ℕ → WalIo) (rt : Runtime) where
  -- One message of a connection, received at a time. Any other kind gets no reply.
  unfoldable pub handle_message : ℕ → Wrapper → Controller → Outcome
  unfolding send_response
  handle_message now (registration_req node) c = record {
    controller = register_node now node.id node.address c;
    replies = send_response true "Registration successful" ∷ [];
    sends = [];
  }
  handle_message now (heartbeat node) c = update_heartbeat now node c
  handle_message now (put_file_req req) c = handle_put_file rt now req c
  handle_message now (get_file_req req) c = handle_get_file req c
  handle_message now (lease_renew_req req) c = handle_lease_renew now req c
  handle_message now (chunk_status_report req) c = quiet (handle_chunk_status_report json io req c)
  handle_message now (replica_nodes_req req) c = handle_replica_nodes rt req c
  handle_message now (delete_file_req req) c = handle_delete_file json io req c
  handle_message now list_files_req c = handle_list_files c
  handle_message now stats_req c = handle_node_stats c
  handle_message now _ c = quiet c

  unfoldable pub react : ℕ → Event → Controller → Outcome
  react now (receives msg) c = handle_message now msg c
  react now heartbeat_round c = quiet (monitor_heartbeats now c)
  react now lease_round c = monitor_leases now c
  react now maintenance_round c = process_replication json io c

  -- After a fatal error the process is gone.
  unfoldable pub step : ℕ × Event → Controller → Outcome
  unfolding react
  step (now, event) c = if c.log.running then react now event c else quiet c

  unfoldable pub run : List (ℕ × Event) → Controller → Controller
  run [] c = c
  run (e ∷ es) c = run es (step e c).controller

-- The start of main, over the bytes of the log file.
unfoldable pub start : Json → Bool → List ℕ → Controller
start json opened disk = init_wal opened (recover_wal json (new_controller disk))
