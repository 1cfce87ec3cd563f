-- ===== src/Dfs/Messages/Send.antt =====
-- The senders of dfs/messages/message_handler.go, each as the `Wrapper` that it sends. A field that
-- the Go literal leaves out has its zero value.
use dfs_mapreduce.Base.{ℕ, String, Bool, List}
use dfs_mapreduce.Dfs.Messages.{
  NodeInfo, FileInfo, ChunkAllocation, ChunkLocation, Wrapper, response, delete_file_req,
  put_file_req, put_file_resp, get_file_req, get_file_resp, list_files_req, list_files_resp,
  lease_renew_req, stats_req, stats_resp, registration_req, heartbeat, chunk_status_report,
  replica_nodes_req, replica_nodes_resp, dispatch_replica_task, store_chunk_req, retrieve_chunk_req,
  retrieve_chunk_resp, no_node, no_chunk,
}

unfoldable pub send_response : Bool → String → Wrapper
send_response ok msg = response (record { ok = ok; message = msg })

unfoldable pub send_delete_file_request : String → Wrapper
send_delete_file_request file_name = delete_file_req (record { name = file_name; size = 0 })

unfoldable pub send_put_file_request : String → ℕ → ℕ → ℕ → Wrapper
send_put_file_request file_name size chunk_size num_chunks = put_file_req (record {
  metadata = record { name = file_name; size = size };
  chunk = record no_chunk { size = chunk_size };
  num_chunks = num_chunks;
})

unfoldable pub send_put_file_response : Bool → String → List ChunkAllocation → Wrapper
send_put_file_response ok msg allocations =
    put_file_resp (record { resp = record { ok = ok; message = msg }; allocations = allocations })

unfoldable pub send_get_file_request : String → Wrapper
send_get_file_request file_name = get_file_req (record { name = file_name; size = 0 })

unfoldable pub send_get_file_response : Bool → String → List ChunkLocation → ℕ → Wrapper
send_get_file_response ok msg locations size = get_file_resp (record {
  resp = record { ok = ok; message = msg };
  metadata = record { name = ""; size = size };
  locations = locations;
})

unfoldable pub send_lease_renew_request : String → Wrapper
send_lease_renew_request file_name = lease_renew_req (record { name = file_name; size = 0 })

unfoldable pub send_list_files_request : Wrapper
send_list_files_request = list_files_req

unfoldable pub send_list_files_response : Bool → String → List FileInfo → Wrapper
send_list_files_response ok msg files =
    list_files_resp (record { resp = record { ok = ok; message = msg }; files = files })

unfoldable pub send_node_info_request : Wrapper
send_node_info_request = stats_req

unfoldable pub send_node_info_response : Bool → String → ℕ → ℕ → List NodeInfo → Wrapper
send_node_info_response ok msg total_used total_free info = stats_resp (record {
  resp = record { ok = ok; message = msg };
  total_used = total_used;
  total_free = total_free;
  node_stats = info;
})

unfoldable pub send_registration_request : String → String → Wrapper
send_registration_request node_id address =
    registration_req (record no_node { id = node_id; address = address })

unfoldable pub send_heartbeat : String → ℕ → ℕ → ℕ → Wrapper
send_heartbeat node_id used_space free_space requests_handled = heartbeat (record no_node {
  id = node_id;
  used_space = used_space;
  free_space = free_space;
  requests_handled = requests_handled;
})

unfoldable pub send_chunk_status_report : String → ℕ → Bool → String → Wrapper
send_chunk_status_report file_name chunk_id success node_address = chunk_status_report (record {
  metadata = record no_chunk { id = chunk_id; file_name = file_name };
  success = success;
  node = record no_node { address = node_address };
})

unfoldable pub send_replica_nodes_request : String → ℕ → ℕ → ℕ → Wrapper
send_replica_nodes_request file_name chunk_id size count = replica_nodes_req (record {
  chunk = record no_chunk { id = chunk_id; file_name = file_name; size = size };
  count = count;
})

unfoldable pub send_replica_nodes_response : Bool → String → List NodeInfo → Wrapper
send_replica_nodes_response ok message nodes =
    replica_nodes_resp (record { resp = record { ok = ok; message = message }; nodes = nodes })

unfoldable pub send_dispatch_replica_task : String → ℕ → ℕ → Wrapper
send_dispatch_replica_task file_name chunk_id count =
    dispatch_replica_task (record {
      metadata = record no_chunk { id = chunk_id; file_name = file_name };
      count = count;
    })

unfoldable pub send_store_chunk_request : String → ℕ → ℕ → List ℕ → Bool → Wrapper
send_store_chunk_request file_name chunk_id size checksum is_original = store_chunk_req (record {
  metadata = record { id = chunk_id; file_name = file_name; size = size; checksum = checksum };
  is_original = is_original;
})

unfoldable pub send_retrieve_chunk_request : String → ℕ → Wrapper
send_retrieve_chunk_request file_name chunk_id =
    retrieve_chunk_req (record no_chunk { id = chunk_id; file_name = file_name })

unfoldable pub send_retrieve_chunk_response : Bool → String → ℕ → List ℕ → Wrapper
send_retrieve_chunk_response ok msg size checksum = retrieve_chunk_resp (record {
  resp = record { ok = ok; message = msg };
  metadata = record no_chunk { size = size; checksum = checksum };
})
