-- ===== src/Dfs/Controller/Files.antt =====
-- The handlers of stored and pending files in dfs/controller/controller.go: retrieval, listing,
-- lease renewal and expiry, deletion.
pub mod Leases
use dfs_mapreduce.Base.{
  ℕ, ◌+◌, ◌*◌, String, Bool, true, false, Option, none, some, List, [], ◌∷◌, ◌++◌, map, keep,
  contains, Dict, lookup, insert, erase, ltb, if◌then◌else◌,
}
use dfs_mapreduce.Dfs.Messages.{Wrapper, ChunkLocation, FileInfo, ReplicaNodesRequest}
use dfs_mapreduce.Dfs.Messages.Send.{
  send_response, send_get_file_response, send_list_files_response, send_delete_file_request,
  send_replica_nodes_response,
}
use dfs_mapreduce.Dfs.Controller.{ChunkInfo, FileMetadata, Controller, Outcome, second}
use dfs_mapreduce.Dfs.Controller.Nodes.{map_array_addresses_to_node_info}
use dfs_mapreduce.Dfs.Controller.Report.{find_chunk}
use dfs_mapreduce.Dfs.Controller.Select.{Runtime, select_nodes}
use dfs_mapreduce.Dfs.Controller.Wal.{Json, WalIo, append_wal_record}

unfoldable pub location : ChunkInfo → ChunkLocation
location chunk = record {
  metadata = record {
    id = chunk.chunk_id;
    file_name = "";
    size = chunk.size;
    checksum = chunk.checksum;
  };
  nodes = map_array_addresses_to_node_info chunk.nodes;
}

abbrev pub get_reply : Option FileMetadata → Wrapper
get_reply none = send_get_file_response false "File not found" [] 0
get_reply (some meta) =
    send_get_file_response true "File found" (map location meta.chunks) meta.size

unfoldable pub handle_get_file : FileInfo → Controller → Outcome
unfolding send_get_file_response location
handle_get_file req c = record {
  controller = c;
  replies = get_reply (lookup req.name c.files) ∷ [];
  sends = [];
}

unfoldable pub handle_list_files : Controller → Outcome
unfolding send_list_files_response
handle_list_files c = record {
  controller = c;
  replies =
      send_list_files_response true "File list retrieved"
        (map (λ e. record { name = e.0; size = e.1.size }) c.files)
      ∷ [];
  sends = [];
}

abbrev pub lease_renewal : ℕ
lease_renewal = 60 * second

unfoldable pub handle_lease_renew : ℕ → FileInfo → Controller → Outcome
unfolding send_response
handle_lease_renew now req c = elim (lookup req.name c.pending_files) [
  | some meta ↦ record {
    controller = record c {
      pending_files =
          insert req.name (record meta { lease_expiry = now + lease_renewal }) c.pending_files;
    };
    replies = send_response true "Lease renewed" ∷ [];
    sends = [];
  }
  | none ↦ record {
    controller = c;
    replies = send_response false "File is not pending" ∷ [];
    sends = [];
  }
]

-- The addresses of `nodes` that are not in `targets` yet go to its end.
unfoldable pub add_unique : List String → List String → List String
add_unique targets [] = targets
add_unique targets (addr ∷ nodes) =
    add_unique (if contains targets addr then targets else targets ++ addr ∷ []) nodes

unfoldable pub target_nodes : List String → List ChunkInfo → List String
unfolding add_unique
target_nodes targets [] = targets
target_nodes targets (chunk ∷ chunks) = target_nodes (add_unique targets chunk.nodes) chunks

-- The requests that a file's nodes get, in the order in which they are started.
unfoldable pub delete_requests : String → List ChunkInfo → List (String × Wrapper)
unfolding target_nodes send_delete_file_request
delete_requests name chunks =
    map (λ addr. (addr, send_delete_file_request name)) (target_nodes [] chunks)

unfoldable pub is_expired : ℕ → FileMetadata → Bool
is_expired now meta = ltb meta.lease_expiry now

unfoldable pub erase_all {ℓ} : {V W : Type ℓ} → Dict W → Dict V → Dict V
erase_all [] m = m
erase_all ((name, meta) ∷ names) m = erase_all names (erase name m)

unfoldable pub expired_requests : Dict FileMetadata → List (String × Wrapper)
unfolding delete_requests
expired_requests [] = []
expired_requests ((name, meta) ∷ expired) =
    delete_requests meta.file_name meta.chunks ++ expired_requests expired

-- One round of the loop.
unfoldable pub monitor_leases : ℕ → Controller → Outcome
unfolding erase_all expired_requests
monitor_leases now c =
    let expired : Dict FileMetadata = keep (λ e. is_expired now e.1) c.pending_files in
    record {
      controller = record c {
        pending_files = erase_all expired c.pending_files;
        pending_chunks = erase_all expired c.pending_chunks;
      };
      replies = [];
      sends = expired_requests expired;
    }

abbrev pub chunk_nodes : ℕ → FileMetadata → List String
chunk_nodes id meta = elim (find_chunk id meta.chunks) [ none ↦ [] | some chunk ↦ chunk.nodes ]

-- The nodes that hold the chunk, stored or pending.
unfoldable pub excluded_nodes : ReplicaNodesRequest → Controller → List String
excluded_nodes req c = elim (lookup req.chunk.file_name c.files) [
  | some meta ↦ chunk_nodes req.chunk.id meta
  | none ↦ elim (lookup req.chunk.file_name c.pending_files) [
    | some meta ↦ chunk_nodes req.chunk.id meta
    | none ↦ []
  ]
]

abbrev pub replica_reply : List String → Wrapper
replica_reply [] = send_replica_nodes_response false "Insufficient nodes" []
replica_reply (t ∷ ts) =
    send_replica_nodes_response true "Nodes allocated" (map_array_addresses_to_node_info (t ∷ ts))

unfoldable pub handle_replica_nodes : Runtime → ReplicaNodesRequest → Controller → Outcome
unfolding send_replica_nodes_response excluded_nodes
handle_replica_nodes rt req c = record {
  controller = c;
  replies =
      replica_reply (select_nodes rt 0 req.count req.chunk.size (excluded_nodes req c) c) ∷ [];
  sends = [];
}

-- The answers of the nodes change neither the state nor the reply.
unfoldable pub handle_delete_file : Json → (ℕ → WalIo) → FileInfo → Controller → Outcome
unfolding send_response delete_requests
handle_delete_file json io req c = elim (lookup req.name c.files) [
  | none ↦ record {
    controller = c;
    replies = send_response false "File not found" ∷ [];
    sends = [];
  }
  | some meta ↦
      let files = erase req.name c.files in
      record {
        controller = record c {
          files = files;
          log = append_wal_record json io files "DELETE" req.name none c.log;
        };
        replies = send_response true "File deleted successfully" ∷ [];
        sends = delete_requests req.name meta.chunks;
      }
]
