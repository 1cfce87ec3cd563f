-- ===== src/Dfs/Messages.antt =====
-- dfs/proto/messages.proto: the messages between clients, controller and storage nodes. A
-- sub-message is always there: a handler that reads one that is missing panics in the source.
pub mod Send
pub mod Framing
use dfs_mapreduce.Base.{ℕ, String, Bool, List, []}

pub record Response : Type 0 where
  pub ok : Bool
  pub message : String

pub record NodeInfo : Type 0 where
  pub id : String
  pub address : String
  pub used_space : ℕ
  pub free_space : ℕ
  pub requests_handled : ℕ

pub record FileInfo : Type 0 where
  pub name : String
  pub size : ℕ

pub record ChunkInfo : Type 0 where
  pub id : ℕ
  pub file_name : String
  pub size : ℕ
  pub checksum : List ℕ

pub record PutFileRequest : Type 0 where
  pub metadata : FileInfo
  pub chunk : ChunkInfo
  pub num_chunks : ℕ

pub record ChunkAllocation : Type 0 where
  pub metadata : ChunkInfo
  pub nodes : List NodeInfo

pub record PutFileResponse : Type 0 where
  pub resp : Response
  pub allocations : List ChunkAllocation

pub record ChunkLocation : Type 0 where
  pub metadata : ChunkInfo
  pub nodes : List NodeInfo

pub record GetFileResponse : Type 0 where
  pub resp : Response
  pub metadata : FileInfo
  pub locations : List ChunkLocation

pub record ListFilesResponse : Type 0 where
  pub resp : Response
  pub files : List FileInfo

pub record NodeInfoResponse : Type 0 where
  pub resp : Response
  pub total_used : ℕ
  pub total_free : ℕ
  pub node_stats : List NodeInfo

pub record ChunkStatusReport : Type 0 where
  pub metadata : ChunkInfo
  pub success : Bool
  pub node : NodeInfo

pub record ReplicaNodesRequest : Type 0 where
  pub chunk : ChunkInfo
  pub count : ℕ

pub record ReplicaNodesResponse : Type 0 where
  pub resp : Response
  pub nodes : List NodeInfo

pub record DispatchReplicaTask : Type 0 where
  pub metadata : ChunkInfo
  pub count : ℕ

pub record StoreChunkRequest : Type 0 where
  pub metadata : ChunkInfo
  pub is_original : Bool

pub record RetrieveChunkResponse : Type 0 where
  pub resp : Response
  pub metadata : ChunkInfo

-- A message of one field is that field: `DeleteFileRequest`, `GetFileRequest`, `LeaseRenewRequest`,
-- `RegistrationRequest`, `Heartbeat` and `RetrieveChunkRequest`.
pub data Wrapper : Type 0 where
  response : Response → Wrapper
  delete_file_req : FileInfo → Wrapper
  put_file_req : PutFileRequest → Wrapper
  put_file_resp : PutFileResponse → Wrapper
  get_file_req : FileInfo → Wrapper
  get_file_resp : GetFileResponse → Wrapper
  list_files_req : Wrapper
  list_files_resp : ListFilesResponse → Wrapper
  lease_renew_req : FileInfo → Wrapper
  stats_req : Wrapper
  stats_resp : NodeInfoResponse → Wrapper
  registration_req : NodeInfo → Wrapper
  heartbeat : NodeInfo → Wrapper
  chunk_status_report : ChunkStatusReport → Wrapper
  replica_nodes_req : ReplicaNodesRequest → Wrapper
  replica_nodes_resp : ReplicaNodesResponse → Wrapper
  dispatch_replica_task : DispatchReplicaTask → Wrapper
  store_chunk_req : StoreChunkRequest → Wrapper
  retrieve_chunk_req : ChunkInfo → Wrapper
  retrieve_chunk_resp : RetrieveChunkResponse → Wrapper

-- The zero values of the generated message types.
abbrev pub no_node : NodeInfo
no_node = record { id = ""; address = ""; used_space = 0; free_space = 0; requests_handled = 0 }

abbrev pub no_chunk : ChunkInfo
no_chunk = record { id = 0; file_name = ""; size = 0; checksum = [] }
