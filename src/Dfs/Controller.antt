-- ===== src/Dfs/Controller.antt =====
-- The state of the controller: the types of dfs/controller/controller.go and the part of the state
-- that dfs/controller/wal.go keeps. Times are nanoseconds. A handler runs as one step, since it
-- holds the mutex of what it changes; where it lets go of one half-way, its parts are steps.
pub mod Wal
pub mod Nodes
pub mod Select
pub mod Put
pub mod Files
pub mod Report
pub mod Replication
pub mod Step
use dfs_mapreduce.Base.{ℕ, String, Bool, true, false, List, [], Dict}
use dfs_mapreduce.Dfs.Messages.{Wrapper}

abbrev pub replication_factor : ℕ
replication_factor = 3

abbrev pub second : ℕ
second = 1_000_000_000

pub record NodeInfo : Type 0 where
  pub id : String
  pub address : String
  pub used_space : ℕ
  pub free_space : ℕ
  pub requests_handled : ℕ
  pub last_heartbeat : ℕ

pub record ChunkInfo : Type 0 where
  pub chunk_id : ℕ
  pub nodes : List String
  pub size : ℕ
  pub checksum : List ℕ

pub record FileMetadata : Type 0 where
  pub file_name : String
  pub size : ℕ
  pub chunks : List ChunkInfo
  pub created_at : ℕ
  pub lease_expiry : ℕ

-- The log: whether it is open for appending, the count of its records, the bytes of the file, the
-- number of appends tried so far, and whether the process still runs.
pub record Log : Type 0 where
  pub wal_file : Bool
  pub wal_count : ℕ
  pub disk : List ℕ
  pub attempts : ℕ
  pub running : Bool

pub record Controller : Type 0 where
  pub nodes : Dict NodeInfo
  pub files : Dict FileMetadata
  pub pending_files : Dict FileMetadata
  pub pending_chunks : Dict ℕ
  pub log : Log

-- Nothing in memory, over the log file that the disk holds.
unfoldable pub new_controller : List ℕ → Controller
new_controller disk = record {
  nodes = [];
  files = [];
  pending_files = [];
  pending_chunks = [];
  log = record { wal_file = false; wal_count = 0; disk = disk; attempts = 0; running = true };
}

-- What a handler leaves: the state, its replies on the connection, and what it sends to other
-- nodes on connections of their own.
pub record Outcome : Type 0 where
  pub controller : Controller
  pub replies : List Wrapper
  pub sends : List (String × Wrapper)
