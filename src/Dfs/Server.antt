-- ===== src/Dfs/Server.antt =====
-- dfs/server/server.go: the chunks on a storage node's disk, and the handlers that serve them.
-- filepath.Base, md5 and the refusals of the disk and of the network are arguments; the system's words behind
-- an error message are left out.
pub mod View
pub mod Chunks
pub mod Replication
pub mod Repair
use dfs_mapreduce.Base.{
  ℕ, zero, suc, ◌+◌, ◌-◌, ◌*◌, ◌/◌, ◌%◌, ◌^◌, max, String, Bool, true, false, not, ◌&&◌, ◌||◌,
  Option, none, some, List, [], ◌∷◌, ◌++◌, length, take, ltb, leb, str_eq, ◌==◌, if◌then◌else◌,
}
use dfs_mapreduce.Mapreduce.Util.Keys.{bytes_equal}
use dfs_mapreduce.Dfs.Messages.{
  ChunkInfo, FileInfo, StoreChunkRequest, DispatchReplicaTask, Wrapper, store_chunk_req,
  retrieve_chunk_req, delete_file_req, dispatch_replica_task,
}
use dfs_mapreduce.Dfs.Messages.Send.{send_response, send_retrieve_chunk_response}

-- A chunk's file and the file of its checksum.
pub record Slot : Type 0 where
  pub chunk : Option (List ℕ)
  pub saved : Option (List ℕ)

-- The directories of the node, by the file's base name and the chunk's id.
abbrev pub Disk : Type 0
Disk = String → ℕ → Slot

abbrev pub is_at : String → ℕ → String → ℕ → Bool
is_at name id m i = str_eq name m && (id == i)

abbrev pub put_slot : String → ℕ → Slot → Disk → Disk
put_slot name id slot disk m i = if is_at name id m i then slot else disk m i

-- util.VerifyChecksum
unfoldable pub verify_checksum : List ℕ → List ℕ → Bool
verify_checksum server_check client_check = bytes_equal client_check server_check

abbrev pub replication_factor : ℕ
replication_factor = 3

-- util.DeadlineSeconds, with its 1 MiB/s.
unfoldable pub deadline_seconds : ℕ → ℕ
deadline_seconds size = max (size / 2 ^ 20) 1 * 2

-- What a store meets: the free space, whether the directory and the file are opened, the bytes that arrive
-- before the connection ends, whether they can be written, and the checksum beside them.
pub record StoreRun : Type 0 where
  pub free : ℕ
  pub directory : Bool
  pub opened : Bool
  pub received : List ℕ
  pub written : Bool
  pub saving : Bool

-- The arguments of manageReplication.
pub record ReplicaTask : Type 0 where
  pub file_name : String
  pub id : ℕ
  pub size : ℕ
  pub checksum : List ℕ
  pub count : ℕ

-- What else a connection meets: whether the chunk is in activeWrites, and what stays when a removal fails.
pub record ClientRun : Type 0 where
  pub store : StoreRun
  pub writing : Bool
  pub stays : Option (ℕ → Bool × Bool)

pub record Integrity : Type 0 where
  pub ok : Bool
  pub checksum : List ℕ
  pub size : ℕ

-- What a handler leaves: the disk, the messages and the bytes for the client, the reports to the controller,
-- and the replication or the repair that it starts.
pub record Effects : Type 0 where
  pub disk : Disk
  pub sent : List Wrapper
  pub content : List ℕ
  pub reports : List Bool
  pub replication : Option ReplicaTask
  pub repair : Bool

abbrev pub no_effects : Disk → Effects
no_effects disk = record {
  disk = disk;
  sent = [];
  content = [];
  reports = [];
  replication = none;
  repair = false;
}

abbrev pub kept_slot : Bool × Bool → Slot → Slot
kept_slot (c, m) slot = record {
  chunk = if c then slot.chunk else none;
  saved = if m then slot.saved else none;
}

-- The answers to a store, from a node that takes the chunk.
abbrev pub both_ok : List Wrapper → Bool
both_ok (Wrapper.response a ∷ Wrapper.response b ∷ rest) = a.ok && b.ok
both_ok other = false

-- handleRetrieveChunk after the check, with the chunk's file where it can be opened.
unfoldable pub send_chunk : Integrity → Option (List ℕ) → Disk → Effects
unfolding send_retrieve_chunk_response
send_chunk found none disk =
    if not found.ok
    then record (no_effects disk) {
      sent = send_retrieve_chunk_response false "Chunk corrupted" 0 [] ∷ [];
      repair = true;
    }
    else record (no_effects disk) {
      sent = send_retrieve_chunk_response false "Chunk not found: " 0 [] ∷ [];
    }
send_chunk found (some content) disk =
    if not found.ok
    then record (no_effects disk) {
      sent = send_retrieve_chunk_response false "Chunk corrupted" 0 [] ∷ [];
      repair = true;
    }
    else record (no_effects disk) {
      sent =
          send_retrieve_chunk_response true "Ready to send chunk data" found.size found.checksum
          ∷ [];
      content = take found.size content;
    }

module _ (base : String → String) (md5 : List ℕ → List ℕ) where
  abbrev pub refused_store : Wrapper → Disk → Effects
  refused_store answer disk = record (no_effects disk) { sent = answer ∷ []; reports = false ∷ [] }

  abbrev pub failed_store : StoreChunkRequest → Slot → List Wrapper → Disk → Effects
  failed_store req slot sent disk =
      record (no_effects (put_slot (base req.metadata.file_name) req.metadata.id slot disk)) {
        sent = sent;
        reports = false ∷ [];
      }

  abbrev pub replica_task : StoreChunkRequest → List ℕ → ReplicaTask
  replica_task req checksum = record {
    file_name = base req.metadata.file_name;
    id = req.metadata.id;
    size = req.metadata.size;
    checksum = checksum;
    count = replication_factor - 1;
  }

  -- In the order of the source: a chunk that fails behind the opening is removed.
  unfoldable pub handle_store_chunk : StoreRun → StoreChunkRequest → Disk → Effects
  unfolding verify_checksum send_response
  handle_store_chunk run req disk =
      let slot = disk (base req.metadata.file_name) req.metadata.id in
      let content = take req.metadata.size run.received in
      let ready = send_response true "Ready to receive chunk data" in
      let removed : Slot = record { chunk = none; saved = slot.saved } in
      let nothing : Slot = record { chunk = none; saved = none } in
      if ltb run.free req.metadata.size
      then refused_store (send_response false "Insufficient disk space") disk
      else if not run.directory
      then refused_store (send_response false "Failed to create file directory: ") disk
      else if not run.opened
      then refused_store (send_response false "Failed to create chunk file: ") disk
      else if not (run.written && leb req.metadata.size (length run.received))
      then failed_store req removed (ready ∷ []) disk
      else if not (verify_checksum (md5 content) req.metadata.checksum)
      then failed_store req removed (ready ∷ send_response false "Checksum mismatch" ∷ []) disk
      else if not run.saving
      then failed_store req nothing (ready ∷ send_response false "Failed to save metadata" ∷ [])
          disk
      else record (no_effects (
          put_slot (base req.metadata.file_name) req.metadata.id
            (record { chunk = some content; saved = some (md5 content) }) disk)) {
              sent = ready ∷ send_response true "Chunk stored successfully" ∷ [];
              reports = true ∷ [];
              replication = if req.is_original then some (replica_task req (md5 content)) else none;
            }

  -- verifyChunkIntegrity; the size is a uint32.
  unfoldable pub verify_chunk_integrity : String → ℕ → Disk → Integrity
  unfolding verify_checksum
  verify_chunk_integrity file_name id disk =
      let slot = disk (base file_name) id in
      elim slot.chunk [
        | none ↦ record { ok = false; checksum = []; size = 0 }
        | some content ↦ elim slot.saved [
          | none ↦ record { ok = false; checksum = []; size = 0 }
          | some meta ↦ record {
            ok = verify_checksum (md5 content) meta;
            checksum = md5 content;
            size = length content % 2 ^ 32;
          }
        ]
      ]

  -- With whether the chunk is in activeWrites.
  unfoldable pub handle_retrieve_chunk : Bool → ChunkInfo → Disk → Effects
  unfolding verify_chunk_integrity send_chunk send_retrieve_chunk_response
  handle_retrieve_chunk true req disk = record (no_effects disk) {
    sent = send_retrieve_chunk_response false "Chunk is currently being written" 0 [] ∷ [];
  }
  handle_retrieve_chunk false req disk =
      send_chunk (verify_chunk_integrity req.file_name req.id disk)
        (disk (base req.file_name) req.id).chunk disk

  -- os.RemoveAll of the directory; where it fails, some files stay.
  unfoldable pub handle_delete_file : Option (ℕ → Bool × Bool) → FileInfo → Disk → Effects
  unfolding send_response
  handle_delete_file none req disk =
      let gone : Slot = record { chunk = none; saved = none } in
      record (no_effects (λ m i. if str_eq (base req.name) m then gone else disk m i)) {
        sent = send_response true "File deleted successfully" ∷ [];
      }
  handle_delete_file (some stays) req disk =
      record (no_effects
        (λ m i. if str_eq (base req.name) m then kept_slot (stays i) (disk m i) else disk m i)) {
          sent = send_response false "Failed to delete file: " ∷ [];
        }

  -- The chunk's size and checksum are read from the disk; a checksum that cannot be read is nil.
  unfoldable pub handle_dispatch_replica_task : DispatchReplicaTask → Disk → Effects
  handle_dispatch_replica_task req disk =
      let name = base req.metadata.file_name in
      let slot = disk name req.metadata.id in
      elim slot.chunk [
        | none ↦ no_effects disk
        | some content ↦ record (no_effects disk) {
          replication = some (record {
            file_name = name;
            id = req.metadata.id;
            size = length content % 2 ^ 32;
            checksum = elim slot.saved [ none ↦ [] | some meta ↦ meta ];
            count = req.count;
          });
        }
      ]

  -- One message of a connection.
  unfoldable pub handle_client : ClientRun → Wrapper → Disk → Effects
  unfolding handle_store_chunk handle_retrieve_chunk handle_delete_file handle_dispatch_replica_task
      send_response
  handle_client run (store_chunk_req req) disk = handle_store_chunk run.store req disk
  handle_client run (retrieve_chunk_req req) disk = handle_retrieve_chunk run.writing req disk
  handle_client run (delete_file_req req) disk = handle_delete_file run.stays req disk
  handle_client run (dispatch_replica_task req) disk = handle_dispatch_replica_task req disk
  handle_client run msg disk = record (no_effects disk) {
    sent = send_response false "Unexpected message type: " ∷ [];
  }
