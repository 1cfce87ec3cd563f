-- ===== src/Dfs/Controller/Wal.antt =====
-- dfs/controller/wal.go: the write-ahead log of the files map. Marshalling of a record to JSON is
-- an argument, and so is what the operating system answers to each call.
pub mod Replay
pub mod Durable
pub mod History
use dfs_mapreduce.Base.{
  ℕ, ◌+◌, ◌*◌, String, Bool, true, false, not, ◌&&◌, Option, none, some, List, [], ◌∷◌, ◌++◌, map,
  length, take, Dict, lookup, insert, erase, scan_lines, join_lines, ltb, leb, str_eq,
  if◌then◌else◌,
}
use dfs_mapreduce.Dfs.Controller.{ChunkInfo, FileMetadata, Log, Controller}

pub record WalChunkInfo : Type 0 where
  pub chunk_id : ℕ
  pub nodes : List String
  pub size : ℕ
  pub checksum : List ℕ

pub record WalFileMetadata : Type 0 where
  pub file_name : String
  pub size : ℕ
  pub chunks : List WalChunkInfo
  pub created_at : ℕ
  pub lease_expiry : ℕ

pub record WalRecord : Type 0 where
  pub op : String
  pub file_name : String
  pub file_meta : Option WalFileMetadata

to_wal_chunk : ChunkInfo → WalChunkInfo
to_wal_chunk c = record {
  chunk_id = c.chunk_id;
  nodes = c.nodes;
  size = c.size;
  checksum = c.checksum;
}

from_wal_chunk : WalChunkInfo → ChunkInfo
from_wal_chunk c = record {
  chunk_id = c.chunk_id;
  nodes = c.nodes;
  size = c.size;
  checksum = c.checksum;
}

unfoldable pub to_wal_file_meta : Option FileMetadata → Option WalFileMetadata
unfolding to_wal_chunk
to_wal_file_meta none = none
to_wal_file_meta (some meta) = some (record {
  file_name = meta.file_name;
  size = meta.size;
  chunks = map to_wal_chunk meta.chunks;
  created_at = meta.created_at;
  lease_expiry = meta.lease_expiry;
})

unfoldable pub from_wal_file_meta : WalFileMetadata → FileMetadata
unfolding from_wal_chunk
from_wal_file_meta meta = record {
  file_name = meta.file_name;
  size = meta.size;
  chunks = map from_wal_chunk meta.chunks;
  created_at = meta.created_at;
  lease_expiry = meta.lease_expiry;
}

-- encoding/json on a record.
pub record Json : Type 0 where
  pub marshal : WalRecord → Option (List ℕ)
  pub unmarshal : List ℕ → Option WalRecord

-- What the system answers during one append: `write_error = some n` is an error after `n` bytes.
pub record WalIo : Type 0 where
  pub write_error : Option ℕ
  pub tmp_open : Bool
  pub tmp_write : Bool
  pub rename : Bool
  pub reopen : Bool

abbrev pub max_line : ℕ
max_line = 10 * 1024 * 1024

abbrev pub compaction_threshold : ℕ
compaction_threshold = 1000

unfoldable pub put_record : FileMetadata → WalRecord
put_record meta = record {
  op = "PUT";
  file_name = meta.file_name;
  file_meta = to_wal_file_meta (some meta);
}

-- One record of the log, applied to the files map.
unfoldable pub apply_record : WalRecord → Dict FileMetadata → Dict FileMetadata
apply_record r files =
    if str_eq r.op "PUT"
    then elim r.file_meta [
      | none ↦ files
      | some meta ↦ insert meta.file_name (from_wal_file_meta meta) files
    ]
    else if str_eq r.op "DELETE"
    then erase r.file_name files
    else files

-- `opened` is whether the system opens the file; if not, the process ends.
unfoldable pub init_wal : Bool → Controller → Controller
init_wal opened c = record c { log = record c.log { wal_file = opened; running = opened } }

module _ (json : Json) where
  -- The loop of recoverWAL: a line that is no record is skipped and not counted.
  unfoldable pub replay : List (List ℕ) → Dict FileMetadata × ℕ → Dict FileMetadata × ℕ
  replay [] s = s
  replay (l ∷ ls) (files, count) = elim (json.unmarshal l) [
    | none ↦ replay ls (files, count)
    | some r ↦ replay ls (apply_record r files, count + 1)
  ]

  unfoldable pub recover_wal : Controller → Controller
  recover_wal c =
      let (files, count) = replay (scan_lines max_line c.log.disk) (c.files, c.log.wal_count) in
      record c { files = files; log = record c.log { wal_count = count } }

  -- The lines that compaction writes: a file that does not marshal is left out.
  unfoldable pub compacted : Dict FileMetadata → List (List ℕ)
  compacted [] = []
  compacted ((name, meta) ∷ files) = elim (json.marshal (put_record meta)) [
    | none ↦ compacted files
    | some bs ↦ bs ∷ compacted files
  ]

  unfoldable pub compact_wal : WalIo → Dict FileMetadata → Log → Log
  compact_wal io files log =
      if not io.tmp_open
      then log
      else if leb 1 (length (compacted files)) && not io.tmp_write
      then log
      else if not io.rename
      then log
      else if not io.reopen
      then record log { disk = join_lines (compacted files); running = false }
      else record log { disk = join_lines (compacted files); wal_count = length files }

  -- After a write that went through.
  unfoldable pub count_record : WalIo → Dict FileMetadata → Log → Log
  count_record io files log =
      let counted = record log { wal_count = log.wal_count + 1 } in
      if leb compaction_threshold counted.wal_count then compact_wal io files counted else counted

  unfoldable pub write_record : WalIo → Dict FileMetadata → List ℕ → Log → Log
  unfolding count_record
  write_record io files line log = elim io.write_error [
    | some n ↦ record log { disk = log.disk ++ take n line }
    | none ↦ count_record io files (record log { disk = log.disk ++ line })
  ]

  -- `files` is the map as the caller has already changed it.
  unfoldable pub append_wal_record :
      (ℕ → WalIo) → Dict FileMetadata → String → String → Option FileMetadata → Log → Log
  unfolding write_record
  append_wal_record io files op file_name meta log =
      let r : WalRecord = record {
        op = op;
        file_name = file_name;
        file_meta = to_wal_file_meta meta;
      } in
      if not log.wal_file then log else elim (json.marshal r) [
        | none ↦ log
        | some bs ↦
            write_record (io log.attempts) files (bs ++ 10 ∷ [])
              (record log { attempts = log.attempts + 1 })
      ]
