-- ===== src/Tests/Server.antt =====
-- Runs of the storage node of dfs/server/server.go; a checksum here is the length of the bytes.
use dfs_mapreduce.Base.{
  ℕ, ◌≡◌, refl, String, true, false, none, some, List, [], ◌∷◌, arith, length, take,
}
use dfs_mapreduce.Mapreduce.Util.Keys.{bytes_equal}
use dfs_mapreduce.Dfs.Messages.{
  ChunkInfo, StoreChunkRequest, RetrieveChunkResponse, store_chunk_req,
}
use dfs_mapreduce.Dfs.Messages.Send.{send_retrieve_chunk_response}
use dfs_mapreduce.Dfs.Server.{
  Disk, put_slot, verify_checksum, StoreRun, ClientRun, ReplicaTask, no_effects, handle_store_chunk,
  handle_retrieve_chunk, handle_client,
}
use dfs_mapreduce.Dfs.Server.View.{view, Step, handle_client-Step}
use dfs_mapreduce.Dfs.Server.Chunks.{
  retrieve_served, handle_retrieve_chunk-view, handle_store_chunk-retrieve,
}
use dfs_mapreduce.Dfs.Server.Replication.{
  Round, no_answer, rejected, offered, manage_replication, all_takers, manage_replication_lem, Peer,
  replicate, replicate-view,
}
use dfs_mapreduce.Dfs.Server.Repair.{Pull, repair_from, IsGood, repair_from-view}

abbrev same_name : String → String
same_name n = n

abbrev sum : List ℕ → List ℕ
sum bytes = length bytes ∷ []

abbrev empty : Disk
empty m i = record { chunk = none; saved = none }

abbrev content : List ℕ
content = 7 ∷ 8 ∷ []

abbrev full : Disk
full = put_slot "f" 0 (record { chunk = some content; saved = some (2 ∷ []) }) empty

abbrev chunk_of_f : ChunkInfo
chunk_of_f = record { id = 0; file_name = "f"; size = 2; checksum = 2 ∷ [] }

abbrev store_f : StoreChunkRequest
store_f = record { metadata = chunk_of_f; is_original = true }

abbrev good_run : StoreRun
good_run = record {
  free = 10;
  directory = true;
  opened = true;
  received = content;
  written = true;
  saving = true;
}

abbrev client : ClientRun
client = record { store = good_run; writing = false; stays = none }

handle_client-Step_example :
    Step same_name sum
      (view same_name sum empty)
      (view same_name sum (handle_client same_name sum client (store_chunk_req store_f) empty).disk)
      (store_chunk_req store_f)
handle_client-Step_example = handle_client-Step same_name sum client (store_chunk_req store_f) empty

handle_retrieve_chunk-view_example :
    handle_retrieve_chunk same_name sum false chunk_of_f full
    ≡ retrieve_served same_name sum (view same_name sum full "f" 0) full
handle_retrieve_chunk-view_example = handle_retrieve_chunk-view same_name sum chunk_of_f full

handle_store_chunk-retrieve_example :
    ((handle_store_chunk same_name sum good_run store_f empty).reports ≡ true ∷ [])
    × (handle_retrieve_chunk same_name sum false chunk_of_f
          (handle_store_chunk same_name sum good_run store_f empty).disk
        ≡ record (no_effects (handle_store_chunk same_name sum good_run store_f empty).disk) {
          sent = send_retrieve_chunk_response true "Ready to send chunk data" 2 (2 ∷ []) ∷ [];
          content = take 2 content;
        })
unfolding verify_checksum bytes_equal
handle_store_chunk-retrieve_example =
    handle_store_chunk-retrieve same_name sum good_run store_f empty refl refl refl refl refl refl
      (omega arith)

-- A store that breaks off costs the chunk that was there.
lost_run :
    view same_name sum
      (handle_store_chunk same_name sum
        (record {
          free = 10;
          directory = true;
          opened = true;
          received = [];
          written = true;
          saving = true;
        })
        store_f
        full).disk
      "f"
      0
    ≡ none
unfolding handle_store_chunk
lost_run = refl

abbrev turns : List Round
turns =
    no_answer
    ∷ offered (("a", true) ∷ [])
    ∷ rejected
    ∷ offered (("b", false) ∷ ("c", true) ∷ ("d", true) ∷ [])
    ∷ []

manage_replication_lem_example :
    ((manage_replication 2 turns).0 ≡ 0)
    × (length (manage_replication 2 turns).1 ≡ 2)
    × ((manage_replication 2 turns).1 ≡ take 2 (all_takers turns))
manage_replication_lem_example = manage_replication_lem 2 turns (omega arith)

manage_replication_run : manage_replication 2 turns ≡ (0, "a" ∷ "c" ∷ [])
unfolding manage_replication
manage_replication_run = refl

abbrev task_f : ReplicaTask
task_f = record { file_name = "f"; id = 0; size = 2; checksum = 2 ∷ []; count = 2 }

abbrev peer : Peer
peer = record { disk = empty; connected = true; heard = true; store = good_run }

replicate-view_example :
    (view same_name sum (replicate same_name sum (some content) task_f peer).1 "f" 0
      ≡ some (take 2 content))
    × (sum (take 2 content) ≡ 2 ∷ [])
    × (length (take 2 content) ≡ 2)
unfolding replicate verify_checksum bytes_equal
replicate-view_example = replicate-view same_name sum content task_f peer refl

abbrev silent : Pull
silent = record { answer = none; received = []; opened = true; written = true; unsaved = none }

abbrev answer_f : RetrieveChunkResponse
answer_f = record { resp = record { ok = true; message = "" }; metadata = chunk_of_f }

abbrev good_pull : Pull
good_pull = record {
  answer = some answer_f;
  received = content;
  opened = true;
  written = true;
  unsaved = none;
}

good_pull-IsGood : IsGood same_name sum answer_f good_pull
unfolding verify_checksum bytes_equal
good_pull-IsGood = record { answered = refl; ok = refl; opened = refl; arrived = refl }

repair_from-view_example :
    (found : List ℕ) × ((repair_from same_name sum "f" 0 (silent ∷ good_pull ∷ []) empty).0 ≡ true)
    × (view same_name sum (repair_from same_name sum "f" 0 (silent ∷ good_pull ∷ []) empty).1 "f" 0
        ≡ some found)
repair_from-view_example =
    repair_from-view same_name sum "f" 0 (silent ∷ []) [] good_pull answer_f empty (refl, tt) refl
      good_pull-IsGood
