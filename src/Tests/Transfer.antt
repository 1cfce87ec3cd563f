-- ===== src/Tests/Transfer.antt =====
-- A put and a get of one chunk, as dfs/client/client.go does them, with three candidates.
use dfs_mapreduce.Base.{ℕ, ◌≡◌, refl, String, true, false, none, List, [], ◌∷◌, length, map, arith}
use dfs_mapreduce.Mapreduce.Util.Keys.{bytes_equal}
use dfs_mapreduce.Dfs.Messages.{ChunkInfo, no_chunk}
use dfs_mapreduce.Dfs.Server.{Disk, StoreRun, verify_checksum}
use dfs_mapreduce.Dfs.Client.Transfer.{Node, got, get_chunk, ask, put_chunk}
use dfs_mapreduce.Dfs.Client.Transfer.RoundTrip.{put_chunk-get_chunk}

abbrev pub plain : String → String
plain n = n

abbrev pub size_sum : List ℕ → List ℕ
size_sum bytes = length bytes ∷ []

abbrev pub no_disk : Disk
no_disk m i = record { chunk = none; saved = none }

abbrev pub roomy : StoreRun
roomy = record {
  free = 10;
  directory = true;
  opened = true;
  received = [];
  written = true;
  saving = true;
}

abbrev lost_node : Node
lost_node = record { disk = no_disk; reached = false; heard = true; store = roomy; writing = false }

abbrev broken_node : Node
broken_node = record {
  disk = no_disk;
  reached = true;
  heard = false;
  store = roomy;
  writing = false;
}

abbrev good_node : Node
good_node = record { disk = no_disk; reached = true; heard = true; store = roomy; writing = false }

abbrev candidates : List Node
candidates = lost_node ∷ broken_node ∷ good_node ∷ []

abbrev req_f : ChunkInfo
req_f = record no_chunk { id = 4; file_name = "f" }

put_chunk-get_chunk_run :
    get_chunk size_sum
      (map (ask plain size_sum req_f) (put_chunk plain size_sum "f" 4 (7 ∷ 8 ∷ []) candidates).1)
    ≡ got (7 ∷ 8 ∷ [])
unfolding put_chunk verify_checksum bytes_equal
put_chunk-get_chunk_run =
    put_chunk-get_chunk plain size_sum req_f (7 ∷ 8 ∷ []) candidates (λ n. refl) (omega arith)
      (refl, (refl, (refl, tt))) (refl, (refl, (refl, tt))) refl
