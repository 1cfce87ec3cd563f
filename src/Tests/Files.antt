-- ===== src/Tests/Files.antt =====
-- A file of three bytes that dfs/client/client.go puts in two chunks and gets again.
use dfs_mapreduce.Base.{
  ℕ, ◌≡◌, str_eq, refl, String, true, false, none, some, List, [], ◌∷◌, inl, arith, length,
}
use dfs_mapreduce.Mapreduce.Util.Keys.{bytes_equal}
use dfs_mapreduce.Dfs.Messages.{
  NodeInfo, ChunkAllocation, ChunkLocation, PutFileResponse, GetFileResponse, put_file_resp,
  get_file_resp, no_node, no_chunk,
}
use dfs_mapreduce.Dfs.Server.{verify_checksum, handle_store_chunk}
use dfs_mapreduce.Dfs.Client.Chunks.{calculate_chunks}
use dfs_mapreduce.Dfs.Client.Transfer.{arriving, put_request}
use dfs_mapreduce.Dfs.Client.Files.{
  Cluster, Visit, Host, ended, node_at, set_disk, put, get, sort_node_addresses,
}
use dfs_mapreduce.Dfs.Client.Files.Stored.{IsFresh}
use dfs_mapreduce.Dfs.Client.Files.RoundTrip.{Answers}
use dfs_mapreduce.Dfs.Client.Files.Whole.{put-get}
use dfs_mapreduce.Tests.Transfer.{plain, size_sum, no_disk, roomy}

-- The first candidate cannot be reached.
abbrev visits : ℕ → String → Visit
visits i a = record { reached = str_eq a "b"; heard = true; store = roomy; writing = false }

abbrev host : Host
host = record {
  hostname = none;
  with_colon = λ n. n;
  has_prefix = λ a b. false;
  has_part = λ a b. false;
  slice_stable = λ less nodes. nodes;
}

abbrev nodes : List NodeInfo
nodes = record no_node { address = "a" } ∷ record no_node { address = "b" } ∷ []

abbrev allocation : ℕ → ChunkAllocation
allocation i = record { metadata = record no_chunk { id = i }; nodes = nodes }

abbrev placed_at : ℕ → ChunkLocation
placed_at i = record { metadata = record no_chunk { id = i }; nodes = nodes }

abbrev placed : PutFileResponse
placed = record {
  resp = record { ok = true; message = "" };
  allocations = allocation 0 ∷ allocation 1 ∷ [];
}

abbrev located : GetFileResponse
located = record {
  resp = record { ok = true; message = "" };
  metadata = record { name = "f"; size = 3 };
  locations = placed_at 0 ∷ placed_at 1 ∷ [];
}

abbrev empty : Cluster
empty a = no_disk

abbrev put_on : Cluster → ℕ → List ℕ → Cluster
put_on cluster i bytes =
    set_disk "b"
      (handle_store_chunk plain size_sum (arriving bytes (node_at visits i cluster "b"))
        (put_request plain size_sum "f" i bytes) (cluster "b")).disk
      cluster

abbrev full : Cluster
full = put_on (put_on empty 0 (7 ∷ 8 ∷ [])) 1 (9 ∷ [])

put_ended :
    put plain size_sum visits "f" false 2 (7 ∷ 8 ∷ 9 ∷ []) (some (put_file_resp placed)) empty
    ≡ ended full
unfolding put handle_store_chunk verify_checksum bytes_equal
put_ended = refl

empty-IsFresh : IsFresh plain size_sum visits "f" 0 empty
empty-IsFresh a j h = refl

all_answer : Answers visits visits host
unfolding sort_node_addresses
all_answer = record {
  reached = λ i a h. h;
  heard = λ i a h. h;
  idle = λ i a. refl;
  sorted = λ a at m. m;
}

two_chunks : length placed.allocations ≡ length (calculate_chunks (7 ∷ 8 ∷ 9 ∷ []) false 2)
unfolding calculate_chunks
two_chunks = refl

put-get_example :
    get plain size_sum visits host "f" (some (get_file_resp located)) 1000000000 true full
    ≡ some (inl (7 ∷ 8 ∷ 9 ∷ []))
put-get_example =
    put-get plain size_sum visits visits host "f" 2 (7 ∷ 8 ∷ 9 ∷ []) empty full placed located
      1000000000 true (omega arith) (omega arith) (λ n. refl) refl (refl, (refl, tt)) two_chunks
      empty-IsFresh put_ended all_answer refl (refl, (λ a m. m), (refl, (λ a m. m), tt)) refl refl
