-- ===== src/Dfs/Client/Files.antt =====
-- put, get, sortNodeAddresses, delete, list and nodes of dfs/client/client.go, from the controller's reply on. A
-- cluster is the disk at each address; what a connection to a node meets is an argument. sort.SliceStable, strings.Contains
-- and filepath.Base are parameters. The chunks are taken in their order.
pub mod Upload
pub mod Stored
pub mod RoundTrip
pub mod Whole
use dfs_mapreduce.Base.{
  ℕ, zero, suc, ◌+◌, ◌-◌, ◌*◌, ◌%◌, ◌^◌, ◌⊎◌, inl, inr, String, Bool, true, false, not, ◌&&◌, ◌||◌,
  Option, none, some, List, [], ◌∷◌, ◌++◌, length, take, drop, get_elem?, ltb, map, str_eq,
  if◌then◌else◌,
}
use dfs_mapreduce.Dfs.Messages.{
  Response, FileInfo, NodeInfo, ChunkInfo, ChunkAllocation, ChunkLocation, PutFileResponse,
  GetFileResponse, ListFilesResponse, NodeInfoResponse, Wrapper, response, put_file_resp,
  get_file_resp, list_files_resp, stats_resp, no_chunk,
}
use dfs_mapreduce.Dfs.Server.{Disk, StoreRun, both_ok, handle_store_chunk}
use dfs_mapreduce.Dfs.Client.Chunks.{calculate_chunks}
use dfs_mapreduce.Dfs.Client.Transfer.{
  Node, Answer, put_request, arriving, ask, get_parts, merge_chunks,
}

abbrev pub Cluster : Type 0
Cluster = String → Disk

abbrev pub merge_threshold : ℕ
merge_threshold = 5 * 2 ^ 30

abbrev pub space_padding : ℕ
space_padding = 256 * 2 ^ 20

-- What the connection for a chunk meets at an address.
pub record Visit : Type 0 where
  pub reached : Bool
  pub heard : Bool
  pub store : StoreRun
  pub writing : Bool

abbrev pub node_at : (ℕ → String → Visit) → ℕ → Cluster → String → Node
node_at visits id cluster a = record {
  disk = cluster a;
  reached = (visits id a).reached;
  heard = (visits id a).heard;
  store = (visits id a).store;
  writing = (visits id a).writing;
}

abbrev pub set_disk : String → Disk → Cluster → Cluster
set_disk a disk cluster b = if str_eq a b then disk else cluster b

-- make([]byte, n)
abbrev pub zeros : ℕ → List ℕ
zeros zero = []
zeros (suc n) = 0 ∷ zeros n

-- io.ReadFull into a buffer: what the file does not have stays zero.
unfoldable pub read_full : ℕ → List ℕ → List ℕ
read_full size bytes = take size bytes ++ zeros (size - length bytes)

abbrev pub addresses : List NodeInfo → List String
addresses nodes = map (λ n. n.address) nodes

-- The comparison of sortNodeAddresses.
abbrev pub apart : Bool → Bool → Bool → Bool
apart first second else_less =
    if first && not second then true else if not first && second then false else else_less

unfoldable pub address_less :
    (String → String → Bool) → (String → String → Bool) → String → String → String → String → Bool
address_less has_prefix has_part host_colon prefix a b =
    apart (has_prefix a host_colon) (has_prefix b host_colon)
      (if str_eq prefix "" then false else apart (has_part a prefix) (has_part b prefix) false)

-- The cluster that the host belongs to.
unfoldable pub affinity : (String → String → Bool) → String → String
affinity has_part hostname =
    if has_part hostname "orion" then "orion" else if has_part hostname "mc" then "mc" else ""

pub record Host : Type 0 where
  pub hostname : Option String
  pub with_colon : String → String
  pub has_prefix : String → String → Bool
  pub has_part : String → String → Bool
  pub slice_stable : (String → String → Bool) → List String → List String

unfoldable pub sort_node_addresses : Host → List String → List String
unfolding address_less affinity
sort_node_addresses host nodes = elim host.hostname [
  | none ↦ nodes
  | some name ↦
      host.slice_stable
        (address_less host.has_prefix host.has_part (host.with_colon name)
          (affinity host.has_part name))
        nodes
]

-- How put, delete, list and nodes end.
pub data End (A : Type 0) : Type 0 where
  fatal : End A
  ended : A → End A

abbrev pub uploaded : Option Cluster → End Cluster
uploaded none = fatal
uploaded (some cluster) = ended cluster

module _ (base : String → String) (md5 : List ℕ → List ℕ) (visits : ℕ → String → Visit) where
  -- The goroutine of one chunk: whether a candidate has taken it, and the cluster.
  unfoldable pub upload_chunk : String → ℕ → List ℕ → List String → Cluster → Bool × Cluster
  unfolding handle_store_chunk
  upload_chunk name id bytes [] cluster = (false, cluster)
  upload_chunk name id bytes (a ∷ rest) cluster =
      let node = node_at visits id cluster a in
      let effects =
        handle_store_chunk base md5 (arriving bytes node) (put_request base md5 name id bytes)
          (cluster a) in
      elim node.reached [
        | false ↦ upload_chunk name id bytes rest cluster
        | true ↦ elim (node.heard && both_ok effects.sent) [
          | true ↦ (true, set_disk a effects.disk cluster)
          | false ↦ upload_chunk name id bytes rest (set_disk a effects.disk cluster)
        ]
      ]

  -- The loop over the allocations, which reads the file on; a chunk that no candidate takes ends
  -- the program, and so does a number that has no chunk.
  unfoldable pub upload_chunks :
      String → List ℕ → List ChunkAllocation → List ℕ → Cluster → Option Cluster
  unfolding upload_chunk read_full
  upload_chunks name sizes [] bytes cluster = some cluster
  upload_chunks name sizes (alloc ∷ allocs) bytes cluster =
      elim (get_elem? sizes alloc.metadata.id) [
        | none ↦ none
        | some size ↦
            let taken =
              upload_chunk name alloc.metadata.id (read_full size bytes) (addresses alloc.nodes)
                cluster in
            elim taken.0 [
              | false ↦ none
              | true ↦ upload_chunks name sizes allocs (drop size bytes) taken.1
            ]
      ]

  -- put, with the reply of the controller.
  unfoldable pub put : String → Bool → ℕ → List ℕ → Option Wrapper → Cluster → End Cluster
  unfolding upload_chunks calculate_chunks
  put name is_text chunk_size bytes none cluster = fatal
  put name is_text chunk_size bytes (some (put_file_resp resp)) cluster =
      if resp.resp.ok
      then uploaded (
          upload_chunks name (calculate_chunks bytes is_text chunk_size) resp.allocations bytes
            cluster)
      else fatal
  put name is_text chunk_size bytes (some other) cluster = fatal

  -- The request of getChunk.
  abbrev pub chunk_request : String → ℕ → ChunkInfo
  chunk_request name id = record no_chunk { id = id; file_name = base name }

  abbrev pub answers_for : Host → String → Cluster → ChunkLocation → List Answer
  answers_for host name cluster loc =
      map
        (λ a.
          ask base md5 (chunk_request name loc.metadata.id)
            (node_at visits loc.metadata.id cluster a))
        (sort_node_addresses host (addresses loc.nodes))

  -- How get ends: the final file, or the parts that are left unmerged.
  abbrev pub merged : Bool → Option (List (List ℕ)) → Option (List ℕ ⊎ List (List ℕ))
  merged merge none = none
  merged merge (some parts) = some (if merge then inl (merge_chunks parts) else inr parts)

  -- get, with the reply of the controller, the free space, and what the user answers.
  unfoldable pub get :
      Host → String → Option Wrapper → ℕ → Bool → Cluster → Option (List ℕ ⊎ List (List ℕ))
  unfolding get_parts merge_chunks sort_node_addresses
  get host name (some (get_file_resp resp)) free_space agreed cluster =
      if not resp.resp.ok
      then none
      else if ltb free_space ((resp.metadata.size + space_padding) % 2 ^ 64)
      then none
      else merged (not (ltb merge_threshold resp.metadata.size) || agreed)
          (get_parts md5 (map (answers_for host name cluster) resp.locations))
  get host name none free_space agreed cluster = none
  get host name (some other) free_space agreed cluster = none

-- delete: the reply has to be a response that is ok.
unfoldable pub delete : Option Wrapper → End Unit
delete (some (response resp)) = if resp.ok then ended tt else fatal
delete (some other) = fatal
delete none = fatal

-- list: the files that are printed.
unfoldable pub list : Option Wrapper → End (List FileInfo)
list (some (list_files_resp resp)) = if resp.resp.ok then ended resp.files else fatal
list (some other) = fatal
list none = fatal

-- nodes: the statistics that are printed.
unfoldable pub nodes : Option Wrapper → End NodeInfoResponse
nodes (some (stats_resp resp)) = if resp.resp.ok then ended resp else fatal
nodes (some other) = fatal
nodes none = fatal
