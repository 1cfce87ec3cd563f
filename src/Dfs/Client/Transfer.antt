-- ===== src/Dfs/Client/Transfer.antt =====
-- put and get of dfs/client/client.go against the handlers of dfs/server/server.go: the upload of one chunk to
-- its candidates, the retrieval of the chunks, and their merge. md5 and filepath.Base are parameters; a
-- deadline that passes is a connection that ends.
pub mod RoundTrip
use dfs_mapreduce.Base.{
  ℕ, ◌+◌, ◌%◌, ◌^◌, ◌≡◌, String, Bool, true, false, not, ◌&&◌, Option, none, some, List, [], ◌∷◌,
  ◌++◌, length, take, leb, map, if◌then◌else◌,
}
use dfs_mapreduce.Dfs.Messages.{
  ChunkInfo, StoreChunkRequest, RetrieveChunkResponse, Wrapper, response, retrieve_chunk_resp,
}
use dfs_mapreduce.Dfs.Server.{
  Disk, StoreRun, Effects, verify_checksum, both_ok, handle_store_chunk, handle_retrieve_chunk,
}

-- A node that the client talks to: whether it can be reached, whether all messages get through, what a store
-- meets there, and whether it is writing the chunk.
pub record Node : Type 0 where
  pub disk : Disk
  pub reached : Bool
  pub heard : Bool
  pub store : StoreRun
  pub writing : Bool

-- What a node sends back to a retrieve, and whether the part file can be created.
pub record Answer : Type 0 where
  pub reply : Option RetrieveChunkResponse
  pub received : List ℕ
  pub created : Bool

-- The end of getChunk: the bytes of the part file, no node left, or the end of the program.
pub data Got : Type 0 where
  got : List ℕ → Got
  exhausted : Got
  fatal : Got

-- The loop of getChunk.
unfoldable pub get_chunk : (List ℕ → List ℕ) → List Answer → Got
unfolding verify_checksum
get_chunk md5 [] = exhausted
get_chunk md5 (a ∷ answers) =
    let rest = get_chunk md5 answers in
    elim a.reply [
      | none ↦ rest
      | some r ↦
          let bytes = take r.metadata.size a.received in
          if not r.resp.ok
          then rest
          else if not a.created
          then fatal
          else if leb r.metadata.size (length a.received)
              && verify_checksum (md5 bytes) r.metadata.checksum
          then got bytes
          else rest
    ]

-- The parts of all chunks; one that cannot be had ends the program.
unfoldable pub get_parts : (List ℕ → List ℕ) → List (List Answer) → Option (List (List ℕ))
unfolding get_chunk
get_parts md5 [] = some []
get_parts md5 (answers ∷ chunks) = elim (get_chunk md5 answers) [
  | exhausted ↦ none
  | fatal ↦ none
  | got bytes ↦ elim (get_parts md5 chunks) [ none ↦ none | some parts ↦ some (bytes ∷ parts) ]
]

-- mergeChunks, where the parts can be read: the final file.
unfoldable pub merge_chunks : List (List ℕ) → List ℕ
merge_chunks [] = []
merge_chunks (part ∷ parts) = part ++ merge_chunks parts

abbrev pub first_reply : List Wrapper → Option RetrieveChunkResponse
first_reply [] = none
first_reply (retrieve_chunk_resp r ∷ sent) = some r
first_reply (msg ∷ sent) = none

-- All bytes arrive, or some of them before the connection ends.
abbrev pub arriving : List ℕ → Node → StoreRun
arriving bytes node = record {
  free = node.store.free;
  directory = node.store.directory;
  opened = node.store.opened;
  received = if node.heard then bytes else take (length node.store.received) bytes;
  written = node.store.written;
  saving = node.store.saving;
}

abbrev pub with_disk : Node → Disk → Node
with_disk node disk = record {
  disk = disk;
  reached = node.reached;
  heard = node.heard;
  store = node.store;
  writing = node.writing;
}

module _ (base : String → String) (md5 : List ℕ → List ℕ) where
  -- A retrieve of the chunk from the node.
  unfoldable pub ask : ChunkInfo → Node → Answer
  unfolding handle_retrieve_chunk
  ask req node =
      let effects = handle_retrieve_chunk base md5 node.writing req node.disk in
      if node.reached && node.heard
      then record { reply = first_reply effects.sent; received = effects.content; created = true }
      else record { reply = none; received = []; created = true }

  -- The request that put sends for a chunk of the file.
  abbrev pub put_request : String → ℕ → List ℕ → StoreChunkRequest
  put_request file_name id bytes = record {
    metadata = record {
      id = id;
      file_name = file_name;
      size = length bytes % 2 ^ 32;
      checksum = md5 bytes;
    };
    is_original = true;
  }

  -- The upload of a chunk: the nodes afterwards, and whether one of the candidates has taken it.
  unfoldable pub put_chunk : String → ℕ → List ℕ → List Node → Bool × List Node
  unfolding handle_store_chunk
  put_chunk file_name id bytes [] = (false, [])
  put_chunk file_name id bytes (node ∷ nodes) =
      let effects =
        handle_store_chunk base md5 (arriving bytes node) (put_request file_name id bytes)
          node.disk in
      let rest = put_chunk file_name id bytes nodes in
      if not node.reached
      then (rest.0, node ∷ rest.1)
      else if node.heard && both_ok effects.sent
      then (true, with_disk node effects.disk ∷ nodes)
      else (rest.0, with_disk node effects.disk ∷ rest.1)
