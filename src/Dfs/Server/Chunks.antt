-- ===== src/Dfs/Server/Chunks.antt =====
-- Storing a chunk and retrieving it, in dfs/server/server.go.
use dfs_mapreduce.Base.{
  take-length, ℕ, ◌%◌, ◌^◌, ◌<◌, ◌≡◌, refl, sym, ap, ◌∙◌, String, true, false, ◌&&◌, Option, none,
  some, List, [], ◌∷◌, length, take, ltb, leb, arith, eq_iff, ◌⊎◌, Option-cases, Bool-cases, inl,
  inr,
}
use dfs_mapreduce.Mapreduce.Util.Keys.{bytes_equal}
use dfs_mapreduce.Dfs.Messages.{ChunkInfo, StoreChunkRequest}
use dfs_mapreduce.Dfs.Messages.Send.{send_retrieve_chunk_response}
use dfs_mapreduce.Dfs.Server.{
  Disk, is_at, verify_checksum, StoreRun, Effects, no_effects, handle_store_chunk,
  verify_chunk_integrity, handle_retrieve_chunk, send_chunk,
}
use dfs_mapreduce.Dfs.Server.View.{view, StoreEnd, handle_store_chunk-StoreEnd}

false-true : false ∷ [] ≡ true ∷ [] → ⊥
false-true h = ground arith

module _ (base : String → String) (md5 : List ℕ → List ℕ) where
  -- What a retrieve does, from the chunk that can be served.
  abbrev pub retrieve_served : Option (List ℕ) → Disk → Effects
  retrieve_served none disk = record (no_effects disk) {
    sent = send_retrieve_chunk_response false "Chunk corrupted" 0 [] ∷ [];
    repair = true;
  }
  retrieve_served (some content) disk = record (no_effects disk) {
    sent =
        send_retrieve_chunk_response true "Ready to send chunk data" (length content % 2 ^ 32)
          (md5 content)
        ∷ [];
    content = take (length content % 2 ^ 32) content;
  }

  verify-saved :
      (name : String) (id : ℕ) (disk : Disk) (content meta : List ℕ)
      → (disk (base name) id).chunk ≡ some content
      → (disk (base name) id).saved ≡ some meta
      → verify_chunk_integrity base md5 name id disk ≡ record {
        ok = bytes_equal meta (md5 content);
        checksum = md5 content;
        size = length content % 2 ^ 32;
      }
  unfolding verify_chunk_integrity verify_checksum
  verify-saved name id disk content meta e f = rw (e, f, verify_chunk_integrity) refl

  verify-missing :
      (name : String) (id : ℕ) (disk : Disk)
      → ((disk (base name) id).chunk ≡ none) ⊎ ((disk (base name) id).saved ≡ none)
      → verify_chunk_integrity base md5 name id disk
        ≡ record { ok = false; checksum = []; size = 0 }
  unfolding verify_chunk_integrity
  verify-missing name id disk (inl e) = rw (e, verify_chunk_integrity) refl
  verify-missing name id disk (inr f) = elim (Option-cases (disk (base name) id).chunk) [
    | inl e ↦ rw (e, verify_chunk_integrity) refl
    | inr (content, e) ↦ rw (e, f, verify_chunk_integrity) refl
  ]

  -- A retrieve of a chunk that is not being written sends the chunk, with its size modulo 2 ^ 32
  -- and its checksum, if its checksum is the one saved beside it; else, or where a file is
  -- missing, it sends no byte, and starts a repair.
  pub handle_retrieve_chunk-view :
      (req : ChunkInfo) (disk : Disk)
      → handle_retrieve_chunk base md5 false req disk
        ≡ retrieve_served (view base md5 disk (base req.file_name) req.id) disk
  unfolding handle_retrieve_chunk send_chunk
  handle_retrieve_chunk-view req disk =
      elim (Option-cases (disk (base req.file_name) req.id).chunk) [
        | inl e ↦ rw (verify-missing req.file_name req.id disk (inl e), e) refl
        | inr (content, e) ↦ elim (Option-cases (disk (base req.file_name) req.id).saved) [
          | inl f ↦ rw (verify-missing req.file_name req.id disk (inr f), e, f) refl
          | inr (meta, f) ↦ elim (Bool-cases (bytes_equal meta (md5 content))) [
            | inl g ↦ rw (verify-saved req.file_name req.id disk content meta e f, e, f, g) refl
            | inr g ↦ rw (verify-saved req.file_name req.id disk content meta e f, e, f, g) refl
          ]
        ]
      ]

  retrieve-StoreEnd :
      (run : StoreRun) (req : StoreChunkRequest) (disk : Disk) (x : Effects)
      → StoreEnd base md5 run req disk x
      → x.reports ≡ true ∷ []
      → req.metadata.size < 2 ^ 32
      → handle_retrieve_chunk base md5 false req.metadata x.disk ≡ record (no_effects x.disk) {
        sent =
            send_retrieve_chunk_response true "Ready to send chunk data" req.metadata.size
              req.metadata.checksum
            ∷ [];
        content = take req.metadata.size run.received;
      }
  retrieve-StoreEnd run req disk x (StoreEnd.untouched v r o) h small =
      absurd (false-true (sym r ∙ h))
  retrieve-StoreEnd run req disk x (StoreEnd.gone v r o) h small = absurd (false-true (sym r ∙ h))
  retrieve-StoreEnd run req disk x (StoreEnd.done size sum v r o) h small =
      let name = base req.metadata.file_name in
      let got = take req.metadata.size run.received in
      let here : is_at name req.metadata.id name req.metadata.id ≡ true =
        ground (arith, eq_iff name name) in
      let found : view base md5 x.disk name req.metadata.id ≡ some got =
        v name req.metadata.id ∙ rw here refl in
      let whole : length got % 2 ^ 32 ≡ req.metadata.size = omega (arith, size, small) in
      let all : take req.metadata.size got ≡ got =
        ap (λ n. take n got) (sym size) ∙ take-length got in
      handle_retrieve_chunk-view req.metadata x.disk
      ∙ rw (found, whole, sum, all, retrieve_served) refl

  -- If a store finds room, can open and write its files, and gets as many bytes as were announced,
  -- fewer than 2 ^ 32, with the checksum that was announced, it reports a success, and a retrieve
  -- then sends those bytes, with that size and checksum.
  pub handle_store_chunk-retrieve :
      (run : StoreRun) (req : StoreChunkRequest) (disk : Disk)
      → ltb run.free req.metadata.size ≡ false
      → run.directory ≡ true
      → run.opened ≡ true
      → (run.written && leb req.metadata.size (length run.received)) ≡ true
      → verify_checksum (md5 (take req.metadata.size run.received)) req.metadata.checksum ≡ true
      → run.saving ≡ true
      → req.metadata.size < 2 ^ 32
      → ((handle_store_chunk base md5 run req disk).reports ≡ true ∷ [])
        × (handle_retrieve_chunk base md5 false req.metadata
              (handle_store_chunk base md5 run req disk).disk
            ≡ record (no_effects (handle_store_chunk base md5 run req disk).disk) {
              sent =
                  send_retrieve_chunk_response true "Ready to send chunk data" req.metadata.size
                    req.metadata.checksum
                  ∷ [];
              content = take req.metadata.size run.received;
            })
  unfolding handle_store_chunk
  handle_store_chunk-retrieve run req disk e f g h k l small =
      let success : (handle_store_chunk base md5 run req disk).reports ≡ true ∷ [] =
        rw (e, f, g, h, k, l, handle_store_chunk) refl in
      (
        success,
        retrieve-StoreEnd run req disk (handle_store_chunk base md5 run req disk)
            (handle_store_chunk-StoreEnd base md5 run req disk) success small,
      )
