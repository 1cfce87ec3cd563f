-- ===== src/Dfs/Server/View.antt =====
-- The chunks that a node of dfs/server/server.go would serve, as an abstract store.
use dfs_mapreduce.Base.{
  ℕ, ◌≤◌, ◌≡◌, refl, sym, ap, ◌∙◌, String, Bool, true, false, ◌&&◌, Option, none, some, List, [],
  ◌∷◌, length, length-take, take, ltb, leb, arith, str_eq, Option-cases, Bool-cases, inl, inr,
  if◌then◌else◌,
}
use dfs_mapreduce.Mapreduce.Util.Keys.{bytes_equal, bytes_equal_iff}
use dfs_mapreduce.Dfs.Messages.{
  ChunkInfo, FileInfo, DispatchReplicaTask, StoreChunkRequest, Wrapper, store_chunk_req,
  retrieve_chunk_req, delete_file_req, dispatch_replica_task,
}
use dfs_mapreduce.Dfs.Messages.Send.{send_response}
use dfs_mapreduce.Dfs.Server.{
  Slot, Disk, is_at, put_slot, verify_checksum, StoreRun, ClientRun, Effects, Integrity, send_chunk,
  both_ok, kept_slot, handle_store_chunk, verify_chunk_integrity, handle_retrieve_chunk,
  handle_delete_file, handle_dispatch_replica_task, handle_client,
}

-- The chunks that can be served, by base name and id.
abbrev pub Store : Type 0
Store = String → ℕ → Option (List ℕ)

send_chunk-disk :
    (found : Integrity) (chunk : Option (List ℕ)) (disk : Disk)
    → (send_chunk found chunk disk).disk ≡ disk
unfolding send_chunk
send_chunk-disk found none disk = ground arith
send_chunk-disk found (some content) disk = ground arith

module _ (base : String → String) (md5 : List ℕ → List ℕ) where
  abbrev pub served : Slot → Option (List ℕ)
  served slot = elim slot.chunk [
    | none ↦ none
    | some content ↦ elim slot.saved [
      | none ↦ none
      | some meta ↦ if bytes_equal meta (md5 content) then some content else none
    ]
  ]

  abbrev pub view : Disk → Store
  view disk m i = served (disk m i)

  -- What a message may do to the store.
  pub data Step (v w : Store) : Wrapper → Type 0 where
    kept : (msg : Wrapper) → ((m : String) (i : ℕ) → w m i ≡ v m i) → Step v w msg
    stored :
        (req : StoreChunkRequest) (content : List ℕ)
        → length content ≡ req.metadata.size
        → md5 content ≡ req.metadata.checksum
        → ((m : String) (i : ℕ)
            → w m i ≡ (
                if is_at (base req.metadata.file_name) req.metadata.id m i
                then some content
                else v m i))
        → Step v w (store_chunk_req req)
    lost :
        (req : StoreChunkRequest)
        → ((m : String) (i : ℕ)
            → w m i
              ≡ (if is_at (base req.metadata.file_name) req.metadata.id m i then none else v m i))
        → Step v w (store_chunk_req req)
    removed :
        (req : FileInfo) (stays : ℕ → Bool)
        → ((m : String) (i : ℕ)
            → w m i ≡ (if str_eq (base req.name) m then if stays i then v m i else none else v m i))
        → Step v w (delete_file_req req)

  served-if :
      (b : Bool) (x y : Slot) → served (if b then x else y) ≡ (if b then served x else served y)
  served-if true x y = refl
  served-if false x y = refl

  pub served-new :
      (content : List ℕ)
      → served (record { chunk = some content; saved = some (md5 content) }) ≡ some content
  served-new content = rw ((bytes_equal_iff (md5 content) (md5 content)).1 refl) refl

  -- How a store ends: without touching the slot, without the chunk, or with all of it.
  pub data StoreEnd (run : StoreRun) (req : StoreChunkRequest) (disk : Disk) (x : Effects)
      : Type 0 where
    untouched :
        ((m : String) (i : ℕ) → view x.disk m i ≡ view disk m i)
        → x.reports ≡ false ∷ []
        → both_ok x.sent ≡ false
        → StoreEnd run req disk x
    gone :
        ((m : String) (i : ℕ)
          → view x.disk m i ≡ (
              if is_at (base req.metadata.file_name) req.metadata.id m i
              then none
              else view disk m i))
        → x.reports ≡ false ∷ []
        → both_ok x.sent ≡ false
        → StoreEnd run req disk x
    done :
        length (take req.metadata.size run.received) ≡ req.metadata.size
        → md5 (take req.metadata.size run.received) ≡ req.metadata.checksum
        → ((m : String) (i : ℕ)
            → view x.disk m i ≡ (
                if is_at (base req.metadata.file_name) req.metadata.id m i
                then some (take req.metadata.size run.received)
                else view disk m i))
        → x.reports ≡ true ∷ []
        → both_ok x.sent ≡ true
        → StoreEnd run req disk x

  pub view-put_slot :
      (name : String) (id : ℕ) (slot : Slot) (disk : Disk) (o : Option (List ℕ)) (m : String)
      (i : ℕ)
      → served slot ≡ o
      → view (put_slot name id slot disk) m i ≡ (if is_at name id m i then o else view disk m i)
  view-put_slot name id slot disk o m i e =
      served-if (is_at name id m i) slot (disk m i)
      ∙ ap (λ t. if is_at name id m i then t else view disk m i) e

  leb-and : (b : Bool) (m n : ℕ) → (b && leb m n) ≡ true → m ≤ n
  leb-and true m n h = ground arith
  leb-and false m n h = ground arith

  opened-StoreEnd :
      (run : StoreRun) (req : StoreChunkRequest) (disk : Disk)
      → ltb run.free req.metadata.size ≡ false
      → run.directory ≡ true
      → run.opened ≡ true
      → StoreEnd run req disk (handle_store_chunk base md5 run req disk)
  unfolding handle_store_chunk verify_checksum send_response
  opened-StoreEnd run req disk e f g =
      let name = base req.metadata.file_name in
      let id = req.metadata.id in
      let got = take req.metadata.size run.received in
      let left : Slot = record { chunk = none; saved = (disk name id).saved } in
      elim (Bool-cases (run.written && leb req.metadata.size (length run.received))) [
        | inr h ↦
            rw (e, f, g, h, handle_store_chunk)
              (gone (λ m i. view-put_slot name id left disk none m i refl) refl refl)
        | inl h ↦ elim (Bool-cases (verify_checksum (md5 got) req.metadata.checksum)) [
          | inr k ↦
              rw (e, f, g, h, k, handle_store_chunk)
                (gone (λ m i. view-put_slot name id left disk none m i refl) refl refl)
          | inl k ↦ elim (Bool-cases run.saving) [
            | inr l ↦
                rw (e, f, g, h, k, l, handle_store_chunk)
                  (gone
                    (λ m i.
                      view-put_slot name id (record { chunk = none; saved = none }) disk none m i
                        refl)
                    refl refl)
            | inl l ↦
                let enough = leb-and run.written req.metadata.size (length run.received) h in
                let size : length got ≡ req.metadata.size =
                  omega (arith, length-take req.metadata.size run.received) in
                let sum : md5 got ≡ req.metadata.checksum =
                  sym ((bytes_equal_iff req.metadata.checksum (md5 got)).0 k) in
                rw (e, f, g, h, k, l, handle_store_chunk)
                  (done size sum
                    (λ m i.
                      view-put_slot name id (record { chunk = some got; saved = some (md5 got) })
                        disk (some got) m i (served-new got))
                    refl refl)
          ]
        ]
      ]

  -- A store leaves the store as it is, loses the chunk, or has the whole chunk with the checksum that was
  -- asked for; the controller is told of a success in the last case only.
  pub handle_store_chunk-StoreEnd :
      (run : StoreRun) (req : StoreChunkRequest) (disk : Disk)
      → StoreEnd run req disk (handle_store_chunk base md5 run req disk)
  unfolding handle_store_chunk verify_checksum send_response
  handle_store_chunk-StoreEnd run req disk = elim (Bool-cases (ltb run.free req.metadata.size)) [
    | inl e ↦ rw (e, handle_store_chunk) (untouched (λ m i. refl) refl refl)
    | inr e ↦ elim (Bool-cases run.directory) [
      | inr f ↦ rw (e, f, handle_store_chunk) (untouched (λ m i. refl) refl refl)
      | inl f ↦ elim (Bool-cases run.opened) [
        | inr g ↦ rw (e, f, g, handle_store_chunk) (untouched (λ m i. refl) refl refl)
        | inl g ↦ opened-StoreEnd run req disk e f g
      ]
    ]
  ]

  served-kept :
      (c m : Bool) (slot : Slot)
      → served (kept_slot (c, m) slot) ≡ (if c && m then served slot else none)
  served-kept true true slot = refl
  served-kept true false slot = elim (Option-cases slot.chunk) [
    | inl e ↦ rw e refl
    | inr (content, e) ↦ rw e refl
  ]
  served-kept false m slot = refl

  handle_retrieve_chunk-disk :
      (writing : Bool) (req : ChunkInfo) (disk : Disk)
      → (handle_retrieve_chunk base md5 writing req disk).disk ≡ disk
  unfolding handle_retrieve_chunk
  handle_retrieve_chunk-disk true req disk = refl
  handle_retrieve_chunk-disk false req disk =
      send_chunk-disk (verify_chunk_integrity base md5 req.file_name req.id disk)
        (disk (base req.file_name) req.id).chunk disk

  handle_dispatch_replica_task-disk :
      (req : DispatchReplicaTask) (disk : Disk)
      → (handle_dispatch_replica_task base md5 req disk).disk ≡ disk
  unfolding handle_dispatch_replica_task
  handle_dispatch_replica_task-disk req disk =
      elim (Option-cases (disk (base req.metadata.file_name) req.metadata.id).chunk) [
        | inl e ↦ rw (e, handle_dispatch_replica_task) refl
        | inr (content, e) ↦ rw (e, handle_dispatch_replica_task) refl
      ]

  StoreEnd-Step :
      (run : StoreRun) (req : StoreChunkRequest) (disk : Disk) (x : Effects)
      → StoreEnd run req disk x
      → Step (view disk) (view x.disk) (store_chunk_req req)
  StoreEnd-Step run req disk x (untouched h r o) = kept (store_chunk_req req) h
  StoreEnd-Step run req disk x (gone h r o) = lost req h
  StoreEnd-Step run req disk x (done size sum h r o) =
      stored req (take req.metadata.size run.received) size sum h

  handle_delete_file-Step :
      (stays : Option (ℕ → Bool × Bool)) (req : FileInfo) (disk : Disk)
      → Step
          (view disk)
          (view (handle_delete_file base md5 stays req disk).disk)
          (delete_file_req req)
  unfolding handle_delete_file
  handle_delete_file-Step none req disk =
      removed req (λ i. false)
        (λ m i.
          served-if (str_eq (base req.name) m) (record { chunk = none; saved = none }) (disk m i))
  handle_delete_file-Step (some stays) req disk =
      removed req (λ i. (stays i).0 && (stays i).1)
        (λ m i.
          served-if (str_eq (base req.name) m) (kept_slot (stays i) (disk m i)) (disk m i)
          ∙ ap (λ t. if str_eq (base req.name) m then t else view disk m i)
              (served-kept (stays i).0 (stays i).1 (disk m i)))

  -- Whatever message comes, and whatever the disk and the network do, the chunks that can be
  -- served change by a step that the message allows: none, one chunk stored with the size and
  -- checksum that were announced, one chunk lost by a store, or chunks of one file removed by a
  -- deletion.
  pub handle_client-Step :
      (run : ClientRun) (msg : Wrapper) (disk : Disk)
      → Step (view disk) (view (handle_client base md5 run msg disk).disk) msg
  unfolding handle_client
  handle_client-Step run (store_chunk_req req) disk =
      StoreEnd-Step run.store req disk (handle_store_chunk base md5 run.store req disk)
        (handle_store_chunk-StoreEnd run.store req disk)
  handle_client-Step run (retrieve_chunk_req req) disk =
      kept (retrieve_chunk_req req)
        (λ m i. ap (λ d. view d m i) (handle_retrieve_chunk-disk run.writing req disk))
  handle_client-Step run (delete_file_req req) disk = handle_delete_file-Step run.stays req disk
  handle_client-Step run (dispatch_replica_task req) disk =
      kept (dispatch_replica_task req)
        (λ m i. ap (λ d. view d m i) (handle_dispatch_replica_task-disk req disk))
  handle_client-Step run msg disk = kept msg (λ m i. refl)
