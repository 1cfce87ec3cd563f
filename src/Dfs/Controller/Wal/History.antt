-- ===== src/Dfs/Controller/Wal/History.antt =====
-- The stored files of dfs/controller/controller.go through publications and deletions, and what
-- recoverWAL of dfs/controller/wal.go makes of the log that these have left.
use dfs_mapreduce.Base.{
  ℕ, ◌+◌, ◌≡◌, refl, ap, ◌∙◌, inl, inr, String, true, Option, none, some, List, [], ◌∷◌, ◌++◌, All,
  arith, Dict, lookup, insert, erase, insert-Distinct, erase-Distinct, insert-Entries,
  erase-Entries, Option-cases,
}
use dfs_mapreduce.Dfs.Messages.{FileInfo}
use dfs_mapreduce.Dfs.Controller.{FileMetadata, Log, Controller, new_controller}
use dfs_mapreduce.Dfs.Controller.Wal.{
  WalRecord, WalIo, to_wal_file_meta, Json, put_record, init_wal, apply_record, replay, recover_wal,
  compact_wal, count_record, write_record, append_wal_record,
}
use dfs_mapreduce.Dfs.Controller.Report.{publish}
use dfs_mapreduce.Dfs.Controller.Files.{handle_delete_file}
use dfs_mapreduce.Dfs.Controller.Wal.Replay.{JsonLaws, SameFiles, apply-put_record}
use dfs_mapreduce.Dfs.Controller.Wal.Durable.{
  Fits, IsLoggable, IsDurable, append_wal_record-IsDurable, recover_wal-SameFiles,
}

-- A file is published under its name, or a client asks for a deletion.
pub data Change : Type 0 where
  published : FileMetadata → Change
  asked : FileInfo → Change

abbrev pub delete_record : String → WalRecord
delete_record name = record { op = "DELETE"; file_name = name; file_meta = none }

module _ (json : Json) (io : ℕ → WalIo) where
  abbrev pub run_change : Change → Controller → Controller
  run_change (published meta) c = publish json io meta.file_name meta c
  run_change (asked req) c = (handle_delete_file json io req c).controller

  abbrev pub run_changes : List Change → Controller → Controller
  run_changes [] c = c
  run_changes (change ∷ changes) c = run_changes changes (run_change change c)

-- The record of a change fits a line of the log.
abbrev pub Loggable : Json → Change → Type 0
Loggable json (published meta) = Fits json (put_record meta)
Loggable json (asked req) = Fits json (delete_record req.name)

-- The disk is in step with the files, which can be logged, and the log is open.
record InStep (json : Json) (c : Controller) : Type 0 where
  durable : IsDurable json c.files c.log.disk
  loggable : IsLoggable json c.files
  is_open : c.log.wal_file ≡ true

compact_wal-wal_file :
    (json : Json) (io : WalIo) (files : Dict FileMetadata) (log : Log)
    → (compact_wal json io files log).wal_file ≡ log.wal_file
unfolding compact_wal
compact_wal-wal_file json io files log = ground arith

count_record-wal_file :
    (json : Json) (io : WalIo) (files : Dict FileMetadata) (log : Log)
    → (count_record json io files log).wal_file ≡ log.wal_file
unfolding count_record
count_record-wal_file json io files log =
    ground
      (arith, compact_wal-wal_file json io files (record log { wal_count = log.wal_count + 1 }))

append_wal_record-wal_file :
    (json : Json) (io : ℕ → WalIo) (files : Dict FileMetadata) (op name : String)
    → (meta : Option FileMetadata) (log : Log)
    → (append_wal_record json io files op name meta log).wal_file ≡ log.wal_file
unfolding append_wal_record write_record
append_wal_record-wal_file json io files op name meta log =
    elim (Option-cases
      (json.marshal (record { op = op; file_name = name; file_meta = to_wal_file_meta meta }))) [
        | inl e ↦ ground (arith, e)
        | inr (bs, e) ↦ elim (Option-cases (io log.attempts).write_error) [
          | inl f ↦
              let counted =
                count_record-wal_file json (io log.attempts) files (record log {
                  attempts = log.attempts + 1;
                  disk = log.disk ++ (bs ++ 10 ∷ []);
                }) in
              ground (arith, e, f, counted)
          | inr (n, f) ↦ ground (arith, e, f)
        ]
      ]

module _ (json : Json) (laws : JsonLaws json) (io : ℕ → WalIo) where
  -- A change of the files that is logged as it was made.
  append-InStep :
      (op name : String) (meta : Option FileMetadata) (files : Dict FileMetadata) (c : Controller)
      → (io c.log.attempts).write_error ≡ none
      → Fits json (record { op = op; file_name = name; file_meta = to_wal_file_meta meta })
      → SameFiles
          (apply_record
            (record { op = op; file_name = name; file_meta = to_wal_file_meta meta })
            c.files)
          files
      → IsLoggable json files
      → InStep json c
      → IsDurable json files (append_wal_record json io files op name meta c.log).disk
        × ((append_wal_record json io files op name meta c.log).wal_file ≡ true)
  append-InStep op name meta files c wrote fits change loggable h = (
    append_wal_record-IsDurable json laws io c.files files op name meta c.log h.durable fits change
        loggable h.is_open wrote,
    append_wal_record-wal_file json io files op name meta c.log ∙ h.is_open,
  )

  publish-InStep :
      (meta : FileMetadata) (c : Controller)
      → (io c.log.attempts).write_error ≡ none
      → Fits json (put_record meta)
      → InStep json c
      → InStep json (publish json io meta.file_name meta c)
  unfolding publish put_record
  publish-InStep meta c wrote fits h =
      let files = insert meta.file_name meta c.files in
      let loggable : IsLoggable json files = record {
        distinct = insert-Distinct meta.file_name meta c.files h.loggable.distinct;
        entries =
            insert-Entries (λ name m. (m.file_name ≡ name) × Fits json (put_record m))
              meta.file_name meta c.files (refl, fits) h.loggable.entries;
      } in
      let (durable, is_open) =
        append-InStep "PUT" meta.file_name (some meta) files c wrote fits
          (λ k. ap (lookup k) (apply-put_record meta c.files)) loggable h in
      record { durable = durable; loggable = loggable; is_open = is_open }

  delete-same :
      (name : String) (files : Dict FileMetadata)
      → SameFiles (apply_record (delete_record name) files) (erase name files)
  unfolding apply_record
  delete-same name files k = refl

  handle_delete_file-InStep :
      (req : FileInfo) (c : Controller)
      → (io c.log.attempts).write_error ≡ none
      → Fits json (delete_record req.name)
      → InStep json c
      → InStep json (handle_delete_file json io req c).controller
  unfolding handle_delete_file to_wal_file_meta
  handle_delete_file-InStep req c wrote fits h = elim (Option-cases (lookup req.name c.files)) [
    | inl e ↦ rw (e, handle_delete_file) h
    | inr (meta, e) ↦
        let files = erase req.name c.files in
        let loggable : IsLoggable json files = record {
          distinct = erase-Distinct req.name c.files h.loggable.distinct;
          entries =
              erase-Entries (λ name m. (m.file_name ≡ name) × Fits json (put_record m)) req.name
                c.files h.loggable.entries;
        } in
        let (durable, is_open) =
          append-InStep "DELETE" req.name none files c wrote fits (delete-same req.name c.files)
            loggable h in
        rw (e, handle_delete_file)
          (record { durable = durable; loggable = loggable; is_open = is_open })
  ]

  run_changes-InStep :
      (changes : List Change) (c : Controller)
      → ((i : ℕ) → (io i).write_error ≡ none)
      → All (Loggable json) changes
      → InStep json c
      → InStep json (run_changes json io changes c)
  run_changes-InStep [] c wrote fits h = h
  run_changes-InStep (published meta ∷ changes) c wrote fits h =
      run_changes-InStep changes (publish json io meta.file_name meta c) wrote fits.1
        (publish-InStep meta c (wrote c.log.attempts) fits.0 h)
  run_changes-InStep (asked req ∷ changes) c wrote fits h =
      run_changes-InStep changes (handle_delete_file json io req c).controller wrote fits.1
        (handle_delete_file-InStep req c (wrote c.log.attempts) fits.0 h)

  first-InStep : InStep json (init_wal true (new_controller []))
  unfolding init_wal new_controller replay lookup
  first-InStep = record {
    durable = record { lines = []; written = refl; well_formed = tt; same = λ k. refl };
    loggable = record { distinct = tt; entries = tt };
    is_open = refl;
  }

  -- Where JSON reads back, on one line: a controller that starts with an empty log publishes files
  -- and deletes files in any order, and every record fits a line and is written whole. Then the log
  -- that is left, compacted in between or not, and whichever steps of a compaction fail, gives a
  -- controller that recovers from it the files that were in memory.
  pub recover_wal-run_changes :
      (changes : List Change)
      → ((i : ℕ) → (io i).write_error ≡ none)
      → All (Loggable json) changes
      → let last = run_changes json io changes (init_wal true (new_controller [])) in
        SameFiles (recover_wal json (new_controller last.log.disk)).files last.files
  recover_wal-run_changes changes wrote fits =
      let last = run_changes json io changes (init_wal true (new_controller [])) in
      let start = init_wal true (new_controller []) in
      let step = run_changes-InStep changes start wrote fits first-InStep in
      recover_wal-SameFiles json laws last.files last.log.disk step.durable
