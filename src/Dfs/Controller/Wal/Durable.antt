-- ===== src/Dfs/Controller/Wal/Durable.antt =====
-- appendWalRecord, compactWAL and recoverWAL of dfs/controller/wal.go: memory and disk together.
use dfs_mapreduce.Base.{
  ℕ, ◌+◌, ◌<◌, ◌≡◌, refl, sym, ap, ◌∙◌, subst, inl, inr, String, true, Option, none, some, List, [],
  ◌∷◌, ◌++◌, All, All-append, length, arith, Dict, lookup, Distinct, Entries, join_lines,
  join_lines-append, scan_lines, scan_lines-join, IsLine, append-nil, Bool-cases, leb,
}
use dfs_mapreduce.Dfs.Controller.{FileMetadata, Log, new_controller}
use dfs_mapreduce.Dfs.Controller.Wal.{
  WalRecord, WalIo, to_wal_file_meta, Json, put_record, max_line, compaction_threshold,
  apply_record, replay, compacted, recover_wal, compact_wal, count_record, write_record,
  append_wal_record,
}
use dfs_mapreduce.Dfs.Controller.Wal.Replay.{
  JsonLaws, SameFiles, apply_record-SameFiles, replay-append, replay_one, replay-compacted,
  Marshals, or_else,
}

-- The record marshals to a line that the scanner of recoverWAL can hold.
abbrev pub Fits : Json → WalRecord → Type 0
Fits json r = (bs : List ℕ) × (json.marshal r ≡ some bs) × (length bs < max_line)

-- Each file stands under its own name, once, and its record fits.
pub record IsLoggable (json : Json) (files : Dict FileMetadata) : Type 0 where
  pub distinct : Distinct files
  pub entries : Entries (λ name meta. (meta.file_name ≡ name) × Fits json (put_record meta)) files

-- The bytes on disk are lines that replay to the files.
pub record IsDurable (json : Json) (files : Dict FileMetadata) (disk : List ℕ) : Type 0 where
  pub lines : List (List ℕ)
  pub written : disk ≡ join_lines lines
  pub well_formed : All (IsLine max_line) lines
  pub same : SameFiles (replay json lines ([], 0)).0 files

module _ (json : Json) (laws : JsonLaws json) where
  Fits-IsLine : (r : WalRecord) (f : Fits json r) → IsLine max_line f.0
  Fits-IsLine r (bs, e, h) = record {
    no_newline = laws.one_line r bs e;
    no_cr = laws.no_cr r bs e;
    fits = h;
  }

  compacted-lines :
      (files : Dict FileMetadata)
      → Entries (λ name meta. (meta.file_name ≡ name) × Fits json (put_record meta)) files
      → All (IsLine max_line) (compacted json files)
  unfolding compacted
  compacted-lines [] h = tt
  compacted-lines ((name, meta) ∷ files) h =
      let (own, fits) = h.0 in
      rw (fits.1, compacted) (Fits-IsLine (put_record meta) fits, compacted-lines files h.1)

  Entries-Marshals :
      (files : Dict FileMetadata)
      → Entries (λ name meta. (meta.file_name ≡ name) × Fits json (put_record meta)) files
      → Entries (λ name meta. (meta.file_name ≡ name) × Marshals json (put_record meta)) files
  Entries-Marshals [] h = tt
  Entries-Marshals ((name, meta) ∷ files) h =
      let (own, fits) = h.0 in ((own, (fits.0, fits.1)), Entries-Marshals files h.1)

  or_else-none : (o : Option FileMetadata) → or_else json o none ≡ o
  or_else-none none = refl
  or_else-none (some a) = refl

  pub compacted-IsDurable :
      (files : Dict FileMetadata)
      → IsLoggable json files
      → IsDurable json files (join_lines (compacted json files))
  unfolding lookup
  compacted-IsDurable files h = record {
    lines = compacted json files;
    written = refl;
    well_formed = compacted-lines files h.entries;
    same = λ k.
        replay-compacted json laws files [] 0 k h.distinct (Entries-Marshals files h.entries)
        ∙ or_else-none (lookup k files);
  }

  pub written-IsDurable :
      (before files : Dict FileMetadata) (disk : List ℕ) (r : WalRecord)
      → IsDurable json before disk
      → (f : Fits json r) → SameFiles (apply_record r before) files
      → IsDurable json files (disk ++ (f.0 ++ 10 ∷ []))
  written-IsDurable before files disk r d (bs, e, h) change = record {
    lines = d.lines ++ bs ∷ [];
    written = ap (λ t. t ++ (bs ++ 10 ∷ [])) d.written ∙ sym (join_lines-append d.lines (bs ∷ []));
    well_formed =
        All-append (IsLine max_line) d.lines (bs ∷ []) d.well_formed (Fits-IsLine r (bs, e, h), tt);
    same = λ k.
        ap (λ s. lookup k s.0)
          (replay-append json d.lines (bs ∷ []) ([], 0)
            ∙ replay_one json bs r _ (laws.unmarshal-marshal r bs e))
        ∙ apply_record-SameFiles r _ before d.same k
        ∙ change k;
  }

  compact_wal-IsDurable :
      (io : WalIo) (files : Dict FileMetadata) (log : Log)
      → IsLoggable json files
      → IsDurable json files log.disk
      → IsDurable json files (compact_wal json io files log).disk
  unfolding compact_wal
  compact_wal-IsDurable io files log h d =
      let done = compacted-IsDurable files h in ground (arith, done)

  count_record-IsDurable :
      (io : WalIo) (files : Dict FileMetadata) (log : Log)
      → IsLoggable json files
      → IsDurable json files log.disk
      → IsDurable json files (count_record json io files log).disk
  unfolding count_record
  count_record-IsDurable io files log h d =
      let counted = record log { wal_count = log.wal_count + 1 } in
      elim (Bool-cases (leb compaction_threshold (log.wal_count + 1))) [
        | inl e ↦ rw e (compact_wal-IsDurable io files counted h d)
        | inr e ↦ rw e d
      ]

  append-wrote :
      (io : ℕ → WalIo) (files : Dict FileMetadata) (op name : String) (meta : Option FileMetadata)
      (log : Log) (bs : List ℕ)
      → json.marshal (record { op = op; file_name = name; file_meta = to_wal_file_meta meta })
        ≡ some bs
      → log.wal_file ≡ true
      → (io log.attempts).write_error ≡ none
      → append_wal_record json io files op name meta log
        ≡ count_record json
            (io log.attempts)
            files
            (record log { attempts = log.attempts + 1; disk = log.disk ++ (bs ++ 10 ∷ []) })
  unfolding append_wal_record write_record
  append-wrote io files op name meta log bs e is_open wrote = ground arith

  -- Where JSON reads back, on one line: an append to an open log whose write goes through keeps
  -- the disk replaying to the files in memory, whether or not it compacts the log, and whichever
  -- step of the compaction fails. The disk was in step with the files before, the record fits a
  -- line and says what has changed, and the files now in memory can be logged.
  pub append_wal_record-IsDurable :
      (io : ℕ → WalIo) (before files : Dict FileMetadata) (op name : String)
      (meta : Option FileMetadata) (log : Log)
      → IsDurable json before log.disk
      → Fits json (record { op = op; file_name = name; file_meta = to_wal_file_meta meta })
      → SameFiles
          (apply_record
            (record { op = op; file_name = name; file_meta = to_wal_file_meta meta })
            before)
          files
      → IsLoggable json files
      → log.wal_file ≡ true
      → (io log.attempts).write_error ≡ none
      → IsDurable json files (append_wal_record json io files op name meta log).disk
  append_wal_record-IsDurable io before files op name meta log d f change h is_open wrote =
      let written = record log {
        attempts = log.attempts + 1;
        disk = log.disk ++ (f.0 ++ 10 ∷ []);
      } in
      subst (λ l. IsDurable json files l.disk)
        (sym (append-wrote io files op name meta log f.0 f.1 is_open wrote))
        (count_record-IsDurable (io log.attempts) files written h
          (written-IsDurable before files log.disk _ d f change))

  -- Where JSON reads back, on one line: a controller that starts on a disk whose lines replay to
  -- some files has these files.
  pub recover_wal-SameFiles :
      (files : Dict FileMetadata) (disk : List ℕ)
      → IsDurable json files disk
      → SameFiles (recover_wal json (new_controller disk)).files files
  unfolding recover_wal new_controller scan_lines
  recover_wal-SameFiles files disk d k =
      ap (λ ls. lookup k (replay json ls ([], 0)).0)
        (ap (scan_lines max_line) (d.written ∙ sym (append-nil _))
          ∙ scan_lines-join max_line d.lines [] d.well_formed
          ∙ append-nil d.lines)
      ∙ d.same k
