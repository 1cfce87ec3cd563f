-- ===== src/Tests/Wal.antt =====
-- A log that a file is appended to and recovered from.
use dfs_mapreduce.Base.{
  ℕ, ◌≡◌, ◌≢◌, refl, String, Bool, true, false, ◌&&◌, Option, none, some, List, [], ◌∷◌, All, arith,
  Dict, lookup, insert, eq_iff, str_eq, subst, sym, ap, Bool-cases, inl, inr, ◌==◌, drop_cr,
  if◌then◌else◌, join_lines,
}
use dfs_mapreduce.Dfs.Controller.{FileMetadata, Log, new_controller}
use dfs_mapreduce.Dfs.Controller.Wal.{
  WalRecord, WalChunkInfo, WalFileMetadata, WalIo, Json, put_record, to_wal_file_meta,
  from_wal_file_meta, apply_record, replay, recover_wal, append_wal_record,
}
use dfs_mapreduce.Dfs.Controller.Wal.Replay.{JsonLaws, SameFiles}
use dfs_mapreduce.Dfs.Controller.Wal.Durable.{
  Fits, IsLoggable, IsDurable, append_wal_record-IsDurable, recover_wal-SameFiles,
}

abbrev pub meta : FileMetadata
meta = record { file_name = "f"; size = 5; chunks = []; created_at = 1; lease_expiry = 2 }

abbrev pub put_f : WalRecord
put_f = record {
  op = "PUT";
  file_name = "f";
  file_meta =
      some (record { file_name = "f"; size = 5; chunks = []; created_at = 1; lease_expiry = 2 });
}

-- Marshals one record, to one byte.
abbrev is_meta : WalFileMetadata → Bool
is_meta m = elim m.chunks [
  | [] ↦ str_eq m.file_name "f" && m.size == 5 && m.created_at == 1 && m.lease_expiry == 2
  | c ∷ cs ↦ false
]

abbrev pub is_put_f : WalRecord → Bool
is_put_f r = elim r.file_meta [
  | none ↦ false
  | some m ↦ str_eq r.op "PUT" && str_eq r.file_name "f" && is_meta m
]

abbrev one_record : Json
one_record = record {
  marshal = λ r. if is_put_f r then some (65 ∷ []) else none;
  unmarshal = λ bs. some put_f;
}

is_meta_lem :
    (name : String) (size created expiry : ℕ) (cs : List WalChunkInfo)
    → let m : WalFileMetadata = record {
      file_name = name;
      size = size;
      chunks = cs;
      created_at = created;
      lease_expiry = expiry;
    } in
      is_meta m ≡ true → some m ≡ put_f.file_meta
is_meta_lem name size created expiry [] h = ground (arith, eq_iff name "f")
is_meta_lem name size created expiry (c ∷ cs) h = absurd (ground arith)

pub is_put_f_lem :
    (op name : String) (m : Option WalFileMetadata)
    → let r : WalRecord = record { op = op; file_name = name; file_meta = m } in
      is_put_f r ≡ true → r ≡ put_f
is_put_f_lem op name none h = absurd (ground arith)
is_put_f_lem op name (some m) h =
    let same = is_meta_lem m.file_name m.size m.created_at m.lease_expiry m.chunks in
    ground (arith, same, eq_iff op "PUT", eq_iff name "f")

one_record_bytes :
    (r : WalRecord) (bs : List ℕ)
    → one_record.marshal r ≡ some bs
    → (is_put_f r ≡ true) × (65 ∷ [] ≡ bs)
one_record_bytes r bs h = elim (Bool-cases (is_put_f r)) [
  | inl e ↦ (e, ground arith)
  | inr e ↦ absurd (ground arith)
]

one_record_laws : JsonLaws one_record
unfolding drop_cr
one_record_laws = record {
  unmarshal-marshal = λ r bs h.
      ap some (sym (is_put_f_lem r.op r.file_name r.file_meta (one_record_bytes r bs h).0));
  one_line = λ r bs h. subst (All (λ b. b ≢ 10)) (one_record_bytes r bs h).1 (λ e. omega arith, tt);
  no_cr = λ r bs h. subst (λ l. drop_cr l ≡ l) (one_record_bytes r bs h).1 refl;
}

abbrev files : Dict FileMetadata
files = ("f", meta) ∷ []

abbrev open_log : Log
open_log = record { wal_file = true; wal_count = 0; disk = []; attempts = 0; running = true }

abbrev pub all_well : ℕ → WalIo
all_well i = record {
  write_error = none;
  tmp_open = true;
  tmp_write = true;
  rename = true;
  reopen = true;
}

empty-IsDurable : IsDurable one_record [] []
unfolding replay join_lines
empty-IsDurable = record { lines = []; written = refl; well_formed = tt; same = λ k. refl }

put_f-Fits :
    Fits one_record
      (record { op = "PUT"; file_name = "f"; file_meta = to_wal_file_meta (some meta) })
unfolding to_wal_file_meta
put_f-Fits = (65 ∷ [], refl, omega arith)

put_meta-Fits : Fits one_record (put_record meta)
unfolding put_record to_wal_file_meta
put_meta-Fits = (65 ∷ [], refl, omega arith)

files-IsLoggable : IsLoggable one_record files
unfolding lookup
files-IsLoggable = record { distinct = (refl, tt); entries = ((refl, put_meta-Fits), tt) }

put_changes :
    SameFiles
      (apply_record
        (record { op = "PUT"; file_name = "f"; file_meta = to_wal_file_meta (some meta) })
        [])
      files
unfolding apply_record to_wal_file_meta from_wal_file_meta insert
put_changes k = refl

append_wal_record-IsDurable_example :
    IsDurable one_record files
      (append_wal_record one_record all_well files "PUT" "f" (some meta) open_log).disk
append_wal_record-IsDurable_example =
    append_wal_record-IsDurable one_record one_record_laws all_well [] files "PUT" "f" (some meta)
      open_log empty-IsDurable put_f-Fits put_changes files-IsLoggable refl refl

on_disk : IsDurable one_record files (65 ∷ 10 ∷ [])
unfolding replay join_lines apply_record from_wal_file_meta insert drop_cr
on_disk = record {
  lines = (65 ∷ []) ∷ [];
  written = refl;
  well_formed =
      (record { no_newline = (λ e. omega arith, tt); no_cr = refl; fits = omega arith }, tt);
  same = λ k. refl;
}

recover_wal-SameFiles_run :
    SameFiles (recover_wal one_record (new_controller (65 ∷ 10 ∷ []))).files files
recover_wal-SameFiles_run =
    recover_wal-SameFiles one_record one_record_laws files (65 ∷ 10 ∷ []) on_disk
