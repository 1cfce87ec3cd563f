-- ===== src/Tests/History.antt =====
-- A file that is published and deleted again, and another start from the log.
use dfs_mapreduce.Base.{
  ℕ, ◌≡◌, ◌≢◌, refl, String, Bool, true, false, ◌&&◌, Option, none, some, List, [], ◌∷◌, All, arith,
  eq_iff, str_eq, subst, sym, ap, ◌∙◌, Bool-cases, inl, inr, ◌==◌, ◌⊎◌, drop_cr, if◌then◌else◌,
}
use dfs_mapreduce.Dfs.Controller.{new_controller}
use dfs_mapreduce.Dfs.Controller.Wal.{
  WalRecord, WalFileMetadata, Json, init_wal, recover_wal, to_wal_file_meta, put_record,
}
use dfs_mapreduce.Dfs.Controller.Wal.Replay.{JsonLaws, SameFiles}
use dfs_mapreduce.Dfs.Controller.Wal.Durable.{Fits}
use dfs_mapreduce.Dfs.Controller.Wal.History.{
  Change, published, asked, delete_record, run_changes, recover_wal-run_changes,
}
use dfs_mapreduce.Tests.Wal.{meta, put_f, is_put_f, is_put_f_lem, all_well}

abbrev delete_f : WalRecord
delete_f = delete_record "f"

abbrev is_delete_f : WalRecord → Bool
is_delete_f r = elim r.file_meta [
  | none ↦ str_eq r.op "DELETE" && str_eq r.file_name "f"
  | some m ↦ false
]

is_delete_f_lem :
    (op name : String) (m : Option WalFileMetadata)
    → let r : WalRecord = record { op = op; file_name = name; file_meta = m } in
      is_delete_f r ≡ true → r ≡ delete_f
is_delete_f_lem op name none h = ground (arith, eq_iff op "DELETE", eq_iff name "f")
is_delete_f_lem op name (some m) h = absurd (ground arith)

-- Marshals two records, to one byte each.
abbrev two_records : Json
two_records = record {
  marshal =
      λ r. if is_put_f r then some (65 ∷ []) else if is_delete_f r then some (66 ∷ []) else none;
  unmarshal =
      λ bs. elim bs [ [] ↦ none | b ∷ rest ↦ if b == 65 then some put_f else some delete_f ];
}

two_records-cases :
    (r : WalRecord) (bs : List ℕ)
    → two_records.marshal r ≡ some bs
    → ((is_put_f r ≡ true) × (65 ∷ [] ≡ bs)) ⊎ ((is_delete_f r ≡ true) × (66 ∷ [] ≡ bs))
two_records-cases r bs h = elim (Bool-cases (is_put_f r)) [
  | inl e ↦ inl (e, ground arith)
  | inr e ↦ elim (Bool-cases (is_delete_f r)) [
    | inl f ↦ inr (f, ground arith)
    | inr f ↦ absurd (ground arith)
  ]
]

two_records_laws : JsonLaws two_records
unfolding drop_cr
two_records_laws = record {
  unmarshal-marshal = λ r bs h. elim (two_records-cases r bs h) [
    | inl (e, f) ↦
        ap two_records.unmarshal (sym f)
        ∙ ap some (sym (is_put_f_lem r.op r.file_name r.file_meta e))
    | inr (e, f) ↦
        ap two_records.unmarshal (sym f)
        ∙ ap some (sym (is_delete_f_lem r.op r.file_name r.file_meta e))
  ];
  one_line = λ r bs h. elim (two_records-cases r bs h) [
    | inl (e, f) ↦ subst (All (λ b. b ≢ 10)) f ((λ k. omega arith), tt)
    | inr (e, f) ↦ subst (All (λ b. b ≢ 10)) f ((λ k. omega arith), tt)
  ];
  no_cr = λ r bs h. elim (two_records-cases r bs h) [
    | inl (e, f) ↦ subst (λ l. drop_cr l ≡ l) f refl
    | inr (e, f) ↦ subst (λ l. drop_cr l ≡ l) f refl
  ];
}

abbrev changes : List Change
changes = published meta ∷ asked (record { name = "f"; size = 0 }) ∷ published meta ∷ []

put_meta-Fits : Fits two_records (put_record meta)
unfolding put_record to_wal_file_meta
put_meta-Fits = (65 ∷ [], refl, omega arith)

delete_f-Fits : Fits two_records delete_f
delete_f-Fits = (66 ∷ [], refl, omega arith)

recover_wal-run_changes_example :
    let last = run_changes two_records all_well changes (init_wal true (new_controller [])) in
    SameFiles (recover_wal two_records (new_controller last.log.disk)).files last.files
recover_wal-run_changes_example =
    recover_wal-run_changes two_records two_records_laws all_well changes (λ i. refl)
      (put_meta-Fits, (delete_f-Fits, (put_meta-Fits, tt)))
