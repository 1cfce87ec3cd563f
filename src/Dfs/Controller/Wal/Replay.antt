-- ===== src/Dfs/Controller/Wal/Replay.antt =====
-- Replaying a log: what recoverWAL rebuilds from the lines that appends and compaction write.
use dfs_mapreduce.Base.{
  ℕ, ◌+◌, ◌≡◌, ◌≢◌, refl, ap, ◌∙◌, inl, inr, String, Option, none, some, List, [], ◌∷◌, ◌++◌, map,
  All, arith, Dict, lookup, insert, lookup-insert, lookup-erase, Distinct, Entries, drop_cr, eq_iff,
  Option-cases,
}
use dfs_mapreduce.Dfs.Controller.{ChunkInfo, FileMetadata}
use dfs_mapreduce.Dfs.Controller.Wal.{
  WalRecord, WalFileMetadata, to_wal_chunk, from_wal_chunk, to_wal_file_meta, from_wal_file_meta,
  Json, put_record, apply_record, replay, compacted,
}

-- What encoding/json promises: a record reads back, and is one line of text.
pub record JsonLaws (json : Json) : Type 0 where
  pub unmarshal-marshal :
      (r : WalRecord) (bs : List ℕ) → json.marshal r ≡ some bs → json.unmarshal bs ≡ some r
  pub one_line : (r : WalRecord) (bs : List ℕ) → json.marshal r ≡ some bs → All (λ b. b ≢ 10) bs
  pub no_cr : (r : WalRecord) (bs : List ℕ) → json.marshal r ≡ some bs → drop_cr bs ≡ bs

from-to-chunks : (cs : List ChunkInfo) → map from_wal_chunk (map to_wal_chunk cs) ≡ cs
unfolding from_wal_chunk to_wal_chunk
from-to-chunks [] = refl
from-to-chunks (c ∷ cs) = ap (◌∷◌ c) (from-to-chunks cs)

-- The metadata of a file survives the conversion to the log's types and back.
pub from-to_wal_file_meta :
    (meta : FileMetadata) (w : WalFileMetadata)
    → to_wal_file_meta (some meta) ≡ some w
    → from_wal_file_meta w ≡ meta
unfolding to_wal_file_meta from_wal_file_meta
from-to_wal_file_meta meta w e = ground (arith, from-to-chunks meta.chunks)

abbrev pub SameFiles : Dict FileMetadata → Dict FileMetadata → Type 0
SameFiles a b = (k : String) → lookup k a ≡ lookup k b

pub apply_record-SameFiles :
    (r : WalRecord) (a b : Dict FileMetadata)
    → SameFiles a b
    → SameFiles (apply_record r a) (apply_record r b)
unfolding apply_record
apply_record-SameFiles r a b h k = elim (Option-cases r.file_meta) [
  | inl e ↦ ground (arith, h k, e, lookup-erase k r.file_name a, lookup-erase k r.file_name b)
  | inr (m, e) ↦ ground (
    arith,
    h k,
    e,
    lookup-insert k m.file_name (from_wal_file_meta m) a,
    lookup-insert k m.file_name (from_wal_file_meta m) b,
    lookup-erase k r.file_name a,
    lookup-erase k r.file_name b,
  )
]

-- A PUT record of the source puts the file under its own name.
pub apply-put_record :
    (meta : FileMetadata) (files : Dict FileMetadata)
    → apply_record (put_record meta) files ≡ insert meta.file_name meta files
unfolding apply_record put_record to_wal_file_meta from_wal_file_meta
apply-put_record meta files =
    ap (λ cs. insert meta.file_name (record meta { chunks = cs }) files)
      (from-to-chunks meta.chunks)

module _ (json : Json) where
  pub replay-append :
      (ls ms : List (List ℕ)) (s : Dict FileMetadata × ℕ)
      → replay json (ls ++ ms) s ≡ replay json ms (replay json ls s)
  unfolding replay
  replay-append [] ms s = refl
  replay-append (l ∷ ls) ms (files, count) = elim (Option-cases (json.unmarshal l)) [
    | inl e ↦ ground (arith, replay-append ls ms (files, count))
    | inr (r, e) ↦ ground (arith, replay-append ls ms (apply_record r files, count + 1))
  ]

  pub replay_one :
      (l : List ℕ) (r : WalRecord) (s : Dict FileMetadata × ℕ)
      → json.unmarshal l ≡ some r
      → replay json (l ∷ []) s ≡ (apply_record r s.0, s.1 + 1)
  unfolding replay
  replay_one l r (files, count) e = ground arith

  -- A record that marshals.
  abbrev pub Marshals : WalRecord → Type 0
  Marshals r = (bs : List ℕ) × (json.marshal r ≡ some bs)

  abbrev pub or_else : Option FileMetadata → Option FileMetadata → Option FileMetadata
  or_else none o = o
  or_else (some a) o = some a

  -- Replaying what compaction writes lays the files over what was there before.
  pub replay-compacted :
      (laws : JsonLaws json) (files before : Dict FileMetadata) (n : ℕ) (k : String)
      → Distinct files
      → Entries (λ name meta. (meta.file_name ≡ name) × Marshals (put_record meta)) files
      → lookup k (replay json (compacted json files) (before, n)).0
        ≡ or_else (lookup k files) (lookup k before)
  unfolding replay compacted lookup
  replay-compacted laws [] before n k d h = refl
  replay-compacted laws ((name, meta) ∷ files) before n k d h =
      let (own, (bs, e)) = h.0 in
      rw (e, compacted, replay, laws.unmarshal-marshal _ bs e, apply-put_record meta before)
        (replay-compacted laws files (insert meta.file_name meta before) (n + 1) k d.1 h.1
          ∙ rw (lookup-insert k meta.file_name meta before, own) (ground (arith, eq_iff name k)))
