-- ===== src/Dfs/Controller/Files/Leases.antt =====
-- The rounds of monitorLeases in dfs/controller/controller.go.
use dfs_mapreduce.Base.{
  ℕ, ◌≡◌, refl, ◌∙◌, String, Bool, false, ◌||◌, Option, none, some, [], ◌∷◌, keep, arith, Dict,
  lookup, erase, lookup-erase, eq_iff, str_eq, if◌then◌else◌, Distinct, erase-Distinct,
}
use dfs_mapreduce.Dfs.Controller.{FileMetadata, Controller}
use dfs_mapreduce.Dfs.Controller.Files.{is_expired, erase_all, monitor_leases}

-- Whether a name is a key.
unfoldable pub has_key {ℓ} : {W : Type ℓ} → String → Dict W → Bool
has_key j [] = false
has_key j ((name, w) ∷ m) = str_eq name j || has_key j m

pub lookup-erase_all :
    {V W : Type 0} (j : String) (names : Dict W) (m : Dict V)
    → lookup j (erase_all names m) ≡ (if has_key j names then none else lookup j m)
unfolding erase_all has_key
lookup-erase_all j [] m = refl
lookup-erase_all j ((name, w) ∷ names) m =
    lookup-erase_all j names (erase name m) ∙ ground (arith, lookup-erase j name m)

-- Whether the entry of a name is there and has expired.
abbrev pub expired_at : ℕ → Option FileMetadata → Bool
expired_at now none = false
expired_at now (some meta) = is_expired now meta

has_key-expired :
    (now : ℕ) (j : String) (m : Dict FileMetadata)
    → Distinct m
    → has_key j (keep (λ e. is_expired now e.1) m) ≡ expired_at now (lookup j m)
unfolding has_key lookup
has_key-expired now j [] d = refl
has_key-expired now j ((k, v) ∷ m) d = ground (arith, eq_iff k j, d.0, has_key-expired now j m d.1)

-- If no pending file stands twice in the map, a round of the lease monitor removes exactly the
-- pending files whose lease ended before now, each with its counter. It leaves the other pending
-- files, their counters, and all stored files.
pub monitor_leases_exact :
    (now : ℕ) (c : Controller) (j : String)
    → Distinct c.pending_files
    → let d = (monitor_leases now c).controller in
      (lookup j d.pending_files
        ≡ (if expired_at now (lookup j c.pending_files) then none else lookup j c.pending_files))
      × (lookup j d.pending_chunks
          ≡ (if expired_at now (lookup j c.pending_files) then none else lookup j c.pending_chunks))
      × (d.files ≡ c.files)
unfolding monitor_leases
monitor_leases_exact now c j d =
    let expired = keep (λ (e : String × FileMetadata). is_expired now e.1) c.pending_files in
    let key = has_key-expired now j c.pending_files d in
    (
      lookup-erase_all j expired c.pending_files ∙ rw key refl,
      lookup-erase_all j expired c.pending_chunks ∙ rw key refl,
      refl,
    )

erase_all-Distinct :
    {V W : Type 0} (names : Dict W) (m : Dict V) → Distinct m → Distinct (erase_all names m)
unfolding erase_all
erase_all-Distinct [] m d = d
erase_all-Distinct ((name, w) ∷ names) m d =
    erase_all-Distinct names (erase name m) (erase-Distinct name m d)

pub monitor_leases-Distinct :
    (now : ℕ) (c : Controller)
    → Distinct c.pending_files
    → Distinct (monitor_leases now c).controller.pending_files
unfolding monitor_leases
monitor_leases-Distinct now c d =
    erase_all-Distinct (keep (λ (e : String × FileMetadata). is_expired now e.1) c.pending_files)
      c.pending_files d
