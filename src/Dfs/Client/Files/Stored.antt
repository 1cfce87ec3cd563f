-- ===== src/Dfs/Client/Files/Stored.antt =====
-- The chunks of a whole file that put of dfs/client/client.go has uploaded.
use dfs_mapreduce.Base.{
  ℕ, ◌+◌, ◌-◌, ◌^◌, ◌<◌, ◌≤◌, ◌≡◌, refl, sym, ap, ◌∙◌, subst, String, true, none, some, List, [],
  ◌∷◌, ◌++◌, length, take, drop, get_elem?, drop-drop, get_elem?-drop, length-take, length-drop,
  take-append-drop, append-nil, arith, some_inj, inl, inr, Bool-cases, All,
}
use dfs_mapreduce.Dfs.Messages.{ChunkAllocation}
use dfs_mapreduce.Dfs.Server.{Disk}
use dfs_mapreduce.Dfs.Server.View.{view}
use dfs_mapreduce.Dfs.Client.Pieces.{sum}
use dfs_mapreduce.Dfs.Client.Transfer.{merge_chunks}
use dfs_mapreduce.Dfs.Client.Transfer.RoundTrip.{Agrees}
use dfs_mapreduce.Dfs.Client.Files.{
  Cluster, Visit, zeros, read_full, addresses, upload_chunk, upload_chunks,
}
use dfs_mapreduce.Dfs.Client.Files.Upload.{AllAgree, IsTaken, Keeps, upload_chunk-IsUploaded}

-- The bytes of the chunks.
abbrev pub cut : List ℕ → List ℕ → List (List ℕ)
cut [] bytes = []
cut (s ∷ sizes) bytes = take s bytes ∷ cut sizes (drop s bytes)

pub merge_chunks-cut :
    (sizes bytes : List ℕ) → sum sizes ≡ length bytes → merge_chunks (cut sizes bytes) ≡ bytes
unfolding merge_chunks
merge_chunks-cut [] [] h = refl
merge_chunks-cut [] (b ∷ bytes) h = absurd (omega (arith, h))
merge_chunks-cut (s ∷ sizes) bytes h =
    ap (λ t. take s bytes ++ t)
      (merge_chunks-cut sizes (drop s bytes) (omega (arith, h, length-drop s bytes)))
    ∙ take-append-drop s bytes

-- The allocations are for the chunks from `i` on, in their order.
abbrev pub AreNumbered : ℕ → List ChunkAllocation → Type 0
AreNumbered i [] = Unit
AreNumbered i (alloc ∷ allocs) = (alloc.metadata.id ≡ i) × AreNumbered (i + 1) allocs

read_full-whole : (s : ℕ) (bytes : List ℕ) → s ≤ length bytes → read_full s bytes ≡ take s bytes
unfolding read_full
read_full-whole s bytes h =
    let nothing : s - length bytes ≡ 0 = omega (arith, h) in
    ap (λ n. take s bytes ++ zeros n) nothing ∙ append-nil (take s bytes)

module _ (base : String → String) (md5 : List ℕ → List ℕ) (visits : ℕ → String → Visit)
    (name : String) where
  -- The chunks from `i` on are stored, and served by one of their candidates.
  abbrev pub AllStored : ℕ → List ChunkAllocation → List (List ℕ) → Cluster → Type 0
  AllStored i [] pieces cluster = Unit
  AllStored i (alloc ∷ allocs) [] cluster = ⊥
  AllStored i (alloc ∷ allocs) (piece ∷ pieces) cluster =
      AllAgree base md5 visits name i piece cluster
      × IsTaken base md5 visits name i piece (addresses alloc.nodes) cluster
      × AllStored (i + 1) allocs pieces cluster

  -- What other uploads leave alone.
  abbrev Before : ℕ → Cluster → Cluster → Type 0
  Before i cluster final =
      (a : String) (j : ℕ)
      → j < i
      → view base md5 (final a) (base name) j ≡ view base md5 (cluster a) (base name) j

  Agrees-same :
      (i : ℕ) (piece : List ℕ) (d e : Disk)
      → view base md5 e (base name) i ≡ view base md5 d (base name) i
      → Agrees base md5 (base name) i piece d
      → Agrees base md5 (base name) i piece e
  unfolding Agrees
  Agrees-same i piece d e h (inl k) = inl (h ∙ k)
  Agrees-same i piece d e h (inr k) = inr (h ∙ k)

  AllAgree-Before :
      (i : ℕ) (piece : List ℕ) (cluster final : Cluster)
      → Before (i + 1) cluster final
      → AllAgree base md5 visits name i piece cluster
      → AllAgree base md5 visits name i piece final
  AllAgree-Before i piece cluster final h agree a =
      Agrees-same i piece (cluster a) (final a) (h a i (omega arith)) (agree a)

  IsTaken-Before :
      (i : ℕ) (piece : List ℕ) (at : List String) (cluster final : Cluster)
      → Before (i + 1) cluster final
      → IsTaken base md5 visits name i piece at cluster
      → IsTaken base md5 visits name i piece at final
  IsTaken-Before i piece at cluster final h t = record {
    addr = t.addr;
    there = t.there;
    found = h t.addr i (omega arith) ∙ t.found;
    reached = t.reached;
    heard = t.heard;
  }

  -- No node has a chunk of the file from `i` on.
  abbrev pub IsFresh : ℕ → Cluster → Type 0
  IsFresh i cluster = (a : String) (j : ℕ) → i ≤ j → view base md5 (cluster a) (base name) j ≡ none

  fresh-AllAgree :
      (i : ℕ) (piece : List ℕ) (cluster : Cluster)
      → IsFresh i cluster
      → AllAgree base md5 visits name i piece cluster
  unfolding Agrees
  fresh-AllAgree i piece cluster h a = inl (h a i (omega arith))

  module _ (sizes : List ℕ) (idem : (n : String) → base (base n) ≡ base n) where
    upload_chunks-step :
        (alloc : ChunkAllocation) (allocs : List ChunkAllocation) (bytes : List ℕ) (size : ℕ)
        → (cluster final : Cluster) → get_elem? sizes alloc.metadata.id ≡ some size
        → upload_chunks base md5 visits name sizes (alloc ∷ allocs) bytes cluster ≡ some final
        → ((upload_chunk base md5 visits name alloc.metadata.id
              (read_full size bytes)
              (addresses alloc.nodes)
              cluster).0
            ≡ true)
          × (upload_chunks base md5 visits name sizes allocs
                (drop size bytes)
                (upload_chunk base md5 visits name alloc.metadata.id
                  (read_full size bytes)
                  (addresses alloc.nodes)
                  cluster).1
              ≡ some final)
    unfolding upload_chunks
    upload_chunks-step alloc allocs bytes size cluster final e h =
        elim (Bool-cases
          (upload_chunk base md5 visits name alloc.metadata.id (read_full size bytes)
            (addresses alloc.nodes) cluster).0) [
              | inl f ↦ (f, rw (e, f, upload_chunks) at h)
              | inr f ↦
                  let gone : none ≡ some final = rw (e, f, upload_chunks) at h in
                  absurd (ground arith)
            ]

    -- The size of the next chunk, and those of the chunks behind it.
    size-here :
        (i s : ℕ) (ss : List ℕ)
        → drop i sizes ≡ s ∷ ss
        → (get_elem? sizes i ≡ some s) × (drop (i + 1) sizes ≡ ss)
    size-here i s ss e =
        let there : get_elem? (drop i sizes) 0 ≡ get_elem? sizes (i + 0) =
          get_elem?-drop i 0 sizes in
        let zero_more : i + 0 ≡ i = omega arith in
        (
          ap (get_elem? sizes) (sym zero_more) ∙ sym there ∙ ap (λ xs. get_elem? xs 0) e,
          sym (drop-drop 1 i sizes) ∙ ap (drop 1) e,
        )

    -- One chunk: it is stored, and the others are as they were.
    chunk-stored :
        (i s : ℕ) (bytes : List ℕ) (at : List String) (cluster : Cluster)
        → s ≤ length bytes
        → s < 2 ^ 32
        → IsFresh i cluster
        → (upload_chunk base md5 visits name i (read_full s bytes) at cluster).0 ≡ true
        → AllAgree base md5 visits name i
            (take s bytes)
            (upload_chunk base md5 visits name i (read_full s bytes) at cluster).1
          × IsTaken base md5 visits name i
              (take s bytes)
              at
              (upload_chunk base md5 visits name i (read_full s bytes) at cluster).1
          × Keeps base md5 visits name i cluster
              (upload_chunk base md5 visits name i (read_full s bytes) at cluster).1
    chunk-stored i s bytes at cluster fits small fresh done =
        let whole = read_full-whole s bytes fits in
        let u =
          upload_chunk-IsUploaded base md5 visits name i (read_full s bytes) at cluster idem
            (omega (arith, ap length whole, length-take s bytes, small))
            (fresh-AllAgree i (read_full s bytes) cluster fresh) in
        let x = upload_chunk base md5 visits name i (read_full s bytes) at cluster in
        (
          subst (λ p. AllAgree base md5 visits name i p x.1) whole u.agree,
          subst (λ p. IsTaken base md5 visits name i p at x.1) whole (u.taken done),
          u.kept,
        )

    pub upload_chunks-AllStored :
        (i : ℕ) (allocs : List ChunkAllocation) (ss bytes : List ℕ) (cluster final : Cluster)
        → AreNumbered i allocs
        → drop i sizes ≡ ss
        → length allocs ≡ length ss
        → sum ss ≤ length bytes
        → All (λ s. s < 2 ^ 32) ss
        → IsFresh i cluster
        → upload_chunks base md5 visits name sizes allocs bytes cluster ≡ some final
        → Before i cluster final × AllStored i allocs (cut ss bytes) final
    unfolding upload_chunks
    upload_chunks-AllStored i [] [] bytes cluster final num e n fits small fresh h =
        (λ a j lt. ap (λ c. view base md5 (c a) (base name) j) (some_inj (sym h)), tt)
    upload_chunks-AllStored i [] (s ∷ ss) bytes cluster final num e n fits small fresh h =
        absurd (omega (arith, n))
    upload_chunks-AllStored i (alloc ∷ allocs) [] bytes cluster final num e n fits small fresh h =
        absurd (omega (arith, n))
    upload_chunks-AllStored i (alloc ∷ allocs) (s ∷ ss) bytes cluster final num e n fits small fresh
          h =
        let id = alloc.metadata.id in
        let at = addresses alloc.nodes in
        let (here, behind) = size-here i s ss e in
        let next = (upload_chunk base md5 visits name i (read_full s bytes) at cluster).1 in
        let (done, rest) : ((upload_chunk base md5 visits name i (read_full s bytes) at cluster).0
              ≡ true)
            × (upload_chunks base md5 visits name sizes allocs (drop s bytes) next ≡ some final) =
          subst
            (λ j.
              ((upload_chunk base md5 visits name j (read_full s bytes) at cluster).0 ≡ true)
              × (upload_chunks base md5 visits name sizes allocs (drop s bytes)
                    (upload_chunk base md5 visits name j (read_full s bytes) at cluster).1
                  ≡ some final))
            num.0
            (upload_chunks-step alloc allocs bytes s cluster final
              (ap (get_elem? sizes) num.0 ∙ here) h) in
        let (agree, taken, kept) =
          chunk-stored i s bytes at cluster (omega (arith, fits)) small.0 fresh done in
        let next_fresh : IsFresh (i + 1) next =
          λ a j le. kept a j (ground (arith, le)) ∙ fresh a j (omega (arith, le)) in
        let (before, stored) =
          upload_chunks-AllStored (i + 1) allocs ss (drop s bytes) next final num.1 behind
            (omega (arith, n)) (omega (arith, fits, length-drop s bytes)) small.1 next_fresh rest in
        (
          λ a j lt. before a j (omega (arith, lt)) ∙ kept a j (ground (arith, lt)),
          (
            AllAgree-Before i (take s bytes) next final before agree,
            IsTaken-Before i (take s bytes) at next final before taken,
            stored,
          ),
        )
