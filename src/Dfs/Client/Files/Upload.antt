-- ===== src/Dfs/Client/Files/Upload.antt =====
-- The upload of one chunk by put of dfs/client/client.go: what it leaves at every address.
use mathlib.Core.List.{Memᴰ}
use dfs_mapreduce.Base.{
  ℕ, ◌^◌, ◌<◌, ◌≡◌, refl, sym, ap, ◌∙◌, subst, String, Bool, true, false, ◌&&◌, some, List, [], ◌∷◌,
  length, arith, str_eq, eq_iff, eq_refl, ◌==◌, ◌⊎◌, inl, inr, Bool-cases,
}
use dfs_mapreduce.Dfs.Server.{Disk, Effects, is_at, both_ok, handle_store_chunk}
use dfs_mapreduce.Dfs.Server.View.{view, StoreEnd, handle_store_chunk-StoreEnd}
use dfs_mapreduce.Dfs.Client.Transfer.{Node, put_request, arriving}
use dfs_mapreduce.Dfs.Client.Transfer.RoundTrip.{Agrees, stored-Agrees, accepted, both-true}
use dfs_mapreduce.Dfs.Client.Files.{Cluster, Visit, node_at, set_disk, upload_chunk}

module _ (base : String → String) (md5 : List ℕ → List ℕ) (visits : ℕ → String → Visit) where
  -- Every node has no chunk to serve, or this one.
  abbrev pub AllAgree : String → ℕ → List ℕ → Cluster → Type 0
  AllAgree name id bytes cluster = (a : String) → Agrees base md5 (base name) id bytes (cluster a)

  -- One of the addresses serves the bytes, on a connection that works.
  pub record IsTaken (name : String) (id : ℕ) (bytes : List ℕ) (as_at : List String)
      (cluster : Cluster) : Type 0 where
    pub addr : String
    pub there : Memᴰ addr as_at
    pub found : view base md5 (cluster addr) (base name) id ≡ some bytes
    pub reached : (visits id addr).reached ≡ true
    pub heard : (visits id addr).heard ≡ true

  -- Other chunks of the file stay as they are.
  abbrev pub Keeps : String → ℕ → Cluster → Cluster → Type 0
  Keeps name id cluster next =
      (a : String) (j : ℕ)
      → (id == j) ≡ false
      → view base md5 (next a) (base name) j ≡ view base md5 (cluster a) (base name) j

  pub record IsUploaded (name : String) (id : ℕ) (bytes : List ℕ) (as_at : List String)
      (cluster : Cluster) (x : Bool × Cluster) : Type 0 where
    pub agree : AllAgree name id bytes x.1
    pub kept : Keeps name id cluster x.1
    pub taken : x.0 ≡ true → IsTaken name id bytes as_at x.1

  end-kept :
      (name : String) (id j : ℕ) (bytes : List ℕ) (node : Node) (x : Effects)
      → ((n : String) → base (base n) ≡ base n)
      → (id == j) ≡ false
      → StoreEnd base md5 (arriving bytes node) (put_request base md5 name id bytes) node.disk x
      → view base md5 x.disk (base name) j ≡ view base md5 node.disk (base name) j
  end-kept name id j bytes node x idem e (StoreEnd.untouched h r o) = h (base name) j
  end-kept name id j bytes node x idem e (StoreEnd.gone h r o) =
      let away : is_at (base name) id (base name) j ≡ false = ground (arith, e) in
      h (base name) j ∙ rw away refl
  end-kept name id j bytes node x idem e (StoreEnd.done size sum h r o) =
      let away : is_at (base name) id (base name) j ≡ false = ground (arith, e) in
      h (base name) j ∙ rw away refl

  set_disk-same : (a : String) (disk : Disk) (cluster : Cluster) → set_disk a disk cluster a ≡ disk
  set_disk-same a disk cluster = rw (eq_refl a) refl

  set_disk-cases :
      (a b : String) (disk : Disk) (cluster : Cluster)
      → ((a ≡ b) × (set_disk a disk cluster b ≡ disk)) ⊎ (set_disk a disk cluster b ≡ cluster b)
  set_disk-cases a b disk cluster = elim (Bool-cases (str_eq a b)) [
    | inl e ↦ inl (grind (arith, e, eq_iff a b), rw e refl)
    | inr e ↦ inr (rw e refl)
  ]

  module _ (name : String) (id : ℕ) (bytes : List ℕ) (cluster : Cluster) (a : String)
      (disk : Disk) where
    Keeps-set_disk :
        ((j : ℕ)
          → (id == j) ≡ false
          → view base md5 disk (base name) j ≡ view base md5 (cluster a) (base name) j)
        → Keeps name id cluster (set_disk a disk cluster)
    Keeps-set_disk h b j e = elim (set_disk-cases a b disk cluster) [
      | inl (same, f) ↦
          ap (λ d. view base md5 d (base name) j) f
          ∙ h j e
          ∙ ap (λ c. view base md5 (cluster c) (base name) j) same
      | inr f ↦ ap (λ d. view base md5 d (base name) j) f
    ]

    AllAgree-set_disk :
        AllAgree name id bytes cluster
        → Agrees base md5 (base name) id bytes disk
        → AllAgree name id bytes (set_disk a disk cluster)
    AllAgree-set_disk h k b = elim (set_disk-cases a b disk cluster) [
      | inl (same, f) ↦ subst (Agrees base md5 (base name) id bytes) (sym f) k
      | inr f ↦ subst (Agrees base md5 (base name) id bytes) (sym f) (h b)
    ]

  -- What a store of the chunk at an address comes to.
  abbrev stored_at : String → ℕ → List ℕ → Cluster → String → Effects
  stored_at name id bytes cluster a =
      handle_store_chunk base md5 (arriving bytes (node_at visits id cluster a))
        (put_request base md5 name id bytes) (cluster a)

  module _ (name : String) (id : ℕ) (bytes : List ℕ) (a : String) (rest : List String)
      (cluster : Cluster) where
    upload_chunk-unreached :
        (visits id a).reached ≡ false
        → upload_chunk base md5 visits name id bytes (a ∷ rest) cluster
          ≡ upload_chunk base md5 visits name id bytes rest cluster
    unfolding upload_chunk
    upload_chunk-unreached e = rw (e, upload_chunk) refl

    upload_chunk-taken :
        (visits id a).reached ≡ true
        → ((visits id a).heard && both_ok (stored_at name id bytes cluster a).sent) ≡ true
        → upload_chunk base md5 visits name id bytes (a ∷ rest) cluster
          ≡ (true, set_disk a (stored_at name id bytes cluster a).disk cluster)
    unfolding upload_chunk
    upload_chunk-taken e f = rw (e, f, upload_chunk) refl

    upload_chunk-refused :
        (visits id a).reached ≡ true
        → ((visits id a).heard && both_ok (stored_at name id bytes cluster a).sent) ≡ false
        → upload_chunk base md5 visits name id bytes (a ∷ rest) cluster
          ≡ upload_chunk base md5 visits name id bytes rest
              (set_disk a (stored_at name id bytes cluster a).disk cluster)
    unfolding upload_chunk
    upload_chunk-refused e f = rw (e, f, upload_chunk) refl

    later :
        (middle : Cluster) (x : Bool × Cluster)
        → Keeps name id cluster middle
        → IsUploaded name id bytes rest middle x
        → IsUploaded name id bytes (a ∷ rest) cluster x
    later middle x k u = record {
      agree = u.agree;
      kept = λ b j e. u.kept b j e ∙ k b j e;
      taken = λ h.
          let t = u.taken h in
          record {
            addr = t.addr;
            there = Memᴰ.tail t.there;
            found = t.found;
            reached = t.reached;
            heard = t.heard;
          };
    }

  -- After the upload of a chunk that every node has not or has with these bytes, this is still so,
  -- the file's other chunks are as they were, and if a candidate has taken the chunk, one
  -- serves it.
  pub upload_chunk-IsUploaded :
      (name : String) (id : ℕ) (bytes : List ℕ) (as_at : List String) (cluster : Cluster)
      → ((n : String) → base (base n) ≡ base n)
      → length bytes < 2 ^ 32
      → AllAgree name id bytes cluster
      → IsUploaded name id bytes as_at cluster
          (upload_chunk base md5 visits name id bytes as_at cluster)
  unfolding upload_chunk
  upload_chunk-IsUploaded name id bytes [] cluster idem small agree = record {
    agree = agree;
    kept = λ a j e. refl;
    taken = λ h. absurd (ground arith);
  }
  upload_chunk-IsUploaded name id bytes (a ∷ rest) cluster idem small agree =
      let x = stored_at name id bytes cluster a in
      let end =
        handle_store_chunk-StoreEnd base md5 (arriving bytes (node_at visits id cluster a))
          (put_request base md5 name id bytes) (cluster a) in
      let (agrees, found) =
        stored-Agrees base md5 name id bytes (node_at visits id cluster a) x idem small (agree a)
          end in
      let next = set_disk a x.disk cluster in
      let next_agree = AllAgree-set_disk name id bytes cluster a x.disk agree agrees in
      let next_kept =
        Keeps-set_disk name id bytes cluster a x.disk
          (λ j f. end-kept name id j bytes (node_at visits id cluster a) x idem f end) in
      elim (Bool-cases (visits id a).reached) [
        | inr e ↦
            subst (IsUploaded name id bytes (a ∷ rest) cluster)
              (sym (upload_chunk-unreached name id bytes a rest cluster e))
              (later name id bytes a rest cluster cluster
                (upload_chunk base md5 visits name id bytes rest cluster) (λ b j f. refl)
                (upload_chunk-IsUploaded name id bytes rest cluster idem small agree))
        | inl e ↦ elim (Bool-cases ((visits id a).heard && both_ok x.sent)) [
          | inr f ↦
              subst (IsUploaded name id bytes (a ∷ rest) cluster)
                (sym (upload_chunk-refused name id bytes a rest cluster e f))
                (later name id bytes a rest cluster next
                  (upload_chunk base md5 visits name id bytes rest next) next_kept
                  (upload_chunk-IsUploaded name id bytes rest next idem small next_agree))
          | inl f ↦
              let (heard, ok) = both-true base md5 (visits id a).heard (both_ok x.sent) f in
              let served : view base md5 (next a) (base name) id ≡ some bytes =
                ap (λ d. view base md5 d (base name) id) (set_disk-same a x.disk cluster)
                ∙ accepted base md5 x bytes (view base md5 x.disk (base name) id) ok found in
              subst (IsUploaded name id bytes (a ∷ rest) cluster)
                (sym (upload_chunk-taken name id bytes a rest cluster e f))
                (record {
                  agree = next_agree;
                  kept = next_kept;
                  taken = λ h. record {
                    addr = a;
                    there = Memᴰ.head refl;
                    found = served;
                    reached = e;
                    heard = heard;
                  };
                })
        ]
      ]
