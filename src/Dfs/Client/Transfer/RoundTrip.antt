-- ===== src/Dfs/Client/Transfer/RoundTrip.antt =====
-- What put and get of dfs/client/client.go leave and find on the storage nodes.
use dfs_mapreduce.Base.{
  take-length, ℕ, zero, suc, ◌%◌, ◌^◌, ◌<◌, ◌≡◌, refl, sym, ap, ◌∙◌, subst, String, Bool, true,
  false, ◌&&◌, Option, none, some, List, [], ◌∷◌, ◌⊎◌, inl, inr, All, arith, length, length-take,
  take, leb, map, eq_iff, Bool-cases, if◌then◌else◌,
}
use dfs_mapreduce.Mapreduce.Util.Keys.{bytes_equal, bytes_equal_iff}
use dfs_mapreduce.Dfs.Messages.{no_chunk, ChunkInfo}
use dfs_mapreduce.Dfs.Messages.Send.{send_retrieve_chunk_response}
use dfs_mapreduce.Dfs.Server.{
  Disk, Effects, is_at, verify_checksum, both_ok, handle_store_chunk, handle_retrieve_chunk,
}
use dfs_mapreduce.Dfs.Server.View.{view, StoreEnd, handle_store_chunk-StoreEnd}
use dfs_mapreduce.Dfs.Server.Chunks.{retrieve_served, handle_retrieve_chunk-view}
use dfs_mapreduce.Dfs.Client.Transfer.{
  Node, Answer, got, get_chunk, ask, put_request, arriving, with_disk, put_chunk,
}

take-full {ℓ} : {A : Type ℓ} (n : ℕ) (xs : List A) → length (take n xs) ≡ length xs → take n xs ≡ xs
take-full zero [] h = refl
take-full zero (x ∷ xs) h = absurd (omega arith)
take-full (suc n) [] h = refl
take-full (suc n) (x ∷ xs) h = ap (◌∷◌ x) (take-full n xs (omega arith))

-- What is cut twice and still as long is whole.
arrived :
    (heard : Bool) (k n : ℕ) (bytes : List ℕ)
    → length (take n (if heard then bytes else take k bytes)) ≡ length bytes
    → take n (if heard then bytes else take k bytes) ≡ bytes
arrived true k n bytes h = take-full n bytes h
arrived false k n bytes h =
    let whole : take k bytes ≡ bytes =
      take-full k bytes (omega (arith, h, length-take n (take k bytes), length-take k bytes)) in
    ap (take n) whole ∙ take-full n bytes (ap (λ t. length (take n t)) (sym whole) ∙ h)

module _ (base : String → String) (md5 : List ℕ → List ℕ) where
  -- The node has no chunk to serve, or this one.
  unfoldable pub Agrees : String → ℕ → List ℕ → Disk → Type 0
  Agrees name id bytes disk =
      (view base md5 disk name id ≡ none) ⊎ (view base md5 disk name id ≡ some bytes)

  serve-none :
      (req : ChunkInfo) (node : Node)
      → view base md5 node.disk (base req.file_name) req.id ≡ none
      → node.writing ≡ false
      → (answers : List Answer)
      → get_chunk md5 (ask base md5 req node ∷ answers) ≡ get_chunk md5 answers
  unfolding get_chunk ask
  serve-none req node v w answers = elim (Bool-cases (node.reached && node.heard)) [
    | inr e ↦ rw (e, get_chunk, ask) refl
    | inl e ↦
        let refused : handle_retrieve_chunk base md5 node.writing req node.disk
            ≡ retrieve_served base md5 none node.disk =
          ap (λ b. handle_retrieve_chunk base md5 b req node.disk) w
          ∙ handle_retrieve_chunk-view base md5 req node.disk
          ∙ ap (λ o. retrieve_served base md5 o node.disk) v in
        rw (e, refused, get_chunk, ask) refl
  ]

  whole_answer : List ℕ → Answer
  whole_answer bytes = record {
    reply = some (record {
      resp = record { ok = true; message = "Ready to send chunk data" };
      metadata = record no_chunk { size = length bytes; checksum = md5 bytes };
    });
    received = bytes;
    created = true;
  }

  get_chunk-whole :
      (bytes : List ℕ) (answers : List Answer)
      → get_chunk md5 (whole_answer bytes ∷ answers) ≡ got bytes
  unfolding get_chunk whole_answer verify_checksum
  get_chunk-whole bytes answers =
      let all : take (length bytes) bytes ≡ bytes = take-length bytes in
      let enough : leb (length bytes) (length bytes) ≡ true = ground arith in
      let right : bytes_equal (md5 bytes) (md5 bytes) ≡ true =
        (bytes_equal_iff (md5 bytes) (md5 bytes)).1 refl in
      rw (all, enough, right) refl

  pub serve-some :
      (req : ChunkInfo) (node : Node) (bytes : List ℕ)
      → view base md5 node.disk (base req.file_name) req.id ≡ some bytes
      → node.writing ≡ false
      → (node.reached && node.heard) ≡ true
      → length bytes < 2 ^ 32
      → (answers : List Answer) → get_chunk md5 (ask base md5 req node ∷ answers) ≡ got bytes
  unfolding ask whole_answer send_retrieve_chunk_response
  serve-some req node bytes v w e small answers =
      let served : handle_retrieve_chunk base md5 node.writing req node.disk
          ≡ retrieve_served base md5 (some bytes) node.disk =
        ap (λ b. handle_retrieve_chunk base md5 b req node.disk) w
        ∙ handle_retrieve_chunk-view base md5 req node.disk
        ∙ ap (λ o. retrieve_served base md5 o node.disk) v in
      let size : length bytes % 2 ^ 32 ≡ length bytes = omega (arith, small) in
      let asked : ask base md5 req node ≡ whole_answer bytes =
        rw (e, served, size, take-length bytes, ask) refl in
      ap (λ a. get_chunk md5 (a ∷ answers)) asked ∙ get_chunk-whole bytes answers

  -- After a store of the bytes, the node has no chunk, or these bytes; if it has accepted them, these bytes.
  pub stored-Agrees :
      (name : String) (id : ℕ) (bytes : List ℕ) (node : Node) (x : Effects)
      → ((n : String) → base (base n) ≡ base n)
      → length bytes < 2 ^ 32
      → Agrees (base name) id bytes node.disk
      → StoreEnd base md5 (arriving bytes node) (put_request base md5 name id bytes) node.disk x
      → Agrees (base name) id bytes x.disk
        × ((both_ok x.sent ≡ false) ⊎ (view base md5 x.disk (base name) id ≡ some bytes))
  unfolding Agrees
  stored-Agrees name id bytes node x idem small (inl v) (StoreEnd.untouched h r o) =
      (inl (h (base name) id ∙ v), inl o)
  stored-Agrees name id bytes node x idem small (inr v) (StoreEnd.untouched h r o) =
      (inr (h (base name) id ∙ v), inl o)
  stored-Agrees name id bytes node x idem small v (StoreEnd.gone h r o) =
      let here : is_at (base name) id (base name) id ≡ true =
        ground (arith, eq_iff (base name) (base name)) in
      (inl (h (base name) id ∙ rw here refl), inl o)
  stored-Agrees name id bytes node x idem small v (StoreEnd.done size sum h r o) =
      let here : is_at (base name) id (base name) id ≡ true =
        ground (arith, eq_iff (base name) (base name)) in
      let whole : length bytes % 2 ^ 32 ≡ length bytes = omega (arith, small) in
      let all : take (length bytes % 2 ^ 32) (arriving bytes node).received ≡ bytes =
        arrived node.heard (length node.store.received) (length bytes % 2 ^ 32) bytes
          (size ∙ whole) in
      let found : view base md5 x.disk (base name) id ≡ some bytes =
        h (base name) id ∙ rw (here, all) refl in
      (inr found, inr found)

  abbrev stored_at : String → ℕ → List ℕ → Node → Effects
  stored_at name id bytes node =
      handle_store_chunk base md5 (arriving bytes node) (put_request base md5 name id bytes)
        node.disk

  put_chunk-unreached :
      (name : String) (id : ℕ) (bytes : List ℕ) (node : Node) (nodes : List Node)
      → node.reached ≡ false
      → put_chunk base md5 name id bytes (node ∷ nodes) ≡ (
        (put_chunk base md5 name id bytes nodes).0,
        node ∷ (put_chunk base md5 name id bytes nodes).1,
      )
  unfolding put_chunk
  put_chunk-unreached name id bytes node nodes e = rw (e, put_chunk) refl

  put_chunk-taken :
      (name : String) (id : ℕ) (bytes : List ℕ) (node : Node) (nodes : List Node)
      → node.reached ≡ true
      → (node.heard && both_ok (stored_at name id bytes node).sent) ≡ true
      → put_chunk base md5 name id bytes (node ∷ nodes)
        ≡ (true, with_disk node (stored_at name id bytes node).disk ∷ nodes)
  unfolding put_chunk
  put_chunk-taken name id bytes node nodes e f = rw (f, e, put_chunk) refl

  put_chunk-refused :
      (name : String) (id : ℕ) (bytes : List ℕ) (node : Node) (nodes : List Node)
      → node.reached ≡ true
      → (node.heard && both_ok (stored_at name id bytes node).sent) ≡ false
      → put_chunk base md5 name id bytes (node ∷ nodes) ≡ (
        (put_chunk base md5 name id bytes nodes).0,
        with_disk node (stored_at name id bytes node).disk
            ∷ (put_chunk base md5 name id bytes nodes).1,
      )
  unfolding put_chunk
  put_chunk-refused name id bytes node nodes e f = rw (f, e, put_chunk) refl

  -- A put of which a get has the bytes, if it succeeds.
  Retrievable : ChunkInfo → List ℕ → Bool × List Node → Type 0
  Retrievable req bytes x = x.0 ≡ true → get_chunk md5 (map (ask base md5 req) x.1) ≡ got bytes

  pub unheard-serves :
      (req : ChunkInfo) (node : Node) (answers : List Answer)
      → (node.reached && node.heard) ≡ false
      → get_chunk md5 (ask base md5 req node ∷ answers) ≡ get_chunk md5 answers
  unfolding get_chunk ask
  unheard-serves req node answers e = rw (e, get_chunk, ask) refl

  reached-heard : (node : Node) → node.reached ≡ false → (node.reached && node.heard) ≡ false
  reached-heard node e = rw e refl

  pub both-heard :
      (node : Node) → node.reached ≡ true → node.heard ≡ true → (node.reached && node.heard) ≡ true
  both-heard node e f = rw (e, f) refl

  pub accepted :
      (x : Effects) (bytes : List ℕ) (o : Option (List ℕ))
      → both_ok x.sent ≡ true
      → (both_ok x.sent ≡ false) ⊎ (o ≡ some bytes)
      → o ≡ some bytes
  accepted x bytes o ok (inl refused) = absurd (ground (arith, ok, refused))
  accepted x bytes o ok (inr found) = found

  pub both-true : (a b : Bool) → (a && b) ≡ true → (a ≡ true) × (b ≡ true)
  both-true true b h = (refl, h)
  both-true false b h = ground arith

  -- A node that has not taken the chunk is passed over, or has its bytes all the same.
  pub agreeing-serves :
      (req : ChunkInfo) (node : Node) (bytes : List ℕ) (answers : List Answer)
      → Agrees (base req.file_name) req.id bytes node.disk
      → node.writing ≡ false
      → length bytes < 2 ^ 32
      → get_chunk md5 answers ≡ got bytes
      → get_chunk md5 (ask base md5 req node ∷ answers) ≡ got bytes
  unfolding Agrees
  agreeing-serves req node bytes answers (inl v) w small rest =
      serve-none req node v w answers ∙ rest
  agreeing-serves req node bytes answers (inr v) w small rest =
      elim (Bool-cases (node.reached && node.heard)) [
        | inl e ↦ serve-some req node bytes v w e small answers
        | inr e ↦ unheard-serves req node answers e ∙ rest
      ]

  put_chunk-Retrievable :
      (req : ChunkInfo) (bytes : List ℕ) (nodes : List Node)
      → ((n : String) → base (base n) ≡ base n)
      → length bytes < 2 ^ 32
      → All (λ node. view base md5 node.disk (base req.file_name) req.id ≡ none) nodes
      → All (λ node. node.writing ≡ false) nodes
      → Retrievable req bytes (put_chunk base md5 req.file_name req.id bytes nodes)
  unfolding Retrievable Agrees
  put_chunk-Retrievable req bytes [] idem small fresh idle = unfold put_chunk in λ h. ground arith
  put_chunk-Retrievable req bytes (node ∷ nodes) idem small fresh idle =
      let name = req.file_name in
      let rest = put_chunk-Retrievable req bytes nodes idem small fresh.1 idle.1 in
      elim (Bool-cases node.reached) [
        | inr e ↦
            subst (Retrievable req bytes) (sym (put_chunk-unreached name req.id bytes node nodes e))
              (λ h. unheard-serves req node _ (reached-heard node e) ∙ rest h)
        | inl e ↦
            let x = stored_at name req.id bytes node in
            let (agrees, taken) = stored-Agrees name req.id bytes node x idem small (inl fresh.0) (
              handle_store_chunk-StoreEnd base md5 (arriving bytes node)
                (put_request base md5 name req.id bytes) node.disk) in
            elim (Bool-cases (node.heard && both_ok x.sent)) [
              | inr f ↦
                  subst (Retrievable req bytes)
                    (sym (put_chunk-refused name req.id bytes node nodes e f))
                    (λ h.
                      agreeing-serves req (with_disk node x.disk) bytes _ agrees idle.0 small
                        (rest h))
              | inl f ↦
                  let (heard, ok) = both-true node.heard (both_ok x.sent) f in
                  let found : view base md5 x.disk (base name) req.id ≡ some bytes =
                    accepted x bytes (view base md5 x.disk (base name) req.id) ok taken in
                  subst (Retrievable req bytes)
                    (sym (put_chunk-taken name req.id bytes node nodes e f))
                    (λ h.
                      serve-some req (with_disk node x.disk) bytes found idle.0
                        (both-heard node e heard) small _)
            ]
      ]

  -- If filepath.Base leaves a base name as it is, a chunk of fewer than 2 ^ 32 bytes, which no
  -- node serves yet, is uploaded to candidates none of which is writing it, and one of them takes
  -- it, then a get from these nodes has its bytes, whichever of the connections failed or broke
  -- off.
  pub put_chunk-get_chunk :
      (req : ChunkInfo) (bytes : List ℕ) (nodes : List Node)
      → ((n : String) → base (base n) ≡ base n)
      → length bytes < 2 ^ 32
      → All (λ node. view base md5 node.disk (base req.file_name) req.id ≡ none) nodes
      → All (λ node. node.writing ≡ false) nodes
      → (put_chunk base md5 req.file_name req.id bytes nodes).0 ≡ true
      → get_chunk md5
          (map (ask base md5 req) (put_chunk base md5 req.file_name req.id bytes nodes).1)
        ≡ got bytes
  unfolding Retrievable
  put_chunk-get_chunk req bytes nodes idem small fresh idle done =
      put_chunk-Retrievable req bytes nodes idem small fresh idle done
