-- ===== src/Dfs/Server/Replication.antt =====
-- manageReplication and replicate of dfs/server/server.go, with the node that is sent a chunk.
use dfs_mapreduce.Base.{
  ℕ, zero, suc, ◌+◌, ◌-◌, ◌≤◌, ◌<◌, ◌≡◌, refl, sym, ap, ◌∙◌, String, Bool, true, false, ◌&&◌,
  Option, none, some, List, [], ◌∷◌, ◌++◌, length, length-append, take, leb, arith, Bool-cases,
  eq_iff, inl, inr, ◌==◌, if◌then◌else◌,
}
use dfs_mapreduce.Mapreduce.Util.Keys.{count}
use dfs_mapreduce.Dfs.Messages.{StoreChunkRequest}
use dfs_mapreduce.Dfs.Server.{
  Disk, StoreRun, ReplicaTask, Effects, both_ok, is_at, handle_store_chunk,
}
use dfs_mapreduce.Dfs.Server.View.{view, StoreEnd, handle_store_chunk-StoreEnd}

-- One turn of the loop: no connection or answer, a rejection, or nodes, each with whether it takes the chunk.
pub data Round : Type 0 where
  no_answer : Round
  rejected : Round
  offered : List (String × Bool) → Round

-- The loop over the nodes: the replicas still required, and the addresses that took one.
unfoldable pub replicate_to : ℕ → List (String × Bool) → ℕ × List String
replicate_to required [] = (required, [])
replicate_to required ((address, false) ∷ nodes) = replicate_to required nodes
replicate_to required ((address, true) ∷ nodes) =
    let rest = replicate_to (required - 1) nodes in
    if (required - 1) == 0 then (0, address ∷ []) else (rest.0, address ∷ rest.1)

-- The outer loop, over the turns that there are.
unfoldable pub manage_replication : ℕ → List Round → ℕ × List String
unfolding replicate_to
manage_replication required [] = (required, [])
manage_replication required (round ∷ rounds) =
    let again = manage_replication required rounds in
    if required == 0 then (0, []) else elim round [
      | no_answer ↦ again
      | rejected ↦ again
      | offered nodes ↦
          let (left, stored) = replicate_to required nodes in
          let rest = manage_replication left rounds in (rest.0, stored ++ rest.1)
    ]

abbrev pub accepts : List (String × Bool) → Bool
accepts [] = false
accepts ((address, taken) ∷ nodes) = if taken then true else accepts nodes

-- A turn in which some node takes the chunk.
abbrev pub helps : Round → Bool
helps no_answer = false
helps rejected = false
helps (offered nodes) = accepts nodes

replicate_to-sum :
    (required : ℕ) (nodes : List (String × Bool))
    → 0 < required
    → (replicate_to required nodes).0 + length (replicate_to required nodes).1 ≡ required
unfolding replicate_to
replicate_to-sum required [] h = omega arith
replicate_to-sum required ((address, false) ∷ nodes) h = replicate_to-sum required nodes h
replicate_to-sum required ((address, true) ∷ nodes) h = elim (Bool-cases ((required - 1) == 0)) [
  | inl e ↦ rw e ground arith
  | inr e ↦
      let more : 0 < required - 1 = ground arith in
      let rest = replicate_to-sum (required - 1) nodes more in rw e omega arith
]

replicate_to-less :
    (required : ℕ) (nodes : List (String × Bool))
    → 0 < required
    → accepts nodes ≡ true
    → (replicate_to required nodes).0 < required
unfolding replicate_to
replicate_to-less required [] h a = ground arith
replicate_to-less required ((address, false) ∷ nodes) h a = replicate_to-less required nodes h a
replicate_to-less required ((address, true) ∷ nodes) h a = elim (Bool-cases ((required - 1) == 0)) [
  | inl e ↦ rw e h
  | inr e ↦
      let more : 0 < required - 1 = ground arith in
      let rest = replicate_to-sum (required - 1) nodes more in rw e omega arith
]

manage_replication-sum :
    (required : ℕ) (rounds : List Round)
    → (manage_replication required rounds).0 + length (manage_replication required rounds).1
      ≡ required
unfolding manage_replication
manage_replication-sum required [] = omega arith
manage_replication-sum required (no_answer ∷ rounds) =
    ground (arith, manage_replication-sum required rounds)
manage_replication-sum required (rejected ∷ rounds) =
    ground (arith, manage_replication-sum required rounds)
manage_replication-sum required (offered nodes ∷ rounds) = elim (Bool-cases (required == 0)) [
  | inl e ↦ rw e ground arith
  | inr e ↦
      let more : 0 < required = ground arith in
      let here = replicate_to-sum required nodes more in
      let rest = manage_replication-sum (replicate_to required nodes).0 rounds in
      rw e omega (
        arith,
        length-append (replicate_to required nodes).1
            (manage_replication (replicate_to required nodes).0 rounds).1,
      )
]

manage_replication-ends :
    (required : ℕ) (rounds : List Round)
    → required ≤ count helps rounds
    → (manage_replication required rounds).0 ≡ 0
unfolding manage_replication
manage_replication-ends required [] h = omega arith
manage_replication-ends required (no_answer ∷ rounds) h =
    ground (arith, manage_replication-ends required rounds)
manage_replication-ends required (rejected ∷ rounds) h =
    ground (arith, manage_replication-ends required rounds)
manage_replication-ends required (offered nodes ∷ rounds) h = elim (Bool-cases (required == 0)) [
  | inl e ↦ rw e refl
  | inr e ↦
      let more : 0 < required = ground arith in
      let here = replicate_to-sum required nodes more in
      let enough : (replicate_to required nodes).0 ≤ count helps rounds =
        elim (Bool-cases (accepts nodes)) [
          | inl a ↦ ground (arith, replicate_to-less required nodes more a)
          | inr a ↦ ground (arith, here)
        ] in
      rw e (manage_replication-ends (replicate_to required nodes).0 rounds enough)
]

-- The nodes of one turn that take the chunk.
abbrev pub takers : List (String × Bool) → List String
takers [] = []
takers ((address, true) ∷ nodes) = address ∷ takers nodes
takers ((address, false) ∷ nodes) = takers nodes

-- The nodes of all turns that take the chunk, in their order.
abbrev pub all_takers : List Round → List String
all_takers [] = []
all_takers (no_answer ∷ rounds) = all_takers rounds
all_takers (rejected ∷ rounds) = all_takers rounds
all_takers (offered nodes ∷ rounds) = takers nodes ++ all_takers rounds

take-append :
    (n : ℕ) (xs ys : List String) → take n (xs ++ ys) ≡ take n xs ++ take (n - length xs) ys
take-append zero [] ys = let e : 0 ≡ 0 - 0 = omega arith in ap (λ k. take k ys) e
take-append (suc n) [] ys = let e : suc n ≡ suc n - 0 = omega arith in ap (λ k. take k ys) e
take-append zero (x ∷ xs) ys =
    let e : 0 ≡ 0 - suc (length xs) = omega arith in ap (λ k. take k ys) e
take-append (suc n) (x ∷ xs) ys =
    let same : n - length xs ≡ suc n - suc (length xs) = omega arith in
    ap (◌∷◌ x) (take-append n xs ys ∙ ap (λ k. take n xs ++ take k ys) same)

take-none : (n : ℕ) (xs : List String) → (n == 0) ≡ true → take n xs ≡ []
take-none zero xs h = refl
take-none (suc n) xs h = absurd (ground arith)

replicate_to-takers :
    (required : ℕ) (nodes : List (String × Bool))
    → 0 < required
    → ((replicate_to required nodes).1 ≡ take required (takers nodes))
      × ((replicate_to required nodes).0 ≡ required - length (takers nodes))
unfolding replicate_to
replicate_to-takers zero nodes h = absurd (omega arith)
replicate_to-takers (suc n) [] h = (refl, omega arith)
replicate_to-takers (suc n) ((address, false) ∷ nodes) h = replicate_to-takers (suc n) nodes h
replicate_to-takers (suc n) ((address, true) ∷ nodes) h =
    let left : suc n - 1 ≡ n = omega arith in
    elim (Bool-cases (n == 0)) [
      | inl e ↦
          let none_left = take-none n (takers nodes) e in
          rw (left, e, none_left) (refl, ground arith)
      | inr e ↦
          let more : 0 < n = ground arith in
          let (p, q) = replicate_to-takers n nodes more in
          rw (left, e) (ap (◌∷◌ address) p, omega (arith, q))
    ]

manage_replication-takers :
    (required : ℕ) (rounds : List Round)
    → (manage_replication required rounds).1 ≡ take required (all_takers rounds)
unfolding manage_replication
manage_replication-takers zero [] = refl
manage_replication-takers (suc n) [] = refl
manage_replication-takers required (no_answer ∷ rounds) = elim (Bool-cases (required == 0)) [
  | inl e ↦ rw e (sym (take-none required (all_takers rounds) e))
  | inr e ↦ rw e (manage_replication-takers required rounds)
]
manage_replication-takers required (rejected ∷ rounds) = elim (Bool-cases (required == 0)) [
  | inl e ↦ rw e (sym (take-none required (all_takers rounds) e))
  | inr e ↦ rw e (manage_replication-takers required rounds)
]
manage_replication-takers required (offered nodes ∷ rounds) = elim (Bool-cases (required == 0)) [
  | inl e ↦ rw e (sym (take-none required (takers nodes ++ all_takers rounds) e))
  | inr e ↦
      let more : 0 < required = ground arith in
      let (p, q) = replicate_to-takers required nodes more in
      rw e (
        ap (λ left. (replicate_to required nodes).1 ++ (manage_replication left rounds).1) q
        ∙ ap (λ t. t ++ (manage_replication (required - length (takers nodes)) rounds).1) p
        ∙ ap (λ t. take required (takers nodes) ++ t)
            (manage_replication-takers (required - length (takers nodes)) rounds)
        ∙ sym (take-append required (takers nodes) (all_takers rounds)))
]

-- If there are as many turns with a node that takes the chunk as replicas are required, the loop
-- comes to its end, and the chunk has been taken as many times as replicas are required: by the
-- first so many of the nodes that take it, in the order of the turns and of the nodes offered in
-- them. A node that stands there twice has taken it twice.
pub manage_replication_lem :
    (required : ℕ) (rounds : List Round)
    → required ≤ count helps rounds
    → ((manage_replication required rounds).0 ≡ 0)
      × (length (manage_replication required rounds).1 ≡ required)
      × ((manage_replication required rounds).1 ≡ take required (all_takers rounds))
manage_replication_lem required rounds h =
    let sum = manage_replication-sum required rounds in
    let end = manage_replication-ends required rounds h in
    (end, omega arith, manage_replication-takers required rounds)

-- The node that a chunk is sent to: whether the messages get through, and what its store meets.
pub record Peer : Type 0 where
  pub disk : Disk
  pub connected : Bool
  pub heard : Bool
  pub store : StoreRun

take-take {ℓ} : {A : Type ℓ} (n : ℕ) (xs : List A) → take n (take n xs) ≡ take n xs
take-take zero xs = refl
take-take (suc n) [] = refl
take-take (suc n) (x ∷ xs) = ap (◌∷◌ x) (take-take n xs)

refused : (a b c : Bool) → c ≡ false → (a && (b && c)) ≡ true → ⊥
refused true true c h k = ground arith
refused true false c h k = ground arith
refused false b c h k = ground arith

module _ (base : String → String) (md5 : List ℕ → List ℕ) where
  abbrev pub store_request : ReplicaTask → StoreChunkRequest
  store_request task = record {
    metadata = record {
      id = task.id;
      file_name = task.file_name;
      size = task.size;
      checksum = task.checksum;
    };
    is_original = false;
  }

  abbrev pub receives : List ℕ → ℕ → StoreRun → StoreRun
  receives content size run = record {
    free = run.free;
    directory = run.directory;
    opened = run.opened;
    received = take size content;
    written = run.written;
    saving = run.saving;
  }

  -- Whether the node has taken the chunk, and its disk afterwards.
  unfoldable pub replicate : Option (List ℕ) → ReplicaTask → Peer → Bool × Disk
  unfolding handle_store_chunk
  replicate none task peer = (false, peer.disk)
  replicate (some content) task peer =
      let effects =
        handle_store_chunk base md5 (receives content task.size peer.store) (store_request task)
          peer.disk in
      if peer.connected
      then (peer.heard && (leb task.size (length content) && both_ok effects.sent), effects.disk)
      else (false, peer.disk)

  taken :
      (content : List ℕ) (task : ReplicaTask) (disk : Disk) (run : StoreRun) (x : Effects)
      (heard : Bool)
      → (heard && (leb task.size (length content) && both_ok x.sent)) ≡ true
      → StoreEnd base md5 (receives content task.size run) (store_request task) disk x
      → (view base md5 x.disk (base task.file_name) task.id ≡ some (take task.size content))
        × (md5 (take task.size content) ≡ task.checksum)
        × (length (take task.size content) ≡ task.size)
  taken content task disk run x heard h (StoreEnd.untouched v r o) =
      absurd (refused heard (leb task.size (length content)) (both_ok x.sent) o h)
  taken content task disk run x heard h (StoreEnd.gone v r o) =
      absurd (refused heard (leb task.size (length content)) (both_ok x.sent) o h)
  taken content task disk run x heard h (StoreEnd.done size sum v r o) =
      let again = take-take task.size content in
      let here : is_at (base task.file_name) task.id (base task.file_name) task.id ≡ true =
        ground (arith, eq_iff (base task.file_name) (base task.file_name)) in
      let found : view base md5 x.disk (base task.file_name) task.id
          ≡ some (take task.size (take task.size content)) =
        v (base task.file_name) task.id ∙ rw here refl in
      (found ∙ ap some again, ap md5 (sym again) ∙ sum, ap length (sym again) ∙ size)

  -- A node that counts as having taken a chunk can serve the bytes that were sent, which have the
  -- size and checksum of the request.
  pub replicate-view :
      (content : List ℕ) (task : ReplicaTask) (peer : Peer)
      → (replicate (some content) task peer).0 ≡ true
      → (view base md5 (replicate (some content) task peer).1 (base task.file_name) task.id
          ≡ some (take task.size content))
        × (md5 (take task.size content) ≡ task.checksum)
        × (length (take task.size content) ≡ task.size)
  unfolding replicate
  replicate-view content task peer h = elim (Bool-cases peer.connected) [
    | inr e ↦ absurd (ground (arith, e, h))
    | inl e ↦
        let run = receives content task.size peer.store in
        let effects = handle_store_chunk base md5 run (store_request task) peer.disk in
        let heard : (peer.heard && (leb task.size (length content) && both_ok effects.sent))
            ≡ true =
          rw e at h in
        rw e (
          taken content task peer.disk peer.store effects peer.heard heard
            (handle_store_chunk-StoreEnd base md5 run (store_request task) peer.disk))
  ]
