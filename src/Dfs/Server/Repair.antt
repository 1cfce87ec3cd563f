-- ===== src/Dfs/Server/Repair.antt =====
-- repairChunk of dfs/server/server.go: a bad chunk is pulled from the nodes that the controller names.
use dfs_mapreduce.Base.{
  ℕ, ◌≡◌, refl, ap, ◌∙◌, String, Bool, true, false, not, ◌&&◌, Option, none, some, List, [], ◌∷◌,
  ◌++◌, All, length, take, map, keep, leb, arith, str_eq, eq_iff, Bool-cases, Option-cases, ◌⊎◌,
  inl, inr, ◌==◌, if◌then◌else◌,
}
use dfs_mapreduce.Mapreduce.Util.Keys.{bytes_equal_iff}
use dfs_mapreduce.Dfs.Messages.{ChunkLocation, RetrieveChunkResponse}
use dfs_mapreduce.Dfs.Server.{Disk, is_at, put_slot, verify_checksum}
use dfs_mapreduce.Dfs.Server.View.{served, view, view-put_slot, served-new}

-- What a peer answers, where it can be reached and does, the bytes that follow, and what the disk does:
-- whether the chunk can be opened and written, and what is left of the checksum if it cannot be written.
pub record Pull : Type 0 where
  pub answer : Option RetrieveChunkResponse
  pub received : List ℕ
  pub opened : Bool
  pub written : Bool
  pub unsaved : Option (Option (List ℕ))

-- The addresses in the first location of the chunk, but this node's own.
unfoldable pub healthy_nodes : String → ℕ → List ChunkLocation → List String
healthy_nodes my_addr id [] = []
healthy_nodes my_addr id (location ∷ locations) = elim (location.metadata.id == id) [
  | true ↦ keep (λ a. not (str_eq a my_addr)) (map (λ node. node.address) location.nodes)
  | false ↦ healthy_nodes my_addr id locations
]

abbrev pub saved_checksum : Option (Option (List ℕ)) → List ℕ → Option (List ℕ)
saved_checksum none checksum = some checksum
saved_checksum (some left) checksum = left

-- What the controller does: it cannot be reached, it gives no locations, or it gives them, with
-- whether it can be reached again for the last report.
pub data Located : Type 0 where
  unreachable : Located
  no_locations : Located
  located : List ChunkLocation → Bool → Located

module _ (base : String → String) (md5 : List ℕ → List ℕ) where
  -- The loop over the peers, with whether one of them was good; a failure to write the checksum is ignored.
  unfoldable pub repair_from : String → ℕ → List Pull → Disk → Bool × Disk
  unfolding verify_checksum
  repair_from file_name id [] disk = (false, disk)
  repair_from file_name id (p ∷ ps) disk = elim p.answer [
    | none ↦ repair_from file_name id ps disk
    | some resp ↦
        let got = take resp.metadata.size p.received in
        let slot = disk (base file_name) id in
        let good =
          p.written
          && (leb resp.metadata.size (length p.received)
              && verify_checksum (md5 got) resp.metadata.checksum) in
        let skip = repair_from file_name id ps disk in
        if not resp.resp.ok
        then skip
        else if not p.opened
        then skip
        else if good
        then (
          true,
          put_slot (base file_name) id
              (record { chunk = some got; saved = saved_checksum p.unsaved resp.metadata.checksum })
              disk,
        )
        else repair_from file_name id ps
            (put_slot (base file_name) id (record { chunk = none; saved = slot.saved }) disk)
  ]

  -- The reports to the controller, and the disk.
  unfoldable pub repair_chunk :
      String → Located → (String → Pull) → String → ℕ → Disk → List Bool × Disk
  unfolding healthy_nodes repair_from
  repair_chunk my_addr unreachable pulls file_name id disk = ([], disk)
  repair_chunk my_addr no_locations pulls file_name id disk = (false ∷ [], disk)
  repair_chunk my_addr (located locations again) pulls file_name id disk =
      let (success, after) =
        repair_from file_name id (map pulls (healthy_nodes my_addr id locations)) disk in
      (if success && again then false ∷ true ∷ [] else false ∷ [], after)

  -- A peer whose chunk arrives whole, with its checksum.
  pub record IsGood (resp : RetrieveChunkResponse) (p : Pull) : Type 0 where
    pub answered : p.answer ≡ some resp
    pub ok : resp.resp.ok ≡ true
    pub opened : p.opened ≡ true
    pub arrived :
        (p.written
          && (leb resp.metadata.size (length p.received)
              && verify_checksum (md5 (take resp.metadata.size p.received)) resp.metadata.checksum))
        ≡ true

  checked :
      (a b : Bool) (sum checksum : List ℕ)
      → (a && (b && verify_checksum sum checksum)) ≡ true
      → checksum ≡ sum
  unfolding verify_checksum
  checked true true sum checksum h = (bytes_equal_iff checksum sum).0 h
  checked true false sum checksum h = ground arith
  checked false b sum checksum h = ground arith

  served-good :
      (p : Pull) (content checksum : List ℕ)
      → p.unsaved ≡ none
      → checksum ≡ md5 content
      → served base md5 (record { chunk = some content; saved = saved_checksum p.unsaved checksum })
        ≡ some content
  served-good p content checksum u e = rw (u, e) (served-new base md5 content)

  view-good :
      (file_name : String) (id : ℕ) (p : Pull) (content checksum : List ℕ) (disk : Disk)
      → p.unsaved ≡ none
      → checksum ≡ md5 content
      → view base md5
          (put_slot
            (base file_name)
            id
            (record { chunk = some content; saved = saved_checksum p.unsaved checksum })
            disk)
          (base file_name)
          id
        ≡ some content
  view-good file_name id p content checksum disk u e =
      let name = base file_name in
      let here : is_at name id name id ≡ true = ground (arith, eq_iff name name) in
      view-put_slot base md5 name id _ disk (some content) name id
        (served-good p content checksum u e)
      ∙ rw here refl

  abbrev pulled : String → ℕ → Pull → List ℕ → List ℕ → Disk → Disk
  pulled file_name id p content checksum disk =
      put_slot (base file_name) id
        (record { chunk = some content; saved = saved_checksum p.unsaved checksum }) disk

  repair_from-good :
      (file_name : String) (id : ℕ) (ps : List Pull) (p : Pull) (resp : RetrieveChunkResponse)
      (disk : Disk)
      → IsGood resp p
      → repair_from file_name id (p ∷ ps) disk ≡ (
        true,
        pulled file_name id p (take resp.metadata.size p.received) resp.metadata.checksum disk,
      )
  unfolding repair_from
  repair_from-good file_name id ps p resp disk good =
      rw (good.answered, good.ok, good.opened, good.arrived, repair_from) refl

  -- A turn of the loop passes on a disk, or has a chunk with its checksum.
  repair_from-turn :
      (file_name : String) (id : ℕ) (ps : List Pull) (p : Pull) (disk : Disk)
      → ((next : Disk) × (repair_from file_name id (p ∷ ps) disk
            ≡ repair_from file_name id ps next))
        ⊎ ((content : List ℕ) × (checksum : List ℕ) × (repair_from file_name id (p ∷ ps) disk
              ≡ (true, pulled file_name id p content checksum disk))
            × (checksum ≡ md5 content))
  unfolding repair_from
  repair_from-turn file_name id ps p disk = elim (Option-cases p.answer) [
    | inl e ↦ inl (disk, rw (e, repair_from) refl)
    | inr (resp, e) ↦ elim (Bool-cases resp.resp.ok) [
      | inr f ↦ inl (disk, rw (e, f, repair_from) refl)
      | inl f ↦ elim (Bool-cases p.opened) [
        | inr g ↦ inl (disk, rw (e, f, g, repair_from) refl)
        | inl g ↦
            let got = take resp.metadata.size p.received in
            let enough = leb resp.metadata.size (length p.received) in
            elim (Bool-cases
              (p.written && (enough && verify_checksum (md5 got) resp.metadata.checksum))) [
                | inr h ↦ inl (
                  put_slot (base file_name) id
                      (record { chunk = none; saved = (disk (base file_name) id).saved }) disk,
                  rw (e, f, g, h, repair_from) refl,
                )
                | inl h ↦ inr (
                  got,
                  resp.metadata.checksum,
                  rw (e, f, g, h, repair_from) refl,
                  checked p.written enough (md5 got) resp.metadata.checksum h,
                )
              ]
      ]
    ]
  ]

  -- If the checksum can be written when a chunk has arrived from the good peer or one before it, a
  -- repair with a peer whose chunk arrives whole and right succeeds, and the chunk can be served
  -- again.
  pub repair_from-view :
      (file_name : String) (id : ℕ) (before after : List Pull) (p : Pull)
      (resp : RetrieveChunkResponse) (disk : Disk)
      → All (λ q. q.unsaved ≡ none) before
      → p.unsaved ≡ none
      → IsGood resp p
      → (content : List ℕ) × ((repair_from file_name id (before ++ p ∷ after) disk).0 ≡ true)
        × (view base md5 (repair_from file_name id (before ++ p ∷ after) disk).1 (base file_name) id
            ≡ some content)
  repair_from-view file_name id [] after p resp disk all u good =
      let got = take resp.metadata.size p.received in
      let sum : resp.metadata.checksum ≡ md5 got =
        checked p.written (leb resp.metadata.size (length p.received)) (md5 got)
          resp.metadata.checksum good.arrived in
      let end = repair_from-good file_name id after p resp disk good in
      (
        got,
        ap (λ x. x.0) end,
        ap (λ x. view base md5 x.1 (base file_name) id) end
            ∙ view-good file_name id p got resp.metadata.checksum disk u sum,
      )
  repair_from-view file_name id (q ∷ before) after p resp disk all u good =
      elim (repair_from-turn file_name id (before ++ p ∷ after) q disk) [
        | inl (next, e) ↦
            let (content, ok, found) =
              repair_from-view file_name id before after p resp next all.1 u good in
            (
              content,
              ap (λ x. x.0) e ∙ ok,
              ap (λ x. view base md5 x.1 (base file_name) id) e ∙ found,
            )
        | inr (content, checksum, e, sum) ↦ (
          content,
          ap (λ x. x.0) e,
          ap (λ x. view base md5 x.1 (base file_name) id) e
              ∙ view-good file_name id q content checksum disk all.0 sum,
        )
      ]
