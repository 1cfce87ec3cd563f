-- ===== src/Dfs/Client/Files/RoundTrip.antt =====
-- A whole file between put and get of dfs/client/client.go.
use mathlib.Core.List.{Memᴰ}
use dfs_mapreduce.Base.{
  ℕ, ◌+◌, ◌^◌, ◌<◌, ◌≡◌, refl, sym, ap, ◌∙◌, subst, String, true, false, ◌&&◌, some, List, [], ◌∷◌,
  map, length, arith, All,
}
use dfs_mapreduce.Dfs.Messages.{ChunkAllocation, ChunkLocation}
use dfs_mapreduce.Dfs.Server.View.{view}
use dfs_mapreduce.Dfs.Client.Transfer.{got, get_chunk, get_parts, ask}
use dfs_mapreduce.Dfs.Client.Transfer.RoundTrip.{Agrees, agreeing-serves, serve-some}
use dfs_mapreduce.Dfs.Client.Files.{
  Cluster, Host, Visit, sort_node_addresses, answers_for, node_at, addresses, chunk_request,
}
use dfs_mapreduce.Dfs.Client.Files.Upload.{AllAgree, IsTaken}
use dfs_mapreduce.Dfs.Client.Files.Stored.{AllStored}

-- The locations are those of the allocations, each with all the candidates.
abbrev pub AreLocated : ℕ → List ChunkAllocation → List ChunkLocation → Type 0
AreLocated i [] [] = Unit
AreLocated i [] (loc ∷ locs) = ⊥
AreLocated i (alloc ∷ allocs) [] = ⊥
AreLocated i (alloc ∷ allocs) (loc ∷ locs) =
    (loc.metadata.id ≡ i)
    × ((a : String) → Memᴰ a (addresses alloc.nodes) → Memᴰ a (addresses loc.nodes))
    × AreLocated (i + 1) allocs locs

-- Nodes that worked for the upload work for the get, none is writing, and sorting loses no address.
pub record Answers (visits gets : ℕ → String → Visit) (host : Host) : Type 0 where
  pub reached : (i : ℕ) (a : String) → (visits i a).reached ≡ true → (gets i a).reached ≡ true
  pub heard : (i : ℕ) (a : String) → (visits i a).heard ≡ true → (gets i a).heard ≡ true
  pub idle : (i : ℕ) (a : String) → (gets i a).writing ≡ false
  pub sorted : (a : String) (at : List String) → Memᴰ a at → Memᴰ a (sort_node_addresses host at)

module _ (base : String → String) (md5 : List ℕ → List ℕ) (visits : ℕ → String → Visit)
    (name : String) where
  module _ (idem : (n : String) → base (base n) ≡ base n) (host : Host)
      (gets : ℕ → String → Visit) where
    get_chunk-taken :
        (i : ℕ) (piece : List ℕ) (cluster : Cluster) (addr : String) (at : List String)
        → Answers visits gets host
        → length piece < 2 ^ 32
        → AllAgree base md5 visits name i piece cluster
        → view base md5 (cluster addr) (base name) i ≡ some piece
        → ((gets i addr).reached && (gets i addr).heard) ≡ true
        → Memᴰ addr at
        → get_chunk md5 (
            map
              (λ a. ask base md5 (chunk_request base md5 gets name i) (node_at gets i cluster a))
              at)
          ≡ got piece
    get_chunk-taken i piece cluster addr [] ans small agree found works m = elim m [ ]
    get_chunk-taken i piece cluster addr (a ∷ at) ans small agree found works (Memᴰ.head e) =
        let served : view base md5 (cluster a) (base (base name)) i ≡ some piece =
          ap (λ n. view base md5 (cluster a) n i) (idem name)
          ∙ ap (λ c. view base md5 (cluster c) (base name) i) (sym e)
          ∙ found in
        serve-some base md5 (chunk_request base md5 gets name i) (node_at gets i cluster a) piece
          served (ans.idle i a) (ap (λ c. (gets i c).reached && (gets i c).heard) (sym e) ∙ works)
          small
          (map (λ c. ask base md5 (chunk_request base md5 gets name i) (node_at gets i cluster c))
            at)
    get_chunk-taken i piece cluster addr (a ∷ at) ans small agree found works (Memᴰ.tail m) =
        agreeing-serves base md5 (chunk_request base md5 gets name i) (node_at gets i cluster a)
          piece
          (map (λ c. ask base md5 (chunk_request base md5 gets name i) (node_at gets i cluster c))
            at)
          (subst (λ n. Agrees base md5 n i piece (cluster a)) (sym (idem name)) (agree a))
          (ans.idle i a) small
          (get_chunk-taken i piece cluster addr at ans small agree found works m)

    part-stored :
        (alloc : ChunkAllocation) (loc : ChunkLocation) (i : ℕ) (piece : List ℕ) (cluster : Cluster)
        → Answers visits gets host
        → length piece < 2 ^ 32
        → loc.metadata.id ≡ i
        → ((a : String) → Memᴰ a (addresses alloc.nodes) → Memᴰ a (addresses loc.nodes))
        → AllAgree base md5 visits name i piece cluster
        → IsTaken base md5 visits name i piece (addresses alloc.nodes) cluster
        → get_chunk md5 (answers_for base md5 gets host name cluster loc) ≡ got piece
    part-stored alloc loc i piece cluster ans small e within agree t =
        let at = sort_node_addresses host (addresses loc.nodes) in
        let works : ((gets i t.addr).reached && (gets i t.addr).heard) ≡ true =
          rw (ans.reached i t.addr t.reached, ans.heard i t.addr t.heard) refl in
        ap
          (λ j. get_chunk md5 (
            map (λ a. ask base md5 (chunk_request base md5 gets name j) (node_at gets j cluster a))
              at))
          e
        ∙ get_chunk-taken i piece cluster t.addr at ans small agree t.found works
            (ans.sorted t.addr (addresses loc.nodes) (within t.addr t.there))

    pub get_parts-stored :
        (i : ℕ) (allocs : List ChunkAllocation) (locs : List ChunkLocation) (pieces : List (List ℕ))
        → (cluster : Cluster) → Answers visits gets host
        → length allocs ≡ length pieces
        → All (λ p. length p < 2 ^ 32) pieces
        → AreLocated i allocs locs
        → AllStored base md5 visits name i allocs pieces cluster
        → get_parts md5 (map (answers_for base md5 gets host name cluster) locs) ≡ some pieces
    unfolding get_parts
    get_parts-stored i [] [] [] cluster ans n small loc stored = refl
    get_parts-stored i [] [] (p ∷ pieces) cluster ans n small loc stored = absurd (omega (arith, n))
    get_parts-stored i [] (l ∷ locs) pieces cluster ans n small loc stored = elim loc [ ]
    get_parts-stored i (alloc ∷ allocs) [] pieces cluster ans n small loc stored = elim loc [ ]
    get_parts-stored i (alloc ∷ allocs) (l ∷ locs) [] cluster ans n small loc stored =
        elim stored [ ]
    get_parts-stored i (alloc ∷ allocs) (l ∷ locs) (p ∷ pieces) cluster ans n small (e, within, loc)
          (agree, taken, stored) =
        let first = part-stored alloc l i p cluster ans small.0 e within agree taken in
        let rest =
          get_parts-stored (i + 1) allocs locs pieces cluster ans (omega (arith, n)) small.1 loc
            stored in
        rw (first, rest, get_parts) refl
