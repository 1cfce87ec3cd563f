-- ===== src/Dfs/Controller/Select.antt =====
-- selectNodes of dfs/controller/controller.go. The order in which Go walks the map of nodes and the
-- library's sort, which may swap nodes of equal score, are arguments.
pub mod Bounds
use Prim.Native.Nat.{Ordering}
use dfs_mapreduce.Base.{
  ℕ, ◌+◌, ◌*◌, String, Bool, true, false, ◌||◌, none, some, List, [], ◌∷◌, ◌++◌, map, take, length,
  contains, Dict, lookup, ltb, leb, if◌then◌else◌,
}
use dfs_mapreduce.Dfs.Controller.{NodeInfo, Controller}

pub record NodeScore : Type 0 where
  pub id : String
  pub used_space : ℕ
  pub active_reqs : ℕ

-- `order i` is the walk of the i-th call within one handler.
pub record Runtime : Type 0 where
  pub order : ℕ → Dict NodeInfo → Dict NodeInfo
  pub sort_func : (NodeScore → NodeScore → Ordering) → List NodeScore → List NodeScore

unfoldable pub compare_scores : NodeScore → NodeScore → Ordering
compare_scores i j =
    if ltb i.used_space j.used_space
    then Ordering.lt
    else if ltb j.used_space i.used_space
    then Ordering.gt
    else if ltb i.active_reqs j.active_reqs
    then Ordering.lt
    else if ltb j.active_reqs i.active_reqs
    then Ordering.gt
    else Ordering.eq

-- The node is passed over: its address is excluded, or the chunk does not fit.
unfoldable pub is_skipped : ℕ → List String → NodeInfo → Bool
is_skipped chunk_size excluded info =
    contains excluded info.address || ltb info.free_space chunk_size

-- The loop over the nodes, which breaks as soon as the pool is full.
unfoldable pub collect : ℕ → ℕ → List String → List NodeScore → Dict NodeInfo → List NodeScore
collect pool_size chunk_size excluded candidates [] = candidates
collect pool_size chunk_size excluded candidates ((id, info) ∷ nodes) =
    let score : NodeScore = record {
      id = id;
      used_space = info.used_space;
      active_reqs = info.requests_handled;
    } in
    elim (is_skipped chunk_size excluded info) [
      | true ↦ collect pool_size chunk_size excluded candidates nodes
      | false ↦ elim (leb pool_size (length candidates + 1)) [
        | true ↦ candidates ++ score ∷ []
        | false ↦ collect pool_size chunk_size excluded (candidates ++ score ∷ []) nodes
      ]
    ]

-- The address of a node of the map; a candidate is always one.
unfoldable pub address_of : Dict NodeInfo → NodeScore → String
address_of nodes score = elim (lookup score.id nodes) [ none ↦ "" | some info ↦ info.address ]

unfoldable pub select_nodes : Runtime → ℕ → ℕ → ℕ → List String → Controller → List String
unfolding collect address_of
select_nodes rt i n chunk_size excluded c = map (address_of c.nodes) (
    take n
      (rt.sort_func compare_scores (collect (n * 2) chunk_size excluded [] (rt.order i c.nodes))))
