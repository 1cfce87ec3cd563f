-- ===== src/Dfs/Controller/Select/Bounds.antt =====
-- selectNodes of dfs/controller/controller.go: how many nodes it returns, and which ones.
use Prim.Native.Nat.{Ordering}
use mathlib.Core.Logic.{∥∥₁_map, ∥∥₁_prop}
use mathlib.Core.List.Perm
use dfs_mapreduce.Base.{
  ℕ, zero, suc, length-perm, length-keep-perm, All-perm, ◌+◌, ◌*◌, ◌<◌, ◌≡◌, refl, ap, inl, inr,
  String, false, none, some, List, [], ◌∷◌, ◌++◌, map, Perm, take, keep, length, length-append,
  length-take, min, arith, Dict, lookup, leb, Bool-cases, not, All, All-append, All-take, Distinct,
  eq_iff, eq_refl,
}
use dfs_mapreduce.Dfs.Controller.{NodeInfo, Controller}
use dfs_mapreduce.Dfs.Controller.Select.{
  NodeScore, Runtime, compare_scores, is_skipped, collect, address_of, select_nodes,
}

-- What the Go runtime and library promise: a walk meets each entry once, and a sort returns the
-- same elements.
pub record RuntimeLaws (rt : Runtime) : Type 0 where
  pub order-perm : (i : ℕ) (d : Dict NodeInfo) → Perm (rt.order i d) d
  pub sort_func-perm :
      (cmp : NodeScore → NodeScore → Ordering) (l : List NodeScore) → Perm (rt.sort_func cmp l) l

-- The nodes that may take the chunk.
unfoldable pub eligible : ℕ → List String → Dict NodeInfo → Dict NodeInfo
eligible chunk_size excluded = keep λ e. not (is_skipped chunk_size excluded e.1)

-- The loop stops at the pool size: it finds all the eligible nodes, or at least that many.
length-collect :
    (pool chunk_size : ℕ) (excluded : List String) (got : List NodeScore) (nodes : Dict NodeInfo)
    → length got < pool
    → length (collect pool chunk_size excluded got nodes)
      ≡ min pool (length got + length (eligible chunk_size excluded nodes))
unfolding collect eligible
length-collect pool chunk_size excluded got [] h = omega arith
length-collect pool chunk_size excluded got ((id, info) ∷ nodes) h =
    let score : NodeScore = record {
      id = id;
      used_space = info.used_space;
      active_reqs = info.requests_handled;
    } in
    ground (
      arith,
      length-append got (score ∷ []),
      length-collect pool chunk_size excluded got nodes h,
      length-collect pool chunk_size excluded (got ++ score ∷ []) nodes,
    )

pub length-map {ℓ κ} :
    {A : Type ℓ} {B : Type κ} (f : A → B) (l : List A) → length (map f l) ≡ length l
length-map f [] = refl
length-map f (x ∷ l) = ap suc (length-map f l)

-- If a walk and the sort keep the elements, as many nodes are returned as were asked for, or all
-- the eligible ones if there are fewer.
pub length-select_nodes :
    (rt : Runtime) (laws : RuntimeLaws rt) (i n chunk_size : ℕ) (excluded : List String)
    (c : Controller)
    → length (select_nodes rt i n chunk_size excluded c)
      ≡ min n (length (eligible chunk_size excluded c.nodes))
unfolding select_nodes eligible
length-select_nodes rt laws i zero chunk_size excluded c = omega arith
length-select_nodes rt laws i (suc n) chunk_size excluded c =
    let walk = rt.order i c.nodes in
    let pool = collect (suc n * 2) chunk_size excluded [] walk in
    let same : length (eligible chunk_size excluded walk)
        ≡ length (eligible chunk_size excluded c.nodes) =
      length-keep-perm (λ e. not (is_skipped chunk_size excluded e.1))
        (laws.order-perm i c.nodes) in
    omega (
      arith,
      length-map (address_of c.nodes) (take (suc n) (rt.sort_func compare_scores pool)),
      length-take (suc n) (rt.sort_func compare_scores pool),
      length-perm (laws.sort_func-perm compare_scores pool),
      length-collect (suc n * 2) chunk_size excluded [] walk (omega arith),
      same,
    )

module _ (chunk_size : ℕ) (excluded : List String) (nodes : Dict NodeInfo) where
  -- The address belongs to a registered node that may take the chunk.
  abbrev pub IsTarget : String → Type 0
  IsTarget address = ∥ (
      (id : String) × (info : NodeInfo) × (lookup id nodes ≡ some info)
      × (is_skipped chunk_size excluded info ≡ false)
      × (info.address ≡ address)) ∥₁

  abbrev IsEntry : String × NodeInfo → Type 0
  IsEntry e = ∥ (lookup e.0 nodes ≡ some e.1) ∥₁

  abbrev IsCandidate : NodeScore → Type 0
  IsCandidate score = ∥ (
      (info : NodeInfo) × (lookup score.id nodes ≡ some info)
      × (is_skipped chunk_size excluded info ≡ false)) ∥₁

  collect-IsCandidate :
      (pool : ℕ) (got : List NodeScore) (walk : Dict NodeInfo)
      → All IsCandidate got
      → All IsEntry walk
      → All IsCandidate (collect pool chunk_size excluded got walk)
  unfolding collect
  collect-IsCandidate pool got [] g w = g
  collect-IsCandidate pool got ((id, info) ∷ walk) g w =
      let score : NodeScore = record {
        id = id;
        used_space = info.used_space;
        active_reqs = info.requests_handled;
      } in
      elim (Bool-cases (is_skipped chunk_size excluded info)) [
        | inl e ↦ rw (e, collect) (collect-IsCandidate pool got walk g w.1)
        | inr e ↦
            let more : All IsCandidate (got ++ score ∷ []) =
              All-append IsCandidate got (score ∷ []) g (∥∥₁_map w.0 (λ l. (info, l, e)), tt) in
            elim (Bool-cases (leb pool (length got + 1))) [
              | inl f ↦ rw (e, collect, f) more
              | inr f ↦ rw (e, collect, f) (collect-IsCandidate pool _ walk more w.1)
            ]
      ]

  IsCandidate-IsTarget : (score : NodeScore) → IsCandidate score → IsTarget (address_of nodes score)
  unfolding address_of
  IsCandidate-IsTarget score = λ h. ∥∥₁_map h (λ p. (score.id, p.0, p.1, p.2, ground (arith, p.1)))

  All-address_of :
      (l : List NodeScore) → All IsCandidate l → All IsTarget (map (address_of nodes) l)
  All-address_of [] h = tt
  All-address_of (x ∷ l) h = (IsCandidate-IsTarget x h.0, All-address_of l h.1)

-- Found under its own key.
abbrev IsFound : Dict NodeInfo → String × NodeInfo → Type 0
IsFound nodes e = lookup e.0 nodes ≡ some e.1

All-IsFound-cons :
    (k : String) (v : NodeInfo) (nodes rest : Dict NodeInfo)
    → lookup k nodes ≡ none
    → All (IsFound nodes) rest
    → All (IsFound ((k, v) ∷ nodes)) rest
unfolding lookup
All-IsFound-cons k v nodes [] h d = tt
All-IsFound-cons k v nodes ((j, w) ∷ rest) h d =
    (ground (arith, eq_iff k j, d.0), All-IsFound-cons k v nodes rest h d.1)

All-IsFound : (nodes : Dict NodeInfo) → Distinct nodes → All (IsFound nodes) nodes
unfolding lookup
All-IsFound [] d = tt
All-IsFound ((k, v) ∷ nodes) d =
    (ground (arith, eq_refl k), All-IsFound-cons k v nodes nodes d.0 (All-IsFound nodes d.1))

All-IsEntry :
    (chunk_size : ℕ) (excluded : List String) (nodes rest : Dict NodeInfo)
    → All (IsFound nodes) rest
    → All (IsEntry chunk_size excluded nodes) rest
All-IsEntry chunk_size excluded nodes [] h = tt
All-IsEntry chunk_size excluded nodes (e ∷ rest) h =
    (∣ h.0 ∣₁, All-IsEntry chunk_size excluded nodes rest h.1)

-- If a walk and the sort keep the elements, and no node stands twice in the map, every node that
-- is returned is registered, not excluded, and has room for the chunk.
pub select_nodes-IsTarget :
    (rt : Runtime) (laws : RuntimeLaws rt) (i n chunk_size : ℕ) (excluded : List String)
    (c : Controller)
    → Distinct c.nodes
    → All (IsTarget chunk_size excluded c.nodes) (select_nodes rt i n chunk_size excluded c)
unfolding select_nodes
select_nodes-IsTarget rt laws i n chunk_size excluded c d =
    let walk = rt.order i c.nodes in
    let pool = collect (n * 2) chunk_size excluded [] walk in
    let entries =
      All-perm (IsEntry chunk_size excluded c.nodes) (λ e. ∥∥₁_prop)
        (Perm.symm (laws.order-perm i c.nodes))
        (All-IsEntry chunk_size excluded c.nodes c.nodes (All-IsFound c.nodes d)) in
    All-address_of chunk_size excluded c.nodes _ (
      All-take _ n _ (
        All-perm (IsCandidate chunk_size excluded c.nodes) (λ e. ∥∥₁_prop)
          (Perm.symm (laws.sort_func-perm compare_scores pool))
          (collect-IsCandidate chunk_size excluded c.nodes (n * 2) [] walk tt entries)))
