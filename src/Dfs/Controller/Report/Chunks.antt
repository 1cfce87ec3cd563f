-- ===== src/Dfs/Controller/Report/Chunks.antt =====
-- The chunk list of a file under reports: how many chunks have no copy.
use dfs_mapreduce.Base.{
  ℕ, ◌+◌, ◌≡◌, String, some, List, [], ◌∷◌, ◌++◌, length, length-append, arith, eq_refl, ◌==◌,
  if◌then◌else◌,
}
use dfs_mapreduce.Dfs.Controller.{ChunkInfo}
use dfs_mapreduce.Dfs.Controller.Report.{find_chunk, set_nodes, alive_nodes}

-- The chunks with an empty node list.
unfoldable pub uncopied : List ChunkInfo → ℕ
uncopied [] = 0
uncopied (chunk ∷ chunks) = (if length chunk.nodes == 0 then 1 else 0) + uncopied chunks

-- What changing the node list of a found chunk does to the count.
pub uncopied-set_nodes :
    (id : ℕ) (nodes : List String) (chunks : List ChunkInfo) (chunk : ChunkInfo)
    → find_chunk id chunks ≡ some chunk
    → uncopied (set_nodes id nodes chunks) + (if length chunk.nodes == 0 then 1 else 0)
      ≡ uncopied chunks + (if length nodes == 0 then 1 else 0)
unfolding find_chunk set_nodes uncopied
uncopied-set_nodes id nodes [] chunk h = cc
uncopied-set_nodes id nodes (c ∷ chunks) chunk h =
    ground (arith, uncopied-set_nodes id nodes chunks chunk)

-- The chunk that was found is found again, with its new nodes.
pub find_chunk-set_nodes :
    (id : ℕ) (nodes : List String) (chunks : List ChunkInfo) (chunk : ChunkInfo)
    → find_chunk id chunks ≡ some chunk
    → find_chunk id (set_nodes id nodes chunks) ≡ some (record chunk { nodes = nodes })
unfolding find_chunk set_nodes
find_chunk-set_nodes id nodes [] chunk h = cc
find_chunk-set_nodes id nodes (c ∷ chunks) chunk h =
    ground (arith, find_chunk-set_nodes id nodes chunks chunk)

pub length_snoc : (nodes : List String) (a : String) → length (nodes ++ a ∷ []) ≡ length nodes + 1
length_snoc nodes a = length-append nodes (a ∷ [])

-- The only holder of a chunk drops out.
pub alive_nodes_only : (a : String) → alive_nodes a (a ∷ []) ≡ []
unfolding alive_nodes
alive_nodes_only a = ground (arith, eq_refl a)
