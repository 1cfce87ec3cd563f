-- ===== src/Tests/Controller.antt =====
-- A controller with three nodes: the allocation of a file, and the lease monitor.
use mathlib.Core.List.Perm
use mathlib.Core.Option
use dfs_mapreduce.Base.{
  ◌+◌, ◌*◌, ◌<◌, ◌≤◌, ◌≡◌, ◌≢◌, refl, String, true, false, none, some, List, [], ◌∷◌, All, length,
  min, arith, lookup, contains, Distinct, if◌then◌else◌,
}
use dfs_mapreduce.Dfs.Messages
use dfs_mapreduce.Dfs.Messages.{PutFileRequest, no_chunk, no_node}
use dfs_mapreduce.Dfs.Messages.Send.{send_put_file_response}
use dfs_mapreduce.Dfs.Controller.{NodeInfo, FileMetadata, Controller, replication_factor}
use dfs_mapreduce.Dfs.Controller.Nodes.{map_array_addresses_to_node_info}
use dfs_mapreduce.Dfs.Controller.Select.{Runtime, select_nodes, is_skipped, collect, address_of}
use dfs_mapreduce.Dfs.Controller.Select.Bounds.{
  RuntimeLaws, eligible, IsTarget, length-select_nodes, select_nodes-IsTarget,
}
use dfs_mapreduce.Dfs.Controller.Put.{
  Allocation, num_chunks, allocate, allocated, put_plan, handle_put_file,
}
use dfs_mapreduce.Dfs.Controller.Put.Plans.{
  IsNew, IsFull, handle_put_file_accepts, handle_put_file_refuses, num_chunks_cover,
}
use dfs_mapreduce.Dfs.Controller.Files.{monitor_leases}
use dfs_mapreduce.Dfs.Controller.Files.Leases.{expired_at, monitor_leases_exact}

-- Maps are walked as they stand, and nodes keep their places.
abbrev pub in_order : Runtime
in_order = record { order = λ i d. d; sort_func = λ cmp l. l }

pub in_order_laws : RuntimeLaws in_order
in_order_laws = record { order-perm = λ i d. Perm.refl d; sort_func-perm = λ cmp l. Perm.refl l }

abbrev pub empty : Controller
empty = record {
  nodes = [];
  files = [];
  pending_files = [];
  pending_chunks = [];
  log = record { wal_file = true; wal_count = 0; disk = []; attempts = 0; running = true };
}

abbrev pub node : String → NodeInfo
node id = record {
  id = id;
  address = id;
  used_space = 1;
  free_space = 100;
  requests_handled = 0;
  last_heartbeat = 0;
}

abbrev pub three_nodes : Controller
three_nodes = record empty { nodes = ("a", node "a") ∷ ("b", node "b") ∷ ("c", node "c") ∷ [] }

abbrev one_node : Controller
one_node = record empty { nodes = ("a", node "a") ∷ [] }

abbrev pub small_file : PutFileRequest
small_file = record {
  metadata = record { name = "f"; size = 15 };
  chunk = record no_chunk { size = 10 };
  num_chunks = 0;
}

num_chunks_small_file : num_chunks small_file ≡ 2
unfolding num_chunks
num_chunks_small_file = refl

length-select_nodes_run :
    length (select_nodes in_order 0 2 10 ("a" ∷ []) three_nodes)
    ≡ min 2 (length (eligible 10 ("a" ∷ []) three_nodes.nodes))
length-select_nodes_run = length-select_nodes in_order in_order_laws 0 2 10 ("a" ∷ []) three_nodes

three_nodes-Distinct : Distinct three_nodes.nodes
unfolding lookup
three_nodes-Distinct = (refl, (refl, (refl, tt)))

select_nodes-IsTarget_example :
    All
      (IsTarget 10 ("a" ∷ []) three_nodes.nodes)
      (select_nodes in_order 0 2 10 ("a" ∷ []) three_nodes)
select_nodes-IsTarget_example =
    select_nodes-IsTarget in_order in_order_laws 0 2 10 ("a" ∷ []) three_nodes three_nodes-Distinct

small_file-IsNew : IsNew in_order in_order_laws 5 small_file three_nodes
unfolding lookup
small_file-IsNew = record { not_stored = refl; not_pending = refl; sized = omega arith }

small_file-IsNew_one : IsNew in_order in_order_laws 5 small_file one_node
unfolding lookup
small_file-IsNew_one = record { not_stored = refl; not_pending = refl; sized = omega arith }

three_candidates : replication_factor ≤ length (eligible 10 [] three_nodes.nodes)
unfolding eligible is_skipped contains
three_candidates = ground arith

one_candidate : length (eligible 10 [] one_node.nodes) < replication_factor
unfolding eligible is_skipped contains
one_candidate = ground arith

some_chunks : num_chunks small_file ≢ 0
unfolding num_chunks
some_chunks = λ e. omega arith

handle_put_file_accepts_example :
    let out = handle_put_file in_order 5 small_file three_nodes in
    (a : Allocation) × IsFull 0 (num_chunks small_file) a
    × (out.replies ≡ send_put_file_response true "Allocation successful" a.allocations ∷ [])
    × (Option.map (λ m. m.chunks) (lookup "f" out.controller.pending_files)
        ≡ some a.metadata_chunks)
    × (lookup "f" out.controller.pending_chunks ≡ some (num_chunks small_file))
    × (out.controller.files ≡ [])
handle_put_file_accepts_example =
    handle_put_file_accepts in_order in_order_laws 5 small_file three_nodes small_file-IsNew
      three_candidates

handle_put_file_refuses_run :
    let out = handle_put_file in_order 5 small_file one_node in
    (out.replies ≡ send_put_file_response false "Insufficient nodes for replication" [] ∷ [])
    × (out.controller ≡ one_node)
handle_put_file_refuses_run =
    handle_put_file_refuses in_order in_order_laws 5 small_file one_node small_file-IsNew_one
      one_candidate some_chunks

num_chunks_cover_example :
    (15 ≤ num_chunks small_file * 10) × (num_chunks small_file * 10 < 15 + 10)
num_chunks_cover_example =
    num_chunks_cover small_file refl (omega arith) (omega arith) (omega arith)

abbrev on_all : List Messages.NodeInfo
on_all =
    record no_node { address = "a" }
    ∷ record no_node { address = "b" }
    ∷ record no_node { address = "c" }
    ∷ []

abbrev full : Allocation
full = record {
  allocations =
      record { metadata = no_chunk; nodes = on_all }
      ∷ record { metadata = record no_chunk { id = 1 }; nodes = on_all }
      ∷ [];
  metadata_chunks =
      record { chunk_id = 0; nodes = []; size = 0; checksum = [] }
      ∷ record { chunk_id = 1; nodes = []; size = 0; checksum = [] }
      ∷ [];
}

plan_small_file : put_plan in_order small_file three_nodes ≡ allocated full
unfolding put_plan allocate num_chunks lookup select_nodes collect is_skipped address_of contains
    map_array_addresses_to_node_info
plan_small_file = refl

abbrev stale : FileMetadata
stale = record { file_name = "f"; size = 1; chunks = []; created_at = 0; lease_expiry = 7 }

abbrev one_pending : Controller
one_pending = record empty { pending_files = ("f", stale) ∷ []; pending_chunks = ("f", 1) ∷ [] }

one_pending-Distinct : Distinct one_pending.pending_files
unfolding lookup
one_pending-Distinct = (refl, tt)

monitor_leases_exact_example :
    let d = (monitor_leases 8 one_pending).controller in
    (lookup "f" d.pending_files ≡ (
      if expired_at 8 (lookup "f" one_pending.pending_files)
      then none
      else lookup "f" one_pending.pending_files))
    × (lookup "f" d.pending_chunks ≡ (
        if expired_at 8 (lookup "f" one_pending.pending_files)
        then none
        else lookup "f" one_pending.pending_chunks))
    × (d.files ≡ [])
monitor_leases_exact_example = monitor_leases_exact 8 one_pending "f" one_pending-Distinct
