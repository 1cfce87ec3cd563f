-- ===== src/Dfs/Controller/Nodes.antt =====
-- Registration, heartbeats and statistics of the storage nodes: dfs/controller/controller.go and
-- the mapper of dfs/util/mapper.go.
use dfs_mapreduce.Base.{
  ℕ, ◌+◌, ◌-◌, ◌*◌, ◌%◌, ◌^◌, String, Bool, true, false, not, none, some, List, [], ◌∷◌, map, keep,
  Dict, lookup, insert, ltb,
}
use dfs_mapreduce.Dfs.Messages
use dfs_mapreduce.Dfs.Messages.{no_node}
use dfs_mapreduce.Dfs.Messages.Send.{send_response, send_node_info_response}
use dfs_mapreduce.Dfs.Controller.{NodeInfo, Controller, Outcome, second}

unfoldable pub map_array_addresses_to_node_info : List String → List Messages.NodeInfo
map_array_addresses_to_node_info = map λ address. record no_node { address = address }

unfoldable pub register_node : ℕ → String → String → Controller → Controller
register_node now id address c = record c {
  nodes =
      insert id
        (record {
          id = id;
          address = address;
          used_space = 0;
          free_space = 0;
          requests_handled = 0;
          last_heartbeat = now;
        })
        c.nodes;
}

unfoldable pub update_heartbeat : ℕ → Messages.NodeInfo → Controller → Outcome
unfolding send_response
update_heartbeat now hb c = elim (lookup hb.id c.nodes) [
  | some node ↦ record {
    controller = record c {
      nodes =
          insert hb.id
            (record node {
              used_space = hb.used_space;
              free_space = hb.free_space;
              requests_handled = hb.requests_handled;
              last_heartbeat = now;
            })
            c.nodes;
    };
    replies = send_response true "Heartbeat acknowledged" ∷ [];
    sends = [];
  }
  | none ↦ record {
    controller = c;
    replies = send_response false "Unknown node. Please re-register." ∷ [];
    sends = [];
  }
]

abbrev pub heartbeat_timeout : ℕ
heartbeat_timeout = 15 * second

unfoldable pub is_dead : ℕ → NodeInfo → Bool
is_dead now node = ltb heartbeat_timeout (now - node.last_heartbeat)

-- One round of the loop.
unfoldable pub monitor_heartbeats : ℕ → Controller → Controller
monitor_heartbeats now c = record c { nodes = keep (λ e. not (is_dead now e.1)) c.nodes }

abbrev pub u64 : ℕ
u64 = 2 ^ 64

-- The loop of handleNodeStats: the statistics and the two totals, which wrap at 64 bits.
unfoldable pub node_stats : Dict NodeInfo → ℕ × ℕ → List Messages.NodeInfo × ℕ × ℕ
node_stats [] (used, free) = ([], used, free)
node_stats ((key, node) ∷ nodes) (used, free) =
    let (stats, total_used, total_free) =
      node_stats nodes ((used + node.used_space) % u64, (free + node.free_space) % u64) in
    (
      record {
        id = node.id;
        address = "";
        used_space = node.used_space;
        free_space = node.free_space;
        requests_handled = node.requests_handled;
      }
          ∷ stats,
      total_used,
      total_free,
    )

unfoldable pub handle_node_stats : Controller → Outcome
unfolding send_node_info_response node_stats
handle_node_stats c =
    let (stats, total_used, total_free) = node_stats c.nodes (0, 0) in
    record {
      controller = c;
      replies = send_node_info_response true "Node info retrieved" total_used total_free stats ∷ [];
      sends = [];
    }
