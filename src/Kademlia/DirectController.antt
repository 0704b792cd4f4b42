-- ===== src/Kademlia/DirectController.antt =====
-- src/ss_p2p/kademlia/direct_routing_table_controller.cpp: the routing table addressed by
-- endpoints. `calc_node_id` is the parameter that takes an endpoint to its id.
pub mod Laws
use ss_p2p_node_controller.Common.{ℕ, Bool, List, [], ◌∷◌, map, Option, none, some}
use ss_p2p_node_controller.Kademlia.NodeId.{NodeId}
use ss_p2p_node_controller.Kademlia.Node.{KNode, of_endpoint}
use ss_p2p_node_controller.Kademlia.RoutingTable
use ss_p2p_node_controller.Kademlia.RoutingTable.{RoutingTable}
use ss_p2p_node_controller.Kademlia.RoutingTable.Collect

module _ {E : Type 0} (calc_node_id : E → NodeId) where
  -- The loop that makes nodes of the ignored endpoints.
  abbrev pub nodes_of : List E → List (KNode E)
  nodes_of = map (of_endpoint calc_node_id)

  abbrev pub endpoints : Option (List (KNode E)) → Option (List E)
  endpoints none = none
  endpoints (some ns) = some (map (λ n. n.ep) ns)

  unfoldable pub collect_endpoint : E → ℕ → List E → RoutingTable E → Option (List E)
  collect_endpoint root_ep max_count ignore_eps t =
      endpoints
        (Collect.collect_node (of_endpoint calc_node_id root_ep) max_count (nodes_of ignore_eps) t)

  unfoldable pub is_exist : E → RoutingTable E → Bool
  is_exist ep t = RoutingTable.is_exist (of_endpoint calc_node_id ep) t

  unfoldable pub auto_update : E → RoutingTable E → RoutingTable E
  auto_update ep t = (RoutingTable.auto_update (of_endpoint calc_node_id ep) t).0

  unfoldable pub auto_update_batch : List E → RoutingTable E → RoutingTable E
  auto_update_batch [] t = t
  auto_update_batch (ep ∷ eps) t =
      auto_update_batch eps (RoutingTable.auto_update (of_endpoint calc_node_id ep) t).0
