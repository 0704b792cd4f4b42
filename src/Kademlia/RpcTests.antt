-- ===== src/Kademlia/RpcTests.antt =====
-- The theorems on k_message and rpc_manager at concrete inputs.
use ss_p2p_node_controller.Common.{ℕ, ◌≡◌, refl, [], ◌∷◌, some}
use ss_p2p_node_controller.Json.Sample.{Value, json, json-JsonLaws}
use ss_p2p_node_controller.Endpoint.Sample.{net, net-NetLaws, plain}
use ss_p2p_node_controller.Kademlia.NodeId.{NodeId}
use ss_p2p_node_controller.Kademlia.RoutingTable
use ss_p2p_node_controller.Kademlia.RoutingTable.{RoutingTable}
use ss_p2p_node_controller.Kademlia.RoutingTable.Placement.{IsWellFormed, init-IsWellFormed}
use ss_p2p_node_controller.Kademlia.DirectController.{auto_update_batch}
use ss_p2p_node_controller.Kademlia.DirectController.Laws.{
  Owned, init-Owned, auto_update_batch-IsWellFormed,
}
use ss_p2p_node_controller.Kademlia.Message.{
  find_node, request, new_request, get_rpc, get_message_type, get_ignore_endpoint,
  set_ignore_endpoint,
}
use ss_p2p_node_controller.Kademlia.Message.Laws.{get_ignore_endpoint-set_ignore_endpoint}

-- An endpoint's id has the endpoint as its first byte.
abbrev id_of : ℕ → NodeId
id_of n = n ∷ 0 ∷ 0 ∷ 0 ∷ 0 ∷ 0 ∷ 0 ∷ 0 ∷ 0 ∷ 0 ∷ 0 ∷ 0 ∷ 0 ∷ 0 ∷ 0 ∷ 0 ∷ 0 ∷ 0 ∷ 0 ∷ 0 ∷ []

abbrev table : RoutingTable ℕ
table = auto_update_batch id_of (1 ∷ 2 ∷ 3 ∷ []) (RoutingTable.init (id_of 0))

table-IsWellFormed : IsWellFormed table × Owned id_of table
table-IsWellFormed =
    auto_update_batch-IsWellFormed id_of (1 ∷ 2 ∷ 3 ∷ []) (RoutingTable.init (id_of 0))
      (init-IsWellFormed (id_of 0)) (init-Owned id_of (id_of 0))

-- A find_node request that ignores endpoint 2.
abbrev search_message : Value
search_message = set_ignore_endpoint json net (2 ∷ []) (new_request json find_node)

search_request : get_message_type json search_message ≡ some request
unfolding get_message_type set_ignore_endpoint new_request
search_request = refl

search_rpc : get_rpc json search_message ≡ some find_node
unfolding get_rpc set_ignore_endpoint new_request
search_rpc = refl

search_ignored : get_ignore_endpoint json net search_message ≡ some (2 ∷ [])
search_ignored =
    (get_ignore_endpoint-set_ignore_endpoint json json-JsonLaws net net-NetLaws (2 ∷ [])
      (new_request json find_node) (λ ep m. plain ep)).0
