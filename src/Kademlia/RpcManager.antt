-- ===== src/Kademlia/RpcManager.antt =====
-- rpc_manager of src/ss_p2p/kademlia/rpc_manager.cpp: how a node answers the requests of others.
-- The state is the routing table; what is sent is a list of endpoints and messages. `none` stands
-- for an exception of the JSON library that leaves the handler, and for undefined behaviour.
pub mod Laws
use ss_p2p_node_controller.Common.{ℕ, List, [], ◌∷◌, ◌++◌, Option, none, some, ◌>>=◌}
use ss_p2p_node_controller.Kademlia.NodeId.{NodeId}
use ss_p2p_node_controller.Kademlia.RoutingTable.{RoutingTable}
use ss_p2p_node_controller.Kademlia.DirectController.{auto_update_batch, collect_endpoint}
use ss_p2p_node_controller.Json.{Json}
use ss_p2p_node_controller.Endpoint.{Net}
use ss_p2p_node_controller.Kademlia.Message.{
  Rpc, ping, find_node, none_rpc, MessageType, request, response, get_rpc, get_message_type,
  set_message_type, get_ignore_endpoint, set_finded_endpoint,
}

abbrev pub find_node_size : ℕ
find_node_size = 5

module _ {J E A : Type 0} (json : Json J) (net : Net E A) (calc_node_id : E → NodeId) where
  -- The sender joins the routing table whether or not the answer reaches it.
  unfoldable pub ping_response : J → E → RoutingTable E → RoutingTable E × List (E × J)
  unfolding set_message_type auto_update_batch
  ping_response k_msg ep t =
      (auto_update_batch calc_node_id (ep ∷ []) t, (ep, set_message_type json response k_msg) ∷ [])

  unfoldable pub find_node_response :
      J → E → RoutingTable E → Option (RoutingTable E × List (E × J))
  unfolding get_ignore_endpoint set_finded_endpoint set_message_type collect_endpoint
  find_node_response k_msg ep t = do
    ignore_eps ← get_ignore_endpoint json net k_msg
    eps ← collect_endpoint calc_node_id ep find_node_size (ignore_eps ++ ep ∷ []) t
    let reply = set_message_type json response (set_finded_endpoint json net eps k_msg)
    some (t, (ep, reply) ∷ [])

  abbrev pub dispatch_rpc : Rpc → J → E → RoutingTable E → Option (RoutingTable E × List (E × J))
  dispatch_rpc ping k_msg ep t = some (ping_response k_msg ep t)
  dispatch_rpc find_node k_msg ep t = find_node_response k_msg ep t
  dispatch_rpc none_rpc k_msg ep t = some (t, [])

  unfoldable pub income_request : J → E → RoutingTable E → Option (RoutingTable E × List (E × J))
  unfolding get_rpc ping_response find_node_response
  income_request k_msg ep t = do r ← get_rpc json k_msg; dispatch_rpc r k_msg ep t

  abbrev pub dispatch_type :
      MessageType → J → E → RoutingTable E → Option (RoutingTable E × List (E × J))
  dispatch_type request k_msg ep t = income_request k_msg ep t
  dispatch_type response k_msg ep t = some (t, [])

  -- The message is the value of its parameter "kademlia"; without one nothing happens.
  unfoldable pub income_message :
      Option J → E → RoutingTable E → Option (RoutingTable E × List (E × J))
  unfolding get_message_type income_request
  income_message none ep t = some (t, [])
  income_message (some k_msg) ep t = do m ← get_message_type json k_msg; dispatch_type m k_msg ep t
