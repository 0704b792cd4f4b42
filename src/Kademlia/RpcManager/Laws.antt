-- ===== src/Kademlia/RpcManager/Laws.antt =====
-- What a node answers to the requests of src/ss_p2p/kademlia/rpc_manager.cpp.
use ss_p2p_node_controller.Common.{◌≡◌, ◌∙◌, refl, List, [], ◌∷◌, ◌++◌, map, some}
use ss_p2p_node_controller.Kademlia.NodeId.{NodeId}
use ss_p2p_node_controller.Kademlia.RoutingTable.{RoutingTable}
use ss_p2p_node_controller.Kademlia.RoutingTable.Placement.{IsWellFormed}
use ss_p2p_node_controller.Kademlia.DirectController.{auto_update_batch}
use ss_p2p_node_controller.Kademlia.DirectController.Laws.{Owned, Collected, collect_endpoint_lem}
use ss_p2p_node_controller.Json.{Json, JsonLaws}
use ss_p2p_node_controller.Endpoint.{Net}
use ss_p2p_node_controller.Kademlia.Message.{
  ping, find_node, request, response, get_rpc, get_message_type, set_message_type,
  get_ignore_endpoint, set_finded_endpoint, write_endpoint,
}
use ss_p2p_node_controller.Kademlia.Message.Laws.{get_message_type-set_response, get_rpc-set_ne}
use ss_p2p_node_controller.Kademlia.RpcManager.{
  ping_response, find_node_response, income_request, income_message,
}

module _ {J E A : Type 0} (json : Json J) (laws : JsonLaws json) (net : Net E A)
    (calc_node_id : E → NodeId) where
  -- A ping request is answered with one message to its sender: a response with the same remote call
  -- and the same observer id. The sender is added to the routing table.
  pub income_message-ping :
      (k_msg : J) (ep : E) (t : RoutingTable E)
      → get_message_type json k_msg ≡ some request
      → get_rpc json k_msg ≡ some ping
      → (reply : J) × (income_message json net calc_node_id (some k_msg) ep t
          ≡ some (auto_update_batch calc_node_id (ep ∷ []) t, (ep, reply) ∷ []))
        × (get_message_type json reply ≡ some response)
        × (get_rpc json reply ≡ some ping)
        × (json.at "observer_id" reply ≡ json.at "observer_id" k_msg)
  unfolding income_message income_request ping_response set_message_type get_rpc
  income_message-ping k_msg ep t is_request is_ping =
      let word = json.word "response" in
      (
        json.set "type" word k_msg,
        rw (is_request, is_ping),
        get_message_type-set_response json laws k_msg,
        get_rpc-set_ne json laws "type" word k_msg refl ∙ is_ping,
        laws.at-set_ne "type" "observer_id" word k_msg refl,
      )

  -- A find_node request whose ignored endpoints can be read is answered with one message to its
  -- sender, a response with the same remote call and observer id, and the routing table is left alone. On a
  -- well-formed table whose nodes carry the ids of their endpoints, the answer lists what is collected from
  -- the table, without those with the id of the sender or of an ignored endpoint.
  pub income_message-find_node :
      (k_msg : J) (ep : E) (t : RoutingTable E) (igs : List E)
      → get_message_type json k_msg ≡ some request
      → get_rpc json k_msg ≡ some find_node
      → get_ignore_endpoint json net k_msg ≡ some igs
      → IsWellFormed t
      → Owned calc_node_id t
      → (reply : J) × (eps : List E) × (income_message json net calc_node_id (some k_msg) ep t
          ≡ some (t, (ep, reply) ∷ []))
        × (get_message_type json reply ≡ some response)
        × (get_rpc json reply ≡ some find_node)
        × (json.at "observer_id" reply ≡ json.at "observer_id" k_msg)
        × (json.get_array (json.at "finded_eps" reply) ≡ some (map (write_endpoint json net) eps))
        × Collected calc_node_id 5 (igs ++ ep ∷ []) t eps
  unfolding income_message income_request find_node_response set_message_type set_finded_endpoint
  income_message-find_node k_msg ep t igs is_request is_find_node readable w own =
      let word = json.word "response" in
      let (eps, found, collected) =
        collect_endpoint_lem calc_node_id ep 5 (igs ++ ep ∷ []) t w own in
      let body = json.set "finded_eps" (json.array (map (write_endpoint json net) eps)) k_msg in
      (
        json.set "type" word body,
        eps,
        rw (is_request, is_find_node, readable, found),
        get_message_type-set_response json laws body,
        get_rpc-set_ne json laws "type" word body refl
            ∙ get_rpc-set_ne json laws "finded_eps" _ k_msg refl
            ∙ is_find_node,
        laws.at-set_ne "type" "observer_id" word body refl
            ∙ laws.at-set_ne "finded_eps" "observer_id" _ k_msg refl,
        rw
            (
              laws.at-set_ne "type" "finded_eps" word body refl,
              laws.at-set_self "finded_eps" (json.array (map (write_endpoint json net) eps)) k_msg,
            )
            (laws.get_array-array (map (write_endpoint json net) eps)),
        collected,
      )
