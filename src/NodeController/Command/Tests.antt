-- ===== src/NodeController/Command/Tests.antt =====
-- Typed lines at a node with endpoint 4 that knows 8.
use ss_p2p_node_controller.Common.{ℕ, ℕ_discrete, ◌≡◌, refl, true, [], ◌∷◌}
use ss_p2p_node_controller.Json.{Text}
use ss_p2p_node_controller.Json.Sample.{json}
use ss_p2p_node_controller.Logger.{codes}
use ss_p2p_node_controller.Endpoint.{endpoint_to_str}
use ss_p2p_node_controller.Endpoint.Sample.{net, net-NetLaws, plain}
use ss_p2p_node_controller.Kademlia.NodeId.{calc_node_xor_distance, eq_id}
use ss_p2p_node_controller.Kademlia.Bucket
use ss_p2p_node_controller.Kademlia.RoutingTable
use ss_p2p_node_controller.Kademlia.DirectController.{is_exist, auto_update_batch}
use ss_p2p_node_controller.Observers.Sample.{ids}
use ss_p2p_node_controller.Interface.{read_words, extract}
use ss_p2p_node_controller.Interface.Words.{unwords}
use ss_p2p_node_controller.NodeController.Lifecycle.Sample.{id_with, known, new_node}
use ss_p2p_node_controller.NodeController.Command.{
  fault, throws, returns, send_command, on_command_input,
}
use ss_p2p_node_controller.NodeController.Command.Laws.{on_command_input-send}

-- Words are separated by any number of spaces.
read_words_test : read_words (codes "  send  a ") ≡ codes "send" ∷ codes "a" ∷ []
unfolding read_words extract
read_words_test = refl

abbrev peer_id : ℕ → ℕ
peer_id ep = ep

abbrev hello : Text
hello = codes "hello"

known_test : is_exist id_with 8 known ≡ true
unfolding is_exist RoutingTable.is_exist Bucket.is_exist auto_update_batch RoutingTable.auto_update
    RoutingTable.init RoutingTable.calc_branch_index calc_node_xor_distance Bucket.auto_update eq_id
known_test = refl

on_command_input-send_example :
    on_command_input json net ids ℕ_discrete id_with peer_id ℕ_discrete 70 50
      (read_words (unwords (codes "send" ∷ endpoint_to_str net 8 ∷ hello ∷ [])))
      new_node
    ≡ returns (new_node, record { dest = 8; param = "messenger"; payload = json.text hello } ∷ [])
on_command_input-send_example =
    on_command_input-send json net net-NetLaws ids ℕ_discrete id_with peer_id ℕ_discrete 70 50 8
      hello new_node (plain 8) refl refl known_test

-- The words that send needs are read without a check.
no_endpoint_test :
    on_command_input json net ids ℕ_discrete id_with peer_id ℕ_discrete 70 50
      (codes "send" ∷ [])
      new_node
    ≡ fault
unfolding on_command_input send_command
no_endpoint_test = refl

bad_endpoint_test :
    on_command_input json net ids ℕ_discrete id_with peer_id ℕ_discrete 70 50
      (codes "send" ∷ codes "x" ∷ [])
      new_node
    ≡ throws
unfolding on_command_input send_command
bad_endpoint_test = refl
