-- ===== src/NodeController/EndToEndTests.antt =====
-- From a datagram to the application at a concrete input: endpoint 7 sends a text to a new node.
use ss_p2p_node_controller.Common.{
  ℕ, suc, ℕ_discrete, ◌≡◌, refl, [], ◌∷◌, ◌++◌, map, length, some, false,
}
use ss_p2p_node_controller.Json.{pos}
use ss_p2p_node_controller.Json.Sample.{Value, json, json-JsonLaws, chars, number}
use ss_p2p_node_controller.Endpoint.Sample.{net}
use ss_p2p_node_controller.Message.{encode, new_message, set_param}
use ss_p2p_node_controller.Message.Sample.{bson, bson-BsonLaws}
use ss_p2p_node_controller.Sender.{Datagram, async_send}
use ss_p2p_node_controller.Kademlia.NodeId.{NodeId}
use ss_p2p_node_controller.Kademlia.RoutingTable
use ss_p2p_node_controller.Observers.Sample.{ids}
use ss_p2p_node_controller.Ice.Agent.{no_observers}
use ss_p2p_node_controller.MessagePool.Buffer.{Received}
use ss_p2p_node_controller.MessagePool.Pool.Store.{queue_of}
use ss_p2p_node_controller.Peer.{SsMessage, returns, get}
use ss_p2p_node_controller.Peer.Laws.{receives, ss_message}
use ss_p2p_node_controller.NodeController.{Node, Inputs, Effects, on_receive_datagram, get_peer}
use ss_p2p_node_controller.NodeController.EndToEnd.{async_send-receives}

abbrev id_at : ℕ → NodeId
id_at n = n ∷ 0 ∷ 0 ∷ 0 ∷ 0 ∷ 0 ∷ 0 ∷ 0 ∷ 0 ∷ 0 ∷ 0 ∷ 0 ∷ 0 ∷ 0 ∷ 0 ∷ 0 ∷ 0 ∷ 0 ∷ 0 ∷ 0 ∷ []

abbrev earlier : Received ℕ Value
earlier = record { id = 1; msg = chars (9 ∷ []); time = 3 }

-- A node with one message of endpoint 7.
abbrev node : Node Value ℕ ℕ ℕ
node = record {
  dht = record { table = RoutingTable.init (id_at 4); pings = []; find_nodes = [] };
  ice = no_observers;
  pool = record {
    entries =
        record {
          msg_queue = earlier ∷ [];
          binding_ep = 7;
          dynamic_mem_usage_bytes = 1;
          last_binded_at = 0;
          last_received_at = 3;
        }
        ∷ [];
    requires_refresh = false;
    timer_armed = false;
    cancelled = 0;
    hub_active = false;
  };
}

abbrev same_peer : ℕ → ℕ
same_peer ep = ep

abbrev inputs : Inputs ℕ ℕ
inputs = record {
  observer_id = 1;
  now = 10;
  leftover = 0;
  message_id = 5;
  received_at = 10;
  stored_at = 11;
}

abbrev hello : Datagram ℕ
hello = record { dest_ep = 4; bytes = 77 ∷ 104 ∷ 105 ∷ [] }

hello_sent :
    async_send json bson (number (pos 77)) 4 "messenger" (chars (104 ∷ 105 ∷ [])) ≡ some hello
unfolding async_send encode new_message set_param
hello_sent = refl

async_send-receives_example :
    let old = queue_of same_peer ℕ_discrete 7 node.pool.entries in
    (n' : Node Value ℕ ℕ ℕ) × (out : Effects Value ℕ ℕ) × (m : SsMessage Value ℕ)
    × (on_receive_datagram json net ids ℕ_discrete ℕ_discrete id_at 4
          (λ ep. false)
          (λ m. m)
          same_peer
          ℕ_discrete
          ℕ_discrete
          bson
          inputs
          hello.bytes
          7
          node
        ≡ some (n', out))
    × (receives (suc (length old)) (pos 0) 0 (get_peer same_peer ℕ_discrete 7 n')
        ≡ map (λ r. returns (ss_message 7 r)) old ++ returns m ∷ [])
    × (get json (chars []) "messenger" m ≡ chars (104 ∷ 105 ∷ []))
    × (m.src_endpoint ≡ 7)
async_send-receives_example =
    async_send-receives json json-JsonLaws bson bson-BsonLaws net ids ℕ_discrete ℕ_discrete id_at 4
      (λ ep. false) (λ m. m) same_peer ℕ_discrete ℕ_discrete (number (pos 77))
      (chars (104 ∷ 105 ∷ [])) (chars []) "messenger" 4 7 hello inputs (pos 0) 0 node refl refl
      hello_sent
