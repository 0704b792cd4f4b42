-- ===== src/NodeController/Tests.antt =====
-- The theorems on on_receive_packet at concrete inputs: endpoint 7 sends packets to a new node.
use ss_p2p_node_controller.Common.{
  ℕ, ℕ_discrete, true, false, ◌≡◌, ◌≢◌, refl, List, [], ◌∷◌, ◌++◌, some,
}
use ss_p2p_node_controller.Json.Sample.{Value, json}
use ss_p2p_node_controller.Endpoint.Sample.{net}
use ss_p2p_node_controller.Message.{new_message, set_param, is_contain_param}
use ss_p2p_node_controller.Kademlia.NodeId.{NodeId}
use ss_p2p_node_controller.Kademlia.RoutingTable
use ss_p2p_node_controller.Kademlia.DhtManager
use ss_p2p_node_controller.Kademlia.DhtManager.{DhtManager}
use ss_p2p_node_controller.Observers.Sample.{ids}
use ss_p2p_node_controller.Ice.Agent.{no_observers}
use ss_p2p_node_controller.MessagePool.Pool.Store.{queue_of}
use ss_p2p_node_controller.NodeController.{
  Node, Inputs, Effects, income_kademlia, on_receive_packet,
}
use ss_p2p_node_controller.NodeController.Laws.{on_receive_packet-stores}

-- An endpoint's id has the endpoint as its first byte.
abbrev id_at : ℕ → NodeId
id_at n = n ∷ 0 ∷ 0 ∷ 0 ∷ 0 ∷ 0 ∷ 0 ∷ 0 ∷ 0 ∷ 0 ∷ 0 ∷ 0 ∷ 0 ∷ 0 ∷ 0 ∷ 0 ∷ 0 ∷ 0 ∷ 0 ∷ 0 ∷ []

abbrev node : Node Value ℕ ℕ ℕ
node = record {
  dht = record { table = RoutingTable.init (id_at 4); pings = []; find_nodes = [] };
  ice = no_observers;
  pool = record {
    entries = [];
    requires_refresh = false;
    timer_armed = false;
    cancelled = 0;
    hub_active = true;
  };
}

abbrev inputs : Inputs ℕ ℕ
inputs = record {
  observer_id = 1;
  now = 10;
  leftover = 0;
  message_id = 5;
  received_at = 10;
  stored_at = 11;
}

-- A message of the application and one for the ICE part of an unknown protocol.
abbrev hello : Value
hello = set_param json "messenger" (json.word "hello") (new_message json (json.word "app"))

abbrev same_peer : ℕ → ℕ
same_peer ep = ep

abbrev sort_nothing : List (ℕ × ℕ) → List (ℕ × ℕ)
sort_nothing m = m

hello_plain : is_contain_param json "ice_agent" hello ≡ false
unfolding is_contain_param set_param new_message
hello_plain = refl

hello_kademlia :
    income_kademlia json net ids ℕ_discrete id_at hello 7 node.dht
    ≡ some (node.dht, DhtManager.nothing)
unfolding income_kademlia is_contain_param set_param new_message
hello_kademlia = refl

on_receive_packet-stores_example :
    (n' : Node Value ℕ ℕ ℕ) × (out : Effects Value ℕ ℕ) × (on_receive_packet json net ids ℕ_discrete
        ℕ_discrete id_at 4
        (λ ep. false)
        sort_nothing
        same_peer
        ℕ_discrete
        ℕ_discrete
        inputs
        hello
        7
        node
      ≡ some (n', out))
    × (n'.dht ≡ node.dht)
    × (n'.ice ≡ node.ice)
    × (queue_of same_peer ℕ_discrete 7 n'.pool.entries
        ≡ queue_of same_peer ℕ_discrete 7 node.pool.entries
          ++ record { id = 5; msg = hello; time = 10 } ∷ [])
    × ((other : ℕ)
        → 7 ≢ other
        → queue_of same_peer ℕ_discrete other n'.pool.entries
          ≡ queue_of same_peer ℕ_discrete other node.pool.entries)
    × (out.delivery
        ≡ some (record { src_ep = 7; received = record { id = 5; msg = hello; time = 10 } }))
on_receive_packet-stores_example =
    on_receive_packet-stores json net ids ℕ_discrete ℕ_discrete id_at 4 (λ ep. false) sort_nothing
      same_peer ℕ_discrete ℕ_discrete inputs hello 7 node node.dht DhtManager.nothing hello_plain
      hello_kademlia
