-- ===== src/NodeController.antt =====
-- on_receive_packet of src/ss_p2p/node_controller.cpp: what a received message does to the Kademlia
-- part, the ICE part and the message pool. The clock, new ids and what a new buffer's memory held are
-- inputs. `none` is an exception that leaves the handler; what has changed by then is not described.
pub mod Laws
pub mod EndToEnd
pub mod Lifecycle
pub mod Command
mod Tests
mod EndToEndTests
use ss_p2p_node_controller.Common.{
  ℕ, Bool, true, false, if◌then◌else◌, List, Option, none, some, ◌>>=◌,
}
use ss_p2p_node_controller.Json.{Json}
use ss_p2p_node_controller.Endpoint.{Net}
use ss_p2p_node_controller.Message.{get_param, is_contain_param, Bson, decode}
use ss_p2p_node_controller.Kademlia.NodeId.{NodeId}
use ss_p2p_node_controller.Kademlia.DhtManager
use ss_p2p_node_controller.Kademlia.DhtManager.{DhtManager}
use ss_p2p_node_controller.Observers.Base.{Ids}
use ss_p2p_node_controller.Ice.Agent
use ss_p2p_node_controller.Ice.Agent.{Agent}
use ss_p2p_node_controller.MessagePool.Buffer.{Outcome, done, fault}
use ss_p2p_node_controller.MessagePool.Pool.{MessagePool, Delivery, store, get_peer_message_buffer}
use ss_p2p_node_controller.Peer.{Peer, new_peer}

-- `U` is the type of the ids of messages. The ICE part reads the routing table of the dht_manager.
pub record Node (J E I U : Type 0) : Type 0 where
  pub dht : DhtManager E I
  pub ice : Agent J E I
  pub pool : MessagePool E U J

pub record Inputs (I U : Type 0) : Type 0 where
  pub observer_id : I
  pub now : ℕ
  pub leftover : ℕ
  pub message_id : U
  pub received_at : ℕ
  pub stored_at : ℕ

pub record Effects (J E U : Type 0) : Type 0 where
  pub kademlia : DhtManager.Effects J E
  pub ice_agent : Agent.Effects J E
  pub delivery : Option (Delivery E U J)

module _ {J E A I : Type 0} (json : Json J) (net : Net E A) (ids : Ids I) (eq_id : Discrete I)
    (calc_node_id : E → NodeId) where
  unfoldable pub income_kademlia :
      J → E → DhtManager E I → Option (DhtManager E I × DhtManager.Effects J E)
  unfolding is_contain_param get_param DhtManager.income_message
  income_kademlia msg ep d =
      if is_contain_param json "kademlia" msg
      then DhtManager.income_message json net ids eq_id calc_node_id (get_param json "kademlia" msg)
          ep d
      else some (d, DhtManager.nothing)

module _ {J E A I U : Type 0} (json : Json J) (net : Net E A) (ids : Ids I) (eq_ep : Discrete E)
    (eq_id : Discrete I) (calc_node_id : E → NodeId) (glob_self_ep : E) (is_loopback : E → Bool)
    (sort : List (E × ℕ) → List (E × ℕ)) where
  unfoldable pub income_ice :
      Inputs I U → J → E → DhtManager E I → Agent J E I → Option (Agent J E I × Agent.Effects J E)
  unfolding is_contain_param get_param Agent.income_message
  income_ice x msg ep d a =
      if is_contain_param json "ice_agent" msg
      then Agent.income_message json net ids eq_ep eq_id calc_node_id glob_self_ep is_loopback sort
          x.observer_id x.now (get_param json "ice_agent" msg) ep d.table a
      else some (a, Agent.nothing)

-- `store_lem` rules out that `store` runs into undefined behaviour.
abbrev pub stored_in :
    {E U J : Type 0}
    → Outcome (MessagePool E U J × Option (Delivery E U J))
    → Option (MessagePool E U J × Option (Delivery E U J))
stored_in fault = none
stored_in (done r) = some r

module _ {J E I U P : Type 0} (json : Json J) (calc_peer_id : E → P) (eq_peer : Discrete P)
    (eq_uuid : Discrete U) where
  -- The flag is 1 as long as the ICE part was not called, since its income_message returns 0.
  unfoldable pub keep :
      Inputs I U → J → E → MessagePool E U J → Option (MessagePool E U J × Option (Delivery E U J))
  unfolding is_contain_param store
  keep x msg ep p =
      if is_contain_param json "ice_agent" msg
      then some (p, none)
      else stored_in (
          store calc_peer_id eq_peer eq_uuid x.leftover x.message_id x.received_at x.stored_at msg
            ep p)

module _ {J E A I U P : Type 0} (json : Json J) (net : Net E A) (ids : Ids I) (eq_ep : Discrete E)
    (eq_id : Discrete I) (calc_node_id : E → NodeId) (glob_self_ep : E) (is_loopback : E → Bool)
    (sort : List (E × ℕ) → List (E × ℕ)) (calc_peer_id : E → P) (eq_peer : Discrete P)
    (eq_uuid : Discrete U) where
  unfoldable pub on_receive_packet :
      Inputs I U → J → E → Node J E I U → Option (Node J E I U × Effects J E U)
  unfolding income_kademlia income_ice keep
  on_receive_packet x msg ep n = do
    (dht, kademlia) ← income_kademlia json net ids eq_id calc_node_id msg ep n.dht
    (ice, ice_agent) ←
        income_ice json net ids eq_ep eq_id calc_node_id glob_self_ep is_loopback sort x msg ep dht
          n.ice
    (pool, delivery) ← keep json calc_peer_id eq_peer eq_uuid x msg ep n.pool
    let n' : Node J E I U = record { dht = dht; ice = ice; pool = pool }
    let fx : Effects J E U = record {
      kademlia = kademlia;
      ice_agent = ice_agent;
      delivery = delivery;
    }
    some (n', fx)

  -- The whole handler: what is not BSON is an exception.
  unfoldable pub on_receive_datagram :
      Bson J → Inputs I U → List ℕ → E → Node J E I U → Option (Node J E I U × Effects J E U)
  unfolding decode on_receive_packet
  on_receive_datagram bson x raw_msg ep n = do
    msg ← decode bson raw_msg
    on_receive_packet x msg ep n

-- `get_peer` and `get_peer_ref`.
module _ {J E I U P : Type 0} (calc_peer_id : E → P) (eq_peer : Discrete P) where
  unfoldable pub get_peer : E → Node J E I U → Peer E U J P
  unfolding new_peer get_peer_message_buffer
  get_peer ep n =
      new_peer calc_peer_id ep
        (get_peer_message_buffer calc_peer_id eq_peer (calc_peer_id ep) n.pool)
