-- ===== src/Ice/Signaling.antt =====
-- The signaling server of src/ss_p2p/ice_agent/signaling_server.cpp and the signaling observers of
-- ice_observer.cpp: how a node asks others to pass a request on to a node that it cannot reach.
-- Sent packets are outputs. The id of a new observer and the clock are arguments, and an exception
-- is `none`. The handlers that run when a packet is sent are bound to a copy of their observer, so
-- the stored one does not change.
pub mod Fields
pub mod Relay
pub mod Round
use Prim.Native.String.{String}
use ss_p2p_node_controller.Common.{
  ℕ, Bool, true, false, if◌then◌else◌, ite, ◌==◌, List, [], ◌∷◌, map, Option, none, some, ◌>>=◌,
}
use ss_p2p_node_controller.Json.{Json, ℤ, is_positive, pos, negsuc}
use ss_p2p_node_controller.Endpoint.{Net}
use ss_p2p_node_controller.Kademlia.NodeId.{NodeId}
use ss_p2p_node_controller.Kademlia.RoutingTable.{RoutingTable}
use ss_p2p_node_controller.Kademlia.DirectController.{collect_endpoint, is_exist}
use ss_p2p_node_controller.Observers.Base.{
  BaseObserver, new_observer, extend_expire_at, Ids, set_observer_id,
}
use ss_p2p_node_controller.Observers.Storage.{add_observer}
use ss_p2p_node_controller.Ice.Message.{
  is_number, Packet, ice_packet, signaling, new_ice_message, set_sub_protocol, get_sub_protocol,
  request_code, response_code, relay_code, get_ttl, set_dest_endpoint, get_dest_endpoint,
  set_src_endpoint, get_src_endpoint, add_relay_endpoint, get_relay_endpoints,
}

pub record MsgCache (J E : Type 0) : Type 0 where
  pub ep : E
  pub param : String
  pub payload : J

pub record SignalingRequest (J E I : Type 0) : Type 0 where
  pub base : BaseObserver I
  pub msg_cache : MsgCache J E
  pub done : Bool

-- The storages of the three signaling observers; those of responses and relays are plain observers.
pub record Signals (J E I : Type 0) : Type 0 where
  pub requests : List (SignalingRequest J E I)
  pub responses : List (BaseObserver I)
  pub relays : List (BaseObserver I)

abbrev pub signaling_forward_count : ℕ
signaling_forward_count = 3

module _ {J E : Type 0} where
  abbrev pub cached_packet : MsgCache J E → Packet J E
  cached_packet c = record { dest = c.ep; param = c.param; payload = c.payload }

module _ {J E A : Type 0} (json : Json J) (net : Net E A) where
  -- The loop that adds the targets to the relay endpoints.
  unfoldable pub add_relay_endpoints : List E → J → Option J
  unfolding add_relay_endpoint
  add_relay_endpoints [] body = some body
  add_relay_endpoints (ep ∷ eps) body = do
    body' ← add_relay_endpoint json net ep body
    add_relay_endpoints eps body'

module _ {J E A I : Type 0} (json : Json J) (net : Net E A) (ids : Ids I)
    (calc_node_id : E → NodeId) (glob_self_ep : E) where
  -- The message that `init` of a signaling_request sends.
  unfoldable pub request_message : I → E → J
  unfolding new_ice_message set_observer_id set_sub_protocol set_dest_endpoint set_src_endpoint
  request_message id dest_ep = set_src_endpoint json net glob_self_ep (
      set_dest_endpoint json net dest_ep (
        set_sub_protocol json request_code
          (set_observer_id json ids id (new_ice_message json signaling).body)))

  abbrev pub dummy_packet : E → Packet J E
  dummy_packet dest_ep = record {
    dest = dest_ep;
    param = "dummy";
    payload = json.word "signaling dummy";
  }

  -- The constructor of a signaling_request and its `init`.
  unfoldable pub init_request :
      I → ℕ → E → String → J → RoutingTable E → Option (SignalingRequest J E I × List (Packet J E))
  unfolding new_observer request_message collect_endpoint
  init_request id now dest_ep param payload t = do
    forward_eps ← collect_endpoint calc_node_id dest_ep signaling_forward_count [] t
    let cache : MsgCache J E = record { ep = dest_ep; param = param; payload = payload }
    let obs : SignalingRequest J E I = record {
      base = new_observer id now;
      msg_cache = cache;
      done = false;
    }
    some (obs, dummy_packet dest_ep ∷ map (ice_packet (request_message id dest_ep)) forward_eps)

module _ {J E A I : Type 0} (json : Json J) (net : Net E A) (ids : Ids I) (eq_id : Discrete I)
    (calc_node_id : E → NodeId) (glob_self_ep : E) where
  -- `signaling_send`: a destination of the routing table is reached directly.
  unfoldable pub signaling_send :
      I
      → ℕ
      → E
      → String
      → J
      → RoutingTable E
      → Signals J E I
      → Option (Signals J E I × List (Packet J E))
  unfolding is_exist init_request add_observer
  signaling_send id now dest_ep param payload t s =
      let packet : Packet J E = record { dest = dest_ep; param = param; payload = payload } in
      if is_exist calc_node_id dest_ep t then some (s, packet ∷ []) else (do
        (obs, sent) ←
            init_request json net ids calc_node_id glob_self_ep id now dest_ep param payload t
        some (record s { requests = (add_observer (λ o. o.base.id) eq_id obs s.requests).0 }, sent))

-- The storages with a new observer of a response or of a relay.
module _ {J E I : Type 0} (eq_id : Discrete I) where
  abbrev pub with_response : I → ℕ → Signals J E I → Signals J E I
  with_response id now s = record s {
    responses = (add_observer (λ o. o.id) eq_id (new_observer id now) s.responses).0;
  }

  abbrev pub with_relay : I → ℕ → Signals J E I → Signals J E I
  with_relay id now s = record s {
    relays = (add_observer (λ o. o.id) eq_id (new_observer id now) s.relays).0;
  }

module _ {J E A I : Type 0} (json : Json J) (net : Net E A) (eq_ep : Discrete E)
    (eq_id : Discrete I) (calc_node_id : E → NodeId) (glob_self_ep : E) where
  -- The destination is this node: it answers the source.
  unfoldable pub answer : I → ℕ → J → Signals J E I → Option (Signals J E I × List (Packet J E))
  unfolding get_src_endpoint set_sub_protocol new_observer add_observer
  answer id now body s = do
    src_ep ← get_src_endpoint json net body
    some (
      with_response eq_id id now s,
      ice_packet (set_sub_protocol json response_code body) src_ep ∷ [],
    )

  -- The destination is not in the routing table: other nodes get the message, unless its time to live
  -- is over.
  unfoldable pub forward :
      I → ℕ → E → J → RoutingTable E → Signals J E I → Option (Signals J E I × List (Packet J E))
  unfolding get_relay_endpoints get_ttl collect_endpoint add_relay_endpoints
  forward id now dest_ep msg t s = do
    relay_eps ← get_relay_endpoints json net msg
    ttl ← get_ttl json msg
    (if is_positive ttl
        then (do
          forward_eps ← collect_endpoint calc_node_id dest_ep signaling_forward_count relay_eps t
          forwarded ← add_relay_endpoints json net forward_eps msg
          some (with_relay eq_id id now s, map (ice_packet forwarded) forward_eps))
        else some (s, []))

  -- `income_message` of the server.
  unfoldable pub income_message :
      I → ℕ → J → RoutingTable E → Signals J E I → Option (Signals J E I × List (Packet J E))
  unfolding get_dest_endpoint set_sub_protocol add_relay_endpoint is_exist answer forward
  income_message id now body t s = do
    dest_ep ← get_dest_endpoint json net body
    ite (eq_ep dest_ep glob_self_ep) (answer id now body s) (do
      relayed ← add_relay_endpoint json net glob_self_ep body
      let msg = set_sub_protocol json relay_code relayed
      (if is_exist calc_node_id dest_ep t
          then some (with_relay eq_id id now s, ice_packet msg dest_ep ∷ [])
          else forward id now dest_ep msg t s))

module _ {J E A I : Type 0} (json : Json J) (net : Net E A) (eq_ep : Discrete E)
    (glob_self_ep : E) where
  -- `income_message` of a signaling_request: once an answer is there, the cached packet is sent.
  unfoldable pub income_response : J → SignalingRequest J E I → Option (List (Packet J E))
  unfolding get_sub_protocol get_dest_endpoint
  income_response body o = if o.done then some [] else (do
    sub_protocol ← get_sub_protocol json body
    (if is_number sub_protocol response_code then some (cached_packet o.msg_cache ∷ []) else (do
      dest_ep ← get_dest_endpoint json net body
      some (ite (eq_ep dest_ep glob_self_ep) (cached_packet o.msg_cache ∷ []) []))))

module _ {J E I : Type 0} where
  unfoldable pub on_traversal_done : SignalingRequest J E I → SignalingRequest J E I
  on_traversal_done o = record o { done = true }

-- `income_message` of a signaling_response or a signaling_relay.
unfoldable pub income_again : {I : Type 0} → ℕ → BaseObserver I → BaseObserver I
unfolding extend_expire_at
income_again now o = extend_expire_at now 20 o
