-- ===== src/Ice/Agent.antt =====
-- ice_agent of src/ss_p2p/ice_agent/ice_agent.cpp: which observer or server a message goes to. The
-- state is the storage of the four kinds of observers. The id of an observer that is made on the way
-- and the clock are arguments, `none` is an exception.
pub mod StunRound
use ss_p2p_node_controller.Common.{
  ℕ, Bool, true, false, if◌then◌else◌, List, [], ◌∷◌, Option, none, some, ◌>>=◌,
}
use ss_p2p_node_controller.Json.{Json}
use ss_p2p_node_controller.Endpoint.{Net}
use ss_p2p_node_controller.Kademlia.NodeId.{NodeId}
use ss_p2p_node_controller.Kademlia.RoutingTable.{RoutingTable}
use ss_p2p_node_controller.Observers.Base.{BaseObserver, destruct_self, Ids, get_observer_id}
use ss_p2p_node_controller.Observers.Storage.{find_observer, replace}
use ss_p2p_node_controller.Ice.Message.{
  Protocol, signaling, stun, none_protocol, from_json, Packet, get_global_ep,
}
use ss_p2p_node_controller.Ice.Binding
use ss_p2p_node_controller.Ice.Binding.{BindingRequest}
use ss_p2p_node_controller.Ice.Signaling
use ss_p2p_node_controller.Ice.Signaling.{Signals, SignalingRequest, income_response, income_again}
use ss_p2p_node_controller.Ice.StunServer

-- A binding_request with its part that is a base_observer.
pub record StoredBinding (E I : Type 0) : Type 0 where
  pub base : BaseObserver I
  pub request : BindingRequest E

pub record Agent (J E I : Type 0) : Type 0 where
  pub signals : Signals J E I
  pub bindings : List (StoredBinding E I)

-- What a message causes: packets, and calls of the handlers that wait for the global endpoint.
pub record Effects (J E : Type 0) : Type 0 where
  pub sent : List (Packet J E)
  pub handled : List (Option E)

module _ {J E : Type 0} where
  abbrev pub nothing : Effects J E
  nothing = record { sent = []; handled = [] }

  abbrev pub sends : List (Packet J E) → Effects J E
  sends ps = record { sent = ps; handled = [] }

-- An observer that ended lets the storage delete it.
unfoldable pub after : {E I : Type 0} → StoredBinding E I → BindingRequest E → StoredBinding E I
unfolding destruct_self
after o b = record { base = if b.destructed then destruct_self o.base else o.base; request = b }

module _ {J E A I : Type 0} (json : Json J) (net : Net E A) (ids : Ids I) (eq_ep : Discrete E)
    (eq_id : Discrete I) (calc_node_id : E → NodeId) (glob_self_ep : E) (is_loopback : E → Bool)
    (sort : List (E × ℕ) → List (E × ℕ)) where
  -- The observers with the id of the message: of the relays, of the requests, of the responses. The
  -- first one takes the message, and without any it goes to the server.
  unfoldable pub income_signaling :
      List (BaseObserver I)
      → List (SignalingRequest J E I)
      → List (BaseObserver I)
      → I
      → I
      → ℕ
      → J
      → RoutingTable E
      → Agent J E I
      → Option (Agent J E I × Effects J E)
  unfolding replace income_again income_response Signaling.income_message
  income_signaling (o ∷ os) requests responses obs_id id now body t a = some (
    record a {
      signals = record a.signals {
        relays = replace (λ o. o.id) eq_id obs_id (income_again now o) a.signals.relays;
      };
    },
    nothing,
  )
  income_signaling [] (o ∷ os) responses obs_id id now body t a = do
    sent ← income_response json net eq_ep glob_self_ep body o
    some (a, sends sent)
  income_signaling [] [] (o ∷ os) obs_id id now body t a = some (
    record a {
      signals = record a.signals {
        responses = replace (λ o. o.id) eq_id obs_id (income_again now o) a.signals.responses;
      };
    },
    nothing,
  )
  income_signaling [] [] [] obs_id id now body t a = do
    (signals, sent) ←
        Signaling.income_message json net eq_ep eq_id calc_node_id glob_self_ep id now body t
          a.signals
    some (record a { signals = signals }, sends sent)

  unfoldable pub income_stun :
      List (StoredBinding E I) → I → J → E → Agent J E I → Option (Agent J E I × Effects J E)
  unfolding replace after Binding.income_message StunServer.income_message get_global_ep
  income_stun (o ∷ os) obs_id body ep a = do
    global_ep ← get_global_ep json net body
    let (b, handled) = Binding.income_message is_loopback eq_ep sort ep (some global_ep) o.request
    some (
      record a { bindings = replace (λ o. o.base.id) eq_id obs_id (after o b) a.bindings },
      record { sent = []; handled = handled },
    )
  income_stun [] obs_id body ep a = do
    sent ← StunServer.income_message json net body ep
    some (a, sends sent)

  unfoldable pub dispatch :
      Protocol → I → ℕ → J → E → RoutingTable E → Agent J E I → Option (Agent J E I × Effects J E)
  unfolding get_observer_id find_observer income_signaling income_stun
  dispatch signaling id now body ep t a = do
    obs_id ← get_observer_id json ids body
    income_signaling (find_observer (λ o. o.id) eq_id obs_id a.signals.relays)
        (find_observer (λ o. o.base.id) eq_id obs_id a.signals.requests)
        (find_observer (λ o. o.id) eq_id obs_id a.signals.responses) obs_id id now body t a
  dispatch stun id now body ep t a = do
    obs_id ← get_observer_id json ids body
    income_stun (find_observer (λ o. o.base.id) eq_id obs_id a.bindings) obs_id body ep a
  dispatch none_protocol id now body ep t a = some (a, nothing)

  -- `income_message`; the message is the value of the parameter "ice_agent".
  unfoldable pub income_message :
      I → ℕ → Option J → E → RoutingTable E → Agent J E I → Option (Agent J E I × Effects J E)
  unfolding from_json dispatch
  income_message id now none ep t a = some (a, nothing)
  income_message id now (some body) ep t a =
      dispatch (from_json json body).protocol id now body ep t a

-- The constructor: the storages are empty.
abbrev pub no_observers : {J E I : Type 0} → Agent J E I
no_observers = record {
  signals = record { requests = []; responses = []; relays = [] };
  bindings = [];
}
