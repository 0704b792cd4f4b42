-- ===== src/Ice/AgentTests.antt =====
-- The theorems on ICE messages, signaling and the ICE agent at concrete inputs: endpoint 4 looks for
-- endpoint 9, and endpoint 8 passes its messages on.
use ss_p2p_node_controller.Common.{
  ℕ, traverse, ◌≤◌, ℕ_discrete, true, false, ◌≡◌, ◌≢◌, refl, List, [], ◌∷◌, ◌++◌, map, Mem, length,
  some,
}
use ss_p2p_node_controller.Json.Sample.{Value, value_at, array, json, json-JsonLaws}
use ss_p2p_node_controller.Endpoint.Sample.{net, net-NetLaws, plain}
use ss_p2p_node_controller.Kademlia.NodeId.{NodeId, eq_id, calc_node_xor_distance}
use ss_p2p_node_controller.Kademlia.Bucket
use ss_p2p_node_controller.Kademlia.Bucket.{contains}
use ss_p2p_node_controller.Kademlia.RoutingTable
use ss_p2p_node_controller.Kademlia.RoutingTable.{RoutingTable, calc_branch}
use ss_p2p_node_controller.Kademlia.RoutingTable.Placement.{IsWellFormed, init-IsWellFormed}
use ss_p2p_node_controller.Kademlia.DirectController.{auto_update_batch, is_exist}
use ss_p2p_node_controller.Kademlia.DirectController.Laws.{
  Owned, init-Owned, auto_update_batch-IsWellFormed,
}
use ss_p2p_node_controller.Observers.Base.{new_observer, get_observer_id}
use ss_p2p_node_controller.Observers.Sample.{ids, ids-IdsLaws}
use ss_p2p_node_controller.Observers.Storage.{find_observer, add_observer, replace}
use ss_p2p_node_controller.Kademlia.DirectController.Laws.{Collected}
use ss_p2p_node_controller.Ice.Reservation.{new_sr}
use ss_p2p_node_controller.Ice.Binding
use ss_p2p_node_controller.Ice.StunServer.{binding_message}
use ss_p2p_node_controller.Ice.Message.{
  signaling, new_ice_message, from_json, default_ttl, get_ttl, get_relay_endpoints,
  get_dest_endpoint, get_src_endpoint, add_relay_endpoint, get_sub_protocol, ice_packet,
}
use ss_p2p_node_controller.Ice.Message.Laws.{from_json-new_ice_message, add_relay_endpoint_lem}
use ss_p2p_node_controller.Ice.Signaling.{
  Signals, SignalingRequest, request_message, with_relay, with_response, income_response,
  cached_packet,
}
use ss_p2p_node_controller.Ice.Signaling
use ss_p2p_node_controller.Ice.Signaling.Fields.{Reads}
use ss_p2p_node_controller.Ice.Signaling.Relay.{
  gives, income_message-forwards, income_message-known,
}
use ss_p2p_node_controller.Ice.Signaling.Round.{Travels, starts, hops, income_message-round}
use ss_p2p_node_controller.Ice.Agent.{StoredBinding, Agent, after, sends, income_message}
use ss_p2p_node_controller.Ice.Agent.{no_observers}
use ss_p2p_node_controller.Ice.Agent.StunRound.{income_message-stun_round}

-- An endpoint's id has the endpoint as its first byte.
abbrev id_from : ℕ → NodeId
id_from n = n ∷ 0 ∷ 0 ∷ 0 ∷ 0 ∷ 0 ∷ 0 ∷ 0 ∷ 0 ∷ 0 ∷ 0 ∷ 0 ∷ 0 ∷ 0 ∷ 0 ∷ 0 ∷ 0 ∷ 0 ∷ 0 ∷ 0 ∷ []

-- The message of endpoint 4 that asks for endpoint 9, with the observer id 77.
abbrev request_for_nine : Value
request_for_nine = request_message json net ids id_from 4 77 9

abbrev table_of : List ℕ → RoutingTable ℕ
table_of eps = auto_update_batch id_from eps (RoutingTable.init (id_from 8))

table_of-IsWellFormed : (eps : List ℕ) → IsWellFormed (table_of eps) × Owned id_from (table_of eps)
table_of-IsWellFormed eps =
    auto_update_batch-IsWellFormed id_from eps (RoutingTable.init (id_from 8))
      (init-IsWellFormed (id_from 8)) (init-Owned id_from (id_from 8))

unknown_nine : is_exist id_from 9 (table_of (1 ∷ 2 ∷ [])) ≡ false
unfolding is_exist auto_update_batch RoutingTable.is_exist RoutingTable.auto_update
    RoutingTable.init Bucket.auto_update Bucket.is_exist contains eq_id calc_branch
    RoutingTable.calc_branch_index calc_node_xor_distance
unknown_nine = refl

known_nine : is_exist id_from 9 (table_of (1 ∷ 9 ∷ [])) ≡ true
unfolding is_exist auto_update_batch RoutingTable.is_exist RoutingTable.auto_update
    RoutingTable.init Bucket.auto_update Bucket.is_exist contains eq_id calc_branch
    RoutingTable.calc_branch_index calc_node_xor_distance
known_nine = refl

not_eight : ◌≢◌ {A = ℕ} 9 8
not_eight e = absurd cc

abbrev no_signals : Signals Value ℕ ℕ
no_signals = no_observers.signals

request-Reads : Reads json net request_for_nine 9 4 [] default_ttl
unfolding request_message get_dest_endpoint get_src_endpoint get_ttl traverse
request-Reads = record {
  dest = refl;
  src = refl;
  texts = [];
  field = refl;
  relays = refl;
  time = refl;
}

from_json-new_ice_message_example :
    (from_json json (new_ice_message json signaling).body ≡ new_ice_message json signaling)
    × (get_ttl json (new_ice_message json signaling).body ≡ some default_ttl)
    × (get_relay_endpoints json net (new_ice_message json signaling).body ≡ some [])
from_json-new_ice_message_example = from_json-new_ice_message json json-JsonLaws net signaling

no_relay_eps : value_at "relay_eps" request_for_nine ≡ array []
unfolding request_message
no_relay_eps = refl

add_relay_endpoint_lem_example :
    (body' : Value) × (add_relay_endpoint json net 8 request_for_nine ≡ some body')
    × (get_relay_endpoints json net body' ≡ some (8 ∷ []))
    × (get_dest_endpoint json net body' ≡ get_dest_endpoint json net request_for_nine)
    × (get_sub_protocol json body' ≡ get_sub_protocol json request_for_nine)
unfolding traverse
add_relay_endpoint_lem_example =
    add_relay_endpoint_lem json json-JsonLaws net net-NetLaws [] [] 8 request_for_nine no_relay_eps
      refl (plain 8)

income_message-forwards_example :
    (msg : Value) × (targets : List ℕ) × (Signaling.income_message json net ℕ_discrete ℕ_discrete
        id_from 8 5 0 request_for_nine
        (table_of (1 ∷ 2 ∷ []))
        no_signals
      ≡ some (with_relay ℕ_discrete 5 0 no_signals, map (ice_packet msg) targets))
    × (length targets ≤ 4)
    × Collected id_from 3 (8 ∷ []) (table_of (1 ∷ 2 ∷ [])) targets
    × ((target ep : ℕ) → Mem target targets → Mem ep (8 ∷ []) → id_from target ≢ id_from ep)
    × Reads json net msg 9 4 ((8 ∷ []) ++ targets) default_ttl
    × (value_at "observer_id" msg ≡ value_at "observer_id" request_for_nine)
income_message-forwards_example =
    income_message-forwards json json-JsonLaws net net-NetLaws plain ℕ_discrete ℕ_discrete id_from 8
      5 0 request_for_nine (table_of (1 ∷ 2 ∷ [])) no_signals 9 4 [] default_ttl request-Reads
      not_eight unknown_nine refl (table_of-IsWellFormed (1 ∷ 2 ∷ [])).0
      (table_of-IsWellFormed (1 ∷ 2 ∷ [])).1

known_step :
    (msg : Value) × (Signaling.income_message json net ℕ_discrete ℕ_discrete id_from 8 5 0
        request_for_nine
        (table_of (1 ∷ 9 ∷ []))
        no_signals
      ≡ some (with_relay ℕ_discrete 5 0 no_signals, ice_packet msg 9 ∷ []))
    × Reads json net msg 9 4 (8 ∷ []) default_ttl
    × (value_at "observer_id" msg ≡ value_at "observer_id" request_for_nine)
known_step =
    income_message-known json json-JsonLaws net net-NetLaws plain ℕ_discrete ℕ_discrete id_from 8 5
      0 request_for_nine (table_of (1 ∷ 9 ∷ [])) no_signals 9 4 [] default_ttl request-Reads
      not_eight known_nine

abbrev waiting_request : SignalingRequest Value ℕ ℕ
waiting_request = record {
  base = new_observer 77 0;
  msg_cache = record { ep = 9; param = "hello"; payload = json.empty_object };
  done = false;
}

travel : Travels json net ℕ_discrete ℕ_discrete id_from 9 request_for_nine known_step.0
travel =
    hops request_for_nine known_step.0 8 5 0 (table_of (1 ∷ 9 ∷ [])) no_signals
      (with_relay ℕ_discrete 5 0 no_signals) 9 [] not_eight known_step.1 starts

income_message-round_example :
    (reply : Value) × (Signaling.income_message json net ℕ_discrete ℕ_discrete id_from 9 6 1
        known_step.0
        (table_of [])
        no_signals
      ≡ gives (with_response ℕ_discrete 6 1 no_signals) (ice_packet reply 4 ∷ []))
    × (get_observer_id json ids reply ≡ some 77)
    × (income_response json net ℕ_discrete 4 reply waiting_request
        ≡ some (cached_packet waiting_request.msg_cache ∷ []))
income_message-round_example =
    income_message-round json json-JsonLaws net net-NetLaws plain ids ids-IdsLaws ℕ_discrete
      ℕ_discrete id_from 77 6 1 9 4 known_step.0 (table_of []) no_signals waiting_request travel
      refl

-- The observer with the id 5 of a question to endpoint 8.
abbrev question : StoredBinding ℕ ℕ
question = record {
  base = new_observer 5 0;
  request = Binding.add_requested_ep 8 (Binding.init (new_sr 0));
}

abbrev asking : Agent Value ℕ ℕ
asking = record {
  signals = no_signals;
  bindings = (add_observer (λ q. q.base.id) ℕ_discrete question []).0;
}

abbrev sort_none : List (ℕ × ℕ) → List (ℕ × ℕ)
sort_none m = m

finds_question : find_observer (λ q. q.base.id) ℕ_discrete 5 asking.bindings ≡ question ∷ []
unfolding find_observer add_observer new_observer ℕ_discrete
finds_question = refl

finds_nothing :
    find_observer (λ q. q.base.id) ℕ_discrete 5 (no_observers {J = Value} {E = ℕ} {I = ℕ}).bindings
    ≡ []
unfolding find_observer
finds_nothing = refl

income_message-stun_round_example :
    (reply : Value) × (income_message json net ids ℕ_discrete ℕ_discrete id_from 8
        (λ ep. false)
        sort_none
        1
        1
        (some (binding_message json ids 5))
        4
        (table_of [])
        no_observers
      ≡ some (no_observers, sends (ice_packet reply 4 ∷ [])))
    × (income_message json net ids ℕ_discrete ℕ_discrete id_from 0
          (λ ep. false)
          sort_none
          2
          2
          (some reply)
          8
          (table_of [])
          asking
        ≡ (let taken =
              Binding.income_message
                (λ ep. false)
                ℕ_discrete
                sort_none
                8
                (some 4)
                question.request in
            some (
              record asking {
                bindings =
                    replace (λ q. q.base.id) ℕ_discrete 5 (after question taken.0) asking.bindings;
              },
              record { sent = []; handled = taken.1 },
            )))
income_message-stun_round_example =
    income_message-stun_round json json-JsonLaws net net-NetLaws ids ids-IdsLaws ℕ_discrete
      ℕ_discrete id_from (λ ep. false) sort_none 5 1 2 1 2 0 4 8 (table_of []) (table_of []) asking
      no_observers question [] finds_nothing finds_question
