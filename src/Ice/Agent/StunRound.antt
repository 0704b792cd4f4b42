-- ===== src/Ice/Agent/StunRound.antt =====
-- A question for the global endpoint of a node, src/ss_p2p/ice_agent, on its way to another node and
-- back.
use Prim.Native.String.{String}
use text.Mathlib.Text.{◌==◌}
use ss_p2p_node_controller.Common.{ℕ, Bool, false, ◌≡◌, refl, List, [], ◌∷◌, some}
use ss_p2p_node_controller.Json.{Json, JsonLaws}
use ss_p2p_node_controller.Endpoint.{Net, NetLaws}
use ss_p2p_node_controller.Kademlia.NodeId.{NodeId}
use ss_p2p_node_controller.Kademlia.RoutingTable.{RoutingTable}
use ss_p2p_node_controller.Observers.Base.{Ids, IdsLaws, set_observer_id, get_observer_id}
use ss_p2p_node_controller.Observers.Storage.{find_observer, replace}
use ss_p2p_node_controller.Ice.Message.{
  stun, set_protocol, new_ice_message, from_json, set_sub_protocol, get_sub_protocol,
  binding_request_code, binding_response_code, ice_packet, get_global_ep, set_global_ep,
  set_endpoint, default_ttl,
}
use ss_p2p_node_controller.Ice.Message.Laws.{
  get_dest_endpoint-set_dest_endpoint, get_sub_protocol-set_sub_protocol,
}
use ss_p2p_node_controller.Ice.Binding
use ss_p2p_node_controller.Ice.StunServer
use ss_p2p_node_controller.Ice.StunServer.{binding_message}
use ss_p2p_node_controller.Ice.Agent.{
  StoredBinding, Agent, after, sends, dispatch, income_stun, income_message,
}

module _ {J E A I : Type 0} (json : Json J) (net : Net E A) (ids : Ids I) where
  -- The answer to the question with an id.
  unfoldable pub binding_answer : I → E → J
  binding_answer id ep =
      set_global_ep json net ep
        (set_sub_protocol json binding_response_code (binding_message json ids id))

module _ {J E A I : Type 0} (json : Json J) (laws : JsonLaws json) (net : Net E A)
    (net_laws : NetLaws net) (ids : Ids I) (ids_laws : IdsLaws ids) where
  question_lem :
      (id : I)
      → ((from_json json (binding_message json ids id)).protocol ≡ stun)
        × (get_observer_id json ids (binding_message json ids id) ≡ some id)
        × (get_sub_protocol json (binding_message json ids id) ≡ some binding_request_code)
  unfolding from_json binding_message get_observer_id set_sub_protocol set_observer_id
      new_ice_message set_protocol
  question_lem id =
      let word = json.set "protocol" (json.word "stun") json.null in
      let relays = json.set "relay_eps" (json.array []) word in
      let start = json.set "ttl" (json.number default_ttl) relays in
      let named = json.set "observer_id" (json.text (ids.id_to_str id)) start in
      (
        rw (
          laws.at-set_ne "sub_protocol" "protocol" _ named refl,
          laws.at-set_ne "observer_id" "protocol" _ start refl,
          laws.at-set_ne "ttl" "protocol" _ relays refl,
          laws.at-set_ne "relay_eps" "protocol" _ word refl,
          laws.at-set_self "protocol" (json.word "stun") json.null,
          laws.is_word_ne "stun" "signaling" refl,
          laws.is_word_self "stun",
        ),
        rw (
          laws.at-set_ne "sub_protocol" "observer_id" _ named refl,
          laws.at-set_self "observer_id" _ start,
          laws.get_text-text (ids.id_to_str id),
          ids_laws.str_to_id-id_to_str id,
        ),
        get_sub_protocol-set_sub_protocol json laws binding_request_code named,
      )

  answer-keeps :
      (k : String) (id : I) (ep : E)
      → ("global_port" == k) ≡ false
      → ("global_ip" == k) ≡ false
      → ("sub_protocol" == k) ≡ false
      → json.at k (binding_answer json net ids id ep) ≡ json.at k (binding_message json ids id)
  unfolding binding_answer set_global_ep set_endpoint set_sub_protocol
  answer-keeps k id ep a b c = rw (
    laws.at-set_ne "global_port" k _ _ a,
    laws.at-set_ne "global_ip" k _ _ b,
    laws.at-set_ne "sub_protocol" k _ _ c,
  )

  answer_lem :
      (id : I) (ep : E)
      → ((from_json json (binding_answer json net ids id ep)).protocol ≡ stun)
        × (get_observer_id json ids (binding_answer json net ids id ep) ≡ some id)
        × (get_global_ep json net (binding_answer json net ids id ep) ≡ some ep)
  unfolding from_json get_observer_id
  answer_lem id ep =
      let (protocol, named, _) = question_lem id in
      (
        rw (answer-keeps "protocol" id ep refl refl refl) protocol,
        rw (answer-keeps "observer_id" id ep refl refl refl) named,
        unfold binding_answer in
            (get_dest_endpoint-set_dest_endpoint json laws net net_laws ep
              (set_sub_protocol json binding_response_code (binding_message json ids id))).2,
      )

module _ {J E A I : Type 0} (json : Json J) (laws : JsonLaws json) (net : Net E A)
    (net_laws : NetLaws net) (ids : Ids I) (ids_laws : IdsLaws ids) (eq_ep : Discrete E)
    (eq_id : Discrete I) (calc_node_id : E → NodeId) (is_loopback : E → Bool)
    (sort : List (E × ℕ) → List (E × ℕ)) where
  -- A node that has no binding_request with the id of a question answers it with one packet to the
  -- endpoint that it came from. When this answer reaches the node that asked, its observer with the
  -- id, and nothing else, takes it: as the answer of the other node, and with the endpoint under which
  -- the question arrived.
  pub income_message-stun_round :
      (id id1 id2 : I) (now1 now2 : ℕ) (asker asker_seen other : E) (t1 t2 : RoutingTable E)
      (a b : Agent J E I) (o : StoredBinding E I) (os : List (StoredBinding E I))
      → find_observer (λ q. q.base.id) eq_id id b.bindings ≡ []
      → find_observer (λ q. q.base.id) eq_id id a.bindings ≡ o ∷ os
      → (reply : J) × (income_message json net ids eq_ep eq_id calc_node_id other is_loopback sort
            id1 now1
            (some (binding_message json ids id))
            asker_seen
            t1
            b
          ≡ some (b, sends (ice_packet reply asker_seen ∷ [])))
        × (income_message json net ids eq_ep eq_id calc_node_id asker is_loopback sort id2 now2
              (some reply)
              other
              t2
              a
            ≡ (let taken =
                  Binding.income_message is_loopback eq_ep sort other (some asker_seen) o.request in
                some (
                  record a {
                    bindings = replace (λ q. q.base.id) eq_id id (after o taken.0) a.bindings;
                  },
                  record { sent = []; handled = taken.1 },
                )))
  unfolding income_message dispatch income_stun StunServer.income_message
  income_message-stun_round id id1 id2 now1 now2 asker asker_seen other t1 t2 a b o os fresh waits =
      let (protocol, named, typed) = question_lem json laws net net_laws ids ids_laws id in
      let (protocol', named', seen) =
        answer_lem json laws net net_laws ids ids_laws id asker_seen in
      (
        binding_answer json net ids id asker_seen,
        unfold binding_answer in (rw (protocol, named, fresh, typed)),
        rw (protocol', named', waits, seen),
      )
