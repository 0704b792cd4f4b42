-- ===== src/Ice/StunServer.antt =====
-- binding_request of src/ss_p2p/ice_agent/stun_server.cpp: it chooses the nodes that are asked for
-- the global endpoint of this node. The sending itself is the list of the endpoints it goes to.
use mathlib.Core.List.{append-nil, append_assoc}
use ss_p2p_node_controller.Common.{
  ℕ, zero, suc, ◌+◌, ◌-◌, ◌/◌, ◌≤◌, ◌<◌, max, ◌≡◌, refl, sym, ◌∙◌, inl, inr, Bool-cases,
  if◌then◌else◌, ltb, ltb→lt, not_ltb→le, List, [], ◌∷◌, ◌++◌, length, length-append, Option, none,
  some, ◌>>=◌, arith,
}
use ss_p2p_node_controller.Kademlia.NodeId.{NodeId}
use ss_p2p_node_controller.Kademlia.RoutingTable.{RoutingTable}
use ss_p2p_node_controller.Kademlia.RoutingTable.Placement.{IsWellFormed}
use ss_p2p_node_controller.Kademlia.DirectController.{collect_endpoint}
use ss_p2p_node_controller.Kademlia.DirectController.Laws.{Owned, Collected, collect_endpoint_lem}
use ss_p2p_node_controller.Json.{Json}
use ss_p2p_node_controller.Endpoint.{Net}
use ss_p2p_node_controller.Observers.Base.{Ids, set_observer_id}
use ss_p2p_node_controller.Ice.Message.{
  stun, new_ice_message, is_number, binding_request_code, binding_response_code, set_sub_protocol,
  get_sub_protocol, set_global_ep, Packet, ice_packet,
}
use ss_p2p_node_controller.Ice.Reservation.{SrObject, new_sr}
use ss_p2p_node_controller.Ice.Binding.{BindingRequest, init, add_requested_ep}

-- An error reservation, or the observer and the endpoints that the request is sent to.
pub data Request (E : Type 0) : Type 0 where
  refused : SrObject E → Request E
  asked : BindingRequest E → List E → Request E

unfoldable pub request_node_count : ℕ → ℕ → ℕ
request_node_count targets reliability = max (max 1 targets) (reliability / 10)

module _ {E : Type 0} where
  -- The loop that sends the requests.
  unfoldable pub ask_all : List E → BindingRequest E → BindingRequest E
  unfolding add_requested_ep
  ask_all [] b = b
  ask_all (ep ∷ eps) b = ask_all eps (add_requested_ep ep b)

  unfoldable pub ask : E → List E → Request E
  unfolding ask_all init new_sr
  ask any_ep [] = refused (new_sr any_ep)
  ask any_ep (ep ∷ eps) = asked (ask_all (ep ∷ eps) (init (new_sr any_ep))) (ep ∷ eps)

  abbrev pub ask_with : E → List E → Option (List E) → Option (Request E)
  ask_with any_ep targets none = none
  ask_with any_ep targets (some collected) = some (ask any_ep (targets ++ collected))

module _ {E : Type 0} (calc_node_id : E → NodeId) (any_ep : E) where
  -- `none` would be a search of the table that does not end, which `binding_request_lem` rules out.
  unfoldable pub binding_request : List E → ℕ → RoutingTable E → Option (Request E)
  unfolding request_node_count ask
  binding_request target_nodes reliability t =
      let count = request_node_count (length target_nodes) reliability in
      if ltb (length target_nodes) count
      then ask_with any_ep target_nodes
          (collect_endpoint calc_node_id any_ep (count - length target_nodes) target_nodes t)
      else some (ask any_ep target_nodes)

-- The message that `binding_request` sends, and `income_message`, which answers it: a copy that names
-- the endpoint it came from.
module _ {J I : Type 0} (json : Json J) (ids : Ids I) where
  unfoldable pub binding_message : I → J
  unfolding new_ice_message set_observer_id set_sub_protocol
  binding_message id =
      set_sub_protocol json binding_request_code
        (set_observer_id json ids id (new_ice_message json stun).body)

module _ {J E A : Type 0} (json : Json J) (net : Net E A) where
  unfoldable pub income_message : J → E → Option (List (Packet J E))
  unfolding get_sub_protocol set_sub_protocol set_global_ep
  income_message body ep = do
    sub_protocol ← get_sub_protocol json body
    let reply = set_global_ep json net ep (set_sub_protocol json binding_response_code body)
    some (if is_number sub_protocol binding_request_code then ice_packet reply ep ∷ [] else [])

module _ {E : Type 0} where
  abbrev pub unanswered : List E → List (E × Option E)
  unanswered [] = []
  unanswered (ep ∷ eps) = (ep, none) ∷ unanswered eps

  ask_all_lem :
      (eps : List E) (b : BindingRequest E)
      → (ask_all eps b).responses ≡ b.responses ++ unanswered eps
  unfolding ask_all
  ask_all_lem [] b = sym (append-nil _)
  ask_all_lem (ep ∷ eps) b =
      ask_all_lem eps (add_requested_ep ep b) ∙ append_assoc b.responses ((ep, none) ∷ []) _

  -- What is asked: exactly the endpoints that the observer waits for.
  abbrev pub Asks : List E → Request E → Type 0
  Asks eps (refused sr) = eps ≡ []
  Asks eps (asked b sent) = (sent ≡ eps) × (b.responses ≡ unanswered eps)

  ask-Asks : (any_ep : E) (eps : List E) → Asks eps (ask any_ep eps)
  unfolding ask init
  ask-Asks any_ep [] = refl
  ask-Asks any_ep (ep ∷ eps) = (refl, ask_all_lem (ep ∷ eps) (init (new_sr any_ep)))

module _ {E : Type 0} (calc_node_id : E → NodeId) where
  -- Nothing if nothing is missing.
  abbrev pub Collects : ℕ → List E → RoutingTable E → List E → Type 0
  Collects zero targets t extra = extra ≡ []
  Collects (suc n) targets t extra = Collected calc_node_id (suc n) targets t extra

  Collects-Collected :
      (n : ℕ) (targets : List E) (t : RoutingTable E) (extra : List E)
      → 0 < n
      → Collected calc_node_id n targets t extra
      → Collects n targets t extra
  Collects-Collected zero targets t extra h c = absurd (omega arith)
  Collects-Collected (suc n) targets t extra h c = c

module _ {E : Type 0} (calc_node_id : E → NodeId) (any_ep : E) where
  -- On a well-formed table whose nodes carry the ids of their endpoints, binding_request always
  -- returns. It asks the target nodes and after them, if these are fewer than
  -- max(1, number of targets, reliability / 10), what is collected from the table, without the ids of the
  -- targets, at most one more than max(1, number of targets, reliability / 10) in all; the observer
  -- waits for exactly the nodes that were asked; and it refuses only if there is no node to ask.
  pub binding_request_lem :
      (targets : List E) (reliability : ℕ) (t : RoutingTable E)
      → IsWellFormed t
      → Owned calc_node_id t
      → (r : Request E) × (extra : List E) × (binding_request calc_node_id any_ep targets
            reliability t
          ≡ some r)
        × Asks (targets ++ extra) r
        × (length (targets ++ extra) ≤ request_node_count (length targets) reliability + 1)
        × Collects calc_node_id
            (request_node_count (length targets) reliability - length targets)
            targets
            t
            extra
  unfolding binding_request
  binding_request_lem targets reliability t w own =
      let count = request_node_count (length targets) reliability in
      elim (Bool-cases (ltb (length targets) count)) [
        | inl more ↦
            let (eps, found, collected) =
              collect_endpoint_lem calc_node_id any_ep (count - length targets) targets t w own in
            let lt : length targets < count = ltb→lt _ _ more in
            rw (more, found)
              (
                ask any_ep (targets ++ eps),
                eps,
                refl,
                ask-Asks any_ep (targets ++ eps),
                omega (arith, length-append targets eps, collected.short),
                Collects-Collected calc_node_id (count - length targets) targets t eps (omega arith)
                    collected,
              )
        | inr enough ↦
            let le : count ≤ length targets = not_ltb→le _ _ enough in
            rw enough (
              ask any_ep targets,
              [],
              refl,
              rw append-nil (ask-Asks any_ep targets),
              rw append-nil (unfold request_node_count in (omega arith)),
              let none_missing : count - length targets ≡ 0 = omega arith in rw none_missing refl,
            )
      ]
