-- ===== src/Ice/Signaling/Relay.antt =====
-- How the signaling server of src/ss_p2p/ice_agent/signaling_server.cpp passes a message on.
use ss_p2p_node_controller.Common.{
  ℕ, ◌≤◌, true, false, if_neg, Bool-cases, Option-cases, inl, inr, ◌≡◌, ◌≢◌, refl, ap, ◌∙◌, List,
  [], ◌∷◌, ◌++◌, map, Mem, length, Option, none, some, arith,
}
use ss_p2p_node_controller.Json.{Json, JsonLaws, ℤ, is_positive}
use ss_p2p_node_controller.Endpoint.{Net, NetLaws, colon}
use ss_p2p_node_controller.Endpoint.RoundTrip.{Lacks}
use ss_p2p_node_controller.Kademlia.NodeId.{NodeId}
use ss_p2p_node_controller.Kademlia.RoutingTable.{RoutingTable}
use ss_p2p_node_controller.Kademlia.RoutingTable.Placement.{IsWellFormed}
use ss_p2p_node_controller.Kademlia.DirectController.{collect_endpoint, is_exist}
use ss_p2p_node_controller.Kademlia.DirectController.Laws.{Owned, Collected, collect_endpoint_lem}
use ss_p2p_node_controller.Ice.Message.{
  Packet, ice_packet, set_sub_protocol, relay_code, add_relay_endpoint, get_relay_endpoints,
}
use ss_p2p_node_controller.Ice.Signaling.{
  Signals, forward, with_relay, income_message, signaling_forward_count,
}
use ss_p2p_node_controller.Ice.Signaling.Fields.{
  Reads, set_sub_protocol-Reads, add_relay_endpoint-Reads, add_relay_endpoints-Reads,
}

-- The result of a handler that does not throw.
module _ {J E I : Type 0} where
  abbrev pub gives : Signals J E I → List (Packet J E) → Option (Signals J E I × List (Packet J E))
  gives s ps = some (s, ps)

  abbrev first_payload : J → Option (Signals J E I × List (Packet J E)) → J
  first_payload d none = d
  first_payload d (some (s, [])) = d
  first_payload d (some (s, p ∷ ps)) = p.payload

  nothing_left : (s : Signals J E I) (ps : List (Packet J E)) → none ≢ gives s ps
  nothing_left s ps e = absurd cc

  nothing_sent :
      (s s' : Signals J E I) (b' : J) (ep : E) (eps : List E)
      → gives s [] ≢ gives s' (map (ice_packet b') (ep ∷ eps))
  nothing_sent s s' b' ep eps e = absurd cc

  payload_eq :
      (s s' : Signals J E I) (b b' : J) (ep : E) (xs eps : List E)
      → gives s (map (ice_packet b) xs) ≡ gives s' (map (ice_packet b') (ep ∷ eps))
      → b ≡ b'
  payload_eq s s' b b' ep [] eps e = absurd (nothing_sent s s' b' ep eps e)
  payload_eq s s' b b' ep (x ∷ xs) eps e = ap (first_payload b) e

module _ {J E A I : Type 0} (json : Json J) (laws : JsonLaws json) (net : Net E A)
    (net_laws : NetLaws net) (lacks : (ep : E) → Lacks colon (net.to_string (net.address ep)))
    (eq_ep : Discrete E) (eq_id : Discrete I) (calc_node_id : E → NodeId) (glob_self_ep : E) where
  -- What this node makes of a message for another node, before it knows where to send it.
  prepare :
      (body : J) (dest_ep src_ep : E) (relay_eps : List E) (ttl : ℤ)
      → Reads json net body dest_ep src_ep relay_eps ttl
      → (relayed : J) × (add_relay_endpoint json net glob_self_ep body ≡ some relayed)
        × Reads json net
            (set_sub_protocol json relay_code relayed)
            dest_ep
            src_ep
            (relay_eps ++ glob_self_ep ∷ [])
            ttl
        × (json.at "observer_id" (set_sub_protocol json relay_code relayed)
            ≡ json.at "observer_id" body)
  prepare body dest_ep src_ep relay_eps ttl r =
      let (relayed, e, reads, keeps) =
        add_relay_endpoint-Reads json laws net net_laws glob_self_ep body dest_ep src_ep relay_eps
          ttl (lacks glob_self_ep) r in
      (
        relayed,
        e,
        set_sub_protocol-Reads json laws net net_laws relay_code relayed dest_ep src_ep _ ttl reads,
        unfold set_sub_protocol in
            (laws.at-set_ne "sub_protocol" "observer_id" (json.number relay_code) relayed refl
              ∙ keeps "observer_id" refl),
      )

  -- On a network whose addresses are written without a colon, a message for a node that is neither
  -- this one nor in the routing table, with hops left to live, goes to at most four nodes of a
  -- well-formed table, each the same message. None of them has the id of a relay endpoint of the
  -- message or of this node, and they are all such nodes of the table if they are fewer than three; the
  -- message that goes out names all of them as relay endpoints, after
  -- those it had and this node; it keeps destination, source and observer id; and its time to live is
  -- the one it came with.
  pub income_message-forwards :
      (id : I) (now : ℕ) (body : J) (t : RoutingTable E) (s : Signals J E I) (dest_ep src_ep : E)
      (relay_eps : List E) (ttl : ℤ)
      → Reads json net body dest_ep src_ep relay_eps ttl
      → dest_ep ≢ glob_self_ep
      → is_exist calc_node_id dest_ep t ≡ false
      → is_positive ttl ≡ true
      → IsWellFormed t
      → Owned calc_node_id t
      → (msg : J) × (targets : List E) × (income_message json net eq_ep eq_id calc_node_id
            glob_self_ep id now body t s
          ≡ some (with_relay eq_id id now s, map (ice_packet msg) targets))
        × (length targets ≤ 4)
        × Collected calc_node_id 3 (relay_eps ++ glob_self_ep ∷ []) t targets
        × ((target ep : E)
            → Mem target targets
            → Mem ep (relay_eps ++ glob_self_ep ∷ [])
            → calc_node_id target ≢ calc_node_id ep)
        × Reads json net msg dest_ep src_ep ((relay_eps ++ glob_self_ep ∷ []) ++ targets) ttl
        × (json.at "observer_id" msg ≡ json.at "observer_id" body)
  unfolding income_message forward get_relay_endpoints
  income_message-forwards id now body t s dest_ep src_ep relay_eps ttl r away unknown alive w own =
      let (relayed, added, reads, same) = prepare body dest_ep src_ep relay_eps ttl r in
      let out = set_sub_protocol json relay_code relayed in
      let seen = relay_eps ++ glob_self_ep ∷ [] in
      let (targets, found, collected) =
        collect_endpoint_lem calc_node_id dest_ep signaling_forward_count seen t w own in
      let (msg, all, reads', keeps) =
        add_relay_endpoints-Reads json laws net net_laws targets out dest_ep src_ep seen ttl lacks
          reads in
      (
        msg,
        targets,
        rw (
          r.dest,
          if_neg (eq_ep dest_ep glob_self_ep) away _ _,
          added,
          unknown,
          reads.field,
          laws.elements-array reads.texts,
          reads.relays,
          reads.time,
          alive,
          found,
          all,
        ),
        omega (arith, collected.short),
        collected,
        collected.apart,
        reads',
        keeps "observer_id" refl ∙ same,
      )

  -- A message for a node of the routing table goes to that node alone.
  pub income_message-known :
      (id : I) (now : ℕ) (body : J) (t : RoutingTable E) (s : Signals J E I) (dest_ep src_ep : E)
      (relay_eps : List E) (ttl : ℤ)
      → Reads json net body dest_ep src_ep relay_eps ttl
      → dest_ep ≢ glob_self_ep
      → is_exist calc_node_id dest_ep t ≡ true
      → (msg : J) × (income_message json net eq_ep eq_id calc_node_id glob_self_ep id now body t s
          ≡ some (with_relay eq_id id now s, ice_packet msg dest_ep ∷ []))
        × Reads json net msg dest_ep src_ep (relay_eps ++ glob_self_ep ∷ []) ttl
        × (json.at "observer_id" msg ≡ json.at "observer_id" body)
  unfolding income_message
  income_message-known id now body t s dest_ep src_ep relay_eps ttl r away known =
      let (relayed, added, reads, same) = prepare body dest_ep src_ep relay_eps ttl r in
      (
        set_sub_protocol json relay_code relayed,
        rw (r.dest, if_neg (eq_ep dest_ep glob_self_ep) away _ _, added, known),
        reads,
        same,
      )

  -- Once its time to live is over, a message for a node that is neither this one nor in the routing
  -- table is dropped: nothing is sent and nothing is stored.
  pub income_message-dropped :
      (id : I) (now : ℕ) (body : J) (t : RoutingTable E) (s : Signals J E I) (dest_ep src_ep : E)
      (relay_eps : List E) (ttl : ℤ)
      → Reads json net body dest_ep src_ep relay_eps ttl
      → dest_ep ≢ glob_self_ep
      → is_exist calc_node_id dest_ep t ≡ false
      → is_positive ttl ≡ false
      → income_message json net eq_ep eq_id calc_node_id glob_self_ep id now body t s ≡ some (s, [])
  unfolding income_message forward get_relay_endpoints
  income_message-dropped id now body t s dest_ep src_ep relay_eps ttl r away unknown over =
      let (relayed, added, reads, same) = prepare body dest_ep src_ep relay_eps ttl r in
      rw (
        r.dest,
        if_neg (eq_ep dest_ep glob_self_ep) away _ _,
        added,
        unknown,
        reads.field,
        laws.elements-array reads.texts,
        reads.relays,
        reads.time,
        over,
      )

  -- Whatever the routing table holds, a message that this node sends on keeps its destination, its
  -- source, its time to live and its observer id.
  pub income_message-Reads :
      (id : I) (now : ℕ) (body body' : J) (t : RoutingTable E) (s s' : Signals J E I)
      (dest_ep src_ep : E) (relay_eps : List E) (ttl : ℤ) (ep : E) (eps : List E)
      → Reads json net body dest_ep src_ep relay_eps ttl
      → dest_ep ≢ glob_self_ep
      → income_message json net eq_ep eq_id calc_node_id glob_self_ep id now body t s
        ≡ gives s' (map (ice_packet body') (ep ∷ eps))
      → (relay_eps' : List E) × Reads json net body' dest_ep src_ep relay_eps' ttl
        × (json.at "observer_id" body' ≡ json.at "observer_id" body)
  unfolding income_message forward get_relay_endpoints
  income_message-Reads id now body body' t s s' dest_ep src_ep relay_eps ttl ep eps r away ran =
      let (relayed, added, reads, same) = prepare body dest_ep src_ep relay_eps ttl r in
      let out = set_sub_protocol json relay_code relayed in
      let seen = relay_eps ++ glob_self_ep ∷ [] in
      let begun = rw (r.dest, if_neg (eq_ep dest_ep glob_self_ep) away _ _, added) at ran in
      elim (Bool-cases (is_exist calc_node_id dest_ep t)) [
        | inl known ↦
            let e : out ≡ body' = payload_eq _ _ _ _ _ (dest_ep ∷ []) _ (rw known at begun) in
            (seen, rw (← e) reads, rw (← e) same)
        | inr unknown ↦ elim (Bool-cases (is_positive ttl)) [
          | inr over ↦ absurd (
              nothing_sent _ _ _ _ _ (
                rw
                  (
                    unknown,
                    reads.field,
                    laws.elements-array reads.texts,
                    reads.relays,
                    reads.time,
                    over,
                  )
                  at begun))
          | inl alive ↦
              let forwarded =
                rw
                  (
                    unknown,
                    reads.field,
                    laws.elements-array reads.texts,
                    reads.relays,
                    reads.time,
                    alive,
                  )
                  at begun in
              elim (Option-cases
                (collect_endpoint calc_node_id dest_ep signaling_forward_count seen t)) [
                  | inl stuck ↦ absurd (nothing_left _ _ (rw stuck at forwarded))
                  | inr (targets, found) ↦
                      let (msg, all, reads', keeps) =
                        add_relay_endpoints-Reads json laws net net_laws targets out dest_ep src_ep
                          seen ttl lacks reads in
                      let e : msg ≡ body' =
                        payload_eq _ _ _ _ _ targets _ (rw (found, all) at forwarded) in
                      (seen ++ targets, rw (← e) reads', rw (← e) (keeps "observer_id" refl ∙ same))
                ]
        ]
      ]
