-- ===== src/Ice/Signaling/Round.antt =====
-- The way of a signaling request of src/ss_p2p/ice_agent through other nodes and back.
use Prim.Native.String.{String}
use text.Mathlib.Text.{◌==◌}
use ss_p2p_node_controller.Common.{
  ℕ, false, if_pos, ◌≡◌, ◌≢◌, refl, ◌∙◌, List, [], ◌∷◌, map, some, traverse,
}
use ss_p2p_node_controller.Json.{Json, JsonLaws}
use ss_p2p_node_controller.Endpoint.{Net, NetLaws, colon}
use ss_p2p_node_controller.Endpoint.RoundTrip.{Lacks}
use ss_p2p_node_controller.Kademlia.NodeId.{NodeId}
use ss_p2p_node_controller.Kademlia.RoutingTable.{RoutingTable}
use ss_p2p_node_controller.Observers.Base.{Ids, IdsLaws, set_observer_id, get_observer_id}
use ss_p2p_node_controller.Ice.Message.{
  ice_packet, new_ice_message, set_protocol, set_sub_protocol, request_code, response_code,
  default_ttl, get_ttl, to_int, set_dest_endpoint, set_src_endpoint, set_endpoint,
}
use ss_p2p_node_controller.Ice.Message.Laws.{
  get_dest_endpoint-set_dest_endpoint, get_sub_protocol-set_sub_protocol,
}
use ss_p2p_node_controller.Ice.Signaling.{
  Signals, SignalingRequest, cached_packet, request_message, answer, with_response, income_message,
  income_response,
}
use ss_p2p_node_controller.Ice.Signaling.Fields.{Reads}
use ss_p2p_node_controller.Ice.Signaling.Relay.{gives, income_message-Reads}

module _ {J E A : Type 0} (json : Json J) (net : Net E A) {I : Type 0} (eq_ep : Discrete E)
    (eq_id : Discrete I) (calc_node_id : E → NodeId) where
  -- A message arrives from the first one over any number of nodes, none of which is its destination.
  pub data Travels (dest_ep : E) (first : J) : J → Type 0 where
    starts : Travels dest_ep first first
    hops :
        (body body' : J) (self_ep : E) (id : I) (now : ℕ) (t : RoutingTable E)
        (s s' : Signals J E I) (ep : E) (eps : List E)
        → dest_ep ≢ self_ep
        → income_message json net eq_ep eq_id calc_node_id self_ep id now body t s
          ≡ gives s' (map (ice_packet body') (ep ∷ eps))
        → Travels dest_ep first body
        → Travels dest_ep first body'

module _ {J E A I : Type 0} (json : Json J) (laws : JsonLaws json) (net : Net E A)
    (net_laws : NetLaws net) (lacks : (ep : E) → Lacks colon (net.to_string (net.address ep)))
    (ids : Ids I) (ids_laws : IdsLaws ids) (eq_ep : Discrete E) (eq_id : Discrete I)
    (calc_node_id : E → NodeId) where
  -- What every message on the way still says.
  abbrev Says : I → E → E → J → Type 0
  Says id dest_ep src_ep body =
      (relay_eps : List E) × Reads json net body dest_ep src_ep relay_eps default_ttl
      × (json.at "observer_id" body ≡ json.text (ids.id_to_str id))

  -- A field that the last steps of a request do not write.
  passes :
      (k : String) (dest_ep src_ep : E) (body : J)
      → ("sub_protocol" == k) ≡ false
      → ("dest_ip" == k) ≡ false
      → ("dest_port" == k) ≡ false
      → ("src_ip" == k) ≡ false
      → ("src_port" == k) ≡ false
      → json.at k (
          set_src_endpoint json net src_ep
            (set_dest_endpoint json net dest_ep (set_sub_protocol json request_code body)))
        ≡ json.at k body
  unfolding set_src_endpoint set_dest_endpoint set_endpoint set_sub_protocol
  passes k dest_ep src_ep body a b c d e = rw (
    laws.at-set_ne "src_port" k _ _ e,
    laws.at-set_ne "src_ip" k _ _ d,
    laws.at-set_ne "dest_port" k _ _ c,
    laws.at-set_ne "dest_ip" k _ _ b,
    laws.at-set_ne "sub_protocol" k _ body a,
  )

  pub request_message-Says :
      (id : I) (dest_ep glob_self_ep : E)
      → Says id dest_ep glob_self_ep
          (request_message json net ids calc_node_id glob_self_ep id dest_ep)
  unfolding request_message new_ice_message set_protocol set_observer_id set_sub_protocol get_ttl
      to_int traverse
  request_message-Says id dest_ep glob_self_ep =
      let word = json.set "protocol" (json.word "signaling") json.null in
      let relays = json.set "relay_eps" (json.array []) word in
      let start = json.set "ttl" (json.number default_ttl) relays in
      let named = json.set "observer_id" (json.text (ids.id_to_str id)) start in
      let typed = json.set "sub_protocol" (json.number request_code) named in
      let (_, src, _, keeps) =
        get_dest_endpoint-set_dest_endpoint json laws net net_laws glob_self_ep
          (set_dest_endpoint json net dest_ep typed) in
      let (dest, _, _, _) =
        get_dest_endpoint-set_dest_endpoint json laws net net_laws dest_ep typed in
      (
        [],
        record {
          dest = keeps ∙ dest;
          src = src;
          texts = [];
          field =
              passes "relay_eps" dest_ep glob_self_ep named refl refl refl refl refl
              ∙ laws.at-set_ne "observer_id" "relay_eps" _ start refl
              ∙ laws.at-set_ne "ttl" "relay_eps" _ relays refl
              ∙ laws.at-set_self "relay_eps" (json.array []) word;
          relays = refl;
          time = rw (
            passes "ttl" dest_ep glob_self_ep named refl refl refl refl refl,
            laws.at-set_ne "observer_id" "ttl" _ start refl,
            laws.at-set_self "ttl" (json.number default_ttl) relays,
            laws.get_number-number default_ttl,
          );
        },
        passes "observer_id" dest_ep glob_self_ep named refl refl refl refl refl
            ∙ laws.at-set_self "observer_id" _ start,
      )

  Travels-Says :
      (id : I) (dest_ep src_ep : E) (first body : J)
      → Travels json net eq_ep eq_id calc_node_id dest_ep first body
      → Says id dest_ep src_ep first
      → Says id dest_ep src_ep body
  Travels-Says id dest_ep src_ep first body starts says = says
  Travels-Says id dest_ep src_ep first last
        (hops body body' self_ep id' now t s s' ep eps away ran before) says =
      let (relay_eps, reads, named) = Travels-Says id dest_ep src_ep first body before says in
      let (relay_eps', reads', same) =
        income_message-Reads json laws net net_laws lacks eq_ep eq_id calc_node_id self_ep id' now
          body body' t s s' dest_ep src_ep relay_eps default_ttl ep eps reads away ran in
      (relay_eps', reads', same ∙ named)

  -- On a network whose addresses are written without a colon, a request for a destination that reaches
  -- it, over any number of nodes with whatever routing tables, is answered with one packet to the node
  -- that asked. The answer carries the observer id of the request, and the observer of the request, as
  -- long as it is not done, meets it by sending its cached packet.
  pub income_message-round :
      (id id' : I) (now : ℕ) (dest_ep src_ep : E) (body : J) (t : RoutingTable E)
      (s : Signals J E I) (o : SignalingRequest J E I)
      → Travels json net eq_ep eq_id calc_node_id dest_ep
          (request_message json net ids calc_node_id src_ep id dest_ep)
          body
      → o.done ≡ false
      → (reply : J) × (income_message json net eq_ep eq_id calc_node_id dest_ep id' now body t s
          ≡ gives (with_response eq_id id' now s) (ice_packet reply src_ep ∷ []))
        × (get_observer_id json ids reply ≡ some id)
        × (income_response json net eq_ep src_ep reply o ≡ some (cached_packet o.msg_cache ∷ []))
  unfolding income_message answer get_observer_id income_response
  income_message-round id id' now dest_ep src_ep body t s o way waiting =
      let (relay_eps, reads, named) =
        Travels-Says id dest_ep src_ep _ body way (request_message-Says id dest_ep src_ep) in
      let reply = set_sub_protocol json response_code body in
      let same : json.at "observer_id" reply ≡ json.at "observer_id" body =
        unfold set_sub_protocol in (laws.at-set_ne "sub_protocol" "observer_id" _ body refl) in
      (
        reply,
        rw (reads.dest, if_pos (eq_ep dest_ep dest_ep) refl _ _, reads.src),
        rw (same, named, laws.get_text-text (ids.id_to_str id), ids_laws.str_to_id-id_to_str id),
        rw (waiting, get_sub_protocol-set_sub_protocol json laws response_code body),
      )
