-- ===== src/Ice/Message/Laws.antt =====
-- What the fields of an ice_message of src/ss_p2p/ice_agent/ice_message.cpp keep.
use Prim.Native.String.{String}
use text.Mathlib.Text.{◌==◌}
use ss_p2p_node_controller.Common.{
  false, if◌then◌else◌, ◌%◌, ◌≡◌, refl, List, [], ◌∷◌, ◌++◌, some, traverse, traverse-append, arith,
}
use ss_p2p_node_controller.Json.{Json, JsonLaws, ℤ}
use ss_p2p_node_controller.Endpoint.{Net, NetLaws, colon, to_short, addr_pair_to_endpoint}
use ss_p2p_node_controller.Endpoint.RoundTrip.{Lacks}
use ss_p2p_node_controller.Kademlia.Message.{read_endpoint, write_endpoint}
use ss_p2p_node_controller.Kademlia.Message.Laws.{read_endpoint-write_endpoint}
use ss_p2p_node_controller.Ice.Message.{
  Protocol, signaling, stun, none_protocol, protocol_word, set_protocol, new_ice_message, from_json,
  default_ttl, get_ttl, set_sub_protocol, get_sub_protocol, to_int, set_endpoint, get_endpoint,
  set_global_ep, get_global_ep, set_dest_endpoint, get_dest_endpoint, set_src_endpoint,
  get_src_endpoint, add_relay_endpoint, get_relay_endpoints,
}

module _ {J : Type 0} (json : Json J) (laws : JsonLaws json) where
  pub get_sub_protocol-set_sub_protocol :
      (p : ℤ) (body : J) → get_sub_protocol json (set_sub_protocol json p body) ≡ some p
  unfolding get_sub_protocol set_sub_protocol
  get_sub_protocol-set_sub_protocol p body =
      rw (get_sub_protocol, set_sub_protocol, laws.at-set_self "sub_protocol" (json.number p) body)
        (laws.get_number-number p)

  read_protocol :
      (p : Protocol)
      → (if json.is_word (json.word (protocol_word p)) "signaling"
          then signaling
          else if json.is_word (json.word (protocol_word p)) "stun"
          then stun
          else none_protocol)
        ≡ p
  read_protocol signaling = rw (laws.is_word_self "signaling")
  read_protocol stun = rw (laws.is_word_ne "stun" "signaling" refl, laws.is_word_self "stun")
  read_protocol none_protocol =
      rw (laws.is_word_ne "none" "signaling" refl, laws.is_word_ne "none" "stun" refl)

module _ {J E A : Type 0} (json : Json J) (laws : JsonLaws json) (net : Net E A) where
  -- A message that this node makes is read by its receiver as a message of the same protocol, with
  -- five hops to live and no relay endpoints.
  pub from_json-new_ice_message :
      (p : Protocol)
      → (from_json json (new_ice_message json p).body ≡ new_ice_message json p)
        × (get_ttl json (new_ice_message json p).body ≡ some default_ttl)
        × (get_relay_endpoints json net (new_ice_message json p).body ≡ some [])
  unfolding from_json new_ice_message set_protocol get_ttl to_int get_relay_endpoints traverse
  from_json-new_ice_message p =
      let word = json.word (protocol_word p) in
      let start = json.set "protocol" word json.null in
      let relays = json.set "relay_eps" (json.array []) start in
      (
        rw (
          laws.at-set_ne "ttl" "protocol" (json.number default_ttl) relays refl,
          laws.at-set_ne "relay_eps" "protocol" (json.array []) start refl,
          laws.at-set_self "protocol" word json.null,
          read_protocol json laws p,
        ),
        rw (
          laws.at-set_self "ttl" (json.number default_ttl) relays,
          laws.get_number-number default_ttl,
        ),
        rw (
          laws.at-set_ne "ttl" "relay_eps" (json.number default_ttl) relays refl,
          laws.at-set_self "relay_eps" (json.array []) start,
          laws.elements-array [],
        ),
      )

module _ {J E A : Type 0} (json : Json J) (laws : JsonLaws json) (net : Net E A)
    (net_laws : NetLaws net) where
  get_endpoint-set_endpoint :
      (ip_key port_key : String) (ep : E) (body : J)
      → (port_key == ip_key) ≡ false
      → get_endpoint json net ip_key port_key (set_endpoint json net ip_key port_key ep body)
        ≡ some ep
  unfolding get_endpoint set_endpoint addr_pair_to_endpoint to_short
  get_endpoint-set_endpoint ip_key port_key ep body ne =
      let same : net.port ep % 65536 ≡ net.port ep = omega (arith, net_laws.port-lt ep) in
      rw (
        laws.at-set_ne port_key ip_key _ _ ne,
        laws.at-set_self ip_key _ body,
        laws.get_text-text (net.to_string (net.address ep)),
        laws.at-set_self port_key _ _,
        laws.get_number-number _,
        net_laws.from_string-to_string (net.address ep),
        same,
        net_laws.endpoint-eta ep,
      )

  get_endpoint-set_ne :
      (ip_key port_key ip_key' port_key' : String) (ep : E) (body : J)
      → (ip_key == ip_key') ≡ false
      → (ip_key == port_key') ≡ false
      → (port_key == ip_key') ≡ false
      → (port_key == port_key') ≡ false
      → get_endpoint json net ip_key' port_key' (set_endpoint json net ip_key port_key ep body)
        ≡ get_endpoint json net ip_key' port_key' body
  unfolding get_endpoint set_endpoint
  get_endpoint-set_ne ip_key port_key ip_key' port_key' ep body a b c d = rw (
    laws.at-set_ne port_key ip_key' _ _ c,
    laws.at-set_ne ip_key ip_key' _ body a,
    laws.at-set_ne port_key port_key' _ _ d,
    laws.at-set_ne ip_key port_key' _ body b,
  )

  -- The destination, source and global endpoints that are written into a message come back from it,
  -- whatever their addresses are written with, and setting the source leaves the destination alone.
  pub get_dest_endpoint-set_dest_endpoint :
      (ep : E) (body : J)
      → (get_dest_endpoint json net (set_dest_endpoint json net ep body) ≡ some ep)
        × (get_src_endpoint json net (set_src_endpoint json net ep body) ≡ some ep)
        × (get_global_ep json net (set_global_ep json net ep body) ≡ some ep)
        × (get_dest_endpoint json net (set_src_endpoint json net ep body)
            ≡ get_dest_endpoint json net body)
  unfolding get_dest_endpoint set_dest_endpoint get_src_endpoint set_src_endpoint get_global_ep
      set_global_ep
  get_dest_endpoint-set_dest_endpoint ep body = (
    get_endpoint-set_endpoint "dest_ip" "dest_port" ep body refl,
    get_endpoint-set_endpoint "src_ip" "src_port" ep body refl,
    get_endpoint-set_endpoint "global_ip" "global_port" ep body refl,
    get_endpoint-set_ne "src_ip" "src_port" "dest_ip" "dest_port" ep body refl refl refl refl,
  )

  -- On a message whose relay endpoints can be read, add_relay_endpoint puts an endpoint whose address
  -- is written without a colon behind them and leaves the destination and the sub-protocol alone.
  pub add_relay_endpoint_lem :
      (js : List J) (eps : List E) (ep : E) (body : J)
      → json.at "relay_eps" body ≡ json.array js
      → traverse (read_endpoint json net) js ≡ some eps
      → Lacks colon (net.to_string (net.address ep))
      → (body' : J) × (add_relay_endpoint json net ep body ≡ some body')
        × (get_relay_endpoints json net body' ≡ some (eps ++ ep ∷ []))
        × (get_dest_endpoint json net body' ≡ get_dest_endpoint json net body)
        × (get_sub_protocol json body' ≡ get_sub_protocol json body)
  unfolding add_relay_endpoint get_relay_endpoints get_dest_endpoint get_endpoint get_sub_protocol
      traverse
  add_relay_endpoint_lem js eps ep body field readable lacks =
      let more = json.array (js ++ write_endpoint json net ep ∷ []) in
      let last : traverse (read_endpoint json net) (write_endpoint json net ep ∷ [])
          ≡ some (ep ∷ []) =
        rw (read_endpoint-write_endpoint json laws net net_laws ep lacks) in
      (
        json.set "relay_eps" more body,
        rw (field, laws.push_back-array js (write_endpoint json net ep)),
        rw
            (
              laws.at-set_self "relay_eps" more body,
              laws.elements-array (js ++ write_endpoint json net ep ∷ []),
            )
            (traverse-append (read_endpoint json net) js (write_endpoint json net ep ∷ []) eps
              (ep ∷ []) readable last),
        rw (
          laws.at-set_ne "relay_eps" "dest_ip" more body refl,
          laws.at-set_ne "relay_eps" "dest_port" more body refl,
        ),
        rw (get_sub_protocol, laws.at-set_ne "relay_eps" "sub_protocol" more body refl),
      )
