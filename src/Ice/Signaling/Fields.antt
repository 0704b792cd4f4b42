-- ===== src/Ice/Signaling/Fields.antt =====
-- A signaling message of src/ss_p2p/ice_agent/ice_message.cpp as its receivers read it, and what the
-- writes of the signaling server do to it.
use Prim.Native.String.{String}
use text.Mathlib.Text.{◌==◌}
use mathlib.Core.List.{append-nil, append_assoc}
use ss_p2p_node_controller.Common.{
  false, ◌≡◌, refl, ◌∙◌, List, [], ◌∷◌, ◌++◌, some, traverse, traverse-append,
}
use ss_p2p_node_controller.Json.{Json, JsonLaws, ℤ}
use ss_p2p_node_controller.Endpoint.{Net, NetLaws, colon}
use ss_p2p_node_controller.Endpoint.RoundTrip.{Lacks}
use ss_p2p_node_controller.Kademlia.Message.{read_endpoint, write_endpoint}
use ss_p2p_node_controller.Kademlia.Message.Laws.{read_endpoint-write_endpoint}
use ss_p2p_node_controller.Ice.Message.{
  set_sub_protocol, get_ttl, get_dest_endpoint, get_src_endpoint, get_endpoint, add_relay_endpoint,
}
use ss_p2p_node_controller.Ice.Signaling.{add_relay_endpoints}

module _ {J E A : Type 0} (json : Json J) (net : Net E A) where
  -- A signaling message as its receivers read it. The relay endpoints are an array of texts.
  pub record Reads (body : J) (dest_ep src_ep : E) (relay_eps : List E) (ttl : ℤ) : Type 0 where
    pub dest : get_dest_endpoint json net body ≡ some dest_ep
    pub src : get_src_endpoint json net body ≡ some src_ep
    pub texts : List J
    pub field : json.at "relay_eps" body ≡ json.array texts
    pub relays : traverse (read_endpoint json net) texts ≡ some relay_eps
    pub time : get_ttl json body ≡ some ttl

  -- What is left alone when the relay endpoints are written.
  abbrev pub Keeps : J → J → Type 0
  Keeps body body' = (k : String) → ("relay_eps" == k) ≡ false → json.at k body' ≡ json.at k body

module _ {J E A : Type 0} (json : Json J) (laws : JsonLaws json) (net : Net E A)
    (net_laws : NetLaws net) where
  -- Writing a field that no reader of a signaling message looks at.
  pub set_sub_protocol-Reads :
      (p : ℤ) (body : J) (dest_ep src_ep : E) (relay_eps : List E) (ttl : ℤ)
      → Reads json net body dest_ep src_ep relay_eps ttl
      → Reads json net (set_sub_protocol json p body) dest_ep src_ep relay_eps ttl
  unfolding set_sub_protocol get_dest_endpoint get_src_endpoint get_endpoint get_ttl
  set_sub_protocol-Reads p body dest_ep src_ep relay_eps ttl r =
      let other = λ (k : String) (e : ("sub_protocol" == k) ≡ false).
        laws.at-set_ne "sub_protocol" k (json.number p) body e in
      record {
        dest = rw (other "dest_ip" refl, other "dest_port" refl) r.dest;
        src = rw (other "src_ip" refl, other "src_port" refl) r.src;
        texts = r.texts;
        field = rw (other "relay_eps" refl) r.field;
        relays = r.relays;
        time = rw (other "ttl" refl) r.time;
      }

  pub add_relay_endpoint-Reads :
      (ep : E) (body : J) (dest_ep src_ep : E) (relay_eps : List E) (ttl : ℤ)
      → Lacks colon (net.to_string (net.address ep))
      → Reads json net body dest_ep src_ep relay_eps ttl
      → (body' : J) × (add_relay_endpoint json net ep body ≡ some body')
        × Reads json net body' dest_ep src_ep (relay_eps ++ ep ∷ []) ttl
        × Keeps json net body body'
  unfolding add_relay_endpoint get_dest_endpoint get_src_endpoint get_endpoint get_ttl traverse
  add_relay_endpoint-Reads ep body dest_ep src_ep relay_eps ttl lacks r =
      let new = write_endpoint json net ep in
      let more = json.array (r.texts ++ new ∷ []) in
      let keeps : Keeps json net body (json.set "relay_eps" more body) =
        λ k e. laws.at-set_ne "relay_eps" k more body e in
      let last : traverse (read_endpoint json net) (new ∷ []) ≡ some (ep ∷ []) =
        rw (read_endpoint-write_endpoint json laws net net_laws ep lacks) in
      (
        json.set "relay_eps" more body,
        rw (r.field, laws.push_back-array r.texts new),
        record {
          dest = rw (keeps "dest_ip" refl, keeps "dest_port" refl) r.dest;
          src = rw (keeps "src_ip" refl, keeps "src_port" refl) r.src;
          texts = r.texts ++ new ∷ [];
          field = laws.at-set_self "relay_eps" more body;
          relays =
              traverse-append (read_endpoint json net) r.texts (new ∷ []) relay_eps (ep ∷ [])
                r.relays last;
          time = rw (keeps "ttl" refl) r.time;
        },
        keeps,
      )

  pub add_relay_endpoints-Reads :
      (eps : List E) (body : J) (dest_ep src_ep : E) (relay_eps : List E) (ttl : ℤ)
      → ((ep : E) → Lacks colon (net.to_string (net.address ep)))
      → Reads json net body dest_ep src_ep relay_eps ttl
      → (body' : J) × (add_relay_endpoints json net eps body ≡ some body')
        × Reads json net body' dest_ep src_ep (relay_eps ++ eps) ttl
        × Keeps json net body body'
  unfolding add_relay_endpoints
  add_relay_endpoints-Reads [] body dest_ep src_ep relay_eps ttl lacks r =
      (body, refl, rw append-nil r, λ k e. refl)
  add_relay_endpoints-Reads (ep ∷ eps) body dest_ep src_ep relay_eps ttl lacks r =
      let (next, added, reads, keeps) =
        add_relay_endpoint-Reads ep body dest_ep src_ep relay_eps ttl (lacks ep) r in
      let (end, all, reads', keeps') =
        add_relay_endpoints-Reads eps next dest_ep src_ep (relay_eps ++ ep ∷ []) ttl lacks reads in
      (
        end,
        rw (added) all,
        rw (← append_assoc relay_eps (ep ∷ []) eps) reads',
        λ k e. keeps' k e ∙ keeps k e,
      )
