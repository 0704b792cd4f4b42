-- ===== src/Kademlia/Message/Laws.antt =====
-- Which fields of a k_message of src/ss_p2p/kademlia/k_message.cpp its operations write and read.
use Prim.Native.String.{String}
use text.Mathlib.Text.{◌==◌}
use ss_p2p_node_controller.Common.{
  ap, if◌then◌else◌, true, false, ◌∙◌, ◌≡◌, refl, List, map, Mem, some, traverse-map,
}
use ss_p2p_node_controller.Json.{Json, JsonLaws}
use ss_p2p_node_controller.Endpoint.{Net, NetLaws, colon}
use ss_p2p_node_controller.Endpoint.RoundTrip.{Lacks, str_to_endpoint-endpoint_to_str}
use ss_p2p_node_controller.Kademlia.Message.{
  Rpc, ping, find_node, none_rpc, MessageType, request, response, set_rpc, get_rpc,
  get_message_type, set_message_type, new_request, new_response, rpc_word, read_endpoint,
  write_endpoint, get_ignore_endpoint, set_ignore_endpoint, get_finded_endpoint,
  set_finded_endpoint, is_request, validate, at_const,
}

-- What get_rpc makes of a remote call that was written.
abbrev pub read_rpc : Rpc → Rpc
read_rpc ping = ping
read_rpc find_node = find_node
read_rpc none_rpc = find_node

module _ {J : Type 0} (json : Json J) (laws : JsonLaws json) where
  is_ping :
      (r : Rpc)
      → (if json.is_word (json.word (rpc_word r)) "ping" then ping else find_node) ≡ read_rpc r
  is_ping ping = rw (laws.is_word_self "ping")
  is_ping find_node = rw (laws.is_word_ne "find_node" "ping" refl)
  is_ping none_rpc = rw (laws.is_word_ne "none" "ping" refl)

  -- A key that was set last is read, and another key reads as before.
  pub at_const-set_self : (k : String) (v body : J) → at_const json k (json.set k v body) ≡ some v
  unfolding at_const
  at_const-set_self k v body = rw (laws.contains-set_self k v body, laws.at-set_self k v body) refl

  pub at_const-set_ne :
      (k k' : String) (v body : J)
      → (k == k') ≡ false
      → at_const json k' (json.set k v body) ≡ at_const json k' body
  unfolding at_const
  at_const-set_ne k k' v body h =
      rw (laws.contains-set_ne k k' v body h, laws.at-set_ne k k' v body h) refl

  get_rpc-set_rpc : (r : Rpc) (body : J) → get_rpc json (set_rpc json r body) ≡ some (read_rpc r)
  unfolding get_rpc set_rpc
  get_rpc-set_rpc r body =
      rw (at_const-set_self "rpc" (json.word (rpc_word r)) body) (ap some (is_ping r))

  pub get_message_type-set_response :
      (body : J)
      → get_message_type json (json.set "type" (json.word "response") body) ≡ some response
  unfolding get_message_type
  get_message_type-set_response body = rw (
    at_const-set_self "type" (json.word "response") body,
    laws.is_word_ne "response" "request" refl,
  )

  -- Setting another key leaves the remote call and the type as they were.
  pub get_rpc-set_ne :
      (k : String) (v body : J)
      → (k == "rpc") ≡ false
      → get_rpc json (json.set k v body) ≡ get_rpc json body
  unfolding get_rpc
  get_rpc-set_ne k v body h = rw (at_const-set_ne k "rpc" v body h) refl

  pub get_message_type-set_ne :
      (k : String) (v body : J)
      → (k == "type") ≡ false
      → get_message_type json (json.set k v body) ≡ get_message_type json body
  unfolding get_message_type
  get_message_type-set_ne k v body h = rw (at_const-set_ne k "type" v body h) refl

  type_of :
      (t v : J)
      → at_const json "type"
          (json.set "rpc" v (json.set "rpc" json.empty_object (json.set "type" t json.null)))
        ≡ some t
  type_of t v =
      at_const-set_ne "rpc" "type" v _ refl
      ∙ at_const-set_ne "rpc" "type" json.empty_object _ refl
      ∙ at_const-set_self "type" t json.null

  -- A message made by _request_ is read as a request and one made by _response_ as a response, and
  -- both give back the remote call that they were made with, except that `none` comes back as
  -- find_node.
  pub get_rpc-new_request :
      (r : Rpc)
      → (get_message_type json (new_request json r) ≡ some request)
        × (get_message_type json (new_response json r) ≡ some response)
        × (get_rpc json (new_request json r) ≡ some (read_rpc r))
        × (get_rpc json (new_response json r) ≡ some (read_rpc r))
  unfolding new_request new_response get_message_type set_rpc
  get_rpc-new_request r = (
    rw (type_of (json.word "request") (json.word (rpc_word r)), laws.is_word_self "request"),
    rw (
      type_of (json.word "response") (json.word (rpc_word r)),
      laws.is_word_ne "response" "request" refl,
    ),
    unfold set_rpc in (get_rpc-set_rpc r _),
    unfold set_rpc in (get_rpc-set_rpc r _),
  )

  -- What _request_ and _response_ make is a valid message, and is_request tells them apart.
  validate-new_request :
      (r : Rpc)
      → (validate json (new_request json r) ≡ true)
        × (validate json (new_response json r) ≡ true)
        × (is_request json (new_request json r) ≡ some true)
        × (is_request json (new_response json r) ≡ some false)
  unfolding new_request new_response validate is_request set_rpc
  validate-new_request r = (
    rw (typed (json.word "request") (json.word (rpc_word r)), laws.contains-set_self),
    rw (typed (json.word "response") (json.word (rpc_word r)), laws.contains-set_self),
    rw (
      is_request,
      set_rpc,
      type_of (json.word "request") (json.word (rpc_word r)),
      laws.is_word_self "request",
    ),
    rw (
      is_request,
      set_rpc,
      type_of (json.word "response") (json.word (rpc_word r)),
      laws.is_word_ne "response" "request" refl,
    ),
  )
    where
      typed :
          (t v : J)
          → json.contains "type"
              (json.set "rpc" v (json.set "rpc" json.empty_object (json.set "type" t json.null)))
            ≡ true
      typed t v =
          laws.contains-set_ne "rpc" "type" v _ refl
          ∙ laws.contains-set_ne "rpc" "type" json.empty_object _ refl
          ∙ laws.contains-set_self "type" t json.null

  -- Whatever type it is given, set_message_type leaves a response behind: the case of a request
  -- falls through.
  pub set_message_type-response :
      (mt : MessageType) (body : J)
      → get_message_type json (set_message_type json mt body) ≡ some response
  unfolding set_message_type
  set_message_type-response request body = get_message_type-set_response _
  set_message_type-response response body = get_message_type-set_response body

module _ {J E A : Type 0} (json : Json J) (laws : JsonLaws json) (net : Net E A)
    (net_laws : NetLaws net) where
  pub read_endpoint-write_endpoint :
      (ep : E)
      → Lacks colon (net.to_string (net.address ep))
      → read_endpoint json net (write_endpoint json net ep) ≡ some ep
  unfolding read_endpoint write_endpoint
  read_endpoint-write_endpoint ep lacks =
      rw (laws.get_text-text _) (str_to_endpoint-endpoint_to_str net net_laws ep lacks)

  -- Endpoints whose addresses are written without a colon come back, in order, from the list of the
  -- ignored and from the list of the found endpoints of a find_node message, and writing one list
  -- leaves the other alone.
  pub get_ignore_endpoint-set_ignore_endpoint :
      (eps : List E) (body : J)
      → ((ep : E) → Mem ep eps → Lacks colon (net.to_string (net.address ep)))
      → (get_ignore_endpoint json net (set_ignore_endpoint json net eps body) ≡ some eps)
        × (get_finded_endpoint json net (set_finded_endpoint json net eps body) ≡ some eps)
        × (get_finded_endpoint json net (set_ignore_endpoint json net eps body)
            ≡ get_finded_endpoint json net body)
        × (get_ignore_endpoint json net (set_finded_endpoint json net eps body)
            ≡ get_ignore_endpoint json net body)
  unfolding get_ignore_endpoint set_ignore_endpoint get_finded_endpoint set_finded_endpoint
  get_ignore_endpoint-set_ignore_endpoint eps body lacks =
      let read =
        traverse-map (read_endpoint json net) (write_endpoint json net) eps
          (λ ep m. read_endpoint-write_endpoint ep (lacks ep m)) in
      (
        rw
            (
              laws.at-set_self "ignore_eps" _ body,
              laws.get_array-array (map (write_endpoint json net) eps),
            )
            read,
        rw
            (
              laws.at-set_self "finded_eps" _ body,
              laws.get_array-array (map (write_endpoint json net) eps),
            )
            read,
        rw (laws.at-set_ne "ignore_eps" "finded_eps" _ body refl),
        rw (laws.at-set_ne "finded_eps" "ignore_eps" _ body refl),
      )
