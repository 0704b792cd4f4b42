-- ===== src/Ice/Message.antt =====
-- ice_message of src/ss_p2p/ice_agent/ice_message.cpp, a JSON object, with its controllers for stun
-- and signaling messages. An exception is `none`, and so is the undefined behaviour of reading a
-- field that is not there through a constant object.
pub mod Laws
use Prim.Native.String.{String}
use ss_p2p_node_controller.Common.{
  ℕ, zero, suc, ◌-◌, ◌%◌, ◌^◌, Bool, true, false, if◌then◌else◌, ltb, ◌==◌, List, [], Option, none,
  some, ◌>>=◌, traverse,
}
use ss_p2p_node_controller.Json.{Json, ℤ, pos, negsuc, pred}
use ss_p2p_node_controller.Endpoint.{Net, to_short, addr_pair_to_endpoint}
use ss_p2p_node_controller.Kademlia.Message.{read_endpoint, write_endpoint}

pub data Protocol : Type 0 where
  signaling stun none_protocol : Protocol

pub record IceMessage (J : Type 0) : Type 0 where
  pub body : J
  pub protocol : Protocol

-- The values of the enumerations of sub-protocols.
abbrev pub binding_request_code : ℤ
binding_request_code = pos 0

abbrev pub binding_response_code : ℤ
binding_response_code = pos 1

abbrev pub request_code : ℤ
request_code = pos 0

abbrev pub response_code : ℤ
response_code = pos 1

abbrev pub relay_code : ℤ
relay_code = pos 2

abbrev pub is_number : ℤ → ℤ → Bool
is_number (pos m) (pos n) = m == n
is_number (negsuc m) (negsuc n) = m == n
is_number (pos m) (negsuc n) = false
is_number (negsuc m) (pos n) = false

-- A packet for one endpoint: a payload under the name of a parameter.
pub record Packet (J E : Type 0) : Type 0 where
  pub dest : E
  pub param : String
  pub payload : J

-- What ice_sender sends.
abbrev pub ice_packet : {J E : Type 0} → J → E → Packet J E
ice_packet body ep = record { dest = ep; param = "ice_agent"; payload = body }

abbrev pub protocol_word : Protocol → String
protocol_word signaling = "signaling"
protocol_word stun = "stun"
protocol_word none_protocol = "none"

-- The conversion to an `int` of 32 bits.
abbrev int_of_bits : ℕ → ℤ
int_of_bits m = if ltb m (2 ^ 31) then pos m else negsuc (2 ^ 32 - 1 - m)

unfoldable pub to_int : ℤ → ℤ
to_int (pos n) = int_of_bits (n % 2 ^ 32)
to_int (negsuc n) = int_of_bits (2 ^ 32 - 1 - n % 2 ^ 32)

abbrev pub is_min : ℤ → Bool
is_min (pos n) = false
is_min (negsuc n) = n == 2 ^ 31 - 1

abbrev pub default_ttl : ℤ
default_ttl = pos 5

module _ {J : Type 0} (json : Json J) where
  unfoldable pub set_protocol : Protocol → J → IceMessage J
  set_protocol p body = record {
    body = json.set "protocol" (json.word (protocol_word p)) body;
    protocol = p;
  }

  -- The constructor of a message of this node.
  unfoldable pub new_ice_message : Protocol → IceMessage J
  unfolding set_protocol
  new_ice_message p =
      let msg = set_protocol p json.null in
      record msg {
        body =
            json.set "ttl" (json.number default_ttl)
              (json.set "relay_eps" (json.array []) msg.body);
      }

  -- The constructor from a message that was received.
  unfoldable pub from_json : J → IceMessage J
  from_json from =
      let word = json.at "protocol" from in
      record {
        body = from;
        protocol =
            if json.is_word word "signaling"
            then signaling
            else if json.is_word word "stun"
            then stun
            else none_protocol;
      }

  unfoldable pub set_sub_protocol : ℤ → J → J
  set_sub_protocol p body = json.set "sub_protocol" (json.number p) body

  unfoldable pub get_sub_protocol : J → Option ℤ
  get_sub_protocol body = json.get_number (json.at "sub_protocol" body)

  unfoldable pub get_ttl : J → Option ℤ
  unfolding to_int
  get_ttl body = do n ← json.get_number (json.at "ttl" body); some (to_int n)

  -- The subtraction overflows on the least `int`.
  unfoldable pub decrement_ttl : J → Option J
  unfolding get_ttl
  decrement_ttl body = do
    n ← get_ttl body
    if is_min n then none else some (json.set "ttl" (json.number (pred n)) body)

module _ {J E A : Type 0} (json : Json J) (net : Net E A) where
  -- The setters and getters of an endpoint in two fields.
  unfoldable pub set_endpoint : String → String → E → J → J
  set_endpoint ip_key port_key ep body =
      json.set port_key (json.number (pos (net.port ep)))
        (json.set ip_key (json.text (net.to_string (net.address ep))) body)

  unfoldable pub get_endpoint : String → String → J → Option E
  unfolding addr_pair_to_endpoint to_short
  get_endpoint ip_key port_key body = do
    ip ← json.get_text (json.at ip_key body)
    port ← json.get_number (json.at port_key body)
    addr_pair_to_endpoint net ip (to_short port)

  unfoldable pub set_global_ep : E → J → J
  unfolding set_endpoint
  set_global_ep ep body = set_endpoint "global_ip" "global_port" ep body

  unfoldable pub get_global_ep : J → Option E
  unfolding get_endpoint
  get_global_ep body = get_endpoint "global_ip" "global_port" body

  unfoldable pub set_dest_endpoint : E → J → J
  unfolding set_endpoint
  set_dest_endpoint ep body = set_endpoint "dest_ip" "dest_port" ep body

  unfoldable pub get_dest_endpoint : J → Option E
  unfolding get_endpoint
  get_dest_endpoint body = get_endpoint "dest_ip" "dest_port" body

  unfoldable pub set_src_endpoint : E → J → J
  unfolding set_endpoint
  set_src_endpoint ep body = set_endpoint "src_ip" "src_port" ep body

  unfoldable pub get_src_endpoint : J → Option E
  unfolding get_endpoint
  get_src_endpoint body = get_endpoint "src_ip" "src_port" body

  unfoldable pub add_relay_endpoint : E → J → Option J
  unfolding write_endpoint
  add_relay_endpoint ep body = do
    eps ← json.push_back (json.at "relay_eps" body) (write_endpoint json net ep)
    some (json.set "relay_eps" eps body)

  unfoldable pub get_relay_endpoints : J → Option (List E)
  unfolding read_endpoint
  get_relay_endpoints body = do
    eps ← json.elements (json.at "relay_eps" body)
    traverse (read_endpoint json net) eps
