-- ===== src/Kademlia/Message.antt =====
-- k_message of src/ss_p2p/kademlia/k_message.cpp, a JSON object with the fields of a remote call.
pub mod Laws
use Prim.Native.String.{String}
use ss_p2p_node_controller.Common.{
  Bool, true, false, if◌then◌else◌, List, map, Option, none, some, ◌>>=◌, traverse,
}
use ss_p2p_node_controller.Json.{Json}
use ss_p2p_node_controller.Endpoint.{Net, str_to_endpoint, endpoint_to_str}

pub data Rpc : Type 0 where
  ping find_node none_rpc : Rpc

pub data MessageType : Type 0 where
  request response : MessageType

abbrev pub rpc_word : Rpc → String
rpc_word ping = "ping"
rpc_word find_node = "find_node"
rpc_word none_rpc = "none"

module _ {J : Type 0} (json : Json J) where
  unfoldable pub set_rpc : Rpc → J → J
  set_rpc r body = json.set "rpc" (json.word (rpc_word r)) body

  -- operator[] of a const value: a key that is missing is undefined behaviour, which is `none`.
  unfoldable pub at_const : String → J → Option J
  at_const key body = if json.contains key body then some (json.at key body) else none

  -- `none` of the enumeration is never the answer.
  unfoldable pub get_rpc : J → Option Rpc
  unfolding at_const
  get_rpc body = do
    rpc ← at_const "rpc" body
    some (if json.is_word rpc "ping" then ping else find_node)

  unfoldable pub get_message_type : J → Option MessageType
  unfolding at_const
  get_message_type body = do
    type ← at_const "type" body
    some (if json.is_word type "request" then request else response)

  unfoldable pub is_request : J → Option Bool
  unfolding at_const
  is_request body = do type ← at_const "type" body; some (json.is_word type "request")

  -- Only that the two fields are there.
  unfoldable pub validate : J → Bool
  validate body = if json.contains "type" body then json.contains "rpc" body else false

  -- The case of a request has no break and falls through to that of a response.
  unfoldable pub set_message_type : MessageType → J → J
  set_message_type request body =
      json.set "type" (json.word "response") (json.set "type" (json.word "request") body)
  set_message_type response body = json.set "type" (json.word "response") body

  -- `_request_` and `_response_`, each with the constructor that it calls.
  unfoldable pub new_request : Rpc → J
  unfolding set_rpc
  new_request r =
      set_rpc r (json.set "rpc" json.empty_object (json.set "type" (json.word "request") json.null))

  unfoldable pub new_response : Rpc → J
  unfolding set_rpc
  new_response r =
      set_rpc r
        (json.set "rpc" json.empty_object (json.set "type" (json.word "response") json.null))

-- Endpoints are sent as arrays of their texts. `none` is an exception.
module _ {J E A : Type 0} (json : Json J) (net : Net E A) where
  unfoldable pub read_endpoint : J → Option E
  unfolding str_to_endpoint
  read_endpoint j = do s ← json.get_text j; str_to_endpoint net s

  unfoldable pub write_endpoint : E → J
  unfolding endpoint_to_str
  write_endpoint ep = json.text (endpoint_to_str net ep)

  unfoldable pub get_ignore_endpoint : J → Option (List E)
  unfolding read_endpoint traverse
  get_ignore_endpoint body = do
    eps ← json.get_array (json.at "ignore_eps" body)
    traverse read_endpoint eps

  unfoldable pub set_ignore_endpoint : List E → J → J
  unfolding write_endpoint
  set_ignore_endpoint eps body = json.set "ignore_eps" (json.array (map write_endpoint eps)) body

  unfoldable pub get_finded_endpoint : J → Option (List E)
  unfolding read_endpoint traverse
  get_finded_endpoint body = do
    eps ← json.get_array (json.at "finded_eps" body)
    traverse read_endpoint eps

  unfoldable pub set_finded_endpoint : List E → J → J
  unfolding write_endpoint
  set_finded_endpoint eps body = json.set "finded_eps" (json.array (map write_endpoint eps)) body
