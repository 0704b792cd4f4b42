-- ===== src/Sender.antt =====
-- sender of src/ss_p2p/sender.cpp and include/ss_p2p/sender.hpp: the datagram that a message becomes. The
-- socket is the environment: whether it takes a datagram is an argument. An exception is `none`.
use Prim.Native.String.{String}
use ss_p2p_node_controller.Common.{ℕ, Bool, not, List, Option, some, ◌>>=◌}
use ss_p2p_node_controller.Json.{Json}
use ss_p2p_node_controller.Message.{Bson, new_message, set_param, encode}

-- What is given to the socket.
pub record Datagram (E : Type 0) : Type 0 where
  pub dest_ep : E
  pub bytes : List ℕ

module _ {J E : Type 0} (json : Json J) (bson : Bson J) (app_id : J) where
  -- `async_send` of a message, and of a parameter.
  unfoldable pub async_send_message : E → J → Option (Datagram E)
  unfolding encode
  async_send_message dest_ep msg = do
    enc_msg ← encode bson msg
    some (record { dest_ep = dest_ep; bytes = enc_msg })

  unfoldable pub async_send : E → String → J → Option (Datagram E)
  unfolding new_message set_param encode
  async_send dest_ep param payload = do
    enc_msg ← encode bson (set_param json param payload (new_message json app_id))
    some (record { dest_ep = dest_ep; bytes = enc_msg })

  -- `sync_send` of a message, and of a parameter; `failed` is the error code of the socket.
  unfoldable pub sync_send_message : Bool → E → J → Option (Datagram E × Bool)
  unfolding encode
  sync_send_message failed dest_ep msg = do
    enc_msg ← encode bson msg
    some (record { dest_ep = dest_ep; bytes = enc_msg }, not failed)

  unfoldable pub sync_send : Bool → E → String → J → Option (Datagram E × Bool)
  unfolding new_message set_param encode
  sync_send failed dest_ep param payload = do
    enc_msg ← encode bson (set_param json param payload (new_message json app_id))
    some (record { dest_ep = dest_ep; bytes = enc_msg }, not failed)
