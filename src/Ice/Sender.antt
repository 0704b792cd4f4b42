-- ===== src/Ice/Sender.antt =====
-- ice_sender of src/ss_p2p/ice_agent/ice_sender.cpp and include/ss_p2p/ice_agent/ice_sender.hpp: the datagram
-- that a packet becomes. What the socket does with it is an argument. An exception is `none`.
use Prim.Native.String.{String}
use mathlib.Core.Option.{some-injective}
use ss_p2p_node_controller.Common.{
  ℕ, Bool, true, false, if◌then◌else◌, ◌≡◌, refl, sym, ap, ◌∙◌, Option, some, ◌>>=◌, bind-some,
}
use ss_p2p_node_controller.Json.{Json, JsonLaws}
use ss_p2p_node_controller.Message.{
  Bson, BsonLaws, new_message, set_param, get_param, is_contain_param, encode, decode,
}
use ss_p2p_node_controller.Sender.{Datagram}

module _ {J E : Type 0} (json : Json J) (bson : Bson J) (app_id : J) where
  unfoldable pub async_send : E → String → J → Option (Datagram E)
  unfolding new_message set_param encode
  async_send dest_ep param payload = do
    enc_msg ← encode bson (set_param json param payload (new_message json app_id))
    some (record { dest_ep = dest_ep; bytes = enc_msg })

  unfoldable pub async_ice_send : E → J → Option (Datagram E)
  unfolding new_message set_param encode
  async_ice_send dest_ep ice_msg = do
    enc_msg ← encode bson (set_param json "ice_agent" ice_msg (new_message json app_id))
    some (record { dest_ep = dest_ep; bytes = enc_msg })

  -- The answer is the number of bytes that the socket took, 0 on an error.
  unfoldable pub sync_send : Bool → ℕ → E → String → J → Option (Datagram E × ℕ)
  unfolding new_message set_param encode
  sync_send failed taken dest_ep param payload = do
    enc_msg ← encode bson (set_param json param payload (new_message json app_id))
    some (record { dest_ep = dest_ep; bytes = enc_msg }, if failed then 0 else taken)

  unfoldable pub sync_ice_send : Bool → ℕ → E → J → Option (Datagram E × ℕ)
  unfolding new_message set_param encode
  sync_ice_send failed taken dest_ep ice_msg = do
    enc_msg ← encode bson (set_param json "ice_agent" ice_msg (new_message json app_id))
    some (record { dest_ep = dest_ep; bytes = enc_msg }, if failed then 0 else taken)

module _ {J E : Type 0} (json : Json J) (laws : JsonLaws json) (bson : Bson J)
    (bson_laws : BsonLaws bson) where
  -- What async_ice_send gives the socket is decoded to a message for the ICE part and not for the Kademlia
  -- part, and the ICE part gets the ice_message.
  decode-async_ice_send :
      (app_id ice_msg : J) (dest_ep : E) (d : Datagram E)
      → async_ice_send json bson app_id dest_ep ice_msg ≡ some d
      → (msg : J) × (decode bson d.bytes ≡ some msg)
        × (d.dest_ep ≡ dest_ep)
        × (is_contain_param json "ice_agent" msg ≡ true)
        × (is_contain_param json "kademlia" msg ≡ false)
        × (get_param json "ice_agent" msg ≡ some ice_msg)
  unfolding async_ice_send encode decode is_contain_param get_param set_param new_message
  decode-async_ice_send app_id ice_msg dest_ep d sent =
      let msg = set_param json "ice_agent" ice_msg (new_message json app_id) in
      let (bytes, encoded, e) = bind-some (bson.to_bson msg) _ _ sent in
      let same : bytes ≡ d.bytes = ap (λ (c : Datagram E). c.bytes) (some-injective _ _ e) in
      let to : dest_ep ≡ d.dest_ep = ap (λ (c : Datagram E). c.dest_ep) (some-injective _ _ e) in
      (
        msg,
        rw (← same) (bson_laws.from_bson-to_bson msg bytes encoded),
        sym to,
        laws.contains-set_self "ice_agent" ice_msg _,
        laws.contains-set_ne "ice_agent" "kademlia" ice_msg _ refl
            ∙ laws.contains-set_ne "app_id" "kademlia" app_id json.null refl
            ∙ laws.contains-null "kademlia",
        rw (laws.contains-set_self "ice_agent" ice_msg _)
            (ap some (laws.at-set_self "ice_agent" ice_msg _)),
      )
