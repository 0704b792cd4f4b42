-- ===== src/Message.antt =====
-- message of src/ss_p2p/message.cpp: a JSON object whose fields are its parameters. `Bson` holds the BSON
-- encoding of the JSON library, and `BsonLaws` what the source relies on; an exception is `none`.
pub mod Sample
use Prim.Native.String.{String}
use ss_p2p_node_controller.Common.{ℕ, Bool, if◌then◌else◌, ◌≡◌, List, Option, none, some}
use ss_p2p_node_controller.Json.{Json}

pub record Bson (J : Type 0) : Type 0 where
  pub to_bson : J → Option (List ℕ)
  pub from_bson : List ℕ → Option J

pub record BsonLaws {J : Type 0} (bson : Bson J) : Type 0 where
  pub from_bson-to_bson :
      (j : J) (bytes : List ℕ) → bson.to_bson j ≡ some bytes → bson.from_bson bytes ≡ some j

module _ {J : Type 0} (json : Json J) where
  -- The constructor from an application id.
  unfoldable pub new_message : J → J
  new_message id = json.set "app_id" id json.null

  unfoldable pub set_param : String → J → J → J
  set_param key value msg = json.set key value msg

  unfoldable pub get_param : String → J → Option J
  get_param param msg = if json.contains param msg then some (json.at param msg) else none

  unfoldable pub is_contain_param : String → J → Bool
  is_contain_param param msg = json.contains param msg

module _ {J : Type 0} (bson : Bson J) where
  unfoldable pub encode : J → Option (List ℕ)
  encode from = bson.to_bson from

  unfoldable pub decode : List ℕ → Option J
  decode from = bson.from_bson from
