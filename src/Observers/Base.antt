-- ===== src/Observers/Base.antt =====
-- base_observer of src/ss_p2p/observer.cpp. Its id is a random Boost UUID, so the id and the reading
-- of the clock are arguments; times are in seconds.
use ss_p2p_node_controller.Common.{ℕ, ◌+◌, Bool, false, ◌||◌, leb, ◌≡◌, Option, some, ◌>>=◌}
use ss_p2p_node_controller.Json.{Json, JsonLaws, Text}

abbrev pub default_expire_time : ℕ
default_expire_time = 20

pub record BaseObserver (I : Type 0) : Type 0 where
  pub id : I
  pub expire_at : ℕ
  pub expire_flag : Bool

module _ {I : Type 0} where
  -- The constructor.
  unfoldable pub new_observer : I → ℕ → BaseObserver I
  new_observer id now = record {
    id = id;
    expire_at = now + default_expire_time;
    expire_flag = false;
  }

  unfoldable pub destruct_self : BaseObserver I → BaseObserver I
  destruct_self o = record o { expire_at = 0 }

  unfoldable pub extend_expire_at : ℕ → ℕ → BaseObserver I → BaseObserver I
  extend_expire_at now t o = record o { expire_at = now + t }

  unfoldable pub is_expired : ℕ → BaseObserver I → Bool
  is_expired now o = o.expire_flag || leb o.expire_at now

-- Boost's conversions of ids to texts and back; an exception is `none`.
pub record Ids (I : Type 0) : Type 0 where
  pub id_to_str : I → Text
  pub str_to_id : Text → Option I

pub record IdsLaws {I : Type 0} (ids : Ids I) : Type 0 where
  pub str_to_id-id_to_str : (id : I) → ids.str_to_id (ids.id_to_str id) ≡ some id

-- `set_observer_id` and `get_observer_id` of a message, be it a k_message or an ice_message.
module _ {J I : Type 0} (json : Json J) (ids : Ids I) where
  unfoldable pub set_observer_id : I → J → J
  set_observer_id id body = json.set "observer_id" (json.text (ids.id_to_str id)) body

  unfoldable pub get_observer_id : J → Option I
  get_observer_id body = do s ← json.get_text (json.at "observer_id" body); ids.str_to_id s

  pub get_observer_id-set_observer_id :
      JsonLaws json
      → IdsLaws ids
      → (id : I) (body : J) → get_observer_id (set_observer_id id body) ≡ some id
  unfolding get_observer_id set_observer_id
  get_observer_id-set_observer_id laws ids_laws id body = rw (
    laws.at-set_self "observer_id" _ body,
    laws.get_text-text (ids.id_to_str id),
    ids_laws.str_to_id-id_to_str id,
  )
