-- ===== src/Observers/Sample.antt =====
-- Ids for the tests: numbers, written as one character.
use ss_p2p_node_controller.Common.{ℕ, [], ◌∷◌, Option, none, some, refl}
use ss_p2p_node_controller.Json.{Text}
use ss_p2p_node_controller.Observers.Base.{Ids, IdsLaws}

abbrev pub read_id : Text → Option ℕ
read_id (n ∷ []) = some n
read_id t = none

abbrev pub ids : Ids ℕ
ids = record { id_to_str = λ n. n ∷ []; str_to_id = read_id }

pub ids-IdsLaws : IdsLaws ids
ids-IdsLaws = record { str_to_id-id_to_str = λ n. refl }
