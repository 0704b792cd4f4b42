-- ===== src/Logger/Utils.antt =====
-- replace of logger::utils, src/include/logger/logger.impl.hpp, with the operations of `std::string` that
-- it calls.
use ss_p2p_node_controller.Common.{
  ℕ, zero, suc, ◌+◌, Bool, true, false, ◌&&◌, ltb, ◌==◌, if◌then◌else◌, [], ◌∷◌, ◌++◌, length, take,
  Option, none, some,
}
use ss_p2p_node_controller.Json.{Text}
use ss_p2p_node_controller.Endpoint.{drop}

abbrev pub is_prefix : Text → Text → Bool
is_prefix [] t = true
is_prefix (c ∷ p) [] = false
is_prefix (c ∷ p) (d ∷ t) = (c == d) && is_prefix p t

abbrev pub further : Option ℕ → Option ℕ
further none = none
further (some k) = some (suc k)

-- The position of the first occurrence.
unfoldable pub first : Text → Text → Option ℕ
first p [] = if is_prefix p [] then some 0 else none
first p (c ∷ t) = let later = further (first p t) in if is_prefix p (c ∷ t) then some 0 else later

abbrev pub shifted : ℕ → Option ℕ → Option ℕ
shifted idx none = none
shifted idx (some k) = some (idx + k)

-- `find` from a position on; `none` is npos.
unfoldable pub find_from : Text → Text → ℕ → Option ℕ
unfolding first
find_from rpl_from s idx =
    if ltb (length s) idx then none else shifted idx (first rpl_from (drop idx s))

-- `std::string::replace` of the `n` characters at a position.
abbrev pub replace_at : ℕ → ℕ → Text → Text → Text
replace_at idx n rpl_to s = (take idx s ++ rpl_to) ++ drop (idx + n) s

abbrev pub replace_found : (ℕ → Text → Option Text) → Text → Text → Text → Option ℕ → Option Text
replace_found loop rpl_from rpl_to s none = some s
replace_found loop rpl_from rpl_to s (some i) =
    loop (i + length rpl_to) (replace_at i (length rpl_from) rpl_to s)

-- The loop from the index `idx` on; `none` once the fuel is used up.
unfoldable pub replace_loop : ℕ → Text → Text → ℕ → Text → Option Text
unfolding find_from
replace_loop zero rpl_from rpl_to idx s = none
replace_loop (suc fuel) rpl_from rpl_to idx s =
    replace_found (replace_loop fuel rpl_from rpl_to) rpl_from rpl_to s (find_from rpl_from s idx)

-- Every round of the loop uses up a character of `base`, if `rpl_from` is not empty.
unfoldable pub replace : Text → Text → Text → Option Text
unfolding replace_loop
replace base rpl_from rpl_to = replace_loop (suc (length base)) rpl_from rpl_to 0 base
