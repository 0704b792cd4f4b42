-- ===== src/Message/Sample.antt =====
-- A BSON library for the tests, which takes a message with one text under "messenger" and a number as its
-- application id.
use Prim.Native.String.{String}
use text.Mathlib.Text.{◌==◌}
use text.Mathlib.TextEquality.{eq_iff}
use ss_p2p_node_controller.Common.{
  ℕ, Bool, true, false, ◌&&◌, ◌≡◌, refl, List, [], ◌∷◌, Option, none, some, ◌>>=◌,
}
use ss_p2p_node_controller.Json.{Text, pos}
use ss_p2p_node_controller.Json.Sample.{Value, field, chars, number, empty}
use ss_p2p_node_controller.Message.{Bson, BsonLaws}

abbrev pub as_field : Value → Option (String × Value × Value)
as_field (field k v body) = some (k, v, body)
as_field v = none

abbrev pub as_chars : Value → Option Text
as_chars (chars t) = some t
as_chars v = none

abbrev pub as_number : Value → Option ℕ
as_number (number (pos n)) = some n
as_number v = none

abbrev pub as_empty : Value → Option ℕ
as_empty empty = some 0
as_empty v = none

abbrev pub sample_message : ℕ → Text → Value
sample_message n t = field "messenger" (chars t) (field "app_id" (number (pos n)) empty)

abbrev pub when : Bool → List ℕ → Option (List ℕ)
when true bytes = some bytes
when false bytes = none

abbrev pub write : Value → Option (List ℕ)
write j = do
  (k, v, rest) ← as_field j
  t ← as_chars v
  (k', v', rest') ← as_field rest
  n ← as_number v'
  _ ← as_empty rest'
  when ((k == "messenger") && (k' == "app_id")) (n ∷ t)

abbrev pub read : List ℕ → Option Value
read [] = none
read (n ∷ t) = some (sample_message n t)

abbrev pub bson : Bson Value
bson = record { to_bson = write; from_bson = read }

both_tests :
    (a b : Bool) (bytes got : List ℕ)
    → when (a && b) bytes ≡ some got
    → (a ≡ true) × (b ≡ true) × (bytes ≡ got)
both_tests true true bytes got h = (refl, refl, cc)
both_tests true false bytes got h = absurd cc
both_tests false b bytes got h = absurd cc

read-write : (j : Value) (bytes : List ℕ) → write j ≡ some bytes → read bytes ≡ some j
read-write (field k (chars t) (field k' (number (pos n)) empty)) bytes h =
    let (first, second, same) = both_tests (k == "messenger") (k' == "app_id") (n ∷ t) bytes h in
    let e : k ≡ "messenger" = (eq_iff k "messenger").0 first in
    let e' : k' ≡ "app_id" = (eq_iff k' "app_id").0 second in rw (← same, e, e') refl
read-write (field k (chars t) (field k' v empty)) bytes h = absurd cc
read-write (field k (chars t) (field k' v rest)) bytes h = absurd cc
read-write (field k (chars t) v) bytes h = absurd cc
read-write (field k v rest) bytes h = absurd cc
read-write v bytes h = absurd cc

pub bson-BsonLaws : BsonLaws bson
bson-BsonLaws = record { from_bson-to_bson = read-write }
