-- ===== src/Json/Sample.antt =====
-- A small JSON type for the tests: an object is the list of the writes to it, the last one first.
use Prim.Native.String.{String}
use text.Mathlib.Text.{◌==◌}
use text.Mathlib.TextPositions.{eq_refl}
use ss_p2p_node_controller.Common.{
  ◌≡◌, ◌>>=◌, Bool, true, false, if◌then◌else◌, refl, List, [], ◌∷◌, ◌++◌, Option, none, some,
}
use ss_p2p_node_controller.Json.{Json, JsonLaws, Text, ℤ}

pub data Value : Type 0 where
  empty : Value
  literal : String → Value
  chars : Text → Value
  nil : Value
  cons : Value → Value → Value
  number : ℤ → Value
  field : String → Value → Value → Value

abbrev pub value_at : String → Value → Value
value_at k (field k' v body) = let rest = value_at k body in if k' == k then v else rest
value_at k v = empty

abbrev pub has_field : String → Value → Bool
has_field k (field k' v body) = let rest = has_field k body in if k' == k then true else rest
has_field k v = false

abbrev pub is_literal : Value → String → Bool
is_literal (literal w) w' = w == w'
is_literal v w' = false

abbrev pub read_text : Value → Option Text
read_text (chars t) = some t
read_text v = none

abbrev pub array : List Value → Value
array [] = nil
array (j ∷ js) = cons j (array js)

abbrev pub read_array : Value → Option (List Value)
read_array nil = some []
read_array (cons j rest) = do js ← read_array rest; some (j ∷ js)
read_array v = none

abbrev pub read_elements : Value → Option (List Value)
read_elements empty = some []
read_elements v = read_array v

abbrev pub add_element : Value → Value → Option Value
add_element nil j = some (cons j nil)
add_element empty j = some (cons j nil)
add_element (cons j' rest) j = do rest' ← add_element rest j; some (cons j' rest')
add_element v j = none

read_array-array : (js : List Value) → read_array (array js) ≡ some js
read_array-array [] = refl
read_array-array (j ∷ js) = rw (read_array-array js)

read_elements-array : (js : List Value) → read_elements (array js) ≡ some js
read_elements-array [] = refl
read_elements-array (j ∷ js) = rw (read_array-array js)

add_element-array :
    (js : List Value) (j : Value) → add_element (array js) j ≡ some (array (js ++ j ∷ []))
add_element-array [] j = refl
add_element-array (j' ∷ js) j = rw (add_element-array js j)

abbrev pub read_number : Value → Option ℤ
read_number (number n) = some n
read_number v = none

abbrev pub json : Json Value
json = record {
  null = empty;
  empty_object = empty;
  contains = has_field;
  at = value_at;
  set = field;
  word = literal;
  is_word = is_literal;
  text = chars;
  get_text = read_text;
  array = array;
  elements = read_elements;
  get_array = read_array;
  push_back = add_element;
  number = number;
  get_number = read_number;
}

pub json-JsonLaws : JsonLaws json
json-JsonLaws = record {
  at-set_self = λ k v body. rw (eq_refl k);
  at-set_ne = λ k k' v body e. rw e;
  contains-set_self = λ k v body. rw (eq_refl k);
  contains-set_ne = λ k k' v body e. rw e;
  contains-null = λ k. refl;
  is_word_self = eq_refl;
  is_word_ne = λ w w' e. e;
  get_text-text = λ t. refl;
  elements-array = read_elements-array;
  get_array-array = read_array-array;
  push_back-array = add_element-array;
  get_number-number = λ n. refl;
}
