-- ===== src/Json.antt =====
-- What the source uses of the JSON library, third-party code behind include/json.hpp. `Json` holds
-- the operations and `JsonLaws` what the source relies on; an exception of the library is `none`.
-- Keys and the literals of the source are native strings, texts made at run time are lists of
-- characters.
pub mod Sample
use Prim.Native.String.{String}
use text.Mathlib.Text.{◌==◌}
use ss_p2p_node_controller.Common.{
  ℕ, zero, suc, Bool, true, false, ◌≡◌, List, [], ◌∷◌, ◌++◌, Option, some,
}

-- A signed number.
pub data ℤ : Type 0 where
  pos negsuc : ℕ → ℤ

abbrev pub is_positive : ℤ → Bool
is_positive (pos zero) = false
is_positive (pos (suc n)) = true
is_positive (negsuc n) = false

abbrev pub pred : ℤ → ℤ
pred (pos zero) = negsuc zero
pred (pos (suc n)) = pos n
pred (negsuc n) = negsuc (suc n)

-- A `std::string`: its characters.
abbrev pub Text : Type 0
Text = List ℕ

-- `at` and `set` are operator[], `word` takes a literal and `is_word` compares with one; `text`,
-- `number` and `array` make values, and `get_text`, `get_number` and `get_array` read them as `get`
-- does. `elements` is what a loop up to `size()` sees, which for null is nothing; `push_back` takes the
-- array first.
pub record Json (J : Type 0) : Type 0 where
  pub null : J
  pub empty_object : J
  pub contains : String → J → Bool
  pub at : String → J → J
  pub set : String → J → J → J
  pub word : String → J
  pub is_word : J → String → Bool
  pub text : Text → J
  pub get_text : J → Option Text
  pub array : List J → J
  pub elements : J → Option (List J)
  pub get_array : J → Option (List J)
  pub push_back : J → J → Option J
  pub number : ℤ → J
  pub get_number : J → Option ℤ

pub record JsonLaws {J : Type 0} (json : Json J) : Type 0 where
  pub at-set_self : (k : String) (v body : J) → json.at k (json.set k v body) ≡ v
  pub at-set_ne :
      (k k' : String) (v body : J)
      → (k == k') ≡ false
      → json.at k' (json.set k v body) ≡ json.at k' body
  pub contains-set_self : (k : String) (v body : J) → json.contains k (json.set k v body) ≡ true
  pub contains-set_ne :
      (k k' : String) (v body : J)
      → (k == k') ≡ false
      → json.contains k' (json.set k v body) ≡ json.contains k' body
  pub contains-null : (k : String) → json.contains k json.null ≡ false
  pub is_word_self : (w : String) → json.is_word (json.word w) w ≡ true
  pub is_word_ne : (w w' : String) → (w == w') ≡ false → json.is_word (json.word w) w' ≡ false
  pub get_text-text : (t : Text) → json.get_text (json.text t) ≡ some t
  pub elements-array : (js : List J) → json.elements (json.array js) ≡ some js
  pub get_array-array : (js : List J) → json.get_array (json.array js) ≡ some js
  pub push_back-array :
      (js : List J) (j : J) → json.push_back (json.array js) j ≡ some (json.array (js ++ j ∷ []))
  pub get_number-number : (n : ℤ) → json.get_number (json.number n) ≡ some n
