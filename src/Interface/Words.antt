-- ===== src/Interface/Words.antt =====
-- That src/ss_p2p/interface.cpp reads back the words of a line.
use ss_p2p_node_controller.Common.{
  ℕ, ◌≡◌, refl, ap, ◌∙◌, Bool, true, false, not, ◌&&◌, List, [], ◌∷◌, ◌++◌,
}
use mathlib.Core.List.{append_assoc, append-nil}
use ss_p2p_node_controller.Json.{Text}
use ss_p2p_node_controller.Endpoint.{is_space}
use ss_p2p_node_controller.Interface.{push_word, extract, read_words}

abbrev pub has_no_space : Text → Bool
has_no_space [] = true
has_no_space (c ∷ t) = not (is_space c) && has_no_space t

-- A text that is not empty and has no space.
abbrev pub is_word : Text → Bool
is_word [] = false
is_word (c ∷ t) = has_no_space (c ∷ t)

abbrev pub are_words : List Text → Bool
are_words [] = true
are_words (w ∷ ws) = is_word w && are_words ws

-- A line of words, with a space after each.
abbrev pub unwords : List Text → Text
unwords [] = []
unwords (w ∷ ws) = w ++ 32 ∷ unwords ws

both : (a b : Bool) → (a && b) ≡ true → (a ≡ true) × (b ≡ true)
both true b h = (refl, h)
both false b h = absurd cc

negated : (a : Bool) → not a ≡ true → a ≡ false
negated true h = absurd cc
negated false h = refl

has_no_space_of_word : (w : Text) → is_word w ≡ true → has_no_space w ≡ true
has_no_space_of_word [] h = refl
has_no_space_of_word (c ∷ w) h = h

pub has_no_space-cons :
    (c : ℕ) (t : Text) → is_space c ≡ false → has_no_space t ≡ true → has_no_space (c ∷ t) ≡ true
has_no_space-cons c t h g = rw (h, g) refl

pub has_no_space-append :
    (u v : Text) → has_no_space u ≡ true → has_no_space v ≡ true → has_no_space (u ++ v) ≡ true
has_no_space-append [] v h g = g
has_no_space-append (c ∷ u) v h g =
    let (first, rest) = both (not (is_space c)) (has_no_space u) h in
    has_no_space-cons c (u ++ v) (negated (is_space c) first) (has_no_space-append u v rest g)

pub is_word-append :
    (u v : Text) (c : ℕ) → has_no_space (u ++ c ∷ v) ≡ true → is_word (u ++ c ∷ v) ≡ true
is_word-append [] v c h = h
is_word-append (d ∷ u) v c h = h

extract-append :
    (begun w t : Text) → has_no_space w ≡ true → extract begun (w ++ t) ≡ extract (begun ++ w) t
unfolding extract
extract-append begun [] t h = rw (append-nil begun) refl
extract-append begun (c ∷ w) t h =
    let (first, rest) = both (not (is_space c)) (has_no_space w) h in
    rw (negated (is_space c) first)
      (extract-append (begun ++ c ∷ []) w t rest ∙ ap (λ b. extract b t) (append_assoc begun _ w))

push_word_of_word : (w : Text) (ws : List Text) → is_word w ≡ true → push_word w ws ≡ w ∷ ws
push_word_of_word [] ws h = absurd cc
push_word_of_word (c ∷ w) ws h = refl

pub read_words-unwords : (ws : List Text) → are_words ws ≡ true → read_words (unwords ws) ≡ ws
unfolding read_words extract
read_words-unwords [] h = refl
read_words-unwords (w ∷ ws) h =
    let (word, words) = both (is_word w) (are_words ws) h in
    extract-append [] w (32 ∷ unwords ws) (has_no_space_of_word w word)
    ∙ push_word_of_word w (extract [] (unwords ws)) word
    ∙ ap (λ us. w ∷ us) (read_words-unwords ws words)
