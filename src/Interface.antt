-- ===== src/Interface.antt =====
-- listen_stdin of src/ss_p2p/interface.cpp: what it posts to the event loop for the lines that it reads, a
-- list of words for each. Reading from the standard input, and the thread, are left out.
pub mod Words
use ss_p2p_node_controller.Common.{ℕ, Bool, true, false, if◌then◌else◌, List, [], ◌∷◌, ◌++◌, map}
use ss_p2p_node_controller.Json.{Text}
use ss_p2p_node_controller.Endpoint.{is_space}

-- A word that was read, unless it is empty.
abbrev pub push_word : Text → List Text → List Text
push_word [] ws = ws
push_word (c ∷ w) ws = (c ∷ w) ∷ ws

-- What `>>` takes from the rest of a line, after the characters of a word that it has begun.
unfoldable pub extract : Text → Text → List Text
extract begun [] = push_word begun []
extract begun (c ∷ t) =
    let after = push_word begun (extract [] t) in
    let on = extract (begun ++ c ∷ []) t in if is_space c then after else on

-- The inner loop.
unfoldable pub read_words : Text → List Text
unfolding extract
read_words input = extract [] input

unfoldable pub listen_stdin : List Text → List (List Text)
unfolding read_words
listen_stdin lines = map read_words lines
