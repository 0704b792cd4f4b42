-- ===== src/NodeController/Command/Laws.antt =====
-- What a typed line does: src/ss_p2p/interface.cpp with on_command_input of src/ss_p2p/node_controller.cpp.
use ss_p2p_node_controller.Common.{
  ℕ, zero, suc, ◌+◌, ◌/◌, ◌%◌, ◌≡◌, refl, ◌∙◌, inl, inr, true, false, Bool-cases, ltb, [], ◌∷◌,
  arith,
}
use ss_p2p_node_controller.Json.{Json, Text}
use ss_p2p_node_controller.Logger.{codes}
use ss_p2p_node_controller.Endpoint.{
  Net, NetLaws, colon, digits, print_port, is_space, endpoint_to_str,
}
use ss_p2p_node_controller.Endpoint.RoundTrip.{Lacks, str_to_endpoint-endpoint_to_str}
use ss_p2p_node_controller.Kademlia.NodeId.{NodeId}
use ss_p2p_node_controller.Kademlia.DirectController.{is_exist}
use ss_p2p_node_controller.Observers.Base.{Ids}
use ss_p2p_node_controller.Ice.Signaling.{signaling_send}
use ss_p2p_node_controller.Peer
use ss_p2p_node_controller.Peer.{new_peer}
use ss_p2p_node_controller.Interface.{read_words}
use ss_p2p_node_controller.Interface.Words.{
  has_no_space, is_word, are_words, unwords, read_words-unwords, has_no_space-cons,
  has_no_space-append, is_word-append,
}
use ss_p2p_node_controller.NodeController.{get_peer}
use ss_p2p_node_controller.NodeController.Lifecycle.{Controller, stop}
use ss_p2p_node_controller.NodeController.Command.{
  returns, sent_by, send_payload, send_command, on_command_input,
}

has_no_space-digits :
    (fuel n : ℕ) (rest : Text) → has_no_space rest ≡ true → has_no_space (digits fuel n rest) ≡ true
unfolding digits
has_no_space-digits zero n rest h = h
has_no_space-digits (suc fuel) n rest h =
    let digit : is_space (48 + n % 10) ≡ false = ground arith in
    let here = has_no_space-cons (48 + n % 10) rest digit h in
    elim (Bool-cases (ltb n 10)) [
      | inl e ↦ rw e here
      | inr e ↦ rw e (has_no_space-digits fuel (n / 10) ((48 + n % 10) ∷ rest) here)
    ]

module _ {E A : Type 0} (net : Net E A) (laws : NetLaws net) where
  is_word-endpoint_to_str :
      (ep : E)
      → has_no_space (net.to_string (net.address ep)) ≡ true
      → is_word (endpoint_to_str net ep) ≡ true
  unfolding endpoint_to_str print_port
  is_word-endpoint_to_str ep h =
      is_word-append (net.to_string (net.address ep)) (print_port (net.port ep)) colon (
        has_no_space-append (net.to_string (net.address ep)) (colon ∷ print_port (net.port ep)) h
          (has_no_space-digits 5 (net.port ep) [] refl))

module _ {J E A I U P : Type 0} (json : Json J) (net : Net E A) (laws : NetLaws net) (ids : Ids I)
    (eq_id : Discrete I) (calc_node_id : E → NodeId) (calc_peer_id : E → P) (eq_peer : Discrete P)
    (id : I) (now : ℕ) where
  -- Whether the routing table holds the endpoint or not: the payload goes to the signaling server.
  on_command_input-signaling :
      (ep : E) (payload : Text) (c : Controller J E I U)
      → Lacks colon (net.to_string (net.address ep))
      → has_no_space (net.to_string (net.address ep)) ≡ true
      → is_word payload ≡ true
      → on_command_input json net ids eq_id calc_node_id calc_peer_id eq_peer id now
          (read_words (unwords (codes "send" ∷ endpoint_to_str net ep ∷ payload ∷ [])))
          c
        ≡ sent_by c (
            signaling_send json net ids eq_id calc_node_id c.self_ep id now ep "messenger"
              (json.text payload)
              c.maintainer.dht.table
              c.ice.signals)
  unfolding on_command_input send_command send_payload Peer.send get_peer new_peer
  on_command_input-signaling ep payload c lacks h word =
      let words : are_words (codes "send" ∷ endpoint_to_str net ep ∷ payload ∷ []) ≡ true =
        rw (is_word-endpoint_to_str net laws ep h, word) refl in
      rw
        (
          read_words-unwords (codes "send" ∷ endpoint_to_str net ep ∷ payload ∷ []) words,
          str_to_endpoint-endpoint_to_str net laws ep lacks,
        )
        refl

  -- Let a line be typed with "send", an endpoint as text and a payload, each a word and followed by a space,
  -- where the address is written without a colon or a space. If the routing table holds the endpoint, then
  -- exactly one packet is sent, to the endpoint and with the payload as a text under "messenger", and
  -- nothing changes.
  pub on_command_input-send :
      (ep : E) (payload : Text) (c : Controller J E I U)
      → Lacks colon (net.to_string (net.address ep))
      → has_no_space (net.to_string (net.address ep)) ≡ true
      → is_word payload ≡ true
      → is_exist calc_node_id ep c.maintainer.dht.table ≡ true
      → on_command_input json net ids eq_id calc_node_id calc_peer_id eq_peer id now
          (read_words (unwords (codes "send" ∷ endpoint_to_str net ep ∷ payload ∷ [])))
          c
        ≡ returns (c, record { dest = ep; param = "messenger"; payload = json.text payload } ∷ [])
  unfolding signaling_send
  on_command_input-send ep payload c lacks h word known =
      on_command_input-signaling ep payload c lacks h word ∙ rw known refl

  -- The line "stop" stops the node.
  on_command_input-stop :
      (c : Controller J E I U)
      → on_command_input json net ids eq_id calc_node_id calc_peer_id eq_peer id now
          (read_words (unwords (codes "stop" ∷ [])))
          c
        ≡ returns (stop c, [])
  unfolding on_command_input
  on_command_input-stop c = rw (read_words-unwords (codes "stop" ∷ []) refl) refl
