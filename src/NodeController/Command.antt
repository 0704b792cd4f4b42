-- ===== src/NodeController/Command.antt =====
-- on_command_input of src/ss_p2p/node_controller.cpp, with the words of a line as its argument.
pub mod Laws
mod Tests
use ss_p2p_node_controller.Common.{
  ℕ, Bool, true, false, ◌&&◌, ◌==◌, if◌then◌else◌, List, [], ◌∷◌, Option, none, some,
}
use ss_p2p_node_controller.Json.{Json, Text}
use ss_p2p_node_controller.Logger.{codes}
use ss_p2p_node_controller.Endpoint.{Net, str_to_endpoint}
use ss_p2p_node_controller.Kademlia.NodeId.{NodeId}
use ss_p2p_node_controller.Observers.Base.{Ids}
use ss_p2p_node_controller.Ice.Message.{Packet}
use ss_p2p_node_controller.Ice.Signaling.{Signals}
use ss_p2p_node_controller.Peer
use ss_p2p_node_controller.NodeController.{Node, get_peer}
use ss_p2p_node_controller.NodeController.Lifecycle.{Controller, stop}

-- What a command does: it runs into undefined behaviour, ends in an exception, or returns.
pub data Reaction (A : Type 0) : Type 0 where
  fault throws : Reaction A
  returns : A → Reaction A

abbrev pub same_text : Text → Text → Bool
same_text [] [] = true
same_text [] (d ∷ u) = false
same_text (c ∷ t) [] = false
same_text (c ∷ t) (d ∷ u) = (c == d) && same_text t u

module _ {J E I U : Type 0} where
  abbrev pub node_of : Controller J E I U → Node J E I U
  node_of c = record { dht = c.maintainer.dht; ice = c.ice; pool = c.pool }

  abbrev pub sent_by :
      Controller J E I U
      → Option (Signals J E I × List (Packet J E))
      → Reaction (Controller J E I U × List (Packet J E))
  sent_by c none = throws
  sent_by c (some (s, sent)) = returns (record c { ice = record c.ice { signals = s } }, sent)

module _ {J E A I U P : Type 0} (json : Json J) (net : Net E A) (ids : Ids I) (eq_id : Discrete I)
    (calc_node_id : E → NodeId) (calc_peer_id : E → P) (eq_peer : Discrete P) (id : I)
    (now : ℕ) where
  unfoldable pub send_payload :
      E → List Text → Controller J E I U → Reaction (Controller J E I U × List (Packet J E))
  unfolding Peer.send get_peer
  send_payload ep [] c = fault
  send_payload ep (payload ∷ inputs) c = sent_by c (
      Peer.send json net ids eq_id calc_node_id c.self_ep id now payload
        (get_peer calc_peer_id eq_peer ep (node_of c)) c.maintainer.dht.table c.ice.signals)

  abbrev pub send_to :
      Option E → List Text → Controller J E I U → Reaction (Controller J E I U × List (Packet J E))
  send_to none inputs c = throws
  send_to (some ep) inputs c = send_payload ep inputs c

  -- The words after "send": each is read without a look at the end of the words.
  unfoldable pub send_command :
      List Text → Controller J E I U → Reaction (Controller J E I U × List (Packet J E))
  unfolding send_payload str_to_endpoint
  send_command [] c = fault
  send_command (peer_addr_str ∷ inputs) c = send_to (str_to_endpoint net peer_addr_str) inputs c

  unfoldable pub on_command_input :
      List Text → Controller J E I U → Reaction (Controller J E I U × List (Packet J E))
  unfolding send_command stop
  on_command_input [] c = returns (c, [])
  on_command_input (input ∷ inputs) c =
      let c' = if same_text input (codes "stop") then stop c else c in
      let sent = send_command inputs c' in
      if same_text input (codes "send") then sent else returns (c', [])
