-- ===== src/Peer/Tests.antt =====
-- receive at a concrete input: a peer whose buffer holds two messages.
use ss_p2p_node_controller.Common.{ℕ, refl, [], ◌∷◌, some}
use ss_p2p_node_controller.Json.{negsuc}
use ss_p2p_node_controller.MessagePool.Buffer.{MessageBuffer}
use ss_p2p_node_controller.Peer.{Peer, receive}
use ss_p2p_node_controller.Peer.Laws.{Receives, receive-Receives}

abbrev two_messages : MessageBuffer ℕ ℕ ℕ
two_messages = record {
  msg_queue = record { id = 1; msg = 30; time = 5 } ∷ record { id = 2; msg = 31; time = 6 } ∷ [];
  binding_ep = 7;
  dynamic_mem_usage_bytes = 2;
  last_binded_at = 0;
  last_received_at = 6;
}

abbrev peer : Peer ℕ ℕ ℕ ℕ
peer = record { ep = 7; id = 7; entry = some two_messages }

receive-Receives_example :
    Receives (negsuc 0) peer two_messages.msg_queue (receive (negsuc 0) 3 peer)
receive-Receives_example = receive-Receives (negsuc 0) 3 peer two_messages refl
