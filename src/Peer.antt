-- ===== src/Peer.antt =====
-- peer of src/ss_p2p/peer.cpp and ss_message of src/ss_p2p/message_pool.cpp: how the application gets the
-- messages of one peer. A peer holds a buffer of its own, a copy that get_peer made. A wait on the buffer's
-- condition variable is a number of times that the thread is woken up.
pub mod Laws
mod Tests
use Prim.Native.String.{String}
use ss_p2p_node_controller.Common.{
  ℕ, zero, suc, Bool, true, false, if◌then◌else◌, List, Option, none, some, ◌>>=◌,
}
use ss_p2p_node_controller.Json.{Json, Text, ℤ, pos, negsuc}
use ss_p2p_node_controller.Endpoint.{Net}
use ss_p2p_node_controller.Kademlia.NodeId.{NodeId}
use ss_p2p_node_controller.Kademlia.RoutingTable.{RoutingTable}
use ss_p2p_node_controller.Observers.Base.{Ids}
use ss_p2p_node_controller.Ice.Message.{Packet}
use ss_p2p_node_controller.Ice.Signaling.{Signals, signaling_send}
use ss_p2p_node_controller.MessagePool.Buffer
use ss_p2p_node_controller.MessagePool.Buffer.{Received, MessageBuffer, dequeue}

-- `entry` is `none` for a null pointer.
pub record Peer (E U J P : Type 0) : Type 0 where
  pub ep : E
  pub id : P
  pub entry : Option (MessageBuffer E U J)

-- `ss_message`, which `deliver` constructs; the relay endpoints are never filled.
pub record SsMessage (J E : Type 0) : Type 0 where
  pub body : J
  pub src_endpoint : E
  pub timestamp : ℕ

-- What a call does: it runs into undefined behaviour, still waits, or returns.
pub data Receive (A : Type 0) : Type 0 where
  fault : Receive A
  waits : Receive A
  returns : A → Receive A

module _ {E U J P : Type 0} where
  -- The constructor.
  unfoldable pub new_peer : (E → P) → E → Option (MessageBuffer E U J) → Peer E U J P
  new_peer calc_peer_id ep entry = record { ep = ep; id = calc_peer_id ep; entry = entry }

module _ {E U J : Type 0} where
  abbrev pub or_again :
      (MessageBuffer E U J → MessageBuffer E U J × Option (Received U J))
      → MessageBuffer E U J × Option (Received U J)
      → MessageBuffer E U J × Option (Received U J)
  or_again again (b, some m) = (b, some m)
  or_again again (b, none) = again b

  -- The predicate of the wait, once and after each of the wake-ups: it pops a message.
  unfoldable pub wait_for_pop :
      ℕ → MessageBuffer E U J → MessageBuffer E U J × Option (Received U J)
  unfolding Buffer.pop
  wait_for_pop zero b = Buffer.pop 0 dequeue b
  wait_for_pop (suc wakeups) b = or_again (wait_for_pop wakeups) (Buffer.pop 0 dequeue b)

module _ {E U J P : Type 0} where
  abbrev pub with_entry : Peer E U J P → MessageBuffer E U J → Peer E U J P
  with_entry p b = record p { entry = some b }

  -- The message is made, also of a null pointer.
  abbrev pub deliver :
      Peer E U J P
      → MessageBuffer E U J × Option (Received U J)
      → Peer E U J P × Receive (SsMessage J E)
  deliver p (b, none) = (with_entry p b, fault)
  deliver p (b, some m) =
      (with_entry p b, returns (record { body = m.msg; src_endpoint = p.ep; timestamp = m.time }))

  -- A wait without an end.
  abbrev pub deliver_or_wait :
      Peer E U J P
      → MessageBuffer E U J × Option (Received U J)
      → Peer E U J P × Receive (SsMessage J E)
  deliver_or_wait p (b, none) = (with_entry p b, waits)
  deliver_or_wait p (b, some m) = deliver p (b, some m)

  -- What follows the first pop, by the timeout.
  abbrev pub receive_popped :
      ℤ
      → ℕ
      → Peer E U J P
      → MessageBuffer E U J × Option (Received U J)
      → Peer E U J P × Receive (SsMessage J E)
  receive_popped timeout wakeups p (b, some m) = deliver p (b, some m)
  receive_popped (pos zero) wakeups p (b, none) = deliver p (b, none)
  receive_popped (pos (suc n)) wakeups p (b, none) = deliver p (wait_for_pop wakeups b)
  receive_popped (negsuc zero) wakeups p (b, none) = deliver_or_wait p (wait_for_pop wakeups b)
  receive_popped (negsuc (suc n)) wakeups p (b, none) = deliver p (wait_for_pop wakeups b)

  abbrev pub receive_from :
      ℤ → ℕ → Peer E U J P → Option (MessageBuffer E U J) → Peer E U J P × Receive (SsMessage J E)
  receive_from timeout wakeups p none = (p, fault)
  receive_from timeout wakeups p (some b) =
      receive_popped timeout wakeups p (Buffer.pop 0 dequeue b)

  unfoldable pub receive : ℤ → ℕ → Peer E U J P → Peer E U J P × Receive (SsMessage J E)
  unfolding wait_for_pop Buffer.pop
  receive timeout wakeups p = receive_from timeout wakeups p p.entry

-- `send`; the payload becomes a JSON text, and `s_send_func` is signaling_send of the ICE part.
module _ {J E A I U P : Type 0} (json : Json J) (net : Net E A) (ids : Ids I) (eq_id : Discrete I)
    (calc_node_id : E → NodeId) (glob_self_ep : E) where
  unfoldable pub send :
      I
      → ℕ
      → Text
      → Peer E U J P
      → RoutingTable E
      → Signals J E I
      → Option (Signals J E I × List (Packet J E))
  unfolding signaling_send
  send id now payload p t s =
      signaling_send json net ids eq_id calc_node_id glob_self_ep id now p.ep "messenger"
        (json.text payload) t s

-- `ss_message::get`; `empty` is the value `json({})`.
unfoldable pub get : {J E : Type 0} → Json J → J → String → SsMessage J E → J
get json empty app_name m = if json.contains app_name m.body then json.at app_name m.body else empty
