-- ===== src/UdpServer.antt =====
-- udp_server of src/ss_p2p/udp_server.cpp: the socket is read into one buffer and one endpoint, and what
-- was read is posted to the event loop. What Boost.Asio does is the environment: it fills the buffer when
-- a datagram is there and a receive is pending, keeps handlers in a queue, and gives a cancelled receive
-- an error.
pub mod Laws
pub mod Delivery
mod Tests
use ss_p2p_node_controller.Common.{
  ℕ, suc, zero, Bool, true, false, if◌then◌else◌, List, [], ◌∷◌, ◌++◌, length, take,
}

-- The size of `_recv_buff`.
abbrev pub recv_buff_size : ℕ
recv_buff_size = 65535

-- What the event loop has to call: `call_income_message_handler` with the bytes that were transferred
-- or with an error, and the posted `_recv_handler` with the message that its closure holds.
pub data Task : Type 0 where
  received : ℕ → Task
  failed : Task
  recv_handler : List ℕ → Task

pub record UdpServer (E : Type 0) : Type 0 where
  pub is_open : Bool
  pub recv_buff : List ℕ
  pub src_ep : E
  pub receiving : ℕ
  pub tasks : List Task

-- Every pending receive fails.
abbrev pub failures : ℕ → List Task
failures zero = []
failures (suc n) = failed ∷ failures n

-- Data in the front of the buffer.
abbrev pub overwrite : List ℕ → List ℕ → List ℕ
overwrite bytes [] = []
overwrite [] (c ∷ old) = c ∷ old
overwrite (b ∷ bytes) (c ∷ old) = b ∷ overwrite bytes old

module _ {E : Type 0} where
  unfoldable pub call_receiver : UdpServer E → UdpServer E
  call_receiver s = record s { receiving = suc s.receiving }

  unfoldable pub start : UdpServer E → UdpServer E × Bool
  unfolding call_receiver
  start s = if s.is_open then (call_receiver s, true) else (s, false)

  unfoldable pub stop : UdpServer E → UdpServer E
  stop s = record s { receiving = 0; tasks = s.tasks ++ failures s.receiving }

  abbrev pub fill : ℕ → List ℕ → E → UdpServer E → UdpServer E
  fill zero bytes ep s = s
  fill (suc n) bytes ep s = record s {
    recv_buff = overwrite (take recv_buff_size bytes) s.recv_buff;
    src_ep = ep;
    receiving = n;
    tasks = s.tasks ++ received (length (take recv_buff_size bytes)) ∷ [];
  }

  -- A datagram meets a pending receive, and what does not fit in the buffer is lost.
  unfoldable pub arrive : List ℕ → E → UdpServer E → UdpServer E
  arrive bytes ep s = fill s.receiving bytes ep s

  -- What a task does, and the arguments with which it calls `_recv_handler`.
  unfoldable pub call_income_message_handler : ℕ → UdpServer E → UdpServer E
  unfolding call_receiver
  call_income_message_handler bytes_transferred s =
      call_receiver
        (record s { tasks = s.tasks ++ recv_handler (take bytes_transferred s.recv_buff) ∷ [] })

  unfoldable pub perform : Task → UdpServer E → UdpServer E × List (List ℕ × E)
  unfolding call_receiver call_income_message_handler
  perform failed s = (call_receiver s, [])
  perform (received n) s = (call_income_message_handler n s, [])
  perform (recv_handler raw_msg) s = (s, (raw_msg, s.src_ep) ∷ [])

  abbrev pub perform_first : List Task → UdpServer E → UdpServer E × List (List ℕ × E)
  perform_first [] s = (s, [])
  perform_first (t ∷ ts) s = perform t (record s { tasks = ts })

  -- The event loop calls its first task.
  unfoldable pub run_task : UdpServer E → UdpServer E × List (List ℕ × E)
  unfolding perform
  run_task s = perform_first s.tasks s
