-- ===== src/Peer/Laws.antt =====
-- What receive of src/ss_p2p/peer.cpp returns.
use ss_p2p_node_controller.Common.{
  ℕ, zero, suc, ◌≤◌, ◌≡◌, refl, false, leb, List, [], ◌∷◌, map, length, take, none, some, arith,
}
use ss_p2p_node_controller.Json.{ℤ, pos, negsuc}
use ss_p2p_node_controller.MessagePool.Buffer
use ss_p2p_node_controller.MessagePool.Buffer.{Received, MessageBuffer, dequeue, one_less}
use ss_p2p_node_controller.Peer.{
  Peer, SsMessage, Receive, fault, waits, returns, wait_for_pop, receive,
}

module _ {E U J : Type 0} where
  pop_empty : (b : MessageBuffer E U J) → b.msg_queue ≡ [] → Buffer.pop 0 dequeue b ≡ (b, none)
  unfolding Buffer.pop
  pop_empty b e = rw e refl

  abbrev pub popped : MessageBuffer E U J → List (Received U J) → MessageBuffer E U J
  popped b q = record b {
    msg_queue = q;
    dynamic_mem_usage_bytes = one_less b.dynamic_mem_usage_bytes;
  }

  pop_first :
      (b : MessageBuffer E U J) (m : Received U J) (q : List (Received U J))
      → b.msg_queue ≡ m ∷ q
      → Buffer.pop 0 dequeue b ≡ (popped b q, some m)
  unfolding Buffer.pop Buffer.pop_flagged Buffer.elem_at Buffer.erase_at
  pop_first b m q e = let t : leb (suc (length q)) 0 ≡ false = ground arith in rw (e, t) refl

  wait_empty :
      (wakeups : ℕ) (b : MessageBuffer E U J)
      → b.msg_queue ≡ []
      → wait_for_pop wakeups b ≡ (b, none)
  unfolding wait_for_pop
  wait_empty zero b e = pop_empty b e
  wait_empty (suc wakeups) b e = rw (pop_empty b e, wait_for_pop) (wait_empty wakeups b e)

  abbrev pub ss_message : E → Received U J → SsMessage J E
  ss_message ep m = record { body = m.msg; src_endpoint = ep; timestamp = m.time }

module _ {E U J P : Type 0} where
  -- What `receive` has to do, for a buffer with the queue `q`.
  abbrev pub Receives :
      ℤ → Peer E U J P → List (Received U J) → Peer E U J P × Receive (SsMessage J E) → Type 0
  Receives timeout p (m ∷ q) (p', r) =
      (r ≡ returns (ss_message p.ep m))
      × (p'.ep ≡ p.ep)
      × ((b' : MessageBuffer E U J) × (p'.entry ≡ some b') × (b'.msg_queue ≡ q))
  Receives (negsuc zero) p [] (p', r) = (r ≡ waits) × (p'.entry ≡ p.entry)
  Receives timeout p [] (p', r) = (r ≡ fault) × (p'.entry ≡ p.entry)

  -- On a peer that holds a buffer, receive returns the oldest message, with the endpoint of the peer, and
  -- leaves the others in their order. If the queue is empty, a call without a timeout (-1) still waits, however
  -- often it is woken up, and any other call dereferences a null pointer.
  pub receive-Receives :
      (timeout : ℤ) (wakeups : ℕ) (p : Peer E U J P) (b : MessageBuffer E U J)
      → p.entry ≡ some b
      → Receives timeout p b.msg_queue (receive timeout wakeups p)
  unfolding receive
  receive-Receives timeout wakeups p b e = go b.msg_queue refl timeout
    where
      go :
          (q : List (Received U J))
          → b.msg_queue ≡ q
          → (t : ℤ) → Receives t p q (receive t wakeups p)
      go (m ∷ q) queue t = rw (e, pop_first b m q queue) (refl, refl, (popped b q, refl, refl))
      go [] queue (pos zero) = rw (e, pop_empty b queue) (refl, refl)
      go [] queue (pos (suc n)) = rw (e, pop_empty b queue, wait_empty wakeups b queue) (refl, refl)
      go [] queue (negsuc zero) = rw (e, pop_empty b queue, wait_empty wakeups b queue) (refl, refl)
      go [] queue (negsuc (suc n)) =
          rw (e, pop_empty b queue, wait_empty wakeups b queue) (refl, refl)

  -- A number of calls of receive, one after the other, and what they return.
  unfoldable pub receives : ℕ → ℤ → ℕ → Peer E U J P → List (Receive (SsMessage J E))
  unfolding receive
  receives zero timeout wakeups p = []
  receives (suc k) timeout wakeups p =
      let (p', r) = receive timeout wakeups p in
      let rest = receives k timeout wakeups p' in r ∷ rest

  -- As long as the buffer of a peer holds messages, calls of receive return them from the oldest on,
  -- each with the endpoint of the peer, whatever the timeout is.
  pub receives-take :
      (k : ℕ) (timeout : ℤ) (wakeups : ℕ) (p : Peer E U J P) (b : MessageBuffer E U J)
      (q : List (Received U J))
      → p.entry ≡ some b
      → b.msg_queue ≡ q
      → k ≤ length q
      → receives k timeout wakeups p ≡ map (λ m. returns (ss_message p.ep m)) (take k q)
  unfolding receives
  receives-take zero timeout wakeups p b q e queue h = refl
  receives-take (suc k) timeout wakeups p b [] e queue h = absurd (omega arith)
  receives-take (suc k) timeout wakeups p b (m ∷ q) e queue h =
      let (r, same, (b', entry, rest)) = rw queue at (receive-Receives timeout wakeups p b e) in
      let later =
        receives-take k timeout wakeups (receive timeout wakeups p).0 b' q entry rest
          (omega arith) in
      rw (r, later, same) refl
