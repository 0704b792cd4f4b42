-- ===== src/MessagePool/Buffer/Queue.antt =====
-- Taking messages out of a buffer of src/ss_p2p/message_pool.cpp.
use mathlib.Core.List.{append-nil}
use ss_p2p_node_controller.Common.{
  ℕ, zero, suc, ◌^◌, ◌≤◌, ◌<◌, ◌≡◌, ◌≢◌, ◌↔◌, refl, ap, inl, inr, Option-cases, if_pos, if_neg,
  List, [], ◌∷◌, ◌++◌, length, length-append, none, some, arith,
}
use ss_p2p_node_controller.MessagePool.Buffer.{
  Received, MessageBuffer, PopFlag, dequeue, peek, done, fault, push, pop, elem_at, erase_at,
  one_less, find_last, pop_found, pop_by_id,
}

module _ {I M : Type 0} where
  -- No message of the queue has the id.
  abbrev pub Lacks : I → List (Received I M) → Type 0
  Lacks id [] = Unit
  Lacks id (m ∷ ms) = (m.id ≢ id) × Lacks id ms

  split_at :
      (i : ℕ) (q : List (Received I M))
      → i < length q
      → (before : List (Received I M)) × (m : Received I M) × (after : List (Received I M)) × (q
          ≡ before ++ m ∷ after)
        × (length before ≡ i)
        × (elem_at i q ≡ some m)
        × (erase_at i q ≡ before ++ after)
  unfolding elem_at erase_at
  split_at i [] h = absurd (omega arith)
  split_at zero (m ∷ ms) h = ([], m, ms, refl, refl, refl, refl)
  split_at (suc i) (m ∷ ms) h =
      let (before, hit, after, e, l, found, left) = split_at i ms (omega arith) in
      (m ∷ before, hit, after, rw e, omega arith, found, ap (◌∷◌ m) left)

module _ {E I M : Type 0} where
  -- pop returns the message at the index, counted from the oldest, and takes exactly this message
  -- out of the buffer if its flag says so; an index beyond the end gives nothing and changes
  -- nothing, an empty buffer included.
  pub pop_lem :
      (idx : ℕ) (b : MessageBuffer E I M)
      → (idx < length b.msg_queue
          → (before : List (Received I M)) × (m : Received I M) × (after : List (Received I M))
            × (b.msg_queue ≡ before ++ m ∷ after)
            × (length before ≡ idx)
            × (pop idx peek b ≡ (b, some m))
            × ((pop idx dequeue b).0.msg_queue ≡ before ++ after)
            × ((pop idx dequeue b).1 ≡ some m))
        × (length b.msg_queue ≤ idx → (flag : PopFlag) → pop idx flag b ≡ (b, none))
  unfolding pop
  pop_lem idx b = (inside, outside)
    where
      open b use {msg_queue}

      inside :
          idx < length b.msg_queue
          → (before : List (Received I M)) × (m : Received I M) × (after : List (Received I M))
            × (b.msg_queue ≡ before ++ m ∷ after)
            × (length before ≡ idx)
            × (pop idx peek b ≡ (b, some m))
            × ((pop idx dequeue b).0.msg_queue ≡ before ++ after)
            × ((pop idx dequeue b).1 ≡ some m)
      inside h =
          let (before, m, after, e, l, found, left) = split_at idx b.msg_queue h in
          (before, m, after, e, l, ground arith, ground arith, ground arith)

      outside : length b.msg_queue ≤ idx → (flag : PopFlag) → pop idx flag b ≡ (b, none)
      outside h flag = ground arith

module _ {I M : Type 0} (eq_uuid : Discrete I) where
  find_last-none : (id : I) (q : List (Received I M)) → find_last eq_uuid id q ≡ none → Lacks id q
  unfolding find_last
  find_last-none id [] e = tt
  find_last-none id (m ∷ ms) e = elim (Option-cases (find_last eq_uuid id ms)) [
    | inl lost ↦ (λ same. absurd (ground arith), find_last-none id ms lost)
    | inr (hit, found) ↦ absurd (ground arith)
  ]

  find_last_lacking :
      (id : I) (q : List (Received I M)) → Lacks id q → find_last eq_uuid id q ≡ none
  unfolding find_last
  find_last_lacking id [] l = refl
  find_last_lacking id (m ∷ ms) l =
      rw (find_last_lacking id ms l.1) (if_neg (eq_uuid m.id id) l.0 _ _)

  -- A message at the end of the queue is the one that the loop of pop_by_id keeps.
  pub find_last_back :
      (q : List (Received I M)) (m : Received I M)
      → find_last eq_uuid m.id (q ++ m ∷ []) ≡ some (q, m, [])
  unfolding find_last
  find_last_back [] m = if_pos (eq_uuid m.id m.id) refl _ _
  find_last_back (x ∷ xs) m = rw (find_last_back xs m)

module _ {E I M : Type 0} (eq_uuid : Discrete I) where
  -- pop_by_id that dequeues runs into undefined behaviour, erasing the end of the queue, exactly
  -- when the buffer is not empty and holds no message with the id.
  pub pop_by_id-fault_iff :
      (id : I) (b : MessageBuffer E I M)
      → (pop_by_id eq_uuid id dequeue b ≡ fault) ↔ ((0 < length b.msg_queue) × Lacks id b.msg_queue)
  unfolding pop_by_id pop_found
  pop_by_id-fault_iff id b = (to, from)
    where
      to : pop_by_id eq_uuid id dequeue b ≡ fault → (0 < length b.msg_queue) × Lacks id b.msg_queue
      to h = elim (Option-cases (find_last eq_uuid id b.msg_queue)) [
        | inl lost ↦ (ground arith, find_last-none eq_uuid id b.msg_queue lost)
        | inr (hit, found) ↦ absurd (ground arith)
      ]

      from :
          (0 < length b.msg_queue) × Lacks id b.msg_queue → pop_by_id eq_uuid id dequeue b ≡ fault
      from h = ground (arith, find_last_lacking eq_uuid id b.msg_queue h.1)

  -- pop_by_id takes back exactly what push has stored: the message just pushed comes out, and the
  -- queue and the memory count are as they were.
  pub pop_by_id-push :
      (id : I) (now later : ℕ) (msg : M) (b : MessageBuffer E I M)
      → b.dynamic_mem_usage_bytes < 2 ^ 64
      → pop_by_id eq_uuid id dequeue (push id now later msg b)
        ≡ done (
          record b { last_received_at = later },
          some (record { id = id; msg = msg; time = now }),
        )
  unfolding pop_by_id pop_found push one_less
  pop_by_id-push id now later msg b h =
      let m : Received I M = record { id = id; msg = msg; time = now } in
      ground (
        arith,
        find_last_back eq_uuid b.msg_queue m,
        length-append b.msg_queue (m ∷ []),
        append-nil b.msg_queue,
      )
