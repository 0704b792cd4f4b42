-- ===== src/MessagePool/Buffer/Order.antt =====
-- The buffers of src/ss_p2p/message_pool.cpp stay in the order of time, and what that gives to the
-- two operations that search by time.
use ss_p2p_node_controller.Common.{
  ℕ, ◌+◌, ◌≤◌, ◌<◌, Bool, ◌≡◌, refl, sym, ap, inl, inr, Bool-cases, ltb, List, [], ◌∷◌, ◌++◌,
  select, arith,
}
use ss_p2p_node_controller.MessagePool.Buffer.{
  Received, MessageBuffer, push, upper_bound_age, drop_expired, message_lifetime,
}

-- The times of a queue rise from one message to the next, from `low` up to `high`.
abbrev pub Rises : {I M : Type 0} → ℕ → ℕ → List (Received I M) → Type 0
Rises low high [] = low ≤ high
Rises low high (m ∷ ms) = (low ≤ m.time) × Rises m.time high ms

-- A buffer at clock `now`: its messages are in the order of time and none is from the future.
abbrev pub InOrder : {E I M : Type 0} → ℕ → MessageBuffer E I M → Type 0
InOrder now b = Rises 0 now b.msg_queue

module _ {I M : Type 0} where
  pub Rises-later :
      (low high high' : ℕ) (q : List (Received I M))
      → high ≤ high'
      → Rises low high q
      → Rises low high' q
  Rises-later low high high' [] h r = omega arith
  Rises-later low high high' (m ∷ ms) h r = (r.0, Rises-later m.time high high' ms h r.1)

  Rises-earlier :
      (low low' high : ℕ) (q : List (Received I M))
      → low' ≤ low
      → Rises low high q
      → Rises low' high q
  Rises-earlier low low' high [] h r = omega arith
  Rises-earlier low low' high (m ∷ ms) h r = (omega arith, r.1)

  Rises-le : (low high : ℕ) (q : List (Received I M)) → Rises low high q → low ≤ high
  Rises-le low high [] r = r
  Rises-le low high (m ∷ ms) r = omega (arith, Rises-le m.time high ms r.1)

  pub Rises-append :
      (low high now : ℕ) (q : List (Received I M)) (m : Received I M)
      → Rises low high q
      → high ≤ m.time
      → m.time ≤ now
      → Rises low now (q ++ m ∷ [])
  Rises-append low high now [] m r h k = omega arith
  Rises-append low high now (x ∷ xs) m r h k = (r.0, Rises-append x.time high now xs m r.1 h k)

  -- The messages that are younger than the lifetime.
  abbrev pub young : ℕ → Received I M → Bool
  young now m = ltb now (m.time + message_lifetime)

  select_all :
      (now low high : ℕ) (q : List (Received I M))
      → now < low + message_lifetime
      → Rises low high q
      → select (young now) q ≡ q
  select_all now low high [] h r = refl
  select_all now low high (m ∷ ms) h r =
      let rest = select_all now m.time high ms (omega arith) r.1 in ground arith

  pub upper_bound_age-select :
      (now low high : ℕ) (q : List (Received I M))
      → Rises low high q
      → upper_bound_age now q ≡ select (young now) q
  unfolding upper_bound_age
  upper_bound_age-select now low high [] r = refl
  upper_bound_age-select now low high (m ∷ ms) r =
      elim (Bool-cases (ltb now (m.time + message_lifetime))) [
        | inl fresh ↦ rw fresh (ap (◌∷◌ m) (sym (select_all now m.time high ms (ground arith) r.1)))
        | inr old ↦ rw old (upper_bound_age-select now m.time high ms r.1)
      ]

  pub upper_bound_age-Rises :
      (now low high : ℕ) (q : List (Received I M))
      → Rises low high q
      → Rises low high (upper_bound_age now q)
  unfolding upper_bound_age
  upper_bound_age-Rises now low high [] r = r
  upper_bound_age-Rises now low high (m ∷ ms) r =
      elim (Bool-cases (ltb now (m.time + message_lifetime))) [
        | inl fresh ↦ rw fresh r
        | inr old ↦
            rw old
              (Rises-earlier m.time low high _ r.0 (upper_bound_age-Rises now m.time high ms r.1))
      ]

module _ {E I M : Type 0} where
  -- push keeps a buffer in the order of time, as long as the clock does not run backwards.
  pub push-InOrder :
      (id : I) (before now later : ℕ) (msg : M) (b : MessageBuffer E I M)
      → InOrder before b
      → before ≤ now
      → now ≤ later
      → InOrder later (push id now later msg b)
  unfolding push
  push-InOrder id before now later msg b o h k =
      Rises-append 0 before later b.msg_queue (record { id = id; msg = msg; time = now }) o h k

  pub drop_expired-InOrder :
      (before now : ℕ) (b : MessageBuffer E I M)
      → InOrder before b
      → before ≤ now
      → InOrder now (drop_expired now b)
  unfolding drop_expired
  drop_expired-InOrder before now b o h =
      upper_bound_age-Rises now 0 now b.msg_queue (Rises-later 0 before now b.msg_queue h o)

  -- On a buffer in the order of time, the refresh keeps exactly the messages received less than
  -- twenty minutes ago, in their order.
  pub drop_expired-select :
      (before now : ℕ) (b : MessageBuffer E I M)
      → InOrder before b
      → (drop_expired now b).msg_queue ≡ select (young now) b.msg_queue
  unfolding drop_expired
  drop_expired-select before now b o = upper_bound_age-select now 0 before b.msg_queue o
