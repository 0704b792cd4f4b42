-- ===== src/MessagePool/Pool/Refine.antt =====
-- The message_pool of src/ss_p2p/message_pool.cpp as a function from peers to the messages that wait
-- for them.
use ss_p2p_node_controller.Common.{
  ℕ, false, ◌≤◌, ite, if_pos, if_neg, Bool-cases, ◌≡◌, ◌≢◌, refl, sym, ap, ◌∙◌, inl, inr, List, [],
  ◌∷◌, ◌++◌, select, Option, arith,
}
use ss_p2p_node_controller.MessagePool.Buffer.{
  Received, MessageBuffer, Outcome, done, fault, drop_expired, upper_bound_age,
}
use ss_p2p_node_controller.MessagePool.Buffer.Order.{
  Rises, Rises-later, Rises-append, young, upper_bound_age-select, upper_bound_age-Rises,
}
use ss_p2p_node_controller.MessagePool.Pool.{
  MessagePool, Delivery, find_entry, store, refresh_tick, on_timer, call_refresh_tick, drop_all,
}
use ss_p2p_node_controller.MessagePool.Pool.Store.{queue_of, store_lem}

-- What happens to a pool: a message is stored, or the timer fires.
pub data Event (E I M : Type 0) : Type 0 where
  stores : ℕ → I → ℕ → ℕ → M → E → Event E I M
  ticks : ℕ → Event E I M

-- The clock does not run backwards, from the time `t` on.
abbrev pub Ordered : {E I M : Type 0} → ℕ → List (Event E I M) → Type 0
Ordered t [] = Unit
Ordered t (stores leftover id now later msg ep ∷ es) = (t ≤ now) × (now ≤ later) × Ordered later es
Ordered t (ticks now ∷ es) = (t ≤ now) × Ordered now es

-- A step after undefined behaviour has no meaning.
abbrev pub go_on :
    {E I M : Type 0}
    → Outcome (MessagePool E I M × Option (Delivery E I M))
    → (MessagePool E I M → Outcome (MessagePool E I M))
    → Outcome (MessagePool E I M)
go_on fault f = fault
go_on (done (p, ev)) f = f p

module _ {E I M P : Type 0} (calc_peer_id : E → P) (eq_peer : Discrete P) where
  -- The abstract pool: a message joins the queue of its peer, and old messages leave all queues.
  unfoldable pub abstract_step : Event E I M → (P → List (Received I M)) → P → List (Received I M)
  abstract_step (stores leftover id now later msg ep) queues pid =
      ite (eq_peer (calc_peer_id ep) pid)
        (queues pid ++ record { id = id; msg = msg; time = now } ∷ []) (queues pid)
  abstract_step (ticks now) queues pid = select (young now) (queues pid)

  unfoldable pub abstract_run :
      List (Event E I M) → (P → List (Received I M)) → P → List (Received I M)
  unfolding abstract_step
  abstract_run [] queues = queues
  abstract_run (e ∷ es) queues = abstract_run es (abstract_step e queues)

  queue_of-drop_all :
      (pid : P) (now : ℕ) (bs : List (MessageBuffer E I M))
      → queue_of calc_peer_id eq_peer pid (drop_all now bs)
        ≡ upper_bound_age now (queue_of calc_peer_id eq_peer pid bs)
  unfolding find_entry drop_expired
  queue_of-drop_all pid now [] = unfold upper_bound_age in refl
  queue_of-drop_all pid now (b ∷ bs) = elim (eq_peer (calc_peer_id b.binding_ep) pid) [
    | yes e ↦ rw (
      if_pos (eq_peer (calc_peer_id b.binding_ep) pid) e _ _,
      if_pos (eq_peer (calc_peer_id b.binding_ep) pid) e _ _,
    )
    | no e ↦
        rw
          (
            if_neg (eq_peer (calc_peer_id b.binding_ep) pid) e _ _,
            if_neg (eq_peer (calc_peer_id b.binding_ep) pid) e _ _,
          )
          (queue_of-drop_all pid now bs)
  ]

  refresh_tick-entries :
      (now : ℕ) (p : MessagePool E I M) → (refresh_tick now p).entries ≡ drop_all now p.entries
  unfolding refresh_tick call_refresh_tick
  refresh_tick-entries now p = elim (Bool-cases p.requires_refresh) [ inl e ↦ rw e | inr e ↦ rw e ]

  -- At the time `t`, the pool holds the queues, each in the order of time.
  abbrev pub Implements : ℕ → MessagePool E I M → (P → List (Received I M)) → Type 0
  Implements t p queues =
      (pid : P)
      → (queue_of calc_peer_id eq_peer pid p.entries ≡ queues pid) × Rises 0 t (queues pid)

  tick-Implements :
      (t now : ℕ) (p : MessagePool E I M) (queues : P → List (Received I M))
      → t ≤ now
      → Implements t p queues
      → Implements now (refresh_tick now p) (abstract_step (ticks now) queues)
  unfolding abstract_step
  tick-Implements t now p queues le h pid =
      let (same, rises) = h pid in
      let young_only : upper_bound_age now (queues pid) ≡ select (young now) (queues pid) =
        upper_bound_age-select now 0 t (queues pid) rises in
      (
        rw (refresh_tick-entries now p)
            (queue_of-drop_all pid now p.entries ∙ ap (upper_bound_age now) same ∙ young_only),
        rw (← young_only) (
            upper_bound_age-Rises now 0 now (queues pid)
              (Rises-later 0 t now (queues pid) le rises)),
      )

module _ {E I M P : Type 0} (calc_peer_id : E → P) (eq_peer : Discrete P)
    (eq_uuid : Discrete I) where
  store-Implements :
      (leftover : ℕ) (id : I) (t now later : ℕ) (msg : M) (ep : E) (p : MessagePool E I M)
      (queues : P → List (Received I M))
      → t ≤ now
      → now ≤ later
      → Implements calc_peer_id eq_peer t p queues
      → (p' : MessagePool E I M) × (ev : Option (Delivery E I M)) × (store calc_peer_id eq_peer
            eq_uuid leftover id now later msg ep p
          ≡ done (p', ev))
        × Implements calc_peer_id eq_peer later p'
            (abstract_step calc_peer_id eq_peer (stores leftover id now later msg ep) queues)
  unfolding abstract_step
  store-Implements leftover id t now later msg ep p queues before after h =
      let (p', ev, stored, own, others, _) =
        store_lem calc_peer_id eq_peer eq_uuid leftover id now later msg ep p in
      (p', ev, stored, next p' own others)
    where
      m : Received I M
      m = record { id = id; msg = msg; time = now }

      next :
          (p' : MessagePool E I M)
          → queue_of calc_peer_id eq_peer (calc_peer_id ep) p'.entries
            ≡ queue_of calc_peer_id eq_peer (calc_peer_id ep) p.entries ++ m ∷ []
          → ((other : P)
              → calc_peer_id ep ≢ other
              → queue_of calc_peer_id eq_peer other p'.entries
                ≡ queue_of calc_peer_id eq_peer other p.entries)
          → (pid : P)
          → (queue_of calc_peer_id eq_peer pid p'.entries
              ≡ ite (eq_peer (calc_peer_id ep) pid) (queues pid ++ m ∷ []) (queues pid))
            × Rises 0 later
                (ite (eq_peer (calc_peer_id ep) pid) (queues pid ++ m ∷ []) (queues pid))
      next p' own others pid = elim (eq_peer (calc_peer_id ep) pid) [
        | yes e ↦
            rw (if_pos (eq_peer (calc_peer_id ep) pid) e (queues pid ++ m ∷ []) (queues pid)) (
              ap (λ q. queue_of calc_peer_id eq_peer q p'.entries) (sym e)
                  ∙ own
                  ∙ ap (λ q. queue_of calc_peer_id eq_peer q p.entries ++ m ∷ []) e
                  ∙ ap (◌++ m ∷ []) (h pid).0,
              Rises-append 0 t later (queues pid) m (h pid).1 before after,
            )
        | no e ↦
            rw (if_neg (eq_peer (calc_peer_id ep) pid) e (queues pid ++ m ∷ []) (queues pid))
              (others pid e ∙ (h pid).0, Rises-later 0 t later (queues pid) (omega arith) (h pid).1)
      ]

module _ {E I M P : Type 0} (calc_peer_id : E → P) (eq_peer : Discrete P)
    (eq_uuid : Discrete I) where
  unfoldable pub run : List (Event E I M) → MessagePool E I M → Outcome (MessagePool E I M)
  unfolding store on_timer
  run [] p = done p
  run (stores leftover id now later msg ep ∷ es) p =
      go_on (store calc_peer_id eq_peer eq_uuid leftover id now later msg ep p) (run es)
  run (ticks now ∷ es) p = run es (on_timer now p)

  -- As long as the clock does not run backwards, a pool that starts as an abstract one stands for
  -- follows it through any sequence of stored messages and timer events: no step is undefined, and in
  -- the end the messages that wait for each peer are those of the abstract pool, in which a stored
  -- message joins the queue of its peer alone and every tick drops exactly the messages that are twenty
  -- minutes old.
  pub run-Implements :
      (es : List (Event E I M)) (t : ℕ) (p : MessagePool E I M) (queues : P → List (Received I M))
      → Ordered t es
      → Implements calc_peer_id eq_peer t p queues
      → (p' : MessagePool E I M) × (t' : ℕ) × (run es p ≡ done p')
        × Implements calc_peer_id eq_peer t' p' (abstract_run calc_peer_id eq_peer es queues)
  unfolding run abstract_run abstract_step on_timer
  run-Implements [] t p queues o h = (p, t, refl, h)
  run-Implements (stores leftover id now later msg ep ∷ es) t p queues o h =
      let (p', ev, stored, next) =
        store-Implements calc_peer_id eq_peer eq_uuid leftover id t now later msg ep p queues o.0
          o.1 h in
      let (last, t', ran, final) =
        run-Implements es later p'
          (abstract_step calc_peer_id eq_peer (stores leftover id now later msg ep) queues) o.2
          next in
      (last, t', rw stored ran, final)
  run-Implements (ticks now ∷ es) t p queues o h =
      run-Implements es now (on_timer now p) _ o.1
        (tick-Implements calc_peer_id eq_peer t now (record p { timer_armed = false }) queues o.0 h)
