-- ===== src/MessagePool/Pool/Store.antt =====
-- What store of src/ss_p2p/message_pool.cpp does to the pool, and what it hands to the hub.
use ss_p2p_node_controller.Common.{
  ℕ, Bool, true, false, if◌then◌else◌, if_pos, if_neg, ◌≡◌, ◌≢◌, refl, ap, ◌∙◌, inl, inr,
  Option-cases, List, [], ◌∷◌, ◌++◌, Option, none, some, length-append, arith,
}
use ss_p2p_node_controller.MessagePool.Buffer.{
  Received, MessageBuffer, done, dequeue, push, pop_by_id, pop_found, copy_buffer, new_buffer,
  one_less,
}
use ss_p2p_node_controller.MessagePool.Buffer.Queue.{find_last_back}
use ss_p2p_node_controller.MessagePool.Pool.{
  MessagePool, Delivery, find_entry, modify_entry, allocate_new_entry, ensure_entry, notify_hub,
  on_receive_message, store,
}

module _ {E I M P : Type 0} (calc_peer_id : E → P) (eq_peer : Discrete P) where
  -- The messages that wait for a peer; a peer without an entry has none.
  abbrev pub queue_in : Option (MessageBuffer E I M) → List (Received I M)
  queue_in none = []
  queue_in (some b) = b.msg_queue

  abbrev pub queue_of : P → List (MessageBuffer E I M) → List (Received I M)
  queue_of pid entries = queue_in (find_entry calc_peer_id eq_peer pid entries)

  find_entry-append_ne :
      (pid : P) (es : List (MessageBuffer E I M)) (b : MessageBuffer E I M)
      → calc_peer_id b.binding_ep ≢ pid
      → find_entry calc_peer_id eq_peer pid (es ++ b ∷ []) ≡ find_entry calc_peer_id eq_peer pid es
  unfolding find_entry
  find_entry-append_ne pid [] b h = if_neg (eq_peer (calc_peer_id b.binding_ep) pid) h _ _
  find_entry-append_ne pid (e ∷ es) b h = ground (arith, find_entry-append_ne pid es b h)

  find_entry-append_self :
      (es : List (MessageBuffer E I M)) (b : MessageBuffer E I M)
      → find_entry calc_peer_id eq_peer (calc_peer_id b.binding_ep) es ≡ none
      → find_entry calc_peer_id eq_peer (calc_peer_id b.binding_ep) (es ++ b ∷ []) ≡ some b
  unfolding find_entry
  find_entry-append_self [] b h =
      if_pos (eq_peer (calc_peer_id b.binding_ep) (calc_peer_id b.binding_ep)) refl _ _
  find_entry-append_self (e ∷ es) b h = ground (arith, find_entry-append_self es b)

  -- An update that keeps the endpoint changes the entry of its own peer and no other.
  find_entry-modify_self :
      (pid : P) (f : MessageBuffer E I M → MessageBuffer E I M) (es : List (MessageBuffer E I M))
      (b : MessageBuffer E I M)
      → ((c : MessageBuffer E I M) → (f c).binding_ep ≡ c.binding_ep)
      → find_entry calc_peer_id eq_peer pid es ≡ some b
      → find_entry calc_peer_id eq_peer pid (modify_entry calc_peer_id eq_peer pid f es)
        ≡ some (f b)
  unfolding find_entry modify_entry
  find_entry-modify_self pid f [] b keep h = absurd (cc)
  find_entry-modify_self pid f (e ∷ es) b keep h =
      ground (arith, keep e, ap calc_peer_id (keep e), find_entry-modify_self pid f es b keep)

  find_entry-modify_ne :
      (pid other : P) (f : MessageBuffer E I M → MessageBuffer E I M)
      (es : List (MessageBuffer E I M))
      → ((c : MessageBuffer E I M) → (f c).binding_ep ≡ c.binding_ep)
      → pid ≢ other
      → find_entry calc_peer_id eq_peer other (modify_entry calc_peer_id eq_peer pid f es)
        ≡ find_entry calc_peer_id eq_peer other es
  unfolding find_entry modify_entry
  find_entry-modify_ne pid other f [] keep h = refl
  find_entry-modify_ne pid other f (e ∷ es) keep h =
      ground (arith, ap calc_peer_id (keep e), find_entry-modify_ne pid other f es keep h)

  -- After ensure_entry the peer has an entry, with the messages that it had.
  ensure_entry_lem :
      (leftover : ℕ) (ep : E) (entries : List (MessageBuffer E I M))
      → (es : List (MessageBuffer E I M)) × (b : MessageBuffer E I M) × (ensure_entry calc_peer_id
            eq_peer leftover ep entries
          ≡ some es)
        × (find_entry calc_peer_id eq_peer (calc_peer_id ep) es ≡ some b)
        × (b.msg_queue ≡ queue_of (calc_peer_id ep) entries)
        × ((other : P)
            → calc_peer_id ep ≢ other
            → find_entry calc_peer_id eq_peer other es
              ≡ find_entry calc_peer_id eq_peer other entries)
  unfolding ensure_entry allocate_new_entry new_buffer
  ensure_entry_lem leftover ep entries =
      elim (Option-cases (find_entry calc_peer_id eq_peer (calc_peer_id ep) entries)) [
        | inl lost ↦ (
          entries ++ fresh ∷ [],
          fresh,
          rw (lost, ensure_entry) (rw (lost, allocate_new_entry)),
          find_entry-append_self entries fresh lost,
          rw lost,
          λ other h. find_entry-append_ne other entries fresh h,
        )
        | inr (b, found) ↦ (entries, b, rw (found, ensure_entry), found, rw found, λ other h. refl)
      ]
    where
      fresh : MessageBuffer E I M
      fresh = new_buffer leftover ep

-- The hub gets the message that has just been pushed.
pop_pushed :
    {E I M : Type 0} (eq_uuid : Discrete I) (id : I) (now later : ℕ) (msg : M)
    (b : MessageBuffer E I M)
    → (temp : MessageBuffer E I M) × (pop_by_id eq_uuid id dequeue
          (copy_buffer (push id now later msg b))
        ≡ done (temp, some (record { id = id; msg = msg; time = now })))
unfolding pop_by_id pop_found copy_buffer push
pop_pushed {I} {M} eq_uuid id now later msg b =
    let m : Received I M = record { id = id; msg = msg; time = now } in
    (
      record (push id now later msg b) {
        msg_queue = b.msg_queue ++ [];
        dynamic_mem_usage_bytes = one_less ((push id now later msg b).dynamic_mem_usage_bytes);
      },
      ground (arith, find_last_back eq_uuid b.msg_queue m, length-append b.msg_queue (m ∷ [])),
    )

module _ {E I M P : Type 0} (calc_peer_id : E → P) (eq_peer : Discrete P)
    (eq_uuid : Discrete I) where
  notify_hub_lem :
      (id : I) (now later : ℕ) (msg : M) (ep : E) (b : MessageBuffer E I M) (p : MessagePool E I M)
      → find_entry calc_peer_id eq_peer (calc_peer_id ep) p.entries ≡ some (push id now later msg b)
      → notify_hub calc_peer_id eq_peer eq_uuid id ep p
        ≡ done
            (p, some (record { src_ep = ep; received = record { id = id; msg = msg; time = now } }))
  unfolding notify_hub on_receive_message
  notify_hub_lem id now later msg ep b p found =
      let (temp, popped) = pop_pushed eq_uuid id now later msg b in
      rw (found, notify_hub) (rw popped)

  hub_branch :
      (id : I) (now later : ℕ) (msg : M) (ep : E) (b : MessageBuffer E I M) (p : MessagePool E I M)
      → find_entry calc_peer_id eq_peer (calc_peer_id ep) p.entries ≡ some (push id now later msg b)
      → (active : Bool)
      → (if active then notify_hub calc_peer_id eq_peer eq_uuid id ep p else done (p, none))
        ≡ done (
          p,
          (if active
              then some
                  (record { src_ep = ep; received = record { id = id; msg = msg; time = now } })
              else none),
        )
  hub_branch id now later msg ep b p found true = notify_hub_lem id now later msg ep b p found
  hub_branch id now later msg ep b p found false = refl

  -- store never fails: the message joins the back of its peer's queue, whether or not the peer had
  -- an entry, and no other peer's queue changes. If the hub is active, it receives exactly this
  -- message with its endpoint; the message stays in the pool all the same. If the hub is not
  -- active, it receives nothing.
  pub store_lem :
      (leftover : ℕ) (id : I) (now later : ℕ) (msg : M) (ep : E) (p : MessagePool E I M)
      → let m : Received I M = record { id = id; msg = msg; time = now } in
        (p' : MessagePool E I M) × (ev : Option (Delivery E I M)) × (store calc_peer_id eq_peer
            eq_uuid leftover id now later msg ep p
          ≡ done (p', ev))
        × (queue_of calc_peer_id eq_peer (calc_peer_id ep) p'.entries
            ≡ queue_of calc_peer_id eq_peer (calc_peer_id ep) p.entries ++ m ∷ [])
        × ((other : P)
            → calc_peer_id ep ≢ other
            → queue_of calc_peer_id eq_peer other p'.entries
              ≡ queue_of calc_peer_id eq_peer other p.entries)
        × (ev ≡ (if p.hub_active then some (record { src_ep = ep; received = m }) else none))
  unfolding store push
  store_lem leftover id now later msg ep p =
      let pid = calc_peer_id ep in
      let f = push id now later msg in
      let m : Received I M = record { id = id; msg = msg; time = now } in
      let (es, b, ensured, found, queue, others) =
        ensure_entry_lem calc_peer_id eq_peer leftover ep p.entries in
      let stored : MessagePool E I M = record p {
        entries = modify_entry calc_peer_id eq_peer pid f es;
      } in
      let found' = find_entry-modify_self calc_peer_id eq_peer pid f es b (λ c. refl) found in
      (
        stored,
        (if p.hub_active then some (record { src_ep = ep; received = m }) else none),
        rw (ensured, store) (hub_branch id now later msg ep b stored found' p.hub_active),
        rw (found', ← queue),
        λ other h. ap (queue_in calc_peer_id eq_peer) (
            find_entry-modify_ne calc_peer_id eq_peer pid other f es (λ c. refl) h
            ∙ others other h),
        refl,
      )
