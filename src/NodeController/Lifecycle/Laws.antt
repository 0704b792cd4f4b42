-- ===== src/NodeController/Lifecycle/Laws.antt =====
-- What start, stop and the tick of src/ss_p2p/node_controller.cpp bring about.
use mathlib.Core.Option.{some-injective}
use ss_p2p_node_controller.Common.{
  if◌then◌else◌, Bool-cases, inl, inr, ltb, ℕ, suc, ap, ◌+◌, ◌-◌, ◌≤◌, max, ◌≡◌, ◌≢◌, refl, sym,
  ◌∙◌, true, List, [], ◌∷◌, ◌++◌, map, length, Option, none, some, arith,
}
use ss_p2p_node_controller.Json.{Json}
use ss_p2p_node_controller.Endpoint.{Net}
use ss_p2p_node_controller.Kademlia.NodeId.{NodeId}
use ss_p2p_node_controller.Kademlia.DhtManager.Runs.{TableValid}
use ss_p2p_node_controller.Kademlia.RoutingTable.{RoutingTable}
use ss_p2p_node_controller.Kademlia.Maintainer
use ss_p2p_node_controller.Kademlia.Maintainer.{Maintainer, pending, tick_handler}
use ss_p2p_node_controller.Kademlia.Maintainer.Busy.{call-Waits}
use ss_p2p_node_controller.Observers.Base.{Ids}
use ss_p2p_node_controller.Ice.Message.{Packet, ice_packet}
use ss_p2p_node_controller.Ice.Reservation
use ss_p2p_node_controller.Ice.Reservation.{SrObject, waits, sync_get, new_sr, update_state}
use ss_p2p_node_controller.Ice.Binding.{BindingRequest, init, add_requested_ep}
use ss_p2p_node_controller.Ice.Agent.{Agent}
use ss_p2p_node_controller.Ice.StunServer.{
  Request, refused, asked, Asks, Collects, binding_request, binding_request_lem, request_node_count,
  ask, ask_all, ask_with,
}
use ss_p2p_node_controller.MessagePool.Pool
use ss_p2p_node_controller.UdpServer
use ss_p2p_node_controller.UdpServer.{UdpServer}
use ss_p2p_node_controller.NodeController.Lifecycle.{
  Controller, Sent, run_loop, request_global_ep, with_request, reservation, sync_get_global_address,
  start, call_tick, inquire_count, pending_waits,
}

module _ {J E : Type 0} where
  abbrev pub dests : List (Packet J E) → List E
  dests = map (λ p. p.dest)

  dests-ice_packet : (body : J) (eps : List E) → dests (map (ice_packet body) eps) ≡ eps
  dests-ice_packet body [] = refl
  dests-ice_packet body (ep ∷ eps) = ap (◌∷◌ ep) (dests-ice_packet body eps)

module _ {J E I : Type 0} (json : Json J) (ids : Ids I) (eq_id : Discrete I)
    (calc_node_id : E → NodeId) (any_ep : E) where
  dests-with_request :
      (use_sr : SrObject E → SrObject E) (id : I) (now : ℕ) (a : Agent J E I) (eps : List E)
      (r : Request E)
      → Asks eps r
      → dests (with_request json ids eq_id use_sr id now a r).1 ≡ eps
  dests-with_request use_sr id now a eps (refused sr) none_there = sym none_there
  dests-with_request use_sr id now a eps (asked b sent) (same, _) = dests-ice_packet _ sent ∙ same

  -- A request for the global endpoint goes to the targets and then to nodes of the table: at most one more
  -- than there are targets, or two if there are none.
  request_global_ep_lem :
      (id : I) (now : ℕ) (targets : List E) (t : RoutingTable E) (a : Agent J E I)
      → TableValid calc_node_id t
      → (a' : Agent J E I) × (sent : List (Packet J E)) × (extra : List E) × (request_global_ep json
            ids eq_id calc_node_id any_ep id now targets t a
          ≡ some (a', sent))
        × (dests sent ≡ targets ++ extra)
        × (length (targets ++ extra) ≤ max 1 (length targets) + 1)
        × Collects calc_node_id
            (request_node_count (length targets) inquire_count - length targets)
            targets
            t
            extra
  unfolding request_global_ep
  request_global_ep_lem id now targets t a (w, own) =
      let (r, extra, e, asks, short, from_table) =
        binding_request_lem calc_node_id any_ep targets inquire_count t w own in
      let (a', sent) = with_request json ids eq_id Reservation.async_get id now a r in
      (
        a',
        sent,
        extra,
        rw e refl,
        dests-with_request Reservation.async_get id now a (targets ++ extra) r asks,
        unfold request_node_count in (omega (arith, short)),
        from_table,
      )

module _ {E : Type 0} where
  sr-ask_all : (eps : List E) (b : BindingRequest E) → (ask_all eps b).sr ≡ b.sr
  unfolding ask_all
  sr-ask_all [] b = refl
  sr-ask_all (ep ∷ eps) b = sr-ask_all eps (add_requested_ep ep b)

  ask-waits : (any_ep : E) (eps : List E) → sync_get (reservation (ask any_ep eps)) ≡ waits
  unfolding ask sync_get new_sr init update_state
  ask-waits any_ep [] = refl
  ask-waits any_ep (ep ∷ eps) = rw (sr-ask_all (ep ∷ eps) (init (new_sr any_ep))) refl

  ask_with-waits :
      (any_ep : E) (targets : List E) (o : Option (List E)) (r : Request E)
      → ask_with any_ep targets o ≡ some r
      → sync_get (reservation r) ≡ waits
  ask_with-waits any_ep targets none r e = absurd cc
  ask_with-waits any_ep targets (some eps) r e =
      rw (← some-injective _ _ e) (ask-waits any_ep (targets ++ eps))

  binding_request-waits :
      (calc_node_id : E → NodeId) (any_ep : E) (targets : List E) (reliability : ℕ)
      (t : RoutingTable E) (r : Request E)
      → binding_request calc_node_id any_ep targets reliability t ≡ some r
      → sync_get (reservation r) ≡ waits
  unfolding binding_request
  binding_request-waits calc_node_id any_ep targets reliability t r e =
      elim (Bool-cases (ltb (length targets) (request_node_count (length targets) reliability))) [
        | inl more ↦ ask_with-waits any_ep targets _ r (rw more at e)
        | inr enough ↦ rw (← some-injective _ _ (rw enough at e)) (ask-waits any_ep targets)
      ]

module _ {J E I : Type 0} (json : Json J) (ids : Ids I) (eq_id : Discrete I)
    (calc_node_id : E → NodeId) (any_ep : E) where
  -- On a well-formed table whose nodes carry the ids of their endpoints, sync_get_global_address asks the
  -- boot nodes and after them, only if there is no boot node, one or two nodes that the table holds, or none
  -- if it holds none, and then waits. It also waits if there was no node to ask,
  -- so that nothing is sent and no answer can come.
  pub sync_get_global_address-waits :
      (id : I) (now : ℕ) (boot_eps : List E) (t : RoutingTable E) (a : Agent J E I)
      → TableValid calc_node_id t
      → (a' : Agent J E I) × (sent : List (Packet J E)) × (extra : List E)
        × (sync_get_global_address json ids eq_id calc_node_id any_ep id now boot_eps t a
            ≡ some (a', sent, waits))
        × (dests sent ≡ boot_eps ++ extra)
        × Collects calc_node_id
            (request_node_count (length boot_eps) inquire_count - length boot_eps)
            boot_eps
            t
            extra
  unfolding sync_get_global_address
  sync_get_global_address-waits id now boot_eps t a (w, own) =
      let (r, extra, e, asks, _, from_table) =
        binding_request_lem calc_node_id any_ep boot_eps inquire_count t w own in
      let (a', sent) = with_request json ids eq_id (λ sr. sr) id now a r in
      (
        a',
        sent,
        extra,
        rw (e, binding_request-waits calc_node_id any_ep boot_eps inquire_count t r e) refl,
        dests-with_request json ids eq_id calc_node_id any_ep (λ sr. sr) id now a
            (boot_eps ++ extra) r asks,
        from_table,
      )

module _ {E : Type 0} where
  receiving-start :
      (s : UdpServer E)
      → (UdpServer.start s).0.receiving ≡ (if s.is_open then suc s.receiving else s.receiving)
  unfolding UdpServer.start UdpServer.call_receiver
  receiving-start s = elim (Bool-cases s.is_open) [
    | inl open_ ↦ rw open_ refl
    | inr closed ↦ rw closed refl
  ]

module _ {J E A I U : Type 0} (json : Json J) (net : Net E A) (ids : Ids I) (eq_id : Discrete I)
    (calc_node_id : E → NodeId) (any_ep : E) (draw : ℕ → I) (id : I) (now : ℕ) where
  -- On a well-formed table whose nodes carry the ids of their endpoints, start returns. It asks the boot
  -- nodes for the global endpoint and after them, only if there is no boot node, one or two nodes that the
  -- table holds, or none if it holds none; afterwards the Kademlia part ticks and waits for its timer, the
  -- message pool is refreshed, and the node's own tick comes after 60 seconds. A timer that was set before
  -- is cancelled in each of these three parts, and the handler of that wait is still to be called. If the
  -- socket is open, one more receive is pending. The event loop runs, unless it was stopped before: then it
  -- stays so.
  pub start_lem :
      (boot_eps : List E) (c : Controller J E I U)
      → TableValid calc_node_id c.maintainer.dht.table
      → (c' : Controller J E I U) × (sent : Sent J E) × (extra : List E) × (start json net ids eq_id
            calc_node_id any_ep draw id now boot_eps c
          ≡ some (c', sent))
        × (dests sent.ice_agent ≡ boot_eps ++ extra)
        × (length (boot_eps ++ extra) ≤ max 1 (length boot_eps) + 1)
        × Collects calc_node_id
            (request_node_count (length boot_eps) inquire_count - length boot_eps)
            boot_eps
            c.maintainer.dht.table
            extra
        × (c'.maintainer.requires_tick ≡ true)
        × (c'.maintainer.timer ≢ none)
        × (c'.pool.requires_refresh ≡ true)
        × (c'.pool.timer_armed ≡ true)
        × (c'.tick_timer ≡ some 60)
        × (c'.maintainer.ready ≡ c.maintainer.ready ++ pending c.maintainer.timer)
        × (c'.pool.cancelled
            ≡ (if c.pool.timer_armed then c.pool.cancelled + 1 else c.pool.cancelled))
        × (c'.cancelled_ticks ≡ c.cancelled_ticks + pending_waits c.tick_timer)
        × (c'.server.receiving
            ≡ (if c.server.is_open then suc c.server.receiving else c.server.receiving))
        × (c'.loop ≡ run_loop c.loop)
  unfolding start Maintainer.start Pool.requires_refresh Pool.call_refresh_tick call_tick
      UdpServer.start UdpServer.call_receiver
  start_lem boot_eps c valid =
      let (m, pings, started, (on, same, queue, set)) =
        call-Waits json net ids eq_id calc_node_id any_ep draw now tick_handler
          (record c.maintainer { requires_tick = true }) refl valid in
      let (ice, packets, extra, asked_, dest, short, from_table) =
        request_global_ep_lem json ids eq_id calc_node_id any_ep id now boot_eps m.dht.table c.ice
          (rw same valid) in
      (
        call_tick 60 (record c {
          server = (UdpServer.start c.server).0;
          maintainer = m;
          ice = ice;
          pool = Pool.requires_refresh true c.pool;
          loop = run_loop c.loop;
        }),
        record { kademlia = pings; ice_agent = packets },
        extra,
        rw (started, asked_) refl,
        dest,
        short,
        rw same at from_table,
        on,
        set,
        refl,
        refl,
        refl,
        queue,
        refl,
        refl,
        receiving-start c.server,
        refl,
      )

  -- What a tick does to a node whose timer is set: it asks at most two nodes, sets the timer again and
  -- leaves as many cancelled handlers to be called, and the Kademlia part as it was.
  abbrev pub Ticks : Controller J E I U → Option (Controller J E I U × Sent J E) → Type 0
  Ticks c r =
      (c' : Controller J E I U) × (sent : Sent J E) × (r ≡ some (c', sent))
      × (length (dests sent.ice_agent) ≤ 2)
      × (c'.tick_timer ≡ some 60)
      × (c'.cancelled_ticks ≡ c.cancelled_ticks)
      × (c'.maintainer ≡ c.maintainer)
