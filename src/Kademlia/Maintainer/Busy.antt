-- ===== src/Kademlia/Maintainer/Busy.antt =====
-- What connection_maintainer of src/ss_p2p/kademlia/connection_maintainer.cpp does when it is started
-- while its timer is waited for.
use mathlib.Core.List.{append-eq-nil_iff}
use ss_p2p_node_controller.Common.{
  ℕ, suc, true, ltb, ◌≡◌, ◌≢◌, refl, ◌∙◌, Bool-cases, inl, inr, List, [], ◌∷◌, ◌++◌, Option, none,
  some,
}
use ss_p2p_node_controller.Json.{Json}
use ss_p2p_node_controller.Endpoint.{Net}
use ss_p2p_node_controller.Kademlia.NodeId.{NodeId}
use ss_p2p_node_controller.Kademlia.Node.{KNode}
use ss_p2p_node_controller.Kademlia.RoutingTable.{get_node_count}
use ss_p2p_node_controller.Kademlia.RoutingTable.Iterator.{tag_from}
use ss_p2p_node_controller.Kademlia.RoutingTable.Iterator.Walk.{refresh_walk-all}
use ss_p2p_node_controller.Kademlia.DirectController.Laws.{collect_endpoint_lem}
use ss_p2p_node_controller.Kademlia.DhtManager.{DhtManager, ping_request, find_node_request}
use ss_p2p_node_controller.Kademlia.DhtManager.Runs.{TableValid}
use ss_p2p_node_controller.Kademlia.Maintainer.{
  Maintainer, Handler, tick_handler, get_remote_nodes_handler, wait, pending, minimum_nodes,
  tick_done, refresh_pings, send_refresh_ping, tick, request_all, get_remote_nodes, call, start,
  run_first, run_ready,
}
use ss_p2p_node_controller.Observers.Base.{Ids}

module _ {E I : Type 0} where
  -- A handler is over: it has set the timer, and what was waited for before is called next.
  abbrev pub Waits : Maintainer E I → Maintainer E I → Type 0
  Waits m m' =
      (m'.requires_tick ≡ true)
      × (m'.dht.table ≡ m.dht.table)
      × (m'.ready ≡ m.ready ++ pending m.timer)
      × (m'.timer ≢ none)

queued : (hs : List Handler) (t : Option (ℕ × Handler)) → t ≢ none → hs ++ pending t ≢ []
queued hs none waited = absurd (waited refl)
queued hs (some (s, h)) waited =
    λ e. (let last : h ∷ [] ≡ [] = (append-eq-nil_iff.0 e).1 in absurd cc)

module _ {E I : Type 0} (calc_node_id : E → NodeId) where
  -- The event loop has a handler to call, although the timer has not come to its time.
  abbrev pub Busy : Maintainer E I → Type 0
  Busy m =
      (m.requires_tick ≡ true)
      × TableValid calc_node_id m.dht.table
      × (m.ready ≢ [])
      × (m.timer ≢ none)

module _ {J E A I : Type 0} (json : Json J) (net : Net E A) (ids : Ids I) (eq_id : Discrete I)
    (calc_node_id : E → NodeId) (root_ep : E) (draw : ℕ → I) (now : ℕ) where
  refresh_pings-table :
      (k : ℕ) (ns : List (ℕ × KNode E)) (d : DhtManager E I)
      → (refresh_pings json net ids eq_id calc_node_id root_ep draw now k ns d).0.table ≡ d.table
  unfolding refresh_pings ping_request
  refresh_pings-table k [] d = refl
  refresh_pings-table k ((_, n) ∷ ns) d = refresh_pings-table (suc k) ns _

  request_all-table :
      (k : ℕ) (igs eps : List E) (d : DhtManager E I)
      → (request_all json net ids eq_id calc_node_id root_ep draw now k igs eps d).0.table ≡ d.table
  unfolding request_all find_node_request
  request_all-table k igs [] d = refl
  request_all-table k igs (ep ∷ eps) d = request_all-table (suc k) igs eps _

  tick_done-Waits : (m : Maintainer E I) → m.requires_tick ≡ true → Waits m (tick_done m)
  unfolding tick_done wait
  tick_done-Waits m on = rw on (refl, refl, refl, λ e. absurd cc)

  pub call-Waits :
      (h : Handler) (m : Maintainer E I)
      → m.requires_tick ≡ true
      → TableValid calc_node_id m.dht.table
      → (m' : Maintainer E I) × (sent : List (E × J)) × (call json net ids eq_id calc_node_id
            root_ep draw now h m
          ≡ some (m', sent))
        × Waits m m'
  unfolding tick send_refresh_ping wait get_remote_nodes
  call-Waits tick_handler m on (w, own) =
      let pings = tag_from 0 m.dht.table.table in
      let (d, sent) =
        refresh_pings json net ids eq_id calc_node_id root_ep draw now 0 pings m.dht in
      (
        wait 6 get_remote_nodes_handler (record m { dht = d }),
        sent,
        rw (on, refresh_walk-all m.dht.table w.size) refl,
        (on, refresh_pings-table 0 pings m.dht, refl, λ e. absurd cc),
      )
  call-Waits get_remote_nodes_handler m on (w, own) =
      elim (Bool-cases (ltb (get_node_count m.dht.table) minimum_nodes)) [
        | inl few ↦
            let (eps, e, _) = collect_endpoint_lem calc_node_id root_ep 5 [] m.dht.table w own in
            let (d, sent) =
              request_all json net ids eq_id calc_node_id root_ep draw now 0 eps eps m.dht in
            let (on', same, queue, set) = tick_done-Waits (record m { dht = d }) on in
            (
              tick_done (record m { dht = d }),
              sent,
              rw (few, e) refl,
              (on', same ∙ request_all-table 0 eps eps m.dht, queue, set),
            )
        | inr enough ↦ (tick_done m, [], rw enough refl, tick_done-Waits m on)
      ]

  -- When start is called on such a table while the timer is waited for, it returns, and the cancelled
  -- handler is ready at once.
  pub start-Busy :
      (m : Maintainer E I)
      → TableValid calc_node_id m.dht.table
      → m.timer ≢ none
      → (m' : Maintainer E I) × (sent : List (E × J)) × (start json net ids eq_id calc_node_id
            root_ep draw now m
          ≡ some (m', sent))
        × Busy calc_node_id m'
  unfolding start
  start-Busy m valid waited =
      let (m', sent, e, (on, same, queue, set)) =
        call-Waits tick_handler (record m { requires_tick = true }) refl valid in
      (m', sent, e, (on, rw same valid, rw queue (queued m.ready m.timer waited), set))

  run_first-Busy :
      (hs : List Handler) (m : Maintainer E I)
      → hs ≢ []
      → m.requires_tick ≡ true
      → TableValid calc_node_id m.dht.table
      → m.timer ≢ none
      → (m' : Maintainer E I) × (sent : List (E × J)) × (run_first json net ids eq_id calc_node_id
            root_ep draw now hs m
          ≡ some (m', sent))
        × Busy calc_node_id m'
  run_first-Busy [] m busy on valid waited = absurd (busy refl)
  run_first-Busy (h ∷ hs) m busy on valid waited =
      let (m', sent, e, (on', same, queue, set)) =
        call-Waits h (record m { ready = hs }) on valid in
      (m', sent, e, (on', rw same valid, rw queue (queued hs m.timer waited), set))

  -- Let ticks be required and the table be well formed, its nodes under the ids of their endpoints. When
  -- a handler is ready while the timer is waited for, the event loop's call of the first handler
  -- returns, ticks are still required, the table is as before in order, and again a handler is ready
  -- while the timer is waited for: the loop never rests.
  pub run_ready-Busy :
      (m : Maintainer E I)
      → Busy calc_node_id m
      → (m' : Maintainer E I) × (sent : List (E × J)) × (run_ready json net ids eq_id calc_node_id
            root_ep draw now m
          ≡ some (m', sent))
        × Busy calc_node_id m'
  unfolding run_ready
  run_ready-Busy m (on, valid, busy, waited) = run_first-Busy m.ready m busy on valid waited
