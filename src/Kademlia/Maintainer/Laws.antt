-- ===== src/Kademlia/Maintainer/Laws.antt =====
-- What a connection_maintainer of src/ss_p2p/kademlia/connection_maintainer.cpp sends, and how long it
-- waits.
use ss_p2p_node_controller.Common.{
  ℕ, suc, ◌≤◌, true, ltb, ◌≡◌, refl, ap, List, [], ◌∷◌, ◌++◌, length, tests, Bool-cases, inl, inr,
  some, arith,
}
use ss_p2p_node_controller.Json.{Json}
use ss_p2p_node_controller.Endpoint.{Net}
use ss_p2p_node_controller.Kademlia.NodeId.{NodeId}
use ss_p2p_node_controller.Kademlia.Node.{KNode}
use ss_p2p_node_controller.Kademlia.RoutingTable.{get_node_count}
use ss_p2p_node_controller.Kademlia.RoutingTable.Placement.{IsWellFormed}
use ss_p2p_node_controller.Kademlia.RoutingTable.Count.{get_node_count_lem}
use ss_p2p_node_controller.Kademlia.RoutingTable.Iterator.{tag_from}
use ss_p2p_node_controller.Kademlia.RoutingTable.Iterator.Walk.{refresh_walk-all}
use ss_p2p_node_controller.Kademlia.DirectController.Laws.{Owned, collect_endpoint_lem}
use ss_p2p_node_controller.Kademlia.DhtManager.{
  DhtManager, ping_message, ping_request, find_node_request,
}
use ss_p2p_node_controller.Kademlia.Maintainer.{
  Maintainer, pending, get_remote_nodes_handler, wait, minimum_nodes, next_tick_time, tick_done,
  refresh_pings, send_refresh_ping, tick, request_all, get_remote_nodes,
}
use ss_p2p_node_controller.Observers.Base.{Ids}

module _ {E I : Type 0} where
  -- The wait for the next tick is at least 10 seconds, and on a well-formed table at most 12800.
  pub next_tick_time_lem :
      (d : DhtManager E I)
      → IsWellFormed d.table
      → (10 ≤ next_tick_time d) × (next_tick_time d ≤ 12800)
  unfolding next_tick_time
  next_tick_time_lem d w = let h = (get_node_count_lem d.table w).1 in ground arith

module _ {J E A I : Type 0} (json : Json J) (net : Net E A) (ids : Ids I) (eq_id : Discrete I)
    (calc_node_id : E → NodeId) (root_ep : E) (draw : ℕ → I) (now : ℕ) where
  -- Each node gets a ping of its own, with the next id that is drawn.
  abbrev pub pings_to : ℕ → List (ℕ × KNode E) → List (E × J)
  pings_to k [] = []
  pings_to k ((_, n) ∷ ns) = (n.ep, ping_message json ids (draw k)) ∷ pings_to (suc k) ns

  refresh_pings-sent :
      (k : ℕ) (ns : List (ℕ × KNode E)) (d : DhtManager E I)
      → (refresh_pings json net ids eq_id calc_node_id root_ep draw now k ns d).1 ≡ pings_to k ns
  unfolding refresh_pings ping_request
  refresh_pings-sent k [] d = refl
  refresh_pings-sent k ((_, n) ∷ ns) d =
      ap (λ ps. (n.ep, ping_message json ids (draw k)) ∷ ps) (refresh_pings-sent (suc k) ns _)

  length-request_all :
      (k : ℕ) (igs eps : List E) (d : DhtManager E I)
      → length (request_all json net ids eq_id calc_node_id root_ep draw now k igs eps d).1
        ≡ length eps
  unfolding request_all find_node_request
  length-request_all k igs [] d = refl
  length-request_all k igs (ep ∷ eps) d = ap suc (length-request_all (suc k) igs eps _)

  -- A tick that is required sends every node of a table of 160 buckets one ping, bucket after bucket and each
  -- with a new id, and nothing else; and it waits 6 seconds for get_remote_nodes. A wait that was pending
  -- is cancelled, and its handler is called next.
  pub tick_lem :
      (m : Maintainer E I)
      → m.requires_tick ≡ true
      → length m.dht.table.table ≡ 160
      → (m' : Maintainer E I) × (sent : List (E × J)) × (tick json net ids eq_id calc_node_id
            root_ep draw now m
          ≡ some (m', sent))
        × (m'.timer ≡ some (6, get_remote_nodes_handler))
        × (sent ≡ pings_to 0 (tag_from 0 m.dht.table.table))
        × (m'.ready ≡ m.ready ++ pending m.timer)
  unfolding tick send_refresh_ping wait
  tick_lem m on size =
      let pings = tag_from 0 m.dht.table.table in
      let (d, sent) =
        refresh_pings json net ids eq_id calc_node_id root_ep draw now 0 pings m.dht in
      (
        wait 6 get_remote_nodes_handler (record m { dht = d }),
        sent,
        rw (on, refresh_walk-all m.dht.table size) refl,
        refl,
        refresh_pings-sent 0 pings m.dht,
        refl,
      )

  -- On a well-formed table whose nodes carry the ids of their endpoints, get_remote_nodes always
  -- returns, with at most 6 requests, and none if the table has 5 nodes.
  pub get_remote_nodes_lem :
      (m : Maintainer E I)
      → IsWellFormed m.dht.table
      → Owned calc_node_id m.dht.table
      → (m' : Maintainer E I) × (sent : List (E × J)) × (get_remote_nodes json net ids eq_id
            calc_node_id root_ep draw now m
          ≡ some (m', sent))
        × (length sent ≤ 6)
        × (minimum_nodes ≤ get_node_count m.dht.table → sent ≡ [])
  unfolding get_remote_nodes
  get_remote_nodes_lem m w own =
      elim (Bool-cases (ltb (get_node_count m.dht.table) minimum_nodes)) [
        | inl few ↦
            let (eps, e, collected) =
              collect_endpoint_lem calc_node_id root_ep 5 [] m.dht.table w own in
            let (d, sent) =
              request_all json net ids eq_id calc_node_id root_ep draw now 0 eps eps m.dht in
            (
              tick_done (record m { dht = d }),
              sent,
              rw (few, e) refl,
              rw (length-request_all 0 eps eps m.dht) collected.short,
              λ enough. absurd (omega (tests, few, enough)),
            )
        | inr enough ↦ (tick_done m, [], rw enough refl, omega arith, λ _. refl)
      ]
