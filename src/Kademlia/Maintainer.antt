-- ===== src/Kademlia/Maintainer.antt =====
-- connection_maintainer of src/ss_p2p/kademlia/connection_maintainer.cpp, and start and stop of
-- dht_manager.cpp. The clock and the ids of new observers (`draw k` for the k-th request of a handler)
-- are arguments; `root_ep` is the endpoint 0.0.0.0:0. What the handlers of the pings do to a bucket is
-- in RoutingTable/Iterator.
pub mod Laws
pub mod Busy
use ss_p2p_node_controller.Common.{
  ℕ, suc, ◌+◌, ◌*◌, Bool, true, false, ltb, if◌then◌else◌, List, [], ◌∷◌, ◌++◌, Option, none, some,
  ◌>>=◌,
}
use ss_p2p_node_controller.Json.{Json}
use ss_p2p_node_controller.Endpoint.{Net}
use ss_p2p_node_controller.Kademlia.NodeId.{NodeId}
use ss_p2p_node_controller.Kademlia.Node.{KNode}
use ss_p2p_node_controller.Kademlia.RoutingTable.{get_node_count}
use ss_p2p_node_controller.Kademlia.RoutingTable.Iterator.{refresh_walk, get_begin_bucket_iterator}
use ss_p2p_node_controller.Kademlia.DirectController.{collect_endpoint}
use ss_p2p_node_controller.Kademlia.DhtManager.{DhtManager, ping_request, find_node_request}
use ss_p2p_node_controller.Observers.Base.{Ids}
use ss_p2p_node_controller.Observers.Ping.{ping_response_timeout}

abbrev pub minimum_nodes : ℕ
minimum_nodes = 5

-- What the timer is waited for with.
pub data Handler : Type 0 where
  tick_handler : Handler
  get_remote_nodes_handler : Handler

-- `timer` is the pending wait with its seconds, `ready` the handlers that the event loop has to call.
pub record Maintainer (E I : Type 0) : Type 0 where
  pub requires_tick : Bool
  pub timer : Option (ℕ × Handler)
  pub ready : List Handler
  pub dht : DhtManager E I

abbrev pub pending : Option (ℕ × Handler) → List Handler
pending none = []
pending (some (_, h)) = h ∷ []

module _ {E I : Type 0} where
  -- `expires_from_now` and `async_wait`: the wait before is cancelled, and since the handlers ignore
  -- the error code, a cancelled one still is called.
  unfoldable pub wait : ℕ → Handler → Maintainer E I → Maintainer E I
  wait s h m = record m { ready = m.ready ++ pending m.timer; timer = some (s, h) }

  unfoldable pub next_tick_time : DhtManager E I → ℕ
  unfolding get_node_count
  next_tick_time d =
      let node_count = get_node_count d.table in
      if ltb node_count minimum_nodes then 10 else node_count * 20

  unfoldable pub tick_done : Maintainer E I → Maintainer E I
  unfolding next_tick_time wait
  tick_done m = if m.requires_tick then wait (next_tick_time m.dht) tick_handler m else m

  unfoldable pub stop : Maintainer E I → Maintainer E I
  stop m = record m { requires_tick = false }

module _ {J E A I : Type 0} (json : Json J) (net : Net E A) (ids : Ids I) (eq_id : Discrete I)
    (calc_node_id : E → NodeId) (root_ep : E) (draw : ℕ → I) (now : ℕ) where
  -- The pings of send_refresh_ping, from the `k`-th request on.
  unfoldable pub refresh_pings :
      ℕ → List (ℕ × KNode E) → DhtManager E I → DhtManager E I × List (E × J)
  unfolding ping_request
  refresh_pings k [] d = (d, [])
  refresh_pings k ((_, n) ∷ ns) d =
      let (d', e) = ping_request json net ids eq_id calc_node_id (draw k) now n.ep d in
      let (d'', sent) = refresh_pings (suc k) ns d' in (d'', e.sent ++ sent)

  -- `none` would mean that the walk over the buckets does not end.
  unfoldable pub send_refresh_ping : DhtManager E I → Option (DhtManager E I × List (E × J))
  unfolding refresh_walk get_begin_bucket_iterator refresh_pings
  send_refresh_ping d = do
    ns ← refresh_walk d.table 161 get_begin_bucket_iterator []
    some (refresh_pings 0 ns d)

  unfoldable pub tick : Maintainer E I → Option (Maintainer E I × List (E × J))
  unfolding send_refresh_ping wait
  tick m =
      if m.requires_tick
      then (do
        (d, sent) ← send_refresh_ping m.dht
        some (
          wait (ping_response_timeout + 1) get_remote_nodes_handler (record m { dht = d }),
          sent,
        ))
      else some (m, [])

  -- The find_node requests, each with all the endpoints to ignore.
  unfoldable pub request_all : ℕ → List E → List E → DhtManager E I → DhtManager E I × List (E × J)
  unfolding find_node_request
  request_all k ignore_eps [] d = (d, [])
  request_all k ignore_eps (ep ∷ eps) d =
      let (d', e) =
        find_node_request json net ids eq_id calc_node_id (draw k) now ep ignore_eps d in
      let (d'', sent) = request_all (suc k) ignore_eps eps d' in (d'', e.sent ++ sent)

  unfoldable pub get_remote_nodes : Maintainer E I → Option (Maintainer E I × List (E × J))
  unfolding get_node_count collect_endpoint request_all tick_done
  get_remote_nodes m =
      if ltb (get_node_count m.dht.table) minimum_nodes
      then (do
        request_eps ← collect_endpoint calc_node_id root_ep 5 [] m.dht.table
        let (d, sent) = request_all 0 request_eps request_eps m.dht
        some (tick_done (record m { dht = d }), sent))
      else some (tick_done m, [])

  unfoldable pub start : Maintainer E I → Option (Maintainer E I × List (E × J))
  unfolding tick
  start m = tick (record m { requires_tick = true })

  abbrev pub call : Handler → Maintainer E I → Option (Maintainer E I × List (E × J))
  call tick_handler m = tick m
  call get_remote_nodes_handler m = get_remote_nodes m

  -- The event loop calls the first ready handler.
  abbrev pub run_first : List Handler → Maintainer E I → Option (Maintainer E I × List (E × J))
  run_first [] m = some (m, [])
  run_first (h ∷ hs) m = call h (record m { ready = hs })

  unfoldable pub run_ready : Maintainer E I → Option (Maintainer E I × List (E × J))
  unfolding tick get_remote_nodes
  run_ready m = run_first m.ready m
