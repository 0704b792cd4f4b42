-- ===== src/Kademlia/DhtManager/Runs.antt =====
-- The states of a dht_manager of src/ss_p2p/kademlia/dht_manager.cpp: what messages, requests and the
-- sweep of the storage make of it.
use ss_p2p_node_controller.Common.{
  ℕ, ◌<◌, ◌++◌, ◌≡◌, refl, List, [], ◌∷◌, Option, none, some, Always, Always-gives, Always-bind,
  Always-then, Always-some,
}
use ss_p2p_node_controller.Json.{Json}
use ss_p2p_node_controller.Endpoint.{Net}
use ss_p2p_node_controller.Kademlia.NodeId.{NodeId}
use ss_p2p_node_controller.Kademlia.RoutingTable
use ss_p2p_node_controller.Kademlia.RoutingTable.{RoutingTable}
use ss_p2p_node_controller.Kademlia.RoutingTable.Placement.{
  IsWellFormed, init-IsWellFormed, move_back_at-IsWellFormed, delete_node_at-IsWellFormed,
}
use ss_p2p_node_controller.Kademlia.DirectController.{
  collect_endpoint, auto_update, auto_update_batch,
}
use ss_p2p_node_controller.Kademlia.Node.{KNode}
use ss_p2p_node_controller.Kademlia.DirectController.Laws.{
  Owned, init-Owned, auto_update_batch-IsWellFormed, move_back_at-Owned, delete_node_at-Owned,
}
use ss_p2p_node_controller.Kademlia.Message.{
  Rpc, ping, find_node, none_rpc, request, response, MessageType, get_rpc, get_message_type,
  get_ignore_endpoint, get_finded_endpoint,
}
use ss_p2p_node_controller.Kademlia.RpcManager
use ss_p2p_node_controller.Kademlia.RpcManager.{
  ping_response, find_node_response, income_request, dispatch_rpc, dispatch_type, find_node_size,
}
use ss_p2p_node_controller.Kademlia.DhtManager.{
  DhtManager, Effects, ping_request, find_node_request, income_rpc, income_ping, income_find_node,
  dispatch, income_message,
}
use ss_p2p_node_controller.Observers.Base.{
  BaseObserver, new_observer, destruct_self, is_expired, Ids, get_observer_id,
}
use ss_p2p_node_controller.Observers.Ping
use ss_p2p_node_controller.Observers.Ping.{Ping}
use ss_p2p_node_controller.Observers.Storage.{find_observer, delete_expires_observer}
use ss_p2p_node_controller.Observers.Storage.Laws.{UniqueIds, UniqueIds-add, UniqueIds-sweep}
use ss_p2p_node_controller.Observers.Storage.Found.{find_observer-id, UniqueIds-replace}

module _ {E : Type 0} (calc_node_id : E → NodeId) where
  -- The routing table is well formed and holds each node under the id of its endpoint.
  abbrev pub TableValid : RoutingTable E → Type 0
  TableValid t = IsWellFormed t × Owned calc_node_id t

  auto_update-TableValid :
      (ep : E) (t : RoutingTable E)
      → IsWellFormed t
      → Owned calc_node_id t
      → TableValid (auto_update calc_node_id ep t)
  unfolding auto_update auto_update_batch
  auto_update-TableValid ep t w own = auto_update_batch-IsWellFormed calc_node_id (ep ∷ []) t w own

module _ {E I : Type 0} (eq_id : Discrete I) (calc_node_id : E → NodeId) where
  abbrev pub DhtValid : DhtManager E I → Type 0
  DhtValid d =
      TableValid calc_node_id d.table
      × UniqueIds (λ o. o.base.id) eq_id d.pings
      × UniqueIds (λ o. o.id) eq_id d.find_nodes

-- `refresh_tick` of the storage, at the time `now`.
unfoldable pub refresh : {E I : Type 0} → ℕ → DhtManager E I → DhtManager E I
unfolding delete_expires_observer is_expired
refresh now d = record d {
  pings = delete_expires_observer (λ o. is_expired now o.base) d.pings;
  find_nodes = delete_expires_observer (is_expired now) d.find_nodes;
}

module _ {J E A : Type 0} (json : Json J) (net : Net E A) (calc_node_id : E → NodeId) where
  rpc-TableValid :
      (k_msg : J) (ep : E) (t : RoutingTable E)
      → TableValid calc_node_id t
      → Always
          (TableValid calc_node_id)
          (RpcManager.income_message json net calc_node_id (some k_msg) ep t)
  unfolding RpcManager.income_message income_request ping_response find_node_response
  rpc-TableValid k_msg ep t v = Always-bind P (get_message_type json k_msg) _ by_type
    where
      P : RoutingTable E → Type 0
      P = TableValid calc_node_id

      by_rpc : (r : Rpc) → Always P (dispatch_rpc json net calc_node_id r k_msg ep t)
      by_rpc ping =
          Always-gives P _ _ (auto_update_batch-IsWellFormed calc_node_id (ep ∷ []) t v.0 v.1)
      by_rpc find_node = Always-bind P (get_ignore_endpoint json net k_msg) _ (λ ignore_eps.
          Always-bind P (collect_endpoint calc_node_id ep find_node_size (ignore_eps ++ ep ∷ []) t)
            _ (λ eps. Always-gives P _ _ v))
      by_rpc none_rpc = Always-gives P _ _ v

      by_type : (m : MessageType) → Always P (dispatch_type json net calc_node_id m k_msg ep t)
      by_type request = Always-bind P (get_rpc json k_msg) _ by_rpc
      by_type response = Always-gives P _ _ v

module _ {J E A I : Type 0} (json : Json J) (net : Net E A) (ids : Ids I) (eq_id : Discrete I)
    (calc_node_id : E → NodeId) where
  rpc-DhtValid :
      (k_msg : J) (ep : E) (d : DhtManager E I)
      → DhtValid eq_id calc_node_id d
      → Always (DhtValid eq_id calc_node_id) (income_rpc json net ids eq_id calc_node_id k_msg ep d)
  unfolding income_rpc
  rpc-DhtValid k_msg ep d v =
      Always-then (TableValid calc_node_id) (DhtValid eq_id calc_node_id)
        (RpcManager.income_message json net calc_node_id (some k_msg) ep d.table) _
        (rpc-TableValid json net calc_node_id k_msg ep d.table v.0)
        (λ t sent kept. Always-gives (DhtValid eq_id calc_node_id) _ _ (kept, v.1, v.2))

  pong-DhtValid :
      (found : List (Ping E I)) (obs_id : I) (k_msg : J) (ep : E) (d : DhtManager E I)
      → find_observer (λ o. o.base.id) eq_id obs_id d.pings ≡ found
      → DhtValid eq_id calc_node_id d
      → Always
          (DhtValid eq_id calc_node_id)
          (income_ping json net ids eq_id calc_node_id found obs_id k_msg ep d)
  unfolding income_ping Ping.income_message destruct_self
  pong-DhtValid [] obs_id k_msg ep d found v = rpc-DhtValid k_msg ep d v
  pong-DhtValid (o ∷ os) obs_id k_msg ep d found v =
      let same = find_observer-id (λ p. p.base.id) eq_id obs_id d.pings o os found in
      Always-gives (DhtValid eq_id calc_node_id) _ _ (
        v.0,
        UniqueIds-replace (λ p. p.base.id) eq_id obs_id (Ping.income_message o).0 d.pings same v.1,
        v.2,
      )

  found-DhtValid :
      (found : List (BaseObserver I)) (obs_id : I) (k_msg : J) (ep : E) (d : DhtManager E I)
      → find_observer (λ o. o.id) eq_id obs_id d.find_nodes ≡ found
      → DhtValid eq_id calc_node_id d
      → Always
          (DhtValid eq_id calc_node_id)
          (income_find_node json net ids eq_id calc_node_id found obs_id k_msg ep d)
  unfolding income_find_node destruct_self
  found-DhtValid [] obs_id k_msg ep d found v = rpc-DhtValid k_msg ep d v
  found-DhtValid (o ∷ os) obs_id k_msg ep d found v =
      let same = find_observer-id (λ q. q.id) eq_id obs_id d.find_nodes o os found in
      Always-bind (DhtValid eq_id calc_node_id) (get_finded_endpoint json net k_msg) _ (λ eps.
        Always-gives (DhtValid eq_id calc_node_id) _ _ (
          v.0,
          v.1,
          UniqueIds-replace (λ q. q.id) eq_id obs_id (destruct_self o) d.find_nodes same v.2,
        ))

  pub income_message-DhtValid :
      (param : Option J) (ep : E) (d : DhtManager E I)
      → DhtValid eq_id calc_node_id d
      → Always
          (DhtValid eq_id calc_node_id)
          (income_message json net ids eq_id calc_node_id param ep d)
  unfolding income_message dispatch
  income_message-DhtValid none ep d v = Always-gives (DhtValid eq_id calc_node_id) _ _ v
  income_message-DhtValid (some k_msg) ep d v =
      Always-bind (DhtValid eq_id calc_node_id) (get_rpc json k_msg) _ (λ rpc.
        Always-bind (DhtValid eq_id calc_node_id) (get_observer_id json ids k_msg) _
          (λ obs_id. by_rpc obs_id rpc))
    where
      by_rpc :
          (obs_id : I) (r : Rpc)
          → Always
              (DhtValid eq_id calc_node_id)
              (dispatch json net ids eq_id calc_node_id r obs_id k_msg ep d)
      by_rpc obs_id ping = pong-DhtValid _ obs_id k_msg ep d refl v
      by_rpc obs_id find_node = found-DhtValid _ obs_id k_msg ep d refl v
      by_rpc obs_id none_rpc = rpc-DhtValid k_msg ep d v

  pub data Reach (self_id : NodeId) : DhtManager E I → Type 0 where
    starts :
        Reach self_id (record { table = RoutingTable.init self_id; pings = []; find_nodes = [] })
    receives :
        (param : Option J) (ep : E) (d d' : DhtManager E I) (fx : Effects J E)
        → income_message json net ids eq_id calc_node_id param ep d ≡ some (d', fx)
        → Reach self_id d
        → Reach self_id d'
    pings :
        (id : I) (now : ℕ) (ep : E) (d : DhtManager E I)
        → Reach self_id d
        → Reach self_id (ping_request json net ids eq_id calc_node_id id now ep d).0
    searches :
        (id : I) (now : ℕ) (ep : E) (ignore_eps : List E) (d : DhtManager E I)
        → Reach self_id d
        → Reach self_id (find_node_request json net ids eq_id calc_node_id id now ep ignore_eps d).0
    sweeps : (now : ℕ) (d : DhtManager E I) → Reach self_id d → Reach self_id (refresh now d)
    -- The handlers of a ping, called by the event loop: those of a refresh ping, which name a bucket and a
    -- node, and the one of a ping to an endpoint that was found.
    moves :
        (i : ℕ) (kn : KNode E) (d : DhtManager E I)
        → i < 160
        → Reach self_id d
        → Reach self_id (record d { table = RoutingTable.move_back_at i kn d.table })
    deletes :
        (i : ℕ) (kn : KNode E) (d : DhtManager E I)
        → i < 160
        → Reach self_id d
        → Reach self_id (record d { table = RoutingTable.delete_node_at i kn d.table })
    joins :
        (ep : E) (d : DhtManager E I)
        → Reach self_id d
        → Reach self_id (record d { table = auto_update calc_node_id ep d.table })

  -- Whatever messages arrive at a dht_manager, whatever it asks other nodes, whenever its storage is
  -- swept, and whatever handlers of its pings the event loop calls, as long as no message runs into an
  -- exception or undefined behaviour, its routing table stays well formed, each node in it stands under the id of its endpoint, and
  -- the observers of each kind have different ids.
  pub Reach-DhtValid :
      (self_id : NodeId) (d : DhtManager E I) → Reach self_id d → DhtValid eq_id calc_node_id d
  unfolding refresh ping_request find_node_request
  Reach-DhtValid self_id d starts =
      ((init-IsWellFormed self_id, init-Owned calc_node_id self_id), tt, tt)
  Reach-DhtValid self_id d (receives param ep before d' fx ran r) =
      Always-some (DhtValid eq_id calc_node_id) _ d' fx ran
        (income_message-DhtValid param ep before (Reach-DhtValid self_id before r))
  Reach-DhtValid self_id d (pings id now ep before r) =
      let v = Reach-DhtValid self_id before r in
      (v.0, UniqueIds-add (λ o. o.base.id) eq_id (Ping.init id ep now) before.pings v.1, v.2)
  Reach-DhtValid self_id d (searches id now ep ignore_eps before r) =
      let v = Reach-DhtValid self_id before r in
      (v.0, v.1, UniqueIds-add (λ o. o.id) eq_id (new_observer id now) before.find_nodes v.2)
  Reach-DhtValid self_id d (sweeps now before r) =
      let v = Reach-DhtValid self_id before r in
      (
        v.0,
        UniqueIds-sweep (λ o. o.base.id) eq_id (λ o. is_expired now o.base) before.pings v.1,
        UniqueIds-sweep (λ o. o.id) eq_id (is_expired now) before.find_nodes v.2,
      )
  Reach-DhtValid self_id d (moves i kn before h r) =
      let ((w, own), pings_differ, find_nodes_differ) = Reach-DhtValid self_id before r in
      (
        (
          move_back_at-IsWellFormed i kn before.table h w,
          move_back_at-Owned calc_node_id i kn before.table h w own,
        ),
        pings_differ,
        find_nodes_differ,
      )
  Reach-DhtValid self_id d (deletes i kn before h r) =
      let ((w, own), pings_differ, find_nodes_differ) = Reach-DhtValid self_id before r in
      (
        (
          delete_node_at-IsWellFormed i kn before.table h w,
          delete_node_at-Owned calc_node_id i kn before.table h w own,
        ),
        pings_differ,
        find_nodes_differ,
      )
  Reach-DhtValid self_id d (joins ep before r) =
      let ((w, own), pings_differ, find_nodes_differ) = Reach-DhtValid self_id before r in
      (auto_update-TableValid calc_node_id ep before.table w own, pings_differ, find_nodes_differ)
