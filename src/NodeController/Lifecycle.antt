-- ===== src/NodeController/Lifecycle.antt =====
-- What src/ss_p2p/node_controller.cpp does besides receiving packets: start, stop, its tick and a new global
-- endpoint. The endpoints that the parts share by reference are one field each: `self_ep` is the variable of
-- the caller, which the ICE part reads and writes, `node_ep` the copy that the Kademlia part has, and
-- `self_id` the id of dht_manager and rpc_manager.
pub mod Laws
pub mod Sample
mod Tests
use ss_p2p_node_controller.Common.{
  ℕ, ◌+◌, ◌-◌, ltb, Bool, true, false, if◌then◌else◌, List, [], ◌∷◌, ◌++◌, map, Option, none, some,
  ◌>>=◌,
}
use ss_p2p_node_controller.Json.{Json}
use ss_p2p_node_controller.Endpoint.{Net}
use ss_p2p_node_controller.Kademlia.NodeId.{NodeId}
use ss_p2p_node_controller.Kademlia.RoutingTable.{RoutingTable}
use ss_p2p_node_controller.Kademlia.Maintainer
use ss_p2p_node_controller.Kademlia.Maintainer.{Maintainer, Handler}
use ss_p2p_node_controller.Observers.Base.{Ids, new_observer}
use ss_p2p_node_controller.Observers.Storage.{add_observer}
use ss_p2p_node_controller.Ice.Message.{Packet, ice_packet}
use ss_p2p_node_controller.Ice.Reservation
use ss_p2p_node_controller.Ice.Reservation.{SrObject, SyncGet}
use ss_p2p_node_controller.Ice.Binding.{BindingRequest}
use ss_p2p_node_controller.Ice.StunServer.{
  Request, refused, asked, binding_request, binding_message,
}
use ss_p2p_node_controller.Ice.Agent.{Agent, StoredBinding}
use ss_p2p_node_controller.MessagePool.Pool
use ss_p2p_node_controller.MessagePool.Pool.{MessagePool}
use ss_p2p_node_controller.UdpServer
use ss_p2p_node_controller.UdpServer.{UdpServer}

-- Boost.Asio's io_context: once it was stopped, `run` returns at once.
pub data Loop : Type 0 where
  idle running stopped : Loop

pub record Controller (J E I U : Type 0) : Type 0 where
  pub self_ep : E
  pub node_ep : E
  pub glob_self_ep : E
  pub self_id : NodeId
  pub maintainer : Maintainer E I
  pub ice : Agent J E I
  pub pool : MessagePool E U J
  pub server : UdpServer E
  pub loop : Loop
  pub tick_timer : Option ℕ
  -- Cancelled waits whose handler, which takes no error, the event loop still calls.
  pub cancelled_ticks : ℕ

pub record Sent (J E : Type 0) : Type 0 where
  pub kademlia : List (E × J)
  pub ice_agent : List (Packet J E)

-- The default argument of binding_request.
abbrev pub inquire_count : ℕ
inquire_count = 3

abbrev pub default_global_address_refresh_tick_time_s : ℕ
default_global_address_refresh_tick_time_s = 60

module _ {J E I : Type 0} (json : Json J) (ids : Ids I) (eq_id : Discrete I) where
  -- The observer of a binding_request is stored, and its reservation is what `sr_obj` points to.
  abbrev pub with_request :
      (SrObject E → SrObject E) → I → ℕ → Agent J E I → Request E → Agent J E I × List (Packet J E)
  with_request use_sr id now a (refused sr) = (a, [])
  with_request use_sr id now a (asked b sent) =
      let stored : StoredBinding E I = record {
        base = new_observer id now;
        request = record b { sr = use_sr b.sr };
      } in
      (
        record a { bindings = (add_observer (λ o. o.base.id) eq_id stored a.bindings).0 },
        map (ice_packet (binding_message json ids id)) sent,
      )

module _ {J E I : Type 0} (json : Json J) (ids : Ids I) (eq_id : Discrete I)
    (calc_node_id : E → NodeId) (any_ep : E) where
  -- binding_request, and async_get with the handler that updates the global endpoint.
  unfoldable pub request_global_ep :
      I → ℕ → List E → RoutingTable E → Agent J E I → Option (Agent J E I × List (Packet J E))
  unfolding binding_request binding_message Reservation.async_get add_observer new_observer
  request_global_ep id now target_nodes t a = do
    r ← binding_request calc_node_id any_ep target_nodes inquire_count t
    some (with_request json ids eq_id Reservation.async_get id now a r)

module _ {E : Type 0} where
  -- What binding_request returns.
  abbrev pub reservation : Request E → SrObject E
  reservation (refused sr) = sr
  reservation (asked b sent) = b.sr

module _ {J E I : Type 0} (json : Json J) (ids : Ids I) (eq_id : Discrete I)
    (calc_node_id : E → NodeId) (any_ep : E) where
  -- The packets are sent, and then `sync_get` waits or returns.
  unfoldable pub sync_get_global_address :
      I
      → ℕ
      → List E
      → RoutingTable E
      → Agent J E I
      → Option (Agent J E I × List (Packet J E) × SyncGet E)
  unfolding binding_request binding_message Reservation.sync_get add_observer new_observer
  sync_get_global_address id now boot_eps t a = do
    r ← binding_request calc_node_id any_ep boot_eps inquire_count t
    let (a', sent) = with_request json ids eq_id (λ sr. sr) id now a r
    some (a', sent, Reservation.sync_get (reservation r))

-- `run` of the io_context.
abbrev pub run_loop : Loop → Loop
run_loop idle = running
run_loop running = running
run_loop stopped = stopped

-- How many waits a timer that is set again cancels.
abbrev pub pending_waits : Option ℕ → ℕ
pending_waits none = 0
pending_waits (some tick_time_s) = 1

module _ {J E I U : Type 0} where
  -- Setting the timer again cancels the wait that is pending.
  unfoldable pub call_tick : ℕ → Controller J E I U → Controller J E I U
  call_tick tick_time_s c = record c {
    tick_timer = some tick_time_s;
    cancelled_ticks = c.cancelled_ticks + pending_waits c.tick_timer;
  }

  unfoldable pub stop : Controller J E I U → Controller J E I U
  unfolding UdpServer.stop Pool.requires_refresh Maintainer.stop
  stop c = record c {
    server = UdpServer.stop c.server;
    loop = stopped;
    pool = Pool.requires_refresh false c.pool;
    maintainer = Maintainer.stop c.maintainer;
  }

module _ {J E I U : Type 0} (calc_node_id : E → NodeId) where
  -- `update_self_id` of rpc_manager, whose id is a reference to that of dht_manager. The routing table has an
  -- id of its own, which stays.
  unfoldable pub update_self_id : NodeId → Controller J E I U → Controller J E I U
  update_self_id id c = record c { self_id = id }

  -- `update_global_self_endpoint` of dht_manager.
  unfoldable pub update_dht_endpoint : E → Controller J E I U → Controller J E I U
  unfolding update_self_id
  update_dht_endpoint ep c =
      update_self_id (calc_node_id ep) (record c { node_ep = ep; self_id = calc_node_id ep })

  -- `update_global_self_endpoint` of ice_agent.
  unfoldable pub update_ice_endpoint : E → Controller J E I U → Controller J E I U
  update_ice_endpoint ep c = record c { self_ep = ep }

  unfoldable pub update_global_self_endpoint : E → Controller J E I U → Controller J E I U
  unfolding update_ice_endpoint update_dht_endpoint
  update_global_self_endpoint ep c =
      update_dht_endpoint ep (update_ice_endpoint ep (record c { glob_self_ep = ep }))

  -- The handler of the reservation.
  unfoldable pub on_global_ep : Option E → Controller J E I U → Controller J E I U
  unfolding update_global_self_endpoint
  on_global_ep none c = c
  on_global_ep (some ep) c = update_global_self_endpoint ep c

module _ {J E A I U : Type 0} (json : Json J) (net : Net E A) (ids : Ids I) (eq_id : Discrete I)
    (calc_node_id : E → NodeId) (any_ep : E) (draw : ℕ → I) (id : I) (now : ℕ) where
  -- What the thread of `start` does; `any_ep` is 0.0.0.0:0.
  unfoldable pub start : List E → Controller J E I U → Option (Controller J E I U × Sent J E)
  unfolding UdpServer.start Maintainer.start request_global_ep Pool.requires_refresh call_tick
  start boot_eps c = do
    (m, pings) ← Maintainer.start json net ids eq_id calc_node_id any_ep draw now c.maintainer
    (ice, packets) ←
        request_global_ep json ids eq_id calc_node_id any_ep id now boot_eps m.dht.table c.ice
    let c' : Controller J E I U = record c {
      server = (UdpServer.start c.server).0;
      maintainer = m;
      ice = ice;
      pool = Pool.requires_refresh true c.pool;
      loop = run_loop c.loop;
    }
    let sent : Sent J E = record { kademlia = pings; ice_agent = packets }
    some (call_tick default_global_address_refresh_tick_time_s c', sent)

  unfoldable pub tick : Controller J E I U → Option (Controller J E I U × Sent J E)
  unfolding request_global_ep call_tick
  tick c = do
    (ice, packets) ←
        request_global_ep json ids eq_id calc_node_id any_ep id now [] c.maintainer.dht.table c.ice
    let sent : Sent J E = record { kademlia = []; ice_agent = packets }
    some (call_tick default_global_address_refresh_tick_time_s (record c { ice = ice }), sent)

  -- The event loop calls the handler because the timer fired, or because its wait was cancelled.
  unfoldable pub on_tick_timer : Controller J E I U → Option (Controller J E I U × Sent J E)
  unfolding tick
  on_tick_timer c = tick (record c { tick_timer = none })

  unfoldable pub run_cancelled_tick : Controller J E I U → Option (Controller J E I U × Sent J E)
  unfolding tick
  run_cancelled_tick c =
      if ltb 0 c.cancelled_ticks
      then tick (record c { cancelled_ticks = c.cancelled_ticks - 1 })
      else some (c, record { kademlia = []; ice_agent = [] })
