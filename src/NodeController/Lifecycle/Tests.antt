-- ===== src/NodeController/Lifecycle/Tests.antt =====
-- start and the tick of node_controller at a concrete input: a node with endpoint 4 that knows 8.
use ss_p2p_node_controller.Common.{
  if◌then◌else◌, ℕ, suc, ◌+◌, ◌-◌, max, ℕ_discrete, ◌≤◌, ◌≡◌, ◌≢◌, true, List, ◌++◌, length, none,
  some,
}
use ss_p2p_node_controller.Json.Sample.{Value, json}
use ss_p2p_node_controller.Endpoint.Sample.{net}
use ss_p2p_node_controller.Observers.Sample.{ids}
use ss_p2p_node_controller.Ice.Message.{Packet}
use ss_p2p_node_controller.Ice.Reservation.{waits}
use ss_p2p_node_controller.Ice.StunServer.{Collects, request_node_count}
use ss_p2p_node_controller.Ice.Agent.{Agent}
use ss_p2p_node_controller.Kademlia.Maintainer.{pending}
use ss_p2p_node_controller.Ice.Agent.{no_observers}
use ss_p2p_node_controller.NodeController.Lifecycle.{
  Controller, Sent, run_loop, inquire_count, pending_waits, start, sync_get_global_address,
}
use ss_p2p_node_controller.NodeController.Lifecycle.Sample.{
  id_with, known, known-TableValid, draw_id, boot, new_node,
}
use ss_p2p_node_controller.NodeController.Lifecycle.Laws.{
  dests, start_lem, sync_get_global_address-waits,
}

start_lem_example :
    (c' : Controller Value ℕ ℕ ℕ) × (sent : Sent Value ℕ) × (extra : List ℕ) × (start json net ids
        ℕ_discrete id_with 0 draw_id 70 50 boot new_node
      ≡ some (c', sent))
    × (dests sent.ice_agent ≡ boot ++ extra)
    × (length (boot ++ extra) ≤ max 1 (length boot) + 1)
    × Collects id_with
        (request_node_count (length boot) inquire_count - length boot)
        boot
        known
        extra
    × (c'.maintainer.requires_tick ≡ true)
    × (c'.maintainer.timer ≢ none)
    × (c'.pool.requires_refresh ≡ true)
    × (c'.pool.timer_armed ≡ true)
    × (c'.tick_timer ≡ some 60)
    × (c'.maintainer.ready ≡ new_node.maintainer.ready ++ pending new_node.maintainer.timer)
    × (c'.pool.cancelled ≡ (
        if new_node.pool.timer_armed then new_node.pool.cancelled + 1 else new_node.pool.cancelled))
    × (c'.cancelled_ticks ≡ new_node.cancelled_ticks + pending_waits new_node.tick_timer)
    × (c'.server.receiving ≡ (
        if new_node.server.is_open
        then suc new_node.server.receiving
        else new_node.server.receiving))
    × (c'.loop ≡ run_loop new_node.loop)
start_lem_example =
    start_lem json net ids ℕ_discrete id_with 0 draw_id 70 50 boot new_node known-TableValid

sync_get_global_address-waits_example :
    (a' : Agent Value ℕ ℕ) × (sent : List (Packet Value ℕ)) × (extra : List ℕ)
    × (sync_get_global_address json ids ℕ_discrete id_with 0 70 50 boot known no_observers
        ≡ some (a', sent, waits))
    × (dests sent ≡ boot ++ extra)
    × Collects id_with
        (request_node_count (length boot) inquire_count - length boot)
        boot
        known
        extra
sync_get_global_address-waits_example =
    sync_get_global_address-waits json ids ℕ_discrete id_with 0 70 50 boot known no_observers
      known-TableValid

-- The node after a second start.
abbrev twice_started : Controller Value ℕ ℕ ℕ
twice_started = record new_node { tick_timer = some 60; cancelled_ticks = 1 }
