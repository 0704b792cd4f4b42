-- ===== src/NodeController/Lifecycle/Sample.antt =====
-- A node for the tests, with endpoint 4, that knows the endpoint 8.
use ss_p2p_node_controller.Common.{ℕ, ◌+◌, true, false, List, [], ◌∷◌, none}
use ss_p2p_node_controller.Json.Sample.{Value}
use ss_p2p_node_controller.Kademlia.NodeId.{NodeId}
use ss_p2p_node_controller.Kademlia.RoutingTable
use ss_p2p_node_controller.Kademlia.RoutingTable.{RoutingTable}
use ss_p2p_node_controller.Kademlia.RoutingTable.Placement.{init-IsWellFormed}
use ss_p2p_node_controller.Kademlia.DirectController.{auto_update_batch}
use ss_p2p_node_controller.Kademlia.DirectController.Laws.{
  init-Owned, auto_update_batch-IsWellFormed,
}
use ss_p2p_node_controller.Kademlia.DhtManager.Runs.{TableValid}
use ss_p2p_node_controller.Ice.Agent.{no_observers}
use ss_p2p_node_controller.NodeController.Lifecycle.{Controller, idle}

-- An endpoint's id has the endpoint as its first byte.
abbrev pub id_with : ℕ → NodeId
id_with n = n ∷ 0 ∷ 0 ∷ 0 ∷ 0 ∷ 0 ∷ 0 ∷ 0 ∷ 0 ∷ 0 ∷ 0 ∷ 0 ∷ 0 ∷ 0 ∷ 0 ∷ 0 ∷ 0 ∷ 0 ∷ 0 ∷ 0 ∷ []

abbrev pub known : RoutingTable ℕ
known = auto_update_batch id_with (8 ∷ []) (RoutingTable.init (id_with 4))

pub known-TableValid : TableValid id_with known
known-TableValid =
    auto_update_batch-IsWellFormed id_with (8 ∷ []) (RoutingTable.init (id_with 4))
      (init-IsWellFormed (id_with 4)) (init-Owned id_with (id_with 4))

abbrev pub draw_id : ℕ → ℕ
draw_id k = 100 + k

abbrev pub boot : List ℕ
boot = 9 ∷ []

abbrev pub new_node : Controller Value ℕ ℕ ℕ
new_node = record {
  self_ep = 4;
  node_ep = 4;
  glob_self_ep = 0;
  self_id = id_with 4;
  maintainer = record {
    requires_tick = true;
    timer = none;
    ready = [];
    dht = record { table = known; pings = []; find_nodes = [] };
  };
  ice = no_observers;
  pool = record {
    entries = [];
    requires_refresh = true;
    timer_armed = false;
    cancelled = 0;
    hub_active = false;
  };
  server = record { is_open = true; recv_buff = []; src_ep = 0; receiving = 0; tasks = [] };
  loop = idle;
  tick_timer = none;
  cancelled_ticks = 0;
}
