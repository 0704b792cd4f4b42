-- ===== src/Kademlia/MaintainerTests.antt =====
-- The theorems on connection_maintainer at a concrete input: a node with endpoint 4 that knows 8.
use ss_p2p_node_controller.Common.{ℕ, ◌+◌, ℕ_discrete, true, ◌≡◌, refl, List, [], ◌∷◌, none, some}
use ss_p2p_node_controller.Json.Sample.{Value, json}
use ss_p2p_node_controller.Endpoint.Sample.{net}
use ss_p2p_node_controller.Kademlia.NodeId.{NodeId}
use ss_p2p_node_controller.Kademlia.RoutingTable
use ss_p2p_node_controller.Kademlia.RoutingTable.{RoutingTable, get_node_count}
use ss_p2p_node_controller.Kademlia.RoutingTable.Placement.{init-IsWellFormed}
use ss_p2p_node_controller.Kademlia.RoutingTable.Iterator.{tag_from}
use ss_p2p_node_controller.Kademlia.DirectController.{auto_update_batch}
use ss_p2p_node_controller.Kademlia.DirectController.Laws.{
  init-Owned, auto_update_batch-IsWellFormed,
}
use ss_p2p_node_controller.Kademlia.DhtManager.Runs.{TableValid}
use ss_p2p_node_controller.Kademlia.Maintainer.{
  Maintainer, get_remote_nodes_handler, tick, run_ready,
}
use ss_p2p_node_controller.Kademlia.Maintainer.Laws.{pings_to, tick_lem}
use ss_p2p_node_controller.Kademlia.Maintainer.Busy.{Busy, run_ready-Busy}
use ss_p2p_node_controller.Observers.Sample.{ids}

-- An endpoint's id has the endpoint as its first byte.
abbrev id_with : ℕ → NodeId
id_with n = n ∷ 0 ∷ 0 ∷ 0 ∷ 0 ∷ 0 ∷ 0 ∷ 0 ∷ 0 ∷ 0 ∷ 0 ∷ 0 ∷ 0 ∷ 0 ∷ 0 ∷ 0 ∷ 0 ∷ 0 ∷ 0 ∷ 0 ∷ []

abbrev known : RoutingTable ℕ
known = auto_update_batch id_with (8 ∷ []) (RoutingTable.init (id_with 4))

known-TableValid : TableValid id_with known
known-TableValid =
    auto_update_batch-IsWellFormed id_with (8 ∷ []) (RoutingTable.init (id_with 4))
      (init-IsWellFormed (id_with 4)) (init-Owned id_with (id_with 4))

abbrev draw_id : ℕ → ℕ
draw_id k = 100 + k

abbrev started : Maintainer ℕ ℕ
started = record {
  requires_tick = true;
  timer = none;
  ready = [];
  dht = record { table = known; pings = []; find_nodes = [] };
}

-- Started again while get_remote_nodes was waited for.
abbrev restarted : Maintainer ℕ ℕ
restarted = record started {
  timer = some (6, get_remote_nodes_handler);
  ready = get_remote_nodes_handler ∷ [];
}

tick_lem_example :
    (m' : Maintainer ℕ ℕ) × (sent : List (ℕ × Value)) × (tick json net ids ℕ_discrete id_with 0
        draw_id 50 started
      ≡ some (m', sent))
    × (m'.timer ≡ some (6, get_remote_nodes_handler))
    × (sent ≡ pings_to json net ids ℕ_discrete id_with 0 draw_id 50 0 (tag_from 0 known.table))
    × (m'.ready ≡ [])
tick_lem_example =
    tick_lem json net ids ℕ_discrete id_with 0 draw_id 50 started refl known-TableValid.0.size

restarted-Busy : Busy id_with restarted
restarted-Busy = (refl, known-TableValid, (λ e. absurd cc), (λ e. absurd cc))

run_ready-Busy_example :
    (m' : Maintainer ℕ ℕ) × (sent : List (ℕ × Value)) × (run_ready json net ids ℕ_discrete id_with 0
        draw_id 50 restarted
      ≡ some (m', sent))
    × Busy id_with m'
run_ready-Busy_example =
    run_ready-Busy json net ids ℕ_discrete id_with 0 draw_id 50 restarted restarted-Busy
