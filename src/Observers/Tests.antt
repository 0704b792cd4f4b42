-- ===== src/Observers/Tests.antt =====
-- The theorems on observers at concrete inputs: ids and endpoints are numbers.
use ss_p2p_node_controller.Common.{ℕ, ◌≡◌, refl, List, [], ◌∷◌, ◌++◌, ℕ_discrete, leb}
use ss_p2p_node_controller.Observers.Storage.{
  done, add_observer, delete_observer, delete_expires_observer,
}
use ss_p2p_node_controller.Observers.Storage.Laws
use ss_p2p_node_controller.Observers.Storage.Laws.{
  Call, adds, deletes, sweeps, Lacks, UniqueIds, run, run-UniqueIds, add_observer_lem,
  find_observer-sweep, delete_observer-fault_iff,
}
use ss_p2p_node_controller.Observers.Ping
use ss_p2p_node_controller.Observers.Ping.{pong_handler, timeout_handler}
use ss_p2p_node_controller.Observers.Ping.Events
use ss_p2p_node_controller.Observers.Ping.Events.{
  Event, pong, timer_handler, runs, times, timer_first, pongs, handled, new_world, run-handled,
}

-- An observer that is its own id, and expired if it is small.
abbrev own : ℕ → ℕ
own n = n

abbrev calls : List (Call ℕ ℕ)
calls = adds 4 ∷ adds 9 ∷ adds 4 ∷ deletes 9 ∷ sweeps (λ n. leb n 3) ∷ []

run_test : run own ℕ_discrete [] calls ≡ done (4 ∷ [])
unfolding run Laws.step add_observer delete_observer delete_expires_observer ℕ_discrete
run_test = refl

abbrev first_id : ℕ
first_id = 1

abbrev first_ep : ℕ
first_ep = 5

-- The timer's handler runs just before the pong comes, and after it the event loop calls both handlers.
abbrev events : List Event
events = timer_handler ∷ pong ∷ runs ∷ timer_handler ∷ runs ∷ []

events_test :
    (Events.run (new_world first_id first_ep 100) events).called
    ≡ timeout_handler first_ep ∷ pong_handler first_ep ∷ []
unfolding Events.run Events.step Ping.timeout Ping.income_message Ping.init
events_test = refl

run-handled_example :
    handled (Events.run (new_world first_id first_ep 100) events)
    ≡ times (timer_first events) (timeout_handler first_ep)
      ++ times (pongs events) (pong_handler first_ep)
run-handled_example = run-handled events first_id first_ep 100
