-- ===== src/MessagePool/Tests.antt =====
-- The theorems on src/ss_p2p/message_pool.cpp at concrete inputs: endpoints, peer ids, message ids
-- and messages are numbers.
use ss_p2p_node_controller.Common.{
  ℕ, ◌+◌, true, ◌≡◌, ◌≢◌, refl, List, [], ◌∷◌, ◌++◌, select, Option, some, ℕ_discrete, arith,
}
use ss_p2p_node_controller.MessagePool.Buffer.{Received, MessageBuffer, done, drop_expired}
use ss_p2p_node_controller.MessagePool.Buffer.Order.{young, drop_expired-select}
use ss_p2p_node_controller.MessagePool.Pool.{
  run_cancelled, refresh_tick, call_refresh_tick, MessagePool, Delivery, find_entry, store,
}
use ss_p2p_node_controller.MessagePool.Pool.Refine.{
  Event, stores, ticks, Implements, run, abstract_run, run-Implements,
}
use ss_p2p_node_controller.MessagePool.Pool.Store.{queue_of, store_lem}

abbrev received : ℕ → ℕ → Received ℕ ℕ
received id time = record { id = id; msg = 100 + id; time = time }

-- Message 1 was received in second 10, message 2 in second 5000.
abbrev two : MessageBuffer ℕ ℕ ℕ
two = record {
  msg_queue = received 1 10 ∷ received 2 5000 ∷ [];
  binding_ep = 7;
  dynamic_mem_usage_bytes = 2;
  last_binded_at = 0;
  last_received_at = 5000;
}

drop_expired-select_example : (drop_expired 5001 two).msg_queue ≡ select (young 5001) two.msg_queue
drop_expired-select_example =
    drop_expired-select 5000 5001 two (omega arith, (omega arith, omega arith))

drop_expired_test : (drop_expired 5001 two).msg_queue ≡ received 2 5000 ∷ []
unfolding drop_expired
drop_expired_test = refl

-- An endpoint is its own peer id.
abbrev peer_id : ℕ → ℕ
peer_id ep = ep

abbrev pool : MessagePool ℕ ℕ ℕ
pool = record {
  entries = two ∷ [];
  requires_refresh = true;
  timer_armed = true;
  cancelled = 0;
  hub_active = true;
}

-- The handler of a cancelled wait sets the timer again, and so cancels the wait that was pending.
run_cancelled_test : (run_cancelled 5001 (record pool { cancelled = 1 })).cancelled ≡ 1
unfolding run_cancelled refresh_tick call_refresh_tick
run_cancelled_test = refl

store_lem_example :
    (p' : MessagePool ℕ ℕ ℕ) × (ev : Option (Delivery ℕ ℕ ℕ)) × (store peer_id ℕ_discrete ℕ_discrete
        0 9 6000 6001 55 7 pool
      ≡ done (p', ev))
    × (queue_of peer_id ℕ_discrete 7 p'.entries
        ≡ queue_of peer_id ℕ_discrete 7 pool.entries
          ++ record { id = 9; msg = 55; time = 6000 } ∷ [])
    × ((other : ℕ)
        → 7 ≢ other
        → queue_of peer_id ℕ_discrete other p'.entries
          ≡ queue_of peer_id ℕ_discrete other pool.entries)
    × (ev ≡ some (record { src_ep = 7; received = record { id = 9; msg = 55; time = 6000 } }))
store_lem_example = store_lem peer_id ℕ_discrete ℕ_discrete 0 9 6000 6001 55 7 pool

-- Two messages for peer 7, with a tick long after the first.
abbrev pool_events : List (Event ℕ ℕ ℕ)
pool_events = stores 0 1 10 10 55 7 ∷ ticks 5000 ∷ stores 0 2 5001 5002 66 7 ∷ []

abbrev new_pool : MessagePool ℕ ℕ ℕ
new_pool = record {
  entries = [];
  requires_refresh = true;
  timer_armed = true;
  cancelled = 0;
  hub_active = true;
}

new_pool-Implements : Implements peer_id ℕ_discrete 0 new_pool (λ pid. [])
unfolding find_entry
new_pool-Implements pid = (refl, omega arith)

run-Implements_example :
    (p' : MessagePool ℕ ℕ ℕ) × (t' : ℕ) × (run peer_id ℕ_discrete ℕ_discrete pool_events new_pool
      ≡ done p')
    × Implements peer_id ℕ_discrete t' p' (abstract_run peer_id ℕ_discrete pool_events (λ pid. []))
run-Implements_example =
    run-Implements peer_id ℕ_discrete ℕ_discrete pool_events 0 new_pool (λ pid. [])
      (omega arith, omega arith, (omega arith, (omega arith, omega arith, tt))) new_pool-Implements

-- Of the two messages, the tick leaves the second one.
abstract_run_test :
    abstract_run peer_id ℕ_discrete pool_events (λ pid. []) 7
    ≡ record { id = 2; msg = 66; time = 5001 } ∷ []
unfolding abstract_run ℕ_discrete
abstract_run_test = refl
