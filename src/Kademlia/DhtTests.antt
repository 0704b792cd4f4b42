-- ===== src/Kademlia/DhtTests.antt =====
-- The theorems on dht_manager at concrete inputs: endpoint 4 asks endpoint 8.
use ss_p2p_node_controller.Common.{
  ℕ, ℕ_discrete, ◌≤◌, ◌≡◌, ◌≢◌, refl, List, [], ◌∷◌, Mem, length, some,
}
use ss_p2p_node_controller.Json.Sample.{Value, json, json-JsonLaws}
use ss_p2p_node_controller.Endpoint.Sample.{net, net-NetLaws, plain}
use ss_p2p_node_controller.Kademlia.NodeId.{NodeId}
use ss_p2p_node_controller.Kademlia.RoutingTable
use ss_p2p_node_controller.Kademlia.DirectController.{auto_update_batch}
use ss_p2p_node_controller.Kademlia.RoutingTable.Placement.{init-IsWellFormed}
use ss_p2p_node_controller.Kademlia.DirectController.Laws.{Collected, JoinsOrOverflows}
use ss_p2p_node_controller.Kademlia.DhtManager.{
  DhtManager, sends, ping_request, find_node_request, ping_message, find_node_message,
  income_message,
}
use ss_p2p_node_controller.Kademlia.DhtManager.Runs
use ss_p2p_node_controller.Kademlia.DhtManager.Runs.{DhtValid, Reach, Reach-DhtValid}
use ss_p2p_node_controller.Kademlia.DhtManager.Rounds.{
  income_message-ping_round, income_message-search_round,
}
use ss_p2p_node_controller.Observers.Base.{new_observer, destruct_self}
use ss_p2p_node_controller.Observers.Sample.{ids, ids-IdsLaws}
use ss_p2p_node_controller.Observers.Ping
use ss_p2p_node_controller.Observers.Ping.{Ping, pong_handler}
use ss_p2p_node_controller.Observers.Storage.{find_observer, add_observer, replace}

-- An endpoint's id has the endpoint as its first byte.
abbrev id_with : ℕ → NodeId
id_with n = n ∷ 0 ∷ 0 ∷ 0 ∷ 0 ∷ 0 ∷ 0 ∷ 0 ∷ 0 ∷ 0 ∷ 0 ∷ 0 ∷ 0 ∷ 0 ∷ 0 ∷ 0 ∷ 0 ∷ 0 ∷ 0 ∷ 0 ∷ []

abbrev new_dht : ℕ → DhtManager ℕ ℕ
new_dht ep = record { table = RoutingTable.init (id_with ep); pings = []; find_nodes = [] }

abbrev pinging : DhtManager ℕ ℕ
pinging = (ping_request json net ids ℕ_discrete id_with 70 0 8 (new_dht 4)).0

abbrev searching : DhtManager ℕ ℕ
searching = (find_node_request json net ids ℕ_discrete id_with 71 0 8 (2 ∷ []) (new_dht 4)).0

-- Endpoint 8 once it was pinged by 4.
abbrev pinged_dht : DhtManager ℕ ℕ
pinged_dht = record (new_dht 8) { table = auto_update_batch id_with (4 ∷ []) (new_dht 8).table }

abbrev first_ping : Ping ℕ ℕ
first_ping = Ping.init 70 8 0

waits_for_pong : find_observer (λ p. p.base.id) ℕ_discrete 70 pinging.pings ≡ first_ping ∷ []
unfolding ping_request find_observer add_observer Ping.init new_observer ℕ_discrete
waits_for_pong = refl

waits_for_nodes :
    find_observer (λ q. q.id) ℕ_discrete 71 searching.find_nodes ≡ new_observer 71 0 ∷ []
unfolding find_node_request find_observer add_observer new_observer ℕ_discrete
waits_for_nodes = refl

no_ping : find_observer (λ p. p.base.id) ℕ_discrete 70 (new_dht 8).pings ≡ []
unfolding find_observer
no_ping = refl

no_search : find_observer (λ q. q.id) ℕ_discrete 71 pinged_dht.find_nodes ≡ []
unfolding find_observer
no_search = refl

income_message-ping_round_example :
    (reply : Value) × (income_message json net ids ℕ_discrete id_with
        (some (ping_message json ids 70))
        4
        (new_dht 8)
      ≡ some (pinged_dht, sends ((4, reply) ∷ [])))
    × JoinsOrOverflows id_with 4 (new_dht 8).table pinged_dht.table
    × (income_message json net ids ℕ_discrete id_with (some reply) 8 pinging
        ≡ some (
          record pinging {
            pings =
                replace
                  (λ p. p.base.id)
                  ℕ_discrete
                  70
                  (Ping.income_message first_ping).0
                  pinging.pings;
          },
          record { sent = []; posted = pong_handler 8 ∷ []; found = [] },
        ))
unfolding Ping.init
income_message-ping_round_example =
    income_message-ping_round json json-JsonLaws net ids ids-IdsLaws ℕ_discrete id_with 70 4 8
      pinging (new_dht 8) first_ping [] no_ping waits_for_pong (init-IsWellFormed (id_with 8))

pinged_answer :
    (reply : Value) × (income_message json net ids ℕ_discrete id_with
        (some (ping_message json ids 70))
        4
        (new_dht 8)
      ≡ some (pinged_dht, sends ((4, reply) ∷ [])))
pinged_answer =
    let (reply, answered, _, _) =
      income_message-ping_round json json-JsonLaws net ids ids-IdsLaws ℕ_discrete id_with 70 4 8
        pinging (new_dht 8) first_ping [] no_ping waits_for_pong (init-IsWellFormed (id_with 8)) in
    (reply, answered)

pinged-Reach : Reach json net ids ℕ_discrete id_with (id_with 8) pinged_dht
pinged-Reach =
    Runs.receives (some (ping_message json ids 70)) 4 (new_dht 8) pinged_dht _ pinged_answer.1
      Runs.starts

Reach-DhtValid_example : DhtValid ℕ_discrete id_with pinged_dht
Reach-DhtValid_example =
    Reach-DhtValid json net ids ℕ_discrete id_with (id_with 8) pinged_dht pinged-Reach

pinged-DhtValid : DhtValid ℕ_discrete id_with pinged_dht
pinged-DhtValid = Reach-DhtValid json net ids ℕ_discrete id_with (id_with 8) pinged_dht pinged-Reach

income_message-search_round_example :
    (reply : Value) × (eps : List ℕ) × (income_message json net ids ℕ_discrete id_with
        (some (find_node_message json net ids 71 (2 ∷ [])))
        4
        pinged_dht
      ≡ some (pinged_dht, sends ((4, reply) ∷ [])))
    × (income_message json net ids ℕ_discrete id_with (some reply) 8 searching
        ≡ some (
          record searching {
            find_nodes =
                replace
                  (λ q. q.id)
                  ℕ_discrete
                  71
                  (destruct_self (new_observer 71 0))
                  searching.find_nodes;
          },
          record { sent = []; posted = []; found = eps },
        ))
    × (length eps ≤ 6)
    × Collected id_with 5 (2 ∷ 4 ∷ []) pinged_dht.table eps
    × ((ep : ℕ) → Mem ep eps → id_with ep ≢ id_with 4)
    × ((ep ig : ℕ) → Mem ep eps → Mem ig (2 ∷ []) → id_with ep ≢ id_with ig)
income_message-search_round_example =
    income_message-search_round json json-JsonLaws net ids ids-IdsLaws ℕ_discrete id_with
      net-NetLaws plain 71 4 8 (2 ∷ []) searching pinged_dht (new_observer 71 0) [] no_search
      waits_for_nodes pinged-DhtValid.0.0 pinged-DhtValid.0.1
