-- ===== src/Kademlia/DhtManager/Rounds.antt =====
-- A ping and a find_node request of src/ss_p2p/kademlia on their way to another node and back.
use mathlib.Core.List.{mem-append_left, mem-append_right, mem-cons_self}
use ss_p2p_node_controller.Common.{
  ◌++◌, ◌∙◌, arith, ◌≤◌, ◌≡◌, ◌≢◌, refl, List, [], ◌∷◌, Mem, length, some, traverse-map,
}
use ss_p2p_node_controller.Json.{Json, JsonLaws}
use ss_p2p_node_controller.Endpoint.{Net, NetLaws, colon}
use ss_p2p_node_controller.Endpoint.RoundTrip.{Lacks}
use ss_p2p_node_controller.Kademlia.NodeId.{NodeId}
use ss_p2p_node_controller.Kademlia.RoutingTable.Placement.{IsWellFormed}
use ss_p2p_node_controller.Kademlia.DirectController.{auto_update_batch}
use ss_p2p_node_controller.Kademlia.DirectController.Laws.{
  Owned, Collected, JoinsOrOverflows, auto_update_batch-JoinsOrOverflows,
}
use ss_p2p_node_controller.Kademlia.Message.{
  ping, find_node, request, get_rpc, get_message_type, new_request, read_endpoint, write_endpoint,
  set_ignore_endpoint, get_ignore_endpoint, get_finded_endpoint,
}
use ss_p2p_node_controller.Kademlia.Message.Laws.{
  get_rpc-new_request, get_rpc-set_ne, get_message_type-set_ne,
  get_ignore_endpoint-set_ignore_endpoint, read_endpoint-write_endpoint,
}
use ss_p2p_node_controller.Kademlia.RpcManager.Laws.{income_message-ping, income_message-find_node}
use ss_p2p_node_controller.Kademlia.DhtManager.{
  DhtManager, sends, ping_message, find_node_message, income_rpc, income_ping, income_find_node,
  dispatch, income_message,
}
use ss_p2p_node_controller.Observers.Base.{
  BaseObserver, destruct_self, Ids, IdsLaws, set_observer_id, get_observer_id,
  get_observer_id-set_observer_id,
}
use ss_p2p_node_controller.Observers.Ping
use ss_p2p_node_controller.Observers.Ping.{Ping, pong_handler}
use ss_p2p_node_controller.Observers.Storage.{find_observer, replace}

module _ {J E A I : Type 0} (json : Json J) (laws : JsonLaws json) (net : Net E A) (ids : Ids I)
    (ids_laws : IdsLaws ids) where
  ping_message_lem :
      (id : I)
      → (get_message_type json (ping_message json ids id) ≡ some request)
        × (get_rpc json (ping_message json ids id) ≡ some ping)
        × (get_observer_id json ids (ping_message json ids id) ≡ some id)
  unfolding ping_message set_observer_id
  ping_message_lem id =
      let (is_request, _, is_ping, _) = get_rpc-new_request json laws ping in
      (
        get_message_type-set_ne json laws "observer_id" _ (new_request json ping) refl ∙ is_request,
        get_rpc-set_ne json laws "observer_id" _ (new_request json ping) refl ∙ is_ping,
        unfold set_observer_id in
            (get_observer_id-set_observer_id json ids laws ids_laws id (new_request json ping)),
      )

  find_node_message_lem :
      (id : I) (igs : List E)
      → (get_message_type json (find_node_message json net ids id igs) ≡ some request)
        × (get_rpc json (find_node_message json net ids id igs) ≡ some find_node)
        × (get_observer_id json ids (find_node_message json net ids id igs) ≡ some id)
  unfolding find_node_message set_ignore_endpoint set_observer_id get_observer_id
  find_node_message_lem id igs =
      let (is_request, _, is_find_node, _) = get_rpc-new_request json laws find_node in
      let start = new_request json find_node in
      (
        get_message_type-set_ne json laws "ignore_eps" _ _ refl
            ∙ get_message_type-set_ne json laws "observer_id" _ start refl
            ∙ is_request,
        get_rpc-set_ne json laws "ignore_eps" _ _ refl
            ∙ get_rpc-set_ne json laws "observer_id" _ start refl
            ∙ is_find_node,
        rw (
          laws.at-set_ne "ignore_eps" "observer_id" _ _ refl,
          laws.at-set_self "observer_id" _ start,
          laws.get_text-text (ids.id_to_str id),
          ids_laws.str_to_id-id_to_str id,
        ),
      )

  same_id :
      (k_msg reply : J) (id : I)
      → json.at "observer_id" reply ≡ json.at "observer_id" k_msg
      → get_observer_id json ids k_msg ≡ some id
      → get_observer_id json ids reply ≡ some id
  unfolding get_observer_id
  same_id k_msg reply id e h = rw e h

module _ {J E A I : Type 0} (json : Json J) (laws : JsonLaws json) (net : Net E A) (ids : Ids I)
    (ids_laws : IdsLaws ids) (eq_id : Discrete I) (calc_node_id : E → NodeId) where
  -- A node with a well-formed routing table that has no ping observer with the id of a ping answers it with
  -- one message to its sender. Its table holds the sender's id afterwards, or the sender's bucket was full
  -- without it, and then the table does not change. The answer is taken by the ping observer with the id of the node that
  -- sent the ping, whose pong handler is called once for the node that was pinged; the routing table of
  -- the sender is left alone.
  pub income_message-ping_round :
      (id : I) (pinger pinged : E) (a b : DhtManager E I) (o : Ping E I) (os : List (Ping E I))
      → find_observer (λ p. p.base.id) eq_id id b.pings ≡ []
      → find_observer (λ p. p.base.id) eq_id id a.pings ≡ o ∷ os
      → IsWellFormed b.table
      → (reply : J) × (income_message json net ids eq_id calc_node_id
            (some (ping_message json ids id))
            pinger
            b
          ≡ some (
            record b { table = auto_update_batch calc_node_id (pinger ∷ []) b.table },
            sends ((pinger, reply) ∷ []),
          ))
        × JoinsOrOverflows calc_node_id pinger b.table
            (auto_update_batch calc_node_id (pinger ∷ []) b.table)
        × (income_message json net ids eq_id calc_node_id (some reply) pinged a
            ≡ some (
              record a {
                pings = replace (λ p. p.base.id) eq_id id (Ping.income_message o).0 a.pings;
              },
              record { sent = []; posted = pong_handler o.dest_ep ∷ []; found = [] },
            ))
  unfolding income_message dispatch income_ping income_rpc Ping.income_message
  income_message-ping_round id pinger pinged a b o os fresh waits w =
      let msg = ping_message json ids id in
      let (is_request, is_ping, named) = ping_message_lem json laws net ids ids_laws id in
      let (reply, answered, _, still_ping, same) =
        income_message-ping json laws net calc_node_id msg pinger b.table is_request is_ping in
      let named' = same_id json laws net ids ids_laws msg reply id same named in
      (
        reply,
        rw (named, is_ping, fresh, answered) refl,
        auto_update_batch-JoinsOrOverflows calc_node_id pinger b.table w,
        rw (named', still_ping, waits) refl,
      )

  -- On a network whose addresses are written without a colon, a node with a well-formed routing table
  -- that has no find_node observer with the id of a search answers it, and its state does not change.
  -- The answer is taken by the find_node observer with the id of the node that searches, which is then
  -- due for deletion. Its handler is called for at most six endpoints, which stand in the answering node's
  -- routing table, none of them with the id of the searching node or of an endpoint that the search ignores;
  -- and for all such endpoints of that table, if they are fewer than five.
  pub income_message-search_round :
      (net_laws : NetLaws net)
      → ((ep : E) → Lacks colon (net.to_string (net.address ep)))
      → (id : I) (searcher asked : E) (igs : List E) (a b : DhtManager E I) (o : BaseObserver I)
        (os : List (BaseObserver I))
      → find_observer (λ q. q.id) eq_id id b.find_nodes ≡ []
      → find_observer (λ q. q.id) eq_id id a.find_nodes ≡ o ∷ os
      → IsWellFormed b.table
      → Owned calc_node_id b.table
      → (reply : J) × (eps : List E) × (income_message json net ids eq_id calc_node_id
            (some (find_node_message json net ids id igs))
            searcher
            b
          ≡ some (b, sends ((searcher, reply) ∷ [])))
        × (income_message json net ids eq_id calc_node_id (some reply) asked a
            ≡ some (
              record a { find_nodes = replace (λ q. q.id) eq_id id (destruct_self o) a.find_nodes },
              record { sent = []; posted = []; found = eps },
            ))
        × (length eps ≤ 6)
        × Collected calc_node_id 5 (igs ++ searcher ∷ []) b.table eps
        × ((ep : E) → Mem ep eps → calc_node_id ep ≢ calc_node_id searcher)
        × ((ep ig : E) → Mem ep eps → Mem ig igs → calc_node_id ep ≢ calc_node_id ig)
  unfolding income_message dispatch income_find_node income_rpc
  income_message-search_round net_laws lacks id searcher asked igs a b o os fresh waits w own =
      let msg = find_node_message json net ids id igs in
      let (is_request, is_find_node, named) =
        find_node_message_lem json laws net ids ids_laws id igs in
      let ignored : get_ignore_endpoint json net msg ≡ some igs =
        unfold find_node_message in
        ((get_ignore_endpoint-set_ignore_endpoint json laws net net_laws igs
          (set_observer_id json ids id (new_request json find_node)) (λ ep m. lacks ep)).0) in
      let (reply, eps, answered, _, still, same, listed, collected) =
        income_message-find_node json laws net calc_node_id msg searcher b.table igs is_request
          is_find_node ignored w own in
      let named' = same_id json laws net ids ids_laws msg reply id same named in
      let read : get_finded_endpoint json net reply ≡ some eps =
        unfold get_finded_endpoint in
        (rw listed (
          traverse-map (read_endpoint json net) (write_endpoint json net) eps
            (λ ep m. read_endpoint-write_endpoint json laws net net_laws ep (lacks ep)))) in
      (
        reply,
        eps,
        rw (named, is_find_node, fresh, answered),
        rw (named', still, waits, read),
        omega (arith, collected.short),
        collected,
        λ ep m. collected.apart ep searcher m (mem-append_right igs mem-cons_self),
        λ ep ig m i. collected.apart ep ig m (mem-append_left (searcher ∷ []) i),
      )
