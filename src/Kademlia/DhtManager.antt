-- ===== src/Kademlia/DhtManager.antt =====
-- dht_manager of src/ss_p2p/kademlia/dht_manager.cpp, with the requests of rpc_manager.cpp and the
-- find_node observer of k_observer.cpp. The state is the routing table and the storage of the two kinds
-- of observers; the id of a new observer and the clock are arguments, `none` is an exception or
-- undefined behaviour.
pub mod Runs
pub mod Rounds
use ss_p2p_node_controller.Common.{ℕ, List, [], ◌∷◌, Option, none, some, ◌>>=◌}
use ss_p2p_node_controller.Json.{Json}
use ss_p2p_node_controller.Endpoint.{Net}
use ss_p2p_node_controller.Kademlia.NodeId.{NodeId}
use ss_p2p_node_controller.Kademlia.RoutingTable.{RoutingTable}
use ss_p2p_node_controller.Kademlia.Message.{
  Rpc, ping, find_node, none_rpc, get_rpc, new_request, set_ignore_endpoint, get_finded_endpoint,
}
use ss_p2p_node_controller.Kademlia.RpcManager
use ss_p2p_node_controller.Observers.Base.{
  BaseObserver, new_observer, destruct_self, Ids, set_observer_id, get_observer_id,
}
use ss_p2p_node_controller.Observers.Ping
use ss_p2p_node_controller.Observers.Ping.{Ping, Posted}
use ss_p2p_node_controller.Observers.Storage.{find_observer, add_observer, replace}

-- A find_node observer is a plain observer: its handler is what `Effects.found` is posted to.
pub record DhtManager (E I : Type 0) : Type 0 where
  pub table : RoutingTable E
  pub pings : List (Ping E I)
  pub find_nodes : List (BaseObserver I)

-- Messages that are sent, and what is posted to the handlers of pings and of find_node observers.
pub record Effects (J E : Type 0) : Type 0 where
  pub sent : List (E × J)
  pub posted : List (Posted E)
  pub found : List E

module _ {J E : Type 0} where
  abbrev pub nothing : Effects J E
  nothing = record { sent = []; posted = []; found = [] }

  abbrev pub sends : List (E × J) → Effects J E
  sends ms = record { sent = ms; posted = []; found = [] }

module _ {J I : Type 0} (json : Json J) (ids : Ids I) where
  unfoldable pub ping_message : I → J
  unfolding new_request set_observer_id
  ping_message id = set_observer_id json ids id (new_request json ping)

module _ {J E A I : Type 0} (json : Json J) (net : Net E A) (ids : Ids I) where
  unfoldable pub find_node_message : I → List E → J
  unfolding new_request set_observer_id set_ignore_endpoint
  find_node_message id ignore_eps =
      set_ignore_endpoint json net ignore_eps
        (set_observer_id json ids id (new_request json find_node))

module _ {J E A I : Type 0} (json : Json J) (net : Net E A) (ids : Ids I) (eq_id : Discrete I)
    (calc_node_id : E → NodeId) where
  unfoldable pub ping_request : I → ℕ → E → DhtManager E I → DhtManager E I × Effects J E
  unfolding add_observer Ping.init ping_message
  ping_request id now ep d = (
    record d { pings = (add_observer (λ o. o.base.id) eq_id (Ping.init id ep now) d.pings).0 },
    sends ((ep, ping_message json ids id) ∷ []),
  )

  unfoldable pub find_node_request :
      I → ℕ → E → List E → DhtManager E I → DhtManager E I × Effects J E
  unfolding add_observer new_observer find_node_message
  find_node_request id now ep ignore_eps d = (
    record d { find_nodes = (add_observer (λ o. o.id) eq_id (new_observer id now) d.find_nodes).0 },
    sends ((ep, find_node_message json net ids id ignore_eps) ∷ []),
  )

  -- A message that no observer takes.
  unfoldable pub income_rpc : J → E → DhtManager E I → Option (DhtManager E I × Effects J E)
  unfolding RpcManager.income_message
  income_rpc k_msg ep d = do
    (t, sent) ← RpcManager.income_message json net calc_node_id (some k_msg) ep d.table
    some (record d { table = t }, sends sent)

  -- `income_message` of the ping observers with the id of the message.
  unfoldable pub income_ping :
      List (Ping E I) → I → J → E → DhtManager E I → Option (DhtManager E I × Effects J E)
  unfolding replace Ping.income_message income_rpc
  income_ping (o ∷ os) obs_id k_msg ep d =
      let (o', posted) = Ping.income_message o in
      some (
        record d { pings = replace (λ p. p.base.id) eq_id obs_id o' d.pings },
        record { sent = []; posted = posted; found = [] },
      )
  income_ping [] obs_id k_msg ep d = income_rpc k_msg ep d

  -- `income_message` of the find_node observers with the id of the message.
  unfoldable pub income_find_node :
      List (BaseObserver I) → I → J → E → DhtManager E I → Option (DhtManager E I × Effects J E)
  unfolding replace get_finded_endpoint destruct_self income_rpc
  income_find_node (o ∷ os) obs_id k_msg ep d = do
    finded_eps ← get_finded_endpoint json net k_msg
    some (
      record d { find_nodes = replace (λ q. q.id) eq_id obs_id (destruct_self o) d.find_nodes },
      record { sent = []; posted = []; found = finded_eps },
    )
  income_find_node [] obs_id k_msg ep d = income_rpc k_msg ep d

  unfoldable pub dispatch : Rpc → I → J → E → DhtManager E I → Option (DhtManager E I × Effects J E)
  unfolding find_observer income_ping income_find_node income_rpc
  dispatch ping obs_id k_msg ep d =
      income_ping (find_observer (λ o. o.base.id) eq_id obs_id d.pings) obs_id k_msg ep d
  dispatch find_node obs_id k_msg ep d =
      income_find_node (find_observer (λ o. o.id) eq_id obs_id d.find_nodes) obs_id k_msg ep d
  dispatch none_rpc obs_id k_msg ep d = income_rpc k_msg ep d

  -- `income_message`; the message is the value of the parameter "kademlia".
  unfoldable pub income_message :
      Option J → E → DhtManager E I → Option (DhtManager E I × Effects J E)
  unfolding get_rpc get_observer_id dispatch
  income_message none ep d = some (d, nothing)
  income_message (some k_msg) ep d = do
    rpc ← get_rpc json k_msg
    obs_id ← get_observer_id json ids k_msg
    dispatch rpc obs_id k_msg ep d
