-- ===== src/NodeController/Laws.antt =====
-- What a received packet does to a node, for on_receive_packet of src/ss_p2p/node_controller.cpp.
use ss_p2p_node_controller.Common.{
  ℕ, Bool, true, false, if◌then◌else◌, ◌≡◌, ◌≢◌, refl, sym, ap, ◌∙◌, List, [], ◌∷◌, ◌++◌, Option,
  none, some, bind-some,
}
use ss_p2p_node_controller.Json.{Json}
use ss_p2p_node_controller.Endpoint.{Net}
use ss_p2p_node_controller.Message.{is_contain_param}
use ss_p2p_node_controller.Kademlia.NodeId.{NodeId}
use ss_p2p_node_controller.Kademlia.DhtManager
use ss_p2p_node_controller.Kademlia.DhtManager.{DhtManager}
use ss_p2p_node_controller.Observers.Base.{Ids}
use ss_p2p_node_controller.Ice.Agent
use ss_p2p_node_controller.Ice.Agent.{Agent}
use ss_p2p_node_controller.MessagePool.Buffer.{Received}
use ss_p2p_node_controller.MessagePool.Pool.{MessagePool, Delivery}
use ss_p2p_node_controller.MessagePool.Pool.Store.{queue_of, store_lem}
use ss_p2p_node_controller.NodeController.{
  Node, Inputs, Effects, income_kademlia, income_ice, keep, on_receive_packet,
}

module _ {J E I U : Type 0} where
  abbrev pool_in : MessagePool E U J → Option (Node J E I U × Effects J E U) → MessagePool E U J
  pool_in p none = p
  pool_in p (some (n, fx)) = n.pool

  abbrev delivery_in : Option (Node J E I U × Effects J E U) → Option (Delivery E U J)
  delivery_in none = none
  delivery_in (some (n, fx)) = fx.delivery

module _ {J E I U P : Type 0} (json : Json J) (calc_peer_id : E → P) (eq_peer : Discrete P)
    (eq_uuid : Discrete U) where
  kept_unchanged :
      (x : Inputs I U) (msg : J) (ep : E) (p : MessagePool E U J)
      (kept : MessagePool E U J × Option (Delivery E U J))
      → is_contain_param json "ice_agent" msg ≡ true
      → keep json calc_peer_id eq_peer eq_uuid x msg ep p ≡ some kept
      → kept ≡ (p, none)
  unfolding keep
  kept_unchanged x msg ep p kept ice e =
      let e' : some (p, none) ≡ some kept = rw ice at e in ap (or_else (p, none)) (sym e')
    where
      or_else :
          MessagePool E U J × Option (Delivery E U J)
          → Option (MessagePool E U J × Option (Delivery E U J))
          → MessagePool E U J × Option (Delivery E U J)
      or_else d none = d
      or_else d (some r) = r

module _ {J E A I U P : Type 0} (json : Json J) (net : Net E A) (ids : Ids I) (eq_ep : Discrete E)
    (eq_id : Discrete I) (calc_node_id : E → NodeId) (glob_self_ep : E) (is_loopback : E → Bool)
    (sort : List (E × ℕ) → List (E × ℕ)) (calc_peer_id : E → P) (eq_peer : Discrete P)
    (eq_uuid : Discrete U) where
  -- A packet without a message for the ICE part, of which the Kademlia part takes what is for it without
  -- an exception, joins the back of the queue of its sender's peer and no other queue. The ICE part is
  -- left alone, and the application gets the message if and only if the hub is active.
  pub on_receive_packet-stores :
      (x : Inputs I U) (msg : J) (ep : E) (n : Node J E I U) (d : DhtManager E I)
      (fx : DhtManager.Effects J E)
      → is_contain_param json "ice_agent" msg ≡ false
      → income_kademlia json net ids eq_id calc_node_id msg ep n.dht ≡ some (d, fx)
      → let m : Received U J = record { id = x.message_id; msg = msg; time = x.received_at } in
        (n' : Node J E I U) × (out : Effects J E U) × (on_receive_packet json net ids eq_ep eq_id
            calc_node_id glob_self_ep is_loopback sort calc_peer_id eq_peer eq_uuid x msg ep n
          ≡ some (n', out))
        × (n'.dht ≡ d)
        × (n'.ice ≡ n.ice)
        × (queue_of calc_peer_id eq_peer (calc_peer_id ep) n'.pool.entries
            ≡ queue_of calc_peer_id eq_peer (calc_peer_id ep) n.pool.entries ++ m ∷ [])
        × ((other : P)
            → calc_peer_id ep ≢ other
            → queue_of calc_peer_id eq_peer other n'.pool.entries
              ≡ queue_of calc_peer_id eq_peer other n.pool.entries)
        × (out.delivery
            ≡ (if n.pool.hub_active then some (record { src_ep = ep; received = m }) else none))
  unfolding on_receive_packet income_ice keep
  on_receive_packet-stores x msg ep n d fx plain taken =
      let (p', ev, stored, own, others, delivered) =
        store_lem calc_peer_id eq_peer eq_uuid x.leftover x.message_id x.received_at x.stored_at msg
          ep n.pool in
      (
        record { dht = d; ice = n.ice; pool = p' },
        record { kademlia = fx; ice_agent = Agent.nothing; delivery = ev },
        rw (taken, plain, stored),
        refl,
        refl,
        own,
        others,
        delivered,
      )

  -- A packet with a message for the ICE part is never stored: whenever the handlers return, the pool is
  -- as before and the application gets nothing.
  pub on_receive_packet-ice :
      (x : Inputs I U) (msg : J) (ep : E) (n n' : Node J E I U) (out : Effects J E U)
      → is_contain_param json "ice_agent" msg ≡ true
      → on_receive_packet json net ids eq_ep eq_id calc_node_id glob_self_ep is_loopback sort
          calc_peer_id eq_peer eq_uuid x msg ep n
        ≡ some (n', out)
      → (n'.pool ≡ n.pool) × (out.delivery ≡ none)
  unfolding on_receive_packet
  on_receive_packet-ice x msg ep n n' out ice ran =
      let (k, took, next) =
        bind-some (income_kademlia json net ids eq_id calc_node_id msg ep n.dht) _ (n', out) ran in
      let (i, served, rest) =
        bind-some
          (income_ice json net ids eq_ep eq_id calc_node_id glob_self_ep is_loopback sort x msg ep
            k.0 n.ice)
          _ (n', out) next in
      let (kept, e, ends) =
        bind-some (keep json calc_peer_id eq_peer eq_uuid x msg ep n.pool) _ (n', out) rest in
      let same = kept_unchanged json calc_peer_id eq_peer eq_uuid x msg ep n.pool kept ice e in
      (
        sym (ap (pool_in n.pool) ends) ∙ ap (λ r. r.0) same,
        sym (ap delivery_in ends) ∙ ap (λ r. r.1) same,
      )
