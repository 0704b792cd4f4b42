-- ===== src/NodeController/EndToEnd.antt =====
-- From the datagram to the application: on_receive_packet and get_peer of src/ss_p2p/node_controller.cpp with
-- receive of src/ss_p2p/peer.cpp.
use Prim.Native.String.{String}
use text.Mathlib.Text.{◌==◌}
use mathlib.Core.List.{map-append}
use mathlib.Core.Option.{some-injective}
use ss_p2p_node_controller.Common.{
  ℕ, zero, suc, ◌≤◌, ◌≡◌, refl, ap, ◌∙◌, inl, inr, Option-cases, Bool, false, List, [], ◌∷◌, ◌++◌,
  map, length, length-append, take, take_of_length-le, bind-some, some, arith,
}
use ss_p2p_node_controller.Json.{Json, JsonLaws, ℤ}
use ss_p2p_node_controller.Endpoint.{Net}
use ss_p2p_node_controller.Message.{
  Bson, BsonLaws, encode, decode, new_message, set_param, is_contain_param,
}
use ss_p2p_node_controller.Sender.{Datagram, async_send}
use ss_p2p_node_controller.Kademlia.NodeId.{NodeId}
use ss_p2p_node_controller.Kademlia.DhtManager
use ss_p2p_node_controller.Kademlia.DhtManager.{DhtManager}
use ss_p2p_node_controller.Observers.Base.{Ids}
use ss_p2p_node_controller.MessagePool.Buffer.{Received, MessageBuffer, copy_buffer}
use ss_p2p_node_controller.MessagePool.Pool.{find_entry, get_peer_message_buffer}
use ss_p2p_node_controller.MessagePool.Pool.Store.{queue_of}
use ss_p2p_node_controller.Peer.{SsMessage, returns, new_peer, get}
use ss_p2p_node_controller.Peer.Laws.{receives, receives-take, ss_message}
use ss_p2p_node_controller.NodeController.{
  Node, Inputs, Effects, income_kademlia, on_receive_datagram, get_peer,
}
use ss_p2p_node_controller.NodeController.Laws.{on_receive_packet-stores}

module _ {J E I U P : Type 0} (calc_peer_id : E → P) (eq_peer : Discrete P) where
  peer_of_entry :
      (ep : E) (n : Node J E I U) (b : MessageBuffer E U J)
      → find_entry calc_peer_id eq_peer (calc_peer_id ep) n.pool.entries ≡ some b
      → get_peer calc_peer_id eq_peer ep n ≡ new_peer calc_peer_id ep (some b)
  unfolding get_peer copy_buffer
  peer_of_entry ep n b found = rw (found, get_peer_message_buffer) refl

  pub get_peer-receives :
      (k : ℕ) (timeout : ℤ) (wakeups : ℕ) (ep : E) (n : Node J E I U)
      → let q = queue_of calc_peer_id eq_peer (calc_peer_id ep) n.pool.entries in
        k ≤ length q
        → receives k timeout wakeups (get_peer calc_peer_id eq_peer ep n)
          ≡ map (λ m. returns (ss_message ep m)) (take k q)
  unfolding new_peer
  get_peer-receives k timeout wakeups ep n h =
      elim (Option-cases (find_entry calc_peer_id eq_peer (calc_peer_id ep) n.pool.entries)) [
        | inl lost ↦ no_receives k (omega (arith, rw lost at h))
        | inr (b, found) ↦
            rw (found, peer_of_entry ep n b found)
              (receives-take k timeout wakeups (new_peer calc_peer_id ep (some b)) b b.msg_queue
                refl refl (rw found at h))
      ]
    where
      no_receives :
          (k : ℕ)
          → k ≤ 0
          → receives k timeout wakeups (get_peer calc_peer_id eq_peer ep n)
            ≡ map
                (λ m. returns (ss_message ep m))
                (take k (queue_of calc_peer_id eq_peer (calc_peer_id ep) n.pool.entries))
      no_receives zero le = unfold receives in refl
      no_receives (suc k) le = absurd (omega arith)

module _ {J : Type 0} (json : Json J) (laws : JsonLaws json) where
  plain_message :
      (app_id payload : J) (param k : String)
      → (param == k) ≡ false
      → ("app_id" == k) ≡ false
      → is_contain_param json k (set_param json param payload (new_message json app_id)) ≡ false
  unfolding is_contain_param set_param new_message
  plain_message app_id payload param k h g =
      laws.contains-set_ne param k payload _ h
      ∙ laws.contains-set_ne "app_id" k app_id json.null g
      ∙ laws.contains-null k

module _ {J E A I : Type 0} (json : Json J) (net : Net E A) (ids : Ids I) (eq_id : Discrete I)
    (calc_node_id : E → NodeId) where
  not_for_kademlia :
      (msg : J) (ep : E) (d : DhtManager E I)
      → is_contain_param json "kademlia" msg ≡ false
      → income_kademlia json net ids eq_id calc_node_id msg ep d ≡ some (d, DhtManager.nothing)
  unfolding income_kademlia
  not_for_kademlia msg ep d plain = rw plain refl

module _ {J E : Type 0} (json : Json J) (bson : Bson J) (bson_laws : BsonLaws bson) where
  -- What async_send gives the socket decodes to its message.
  decode-async_send :
      (app_id payload : J) (param : String) (dest : E) (d : Datagram E)
      → async_send json bson app_id dest param payload ≡ some d
      → decode bson d.bytes ≡ some (set_param json param payload (new_message json app_id))
  unfolding async_send encode decode
  decode-async_send app_id payload param dest d sent =
      let msg = set_param json param payload (new_message json app_id) in
      let (bytes, encoded, e) = bind-some (bson.to_bson msg) _ _ sent in
      let same : bytes ≡ d.bytes = ap (λ (c : Datagram E). c.bytes) (some-injective _ _ e) in
      rw (← same) (bson_laws.from_bson-to_bson msg bytes encoded)

module _ {J E U : Type 0} where
  all_of :
      (old : List (Received U J)) (r : Received U J) {q : List (Received U J)}
      → q ≡ old ++ r ∷ []
      → (ep : E)
      → map (λ (m : Received U J). returns (ss_message ep m)) (take (suc (length old)) q)
        ≡ map (λ (m : Received U J). returns (ss_message ep m)) old
          ++ returns (ss_message ep r) ∷ []
  all_of old r own ep =
      rw
        (
          own,
          take_of_length-le (suc (length old)) (old ++ r ∷ [])
              (omega (arith, length-append old (r ∷ []))),
        )
        (map-append (λ (m : Received U J). returns (ss_message ep m)) old (r ∷ []))

  found_payload :
      (json : Json J) (laws : JsonLaws json) (app_id payload empty : J) (param : String) (src : E)
      (id : U) (time : ℕ)
      → get json empty param (
          ss_message src (record {
            id = id;
            msg = set_param json param payload (new_message json app_id);
            time = time;
          }))
        ≡ payload
  unfolding get set_param
  found_payload json laws app_id payload empty param src id time =
      rw (laws.contains-set_self) (laws.at-set_self param payload _)

module _ {J E A I U P : Type 0} (json : Json J) (laws : JsonLaws json) (bson : Bson J)
    (bson_laws : BsonLaws bson) (net : Net E A) (ids : Ids I) (eq_ep : Discrete E)
    (eq_id : Discrete I) (calc_node_id : E → NodeId) (glob_self_ep : E) (is_loopback : E → Bool)
    (sort : List (E × ℕ) → List (E × ℕ)) (calc_peer_id : E → P) (eq_peer : Discrete P)
    (eq_uuid : Discrete U) where
  -- Let async_send give the socket a datagram with a payload under a parameter other than "ice_agent" and
  -- "kademlia". A node that gets it from an endpoint takes it without an exception. The peer for that
  -- endpoint, got after that, then returns the messages that the pool held for it before and after them one
  -- with the endpoint, in which the application finds the payload under the parameter.
  pub async_send-receives :
      (app_id payload empty : J) (param : String) (dest src : E) (d : Datagram E) (x : Inputs I U)
      (timeout : ℤ) (wakeups : ℕ) (n : Node J E I U)
      → (param == "ice_agent") ≡ false
      → (param == "kademlia") ≡ false
      → async_send json bson app_id dest param payload ≡ some d
      → let old = queue_of calc_peer_id eq_peer (calc_peer_id src) n.pool.entries in
        (n' : Node J E I U) × (out : Effects J E U) × (m : SsMessage J E) × (on_receive_datagram
            json net ids eq_ep eq_id calc_node_id glob_self_ep is_loopback sort calc_peer_id eq_peer
            eq_uuid bson x d.bytes src n
          ≡ some (n', out))
        × (receives (suc (length old)) timeout wakeups (get_peer calc_peer_id eq_peer src n')
            ≡ map (λ r. returns (ss_message src r)) old ++ returns m ∷ [])
        × (get json empty param m ≡ payload)
        × (m.src_endpoint ≡ src)
  unfolding on_receive_datagram
  async_send-receives app_id payload empty param dest src d x timeout wakeups n h g sent =
      let old = queue_of calc_peer_id eq_peer (calc_peer_id src) n.pool.entries in
      let msg = set_param json param payload (new_message json app_id) in
      let r : Received U J = record { id = x.message_id; msg = msg; time = x.received_at } in
      let (n', out, ran, _, _, own, _, _) =
        on_receive_packet-stores json net ids eq_ep eq_id calc_node_id glob_self_ep is_loopback sort
          calc_peer_id eq_peer eq_uuid x msg src n n.dht DhtManager.nothing
          (plain_message json laws app_id payload param "ice_agent" h refl)
          (not_for_kademlia json net ids eq_id calc_node_id msg src n.dht
            (plain_message json laws app_id payload param "kademlia" g refl)) in
      (
        n',
        out,
        ss_message src r,
        rw (decode-async_send json bson bson_laws app_id payload param dest d sent) ran,
        get_peer-receives calc_peer_id eq_peer (suc (length old)) timeout wakeups src n'
              (omega (arith, ap length own, length-append old (r ∷ [])))
            ∙ all_of old r own src,
        found_payload json laws app_id payload empty param src r.id r.time,
        refl,
      )
