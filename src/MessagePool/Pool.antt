-- ===== src/MessagePool/Pool.antt =====
-- message_pool and message_hub of src/ss_p2p/message_pool.cpp. The multi-index container is the
-- list of its entries; its by_peer_id index is unique, which `Unique` of the child module states.
pub mod Store
pub mod Refine
use ss_p2p_node_controller.Common.{
  ℕ, ◌+◌, ◌-◌, ltb, Bool, true, false, if◌then◌else◌, ite, List, [], ◌∷◌, ◌++◌, map, Option, none,
  some,
}
use ss_p2p_node_controller.MessagePool.Buffer
use ss_p2p_node_controller.MessagePool.Buffer.{
  Received, MessageBuffer, PopFlag, dequeue, Outcome, done, fault,
}

pub record MessagePool (E I M : Type 0) : Type 0 where
  pub entries : List (MessageBuffer E I M)
  pub requires_refresh : Bool
  pub timer_armed : Bool
  -- Cancelled waits whose handler, which does not look at the error, the event loop still calls.
  pub cancelled : ℕ
  pub hub_active : Bool

-- What the hub hands to the handler of the application: the endpoint of the peer and the message.
pub record Delivery (E I M : Type 0) : Type 0 where
  pub src_ep : E
  pub received : Received I M

module _ {E I M : Type 0} where
  -- The constructor; the hub starts inactive.
  unfoldable pub init : Bool → MessagePool E I M
  init requires_refresh = record {
    entries = [];
    requires_refresh = requires_refresh;
    timer_armed = false;
    cancelled = 0;
    hub_active = false;
  }

  -- Setting the timer again cancels the wait that is pending.
  unfoldable pub call_refresh_tick : MessagePool E I M → MessagePool E I M
  call_refresh_tick p = record p {
    timer_armed = true;
    cancelled = if p.timer_armed then p.cancelled + 1 else p.cancelled;
  }

  unfoldable pub requires_refresh : Bool → MessagePool E I M → MessagePool E I M
  unfolding call_refresh_tick
  requires_refresh true p = call_refresh_tick (record p { requires_refresh = true })
  requires_refresh false p = record p { requires_refresh = false }

  abbrev pub drop_all : ℕ → List (MessageBuffer E I M) → List (MessageBuffer E I M)
  drop_all now [] = []
  drop_all now (b ∷ bs) = Buffer.drop_expired now b ∷ drop_all now bs

  -- The timer's handler.
  unfoldable pub refresh_tick : ℕ → MessagePool E I M → MessagePool E I M
  unfolding call_refresh_tick
  refresh_tick now p =
      let swept = record p { entries = drop_all now p.entries } in
      if p.requires_refresh then call_refresh_tick swept else swept

  -- The handler runs because the timer fired, or because its wait was cancelled.
  unfoldable pub on_timer : ℕ → MessagePool E I M → MessagePool E I M
  unfolding refresh_tick
  on_timer now p = refresh_tick now (record p { timer_armed = false })

  unfoldable pub run_cancelled : ℕ → MessagePool E I M → MessagePool E I M
  unfolding refresh_tick
  run_cancelled now p =
      if ltb 0 p.cancelled then refresh_tick now (record p { cancelled = p.cancelled - 1 }) else p

  -- message_hub::start and message_hub::stop.
  unfoldable pub start_hub : MessagePool E I M → MessagePool E I M
  start_hub p = record p { hub_active = true }

  unfoldable pub stop_hub : MessagePool E I M → MessagePool E I M
  stop_hub p = record p { hub_active = false }

  -- message_hub::on_receive_message, given what `pop_func` returned.
  unfoldable pub on_receive_message : Option (Received I M) → E → Option (Delivery E I M)
  on_receive_message none src_ep = none
  on_receive_message (some m) src_ep = some (record { src_ep = src_ep; received = m })

module _ {E I M P : Type 0} (calc_peer_id : E → P) (eq_peer : Discrete P) where
  -- `find` in the index by peer id.
  unfoldable pub find_entry : P → List (MessageBuffer E I M) → Option (MessageBuffer E I M)
  find_entry pid [] = none
  find_entry pid (b ∷ bs) =
      ite (eq_peer (calc_peer_id b.binding_ep) pid) (some b) (find_entry pid bs)

  -- `modify` of the entry that was found.
  unfoldable pub modify_entry :
      P
      → (MessageBuffer E I M → MessageBuffer E I M)
      → List (MessageBuffer E I M)
      → List (MessageBuffer E I M)
  modify_entry pid f [] = []
  modify_entry pid f (b ∷ bs) =
      ite (eq_peer (calc_peer_id b.binding_ep) pid) (f b ∷ bs) (b ∷ modify_entry pid f bs)

  -- `emplace` fails on a key that is there, and then the source returns the end iterator.
  unfoldable pub allocate_new_entry :
      ℕ → E → List (MessageBuffer E I M) → Option (List (MessageBuffer E I M))
  unfolding find_entry Buffer.new_buffer
  allocate_new_entry leftover ep entries = elim (find_entry (calc_peer_id ep) entries) [
    | none ↦ some (entries ++ Buffer.new_buffer leftover ep ∷ [])
    | some b ↦ none
  ]

  -- A copy of the entry: what is popped from it stays in the pool.
  unfoldable pub get_peer_message_buffer : P → MessagePool E I M → Option (MessageBuffer E I M)
  unfolding find_entry Buffer.copy_buffer
  get_peer_message_buffer pid p = elim (find_entry pid p.entries) [
    | none ↦ none
    | some b ↦ some (Buffer.copy_buffer b)
  ]

  -- The entry for an endpoint, made if there is none.
  unfoldable pub ensure_entry :
      ℕ → E → List (MessageBuffer E I M) → Option (List (MessageBuffer E I M))
  unfolding find_entry allocate_new_entry
  ensure_entry leftover ep entries = elim (find_entry (calc_peer_id ep) entries) [
    | none ↦ allocate_new_entry leftover ep entries
    | some b ↦ some entries
  ]

module _ {E I M P : Type 0} (calc_peer_id : E → P) (eq_peer : Discrete P)
    (eq_uuid : Discrete I) where
  -- The hub pops the new message by its id from a copy of the entry.
  unfoldable pub notify_hub :
      I → E → MessagePool E I M → Outcome (MessagePool E I M × Option (Delivery E I M))
  unfolding find_entry Buffer.copy_buffer Buffer.pop_by_id on_receive_message
  notify_hub id ep p = elim (find_entry calc_peer_id eq_peer (calc_peer_id ep) p.entries) [
    | none ↦ fault
    | some entry ↦ elim (Buffer.pop_by_id eq_uuid id dequeue (Buffer.copy_buffer entry)) [
      | fault ↦ fault
      | done (temp, popped) ↦ done (p, on_receive_message popped ep)
    ]
  ]

  -- `leftover` is what a new buffer's memory count starts with, `id` the random id of the message.
  unfoldable pub store :
      ℕ
      → I
      → ℕ
      → ℕ
      → M
      → E
      → MessagePool E I M
      → Outcome (MessagePool E I M × Option (Delivery E I M))
  unfolding ensure_entry modify_entry notify_hub Buffer.push
  store leftover id now later msg ep p =
      elim (ensure_entry calc_peer_id eq_peer leftover ep p.entries) [
        | none ↦ done (p, none)
        | some entries ↦
            let stored = record p {
              entries =
                  modify_entry calc_peer_id eq_peer (calc_peer_id ep) (Buffer.push id now later msg)
                    entries;
            } in
            if p.hub_active then notify_hub id ep stored else done (stored, none)
      ]
