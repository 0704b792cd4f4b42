-- ===== src/Ice/Reservation.antt =====
-- sr_object of src/ss_p2p/ice_agent/stun_server.cpp: the place where the caller of binding_request
-- waits for the answer.
use ss_p2p_node_controller.Common.{ℕ, suc, Bool, true, false, if◌then◌else◌, Option, none, some}

pub data SrState : Type 0 where
  done pending notfound : SrState

pub record SrObject (E : Type 0) : Type 0 where
  pub is_async : Bool
  pub state : SrState
  pub global_ep : E
  -- How often the callers that wait in `sync_get` were woken.
  pub notified : ℕ

-- What a call of `sync_get` does: it waits on the condition variable, or returns.
pub data SyncGet (E : Type 0) : Type 0 where
  waits : SyncGet E
  returns : Option E → SyncGet E

module _ {E : Type 0} where
  -- The constructor; `any_ep` is the endpoint 0.0.0.0:0.
  unfoldable pub new_sr : E → SrObject E
  new_sr any_ep = record { is_async = false; state = notfound; global_ep = any_ep; notified = 0 }

  unfoldable pub async_get : SrObject E → SrObject E
  async_get sr = record sr { is_async = true }

  -- Any state other than `done` with an endpoint is stored as `notfound`.
  abbrev pub store_state : SrState → Option E → SrObject E → SrObject E
  store_state done (some ep) sr = record sr { state = done; global_ep = ep }
  store_state done none sr = record sr { state = notfound }
  store_state pending ep sr = record sr { state = notfound }
  store_state notfound ep sr = record sr { state = notfound }

  -- The callers that wait are woken only if no handler was registered.
  unfoldable pub update_state : SrState → Option E → SrObject E → SrObject E
  update_state s ep sr = record (store_state s ep sr) {
    notified = if sr.is_async then sr.notified else suc sr.notified;
  }

  -- What `sync_get` returns once it does not wait, or no longer.
  abbrev pub result_in : SrState → E → Option E
  result_in done ep = some ep
  result_in pending ep = none
  result_in notfound ep = none

  abbrev pub sync_get_in : SrState → E → SyncGet E
  sync_get_in pending ep = returns (result_in pending ep)
  sync_get_in done ep = waits
  sync_get_in notfound ep = waits

  unfoldable pub sync_get : SrObject E → SyncGet E
  sync_get sr = sync_get_in sr.state sr.global_ep
