-- ===== src/Observers/Ping.antt =====
-- The ping observer of src/ss_p2p/kademlia/k_observer.cpp. What a member function posts to one of
-- the two handlers is its output, with the endpoint that was pinged.
pub mod Events
use ss_p2p_node_controller.Common.{ℕ, ◌+◌, ◌-◌, Bool, true, false, List, [], ◌∷◌, if◌then◌else◌}
use ss_p2p_node_controller.Observers.Base
use ss_p2p_node_controller.Observers.Base.{BaseObserver}

abbrev pub ping_response_timeout : ℕ
ping_response_timeout = 5

pub record Ping (E I : Type 0) : Type 0 where
  pub base : BaseObserver I
  pub dest_ep : E
  pub is_pong_arrived : Bool
  -- When the timer fires, as long as it is not cancelled.
  pub timer_at : ℕ
  pub timer_armed : Bool

pub data Posted (E : Type 0) : Type 0 where
  pong_handler timeout_handler : E → Posted E

module _ {E I : Type 0} where
  -- The constructor and `init`.
  unfoldable pub init : I → E → ℕ → Ping E I
  unfolding Base.new_observer Base.extend_expire_at
  init id ep now = record {
    base = Base.extend_expire_at now (ping_response_timeout + 1) (Base.new_observer id now);
    dest_ep = ep;
    is_pong_arrived = false;
    timer_at = now + (ping_response_timeout - 1);
    timer_armed = true;
  }

  -- The timer's handler, which also runs when the timer is cancelled.
  unfoldable pub timeout : Ping E I → Ping E I × List (Posted E)
  unfolding Base.destruct_self
  timeout p = if p.is_pong_arrived then (p, []) else (
    record p { base = Base.destruct_self p.base; timer_armed = false },
    timeout_handler p.dest_ep ∷ [],
  )

  unfoldable pub income_message : Ping E I → Ping E I × List (Posted E)
  unfolding Base.destruct_self
  income_message p = (
    record p { base = Base.destruct_self p.base; is_pong_arrived = true; timer_armed = false },
    pong_handler p.dest_ep ∷ [],
  )
