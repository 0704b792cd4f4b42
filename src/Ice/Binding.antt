-- ===== src/Ice/Binding.antt =====
-- binding_request of src/ss_p2p/ice_agent/ice_observer.cpp: it asks several nodes for the endpoint
-- under which they see this node, and takes the answer that most of them give.
-- Endpoints are Boost.Asio's: their type, their equality and `is_loopback` are parameters, and so is
-- `std::sort` by descending count. A std::map is the list of its entries; the order in which it
-- holds them does not matter to what is sorted next.
pub mod Tally
pub mod Consensus
pub mod Events
use ss_p2p_node_controller.Common.{
  ℕ, zero, suc, ◌+◌, ◌*◌, ◌/◌, ◌%◌, max, Bool, true, false, not, if◌then◌else◌, ltb, ite, List, [],
  ◌∷◌, ◌++◌, length, Option, none, some,
}
use ss_p2p_node_controller.Ice.Reservation
use ss_p2p_node_controller.Ice.Reservation.{SrObject, update_state}

pub data ConsensusState : Type 0 where
  done on_handling error_done : ConsensusState

pub record ConsensusCtx (E : Type 0) : Type 0 where
  pub state : ConsensusState
  pub ep : Option E

-- The observer: for each node asked, the endpoint that it answered.
pub record BindingRequest (E : Type 0) : Type 0 where
  pub responses : List (E × Option E)
  pub sr : SrObject E
  pub is_handler_called : Bool
  pub is_timeout : Bool
  pub timer_armed : Bool
  pub destructed : Bool

-- An `unsigned short` has 16 bits.
abbrev pub short_mod : ℕ
short_mod = 65536

-- `response_count < _responses.size() / 2.5`, a comparison of doubles.
unfoldable pub too_few : ℕ → ℕ → Bool
too_few response_count size = ltb (5 * response_count) (2 * size)

module _ {E : Type 0} where
  -- The constructor and `init`.
  unfoldable pub init : SrObject E → BindingRequest E
  unfolding update_state
  init sr = record {
    responses = [];
    sr = update_state Reservation.pending none sr;
    is_handler_called = false;
    is_timeout = false;
    timer_armed = true;
    destructed = false;
  }

  unfoldable pub add_requested_ep : E → BindingRequest E → BindingRequest E
  add_requested_ep ep b = record b { responses = b.responses ++ (ep, none) ∷ [] }

  -- The loop that counts the nodes that have answered.
  unfoldable pub count_responses : ℕ → List (E × Option E) → ℕ
  count_responses count [] = count
  count_responses count ((ep, none) ∷ rs) = count_responses count rs
  count_responses count ((ep, some answer) ∷ rs) = count_responses ((count + 1) % short_mod) rs

  unfoldable pub winner : List (E × ℕ) → Option E
  winner [] = none
  winner ((ep, n) ∷ counter_v) = some ep

  abbrev pub handling : ConsensusCtx E
  handling = record { state = on_handling; ep = none }

module _ {E : Type 0} (is_loopback : E → Bool) where
  -- The answers that are no loopback addresses.
  unfoldable pub valid_eps : List (E × Option E) → List E
  valid_eps [] = []
  valid_eps ((ep, none) ∷ rs) = valid_eps rs
  valid_eps ((ep, some answer) ∷ rs) =
      let rest = valid_eps rs in if not (is_loopback answer) then answer ∷ rest else rest

module _ {E : Type 0} (eq_ep : Discrete E) where
  -- `counter_m[ep]++`.
  unfoldable pub bump : E → List (E × ℕ) → List (E × ℕ)
  bump ep [] = (ep, 1) ∷ []
  bump ep ((k, n) ∷ m) = ite (eq_ep k ep) ((k, (n + 1) % short_mod) ∷ m) ((k, n) ∷ bump ep m)

  unfoldable pub tally : List (E × ℕ) → List E → List (E × ℕ)
  unfolding bump
  tally m [] = m
  tally m (ep ∷ eps) = tally (bump ep m) eps

  -- The first entry of the node takes the answer; a node that was not asked is passed over.
  unfoldable pub add_response : E → E → List (E × Option E) → List (E × Option E)
  add_response src_ep response_ep [] = []
  add_response src_ep response_ep ((ep, old) ∷ rs) =
      ite (eq_ep ep src_ep) ((ep, some response_ep) ∷ rs)
        ((ep, old) ∷ add_response src_ep response_ep rs)

module _ {E : Type 0} (is_loopback : E → Bool) (eq_ep : Discrete E)
    (sort : List (E × ℕ) → List (E × ℕ)) where
  -- The end of `global_ep_consensus`: the endpoint with the highest count.
  unfoldable pub elect : List E → ConsensusCtx E
  unfolding tally winner
  elect eps = record { state = done; ep = winner (sort (tally eq_ep [] eps)) }

  abbrev pub forced : List E → ConsensusCtx E
  forced [] = record { state = error_done; ep = none }
  forced (ep ∷ eps) = elect (ep ∷ eps)

  unfoldable pub global_ep_consensus : Bool → List (E × Option E) → ConsensusCtx E
  unfolding count_responses too_few valid_eps elect
  global_ep_consensus is_force responses =
      let response_count = count_responses 0 responses in
      let vli_global_eps = valid_eps is_loopback responses in
      if too_few response_count (length responses)
      then handling
      else if is_force
      then forced vli_global_eps
      else if ltb (length vli_global_eps) (max (response_count / 3) 1)
      then handling
      else elect vli_global_eps

abbrev pub sr_state : ConsensusState → Reservation.SrState
sr_state done = Reservation.done
sr_state error_done = Reservation.notfound
sr_state on_handling = Reservation.pending

module _ {E : Type 0} where
  unfoldable pub update_sr : ConsensusCtx E → SrObject E → SrObject E
  unfolding update_state
  update_sr cctx sr = update_state (sr_state cctx.state) cctx.ep sr

  -- `async_call_sr_handler` under its guard: what is posted to the handler of the caller.
  unfoldable pub call_handler : Option E → BindingRequest E → BindingRequest E × List (Option E)
  call_handler ep b =
      if b.sr.is_async
      then (if b.is_handler_called
          then (b, [])
          else (record b { is_handler_called = true }, ep ∷ []))
      else (b, [])

  -- The end of `income_message`, given the outcome of the vote.
  abbrev pub settle :
      ConsensusState → Option E → BindingRequest E → BindingRequest E × List (Option E)
  settle on_handling ep b = (b, [])
  settle done ep b =
      let (b', calls) =
        call_handler ep (record b { sr = update_sr (record { state = done; ep = ep }) b.sr }) in
      (record b' { timer_armed = false; destructed = true }, calls)
  settle error_done ep b =
      let (b', calls) =
        call_handler ep
          (record b { sr = update_sr (record { state = error_done; ep = ep }) b.sr }) in
      (record b' { timer_armed = false; destructed = true }, calls)

module _ {E : Type 0} (is_loopback : E → Bool) (eq_ep : Discrete E)
    (sort : List (E × ℕ) → List (E × ℕ)) where
  -- `income_message` of a node's answer; without an endpoint in the message it gives up.
  unfoldable pub income_message :
      E → Option E → BindingRequest E → BindingRequest E × List (Option E)
  unfolding add_response global_ep_consensus call_handler update_sr
  income_message ep none b = (b, [])
  income_message ep (some global_ep) b =
      let responses = add_response eq_ep ep global_ep b.responses in
      let cctx = global_ep_consensus is_loopback eq_ep sort false responses in
      settle cctx.state cctx.ep (record b { responses = responses })

  -- The timer's handler.
  unfoldable pub on_timeout : BindingRequest E → BindingRequest E × List (Option E)
  unfolding global_ep_consensus update_sr call_handler
  on_timeout b =
      let cctx = global_ep_consensus is_loopback eq_ep sort false b.responses in
      let (b', calls) = call_handler cctx.ep (record b { sr = update_sr cctx b.sr }) in
      (record b' { is_timeout = true; timer_armed = false }, calls)
