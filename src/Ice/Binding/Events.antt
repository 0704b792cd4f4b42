-- ===== src/Ice/Binding/Events.antt =====
-- Sequences of requests, answers and timeouts at the observer binding_request of
-- src/ss_p2p/ice_agent/ice_observer.cpp.
use ss_p2p_node_controller.Common.{
  ℕ, ◌+◌, ◌≤◌, Bool, true, false, ◌≡◌, ◌≢◌, refl, inl, inr, Bool-cases, List, [], ◌∷◌, ◌++◌, length,
  length-append, Option, none, some, arith,
}
use ss_p2p_node_controller.Ice.Reservation
use ss_p2p_node_controller.Ice.Reservation.{
  SrObject, SyncGet, waits, sync_get, async_get, update_state,
}
use ss_p2p_node_controller.Ice.Binding.{
  BindingRequest, ConsensusState, done, on_handling, add_requested_ep, error_done, init,
  income_message, on_timeout, settle, call_handler, update_sr, add_response, global_ep_consensus,
  sr_state,
}

-- What can happen to the observer: the server asks one more node, a node answers, the timer fires or is cancelled, and the caller
-- asks for its handler to be called.
pub data Event (E : Type 0) : Type 0 where
  requests : E → Event E
  answers : E → Option E → Event E
  times_out asks_async : Event E

module _ {E : Type 0} (is_loopback : E → Bool) (eq_ep : Discrete E)
    (sort : List (E × ℕ) → List (E × ℕ)) where
  unfoldable pub step : BindingRequest E → Event E → BindingRequest E × List (Option E)
  step b (requests ep) = (add_requested_ep ep b, [])
  step b (answers ep answer) = income_message is_loopback eq_ep sort ep answer b
  step b times_out = on_timeout is_loopback eq_ep sort b
  step b asks_async = (record b { sr = async_get b.sr }, [])

  -- The state after the events, and what was posted to the handler.
  unfoldable pub run : BindingRequest E → List (Event E) → BindingRequest E × List (Option E)
  run b [] = (b, [])
  run b (ev ∷ evs) =
      let (b', calls) = step b ev in let (b'', later) = run b' evs in (b'', calls ++ later)

-- How often the handler may still be called.
abbrev calls_left : Bool → ℕ
calls_left true = 0
calls_left false = 1

module _ {E : Type 0} where
  -- What one step keeps: calls are taken from those left, and the state is never `pending`.
  record Keeps (b : BindingRequest E) (r : BindingRequest E × List (Option E)) : Type 0 where
    budget : length r.1 + calls_left r.0.is_handler_called ≤ calls_left b.is_handler_called
    settled : b.sr.state ≢ Reservation.pending → r.0.sr.state ≢ Reservation.pending

  update_state-ne :
      (s : Reservation.SrState) (ep : Option E) (sr : SrObject E)
      → (update_state s ep sr).state ≢ Reservation.pending
  unfolding update_state
  update_state-ne Reservation.done (some ep) sr e = absurd cc
  update_state-ne Reservation.done none sr e = absurd cc
  update_state-ne Reservation.pending ep sr e = absurd cc
  update_state-ne Reservation.notfound ep sr e = absurd cc

  call_handler-Keeps : (ep : Option E) (b : BindingRequest E) → Keeps b (call_handler ep b)
  unfolding call_handler
  call_handler-Keeps ep b = elim (Bool-cases b.sr.is_async) [
    | inl async ↦ elim (Bool-cases b.is_handler_called) [
      | inl called ↦ rw (async, called) (record { budget = omega arith; settled = λ h. h })
      | inr fresh ↦ rw (async, fresh) (record { budget = omega arith; settled = λ h. h })
    ]
    | inr sync ↦ rw sync (record { budget = omega arith; settled = λ h. h })
  ]

  -- A vote that has ended stores its result first, so the state is settled whatever it was.
  stored_handler :
      (sr : SrObject E) (ep : Option E) (b : BindingRequest E)
      → sr.state ≢ Reservation.pending
      → Keeps b (call_handler ep (record b { sr = sr }))
  stored_handler sr ep b h =
      let k = call_handler-Keeps ep (record b { sr = sr }) in
      record { budget = k.budget; settled = λ _. k.settled h }

  settle-Keeps :
      (s : ConsensusState) (ep : Option E) (b : BindingRequest E) → Keeps b (settle s ep b)
  unfolding update_sr
  settle-Keeps on_handling ep b = record { budget = omega arith; settled = λ h. h }
  settle-Keeps done ep b =
      let k =
        stored_handler (update_state Reservation.done ep b.sr) ep b
          (update_state-ne Reservation.done ep b.sr) in
      record { budget = k.budget; settled = k.settled }
  settle-Keeps error_done ep b =
      let k =
        stored_handler (update_state Reservation.notfound ep b.sr) ep b
          (update_state-ne Reservation.notfound ep b.sr) in
      record { budget = k.budget; settled = k.settled }

module _ {E : Type 0} (is_loopback : E → Bool) (eq_ep : Discrete E)
    (sort : List (E × ℕ) → List (E × ℕ)) where
  step-Keeps : (b : BindingRequest E) (ev : Event E) → Keeps b (step is_loopback eq_ep sort b ev)
  unfolding step income_message on_timeout update_sr async_get add_requested_ep
  step-Keeps b (requests ep) = record { budget = omega arith; settled = λ h. h }
  step-Keeps b (answers ep none) = record { budget = omega arith; settled = λ h. h }
  step-Keeps b (answers ep (some answer)) =
      let responses = add_response eq_ep ep answer b.responses in
      let cctx = global_ep_consensus is_loopback eq_ep sort false responses in
      let k = settle-Keeps cctx.state cctx.ep (record b { responses = responses }) in
      record { budget = k.budget; settled = k.settled }
  step-Keeps b times_out =
      let cctx = global_ep_consensus is_loopback eq_ep sort false b.responses in
      let k =
        stored_handler (update_state (sr_state cctx.state) cctx.ep b.sr) cctx.ep b
          (update_state-ne (sr_state cctx.state) cctx.ep b.sr) in
      record { budget = k.budget; settled = k.settled }
  step-Keeps b asks_async = record { budget = omega arith; settled = λ h. h }

  run-Keeps :
      (evs : List (Event E)) (b : BindingRequest E) → Keeps b (run is_loopback eq_ep sort b evs)
  unfolding run
  run-Keeps [] b = record { budget = omega arith; settled = λ h. h }
  run-Keeps (ev ∷ evs) b =
      let now = step-Keeps b ev in
      let b' = (step is_loopback eq_ep sort b ev).0 in
      let later = run-Keeps evs b' in
      record {
        budget = omega (
          arith,
          now.budget,
          later.budget,
          length-append (step is_loopback eq_ep sort b ev).1 (run is_loopback eq_ep sort b' evs).1,
        );
        settled = λ h. later.settled (now.settled h);
      }

  -- Whatever nodes are asked, answers and timeouts reach a new observer and whenever its caller asks for
  -- a handler, in whatever order,
  -- the handler is called at most once, and a sync_get after them waits for a further
  -- notification, even when the result is already there.
  pub run-calls :
      (sr : SrObject E) (evs : List (Event E))
      → (length (run is_loopback eq_ep sort (init sr) evs).1 ≤ 1)
        × (sync_get (run is_loopback eq_ep sort (init sr) evs).0.sr ≡ waits)
  unfolding init sync_get
  run-calls sr evs =
      let k = run-Keeps evs (init sr) in
      (
        omega (arith, k.budget),
        waits_ne _ _ (k.settled (update_state-ne Reservation.pending none sr)),
      )
    where
      waits_ne :
          (s : Reservation.SrState) (ep : E)
          → s ≢ Reservation.pending
          → Reservation.sync_get_in s ep ≡ waits
      waits_ne Reservation.done ep h = refl
      waits_ne Reservation.pending ep h = absurd (h refl)
      waits_ne Reservation.notfound ep h = refl
