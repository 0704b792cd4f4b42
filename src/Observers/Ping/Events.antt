-- ===== src/Observers/Ping/Events.antt =====
-- Sequences of pongs, timer events and turns of the event loop at a ping of
-- src/ss_p2p/kademlia/k_observer.cpp. What a member function posts is put at the end of a queue, from which
-- the event loop calls the handlers one after the other.
use mathlib.Core.List.{append-nil, append_assoc}
use ss_p2p_node_controller.Common.{
  ℕ, zero, suc, ◌≡◌, refl, sym, ap, ◌∙◌, Bool, true, false, List, [], ◌∷◌, ◌++◌,
}
use ss_p2p_node_controller.Observers.Ping.{
  Ping, Posted, pong_handler, timeout_handler, init, timeout, income_message,
}

-- The timer's handler runs once, when the timer fires or is cancelled.
pub record World (E I : Type 0) : Type 0 where
  pub ping : Ping E I
  pub waits : Bool
  pub queue : List (Posted E)
  pub called : List (Posted E)

pub data Event : Type 0 where
  pong timer_handler runs : Event

module _ {A : Type 0} where
  abbrev pub first : List A → List A
  first [] = []
  first (b ∷ bs) = b ∷ []

  abbrev pub rest : List A → List A
  rest [] = []
  rest (b ∷ bs) = bs

  append-first-rest : (l bs : List A) → (l ++ first bs) ++ rest bs ≡ l ++ bs
  append-first-rest l [] = append_assoc l [] []
  append-first-rest l (b ∷ bs) = append_assoc l (b ∷ []) bs

  append-append-one :
      (l bs : List A) (b : A) (cs : List A) → (l ++ (bs ++ b ∷ [])) ++ cs ≡ (l ++ bs) ++ b ∷ cs
  append-append-one l bs b cs =
      append_assoc l (bs ++ b ∷ []) cs
      ∙ ap (λ xs. l ++ xs) (append_assoc bs (b ∷ []) cs)
      ∙ sym (append_assoc l bs (b ∷ cs))

module _ {E I : Type 0} where
  abbrev pub post : World E I → Ping E I × List (Posted E) → World E I
  post w (p, posted) = record w { ping = p; queue = w.queue ++ posted }

  abbrev pub fire : Bool → World E I → World E I
  fire false w = w
  fire true w = post (record w { waits = false }) (timeout w.ping)

  abbrev pub call_first : World E I → World E I
  call_first w = record w { queue = rest w.queue; called = w.called ++ first w.queue }

  unfoldable pub step : World E I → Event → World E I
  unfolding income_message timeout
  step w pong = post w (income_message w.ping)
  step w timer_handler = fire w.waits w
  step w runs = call_first w

  unfoldable pub run : World E I → List Event → World E I
  unfolding step
  run w [] = w
  run w (ev ∷ evs) = run (step w ev) evs

  -- What was called and what is going to be.
  abbrev pub handled : World E I → List (Posted E)
  handled w = w.called ++ w.queue

-- How many pongs arrive, and whether the timer's handler runs before the first of them.
abbrev pub pongs : List Event → ℕ
pongs [] = 0
pongs (pong ∷ evs) = suc (pongs evs)
pongs (timer_handler ∷ evs) = pongs evs
pongs (runs ∷ evs) = pongs evs

abbrev pub timer_first : List Event → ℕ
timer_first [] = 0
timer_first (pong ∷ evs) = 0
timer_first (timer_handler ∷ evs) = 1
timer_first (runs ∷ evs) = timer_first evs

abbrev pub times : {A : Type 0} → ℕ → A → List A
times zero a = []
times (suc n) a = a ∷ times n a

module _ {E : Type 0} where
  -- What is posted from a world on.
  later : E → Bool → Bool → List Event → List (Posted E)
  later ep waits arrived [] = []
  later ep waits arrived (pong ∷ evs) = pong_handler ep ∷ later ep waits true evs
  later ep waits arrived (runs ∷ evs) = later ep waits arrived evs
  later ep true false (timer_handler ∷ evs) = timeout_handler ep ∷ later ep false false evs
  later ep true true (timer_handler ∷ evs) = later ep false true evs
  later ep false arrived (timer_handler ∷ evs) = later ep false arrived evs

  later-arrived :
      (ep : E) (waits : Bool) (evs : List Event)
      → later ep waits true evs ≡ times (pongs evs) (pong_handler ep)
  unfolding later
  later-arrived ep waits [] = refl
  later-arrived ep waits (pong ∷ evs) = ap (λ hs. pong_handler ep ∷ hs) (later-arrived ep waits evs)
  later-arrived ep waits (runs ∷ evs) = later-arrived ep waits evs
  later-arrived ep true (timer_handler ∷ evs) = later-arrived ep false evs
  later-arrived ep false (timer_handler ∷ evs) = later-arrived ep false evs

  later-fired :
      (ep : E) (arrived : Bool) (evs : List Event)
      → later ep false arrived evs ≡ times (pongs evs) (pong_handler ep)
  unfolding later
  later-fired ep arrived [] = refl
  later-fired ep arrived (pong ∷ evs) = ap (λ hs. pong_handler ep ∷ hs) (later-fired ep true evs)
  later-fired ep arrived (runs ∷ evs) = later-fired ep arrived evs
  later-fired ep true (timer_handler ∷ evs) = later-fired ep true evs
  later-fired ep false (timer_handler ∷ evs) = later-fired ep false evs

  later-new :
      (ep : E) (evs : List Event)
      → later ep true false evs
        ≡ times (timer_first evs) (timeout_handler ep) ++ times (pongs evs) (pong_handler ep)
  unfolding later
  later-new ep [] = refl
  later-new ep (pong ∷ evs) = ap (λ hs. pong_handler ep ∷ hs) (later-arrived ep true evs)
  later-new ep (runs ∷ evs) = later-new ep evs
  later-new ep (timer_handler ∷ evs) = ap (λ hs. timeout_handler ep ∷ hs) (later-fired ep false evs)

module _ {E I : Type 0} where
  -- What a turn of the timer's handler posts, and what is posted after it.
  fire-later :
      (waits arrived : Bool) (w : World E I) (evs : List Event)
      → w.ping.is_pong_arrived ≡ arrived
      → w.waits ≡ waits
      → let v : World E I = fire waits w in
        handled v ++ later v.ping.dest_ep v.waits v.ping.is_pong_arrived evs
        ≡ handled w ++ later w.ping.dest_ep waits arrived (timer_handler ∷ evs)
  unfolding later timeout
  fire-later false true w evs a e = rw (a, e) refl
  fire-later false false w evs a e = rw (a, e) refl
  fire-later true true w evs a e = rw (a, append-nil w.queue) refl
  fire-later true false w evs a e = rw a (append-append-one w.called w.queue _ _)

  run-later :
      (evs : List Event) (w : World E I)
      → handled (run w evs) ≡ handled w ++ later w.ping.dest_ep w.waits w.ping.is_pong_arrived evs
  unfolding run step later income_message
  run-later [] w = sym (append-nil (handled w))
  run-later (pong ∷ evs) w =
      run-later evs (step w pong)
      ∙ append-append-one w.called w.queue (pong_handler w.ping.dest_ep) _
  run-later (runs ∷ evs) w =
      run-later evs (step w runs)
      ∙ ap (λ hs. hs ++ later w.ping.dest_ep w.waits w.ping.is_pong_arrived evs)
          (append-first-rest w.called w.queue)
  run-later (timer_handler ∷ evs) w =
      run-later evs (step w timer_handler)
      ∙ fire-later w.waits w.ping.is_pong_arrived w evs refl refl

  abbrev pub new_world : I → E → ℕ → World E I
  new_world id ep now = record { ping = init id ep now; waits = true; queue = []; called = [] }

  -- From a new ping on, whatever pongs, timer events and turns of the event loop come, the handlers that
  -- are called or queued, in this order, are the timeout handler once if the timer's handler ran before the
  -- first pong, and not at all if it did not, and then the pong handler once for every pong, each for the
  -- endpoint that was pinged.
  pub run-handled :
      (evs : List Event) (id : I) (ep : E) (now : ℕ)
      → handled (run (new_world id ep now) evs)
        ≡ times (timer_first evs) (timeout_handler ep) ++ times (pongs evs) (pong_handler ep)
  unfolding init
  run-handled evs id ep now = run-later evs (new_world id ep now) ∙ later-new ep evs
