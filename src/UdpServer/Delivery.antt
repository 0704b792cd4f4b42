-- ===== src/UdpServer/Delivery.antt =====
-- That src/ss_p2p/udp_server.cpp loses no message, and which endpoint it hands over with a message.
use mathlib.Core.List.{append-nil}
use ss_p2p_node_controller.Common.{
  ℕ, zero, suc, ◌+◌, ◌-◌, ◌≤◌, ◌≡◌, refl, sym, ap, ◌∙◌, true, List, [], ◌∷◌, ◌++◌, length,
  length-append, take, arith,
}
use ss_p2p_node_controller.UdpServer.{
  UdpServer, Task, received, failed, recv_handler, recv_buff_size, start, arrive, perform, run_task,
  call_receiver, call_income_message_handler, stop,
}
use ss_p2p_node_controller.UdpServer.Laws.{
  World, Event, arrives, runs, stops, step, run, messages, handlers, Phase, listening, completing,
  failing, IsValid, runs-IsValid, run-IsValid,
}

-- How many calls of the event loop a queue of tasks takes.
abbrev pub weight : List Task → ℕ
weight [] = 0
weight (received n ∷ ts) = suc (suc (weight ts))
weight (failed ∷ ts) = suc (weight ts)
weight (recv_handler raw ∷ ts) = suc (weight ts)

weight-append : (ts us : List Task) → weight (ts ++ us) ≡ weight ts + weight us
weight-append [] us = omega arith
weight-append (received n ∷ ts) us = omega (arith, weight-append ts us)
weight-append (failed ∷ ts) us = omega (arith, weight-append ts us)
weight-append (recv_handler raw ∷ ts) us = omega (arith, weight-append ts us)

weight-handlers : (rs : List (List ℕ)) → weight (handlers rs) ≡ length (handlers rs)
weight-handlers [] = refl
weight-handlers (r ∷ rs) = ap suc (weight-handlers rs)

module _ {E : Type 0} where
  abbrev pub times : ℕ → List (Event E)
  times zero = []
  times (suc n) = runs ∷ times n

  weight-le : (w : World E) → Phase w → weight w.server.tasks ≤ suc (length w.server.tasks)
  weight-le w (listening rs on queue same) = rw queue (omega (arith, weight-handlers rs))
  weight-le w (completing rs n off queue same) = rw queue (
      omega (
        arith,
        weight-handlers rs,
        weight-append (handlers rs) (received n ∷ []),
        length-append (handlers rs) (received n ∷ []),
      ))
  weight-le w (failing rs off queue same) = rw queue (
      omega (
        arith,
        weight-handlers rs,
        weight-append (handlers rs) (failed ∷ []),
        length-append (handlers rs) (failed ∷ []),
      ))

  weight-runs : (w : World E) → weight (step runs w).server.tasks ≡ weight w.server.tasks - 1
  unfolding step run_task perform call_receiver call_income_message_handler
  weight-runs w = go w.server.tasks refl
    where
      go :
          (ts : List Task)
          → w.server.tasks ≡ ts
          → weight (step runs w).server.tasks ≡ weight w.server.tasks - 1
      go [] e = rw e refl
      go (received n ∷ ts) e =
          rw e (omega (arith, weight-append ts (recv_handler (take n w.server.recv_buff) ∷ [])))
      go (failed ∷ ts) e = rw e (omega arith)
      go (recv_handler raw ∷ ts) e = rw e (omega arith)

  -- Nothing is left to do: a receive is pending, and the handler got everything that arrived.
  abbrev pub IsDrained : World E → Type 0
  IsDrained w =
      (w.server.receiving ≡ 1) × (w.server.tasks ≡ []) × (messages w.handled ≡ messages w.arrived)

  weightless : (w : World E) → Phase w → weight w.server.tasks ≤ 0 → IsDrained w
  weightless w (listening [] on queue same) h = (on, queue, sym (same ∙ append-nil _))
  weightless w (listening (r ∷ rs) on queue same) h = absurd (omega (arith, rw queue at h))
  weightless w (completing rs n off queue same) h =
      absurd (omega (arith, weight-append (handlers rs) (received n ∷ []), rw queue at h))
  weightless w (failing rs off queue same) h =
      absurd (omega (arith, weight-append (handlers rs) (failed ∷ []), rw queue at h))

  drain :
      (n : ℕ) (w : World E)
      → IsValid w
      → weight w.server.tasks ≤ n
      → IsDrained (run (times n) w) × ((run (times n) w).arrived ≡ w.arrived)
  unfolding run
  drain zero w v h = (weightless w v.phase h, refl)
  drain (suc n) w v h =
      let (done, same) =
        drain n (step runs w) (runs-IsValid w v) (omega (arith, weight-runs w, h)) in
      (done, unfold step in same)

  -- The endpoint of the newest datagram.
  abbrev pub last_ep : E → List (List ℕ × E) → E
  last_ep ep [] = ep
  last_ep ep ((raw, ep') ∷ got) = last_ep ep' got

  last_ep-append :
      (ep ep' : E) (raw : List ℕ) (got : List (List ℕ × E))
      → last_ep ep (got ++ (raw, ep') ∷ []) ≡ ep'
  last_ep-append ep ep' raw [] = refl
  last_ep-append ep ep' raw ((_, ep₁) ∷ got) = last_ep-append ep₁ ep' raw got

  -- The world of a server that is started.
  abbrev pub started : UdpServer E → World E
  started s = record { server = (start s).0; arrived = []; handled = [] }

  started-IsValid :
      (s : UdpServer E)
      → s.is_open ≡ true
      → s.receiving ≡ 0
      → s.tasks ≡ []
      → length s.recv_buff ≡ recv_buff_size
      → IsValid (started s)
  unfolding start call_receiver
  started-IsValid s open_ off none_yet size =
      rw (open_, off) record { size = size; phase = listening [] refl none_yet refl }

  handed_over :
      (w : World E)
      → Phase w
      → (rest : List (List ℕ)) × (messages w.arrived ≡ messages w.handled ++ rest)
  handed_over w (listening rs on queue same) = (rs, same)
  handed_over w (completing rs n off queue same) = (_, same)
  handed_over w (failing rs off queue same) = (rs, same)

  -- Let the socket be open, and the server be started with nothing under way. Whatever datagrams arrive,
  -- however the event loop's calls lie between them, and also after stop: the handler has got a part of
  -- the messages that arrived, from the first on, in order and with their bytes. One more call of the event
  -- loop than there are tasks then hands over all the rest, and leaves the server waiting for the next
  -- datagram.
  pub run-delivers :
      (es : List (Event E)) (s : UdpServer E)
      → s.is_open ≡ true
      → s.receiving ≡ 0
      → s.tasks ≡ []
      → length s.recv_buff ≡ recv_buff_size
      → let w = run es (started s) in
        let w' = run (times (suc (length w.server.tasks))) w in
        ((rest : List (List ℕ)) × (messages w.arrived ≡ messages w.handled ++ rest))
        × (messages w'.handled ≡ messages w.arrived)
        × (w'.server.tasks ≡ [])
        × (w'.server.receiving ≡ 1)
  run-delivers es s open_ off none_yet size =
      let w = run es (started s) in
      let v = run-IsValid es (started s) (started-IsValid s open_ off none_yet size) in
      let ((on, queue, all), same) =
        drain (suc (length w.server.tasks)) w v (weight-le w v.phase) in
      (handed_over w v.phase, all ∙ ap messages same, queue, on)

  abbrev pub NewestEp : E → World E → Type 0
  NewestEp ep w = w.server.src_ep ≡ last_ep ep w.arrived

  step-NewestEp : (ep : E) (e : Event E) (w : World E) → NewestEp ep w → NewestEp ep (step e w)
  unfolding step arrive run_task perform call_receiver call_income_message_handler stop
  step-NewestEp ep (arrives bytes ep') w newest = go w.server.receiving refl
    where
      go : (n : ℕ) → w.server.receiving ≡ n → NewestEp ep (step (arrives bytes ep') w)
      go zero e = rw (e, append-nil) newest
      go (suc n) e = rw e (sym (last_ep-append ep ep' _ w.arrived))
  step-NewestEp ep runs w newest = go w.server.tasks refl
    where
      go : (ts : List Task) → w.server.tasks ≡ ts → NewestEp ep (step runs w)
      go [] e = rw e newest
      go (received n ∷ ts) e = rw e newest
      go (failed ∷ ts) e = rw e newest
      go (recv_handler raw ∷ ts) e = rw e newest
  step-NewestEp ep stops w newest = newest

  start-NewestEp : (s : UdpServer E) → s.is_open ≡ true → NewestEp s.src_ep (started s)
  unfolding start call_receiver
  start-NewestEp s open_ = rw open_ refl

  run-NewestEp :
      (ep : E) (es : List (Event E)) (w : World E) → NewestEp ep w → NewestEp ep (run es w)
  unfolding run
  run-NewestEp ep [] w newest = newest
  run-NewestEp ep (e ∷ es) w newest = run-NewestEp ep es (step e w) (step-NewestEp ep e w newest)

  next_message :
      (w : World E) (raw : List ℕ) (ts : List Task)
      → Phase w
      → w.server.tasks ≡ recv_handler raw ∷ ts
      → (later : List (List ℕ)) × (messages w.arrived ≡ messages w.handled ++ (raw ∷ later))
  next_message w raw ts (listening [] on queue same) first = absurd cc
  next_message w raw ts (listening (r ∷ rs) on queue same) first =
      let e : r ≡ raw = cc in (rs, same ∙ ap (λ m. messages w.handled ++ (m ∷ rs)) e)
  next_message w raw ts (completing [] n off queue same) first = absurd cc
  next_message w raw ts (completing (r ∷ rs) n off queue same) first =
      let e : r ≡ raw = cc in
      (
        rs ++ take n w.server.recv_buff ∷ [],
        same ∙ ap (λ m. messages w.handled ++ (m ∷ (rs ++ take n w.server.recv_buff ∷ []))) e,
      )
  next_message w raw ts (failing [] off queue same) first = absurd cc
  next_message w raw ts (failing (r ∷ rs) off queue same) first =
      let e : r ≡ raw = cc in (rs, same ∙ ap (λ m. messages w.handled ++ (m ∷ rs)) e)

  -- On such a server, in any such interleaving: when the event loop calls the handler, it hands over the
  -- oldest message that was not handed over yet, with the endpoint of the newest datagram that arrived.
  -- So the endpoint is that of the message's own datagram when no later one arrived, and may be another's
  -- otherwise.
  pub run-newest_ep :
      (es : List (Event E)) (s : UdpServer E) (raw : List ℕ) (ts : List Task)
      → s.is_open ≡ true
      → s.receiving ≡ 0
      → s.tasks ≡ []
      → length s.recv_buff ≡ recv_buff_size
      → let w = run es (started s) in
        w.server.tasks ≡ recv_handler raw ∷ ts
        → (later : List (List ℕ)) × (messages w.arrived ≡ messages w.handled ++ (raw ∷ later))
          × ((step runs w).handled ≡ w.handled ++ (raw, last_ep s.src_ep w.arrived) ∷ [])
  unfolding step run_task perform
  run-newest_ep es s raw ts open_ off none_yet size first =
      let w = run es (started s) in
      let v = run-IsValid es (started s) (started-IsValid s open_ off none_yet size) in
      let (later, same) = next_message w raw ts v.phase first in
      let newest = run-NewestEp s.src_ep es (started s) (start-NewestEp s open_) in
      (later, same, rw (first, newest) refl)
