-- ===== src/UdpServer/Laws.antt =====
-- What arrives at the handler of src/ss_p2p/udp_server.cpp, over any interleaving of datagrams, the event
-- loop and stop.
use mathlib.Core.List.{append-nil, append_assoc, map-append}
use ss_p2p_node_controller.Common.{
  ℕ, zero, suc, ◌≤◌, ◌≡◌, refl, ap, ◌∙◌, List, [], ◌∷◌, ◌++◌, map, length, length-take, take, arith,
}
use ss_p2p_node_controller.UdpServer.{
  UdpServer, Task, received, failed, recv_handler, recv_buff_size, overwrite, arrive, stop, perform,
  run_task, call_receiver, call_income_message_handler,
}

abbrev pub handlers : List (List ℕ) → List Task
handlers = map recv_handler

-- A server with what the socket gave it and what its handler got, oldest first.
pub record World (E : Type 0) : Type 0 where
  pub server : UdpServer E
  pub arrived : List (List ℕ × E)
  pub handled : List (List ℕ × E)

pub data Event (E : Type 0) : Type 0 where
  arrives : List ℕ → E → Event E
  runs : Event E
  stops : Event E

module _ {E : Type 0} where
  abbrev pub arrival : ℕ → List ℕ → E → List (List ℕ × E)
  arrival zero bytes ep = []
  arrival (suc n) bytes ep = (take recv_buff_size bytes, ep) ∷ []

  -- A datagram that meets no pending receive does not arrive yet.
  unfoldable pub step : Event E → World E → World E
  unfolding arrive stop run_task
  step (arrives bytes ep) w = record {
    server = arrive bytes ep w.server;
    arrived = w.arrived ++ arrival w.server.receiving bytes ep;
    handled = w.handled;
  }
  step runs w =
      let (s, out) = run_task w.server in
      record { server = s; arrived = w.arrived; handled = w.handled ++ out }
  step stops w = record w { server = stop w.server }

  unfoldable pub run : List (Event E) → World E → World E
  unfolding step
  run [] w = w
  run (e ∷ es) w = run es (step e w)

  abbrev pub messages : List (List ℕ × E) → List (List ℕ)
  messages = map (λ p. p.0)

  -- What the server is in the middle of. At most one receive or its outcome is under way.
  pub data Phase (w : World E) : Type 0 where
    listening :
        (rs : List (List ℕ))
        → w.server.receiving ≡ 1
        → w.server.tasks ≡ handlers rs
        → messages w.arrived ≡ messages w.handled ++ rs
        → Phase w
    completing :
        (rs : List (List ℕ)) (n : ℕ)
        → w.server.receiving ≡ 0
        → w.server.tasks ≡ handlers rs ++ received n ∷ []
        → messages w.arrived ≡ messages w.handled ++ (rs ++ take n w.server.recv_buff ∷ [])
        → Phase w
    failing :
        (rs : List (List ℕ))
        → w.server.receiving ≡ 0
        → w.server.tasks ≡ handlers rs ++ failed ∷ []
        → messages w.arrived ≡ messages w.handled ++ rs
        → Phase w

  pub record IsValid (w : World E) : Type 0 where
    pub size : length w.server.recv_buff ≡ recv_buff_size
    pub phase : Phase w

length-overwrite : (bytes old : List ℕ) → length (overwrite bytes old) ≡ length old
length-overwrite bytes [] = refl
length-overwrite [] (c ∷ old) = refl
length-overwrite (b ∷ bytes) (c ∷ old) = ap suc (length-overwrite bytes old)

pub take-overwrite :
    (bytes old : List ℕ)
    → length bytes ≤ length old
    → take (length bytes) (overwrite bytes old) ≡ bytes
take-overwrite [] [] h = refl
take-overwrite (b ∷ bytes) [] h = absurd (omega arith)
take-overwrite [] (c ∷ old) h = refl
take-overwrite (b ∷ bytes) (c ∷ old) h = ap (◌∷◌ b) (take-overwrite bytes old (omega arith))

module _ {E : Type 0} where
  record_arrival :
      (got : List (List ℕ × E)) (hs rs : List (List ℕ)) (raw : List ℕ) (ep : E)
      → messages got ≡ hs ++ rs
      → messages (got ++ (raw, ep) ∷ []) ≡ hs ++ (rs ++ raw ∷ [])
  record_arrival got hs rs raw ep same =
      map-append (λ (p : List ℕ × E). p.0) got ((raw, ep) ∷ [])
      ∙ ap (λ l. l ++ raw ∷ []) same
      ∙ append_assoc hs rs (raw ∷ [])

  pub arrives-IsValid :
      (bytes : List ℕ) (ep : E) (w : World E) → IsValid w → IsValid (step (arrives bytes ep) w)
  unfolding step arrive
  arrives-IsValid bytes ep w v = go v.phase
    where
      raw : List ℕ
      raw = take recv_buff_size bytes

      fits : length raw ≤ length w.server.recv_buff
      fits = omega (arith, length-take recv_buff_size bytes, v.size)

      go : Phase w → IsValid (step (arrives bytes ep) w)
      go (listening rs on queue same) = rw on record {
        size = length-overwrite raw w.server.recv_buff ∙ v.size;
        phase =
            completing rs (length raw) refl (ap (λ ts. ts ++ received (length raw) ∷ []) queue) (
              rw (take-overwrite raw w.server.recv_buff fits)
                (record_arrival w.arrived (messages w.handled) rs raw ep same));
      }
      go (completing rs n off queue same) =
          rw (off, append-nil) record { size = v.size; phase = completing rs n refl queue same }
      go (failing rs off queue same) =
          rw (off, append-nil) record { size = v.size; phase = failing rs refl queue same }

  record_handling :
      (got done : List (List ℕ × E)) (raw : List ℕ) (ep : E) (rest : List (List ℕ))
      → messages got ≡ messages done ++ (raw ∷ rest)
      → messages got ≡ messages (done ++ (raw, ep) ∷ []) ++ rest
  record_handling got done raw ep rest same = rw (map-append, append_assoc) same

  pub stops-IsValid : (w : World E) → IsValid w → IsValid (step stops w)
  unfolding step stop
  stops-IsValid w v = go v.phase
    where
      go : Phase w → IsValid (step stops w)
      go (listening rs on queue same) = rw on record {
        size = v.size;
        phase = failing rs refl (ap (λ ts. ts ++ failed ∷ []) queue) same;
      }
      go (completing rs n off queue same) =
          rw (off, append-nil) record { size = v.size; phase = completing rs n refl queue same }
      go (failing rs off queue same) =
          rw (off, append-nil) record { size = v.size; phase = failing rs refl queue same }

  pub runs-IsValid : (w : World E) → IsValid w → IsValid (step runs w)
  unfolding step run_task perform call_income_message_handler call_receiver
  runs-IsValid w v = go v.phase
    where
      go : Phase w → IsValid (step runs w)
      go (listening [] on queue same) =
          rw queue (rw append-nil record { size = v.size; phase = listening [] on refl same })
      go (listening (r ∷ rs) on queue same) = rw queue record {
        size = v.size;
        phase =
            listening rs on refl (record_handling w.arrived w.handled r w.server.src_ep rs same);
      }
      go (completing [] n off queue same) = rw queue (
          rw (off, append-nil)
            record {
              size = v.size;
              phase = listening (take n w.server.recv_buff ∷ []) refl refl same;
            })
      go (completing (r ∷ rs) n off queue same) = rw queue record {
        size = v.size;
        phase =
            completing rs n off refl (record_handling w.arrived w.handled r w.server.src_ep _ same);
      }
      go (failing [] off queue same) =
          rw queue
            (rw (off, append-nil) record { size = v.size; phase = listening [] refl refl same })
      go (failing (r ∷ rs) off queue same) = rw queue record {
        size = v.size;
        phase = failing rs off refl (record_handling w.arrived w.handled r w.server.src_ep rs same);
      }

  pub run-IsValid : (es : List (Event E)) (w : World E) → IsValid w → IsValid (run es w)
  unfolding run
  run-IsValid [] w v = v
  run-IsValid (arrives bytes ep ∷ es) w v = run-IsValid es _ (arrives-IsValid bytes ep w v)
  run-IsValid (runs ∷ es) w v = run-IsValid es _ (runs-IsValid w v)
  run-IsValid (stops ∷ es) w v = run-IsValid es _ (stops-IsValid w v)
