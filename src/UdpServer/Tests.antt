-- ===== src/UdpServer/Tests.antt =====
-- The theorems on udp_server where a second datagram arrives before the first is handed over.
use ss_p2p_node_controller.Common.{
  ℕ, zero, suc, true, ◌≡◌, refl, ap, List, [], ◌∷◌, ◌++◌, length, take, arith,
}
use ss_p2p_node_controller.UdpServer.{
  UdpServer, received, recv_handler, recv_buff_size, overwrite, start, call_receiver, arrive,
  run_task, perform, call_income_message_handler,
}
use ss_p2p_node_controller.UdpServer.Laws.{
  Event, arrives, runs, stops, step, run, messages, take-overwrite,
}
use ss_p2p_node_controller.UdpServer.Delivery.{started, times, last_ep, run-delivers, run-newest_ep}

unfoldable replicate : ℕ → List ℕ
replicate zero = []
replicate (suc n) = 0 ∷ replicate n

length-replicate : (n : ℕ) → length (replicate n) ≡ n
unfolding replicate
length-replicate zero = refl
length-replicate (suc n) = ap suc (length-replicate n)

abbrev blank_buff : List ℕ
blank_buff = replicate recv_buff_size

abbrev server : UdpServer ℕ
server = record { is_open = true; recv_buff = blank_buff; src_ep = 0; receiving = 0; tasks = [] }

-- Message 1, 2 from endpoint 7, then message 3 from endpoint 9.
abbrev overtaken : List (Event ℕ)
overtaken = arrives (1 ∷ 2 ∷ []) 7 ∷ runs ∷ arrives (3 ∷ []) 9 ∷ []

first_read : take 2 (overwrite (1 ∷ 2 ∷ []) blank_buff) ≡ 1 ∷ 2 ∷ []
first_read = take-overwrite (1 ∷ 2 ∷ []) blank_buff (omega (arith, length-replicate recv_buff_size))

overtaken_tasks :
    (run overtaken (started server)).server.tasks ≡ recv_handler (1 ∷ 2 ∷ []) ∷ received 1 ∷ []
unfolding run step start arrive call_receiver run_task perform call_income_message_handler
overtaken_tasks = rw first_read refl

run-delivers_example :
    let w = run (overtaken ++ stops ∷ []) (started server) in
    let w' = run (times (suc (length w.server.tasks))) w in
    ((rest : List (List ℕ)) × (messages w.arrived ≡ messages w.handled ++ rest))
    × (messages w'.handled ≡ messages w.arrived)
    × (w'.server.tasks ≡ [])
    × (w'.server.receiving ≡ 1)
run-delivers_example =
    run-delivers (overtaken ++ stops ∷ []) server refl refl refl (length-replicate recv_buff_size)

run-newest_ep_example :
    let w = run overtaken (started server) in
    (later : List (List ℕ)) × (messages w.arrived ≡ messages w.handled ++ ((1 ∷ 2 ∷ []) ∷ later))
    × ((step runs w).handled ≡ w.handled ++ (1 ∷ 2 ∷ [], last_ep 0 w.arrived) ∷ [])
run-newest_ep_example =
    run-newest_ep overtaken server (1 ∷ 2 ∷ []) (received 1 ∷ []) refl refl refl
      (length-replicate recv_buff_size) overtaken_tasks

-- So the message from endpoint 7 is handed over with endpoint 9.
overtaken_ep : last_ep 0 (run overtaken (started server)).arrived ≡ 9
unfolding run step start arrive call_receiver run_task perform call_income_message_handler
overtaken_ep = refl
