-- ===== src/MessagePool/Buffer.antt =====
-- peer_message_buffer of src/ss_p2p/message_pool.cpp: the messages of one peer, oldest first.
pub mod Order
pub mod Queue
use ss_p2p_node_controller.Common.{
  ℕ, zero, suc, ◌+◌, ◌-◌, ◌*◌, ◌%◌, ◌^◌, Bool, true, false, if◌then◌else◌, ltb, leb, ◌==◌, ite,
  List, [], ◌∷◌, ◌++◌, length, Option, none, some,
}

-- `received_message`.
pub record Received (I M : Type 0) : Type 0 where
  pub id : I
  pub msg : M
  pub time : ℕ

pub record MessageBuffer (E I M : Type 0) : Type 0 where
  pub msg_queue : List (Received I M)
  pub binding_ep : E
  pub dynamic_mem_usage_bytes : ℕ
  pub last_binded_at : ℕ
  pub last_received_at : ℕ

pub data PopFlag : Type 0 where
  dequeue peek : PopFlag

-- `fault` stands for undefined behaviour: the program's state is lost.
pub data Outcome (A : Type 0) : Type 0 where
  done : A → Outcome A
  fault : Outcome A

-- std::size_t is a number of 64 bits here.
abbrev pub size_mod : ℕ
size_mod = 2 ^ 64

-- `_dynamic_mem_usage_bytes -= 1`.
unfoldable pub one_less : ℕ → ℕ
one_less usage = (usage + size_mod - 1) % size_mod

-- DEFAULT_MESSAGE_LIFETIME_M * 60 seconds.
abbrev pub message_lifetime : ℕ
message_lifetime = 20 * 60

module _ {I M : Type 0} where
  -- `at(idx)` and the queue after `erase( begin() + idx )`.
  unfoldable pub elem_at : ℕ → List (Received I M) → Option (Received I M)
  elem_at i [] = none
  elem_at zero (m ∷ ms) = some m
  elem_at (suc i) (m ∷ ms) = elem_at i ms

  unfoldable pub erase_at : ℕ → List (Received I M) → List (Received I M)
  erase_at i [] = []
  erase_at zero (m ∷ ms) = ms
  erase_at (suc i) (m ∷ ms) = m ∷ erase_at i ms

  -- `std::upper_bound` with `compare_received_at`: what is left of the queue from the first message
  -- after `base` on. The search needs the queue in the order of time, which `Order` shows.
  unfoldable pub upper_bound : ℕ → List (Received I M) → List (Received I M)
  upper_bound base [] = []
  upper_bound base (m ∷ ms) = if ltb base m.time then m ∷ ms else upper_bound base ms

  abbrev pub first : List (Received I M) → Option (Received I M)
  first [] = none
  first (m ∷ ms) = some m

  -- What refresh_tick does to a buffer: everything before `upper_bound( now - lifetime )` is erased.
  -- `now - lifetime < time` on signed times is `now < time + lifetime`.
  unfoldable pub upper_bound_age : ℕ → List (Received I M) → List (Received I M)
  upper_bound_age now [] = []
  upper_bound_age now (m ∷ ms) =
      if ltb now (m.time + message_lifetime) then m ∷ ms else upper_bound_age now ms

  -- The loop of `pop_by_id` goes on after a hit, so the last message with the id is the result:
  -- the messages before it, the message, and those after it.
  unfoldable pub find_last :
      Discrete I
      → I
      → List (Received I M)
      → Option (List (Received I M) × Received I M × List (Received I M))
  find_last eq_uuid id [] = none
  find_last eq_uuid id (m ∷ ms) = elim (find_last eq_uuid id ms) [
    | some (b, hit, a) ↦ some (m ∷ b, hit, a)
    | none ↦ ite (eq_uuid m.id id) (some ([], m, ms)) none
  ]

module _ {E I M : Type 0} where
  -- The constructor from an endpoint sets every field but the usage, which starts with the value
  -- that the memory held.
  unfoldable pub new_buffer : ℕ → E → MessageBuffer E I M
  new_buffer leftover ep = record {
    msg_queue = [];
    binding_ep = ep;
    dynamic_mem_usage_bytes = leftover;
    last_binded_at = 0;
    last_received_at = 0;
  }

  -- The copy constructor.
  unfoldable pub copy_buffer : MessageBuffer E I M → MessageBuffer E I M
  copy_buffer from = record {
    msg_queue = from.msg_queue;
    binding_ep = from.binding_ep;
    dynamic_mem_usage_bytes = from.dynamic_mem_usage_bytes;
    last_binded_at = from.last_binded_at;
    last_received_at = from.last_received_at;
  }

  -- `now` is the reading of the clock in the constructor of the message, `later` the one after it.
  unfoldable pub push : I → ℕ → ℕ → M → MessageBuffer E I M → MessageBuffer E I M
  push id now later msg b = record b {
    msg_queue = b.msg_queue ++ record { id = id; msg = msg; time = now } ∷ [];
    dynamic_mem_usage_bytes = (b.dynamic_mem_usage_bytes + 1) % size_mod;
    last_received_at = later;
  }

  unfoldable pub pop_flagged :
      ℕ → PopFlag → MessageBuffer E I M → MessageBuffer E I M × Option (Received I M)
  unfolding elem_at erase_at one_less
  pop_flagged idx dequeue b = (
    record b {
      msg_queue = erase_at idx b.msg_queue;
      dynamic_mem_usage_bytes = one_less b.dynamic_mem_usage_bytes;
    },
    elem_at idx b.msg_queue,
  )
  pop_flagged idx peek b = (b, elem_at idx b.msg_queue)

  -- The test for the empty queue is the case of length 0 of the test on the index.
  unfoldable pub pop :
      ℕ → PopFlag → MessageBuffer E I M → MessageBuffer E I M × Option (Received I M)
  unfolding pop_flagged
  pop idx flag b =
      if leb (length b.msg_queue) 0
      then (b, none)
      else if leb (length b.msg_queue) idx
      then (b, none)
      else pop_flagged idx flag b

  -- The flag is not read: the message stays in the queue.
  unfoldable pub pop_since : ℕ → PopFlag → MessageBuffer E I M → Option (Received I M)
  unfolding upper_bound
  pop_since since flag b =
      first (upper_bound (if since == 0 then b.last_binded_at else since) b.msg_queue)

  unfoldable pub clear : MessageBuffer E I M → MessageBuffer E I M
  clear b = record b { msg_queue = [] }

  unfoldable pub update_last_binded_at : ℕ → MessageBuffer E I M → MessageBuffer E I M
  update_last_binded_at now b = record b { last_binded_at = now }

  unfoldable pub drop_expired : ℕ → MessageBuffer E I M → MessageBuffer E I M
  unfolding upper_bound_age
  drop_expired now b = record b { msg_queue = upper_bound_age now b.msg_queue }

-- The rest of `pop_by_id`, once the loop is over.
unfoldable pub pop_found :
    {E I M : Type 0}
    → PopFlag
    → MessageBuffer E I M
    → Option (List (Received I M) × Received I M × List (Received I M))
    → Outcome (MessageBuffer E I M × Option (Received I M))
unfolding one_less
pop_found dequeue b none = fault
pop_found dequeue b (some (before, hit, after)) = done (
  record b {
    msg_queue = before ++ after;
    dynamic_mem_usage_bytes = one_less b.dynamic_mem_usage_bytes;
  },
  some hit,
)
pop_found peek b none = done (b, none)
pop_found peek b (some (before, hit, after)) = done (b, some hit)

module _ {E I M : Type 0} (eq_uuid : Discrete I) where
  -- Without a hit the iterator is the end of the queue, and erasing it is undefined.
  unfoldable pub pop_by_id :
      I → PopFlag → MessageBuffer E I M → Outcome (MessageBuffer E I M × Option (Received I M))
  pop_by_id id flag b =
      if leb (length b.msg_queue) 0
      then done (b, none)
      else pop_found flag b (find_last eq_uuid id b.msg_queue)
