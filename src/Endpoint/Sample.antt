-- ===== src/Endpoint/Sample.antt =====
-- Endpoints for the tests: an address is a number that is written as one character above 58, and an
-- endpoint
-- is the number made of its address and its port.
use mathlib.Core.List.{eq-or-mem_of_mem-cons, not-mem-nil}
use mathlib.Core.Logic.Or
use mathlib.Core.HLevel.{⊥_prop}
use ss_p2p_node_controller.Common.{
  ℕ, ◌-◌, ltb, if◌then◌else◌, ◌+◌, ◌*◌, ◌/◌, ◌%◌, ◌≡◌, ◌∙◌, sym, [], ◌∷◌, Option, none, some, arith,
}
use ss_p2p_node_controller.Json.{Text}
use ss_p2p_node_controller.Endpoint.{Net, NetLaws, colon}
use ss_p2p_node_controller.Endpoint.RoundTrip.{Lacks}

abbrev pub read_address : Text → Option ℕ
read_address (c ∷ []) = if ltb c 59 then none else some (c - 59)
read_address t = none

abbrev pub net : Net ℕ ℕ
net = record {
  address = λ ep. ep / 65536;
  port = λ ep. ep % 65536;
  endpoint = λ a p. a * 65536 + p;
  to_string = λ a. (a + 59) ∷ [];
  from_string = read_address;
}

read_address_lem : (a : ℕ) → read_address ((a + 59) ∷ []) ≡ some a
read_address_lem a = ground arith

pub net-NetLaws : NetLaws net
net-NetLaws = record {
  endpoint-eta = λ ep. omega arith;
  port-lt = λ ep. omega arith;
  length-to_string = λ a. omega arith;
  from_string-to_string = read_address_lem;
}

-- No address is written with a colon.
pub plain : (ep : ℕ) → Lacks colon (net.to_string (net.address ep))
plain ep d here is_colon =
    Or.elim ⊥_prop (eq-or-mem_of_mem-cons here)
      (λ d_eq. let e : ep / 65536 + 59 ≡ 58 = sym d_eq ∙ is_colon in omega (arith, e)) not-mem-nil
