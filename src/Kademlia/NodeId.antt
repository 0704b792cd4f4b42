-- ===== src/Kademlia/NodeId.antt =====
-- src/ss_p2p/kademlia/node_id.cpp and include/ss_p2p/kademlia/node_id.hpp: the 160-bit id of a
-- node and the length of the common prefix of two ids, which the code calls their xor distance.
-- An id is its list of bytes; `IsId` says that there are twenty of them and that each is below
-- 256, as the type std::array<std::uint8_t, 20> does in the source.
pub mod Bits
pub mod Distance
pub mod Metric
use ss_p2p_node_controller.Common.{
  ℕ, zero, suc, ◌+◌, ◌/◌, ◌%◌, ◌^◌, ◌<◌, ◌≡◌, ◌==◌, if◌then◌else◌, List, [], ◌∷◌, length, get_or,
  bit_xor, ℕ_discrete,
}

abbrev pub k_node_id_length : ℕ
k_node_id_length = 20

abbrev pub k_node_id_bits : ℕ
k_node_id_bits = 160

-- `node_id::_id`.
abbrev pub NodeId : Type 0
NodeId = List ℕ

abbrev pub AllBytes : List ℕ → Type 0
AllBytes [] = Unit {0}
AllBytes (b ∷ bs) = (b < 256) × AllBytes bs

abbrev pub IsId : NodeId → Type 0
IsId n = (length n ≡ k_node_id_length) × AllBytes n

-- `node_id::operator==`, the comparison of the two arrays.
unfoldable pub eq_id : Discrete NodeId
unfolding ℕ_discrete
eq_id = hlevel ℕ_discrete

pub NodeId_set : IsSet NodeId
NodeId_set = hlevel ℕ_discrete

zeros : ℕ → NodeId
zeros zero = []
zeros (suc n) = 0 ∷ zeros n

-- `node_id::none` and the default constructor: every byte is zero.
unfoldable pub none_id : NodeId
unfolding zeros
none_id = zeros k_node_id_length

-- `node_id::operator[]`; the callers stay below twenty.
abbrev pub at_byte : NodeId → ℕ → ℕ
at_byte n i = get_or n i 0

-- The first loop of `calc_node_xor_distance`, over the bytes from `i` on.
unfoldable pub xor_bytes : ℕ → ℕ → NodeId → NodeId → List ℕ
xor_bytes zero i a b = []
xor_bytes (suc rounds) i a b = bit_xor (at_byte a i) (at_byte b i) ∷ xor_bytes rounds (i + 1) a b

-- `(xorDistance[i/8] >> (i%8)) & 1`.
unfoldable pub bit_at : List ℕ → ℕ → ℕ
bit_at x i = at_byte x (i / 8) / 2 ^ (i % 8) % 2

-- The second loop: it counts the zero bits before the first bit that is one.
unfoldable pub count_prefix : ℕ → ℕ → List ℕ → ℕ → ℕ
count_prefix zero i x count = count
count_prefix (suc rounds) i x count =
    let rest = count_prefix rounds (i + 1) x (count + 1) in if bit_at x i == 1 then count else rest

unfoldable pub calc_node_xor_distance : NodeId → NodeId → ℕ
unfolding xor_bytes count_prefix bit_at
calc_node_xor_distance a b = count_prefix k_node_id_bits 0 (xor_bytes k_node_id_length 0 a b) 0
