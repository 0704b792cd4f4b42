-- ===== src/Kademlia/NodeId/Metric.antt =====
-- `calc_node_xor_distance` of src/ss_p2p/kademlia/node_id.cpp as a measure of closeness.
use ss_p2p_node_controller.Common.{
  ℕ, zero, suc, ◌+◌, ◌*◌, ◌/◌, ◌%◌, ◌≤◌, ◌<◌, ◌≡◌, ◌↔◌, ◌∙◌, sym, List, [], ◌∷◌, min, eq_of_get_or,
  arith,
}
use ss_p2p_node_controller.Kademlia.NodeId.Bits.{bit}
use ss_p2p_node_controller.Kademlia.NodeId.Distance.{
  SameBits, distance-le, SameBits-of_le-distance, le-distance_of_SameBits,
}
use ss_p2p_node_controller.Kademlia.NodeId.{
  NodeId, IsId, AllBytes, at_byte, bit_at, calc_node_xor_distance,
}

-- For n up to 160, calc_node_xor_distance is at least n exactly when the first n bits of the two
-- ids agree, bits taken from the low bit of byte 0 upwards.
pub le-distance_iff :
    (n : ℕ) (a b : NodeId) → n ≤ 160 → (n ≤ calc_node_xor_distance a b) ↔ SameBits n a b
le-distance_iff n a b h = (SameBits-of_le-distance n a b, le-distance_of_SameBits n a b h)

distance_mono :
    (a b c d : NodeId)
    → SameBits (calc_node_xor_distance a b) c d
    → calc_node_xor_distance a b ≤ calc_node_xor_distance c d
distance_mono a b c d same =
    le-distance_of_SameBits (calc_node_xor_distance a b) c d (distance-le a b) same

distance_le_comm : (a b : NodeId) → calc_node_xor_distance a b ≤ calc_node_xor_distance b a
distance_le_comm a b =
    distance_mono a b b a (λ i hi. sym (SameBits-of_le-distance _ a b (omega arith) i hi))

-- calc_node_xor_distance does not depend on the order of its two ids.
pub distance_comm : (a b : NodeId) → calc_node_xor_distance a b ≡ calc_node_xor_distance b a
distance_comm a b = omega (arith, distance_le_comm a b, distance_le_comm b a)

-- Two ids share at least as long a prefix as the shorter of the prefixes that they share with a
-- third id.
pub distance_ultrametric :
    (a b c : NodeId)
    → min (calc_node_xor_distance a b) (calc_node_xor_distance b c) ≤ calc_node_xor_distance a c
distance_ultrametric a b c =
    le-distance_of_SameBits (min (calc_node_xor_distance a b) (calc_node_xor_distance b c)) a c
      (omega (arith, distance-le a b))
      (λ i hi.
        SameBits-of_le-distance (calc_node_xor_distance a b) a b (omega arith) i (omega arith)
        ∙ SameBits-of_le-distance (calc_node_xor_distance b c) b c (omega arith) i (omega arith))

byte_eq : (x y : ℕ) → x < 256 → y < 256 → ((k : ℕ) → k < 8 → bit x k ≡ bit y k) → x ≡ y
byte_eq x y hx hy same = omega (
  arith,
  same 0 (omega arith),
  same 1 (omega arith),
  same 2 (omega arith),
  same 3 (omega arith),
  same 4 (omega arith),
  same 5 (omega arith),
  same 6 (omega arith),
  same 7 (omega arith),
)

at_byte-lt : (bs : List ℕ) (i : ℕ) → AllBytes bs → at_byte bs i < 256
at_byte-lt [] i h = omega arith
at_byte-lt (b ∷ bs) zero h = h.0
at_byte-lt (b ∷ bs) (suc i) h = at_byte-lt bs i h.1

bytes_eq :
    (a b : NodeId) (i : ℕ) → IsId a → IsId b → SameBits 160 a b → i < 20 → at_byte a i ≡ at_byte b i
unfolding bit_at
bytes_eq a b i ha hb same hi =
    byte_eq (at_byte a i) (at_byte b i) (at_byte-lt a i ha.1) (at_byte-lt b i hb.1) bits
  where
    bits : (k : ℕ) → k < 8 → bit (at_byte a i) k ≡ bit (at_byte b i) k
    bits k hk =
        let index : (8 * i + k) / 8 ≡ i = omega arith in
        let offset : (8 * i + k) % 8 ≡ k = omega arith in
        rw (index, offset) at (same (8 * i + k) (omega arith))

-- On ids of twenty bytes, the distance is 160 exactly when the ids are equal.
pub distance-eq-max_iff :
    (a b : NodeId) → IsId a → IsId b → (calc_node_xor_distance a b ≡ 160) ↔ (a ≡ b)
distance-eq-max_iff a b ha hb = (
  λ e.
      eq_of_get_or a b 0 (omega arith) (λ i hi.
        bytes_eq a b i ha hb (SameBits-of_le-distance 160 a b (omega arith)) (omega arith)),
  λ e. omega (arith, distance-le a b, le-distance_of_SameBits 160 a b (omega arith) (λ i hi. cc)),
)
