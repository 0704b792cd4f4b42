-- ===== src/Kademlia/NodeId/Distance.antt =====
-- What `calc_node_xor_distance` of src/ss_p2p/kademlia/node_id.cpp computes: the number of bits,
-- taken from the low bit of byte 0 upwards, on which two ids agree before they first differ.
use ss_p2p_node_controller.Common.{
  ℕ, zero, suc, ◌+◌, ◌/◌, ◌%◌, ◌≤◌, ◌<◌, ◌≡◌, ◌≢◌, ◌⊎◌, inl, inr, ◌==◌, ==_iff, Bool-cases, List,
  bit_xor, arith,
}
use ss_p2p_node_controller.Kademlia.NodeId.Bits.{bit-xor}
use ss_p2p_node_controller.Kademlia.NodeId.{
  NodeId, at_byte, xor_bytes, bit_at, count_prefix, calc_node_xor_distance,
}

-- The first `n` bits of two ids are the same.
abbrev pub SameBits : ℕ → NodeId → NodeId → Type 0
SameBits n a b = (i : ℕ) → i < n → bit_at a i ≡ bit_at b i

count_prefix_bounds :
    (rounds i : ℕ) (x : List ℕ) (c : ℕ)
    → (c ≤ count_prefix rounds i x c) × (count_prefix rounds i x c ≤ c + rounds)
unfolding count_prefix
count_prefix_bounds zero i x c = omega arith
count_prefix_bounds (suc n) i x c = ground (arith, count_prefix_bounds n (i + 1) x (c + 1))

-- Every bit that the loop has counted is a zero.
count_prefix_sound :
    (rounds i : ℕ) (x : List ℕ) (c j : ℕ) → c + j < count_prefix rounds i x c → bit_at x (i + j) ≢ 1
unfolding count_prefix
count_prefix_sound zero i x c j h = absurd (omega arith)
count_prefix_sound (suc n) i x c zero h = let e : i + 0 ≡ i = omega arith in rw e (ground arith)
count_prefix_sound (suc n) i x c (suc j) h = elim (Bool-cases (bit_at x i == 1)) [
  | inl one ↦ absurd (let h' : c + suc j < c = rw one at h in omega arith)
  | inr more ↦
      let h' : c + suc j < count_prefix n (i + 1) x (c + 1) = rw more at h in
      let e : i + suc j ≡ i + 1 + j = omega arith in
      rw e (count_prefix_sound n (i + 1) x (c + 1) j (omega arith))
]

-- The loop counts on while the bits are zeros.
count_prefix_complete :
    (rounds i : ℕ) (x : List ℕ) (c m : ℕ)
    → m ≤ rounds
    → ((j : ℕ) → j < m → bit_at x (i + j) ≢ 1)
    → c + m ≤ count_prefix rounds i x c
unfolding count_prefix
count_prefix_complete n i x c zero h z = omega (arith, count_prefix_bounds n i x c)
count_prefix_complete zero i x c (suc m) h z = absurd (omega arith)
count_prefix_complete (suc n) i x c (suc m) h z = elim (Bool-cases (bit_at x i == 1)) [
  | inl one ↦
      let e : i + 0 ≡ i = omega arith in absurd (z 0 (omega arith) (rw e ((==_iff _ 1).0 one)))
  | inr more ↦
      rw more (omega (arith, count_prefix_complete n (i + 1) x (c + 1) m (omega arith) later))
]
  where
    later : (j : ℕ) → j < m → bit_at x (i + 1 + j) ≢ 1
    later j hj = let e : i + 1 + j ≡ i + suc j = omega arith in rw e (z (suc j) (omega arith))

at_byte-xor_bytes :
    (rounds j i : ℕ) (a b : NodeId)
    → i < rounds
    → at_byte (xor_bytes rounds j a b) i ≡ bit_xor (at_byte a (j + i)) (at_byte b (j + i))
unfolding xor_bytes
at_byte-xor_bytes zero j i a b h = absurd (omega arith)
at_byte-xor_bytes (suc n) j zero a b h = let e : j + 0 ≡ j = omega arith in rw e
at_byte-xor_bytes (suc n) j (suc i) a b h =
    let e : j + suc i ≡ j + 1 + i = omega arith in
    rw e (at_byte-xor_bytes n (j + 1) i a b (omega arith))

-- A bit of the array xorDistance is a one exactly where the ids differ.
bit_at-xor_bytes :
    (a b : NodeId) (i : ℕ)
    → i < 160
    → ((bit_at a i ≡ bit_at b i) × (bit_at (xor_bytes 20 0 a b) i ≡ 0))
      ⊎ ((bit_at a i ≢ bit_at b i) × (bit_at (xor_bytes 20 0 a b) i ≡ 1))
unfolding bit_at
bit_at-xor_bytes a b i h =
    let e : 0 + i / 8 ≡ i / 8 = omega arith in
    rw (at_byte-xor_bytes 20 0 (i / 8) a b (omega arith), e)
      (bit-xor (i % 8) (at_byte a (i / 8)) (at_byte b (i / 8)))

pub distance-le : (a b : NodeId) → calc_node_xor_distance a b ≤ 160
unfolding calc_node_xor_distance
distance-le a b = omega (arith, count_prefix_bounds 160 0 (xor_bytes 20 0 a b) 0)

pub SameBits-of_le-distance :
    (n : ℕ) (a b : NodeId) → n ≤ calc_node_xor_distance a b → SameBits n a b
unfolding calc_node_xor_distance
SameBits-of_le-distance n a b h i hi =
    elim (bit_at-xor_bytes a b i
      (omega (arith, count_prefix_bounds 160 0 (xor_bytes 20 0 a b) 0))) [
        | inl same ↦ same.0
        | inr other ↦ absurd (zero_bit other.1)
      ]
  where
    zero_bit : bit_at (xor_bytes 20 0 a b) i ≢ 1
    zero_bit =
        let e : 0 + i ≡ i = omega arith in
        rw (← e) (count_prefix_sound 160 0 (xor_bytes 20 0 a b) 0 i (omega arith))

pub le-distance_of_SameBits :
    (n : ℕ) (a b : NodeId) → n ≤ 160 → SameBits n a b → n ≤ calc_node_xor_distance a b
unfolding calc_node_xor_distance
le-distance_of_SameBits n a b h same =
    omega (arith, count_prefix_complete 160 0 (xor_bytes 20 0 a b) 0 n h zero_bit)
  where
    zero_bit : (j : ℕ) → j < n → bit_at (xor_bytes 20 0 a b) (0 + j) ≢ 1
    zero_bit j hj =
        let e : 0 + j ≡ j = omega arith in
        rw e (elim (bit_at-xor_bytes a b j (omega arith)) [
          | inl s ↦ omega arith
          | inr s ↦ absurd (s.0 (same j hj))
        ])
