-- ===== src/Kademlia/NodeId/Bits.antt =====
-- The bits of an exclusive or, at variables, and the bytes that agree in all their bits.
use Prim.Native.Nat.{differ, digits, bit_xor-bitwise}
use native.Mathlib.Nat.{div-div-eq-div-mul, pow-suc}
use ss_p2p_node_controller.Common.{
  ℕ, zero, suc, ◌+◌, ◌-◌, ◌*◌, ◌/◌, ◌%◌, ◌^◌, ◌≤◌, ◌<◌, ◌≡◌, refl, sym, ap, ◌∙◌, ◌≢◌, ◌⊎◌, inl, inr,
  bit_xor, arith,
}

pow-suc' : (k : ℕ) → 2 ^ suc k ≡ 2 * 2 ^ k
pow-suc' k = omega (arith, pow-suc 2 k)

-- Fuel beyond the size of the first number changes nothing.
more_digits :
    (n k a b : ℕ) → a ≤ n → digits (λ y. y) differ (k + n) a b ≡ digits (λ y. y) differ n a b
more_digits n zero a b h = let e : 0 + n ≡ n = omega arith in rw e
more_digits zero (suc k) zero b h = let e : suc k + 0 ≡ suc k = omega arith in rw e
more_digits (suc n) (suc k) zero b h = let e : suc k + suc n ≡ suc (suc k + n) = omega arith in rw e
more_digits zero (suc k) (suc a) b h = absurd (omega arith)
more_digits (suc n) (suc k) (suc a) b h =
    let e : suc k + suc n ≡ suc (suc k + n) = omega arith in
    rw (e, more_digits n (suc k) (suc a / 2) (b / 2) (omega arith))

differ-zero : (x : ℕ) → differ x 0 ≡ x
differ-zero zero = refl
differ-zero (suc x) = refl

-- The lowest bit of an exclusive or, and the bits above it.
bit_xor_step : (a b : ℕ) → bit_xor a b ≡ bit_xor (a / 2) (b / 2) * 2 + differ (a % 2) (b % 2)
bit_xor_step zero b = simp bit_xor-bitwise (omega arith)
bit_xor_step (suc a) b =
    let e : a - suc a / 2 + suc a / 2 ≡ a = omega arith in
    let same = more_digits (suc a / 2) (a - suc a / 2) (suc a / 2) (b / 2) (omega arith) in
    simp bit_xor-bitwise (omega (arith, rw e at same))

differ_small :
    (p q : ℕ) → p < 2 → q < 2 → ((p ≡ q) × (differ p q ≡ 0)) ⊎ ((p ≢ q) × (differ p q ≡ 1))
differ_small zero zero hp hq = inl (refl, refl)
differ_small zero (suc zero) hp hq = inr (omega arith, refl)
differ_small (suc zero) zero hp hq = inr (omega arith, refl)
differ_small (suc zero) (suc zero) hp hq = inl (refl, refl)
differ_small (suc (suc p)) q hp hq = absurd (omega arith)
differ_small zero (suc (suc q)) hp hq = absurd (omega arith)
differ_small (suc zero) (suc (suc q)) hp hq = absurd (omega arith)

pub differ_bits :
    (x y : ℕ)
    → ((x % 2 ≡ y % 2) × (differ (x % 2) (y % 2) ≡ 0))
      ⊎ ((x % 2 ≢ y % 2) × (differ (x % 2) (y % 2) ≡ 1))
differ_bits x y = differ_small (x % 2) (y % 2) (omega arith) (omega arith)

bit_xor-half : (a b : ℕ) → bit_xor a b / 2 ≡ bit_xor (a / 2) (b / 2)
bit_xor-half a b = omega (arith, bit_xor_step a b, differ_bits a b)

-- Bit `k` of a number.
abbrev pub bit : ℕ → ℕ → ℕ
bit x k = x / 2 ^ k % 2

pub bit-suc : (x k : ℕ) → bit x (suc k) ≡ bit (x / 2) k
bit-suc x k =
    ap (λ (t : ℕ). t % 2)
      (ap (λ (t : ℕ). x / t) (pow-suc' k) ∙ sym (div-div-eq-div-mul x 2 (2 ^ k)))

-- An exclusive or has a zero exactly where the bits agree, and a one elsewhere.
pub bit-xor :
    (k a b : ℕ)
    → ((bit a k ≡ bit b k) × (bit (bit_xor a b) k ≡ 0))
      ⊎ ((bit a k ≢ bit b k) × (bit (bit_xor a b) k ≡ 1))
bit-xor zero a b = omega (arith, bit_xor_step a b, differ_bits a b)
bit-xor (suc k) a b =
    rw (bit-suc a k, bit-suc b k, bit-suc (bit_xor a b) k, bit_xor-half a b)
      (bit-xor k (a / 2) (b / 2))
