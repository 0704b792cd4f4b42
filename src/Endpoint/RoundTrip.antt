-- ===== src/Endpoint/RoundTrip.antt =====
-- endpoint_to_str and str_to_endpoint of src/utils.cpp undo each other, on addresses that are
-- written without a colon.
use mathlib.Core.List.{mem-cons_self, mem-cons_of_mem}
use ss_p2p_node_controller.Common.{
  ℕ, zero, suc, ◌+◌, ◌-◌, ◌*◌, ◌/◌, ◌%◌, ◌^◌, ◌≤◌, ◌<◌, true, false, Bool-cases, ltb, ◌==◌, ◌≡◌,
  ◌≢◌, refl, ◌∙◌, inl, inr, [], ◌∷◌, ◌++◌, take-append, length, Mem, some, arith,
}
use ss_p2p_node_controller.Json.{Text, pos}
use ss_p2p_node_controller.Endpoint.{
  Net, NetLaws, colon, npos, digits, print_port, endpoint_to_str, find, drop, is_digit, is_space,
  read_digits, read_unsigned, read_signed, skip_spaces, stoi, to_short, addr_pair_to_endpoint,
  str_to_endpoint,
}

-- A text that starts with a digit.
abbrev StartsWithDigit : Text → Type 0
StartsWithDigit t = (c : ℕ) × (rest : Text) × (t ≡ c ∷ rest) × (48 ≤ c) × (c ≤ 57)

digits-StartsWithDigit :
    (fuel n : ℕ) (rest : Text) → StartsWithDigit rest → StartsWithDigit (digits fuel n rest)
unfolding digits
digits-StartsWithDigit zero n rest s = s
digits-StartsWithDigit (suc fuel) n rest s =
    let here : StartsWithDigit ((48 + n % 10) ∷ rest) =
      (48 + n % 10, rest, refl, omega arith, omega arith) in
    elim (Bool-cases (ltb n 10)) [
      | inl e ↦ rw e here
      | inr e ↦ rw e (digits-StartsWithDigit fuel (n / 10) ((48 + n % 10) ∷ rest) here)
    ]

is_digit-true : (c : ℕ) → 48 ≤ c → c ≤ 57 → is_digit c ≡ true
is_digit-true c low high = ground arith

read_digits-digit :
    (m n k : ℕ) (rest : Text)
    → m * 10 + n % 10 ≡ k
    → read_digits m ((48 + n % 10) ∷ rest) ≡ read_digits k rest
unfolding read_digits
read_digits-digit m n k rest e =
    let value : m * 10 + (48 + n % 10 - 48) ≡ k = omega (arith, e) in
    rw (is_digit-true (48 + n % 10) (omega arith) (omega arith), value)

-- The digits of a number with at most `suc fuel` of them are read back.
read_digits-digits :
    (fuel n : ℕ) (rest : Text)
    → n < 10 ^ (suc fuel)
    → read_digits 0 (digits (suc fuel) n rest) ≡ read_digits n rest
unfolding digits
read_digits-digits zero n rest lt = elim (Bool-cases (ltb n 10)) [
  | inl e ↦ rw e (read_digits-digit 0 n n rest (ground arith))
  | inr e ↦ absurd (ground arith)
]
read_digits-digits (suc fuel) n rest lt = elim (Bool-cases (ltb n 10)) [
  | inl e ↦ rw e (read_digits-digit 0 n n rest (ground arith))
  | inr e ↦ rw e (
      read_digits-digits fuel (n / 10) ((48 + n % 10) ∷ rest) (omega arith)
      ∙ read_digits-digit (n / 10) n n rest (omega arith))
]

print_port-StartsWithDigit : (n : ℕ) → StartsWithDigit (print_port n)
unfolding print_port digits
print_port-StartsWithDigit n =
    let here : StartsWithDigit ((48 + n % 10) ∷ []) =
      (48 + n % 10, [], refl, omega arith, omega arith) in
    elim (Bool-cases (ltb n 10)) [
      | inl e ↦ rw e here
      | inr e ↦ rw e (digits-StartsWithDigit 4 (n / 10) ((48 + n % 10) ∷ []) here)
    ]

stoi_of_digit :
    (c n : ℕ) (rest : Text)
    → 48 ≤ c
    → c ≤ 57
    → read_digits 0 (c ∷ rest) ≡ n
    → n < 2 ^ 31
    → stoi (c ∷ rest) ≡ some (pos n)
unfolding stoi skip_spaces read_signed read_unsigned
stoi_of_digit c n rest low high e lt =
    let no_space : is_space c ≡ false = ground arith in
    let no_minus : (c == 45) ≡ false = ground arith in
    let no_plus : (c == 43) ≡ false = ground arith in
    let fits : ltb n (2 ^ 31) ≡ true = ground arith in
    let digit : is_digit c ≡ true = is_digit-true c low high in
    let value : read_digits (0 + (c - 48)) rest ≡ n = unfold read_digits in (rw digit at e) in
    rw (no_space, no_minus, no_plus, digit, value, fits)

stoi-print_port : (n : ℕ) → n < 65536 → stoi (print_port n) ≡ some (pos n)
stoi-print_port n lt =
    let (c, rest, e, low, high) = print_port-StartsWithDigit n in
    let value : read_digits 0 (print_port n) ≡ n =
      unfold print_port read_digits in (read_digits-digits 4 n [] (omega arith)) in
    rw e (stoi_of_digit c n rest low high (rw (← e) value) (omega arith))

-- A text without the character.
abbrev pub Lacks : ℕ → Text → Type 0
Lacks c t = (d : ℕ) → Mem d t → d ≢ c

find-append : (u v : Text) → Lacks colon u → length u < npos → find (u ++ (colon ∷ v)) ≡ length u
unfolding find
find-append [] v lacks short = refl
find-append (c ∷ u) v lacks short =
    let here : c ≢ colon = lacks c mem-cons_self in
    let later : find (u ++ (colon ∷ v)) ≡ length u =
      find-append u v (λ d m. lacks d (mem-cons_of_mem c m)) (omega arith) in
    rw later (ground arith)

drop-append : (u v : Text) (c : ℕ) → drop (suc (length u)) (u ++ (c ∷ v)) ≡ v
drop-append [] v c = refl
drop-append (d ∷ u) v c = drop-append u v c

module _ {E A : Type 0} (net : Net E A) (laws : NetLaws net) where
  -- An endpoint whose address is written without a colon, as IPv4 addresses are, comes back from its
  -- text.
  pub str_to_endpoint-endpoint_to_str :
      (ep : E)
      → Lacks colon (net.to_string (net.address ep))
      → str_to_endpoint net (endpoint_to_str net ep) ≡ some ep
  unfolding str_to_endpoint endpoint_to_str addr_pair_to_endpoint to_short
  str_to_endpoint-endpoint_to_str ep lacks =
      let a = net.to_string (net.address ep) in
      let p = print_port (net.port ep) in
      let short : length a < npos = laws.length-to_string (net.address ep) in
      let lt : net.port ep < 65536 = laws.port-lt ep in
      let next : (length a + 1) % 2 ^ 64 ≡ suc (length a) = omega arith in
      let same : net.port ep % 65536 ≡ net.port ep = omega arith in
      rw (
        find-append a p lacks short,
        next,
        drop-append a p colon,
        stoi-print_port (net.port ep) lt,
        take-append a (colon ∷ p),
        laws.from_string-to_string (net.address ep),
        same,
        laws.endpoint-eta ep,
      )
