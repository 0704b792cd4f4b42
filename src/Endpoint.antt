-- ===== src/Endpoint.antt =====
-- Endpoints as text: endpoint_to_str and str_to_endpoint of src/utils.cpp. `Net` holds what the
-- source uses of Boost.Asio's endpoints and addresses, and `NetLaws` what it relies on. An exception
-- is `none`.
pub mod RoundTrip
pub mod Binary
pub mod Sample
mod Tests
use ss_p2p_node_controller.Common.{
  ℕ, zero, suc, ◌+◌, ◌-◌, ◌*◌, ◌/◌, ◌%◌, ◌^◌, ◌≤◌, ◌<◌, Bool, true, false, not, ◌&&◌, ◌||◌, ltb,
  leb, ◌==◌, if◌then◌else◌, ◌≡◌, List, [], ◌∷◌, ◌++◌, take, length, Option, none, some, ◌>>=◌,
}
use ss_p2p_node_controller.Json.{Text, ℤ, pos, negsuc}

-- The size of no `std::string` reaches `npos`.
abbrev pub npos : ℕ
npos = 2 ^ 64 - 1

-- `from_string` throws on a text that is no address.
pub record Net (E A : Type 0) : Type 0 where
  pub address : E → A
  pub port : E → ℕ
  pub endpoint : A → ℕ → E
  pub to_string : A → Text
  pub from_string : Text → Option A

pub record NetLaws {E A : Type 0} (net : Net E A) : Type 0 where
  pub endpoint-eta : (ep : E) → net.endpoint (net.address ep) (net.port ep) ≡ ep
  pub port-lt : (ep : E) → net.port ep < 65536
  pub length-to_string : (a : A) → length (net.to_string a) < npos
  pub from_string-to_string : (a : A) → net.from_string (net.to_string a) ≡ some a

-- The characters of the source, by their codes.
abbrev pub colon : ℕ
colon = 58

-- `std::to_string` of an unsigned number with at most `fuel` digits, in front of a text.
unfoldable pub digits : ℕ → ℕ → Text → Text
digits zero n rest = rest
digits (suc fuel) n rest =
    let digit = 48 + n % 10 in
    let more = digits fuel (n / 10) (digit ∷ rest) in if ltb n 10 then digit ∷ rest else more

unfoldable pub print_port : ℕ → Text
unfolding digits
print_port n = digits 5 n []

unfoldable pub endpoint_to_str : {E A : Type 0} → Net E A → E → Text
unfolding print_port
endpoint_to_str net ep = net.to_string (net.address ep) ++ (colon ∷ print_port (net.port ep))

-- `find` of a colon.
unfoldable pub find : Text → ℕ
find [] = npos
find (c ∷ t) =
    let later = find t in if c == colon then 0 else if later == npos then npos else later + 1

abbrev pub drop : ℕ → Text → Text
drop zero t = t
drop (suc n) [] = []
drop (suc n) (c ∷ t) = drop n t

abbrev pub is_space : ℕ → Bool
is_space c = (c == 32) || (leb 9 c && leb c 13)

abbrev pub is_digit : ℕ → Bool
is_digit c = leb 48 c && leb c 57

-- The number at the front of a text, after what was read before it.
unfoldable pub read_digits : ℕ → Text → ℕ
read_digits n [] = n
read_digits n (c ∷ t) =
    let more = read_digits (n * 10 + (c - 48)) t in if is_digit c then more else n

unfoldable pub skip_spaces : Text → Text
skip_spaces [] = []
skip_spaces (c ∷ t) = let rest = skip_spaces t in if is_space c then rest else c ∷ t

abbrev pub negative : ℕ → ℤ
negative zero = pos zero
negative (suc n) = negsuc n

-- An unsigned number that fits below a bound, `none` without a digit or beyond the bound.
unfoldable pub read_unsigned : ℕ → Text → Option ℕ
unfolding read_digits
read_unsigned bound [] = none
read_unsigned bound (c ∷ t) =
    let n = read_digits 0 (c ∷ t) in
    if is_digit c then (if ltb n bound then some n else none) else none

-- What `std::stoi` reads once the spaces are gone; an `int` has 32 bits.
unfoldable pub read_signed : Text → Option ℤ
unfolding read_unsigned
read_signed [] = none
read_signed (c ∷ t) =
    if c == 45
    then (do n ← read_unsigned (2 ^ 31 + 1) t; some (negative n))
    else if c == 43
    then (do n ← read_unsigned (2 ^ 31) t; some (pos n))
    else (do n ← read_unsigned (2 ^ 31) (c ∷ t); some (pos n))

unfoldable pub stoi : Text → Option ℤ
unfolding read_signed skip_spaces
stoi t = read_signed (skip_spaces t)

-- The conversion to an `unsigned short`.
unfoldable pub to_short : ℤ → ℕ
to_short (pos n) = n % 65536
to_short (negsuc n) = 65535 - n % 65536

-- addr_pair_to_endpoint.
unfoldable pub addr_pair_to_endpoint : {E A : Type 0} → Net E A → Text → ℕ → Option E
addr_pair_to_endpoint net ip port = do a ← net.from_string ip; some (net.endpoint a port)

-- Without a colon the port is read from the whole text, since npos + 1 wraps to 0.
unfoldable pub str_to_endpoint : {E A : Type 0} → Net E A → Text → Option E
unfolding find stoi to_short addr_pair_to_endpoint
str_to_endpoint net t =
    let ipv4 = take (find t) t in
    do port ← stoi (drop ((find t + 1) % 2 ^ 64) t); addr_pair_to_endpoint net ipv4 (to_short port)
