-- ===== src/Endpoint/Binary.antt =====
-- endpoint_to_binary and extract_endpoint of src/utils.cpp, and the ids made of endpoints: calc_node_id of
-- src/ss_p2p/kademlia/node_id.cpp and calc_peer_id of src/ss_p2p/peer.cpp. `sha1` is the digest of the
-- library crypto_utils.
use ss_p2p_node_controller.Common.{
  ℕ, ◌/◌, ◌%◌, ◌<◌, ◌≡◌, ◌≢◌, refl, ap, sym, ◌∙◌, List, [], ◌∷◌, ◌++◌, some, arith,
}
use mathlib.Core.Option.{some-injective}
use ss_p2p_node_controller.Json.{Text}
use ss_p2p_node_controller.Endpoint.{
  Net, NetLaws, colon, str_to_endpoint, endpoint_to_str, addr_pair_to_endpoint,
}
use ss_p2p_node_controller.Endpoint.RoundTrip.{Lacks, str_to_endpoint-endpoint_to_str}
use ss_p2p_node_controller.Kademlia.NodeId.{NodeId}

-- The two bytes of the port, as a machine lays them out that stores the low byte first.
abbrev pub port_bytes : ℕ → List ℕ
port_bytes port = port % 256 ∷ port / 256 ∷ []

module _ {E A : Type 0} (net : Net E A) where
  unfoldable pub endpoint_to_binary : E → List ℕ
  endpoint_to_binary ep = net.to_string (net.address ep) ++ port_bytes (net.port ep)

  unfoldable pub extract_endpoint : E → Text × ℕ
  extract_endpoint ep = (net.to_string (net.address ep), net.port ep % 65536)

  unfoldable pub calc_node_id : (List ℕ → NodeId) → E → NodeId
  unfolding endpoint_to_binary
  calc_node_id sha1 ep = sha1 (endpoint_to_binary ep)

  unfoldable pub calc_peer_id : {P : Type 0} → (Text → P) → E → P
  unfolding endpoint_to_str
  calc_peer_id sha1 ep = sha1 (endpoint_to_str net ep)

same_parts :
    (u v : List ℕ) (a b c d : ℕ) → u ++ a ∷ b ∷ [] ≡ v ++ c ∷ d ∷ [] → (u ≡ v) × (a ≡ c) × (b ≡ d)
same_parts [] [] a b c d e = (refl, cc, cc)
same_parts [] (x ∷ []) a b c d e = absurd cc
same_parts [] (x ∷ y ∷ []) a b c d e = absurd cc
same_parts [] (x ∷ y ∷ z ∷ v) a b c d e = absurd cc
same_parts (x ∷ []) [] a b c d e = absurd cc
same_parts (x ∷ y ∷ []) [] a b c d e = absurd cc
same_parts (x ∷ y ∷ z ∷ u) [] a b c d e = absurd cc
same_parts (x ∷ u) (y ∷ v) a b c d e =
    let rest : u ++ a ∷ b ∷ [] ≡ v ++ c ∷ d ∷ [] = cc in
    let (same, low, high) = same_parts u v a b c d rest in (cc, low, high)

module _ {E A : Type 0} (net : Net E A) (laws : NetLaws net) where
  endpoint_to_binary-injective :
      (ep ep' : E) → endpoint_to_binary net ep ≡ endpoint_to_binary net ep' → ep ≡ ep'
  unfolding endpoint_to_binary
  endpoint_to_binary-injective ep ep' same =
      let a = net.address ep in
      let a' = net.address ep' in
      let (texts, low, high) = same_parts (net.to_string a) (net.to_string a') _ _ _ _ same in
      let addresses : a ≡ a' = some-injective _ _ (
        sym (laws.from_string-to_string a)
        ∙ ap net.from_string texts
        ∙ laws.from_string-to_string a') in
      let ports : net.port ep ≡ net.port ep' = omega (arith, low, high) in
      let whole : net.endpoint a (net.port ep) ≡ net.endpoint a' (net.port ep') = cc in
      sym (laws.endpoint-eta ep) ∙ whole ∙ laws.endpoint-eta ep'

  endpoint_to_str-injective :
      (ep ep' : E)
      → Lacks colon (net.to_string (net.address ep))
      → Lacks colon (net.to_string (net.address ep'))
      → endpoint_to_str net ep ≡ endpoint_to_str net ep'
      → ep ≡ ep'
  endpoint_to_str-injective ep ep' lacks lacks' same = some-injective _ _ (
      sym (str_to_endpoint-endpoint_to_str net laws ep lacks)
      ∙ ap (str_to_endpoint net) same
      ∙ str_to_endpoint-endpoint_to_str net laws ep' lacks')

  -- Let two endpoints with addresses that are written without a colon be different. If they have the same
  -- node id, or the same peer id, the digest maps two different data to it.
  calc_ids_collision :
      {P : Type 0} (node_sha1 : List ℕ → NodeId) (peer_sha1 : Text → P) (ep ep' : E)
      → Lacks colon (net.to_string (net.address ep))
      → Lacks colon (net.to_string (net.address ep'))
      → ep ≢ ep'
      → (calc_node_id net node_sha1 ep ≡ calc_node_id net node_sha1 ep'
          → (x : List ℕ) × (y : List ℕ) × (x ≢ y) × (node_sha1 x ≡ node_sha1 y))
        × (calc_peer_id net peer_sha1 ep ≡ calc_peer_id net peer_sha1 ep'
            → (x : Text) × (y : Text) × (x ≢ y) × (peer_sha1 x ≡ peer_sha1 y))
  unfolding calc_node_id calc_peer_id
  calc_ids_collision node_sha1 peer_sha1 ep ep' lacks lacks' other = (
    (λ same. (
      endpoint_to_binary net ep,
      endpoint_to_binary net ep',
      (λ e. other (endpoint_to_binary-injective ep ep' e)),
      same,
    )),
    (λ same. (
      endpoint_to_str net ep,
      endpoint_to_str net ep',
      (λ e. other (endpoint_to_str-injective ep ep' lacks lacks' e)),
      same,
    )),
  )

  -- What extract_endpoint takes apart, addr_pair_to_endpoint puts together.
  addr_pair_to_endpoint-extract_endpoint :
      (ep : E)
      → addr_pair_to_endpoint net (extract_endpoint net ep).0 (extract_endpoint net ep).1 ≡ some ep
  unfolding addr_pair_to_endpoint extract_endpoint
  addr_pair_to_endpoint-extract_endpoint ep =
      let lt : net.port ep < 65536 = laws.port-lt ep in
      let same : net.port ep % 65536 ≡ net.port ep = omega arith in
      rw (laws.from_string-to_string (net.address ep), same, laws.endpoint-eta ep) refl
