-- ===== src/Endpoint/Tests.antt =====
-- The conversions of endpoints at concrete inputs.
use ss_p2p_node_controller.Common.{◌≡◌, refl, [], ◌∷◌, none, some}
use ss_p2p_node_controller.Json.{negsuc}
use ss_p2p_node_controller.Endpoint.{endpoint_to_str, str_to_endpoint, stoi}
use ss_p2p_node_controller.Endpoint.RoundTrip.{str_to_endpoint-endpoint_to_str}
use ss_p2p_node_controller.Endpoint.Sample.{net, net-NetLaws, plain}

-- The address 1 and the port 80.
print_test : endpoint_to_str net 65616 ≡ 60 ∷ 58 ∷ 56 ∷ 48 ∷ []
unfolding endpoint_to_str
print_test = refl

-- " -12x" and "x".
stoi_test : stoi (32 ∷ 45 ∷ 49 ∷ 50 ∷ 120 ∷ []) ≡ some (negsuc 11)
unfolding stoi
stoi_test = refl

stoi_fails_test : stoi (120 ∷ []) ≡ none
unfolding stoi
stoi_fails_test = refl

-- Two colons: the text before the first one is no address.
colon_test : str_to_endpoint net (58 ∷ 58 ∷ 56 ∷ 48 ∷ []) ≡ none
unfolding str_to_endpoint
colon_test = refl

str_to_endpoint-endpoint_to_str_example :
    str_to_endpoint net (endpoint_to_str net 65616) ≡ some 65616
str_to_endpoint-endpoint_to_str_example =
    str_to_endpoint-endpoint_to_str net net-NetLaws 65616 (plain 65616)
