-- ===== src/Http/ClientIp/Tests.antt =====
-- A forged header, and the theorems at it.
use miniflux.Base.{
  String, ◌≡◌, refl, Bool, not, none, some, List, [], ◌∷◌, ◌++◌, ◌==◌, nat_eq, string_eq,
}
use miniflux.Base.Text.{cut, split, trim_space}
use miniflux.Http.ClientIp.{answer, x_forwarded_for}
use miniflux.Http.ClientIp.Hops.{
  hops, last_untrusted, x_forwarded_for_forged, x_forwarded_for-last_untrusted,
}

abbrev is_proxy : String → Bool
is_proxy ip = ip == "10.0.0.1"

abbrev is_address : String → Bool
is_address ip = not (ip == "spoof")

-- The client writes "1.1.1.1", the proxy adds the client's own address.
abbrev values : List String
values = "9.9.9.9, 10.0.0.1" ∷ []

forged_header : x_forwarded_for is_proxy is_address ("1.1.1.1" ∷ values) ≡ "9.9.9.9"
unfolding x_forwarded_for split trim_space cut
forged_header = refl

x_forwarded_for_forged_example :
    x_forwarded_for is_proxy is_address (("1.1.1.1" ∷ []) ++ values)
    ≡ x_forwarded_for is_proxy is_address values
unfolding split trim_space
x_forwarded_for_forged_example =
    x_forwarded_for_forged is_proxy is_address ("1.1.1.1" ∷ []) values "9.9.9.9" refl

x_forwarded_for-last_untrusted_example :
    x_forwarded_for is_proxy is_address values
    ≡ elim (last_untrusted is_proxy is_address (hops values)) [
      | none ↦ ""
      | some hop ↦ answer is_proxy is_address hop
    ]
x_forwarded_for-last_untrusted_example = x_forwarded_for-last_untrusted is_proxy is_address values
