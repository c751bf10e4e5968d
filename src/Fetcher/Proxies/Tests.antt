-- ===== src/Fetcher/Proxies/Tests.antt =====
-- The theorem on the rotation, at two proxies.
use miniflux.Base.{
  ◌%◌, String, ◌≡◌, refl, some, List, [], ◌∷◌, arith, nat_eq, string_eq, length, get_elem?,
}
use miniflux.Fetcher.Proxies.{new_proxy_rotator, proxy, get_next_proxy, after_calls}
use miniflux.Fetcher.Proxies.Rotation.{get_next_proxy-after_calls}

abbrev two : List String
two = "http://a" ∷ "http://b" ∷ []

parsed_two :
    new_proxy_rotator (λ s. some s) two ≡ some (record { proxies = two; current_index = 0 })
unfolding new_proxy_rotator
parsed_two = refl

get_next_proxy-after_calls_example :
    (u : String) × ((get_next_proxy (after_calls 3 (record { proxies = two; current_index = 0 }))).1
      ≡ proxy u)
    × (get_elem? two (3 % length two) ≡ some u)
get_next_proxy-after_calls_example = get_next_proxy-after_calls two 3 (omega arith)
