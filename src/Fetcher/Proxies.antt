-- ===== src/Fetcher/Proxies.antt =====
-- internal/proxyrotator: the proxies that requests take in turn.
pub mod Rotation
mod Tests
use miniflux.Base.{
  ℕ, zero, suc, ◌+◌, ◌-◌, ◌*◌, ◌/◌, ◌%◌, ◌≤◌, ◌<◌, min, max, String, ◌≡◌, refl, sym, ap, ◌∙◌, ◌≢◌,
  ◌↔◌, ◌⊎◌, inl, inr, Bool, true, false, not, ◌&&◌, ◌||◌, Option, none, some, List, [], ◌∷◌, ◌++◌,
  map, reverse, arith, eq_iff, ltb, leb, nat_beq, if◌then◌else◌, ltb→lt, lt→ltb, leb→le,
  nat_beq_iff, tests, Eq, ◌==◌, nat_eq, string_eq, Bool-cases, Option-cases, beq_refl, eq_of_beq,
  ne_of_beq, beq_of_ne, length, get_elem?, length-append, All-mem, Memᴰ, any, keep, All, All-append,
  All-map, lookup, insert, lookup-insert, lookup-insert_self, length-insert_new,
}

pub record ProxyRotator (Url : Type 0) : Type 0 where
  pub proxies : List Url
  pub current_index : ℕ

-- What GetNextProxy does: nil, a proxy, or a panic where the index is out of range.
pub data Next (Url : Type 0) : Type 0 where
  no_proxy : Next Url
  proxy : Url → Next Url
  out_of_range : Next Url

module _ {Url : Type 0} where
  -- The loop of NewProxyRotator; `parse` is net/url's Parse.
  unfoldable pub parse_all : (String → Option Url) → List String → Option (List Url)
  parse_all parse [] = some []
  parse_all parse (p ∷ ps) =
      let rest = parse_all parse ps in
      elim (parse p) [ none ↦ none | some u ↦ elim rest [ none ↦ none | some us ↦ some (u ∷ us) ] ]

  unfoldable pub new_proxy_rotator : (String → Option Url) → List String → Option (ProxyRotator Url)
  unfolding parse_all
  new_proxy_rotator parse urls = elim (parse_all parse urls) [
    | none ↦ none
    | some us ↦ some (record { proxies = us; current_index = 0 })
  ]

  abbrev pub found : Option Url → Next Url
  found none = out_of_range
  found (some u) = proxy u

  -- ProxyRotator.GetNextProxy
  unfoldable pub get_next_proxy : ProxyRotator Url → ProxyRotator Url × Next Url
  get_next_proxy r = if length r.proxies == 0 then (r, no_proxy) else (
    record r { current_index = (r.current_index + 1) % length r.proxies },
    found (get_elem? r.proxies r.current_index),
  )

  -- The rotator after a number of calls.
  unfoldable pub after_calls : ℕ → ProxyRotator Url → ProxyRotator Url
  unfolding get_next_proxy
  after_calls zero r = r
  after_calls (suc k) r = (get_next_proxy (after_calls k r)).0
