-- ===== src/Http/ClientIp.antt =====
-- internal/http/request/client_ip.go: the client's address, from the headers that proxies add.
-- `trusted` is the caller's trustedProxy, `is_ip` is net.ParseIP's success, and `split_host` is the
-- host that net.SplitHostPort finds. A header is the list of its values.
pub mod Hops
mod Tests
use miniflux.Base.{
  ℕ, zero, suc, ◌+◌, ◌-◌, ◌*◌, ◌/◌, ◌%◌, ◌≤◌, ◌<◌, min, max, String, ◌≡◌, refl, sym, ap, ◌∙◌, ◌≢◌,
  ◌↔◌, ◌⊎◌, inl, inr, Bool, true, false, not, ◌&&◌, ◌||◌, Option, none, some, List, [], ◌∷◌, ◌++◌,
  map, reverse, arith, eq_iff, ltb, leb, nat_beq, if◌then◌else◌, ltb→lt, lt→ltb, leb→le,
  nat_beq_iff, tests, Eq, ◌==◌, nat_eq, string_eq, Bool-cases, Option-cases, beq_refl, eq_of_beq,
  ne_of_beq, beq_of_ne, length, get_elem?, length-append, All-mem, Memᴰ, any, keep, All, All-append,
  All-map, lookup, insert, lookup-insert, lookup-insert_self, length-insert_new,
}
use miniflux.Base.Text.{cut, split, trim_space}

-- dropIPv6zone
unfoldable pub drop_ipv6_zone : String → String
unfolding cut
drop_ipv6_zone address = elim (cut 0x25 address) [ none ↦ address | some (before, after) ↦ before ]

abbrev pub or_else : Option String → Option String → Option String
or_else none b = b
or_else (some a) b = some a

abbrev pub text_of : Option String → String
text_of none = ""
text_of (some s) = s

module _ (trusted is_ip : String → Bool) where
  -- The address that XForwardedFor returns for the first hop that is not trusted.
  unfoldable pub answer : String → String
  unfolding drop_ipv6_zone
  answer ip = let address = drop_ipv6_zone ip in if is_ip address then address else ""

  -- The inner loop of XForwardedFor: `none` where every hop is trusted.
  unfoldable pub scan_items : List String → Option String
  unfolding answer trim_space
  scan_items [] = none
  scan_items (item ∷ items) =
      let ip = trim_space item in if trusted ip then scan_items items else some (answer ip)

  -- The outer loop, over the values from the last one.
  unfoldable pub scan_values : List String → Option String
  unfolding scan_items
  scan_values [] = none
  scan_values (value ∷ values) =
      or_else (scan_items (reverse (split 0x2c value))) (scan_values values)

  unfoldable pub x_forwarded_for : List String → String
  unfolding scan_values
  x_forwarded_for values = text_of (scan_values (reverse values))

  -- FindRemoteIP
  unfoldable pub find_remote_ip : (String → Option String) → String → String
  find_remote_ip split_host addr =
      drop_ipv6_zone (elim (split_host addr) [ none ↦ addr | some host ↦ host ])

  -- FindClientIP: from X-Forwarded-For, X-Real-IP ("" where it is missing) and the remote address.
  unfoldable pub find_client_ip : (String → Option String) → List String → String → String → String
  unfolding x_forwarded_for find_remote_ip
  find_client_ip split_host forwarded real remote =
      let remote_ip = find_remote_ip split_host remote in
      let client = x_forwarded_for forwarded in
      let real_ip = drop_ipv6_zone (trim_space real) in
      if not (client == "")
      then client
      else if not (real == "") && is_ip real_ip
      then real_ip
      else remote_ip
