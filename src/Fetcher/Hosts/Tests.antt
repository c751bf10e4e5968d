-- ===== src/Fetcher/Hosts/Tests.antt =====
-- The table of hosts at concrete inputs.
use miniflux.Base.{String, ◌≡◌, refl, Bool, false, some, [], ◌∷◌, nat_eq, string_eq, lookup, insert}
use miniflux.Base.Int.{ℤ, pos}
use miniflux.Fetcher.Limits.{
  HostLimit, panic, expired, new_host_limit, release_host, release_sem,
  connections_limit_configured,
}
use miniflux.Fetcher.Limits.Counters.{Counter, give, counters}
use miniflux.Fetcher.Hosts.{LimitHosts, no_hosts, expire, host_limit, release}
use miniflux.Fetcher.Hosts.InUse.{find, expire_at, retry, calls, InUse, host_limit-calls}

abbrev one_each : String → ℤ × Bool
one_each hostname = (pos 1, false)

-- A host that was looked up, but has no reference yet, is expired at once, since it was never
-- released; the request that goes on with its limits releases others then, which panics.
lost_host :
    release counters one_each 60 "a"
      (expire counters 50 10 (host_limit counters one_each "a" (no_hosts counters)).0)
    ≡ panic
unfolding release host_limit expire expired lookup insert new_host_limit release_host release_sem
    connections_limit_configured give
lost_host = refl

-- A host with one reference, at address 0.
abbrev busy_limit : HostLimit Counter
busy_limit = record {
  connections = pos 1;
  rate_limited = false;
  sem = some (record { taken = 1; bound = 1 });
  refs = pos 1;
  retry_after = 0;
  retry_header = "";
  released_at = 0;
}

abbrev busy : LimitHosts counters
busy = record { heap = busy_limit ∷ []; servers = ("a", 0) ∷ [] }

busy-InUse : InUse counters one_each "a" 0 busy
unfolding lookup
busy-InUse = (refl, (busy_limit, refl, cc))

host_limit-calls_example :
    (host_limit counters one_each "a"
        (calls counters one_each (find "b" ∷ expire_at 90 10 ∷ retry 95 "60" "a" ∷ []) busy)
      ≡ (calls counters one_each (find "b" ∷ expire_at 90 10 ∷ retry 95 "60" "a" ∷ []) busy, 0))
    × InUse counters one_each "a" 0
        (calls counters one_each (find "b" ∷ expire_at 90 10 ∷ retry 95 "60" "a" ∷ []) busy)
host_limit-calls_example =
    host_limit-calls counters one_each (find "b" ∷ expire_at 90 10 ∷ retry 95 "60" "a" ∷ []) "a" 0
      busy busy-InUse
