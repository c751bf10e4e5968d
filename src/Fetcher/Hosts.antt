-- ===== src/Fetcher/Hosts.antt =====
-- internal/reader/fetcher/limits.go: `limitHosts`, the table that shares the limits of each host. The
-- limits live at addresses, and the table gives the address of a host: a request that has an address
-- keeps it whatever becomes of the table. `limits_of` is config.FindHostLimits: the connections of a
-- host, and whether its rate is limited.
pub mod InUse
mod Tests
use miniflux.Base.{
  ℕ, zero, suc, ◌+◌, ◌-◌, ◌*◌, ◌/◌, ◌%◌, ◌^◌, ◌≤◌, ◌<◌, min, max, String, ◌≡◌, refl, sym, ap, ◌∙◌,
  ◌≢◌, ◌↔◌, ◌⊎◌, inl, inr, Bool, true, false, not, ◌&&◌, ◌||◌, Option, none, some, List, [], ◌∷◌,
  ◌++◌, map, reverse, arith, eq_iff, ltb, leb, nat_beq, if◌then◌else◌, ltb→lt, lt→ltb, leb→le,
  nat_beq_iff, tests, Eq, ◌==◌, nat_eq, string_eq, Bool-cases, Option-cases, beq_refl, eq_of_beq,
  ne_of_beq, beq_of_ne, length, get_elem?, length-append, All-mem, Memᴰ, any, keep, All, All-append,
  All-map, lookup, insert, lookup-insert, lookup-insert_self, length-insert_new,
}
use miniflux.Base.Int.{
  ℤ, pos, negsuc, pos_part, neg_part, sub_ℕ, ◌+ℤ◌, ◌-ℤ◌, quot, rem, ◌≤ℤ◌, ◌<ℤ◌, ltb_ℤ, leb_ℤ, eqb_ℤ,
  +ℤ_parts, -ℤ_parts, eq_of_parts, int_laws,
}
use miniflux.Fetcher.Limits.{
  Semaphores, HostLimit, Outcome, ok, panic, expired, inc_refs, set_retry_after, new_host_limit,
  release_host,
}

module _ (S : Semaphores) where
  open S use {Sem}

  -- limitHosts, and the memory.
  pub record LimitHosts : Type 0 where
    pub heap : List (HostLimit Sem)
    pub servers : List (String × ℕ)

  abbrev pub no_hosts : LimitHosts
  no_hosts = record { heap = []; servers = [] }

  -- A write through a pointer.
  abbrev pub write_at : ℕ → HostLimit Sem → List (HostLimit Sem) → List (HostLimit Sem)
  write_at a h [] = []
  write_at zero h (g ∷ heap) = h ∷ heap
  write_at (suc a) h (g ∷ heap) = g ∷ write_at a h heap

  abbrev pub is_expired : ℕ → ℕ → Option (HostLimit Sem) → Bool
  is_expired now d none = false
  is_expired now d (some h) = expired now d h

  -- limitHosts.Expire at `now`
  unfoldable pub expire : ℕ → ℕ → LimitHosts → LimitHosts
  unfolding expired
  expire now d hosts = record hosts {
    servers = keep (λ entry. not (is_expired now d (get_elem? hosts.heap entry.1))) hosts.servers;
  }

  module _ (limits_of : String → ℤ × Bool) where
    abbrev pub or_new : String → LimitHosts → Option ℕ → LimitHosts × ℕ
    or_new hostname hosts (some a) = (hosts, a)
    or_new hostname hosts none =
        let (connections, rate_limited) = limits_of hostname in
        let a = length hosts.heap in
        (
          record {
            heap = hosts.heap ++ new_host_limit S connections rate_limited ∷ [];
            servers = insert hostname a hosts.servers;
          },
          a,
        )

    -- limitHosts.hostLimit: the hosts, and the address.
    unfoldable pub host_limit : String → LimitHosts → LimitHosts × ℕ
    unfolding lookup insert new_host_limit
    host_limit hostname hosts = or_new hostname hosts (lookup hostname hosts.servers)

    abbrev pub release_found : ℕ → ℕ → LimitHosts → Option (HostLimit Sem) → Outcome LimitHosts
    release_found now a hosts none = panic
    release_found now a hosts (some h) = elim (release_host S now h) [
      | panic ↦ panic
      | ok h' ↦ ok (record hosts { heap = write_at a h' hosts.heap })
    ]

    -- limitHosts.Release at `now`
    unfoldable pub release : ℕ → String → LimitHosts → Outcome LimitHosts
    unfolding host_limit release_host
    release now hostname hosts =
        let (hosts', a) = host_limit hostname hosts in
        release_found now a hosts' (get_elem? hosts'.heap a)

    abbrev pub retry_found : ℕ → String → ℕ → LimitHosts → Option (HostLimit Sem) → LimitHosts
    retry_found retry_after header a hosts none = hosts
    retry_found retry_after header a hosts (some h) = record hosts {
      heap = write_at a (set_retry_after retry_after header h).0 hosts.heap;
    }

    -- limitHosts.SetRetryAfter: the hosts.
    unfoldable pub set_retry : ℕ → String → String → LimitHosts → LimitHosts
    unfolding host_limit set_retry_after
    set_retry retry_after header hostname hosts =
        let (hosts', a) = host_limit hostname hosts in
        retry_found retry_after header a hosts' (get_elem? hosts'.heap a)
