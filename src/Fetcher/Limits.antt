-- ===== src/Fetcher/Limits.antt =====
-- internal/reader/fetcher/limits.go: the limits that the requests to one host share, and the steps of
-- the requests between the host's critical sections. `Semaphores` stands for the package
-- golang.org/x/sync/semaphore; the answers of golang.org/x/time/rate and of the contexts come as
-- events. Instants are nanoseconds, 0 is the zero time.
pub mod World
pub mod Invariant
pub mod Activity
pub mod Safety
pub mod Leaks
pub mod Counters
mod Tests
use miniflux.Base.{
  ℕ, zero, suc, ◌+◌, ◌-◌, ◌*◌, ◌/◌, ◌%◌, ◌≤◌, ◌<◌, min, max, String, ◌≡◌, refl, sym, ap, ◌∙◌, ◌≢◌,
  ◌↔◌, ◌⊎◌, inl, inr, Bool, true, false, not, ◌&&◌, ◌||◌, Option, none, some, List, [], ◌∷◌, ◌++◌,
  map, reverse, arith, eq_iff, ltb, leb, nat_beq, if◌then◌else◌, ltb→lt, lt→ltb, leb→le,
  nat_beq_iff, tests, Eq, ◌==◌, nat_eq, string_eq, Bool-cases, Option-cases, beq_refl, eq_of_beq,
  ne_of_beq, beq_of_ne, length, get_elem?, length-append, All-mem, Memᴰ, any, keep, All, All-append,
  All-map, lookup, insert, lookup-insert, lookup-insert_self, length-insert_new,
}
use miniflux.Base.Int.{
  ℤ, pos, negsuc, pos_part, neg_part, sub_ℕ, ◌+ℤ◌, ◌-ℤ◌, quot, rem, ◌≤ℤ◌, ◌<ℤ◌, ltb_ℤ, leb_ℤ, eqb_ℤ,
  +ℤ_parts, -ℤ_parts, eq_of_parts, int_laws,
}

-- Weighted semaphores with acquisitions of weight 1. `grant` is the moment at which a blocked
-- Acquire returns nil; `release` is `none` where Release panics.
pub record Semaphores : Type 1 where
  pub Sem : Type 0
  pub new_weighted : ℕ → Sem
  pub try_acquire : Sem → Option Sem
  pub grant : Sem → Option Sem
  pub release : Sem → Option Sem
  -- The weight that is held, and the size.
  pub held : Sem → ℕ
  pub size : Sem → ℕ
  pub new_law : (n : ℕ) → (held (new_weighted n) ≡ 0) × (size (new_weighted n) ≡ n)
  pub try_law :
      (s t : Sem)
      → try_acquire s ≡ some t
      → (held t ≡ suc (held s)) × (size t ≡ size s) × (held s < size s)
  pub grant_law :
      (s t : Sem)
      → grant s ≡ some t
      → (held t ≡ suc (held s)) × (size t ≡ size s) × (held s < size s)
  pub release_law :
      (s : Sem)
      → 0 < held s
      → (t : Sem) × (release s ≡ some t) × (suc (held t) ≡ held s) × (size t ≡ size s)

-- hostLimit. `rate_limited` is RateLimitConfigured: the rate, a float64, is positive.
pub record HostLimit (Sem : Type 0) : Type 0 where
  pub connections : ℤ
  pub rate_limited : Bool
  pub sem : Option Sem
  pub refs : ℤ
  pub retry_after : ℕ
  pub retry_header : String
  pub released_at : ℕ

-- hostLimit.ConnectionsLimitConfigured
unfoldable pub connections_limit_configured : ℤ → Bool
connections_limit_configured n = ltb_ℤ (pos 0) n

-- Outcomes of a call that may panic.
pub data Outcome {ℓ} (A : Type ℓ) : Type ℓ where
  ok : A → Outcome A
  panic : Outcome A

module _ {Sem : Type 0} where
  -- hostLimit.IncRefs
  unfoldable pub inc_refs : HostLimit Sem → HostLimit Sem
  inc_refs h = record h { refs = h.refs +ℤ pos 1 }

  -- hostLimit.Expired at `now`
  unfoldable pub expired : ℕ → ℕ → HostLimit Sem → Bool
  expired now d h = eqb_ℤ h.refs (pos 0) && leb (h.released_at + d) now

  -- hostLimit.SetRetryAfter: the host and the instant returned.
  unfoldable pub set_retry_after : ℕ → String → HostLimit Sem → HostLimit Sem × ℕ
  set_retry_after retry_after header h =
      let h' =
        if ltb h.retry_after retry_after
        then record h { retry_after = retry_after; retry_header = header }
        else h in
      (h', h'.retry_after)

  -- hostLimit.TooManyRequests at `now`
  unfoldable pub too_many_requests : ℕ → HostLimit Sem → String × ℕ × Bool
  too_many_requests now h = (h.retry_header, h.retry_after, leb now h.retry_after)

  -- hostLimit.Release at `now`, after the semaphore
  unfoldable pub dec_refs : ℕ → HostLimit Sem → HostLimit Sem
  dec_refs now h =
      let refs = h.refs -ℤ pos 1 in
      record h { refs = refs; released_at = if eqb_ℤ refs (pos 0) then now else h.released_at }

module _ (S : Semaphores) where
  open S use {Sem, new_weighted, try_acquire, grant, release}

  -- NewHostLimit and hostLimit.init
  unfoldable pub new_host_limit : ℤ → Bool → HostLimit Sem
  unfolding connections_limit_configured
  new_host_limit n rate_limited = record {
    connections = n;
    rate_limited = rate_limited;
    sem = if connections_limit_configured n then some (new_weighted (pos_part n)) else none;
    refs = pos 0;
    retry_after = 0;
    retry_header = "";
    released_at = 0;
  }

  -- hostLimit.TryAcquire: the semaphore afterwards, `none` if it is refused.
  unfoldable pub try_acquire_host : Option Sem → Option (Option Sem)
  try_acquire_host none = some none
  try_acquire_host (some s) = elim (try_acquire s) [ none ↦ none | some t ↦ some (some t) ]

  -- hostLimit.Acquire at the moment when it returns nil.
  unfoldable pub grant_host : Option Sem → Option (Option Sem)
  grant_host none = some none
  grant_host (some s) = elim (grant s) [ none ↦ none | some t ↦ some (some t) ]

  unfoldable pub release_sem : Option Sem → Outcome (Option Sem)
  release_sem none = ok none
  release_sem (some s) = elim (release s) [ none ↦ panic | some t ↦ ok (some t) ]

  -- hostLimit.Release at `now`
  unfoldable pub release_host : ℕ → HostLimit Sem → Outcome (HostLimit Sem)
  unfolding release_sem dec_refs
  release_host now h = elim (release_sem h.sem) [
    | panic ↦ panic
    | ok sem ↦ ok (dec_refs now (record h { sem = sem }))
  ]
