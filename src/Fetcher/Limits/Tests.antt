-- ===== src/Fetcher/Limits/Tests.antt =====
-- Runs of a host, and its theorems at them.
use miniflux.Base.{
  ℕ, ◌≤◌, ◌≡◌, refl, ◌≢◌, true, false, some, List, [], ◌∷◌, arith, nat_eq, string_eq, All,
}
use miniflux.Base.Int.{pos, ◌+ℤ◌, ◌-ℤ◌}
use miniflux.Fetcher.Limits.{
  HostLimit, expired, too_many_requests, new_host_limit, inc_refs, dec_refs, try_acquire_host,
  release_sem,
}
use miniflux.Fetcher.Limits.Counters.{Counter, take, give, counters}
use miniflux.Fetcher.Limits.World.{
  Pc, start, found, admitted, referenced, rate_wait, acquired, holding, closing, dropping, closed,
  rate_failed, Event, go, wait_ends, wait_fails, moved, panicked, give_back, client_step, World,
  put, new_world, find_host, arrive, look_up, client, Reach, here, next, IsOrderly,
}
use miniflux.Fetcher.Limits.Invariant.{refs_of, permits_of, sum_of}
use miniflux.Fetcher.Limits.Safety.Orderly.{
  refs-eq, client_step-ne-panicked, permits-le, expired-no_refs,
}
use miniflux.Fetcher.Limits.Leaks.{failed-not-expired, rate_failed-exhausts}

-- One request to a host with one connection and a rate limit.
abbrev host_with : ℕ → ℕ → HostLimit Counter
host_with refs taken = record {
  connections = pos 1;
  rate_limited = true;
  sem = some (record { taken = taken; bound = 1 });
  refs = pos refs;
  retry_after = 0;
  retry_header = "";
  released_at = 0;
}

-- The memory after writes to the address 0, the last one first.
abbrev written : List (HostLimit Counter) → ℕ → HostLimit Counter
written [] =
    put counters 0 (new_host_limit counters (pos 1) true)
      (λ a. new_host_limit counters (pos 1) true)
written (h ∷ hosts) = put counters 0 h (written hosts)

abbrev point : Pc → List (HostLimit Counter) → World counters
point pc hosts = record {
  memory = record { objects = written hosts; free = 1; server = some 0 };
  clients = record { at = pc; on = 0 } ∷ [];
}

abbrev Reached : World counters → Type 0
Reached w =
    (reach : Reach counters (pos 1) true (new_world counters (pos 1) true) w) × IsOrderly counters
      (pos 1) true reach

extend :
    (ev : Event) (pc pc' : Pc) (h : HostLimit Counter) (hosts : List (HostLimit Counter))
    → client_step counters ev pc (written hosts 0) ≡ moved pc' h
    → Reached (point pc hosts)
    → Reached (point pc' (h ∷ hosts))
extend ev pc pc' h hosts e (reach, orderly) = (
  next reach (client [] [] ev (record { at = pc; on = 0 }) pc' h refl e refl refl),
  (orderly, tt),
)

Reached-found : Reached (point found [])
unfolding find_host
Reached-found = (
  next (next here (arrive 0 refl refl))
      (look_up [] [] (record { at = start; on = 0 }) found refl refl refl refl),
  ((tt, tt), tt),
)

abbrev counted : List (HostLimit Counter)
counted = host_with 1 0 ∷ host_with 0 0 ∷ []

abbrev waiting : List (HostLimit Counter)
waiting = host_with 1 1 ∷ counted

Reached-rate_wait : Reached (point rate_wait waiting)
unfolding new_host_limit client_step too_many_requests inc_refs try_acquire_host take ◌+ℤ◌
Reached-rate_wait = extend (go 9 false) referenced rate_wait (host_with 1 1) counted refl (
    extend (go 9 true) admitted referenced (host_with 1 0) (host_with 0 0 ∷ []) refl
      (extend (go 9 true) found admitted (host_with 0 0) [] refl Reached-found))

abbrev given_up : List (HostLimit Counter)
given_up = host_with 1 1 ∷ waiting

Reached-rate_failed : Reached (point rate_failed given_up)
unfolding client_step
Reached-rate_failed =
    extend wait_fails rate_wait rate_failed (host_with 1 1) waiting refl Reached-rate_wait

abbrev held : List (HostLimit Counter)
held = host_with 1 1 ∷ given_up

Reached-holding : Reached (point holding held)
unfolding client_step too_many_requests
Reached-holding =
    extend (go 9 true) acquired holding (host_with 1 1) given_up refl
      (extend wait_ends rate_wait acquired (host_with 1 1) waiting refl Reached-rate_wait)

Reached-closing : Reached (point closing held)
unfolding find_host
Reached-closing =
    let (reach, orderly) = Reached-holding in
    (
      next reach (look_up [] [] (record { at = holding; on = 0 }) closing refl refl refl refl),
      (orderly, tt),
    )

abbrev idle : HostLimit Counter
idle = let h = host_with 0 0 in record h { released_at = 9 }

abbrev released : List (HostLimit Counter)
released = idle ∷ host_with 1 0 ∷ held

Reached-closed : Reached (point closed released)
unfolding client_step give_back release_sem give dec_refs ◌-ℤ◌
Reached-closed =
    extend (go 9 true) dropping closed idle (host_with 1 0 ∷ held) refl
      (extend (go 9 true) closing dropping (host_with 1 0) held refl Reached-closing)

expired-no_refs_example : All (λ c. refs_of c.at ≡ 0) (point closed released).clients
unfolding expired
expired-no_refs_example =
    expired-no_refs counters 1 true (point closed released) Reached-closed.0 Reached-closed.1 20 5 0
      refl refl

refs-eq_example : pos 1 ≡ pos (sum_of refs_of (point closing held).clients)
refs-eq_example =
    refs-eq counters 1 true (point closing held) Reached-closing.0 Reached-closing.1 0 refl

client_step-ne-panicked_example :
    client_step counters (go 9 true) closing (host_with 1 1) ≢ panicked
client_step-ne-panicked_example =
    client_step-ne-panicked counters 1 true (point closing held) Reached-closing.0 Reached-closing.1
      [] [] (go 9 true) (record { at = closing; on = 0 }) refl

permits-le_example : sum_of permits_of (point holding held).clients ≤ 1
permits-le_example =
    permits-le counters 1 true (point holding held) Reached-holding.0 Reached-holding.1
      (omega arith)

failed-not-expired_example :
    (a : ℕ) × (some 0 ≡ some a) × ((now d : ℕ) → expired now d (written given_up a) ≡ false)
failed-not-expired_example =
    failed-not-expired counters 1 true (point rate_failed given_up) (point rate_failed given_up)
      Reached-rate_failed.0 here Reached-rate_failed.1 tt (omega arith)

rate_failed-exhausts_example : All (λ c. c.at ≢ holding) (point rate_failed given_up).clients
rate_failed-exhausts_example =
    rate_failed-exhausts counters 1 true (point rate_failed given_up) (point rate_failed given_up)
      Reached-rate_failed.0 here Reached-rate_failed.1 tt (omega arith) (omega arith)
