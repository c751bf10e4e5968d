-- ===== src/Fetcher/Limits/Leaks.antt =====
-- A wait that fails keeps its reference, and after the semaphore its permit too, for ever.
use miniflux.Base.{
  ℕ, ◌+◌, ◌≤◌, ◌<◌, ◌≡◌, ◌≢◌, inl, inr, Bool, false, some, List, [], ◌∷◌, arith, nat_eq, string_eq,
  Bool-cases, All, All-map,
}
use miniflux.Base.Int.{ℤ, pos}
use miniflux.Fetcher.Limits.{Semaphores, HostLimit, expired}
use miniflux.Fetcher.Limits.World.{
  Pc, closing, turned_away, rate_wait, acquired, holding, connection_failed, rate_failed, Event, go,
  wait_ends, wait_fails, moved, client_step, looked_up, Client, World, new_world, find_host, Step,
  arrive, look_up, client, retry_look_up, retry, expire, Reach, here, next, IsOrderly,
}
use miniflux.Fetcher.Limits.Invariant.{refs_of, permits_of, sum_of, sum_of-at, sum_of-zero}
use miniflux.Fetcher.Limits.Safety.{expired-sum_of, SoundAt-server}
use miniflux.Fetcher.Limits.Safety.Orderly.{sound, permits-le}

-- Acquire has returned the error of a wait.
abbrev pub failed_of : Pc → ℕ
failed_of connection_failed = 1
failed_of rate_failed = 1
failed_of _ = 0

-- The error is that of the wait for the rate limiter.
abbrev pub rate_failed_of : Pc → ℕ
rate_failed_of rate_failed = 1
rate_failed_of _ = 0

-- A permit that a later Release will give back.
abbrev pub live_permits_of : Pc → ℕ
live_permits_of rate_wait = 1
live_permits_of acquired = 1
live_permits_of holding = 1
live_permits_of turned_away = 1
live_permits_of closing = 1
live_permits_of _ = 0

module _ (S : Semaphores) where
  open S use {Sem}

  -- A count that no step of a request lowers.
  abbrev IsKept : (Pc → ℕ) → Type 0
  IsKept f =
      (ev : Event) (pc pc' : Pc) (h h' : HostLimit Sem)
      → client_step S ev pc h ≡ moved pc' h'
      → f pc ≤ f pc'

  -- A count that no look-up lowers.
  abbrev IsKeptByLookup : (Pc → ℕ) → Type 0
  IsKeptByLookup f = (pc pc' : Pc) → looked_up pc ≡ some pc' → f pc ≤ f pc'

  failed_of-IsKeptByLookup : IsKeptByLookup failed_of
  failed_of-IsKeptByLookup pc pc' h = ground arith

  rate_failed_of-IsKeptByLookup : IsKeptByLookup rate_failed_of
  rate_failed_of-IsKeptByLookup pc pc' h = ground arith

  failed_of-IsKept : IsKept failed_of
  unfolding client_step
  failed_of-IsKept (go now allow) connection_failed pc' h h' e = cc
  failed_of-IsKept (go now allow) rate_failed pc' h h' e = cc
  failed_of-IsKept wait_ends connection_failed pc' h h' e = cc
  failed_of-IsKept wait_ends rate_failed pc' h h' e = cc
  failed_of-IsKept wait_fails connection_failed pc' h h' e = cc
  failed_of-IsKept wait_fails rate_failed pc' h h' e = cc
  failed_of-IsKept _ _ pc' h h' e = omega arith

  rate_failed_of-IsKept : IsKept rate_failed_of
  unfolding client_step
  rate_failed_of-IsKept (go now allow) rate_failed pc' h h' e = cc
  rate_failed_of-IsKept wait_ends rate_failed pc' h h' e = cc
  rate_failed_of-IsKept wait_fails rate_failed pc' h h' e = cc
  rate_failed_of-IsKept _ _ pc' h h' e = omega arith

  module _ (n : ℤ) (rate_limited : Bool) (f : Pc → ℕ) (kept : IsKept f)
      (kept_by_lookup : IsKeptByLookup f) where
    Step-le : {w u : World S} → Step S n rate_limited w u → sum_of f w.clients ≤ sum_of f u.clients
    Step-le (arrive on memory more) = rw more (omega arith)
    Step-le {w} (look_up before after c pc at e memory at') =
        let on = (find_host S n rate_limited w.memory).1 in
        rw (at, at')
          (omega (
            arith,
            sum_of-at f before after c,
            sum_of-at f before after (record { at = pc; on = on }),
            kept_by_lookup c.at pc e,
          ))
    Step-le {w} (client before after ev c pc h at e memory at') =
        rw (at, at')
          (omega (
            arith,
            sum_of-at f before after c,
            sum_of-at f before after (record { at = pc; on = c.on }),
            kept ev c.at pc (w.memory.objects c.on) h e,
          ))
    Step-le (retry_look_up memory clients) = rw clients (omega arith)
    Step-le (retry a t header memory clients) = rw clients (omega arith)
    Step-le (expire now d a at old memory clients) = rw clients (omega arith)

    Reach-le :
        {w u : World S} → Reach S n rate_limited w u → sum_of f w.clients ≤ sum_of f u.clients
    Reach-le here = omega arith
    Reach-le (next reach step) = omega (arith, Reach-le reach, Step-le step)

-- Every failed wait still has its reference.
failed_of-le : (pc : Pc) → failed_of pc ≤ refs_of pc
failed_of-le pc = ground arith

failed-le-refs : (clients : List Client) → sum_of failed_of clients ≤ sum_of refs_of clients
failed-le-refs [] = omega arith
failed-le-refs (c ∷ clients) = omega (arith, failed_of-le c.at, failed-le-refs clients)

permits_of-eq : (pc : Pc) → permits_of pc ≡ live_permits_of pc + rate_failed_of pc
permits_of-eq pc = ground arith

permits-eq :
    (clients : List Client)
    → sum_of permits_of clients ≡ sum_of live_permits_of clients + sum_of rate_failed_of clients
permits-eq [] = omega arith
permits-eq (c ∷ clients) = omega (arith, permits_of-eq c.at, permits-eq clients)

not-holding : (pc : Pc) → live_permits_of pc ≡ 0 → pc ≢ holding
not-holding pc e h = ground arith

module _ (S : Semaphores) (n : ℕ) (rate_limited : Bool) where
  abbrev Run : World S → World S → Type 0
  Run = Reach S (pos n) rate_limited

  abbrev Orderly : {w u : World S} → Run w u → Type 0
  Orderly reach = IsOrderly S (pos n) rate_limited reach

  abbrev run_on : {u v w : World S} → Run u v → Run v w → Run u w
  run_on r here = r
  run_on r (next s step) = next (run_on r s) step

  run_on-IsOrderly :
      {u v w : World S} (r : Run u v) (s : Run v w) → Orderly r → Orderly s → Orderly (run_on r s)
  run_on-IsOrderly r here h k = h
  run_on-IsOrderly r (next s step) h (k, quiet) = (run_on-IsOrderly r s h k, quiet)

  module _ (w v : World S) (reach : Run (new_world S (pos n) rate_limited) w) (later : Run w v)
      (orderly : Orderly reach) (still_orderly : Orderly later) where
    -- In a run in which Expire does not drop the host between the look-up of a request and its
    -- IncRefs: once a wait of a request for the host has failed, the table has an entry for the host
    -- at every later moment, of which Expired answers false, so that it is never dropped.
    pub failed-not-expired :
        0 < sum_of failed_of w.clients
        → (a : ℕ) × (v.memory.server ≡ some a)
          × ((now d : ℕ) → expired now d (v.memory.objects a) ≡ false)
    failed-not-expired failed =
        let all = run_on reach later in
        let h = sound S n rate_limited v all (run_on-IsOrderly reach later orderly still_orderly) in
        let stay : sum_of failed_of w.clients ≤ sum_of failed_of v.clients =
          Reach-le S (pos n) rate_limited failed_of (failed_of-IsKept S)
            (failed_of-IsKeptByLookup S) later in
        let some_ref : 0 < sum_of refs_of v.clients = omega (arith, failed-le-refs v.clients) in
        let (a, at) = SoundAt-server S n v.memory.server v.memory.objects v.clients some_ref h in
        (
          a,
          at,
          λ now d. elim (Bool-cases (expired now d (v.memory.objects a))) [
            | inr still ↦ still
            | inl gone ↦
                let none_left =
                  expired-sum_of S n now d a v.memory.objects v.clients (rw at at h) gone in
                absurd (omega arith)
          ],
        )

    -- In a run in which Expire does not drop the host between the look-up of a request and its
    -- IncRefs: once as many waits for the rate limiter have failed as the host may have connections,
    -- no request for the host ever holds a connection again.
    pub rate_failed-exhausts :
        0 < n → n ≤ sum_of rate_failed_of w.clients → All (λ c. c.at ≢ holding) v.clients
    rate_failed-exhausts limited all_lost =
        let all =
          permits-le S n rate_limited v (run_on reach later)
            (run_on-IsOrderly reach later orderly still_orderly) limited in
        let lost =
          Reach-le S (pos n) rate_limited rate_failed_of (rate_failed_of-IsKept S)
            (rate_failed_of-IsKeptByLookup S) later in
        All-map (λ c. not-holding c.at) v.clients
          (sum_of-zero live_permits_of v.clients (omega (arith, permits-eq v.clients)))
