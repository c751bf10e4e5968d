-- ===== src/Fetcher/Limits/Safety/Orderly.antt =====
-- The states that the orderly runs of a host reach.
use miniflux.Base.{
  ℕ, ◌≤◌, ◌<◌, ◌≡◌, ◌≢◌, Bool, true, false, some, List, ◌∷◌, ◌++◌, nat_eq, string_eq, All,
}
use miniflux.Base.Int.{pos}
use miniflux.Fetcher.Limits.{Semaphores, expired}
use miniflux.Fetcher.Limits.World.{
  Event, panicked, client_step, Client, Memory, World, new_world, is_between, find_host, Step,
  arrive, look_up, client, retry_look_up, retry, expire, Reach, here, next, IsQuiet, IsOrderly,
}
use miniflux.Fetcher.Limits.Invariant.{refs_of, permits_of, sum_of, sum_of-zero}
use miniflux.Fetcher.Limits.Activity.{is_active, none_between}
use miniflux.Fetcher.Limits.Safety.{
  SoundAt, IsSound, expired-sum_of, find_host-SoundAt, look_up-SoundAt, client-SoundAt,
  retry-SoundAt, arrive-SoundAt, SoundAt-permits, SoundAt-ne-panicked,
}

module _ (S : Semaphores) (n : ℕ) (rate_limited : Bool) where
  open S use {Sem}

  found-IsSound :
      (m : Memory S) (clients : List Client)
      → IsSound S n m clients
      → IsSound S n (find_host S (pos n) rate_limited m).0 clients
  found-IsSound m clients h =
      let (at, sound) = find_host-SoundAt S n rate_limited m clients h in rw at sound

  expire-IsSound :
      (now d a : ℕ) (m : Memory S) (clients : List Client)
      → m.server ≡ some a
      → expired now d (m.objects a) ≡ true
      → All (λ c. is_between c.at ≡ false) clients
      → IsSound S n m clients
      → All (λ c. is_active c.at ≡ false) clients
  expire-IsSound now d a m clients at old quiet h =
      none_between clients
        (sum_of-zero refs_of clients
          (expired-sum_of S n now d a m.objects clients (rw at at h) old))
        quiet

  Step-IsSound :
      {w u : World S} (step : Step S (pos n) rate_limited w u)
      → IsQuiet S (pos n) rate_limited step
      → IsSound S n w.memory w.clients
      → IsSound S n u.memory u.clients
  Step-IsSound {w} (arrive on memory clients) quiet h =
      rw (memory, clients) (arrive-SoundAt S n w.memory.server w.memory.objects w.clients on h)
  Step-IsSound {w} (look_up before after c pc at e memory clients) quiet h =
      let (server, sound) = find_host-SoundAt S n rate_limited w.memory w.clients h in
      rw (memory, clients, server)
        (look_up-SoundAt S n (find_host S (pos n) rate_limited w.memory).1
          (find_host S (pos n) rate_limited w.memory).0.objects before after c pc e
          (rw at at sound))
  Step-IsSound {w} (client before after ev c pc h' at e memory clients) quiet h =
      rw (memory, clients)
        (client-SoundAt S n w.memory.server w.memory.objects before after ev c pc h' e (rw at at h))
  Step-IsSound {w} (retry_look_up memory clients) quiet h =
      rw (memory, clients) (found-IsSound w.memory w.clients h)
  Step-IsSound {w} (retry a t header memory clients) quiet h =
      rw (memory, clients)
        (retry-SoundAt S n w.memory.server w.memory.objects w.clients a t header h)
  Step-IsSound {w} (expire now d a at old memory clients) quiet h =
      rw (memory, clients) (expire-IsSound now d a w.memory w.clients at old quiet h)

  Reach-IsSound :
      {w u : World S} (reach : Reach S (pos n) rate_limited w u)
      → IsOrderly S (pos n) rate_limited reach
      → IsSound S n w.memory w.clients
      → IsSound S n u.memory u.clients
  Reach-IsSound here orderly h = h
  Reach-IsSound (next reach step) (orderly, quiet) h =
      Step-IsSound step quiet (Reach-IsSound reach orderly h)

  module _ (w : World S) (reach : Reach S (pos n) rate_limited (new_world S (pos n) rate_limited) w)
      (orderly : IsOrderly S (pos n) rate_limited reach) where
    pub sound : IsSound S n w.memory w.clients
    sound = Reach-IsSound reach orderly tt

    -- For the entry that the table has, in every state that a run reaches in which Expire does not
    -- drop the host between the look-up of a request and its IncRefs, the reference count is the
    -- number of requests that have taken a reference and not given it back.
    pub refs-eq :
        (a : ℕ)
        → w.memory.server ≡ some a
        → (w.memory.objects a).refs ≡ pos (sum_of refs_of w.clients)
    refs-eq a at = let h : SoundAt S n (some a) w.memory.objects w.clients = rw at at sound in h.0.0

    -- In every state that a run reaches in which Expire does not drop the host between the look-up
    -- of a request and its IncRefs, no step of a request panics, the sem.Release on the host that
    -- Close has looked up again included.
    pub client_step-ne-panicked :
        (before after : List Client) (ev : Event) (c : Client)
        → w.clients ≡ before ++ c ∷ after
        → client_step S ev c.at (w.memory.objects c.on) ≢ panicked
    client_step-ne-panicked before after ev c at =
        SoundAt-ne-panicked S n w.memory.server w.memory.objects before after c ev (rw at at sound)

    -- In every state that a run reaches in which Expire does not drop the host between the look-up
    -- of a request and its IncRefs, no more requests than configured connections hold a permit, those
    -- whose wait for the rate limiter failed included, where a limit is configured.
    pub permits-le : 0 < n → sum_of permits_of w.clients ≤ n
    permits-le limited =
        SoundAt-permits S n w.memory.server w.memory.objects w.clients limited sound

    -- In every state that a run reaches in which Expire does not drop the host between the look-up
    -- of a request and its IncRefs, an entry that has expired, which the next Expire drops, has no
    -- request that still has a reference.
    pub expired-no_refs :
        (now d a : ℕ)
        → w.memory.server ≡ some a
        → expired now d (w.memory.objects a) ≡ true
        → All (λ c. refs_of c.at ≡ 0) w.clients
    expired-no_refs now d a at old =
        sum_of-zero refs_of w.clients
          (expired-sum_of S n now d a w.memory.objects w.clients (rw at at sound) old)
