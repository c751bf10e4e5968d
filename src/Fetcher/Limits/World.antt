-- ===== src/Fetcher/Limits/World.antt =====
-- The requests to one host, interleaved: Client.Do, limitHosts.Acquire, acquire, Release, SetRetryAfter
-- and Expire, and ResponseHandler.Close, as a machine whose steps are the critical sections. The table
-- has one entry, that of the host; an object that Expire has dropped stays in the memory for the
-- requests that have its address.
use miniflux.Base.{
  ℕ, suc, String, ◌≡◌, Bool, true, false, not, Option, none, some, List, [], ◌∷◌, ◌++◌,
  if◌then◌else◌, ◌==◌, nat_eq, string_eq, All,
}
use miniflux.Base.Int.{ℤ}
use miniflux.Fetcher.Limits.{
  Semaphores, HostLimit, ok, panic, inc_refs, dec_refs, expired, set_retry_after, too_many_requests,
  new_host_limit, try_acquire_host, grant_host, release_sem,
}

-- Where a request stands.
pub data Pc : Type 0 where
  -- Before the host is looked up, and after it.
  start found : Pc
  -- After the first TooManyRequests, before IncRefs.
  admitted : Pc
  -- After IncRefs, before TryAcquire.
  referenced : Pc
  -- Blocked in s.Acquire, and in rateWait.
  connection_wait rate_wait : Pc
  -- acquire has returned nil, before the second TooManyRequests.
  acquired : Pc
  -- Acquire has returned nil: the response is open.
  holding : Pc
  -- The second TooManyRequests has answered true, before sem.Release, and after it.
  turned_away rejecting : Pc
  -- In Close, after the host is looked up again, before sem.Release, and after it.
  closing dropping : Pc
  -- Closed, and rejected with ErrTooManyRequests.
  closed rejected : Pc
  -- Acquire has returned the error of s.Acquire, and of rateWait.
  connection_failed rate_failed : Pc

-- What the environment decides: a step at an instant, with the answer of the rate limiter's Allow; or
-- a wait ends with nil, or with an error.
pub data Event : Type 0 where
  go : (now : ℕ) (allow : Bool) → Event
  wait_ends wait_fails : Event

pub data Result (Sem : Type 0) : Type 0 where
  moved : Pc → HostLimit Sem → Result Sem
  disabled panicked : Result Sem

-- A request and the address of the limits that it has.
pub record Client : Type 0 where
  pub at : Pc
  pub on : ℕ

-- Between the look-up of the host and IncRefs.
abbrev pub is_between : Pc → Bool
is_between found = true
is_between admitted = true
is_between pc = false

-- The place of a request after it looks the host up: in Acquire, and in Release.
abbrev pub looked_up : Pc → Option Pc
looked_up start = some found
looked_up holding = some closing
looked_up pc = none

module _ (S : Semaphores) where
  open S use {Sem}

  -- After the connection is had: RateLimitConfigured and AllowRate.
  unfoldable pub after_connection : Bool → HostLimit Sem → Pc
  after_connection allow h =
      if not h.rate_limited then acquired else if allow then acquired else rate_wait

  -- sem.Release
  unfoldable pub give_back : Pc → HostLimit Sem → Result Sem
  unfolding release_sem
  give_back pc h = elim (release_sem S h.sem) [
    | panic ↦ panicked
    | ok sem ↦ moved pc (record h { sem = sem })
  ]

  -- A step of a request on the limits that it has.
  unfoldable pub client_step : Event → Pc → HostLimit Sem → Result Sem
  unfolding after_connection give_back
  client_step (go now allow) found h =
      if (too_many_requests now h).2 then moved rejected h else moved admitted h
  client_step (go now allow) admitted h = moved referenced (inc_refs h)
  client_step (go now allow) referenced h = elim (try_acquire_host S h.sem) [
    | none ↦ moved connection_wait h
    | some sem ↦ moved (after_connection allow h) (record h { sem = sem })
  ]
  client_step wait_ends connection_wait h = elim (grant_host S h.sem) [
    | none ↦ disabled
    | some sem ↦ moved (if h.rate_limited then rate_wait else acquired) (record h { sem = sem })
  ]
  client_step wait_fails connection_wait h = moved connection_failed h
  client_step wait_ends rate_wait h = moved acquired h
  client_step wait_fails rate_wait h = moved rate_failed h
  client_step (go now allow) acquired h =
      if (too_many_requests now h).2 then moved turned_away h else moved holding h
  client_step (go now allow) turned_away h = give_back rejecting h
  client_step (go now allow) rejecting h = moved rejected (dec_refs now h)
  client_step (go now allow) closing h = give_back dropping h
  client_step (go now allow) dropping h = moved closed (dec_refs now h)
  client_step _ _ h = disabled

  -- The limits by their addresses, the next free one, and the entry of the table.
  pub record Memory : Type 0 where
    pub objects : ℕ → HostLimit Sem
    pub free : ℕ
    pub server : Option ℕ

  pub record World : Type 0 where
    pub memory : Memory
    pub clients : List Client

  -- A write through a pointer.
  abbrev pub put : ℕ → HostLimit Sem → (ℕ → HostLimit Sem) → ℕ → HostLimit Sem
  put a h objects b = if b == a then h else objects b

  -- The configured connections, and whether a rate is configured.
  module _ (n : ℤ) (rate_limited : Bool) where
    abbrev pub new_world : World
    new_world = record {
      memory = record { objects = λ a. new_host_limit S n rate_limited; free = 0; server = none };
      clients = [];
    }

    abbrev pub or_new : Memory → Option ℕ → Memory × ℕ
    or_new m (some a) = (m, a)
    or_new m none = (
      record {
        objects = put m.free (new_host_limit S n rate_limited) m.objects;
        free = suc m.free;
        server = some m.free;
      },
      m.free,
    )

    -- limitHosts.hostLimit: the memory, and the address.
    unfoldable pub find_host : Memory → Memory × ℕ
    unfolding new_host_limit
    find_host m = or_new m m.server

    -- A request arrives, looks the host up or takes a step on its limits; SetRetryAfter looks the host
    -- up, and writes to limits; Expire drops the host.
    pub data Step (w u : World) : Type 0 where
      arrive :
          (on : ℕ)
          → u.memory ≡ w.memory
          → u.clients ≡ record { at = start; on = on } ∷ w.clients
          → Step w u
      look_up :
          (before after : List Client) (c : Client) (pc : Pc)
          → w.clients ≡ before ++ c ∷ after
          → looked_up c.at ≡ some pc
          → u.memory ≡ (find_host w.memory).0
          → u.clients ≡ before ++ record { at = pc; on = (find_host w.memory).1 } ∷ after
          → Step w u
      client :
          (before after : List Client) (ev : Event) (c : Client) (pc : Pc) (h : HostLimit Sem)
          → w.clients ≡ before ++ c ∷ after
          → client_step ev c.at (w.memory.objects c.on) ≡ moved pc h
          → u.memory ≡ (let m = w.memory in record m { objects = put c.on h m.objects })
          → u.clients ≡ before ++ record { at = pc; on = c.on } ∷ after
          → Step w u
      retry_look_up : u.memory ≡ (find_host w.memory).0 → u.clients ≡ w.clients → Step w u
      retry :
          (a retry_after : ℕ) (header : String)
          → u.memory ≡ (
              let m = w.memory in
              record m {
                objects = put a (set_retry_after retry_after header (m.objects a)).0 m.objects;
              })
          → u.clients ≡ w.clients
          → Step w u
      expire :
          (now d a : ℕ)
          → w.memory.server ≡ some a
          → expired now d (w.memory.objects a) ≡ true
          → u.memory ≡ (let m = w.memory in record m { server = none })
          → u.clients ≡ w.clients
          → Step w u

    pub data Reach (w : World) : World → Type 0 where
      here : Reach w w
      next : {u v : World} → Reach w u → Step u v → Reach w v

    -- An Expire that drops the host does not come between the look-up of a request and its IncRefs.
    abbrev pub IsQuiet : {w u : World} → Step w u → Type 0
    IsQuiet {w} (expire now d a at old memory clients) =
        All (λ c. is_between c.at ≡ false) w.clients
    IsQuiet step = Unit

    abbrev pub IsOrderly : {w u : World} → Reach w u → Type 0
    IsOrderly here = Unit
    IsOrderly (next reach step) = IsOrderly reach × IsQuiet step
