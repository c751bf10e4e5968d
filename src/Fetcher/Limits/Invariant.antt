-- ===== src/Fetcher/Limits/Invariant.antt =====
-- Every reference and every permit of a host belongs to a request that has it.
use miniflux.Base.{
  ℕ, suc, ◌+◌, ◌≤◌, ◌<◌, ◌≡◌, refl, ◌≢◌, inl, inr, Bool, Option, none, some, List, [], ◌∷◌, ◌++◌,
  arith, if◌then◌else◌, nat_eq, string_eq, Bool-cases, Option-cases, All,
}
use miniflux.Base.Int.{pos, ◌+ℤ◌, ◌-ℤ◌}
use miniflux.Fetcher.Limits.{
  Semaphores, HostLimit, ok, inc_refs, too_many_requests, try_acquire_host, grant_host, release_sem,
  dec_refs,
}
use miniflux.Fetcher.Limits.World.{
  Pc, start, found, admitted, referenced, connection_wait, rate_wait, acquired, holding,
  turned_away, rejecting, closing, dropping, closed, rejected, connection_failed, rate_failed,
  Event, go, wait_ends, wait_fails, moved, panicked, after_connection, give_back, client_step,
  Client,
}

-- Whether a request at this point holds a reference.
abbrev pub refs_of : Pc → ℕ
refs_of start = 0
refs_of found = 0
refs_of admitted = 0
refs_of closed = 0
refs_of rejected = 0
refs_of _ = 1

-- Whether it holds a permit of the semaphore.
abbrev pub permits_of : Pc → ℕ
permits_of rate_wait = 1
permits_of acquired = 1
permits_of holding = 1
permits_of turned_away = 1
permits_of closing = 1
permits_of rate_failed = 1
permits_of _ = 0

abbrev pub sum_of : (Pc → ℕ) → List Client → ℕ
sum_of f [] = 0
sum_of f (c ∷ clients) = f c.at + sum_of f clients

sum_of-append : (f : Pc → ℕ) (xs ys : List Client) → sum_of f (xs ++ ys) ≡ sum_of f xs + sum_of f ys
sum_of-append f [] ys = omega arith
sum_of-append f (x ∷ xs) ys = omega (arith, sum_of-append f xs ys)

-- One element out of a sum.
pub sum_of-at :
    (f : Pc → ℕ) (before after : List Client) (c : Client)
    → sum_of f (before ++ c ∷ after) ≡ f c.at + (sum_of f before + sum_of f after)
sum_of-at f before after c = omega (arith, sum_of-append f before (c ∷ after))

pub sum_of-zero :
    (f : Pc → ℕ) (clients : List Client) → sum_of f clients ≡ 0 → All (λ c. f c.at ≡ 0) clients
sum_of-zero f [] e = tt
sum_of-zero f (c ∷ clients) e = (omega arith, sum_of-zero f clients (omega arith))

module _ (S : Semaphores) (n : ℕ) where
  open S use {
    Sem, new_weighted, try_acquire, grant, release, held, size, new_law, try_law, grant_law,
    release_law,
  }

  -- A semaphore of size n with k permits taken; or no semaphore, if no limit is configured.
  abbrev pub Holds : Option Sem → ℕ → Type 0
  Holds none k = n ≡ 0
  Holds (some s) k = (held s ≡ k) × (size s ≡ n) × (k ≤ n)

  abbrev pub Balance : HostLimit Sem → ℕ → ℕ → Type 0
  Balance h r p = (h.refs ≡ pos r) × Holds h.sem p

  try_acquire_host-Holds :
      (s t : Option Sem) (k : ℕ) → try_acquire_host S s ≡ some t → Holds s k → Holds t (suc k)
  unfolding try_acquire_host
  try_acquire_host-Holds none t k e h = let e' : t ≡ none = ground arith in rw e' h
  try_acquire_host-Holds (some s) t k e h = elim (Option-cases (try_acquire s)) [
    | inl refused ↦ absurd (ground arith)
    | inr (u, got) ↦
        let e' : t ≡ some u = ground arith in
        let (more, same, room) = try_law s u got in rw e' (omega arith, omega arith, omega arith)
  ]

  grant_host-Holds :
      (s t : Option Sem) (k : ℕ) → grant_host S s ≡ some t → Holds s k → Holds t (suc k)
  unfolding grant_host
  grant_host-Holds none t k e h = let e' : t ≡ none = ground arith in rw e' h
  grant_host-Holds (some s) t k e h = elim (Option-cases (grant s)) [
    | inl refused ↦ absurd (ground arith)
    | inr (u, got) ↦
        let e' : t ≡ some u = ground arith in
        let (more, same, room) = grant_law s u got in rw e' (omega arith, omega arith, omega arith)
  ]

  release_sem-Holds :
      (s : Option Sem) (k : ℕ)
      → Holds s (suc k)
      → (t : Option Sem) × (release_sem S s ≡ ok t) × Holds t k
  unfolding release_sem
  release_sem-Holds none k h = (none, refl, h)
  release_sem-Holds (some s) k h =
      let (t, e, less, same) = release_law s (omega arith) in
      (some t, rw (e, release_sem), (omega arith, omega arith, omega arith))

  after_connection_one :
      (allow : Bool) (h : HostLimit Sem)
      → (refs_of (after_connection S allow h) ≡ 1) × (permits_of (after_connection S allow h) ≡ 1)
  unfolding after_connection
  after_connection_one allow h = ground arith

  module _ (r p : ℕ) where
    inc_refs-refs : (h : HostLimit Sem) → h.refs ≡ pos (0 + r) → (inc_refs h).refs ≡ pos (1 + r)
    unfolding inc_refs ◌+ℤ◌
    inc_refs-refs h e = rw e (ground arith)

    transfer :
        (a b : Pc) (h k : HostLimit Sem)
        → moved a h ≡ moved b k
        → Balance h (refs_of a + r) (permits_of a + p)
        → Balance k (refs_of b + r) (permits_of b + p)
    transfer a b h k e bal = let e₁ : a ≡ b = cc in let e₂ : h ≡ k = cc in rw (← e₁, ← e₂) bal

    -- A request that gets its connection.
    take_connection :
        (pc pc' : Pc) (h h' : HostLimit Sem) (sem : Option Sem)
        → refs_of pc ≡ 1
        → permits_of pc ≡ 1
        → moved pc (record h { sem = sem }) ≡ moved pc' h'
        → h.refs ≡ pos (1 + r)
        → Holds sem (suc p)
        → Balance h' (refs_of pc' + r) (permits_of pc' + p)
    take_connection pc pc' h h' sem one_ref one_permit e refs holds =
        transfer pc pc' (record h { sem = sem }) h' e
          (rw (one_ref, one_permit) (refs, let q : 1 + p ≡ suc p = omega arith in rw q holds))

    give_back-Balance :
        (pc pc' : Pc) (h h' : HostLimit Sem)
        → refs_of pc ≡ 1
        → permits_of pc ≡ 0
        → give_back S pc h ≡ moved pc' h'
        → Balance h (1 + r) (1 + p)
        → Balance h' (refs_of pc' + r) (permits_of pc' + p)
    unfolding give_back
    give_back-Balance pc pc' h h' one_ref no_permit e (refs, holds) =
        let one_p : 1 + p ≡ suc p = omega arith in
        let no_p : 0 + p ≡ p = omega arith in
        let (t, released, bal) = release_sem-Holds h.sem p (rw one_p at holds) in
        transfer pc pc' (record h { sem = t }) h' (rw (released, give_back) at e)
          (rw (one_ref, no_permit, no_p) (refs, bal))

    give_back-ne-panicked :
        (pc : Pc) (h : HostLimit Sem) → Holds h.sem (1 + p) → give_back S pc h ≢ panicked
    unfolding give_back
    give_back-ne-panicked pc h holds e =
        let one_p : 1 + p ≡ suc p = omega arith in
        let (t, released, bal) = release_sem-Holds h.sem p (rw one_p at holds) in
        let e' = rw (released, give_back) at e in cc

    dec_refs-Balance :
        (now : ℕ) (pc pc' : Pc) (h h' : HostLimit Sem)
        → refs_of pc ≡ 0
        → permits_of pc ≡ 0
        → moved pc (dec_refs now h) ≡ moved pc' h'
        → Balance h (1 + r) (0 + p)
        → Balance h' (refs_of pc' + r) (permits_of pc' + p)
    unfolding dec_refs ◌-ℤ◌
    dec_refs-Balance now pc pc' h h' no_ref no_permit e (refs, holds) =
        transfer pc pc' (dec_refs now h) h' e
          (rw (no_ref, no_permit) (rw refs (ground arith), holds))

    pub client_step-Balance :
        (ev : Event) (pc pc' : Pc) (h h' : HostLimit Sem)
        → client_step S ev pc h ≡ moved pc' h'
        → Balance h (refs_of pc + r) (permits_of pc + p)
        → Balance h' (refs_of pc' + r) (permits_of pc' + p)
    unfolding client_step
    client_step-Balance (go now allow) found pc' h h' e bal =
        elim (Bool-cases (too_many_requests now h).2) [
          | inl many ↦ transfer rejected pc' h h' (rw many at e) bal
          | inr few ↦ transfer admitted pc' h h' (rw few at e) bal
        ]
    client_step-Balance (go now allow) admitted pc' h h' e (refs, holds) =
        transfer referenced pc' (inc_refs h) h' e (inc_refs-refs h refs, unfold inc_refs in holds)
    client_step-Balance (go now allow) referenced pc' h h' e (refs, holds) =
        elim (Option-cases (try_acquire_host S h.sem)) [
          | inl refused ↦
              transfer connection_wait pc' h h' (rw (refused, client_step) at e) (refs, holds)
          | inr (sem, got) ↦
              let (one_ref, one_permit) = after_connection_one allow h in
              take_connection (after_connection S allow h) pc' h h' sem one_ref one_permit
                (rw (got, client_step) at e) refs
                (try_acquire_host-Holds h.sem sem p got
                  (let q : 0 + p ≡ p = omega arith in rw q at holds))
        ]
    client_step-Balance wait_ends connection_wait pc' h h' e (refs, holds) =
        elim (Option-cases (grant_host S h.sem)) [
          | inl refused ↦ absurd (let e' = rw (refused, client_step) at e in cc)
          | inr (sem, got) ↦
              let pc : Pc = if h.rate_limited then rate_wait else acquired in
              take_connection pc pc' h h' sem (ground arith) (ground arith)
                (rw (got, client_step) at e) refs
                (grant_host-Holds h.sem sem p got
                  (let q : 0 + p ≡ p = omega arith in rw q at holds))
        ]
    client_step-Balance wait_fails connection_wait pc' h h' e bal =
        transfer connection_failed pc' h h' e bal
    client_step-Balance wait_ends rate_wait pc' h h' e bal = transfer acquired pc' h h' e bal
    client_step-Balance wait_fails rate_wait pc' h h' e bal = transfer rate_failed pc' h h' e bal
    client_step-Balance (go now allow) acquired pc' h h' e bal =
        elim (Bool-cases (too_many_requests now h).2) [
          | inl many ↦ transfer turned_away pc' h h' (rw many at e) bal
          | inr few ↦ transfer holding pc' h h' (rw few at e) bal
        ]
    client_step-Balance (go now allow) turned_away pc' h h' e bal =
        give_back-Balance rejecting pc' h h' refl refl e bal
    client_step-Balance (go now allow) closing pc' h h' e bal =
        give_back-Balance dropping pc' h h' refl refl e bal
    client_step-Balance (go now allow) rejecting pc' h h' e bal =
        dec_refs-Balance now rejected pc' h h' refl refl e bal
    client_step-Balance (go now allow) dropping pc' h h' e bal =
        dec_refs-Balance now closed pc' h h' refl refl e bal
    client_step-Balance _ _ pc' h h' e bal = cc

    pub step-ne-panicked :
        (ev : Event) (pc : Pc) (h : HostLimit Sem)
        → Balance h (refs_of pc + r) (permits_of pc + p)
        → client_step S ev pc h ≢ panicked
    unfolding client_step
    step-ne-panicked (go now allow) found h bal e = ground arith
    step-ne-panicked (go now allow) referenced h bal e = ground arith
    step-ne-panicked wait_ends connection_wait h bal e = ground arith
    step-ne-panicked (go now allow) acquired h bal e = ground arith
    step-ne-panicked (go now allow) turned_away h bal e = give_back-ne-panicked rejecting h bal.1 e
    step-ne-panicked (go now allow) closing h bal e = give_back-ne-panicked dropping h bal.1 e
    step-ne-panicked wait_fails connection_wait h bal e = cc
    step-ne-panicked _ _ h bal e = cc

  pub Holds-le : (s : Option Sem) (k : ℕ) → 0 < n → Holds s k → k ≤ n
  Holds-le none k limited h = absurd (omega arith)
  Holds-le (some s) k limited h = h.2
