-- ===== src/Fetcher/Hosts/InUse.antt =====
-- The host of a request in flight stays where it is.
use miniflux.Base.{
  ℕ, zero, suc, String, ◌≡◌, refl, sym, ap, ◌∙◌, ◌≢◌, ◌⊎◌, inl, inr, Bool, true, false, not, Option,
  none, some, List, [], ◌∷◌, ◌++◌, arith, ltb, ◌==◌, nat_eq, string_eq, Bool-cases, Option-cases,
  eq_of_beq, length, get_elem?, keep, lookup, insert, lookup-insert,
}
use miniflux.Base.Int.{ℤ, pos, eqb_ℤ, eq_of_parts}
use miniflux.Fetcher.Limits.{Semaphores, HostLimit, expired, set_retry_after}
use miniflux.Fetcher.Hosts.{
  LimitHosts, write_at, is_expired, expire, host_limit, retry_found, set_retry,
}

module _ (S : Semaphores) (limits_of : String → ℤ × Bool) where
  open S use {Sem}

  -- What other requests and the scheduler do to the table.
  pub data Call : Type 0 where
    find : String → Call
    expire_at : (now d : ℕ) → Call
    retry : (retry_after : ℕ) (header hostname : String) → Call

  unfoldable pub call : Call → LimitHosts S → LimitHosts S
  call (find hostname) hosts = (host_limit S limits_of hostname hosts).0
  call (expire_at now d) hosts = expire S now d hosts
  call (retry at header hostname) hosts = set_retry S limits_of at header hostname hosts

  -- The table has the host at the address, where a request holds a reference.
  abbrev pub InUse : String → ℕ → LimitHosts S → Type 0
  InUse hostname a hosts =
      (lookup hostname hosts.servers ≡ some a)
      × ((h : HostLimit Sem) × (get_elem? hosts.heap a ≡ some h) × (h.refs ≢ pos 0))

  kept_entry :
      (test : String × ℕ → Bool) (hostname : String) (a : ℕ) (servers : List (String × ℕ))
      → ((name : String) → test (name, a) ≡ true)
      → lookup hostname servers ≡ some a
      → lookup hostname (keep test servers) ≡ some a
  unfolding lookup
  kept_entry test hostname a [] keeps h = absurd (cc)
  kept_entry test hostname a ((name, b) ∷ servers) keeps h = elim (Bool-cases (name == hostname)) [
    | inl same ↦
        (let found : b ≡ a = ground arith in
          let kept : test (name, b) ≡ true = ap (λ x. test (name, x)) found ∙ keeps name in
          rw (kept, same) (ap some found))
    | inr other ↦
        (let rest = kept_entry test hostname a servers keeps (ground arith) in
          elim (Bool-cases (test (name, b))) [
            | inl kept ↦ rw (kept, other) rest
            | inr dropped ↦ rw dropped rest
          ])
  ]

  not_expired : (now d : ℕ) (h : HostLimit Sem) → h.refs ≢ pos 0 → expired now d h ≡ false
  unfolding expired
  not_expired now d h used = elim (Bool-cases (eqb_ℤ h.refs (pos 0))) [
    | inl zero_refs ↦ absurd (used (eq_of_parts h.refs (pos 0) (ground arith)))
    | inr positive ↦ rw positive refl
  ]

  found_later :
      (heap : List (HostLimit Sem)) (a : ℕ) (h new : HostLimit Sem)
      → get_elem? heap a ≡ some h
      → get_elem? (heap ++ new ∷ []) a ≡ some h
  found_later [] a h new q = absurd (cc)
  found_later (g ∷ heap) zero h new q = q
  found_later (g ∷ heap) (suc a) h new q = found_later heap a h new q

  stays :
      (now d a : ℕ) (h : HostLimit Sem) (hosts : LimitHosts S)
      → get_elem? hosts.heap a ≡ some h
      → h.refs ≢ pos 0
      → not (is_expired S now d (get_elem? hosts.heap a)) ≡ true
  stays now d a h hosts at used = rw (at, not_expired now d h used) refl

  expire-InUse :
      (now d : ℕ) (hostname : String) (a : ℕ) (hosts : LimitHosts S)
      → InUse hostname a hosts
      → InUse hostname a (expire S now d hosts)
  unfolding expire
  expire-InUse now d hostname a hosts (entry, (h, at, used)) = (
    kept_entry (λ e. not (is_expired S now d (get_elem? hosts.heap e.1))) hostname a hosts.servers
        (λ name. stays now d a h hosts at used) entry,
    (h, at, used),
  )

  new_entry :
      (asked hostname : String) (b a : ℕ) (servers : List (String × ℕ))
      → lookup asked servers ≡ none
      → lookup hostname servers ≡ some a
      → lookup hostname (insert asked b servers) ≡ some a
  new_entry asked hostname b a servers new entry =
      rw (lookup-insert asked hostname b servers) (elim (Bool-cases (asked == hostname)) [
        | inl same ↦
            (let clash =
                sym new ∙ ap (λ x. lookup x servers) (eq_of_beq asked hostname same) ∙ entry in
              absurd (cc))
        | inr other ↦ rw other entry
      ])

  find-InUse :
      (asked hostname : String) (a : ℕ) (hosts : LimitHosts S)
      → InUse hostname a hosts
      → InUse hostname a (host_limit S limits_of asked hosts).0
  unfolding host_limit
  find-InUse asked hostname a hosts (entry, (h, at, used)) =
      elim (Option-cases (lookup asked hosts.servers)) [
        | inl new ↦ rw new (
          new_entry asked hostname (length hosts.heap) a hosts.servers new entry,
          (h, found_later hosts.heap a h _ at, used),
        )
        | inr (b, known) ↦ rw known (entry, (h, at, used))
      ]

  -- A write at an address is seen there, and nowhere else.
  after_write :
      (heap : List (HostLimit Sem)) (b a : ℕ) (g h : HostLimit Sem)
      → get_elem? heap a ≡ some h
      → (get_elem? (write_at S b g heap) a ≡ some h)
        ⊎ ((b ≡ a) × (get_elem? (write_at S b g heap) a ≡ some g))
  after_write [] b a g h q = absurd (cc)
  after_write (f ∷ heap) zero zero g h q = inr (refl, refl)
  after_write (f ∷ heap) zero (suc a) g h q = inl q
  after_write (f ∷ heap) (suc b) zero g h q = inl q
  after_write (f ∷ heap) (suc b) (suc a) g h q = elim (after_write heap b a g h q) [
    | inl other ↦ inl other
    | inr (same, there) ↦ inr (ap suc same, there)
  ]

  same_refs :
      (at : ℕ) (header : String) (h : HostLimit Sem) → (set_retry_after at header h).0.refs ≡ h.refs
  unfolding set_retry_after
  same_refs at header h = elim (Bool-cases (ltb h.retry_after at)) [
    | inl q ↦ rw q refl
    | inr q ↦ rw q refl
  ]

  retry_found-InUse :
      (time : ℕ) (header : String) (b : ℕ) (hostname : String) (a : ℕ) (hosts : LimitHosts S)
      (found : Option (HostLimit Sem))
      → get_elem? hosts.heap b ≡ found
      → InUse hostname a hosts
      → InUse hostname a (retry_found S limits_of time header b hosts found)
  retry_found-InUse time header b hostname a hosts none q in_use = in_use
  retry_found-InUse time header b hostname a hosts (some g) q (entry, (h, at, used)) =
      elim (after_write hosts.heap b a (set_retry_after time header g).0 h at) [
        | inl other ↦ (entry, (h, other, used))
        | inr (same, there) ↦
            (let it : some g ≡ some h = sym q ∙ ap (get_elem? hosts.heap) same ∙ at in
              let refs : (set_retry_after time header g).0.refs ≡ h.refs =
                same_refs time header g ∙ ap (λ o. elim o [ none ↦ h.refs | some x ↦ x.refs ]) it in
              (entry, ((set_retry_after time header g).0, there, λ z. used (sym refs ∙ z))))
      ]

  retry-InUse :
      (time : ℕ) (header asked hostname : String) (a : ℕ) (hosts : LimitHosts S)
      → InUse hostname a hosts
      → InUse hostname a (set_retry S limits_of time header asked hosts)
  unfolding set_retry
  retry-InUse time header asked hostname a hosts in_use =
      let (hosts', b) = host_limit S limits_of asked hosts in
      retry_found-InUse time header b hostname a hosts' (get_elem? hosts'.heap b) refl
        (find-InUse asked hostname a hosts in_use)

  call-InUse :
      (c : Call) (hostname : String) (a : ℕ) (hosts : LimitHosts S)
      → InUse hostname a hosts
      → InUse hostname a (call c hosts)
  unfolding call
  call-InUse (find asked) hostname a hosts h = find-InUse asked hostname a hosts h
  call-InUse (expire_at now d) hostname a hosts h = expire-InUse now d hostname a hosts h
  call-InUse (retry time header asked) hostname a hosts h =
      retry-InUse time header asked hostname a hosts h

  unfoldable pub calls : List Call → LimitHosts S → LimitHosts S
  unfolding call
  calls [] hosts = hosts
  calls (c ∷ cs) hosts = calls cs (call c hosts)

  calls-InUse :
      (cs : List Call) (hostname : String) (a : ℕ) (hosts : LimitHosts S)
      → InUse hostname a hosts
      → InUse hostname a (calls cs hosts)
  unfolding calls
  calls-InUse [] hostname a hosts h = h
  calls-InUse (c ∷ cs) hostname a hosts h =
      calls-InUse cs hostname a (call c hosts) (call-InUse c hostname a hosts h)

  -- While a request holds a reference to the limits of a host that the table has, other requests may
  -- look up hosts, set their Retry-After, and the scheduler may expire hosts, in any order: the table
  -- goes on to give the same address for the host, so the release of the request finds the limits
  -- that it acquired, and the references are not zero then.
  pub host_limit-calls :
      (cs : List Call) (hostname : String) (a : ℕ) (hosts : LimitHosts S)
      → InUse hostname a hosts
      → (host_limit S limits_of hostname (calls cs hosts) ≡ (calls cs hosts, a))
        × InUse hostname a (calls cs hosts)
  unfolding host_limit
  host_limit-calls cs hostname a hosts h =
      let (entry, limits) = calls-InUse cs hostname a hosts h in (rw entry refl, (entry, limits))
