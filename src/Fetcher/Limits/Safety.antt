-- ===== src/Fetcher/Limits/Safety.antt =====
-- What holds of a host whatever the order of the steps of its requests, where Expire does not come
-- between the look-up of a request and its IncRefs.
pub mod Orderly
use miniflux.Base.{
  ℕ, zero, suc, ◌+◌, ◌-◌, ◌*◌, ◌/◌, ◌%◌, ◌^◌, ◌≤◌, ◌<◌, min, max, String, ◌≡◌, refl, sym, ap, ◌∙◌,
  ◌≢◌, ◌↔◌, ◌⊎◌, inl, inr, Bool, true, false, not, ◌&&◌, ◌||◌, Option, none, some, List, [], ◌∷◌,
  ◌++◌, map, reverse, arith, eq_iff, ltb, leb, nat_beq, if◌then◌else◌, ltb→lt, lt→ltb, leb→le,
  nat_beq_iff, tests, Eq, ◌==◌, nat_eq, string_eq, Bool-cases, Option-cases, beq_refl, eq_of_beq,
  ne_of_beq, beq_of_ne, length, get_elem?, length-append, All-mem, Memᴰ, any, keep, All, All-append,
  All-map, lookup, insert, lookup-insert, lookup-insert_self, length-insert_new,
}
use miniflux.Base.Int.{
  ℤ, pos, negsuc, pos_part, neg_part, sub_ℕ, ◌+ℤ◌, ◌-ℤ◌, quot, rem, ◌≤ℤ◌, ◌<ℤ◌, ltb_ℤ, leb_ℤ, eqb_ℤ,
  +ℤ_parts, -ℤ_parts, eq_of_parts, int_laws,
}
use miniflux.Fetcher.Limits.{Semaphores, HostLimit, set_retry_after, expired, new_host_limit}
use miniflux.Fetcher.Limits.World.{
  Pc, start, found, holding, closing, closed, rejected, Event, go, wait_ends, wait_fails, moved,
  panicked, client_step, Client, Memory, World, is_between, put, or_new, find_host, looked_up,
}
use miniflux.Fetcher.Limits.Invariant.{
  refs_of, permits_of, sum_of, sum_of-at, sum_of-zero, Holds, Balance, client_step-Balance,
  step-ne-panicked, Holds-le,
}
use miniflux.Fetcher.Limits.Activity.{
  is_active, refs_of-inactive, permits_of-inactive, between_or_inactive, looked_up_same, All-at,
  All-replace, sum_of-none, none_between, zero_plus, refs-zero, OnHost,
}

module _ (S : Semaphores) (n : ℕ) where
  open S use {Sem, new_weighted, new_law}

  -- The entry of the table counts the requests, which all have its address; where there is no entry,
  -- no request is active.
  abbrev pub SoundAt : Option ℕ → (ℕ → HostLimit Sem) → List Client → Type 0
  SoundAt none objects clients = All (λ c. is_active c.at ≡ false) clients
  SoundAt (some a) objects clients =
      Balance S n (objects a) (sum_of refs_of clients) (sum_of permits_of clients)
      × All (OnHost a) clients

  abbrev pub IsSound : Memory S → List Client → Type 0
  IsSound m clients = SoundAt m.server m.objects clients

  pub expired-sum_of :
      (now d a : ℕ) (objects : ℕ → HostLimit Sem) (clients : List Client)
      → SoundAt (some a) objects clients
      → expired now d (objects a) ≡ true
      → sum_of refs_of clients ≡ 0
  unfolding expired
  expired-sum_of now d a objects clients h e = refs-zero (objects a).refs _ _ h.0.0 e

  new_host_limit-Balance :
      (rate_limited : Bool) → Balance S n (new_host_limit S (pos n) rate_limited) 0 0
  unfolding new_host_limit
  new_host_limit-Balance rate_limited = elim (Bool-cases (ltb_ℤ (pos 0) (pos n))) [
    | inl limited ↦
        let (none_held, same) = new_law n in rw limited (refl, (none_held, same, omega arith))
    | inr unlimited ↦ rw unlimited (refl, ground arith)
  ]

  set_retry_after-Balance :
      (t : ℕ) (header : String) (h : HostLimit Sem) (r p : ℕ)
      → Balance S n h r p
      → Balance S n (set_retry_after t header h).0 r p
  unfolding set_retry_after
  set_retry_after-Balance t header h r p bal = elim (Bool-cases (ltb h.retry_after t)) [
    | inl later ↦ rw later bal
    | inr sooner ↦ rw sooner bal
  ]

  or_new-SoundAt :
      (rate_limited : Bool) (m : Memory S) (o : Option ℕ) (clients : List Client)
      → m.server ≡ o
      → SoundAt o m.objects clients
      → (let (m', a) = or_new S (pos n) rate_limited m o in
          (m'.server ≡ some a) × SoundAt (some a) m'.objects clients)
  or_new-SoundAt rate_limited m (some a) clients e h = (e, h)
  or_new-SoundAt rate_limited m none clients e h = (
    refl,
    (
      rw
          (
            beq_refl m.free,
            sum_of-none refs_of clients refs_of-inactive h,
            sum_of-none permits_of clients permits_of-inactive h,
          )
          (new_host_limit-Balance rate_limited),
      All-map (λ c idle active. absurd (cc)) clients h,
    ),
  )

  pub find_host-SoundAt :
      (rate_limited : Bool) (m : Memory S) (clients : List Client)
      → IsSound m clients
      → (let (m', a) = find_host S (pos n) rate_limited m in
          (m'.server ≡ some a) × SoundAt (some a) m'.objects clients)
  unfolding find_host
  find_host-SoundAt rate_limited m clients h = or_new-SoundAt rate_limited m m.server clients refl h

  pub look_up-SoundAt :
      (a : ℕ) (objects : ℕ → HostLimit Sem) (before after : List Client) (c : Client) (pc : Pc)
      → looked_up c.at ≡ some pc
      → SoundAt (some a) objects (before ++ c ∷ after)
      → SoundAt (some a) objects (before ++ record { at = pc; on = a } ∷ after)
  look_up-SoundAt a objects before after c pc e (bal, on) =
      let (refs, permits) = looked_up_same c.at pc e in
      (
        rw
            (
              sum_of-at refs_of before after (record { at = pc; on = a }),
              sum_of-at permits_of before after (record { at = pc; on = a }),
              refs,
              permits,
            )
            (rw (sum_of-at refs_of before after c, sum_of-at permits_of before after c) at bal),
        All-replace (OnHost a) before after c (record { at = pc; on = a }) (λ active. refl) on,
      )

  inactive_disabled :
      (ev : Event) (pc pc' : Pc) (h h' : HostLimit Sem)
      → client_step S ev pc h ≡ moved pc' h'
      → is_active pc ≡ true
  unfolding client_step
  inactive_disabled (go now allow) start pc' h h' e = cc
  inactive_disabled (go now allow) closed pc' h h' e = cc
  inactive_disabled (go now allow) rejected pc' h h' e = cc
  inactive_disabled wait_ends start pc' h h' e = cc
  inactive_disabled wait_ends closed pc' h h' e = cc
  inactive_disabled wait_ends rejected pc' h h' e = cc
  inactive_disabled wait_fails start pc' h h' e = cc
  inactive_disabled wait_fails closed pc' h h' e = cc
  inactive_disabled wait_fails rejected pc' h h' e = cc
  inactive_disabled ev _ pc' h h' e = refl

  inactive_not_panicked :
      (ev : Event) (pc : Pc) (h : HostLimit Sem)
      → client_step S ev pc h ≡ panicked
      → is_active pc ≡ true
  unfolding client_step
  inactive_not_panicked (go now allow) start h e = cc
  inactive_not_panicked (go now allow) closed h e = cc
  inactive_not_panicked (go now allow) rejected h e = cc
  inactive_not_panicked wait_ends start h e = cc
  inactive_not_panicked wait_ends closed h e = cc
  inactive_not_panicked wait_ends rejected h e = cc
  inactive_not_panicked wait_fails start h e = cc
  inactive_not_panicked wait_fails closed h e = cc
  inactive_not_panicked wait_fails rejected h e = cc
  inactive_not_panicked ev _ h e = refl

  pub client-SoundAt :
      (o : Option ℕ) (objects : ℕ → HostLimit Sem) (before after : List Client) (ev : Event)
      (c : Client) (pc : Pc) (h : HostLimit Sem)
      → client_step S ev c.at (objects c.on) ≡ moved pc h
      → SoundAt o objects (before ++ c ∷ after)
      → SoundAt o (put S c.on h objects) (before ++ record { at = pc; on = c.on } ∷ after)
  client-SoundAt none objects before after ev c pc h e idle =
      let active = inactive_disabled ev c.at pc (objects c.on) h e in
      let not_active = All-at (λ c. is_active c.at ≡ false) before after c idle in absurd (cc)
  client-SoundAt (some a) objects before after ev c pc h e (bal, on) =
      let here : c.on ≡ a =
        All-at (OnHost a) before after c on (inactive_disabled ev c.at pc (objects c.on) h e) in
      let c' : Client = record { at = pc; on = c.on } in
      let r = sum_of refs_of before + sum_of refs_of after in
      let p = sum_of permits_of before + sum_of permits_of after in
      let c'' : Client = record { at = pc; on = a } in
      (
        rw
            (
              here,
              beq_refl a,
              sum_of-at refs_of before after c'',
              sum_of-at permits_of before after c'',
            )
            (client_step-Balance S n r p ev c.at pc (objects a) h (rw here at e)
              (rw (sum_of-at refs_of before after c, sum_of-at permits_of before after c) at bal)),
        All-replace (OnHost a) before after c c' (λ active. here) on,
      )

  pub arrive-SoundAt :
      (o : Option ℕ) (objects : ℕ → HostLimit Sem) (clients : List Client) (on : ℕ)
      → SoundAt o objects clients
      → SoundAt o objects (record { at = start; on = on } ∷ clients)
  arrive-SoundAt none objects clients on h = (refl, h)
  arrive-SoundAt (some a) objects clients on (bal, all) = (
    rw (zero_plus (sum_of refs_of clients), zero_plus (sum_of permits_of clients)) bal,
    ((λ active. absurd (cc)), all),
  )

  pub SoundAt-permits :
      (o : Option ℕ) (objects : ℕ → HostLimit Sem) (clients : List Client)
      → 0 < n
      → SoundAt o objects clients
      → sum_of permits_of clients ≤ n
  SoundAt-permits none objects clients limited h =
      rw (sum_of-none permits_of clients permits_of-inactive h) (omega arith)
  SoundAt-permits (some a) objects clients limited h = Holds-le S n (objects a).sem _ limited h.0.1

  pub SoundAt-ne-panicked :
      (o : Option ℕ) (objects : ℕ → HostLimit Sem) (before after : List Client) (c : Client)
      (ev : Event)
      → SoundAt o objects (before ++ c ∷ after)
      → client_step S ev c.at (objects c.on) ≢ panicked
  SoundAt-ne-panicked none objects before after c ev idle e =
      let active = inactive_not_panicked ev c.at (objects c.on) e in
      let not_active = All-at (λ c. is_active c.at ≡ false) before after c idle in cc
  SoundAt-ne-panicked (some a) objects before after c ev (bal, on) e =
      let here : c.on ≡ a =
        All-at (OnHost a) before after c on (inactive_not_panicked ev c.at (objects c.on) e) in
      let r = sum_of refs_of before + sum_of refs_of after in
      let p = sum_of permits_of before + sum_of permits_of after in
      step-ne-panicked S n r p ev c.at (objects a)
        (rw (sum_of-at refs_of before after c, sum_of-at permits_of before after c) at bal)
        (rw here at e)

  -- Where there is a reference, there is an entry.
  pub SoundAt-server :
      (o : Option ℕ) (objects : ℕ → HostLimit Sem) (clients : List Client)
      → 0 < sum_of refs_of clients
      → SoundAt o objects clients
      → (a : ℕ) × (o ≡ some a)
  SoundAt-server none objects clients some_ref h =
      let q = sum_of-none refs_of clients refs_of-inactive h in absurd (omega arith)
  SoundAt-server (some a) objects clients some_ref h = (a, refl)

  pub retry-SoundAt :
      (o : Option ℕ) (objects : ℕ → HostLimit Sem) (clients : List Client) (a t : ℕ)
      (header : String)
      → SoundAt o objects clients
      → SoundAt o (put S a (set_retry_after t header (objects a)).0 objects) clients
  retry-SoundAt none objects clients a t header h = h
  retry-SoundAt (some b) objects clients a t header (bal, on) = elim (Bool-cases (b == a)) [
    | inl same ↦
        let q = eq_of_beq b a same in
        (rw same (set_retry_after-Balance t header (objects a) _ _ (rw q at bal)), on)
    | inr other ↦ (rw other bal, on)
  ]
