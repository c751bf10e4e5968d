-- ===== src/Fetcher/Proxies/Rotation.antt =====
-- The proxies are taken in turn.
use miniflux.Base.{
  ℕ, zero, suc, ◌+◌, ◌%◌, ◌<◌, ◌≡◌, refl, ap, ◌∙◌, some, List, [], ◌∷◌, arith, nat_eq, string_eq,
  beq_of_ne, length, get_elem?,
}
use native.Mathlib.Nat.{mod-lt, mod-eq_of_lt, mod-add-mod}
use miniflux.Fetcher.Proxies.{ProxyRotator, proxy, get_next_proxy, after_calls}

abbrev new_of : {Url : Type 0} → List Url → ProxyRotator Url
new_of us = record { proxies = us; current_index = 0 }

get_elem?-some :
    {A : Type 0} (xs : List A) (i : ℕ) → i < length xs → (x : A) × (get_elem? xs i ≡ some x)
get_elem?-some [] i h = absurd (omega arith)
get_elem?-some (x ∷ xs) zero h = (x, refl)
get_elem?-some (x ∷ xs) (suc i) h = get_elem?-some xs i (omega arith)

module _ {Url : Type 0} where
  get_next_proxy_index :
      (us : List Url) (i : ℕ)
      → 0 < length us
      → (get_next_proxy (record { proxies = us; current_index = i })).0
        ≡ record { proxies = us; current_index = (i + 1) % length us }
  unfolding get_next_proxy
  get_next_proxy_index us i h = rw (beq_of_ne (length us) 0 (omega arith)) refl

  get_next_proxy_found :
      (us : List Url) (i : ℕ) (u : Url)
      → 0 < length us
      → get_elem? us i ≡ some u
      → (get_next_proxy (record { proxies = us; current_index = i })).1 ≡ proxy u
  unfolding get_next_proxy
  get_next_proxy_found us i u h q = rw (beq_of_ne (length us) 0 (omega arith), q) refl

  after_calls-state :
      (us : List Url) (k : ℕ)
      → 0 < length us
      → after_calls k (new_of us) ≡ record { proxies = us; current_index = k % length us }
  unfolding after_calls
  after_calls-state us zero h = let small = mod-eq_of_lt h in rw small refl
  after_calls-state us (suc k) h =
      let next : (k % length us + 1) % length us ≡ suc k % length us =
        mod-add-mod k (length us) 1 ∙ ap (λ i. i % length us) (omega arith) in
      ap (λ r. (get_next_proxy r).0) (after_calls-state us k h)
      ∙ get_next_proxy_index us (k % length us) h
      ∙ ap (λ i. record { proxies = us; current_index = i }) next

  -- Call number k of a rotator with at least one proxy returns proxy number k modulo their number:
  -- the index is never out of range.
  pub get_next_proxy-after_calls :
      (us : List Url) (k : ℕ)
      → 0 < length us
      → (u : Url) × ((get_next_proxy (after_calls k (record { proxies = us; current_index = 0 }))).1
          ≡ proxy u)
        × (get_elem? us (k % length us) ≡ some u)
  get_next_proxy-after_calls us k h =
      let (u, q) = get_elem?-some us (k % length us) (mod-lt k h) in
      (
        u,
        ap (λ r. (get_next_proxy r).1) (after_calls-state us k h)
            ∙ get_next_proxy_found us (k % length us) u h q,
        q,
      )
