-- ===== src/Fetcher/Limits/Activity.antt =====
-- The requests that have the address of the host's limits: those that are active.
use miniflux.Base.{
  ℕ, ◌+◌, ◌≡◌, refl, Bool, true, false, ◌&&◌, some, List, [], ◌∷◌, ◌++◌, arith, nat_eq, string_eq,
  All,
}
use miniflux.Base.Int.{ℤ, pos, eqb_ℤ}
use miniflux.Fetcher.Limits.World.{Pc, start, closed, rejected, Client, is_between, looked_up}
use miniflux.Fetcher.Limits.Invariant.{refs_of, permits_of, sum_of}

-- A request that has the address of limits that it will use, or has left a reference there.
abbrev pub is_active : Pc → Bool
is_active start = false
is_active closed = false
is_active rejected = false
is_active pc = true

pub refs_of-inactive : (pc : Pc) → is_active pc ≡ false → refs_of pc ≡ 0
refs_of-inactive pc h = ground arith

pub permits_of-inactive : (pc : Pc) → is_active pc ≡ false → permits_of pc ≡ 0
permits_of-inactive pc h = ground arith

pub between_or_inactive : (pc : Pc) → refs_of pc ≡ 0 → is_between pc ≡ false → is_active pc ≡ false
between_or_inactive pc h k = ground arith

pub looked_up_same :
    (pc pc' : Pc)
    → looked_up pc ≡ some pc'
    → (refs_of pc' ≡ refs_of pc) × (permits_of pc' ≡ permits_of pc)
looked_up_same pc pc' h = ground arith

pub All-at {κ} :
    (P : Client → Type κ) (before after : List Client) (c : Client)
    → All P (before ++ c ∷ after)
    → P c
All-at P [] after c h = h.0
All-at P (b ∷ before) after c h = All-at P before after c h.1

pub All-replace {κ} :
    (P : Client → Type κ) (before after : List Client) (c c' : Client)
    → P c'
    → All P (before ++ c ∷ after)
    → All P (before ++ c' ∷ after)
All-replace P [] after c c' p h = (p, h.1)
All-replace P (b ∷ before) after c c' p h = (h.0, All-replace P before after c c' p h.1)

pub sum_of-none :
    (f : Pc → ℕ) (clients : List Client)
    → ((pc : Pc) → is_active pc ≡ false → f pc ≡ 0)
    → All (λ c. is_active c.at ≡ false) clients
    → sum_of f clients ≡ 0
sum_of-none f [] nought h = refl
sum_of-none f (c ∷ clients) nought h =
    omega (arith, nought c.at h.0, sum_of-none f clients nought h.1)

pub none_between :
    (clients : List Client)
    → All (λ c. refs_of c.at ≡ 0) clients
    → All (λ c. is_between c.at ≡ false) clients
    → All (λ c. is_active c.at ≡ false) clients
none_between [] h k = tt
none_between (c ∷ clients) h k = (between_or_inactive c.at h.0 k.0, none_between clients h.1 k.1)

pub zero_plus : (k : ℕ) → 0 + k ≡ k
zero_plus k = omega arith

pub refs-zero : (r : ℤ) (k : ℕ) (b : Bool) → r ≡ pos k → (eqb_ℤ r (pos 0) && b) ≡ true → k ≡ 0
refs-zero r k b e h = ground arith

abbrev pub OnHost : ℕ → Client → Type 0
OnHost a c = is_active c.at ≡ true → c.on ≡ a
