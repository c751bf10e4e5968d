-- ===== src/Fetcher/Limits/Counters.antt =====
-- Semaphores that meet their laws, for the tests: a counter with a bound.
use miniflux.Base.{
  ℕ, suc, ◌-◌, ◌<◌, ◌≡◌, refl, Option, none, some, arith, ltb, if◌then◌else◌, lt→ltb, nat_eq,
  string_eq,
}
use miniflux.Fetcher.Limits.{Semaphores}

-- A counter and its bound.
pub record Counter : Type 0 where
  pub taken : ℕ
  pub bound : ℕ

unfoldable pub take : Counter → Option Counter
take c =
    if ltb c.taken c.bound then some (record { taken = suc c.taken; bound = c.bound }) else none

unfoldable pub give : Counter → Option Counter
give c = if ltb 0 c.taken then some (record { taken = c.taken - 1; bound = c.bound }) else none

pub take_law :
    (s t : Counter)
    → take s ≡ some t
    → (t.taken ≡ suc s.taken) × (t.bound ≡ s.bound) × (s.taken < s.bound)
unfolding take
take_law s t e = (ground arith, ground arith, ground arith)

pub give_law :
    (s : Counter)
    → 0 < s.taken
    → (t : Counter) × (give s ≡ some t) × (suc t.taken ≡ s.taken) × (t.bound ≡ s.bound)
unfolding give
give_law s h =
    (record { taken = s.taken - 1; bound = s.bound }, rw (lt→ltb 0 s.taken h), omega arith, refl)

abbrev pub counters : Semaphores
counters = record {
  Sem = Counter;
  new_weighted = λ n. record { taken = 0; bound = n };
  try_acquire = take;
  grant = take;
  release = give;
  held = λ c. c.taken;
  size = λ c. c.bound;
  new_law = λ n. (refl, refl);
  try_law = take_law;
  grant_law = take_law;
  release_law = give_law;
}
