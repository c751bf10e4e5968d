-- ===== src/Worker/UserCache.antt =====
-- internal/worker/cache.go: the users that a batch has fetched. The calls run one after another, so
-- singleflight shares no result; `fetch` is the storage's UserByID: `none` for an error, and nil inside for a
-- user that does not exist.
pub mod Laws
mod Tests
use miniflux.Base.{
  ℕ, zero, suc, ◌+◌, ◌-◌, ◌*◌, ◌/◌, ◌%◌, ◌≤◌, ◌<◌, min, max, String, ◌≡◌, refl, sym, ap, ◌∙◌, ◌≢◌,
  ◌↔◌, ◌⊎◌, inl, inr, Bool, true, false, not, ◌&&◌, ◌||◌, Option, none, some, List, [], ◌∷◌, ◌++◌,
  map, reverse, arith, eq_iff, ltb, leb, nat_beq, if◌then◌else◌, ltb→lt, lt→ltb, leb→le,
  nat_beq_iff, tests, Eq, ◌==◌, nat_eq, string_eq, Bool-cases, Option-cases, beq_refl, eq_of_beq,
  ne_of_beq, beq_of_ne, length, get_elem?, length-append, All-mem, Memᴰ, any, keep, All, All-append,
  All-map, lookup, insert, lookup-insert, lookup-insert_self, length-insert_new,
}

pub record UserCache (User : Type 0) : Type 0 where
  pub users : List (ℕ × User)
  pub hit : ℕ
  pub miss : ℕ

-- What UserByID does: it returns a user or an error, or panics.
pub data Answer (User : Type 0) : Type 0 where
  answered : User → Answer User
  failed : Answer User
  panicked : Answer User

-- After a panic the process ends.
abbrev pub unless_panicked :
    {User : Type 0}
    → Answer User
    → UserCache User
    → List (Answer User) × UserCache User
    → List (Answer User) × UserCache User
unless_panicked panicked c rest = (panicked ∷ [], c)
unless_panicked answer c rest = (answer ∷ rest.0, rest.1)

module _ {User : Type 0} where
  -- userCache.Init
  abbrev pub init : UserCache User
  init = record { users = []; hit = 0; miss = 0 }

  -- userCache.userFromMap: the user, and the cache with its count.
  unfoldable pub user_from_map : ℕ → UserCache User → Option User × UserCache User
  user_from_map id c = elim (lookup id c.users) [
    | some u ↦ (some u, record c { hit = c.hit + 1 })
    | none ↦ (none, c)
  ]

  module _ (id_of : User → ℕ) (fetch : ℕ → Option (Option User)) where
    -- userCache.rememberUser
    unfoldable pub remember_user : User → UserCache User → UserCache User
    remember_user u c = record c { miss = c.miss + 1; users = insert (id_of u) u c.users }

    -- The function that singleflight runs, after its first look: of a nil, rememberUser reads the ID.
    unfoldable pub fetch_user : ℕ → UserCache User → Answer User × UserCache User
    unfolding remember_user
    fetch_user id c = elim (fetch id) [
      | none ↦ (failed, c)
      | some none ↦ (panicked, c)
      | some (some u) ↦ (answered u, remember_user u c)
    ]

    abbrev pub or_fetch :
        (UserCache User → Answer User × UserCache User)
        → Option User × UserCache User
        → Answer User × UserCache User
    or_fetch next (some u, c) = (answered u, c)
    or_fetch next (none, c) = next c

    -- userCache.UserByID
    unfoldable pub user_by_id : ℕ → UserCache User → Answer User × UserCache User
    user_by_id id c =
        or_fetch (λ d. or_fetch (fetch_user id) (user_from_map id d)) (user_from_map id c)

    -- A history of calls: the answers in order, and the cache.
    unfoldable pub user_by_id_all : List ℕ → UserCache User → List (Answer User) × UserCache User
    unfolding user_by_id
    user_by_id_all [] c = ([], c)
    user_by_id_all (id ∷ ids) c =
        let first = user_by_id id c in
        let rest = user_by_id_all ids first.1 in unless_panicked first.0 first.1 rest
