-- ===== src/Worker/UserCache/Laws.antt =====
-- The cache answers as the storage does, and asks it once for each user.
use miniflux.Base.{ℕ, ◌≡◌, Option, none, some, List, [], ◌∷◌, nat_eq, string_eq, length, lookup}
use miniflux.Worker.UserCache.{UserCache, Answer, answered, failed, panicked}

module _ {User : Type 0} (id_of : User → ℕ) (fetch : ℕ → Option (Option User)) where
  -- The cache holds what the storage answers, and has missed once for each user in it.
  abbrev pub IsCoherent : UserCache User → Type 0
  IsCoherent c =
      ((id : ℕ) (u : User) → lookup id c.users ≡ some u → fetch id ≡ some (some u))
      × (c.miss ≡ length c.users)

  -- What the storage alone gives: its user or its error, or a panic for a user that is not there.
  abbrev pub answer_of : Option (Option User) → Answer User
  answer_of none = failed
  answer_of (some none) = panicked
  answer_of (some (some u)) = answered u

  abbrev pub then_answers : Option (Option User) → List (Answer User) → List (Answer User)
  then_answers none rest = failed ∷ rest
  then_answers (some none) rest = panicked ∷ []
  then_answers (some (some u)) rest = answered u ∷ rest

  -- The answers for the ids in order, up to a panic.
  abbrev pub answers : List ℕ → List (Answer User)
  answers [] = []
  answers (id ∷ ids) = then_answers (fetch id) (answers ids)

  module _ (named : (id : ℕ) (u : User) → fetch id ≡ some (some u) → id_of u ≡ id) where
    abbrev Agrees : ℕ → Answer User × UserCache User → Type 0
    Agrees id (answer, c) = (answer ≡ answer_of (fetch id)) × IsCoherent c
