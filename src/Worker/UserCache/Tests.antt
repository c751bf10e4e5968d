-- ===== src/Worker/UserCache/Tests.antt =====
-- A history of calls, and the theorem at it. A user is a number, and the user 9 does not exist, so that the call for it panics.
use miniflux.Base.{
  ℕ, ◌≡◌, refl, Option, none, some, List, [], ◌∷◌, if◌then◌else◌, ◌==◌, nat_eq, string_eq, lookup,
  insert,
}
use miniflux.Worker.UserCache.{
  init, user_by_id_all, user_by_id, user_from_map, fetch_user, remember_user,
}

abbrev stored : ℕ → Option (Option ℕ)
stored id = if id == 9 then some none else some (some id)

abbrev asked : List ℕ
asked = 3 ∷ 4 ∷ 3 ∷ 9 ∷ 4 ∷ []

two_misses : (user_by_id_all (λ u. u) stored asked init).1.miss ≡ 2
unfolding user_by_id_all user_by_id user_from_map fetch_user remember_user lookup insert
two_misses = refl
