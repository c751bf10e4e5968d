-- ===== src/Storage/Categories.antt =====
-- internal/storage/category.go: the search, the test and the update that a rename of a category needs,
-- as what their SQL says of the rows. `lower` is the database's lower. The failures of the database
-- are left out.
use miniflux.Base.{
  ℕ, String, Bool, true, false, not, ◌&&◌, Option, none, some, List, [], ◌∷◌, map, if◌then◌else◌,
  ◌==◌, nat_eq, string_eq, any,
}
use miniflux.Model.Category.{Category}

-- CategoryByTitle
unfoldable pub category_by_title : ℕ → String → List Category → Option Category
category_by_title user_id title [] = none
category_by_title user_id title (c ∷ rows) =
    let rest = category_by_title user_id title rows in
    if c.user_id == user_id && c.title == title then some c else rest

-- AnotherCategoryExists
unfoldable pub another_category_exists : (String → String) → ℕ → ℕ → String → List Category → Bool
another_category_exists lower user_id category_id title rows =
    any (λ c. c.user_id == user_id && not (c.id == category_id) && lower c.title == lower title)
      rows

-- The row that UpdateCategory chooses.
abbrev pub is_row_of : Category → Category → Bool
is_row_of c d = d.id == c.id && d.user_id == c.user_id

abbrev pub set_row : Bool → Category → Category → Category
set_row true c d = record d { title = c.title; hide_globally = c.hide_globally; extra = c.extra }
set_row false c d = d

abbrev pub overwrite : Category → Category → Category
overwrite c d = set_row (is_row_of c d) c d

-- UpdateCategory: the rows, and whether one was affected.
unfoldable pub update_category : Category → List Category → List Category × Bool
update_category c rows = (map (overwrite c) rows, any (is_row_of c) rows)
