-- ===== src/Validator/Category.antt =====
-- internal/validator/category.go
use miniflux.Base.{
  String, Bool, Option, none, some, [], ◌∷◌, if◌then◌else◌, ◌==◌, nat_eq, string_eq,
}
use miniflux.Model.Category.{CategoryModificationRequest}
use miniflux.Reader.Filter.Rules.{Library}
use miniflux.Validator.Checks.{
  LocalizedError, message, invalid_block_rule, given, first_error, validate_rules,
}

-- ValidateCategoryCreation; `title_exists` asks the storage for the user's categories.
unfoldable pub validate_category_creation : (String → Bool) → String → Option LocalizedError
validate_category_creation title_exists title =
    if title == ""
    then some (message "error.title_required")
    else if title_exists title
    then some (message "error.category_already_exists")
    else none

-- ValidateCategoryModification; `title_exists` asks for the user's other categories.
unfoldable pub validate_category_modification :
    Library → (String → Bool) → CategoryModificationRequest → Option LocalizedError
unfolding validate_category_creation validate_rules
validate_category_modification lib title_exists r = first_error (
    given (validate_category_creation title_exists) r.title
    ∷ given (validate_rules lib invalid_block_rule) r.block_filter
    ∷ [])
