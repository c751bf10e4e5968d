-- ===== src/Validator/Checks.antt =====
-- internal/validator/validator.go and entry.go, and what the checks share: an error, or `none`.
use miniflux.Base.{
  ℕ, String, ◌⊎◌, inl, inr, Bool, true, false, not, ◌&&◌, ◌||◌, Option, none, some, List, [], ◌∷◌,
  ltb, if◌then◌else◌, ◌==◌, nat_eq, string_eq, length, any,
}
use miniflux.Base.Int.{ℤ, pos, ltb_ℤ}
use miniflux.Base.Text.{byte_length, trim_space, split}
use miniflux.Model.Entry.{EntryUpdateRequest, status_read, status_unread, status_removed}
use miniflux.Reader.Filter.Rules.{Library, RuleError, is_one_of, new_combined_filter}

-- locale.LocalizedError, by its key, or by the error that its text holds.
pub data LocalizedError : Type 0 where
  message : String → LocalizedError
  invalid_block_rule : ℕ × ℕ × RuleError → LocalizedError
  invalid_keep_rule : ℕ × ℕ × RuleError → LocalizedError
  backend_error : LocalizedError

-- A check of an optional field.
abbrev pub given {ℓ κ} : {A : Type ℓ} {E : Type κ} → (A → Option E) → Option A → Option E
given check none = none
given check (some a) = check a

-- The first error of a sequence of checks.
abbrev pub first_error {κ} : {E : Type κ} → List (Option E) → Option E
first_error [] = none
first_error (none ∷ rest) = first_error rest
first_error (some err ∷ rest) = some err

-- An error, where the value is not one of those listed.
abbrev pub one_of : String → List String → String → Option LocalizedError
one_of key names s = if is_one_of names s then none else some (message key)

-- ValidateRange
unfoldable pub validate_range : ℤ → ℤ → Option LocalizedError
validate_range offset limit =
    if ltb_ℤ offset (pos 0)
    then some (message "offset value should be >= 0")
    else if ltb_ℤ limit (pos 0)
    then some (message "limit value should be >= 0")
    else none

-- ValidateDirection
unfoldable pub validate_direction : String → Option LocalizedError
validate_direction s = one_of "invalid direction" ("asc" ∷ "desc" ∷ []) s

-- IsValidDomain, IsValidDomainList; `to_lower` is strings.ToLower and `matches` the match of
-- domainRegex.
module _ (to_lower : String → String) (matches : String → Bool) where
  unfoldable pub is_valid_domain : String → Bool
  unfolding byte_length
  is_valid_domain domain =
      let s = to_lower domain in
      if ltb (byte_length s) 1 || ltb 253 (byte_length s) then false else matches s

  unfoldable pub is_valid_domain_list : String → Bool
  unfolding is_valid_domain
  is_valid_domain_list value =
      not (any (λ d. not (is_valid_domain d)) (split 0x20 (trim_space value)))

-- entry.go: EntriesStatusUpdateRequest and its check
pub record EntriesStatusUpdateRequest : Type 0 where
  pub entry_ids : List ℕ
  pub status : String
  pub starred : Option Bool

unfoldable pub validate_entry_status : String → Option LocalizedError
validate_entry_status s =
    one_of "invalid entry status" (status_read ∷ status_unread ∷ status_removed ∷ []) s

unfoldable pub validate_entries_status_update_request :
    EntriesStatusUpdateRequest → Option LocalizedError
unfolding validate_entry_status
validate_entries_status_update_request r =
    if length r.entry_ids == 0
    then some (message "the list of entries cannot be empty")
    else if r.status == "" && elim r.starred [ none ↦ true | some b ↦ false ]
    then some (message "either the status or the starred field must be specified")
    else if not (r.status == "")
    then validate_entry_status r.status
    else none

-- ValidateEntryOrder
unfoldable pub validate_entry_order : String → Option LocalizedError
validate_entry_order s =
    one_of "invalid entry order"
      ("id" ∷ "status" ∷ "changed_at" ∷ "published_at" ∷ "created_at" ∷ "category_title"
        ∷ "category_id" ∷ "title" ∷ "author" ∷ [])
      s

abbrev pub not_empty : String → String → Option LocalizedError
not_empty key s = if s == "" then some (message key) else none

-- ValidateEntryModification
unfoldable pub validate_entry_modification : EntryUpdateRequest → Option LocalizedError
validate_entry_modification r = first_error (
    given (not_empty "the entry title cannot be empty") r.title
    ∷ given (not_empty "the entry content cannot be empty") r.content
    ∷ [])

-- The check of a set of filter rules by filter.New: `if s := OptionalValue(p); s != ""`.
module _ (lib : Library) where
  abbrev pub rule_error :
      {R : Type 0}
      → (ℕ × ℕ × RuleError → LocalizedError)
      → R ⊎ (ℕ × ℕ × RuleError)
      → Option LocalizedError
  rule_error wrap (inl rs) = none
  rule_error wrap (inr err) = some (wrap err)

  unfoldable pub validate_rules :
      (ℕ × ℕ × RuleError → LocalizedError) → String → Option LocalizedError
  unfolding new_combined_filter
  validate_rules wrap s =
      if s == "" then none else rule_error wrap (new_combined_filter lib (s ∷ []))
