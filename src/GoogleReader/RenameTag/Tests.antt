-- ===== src/GoogleReader/RenameTag/Tests.antt =====
-- Requests that rename a tag.
use miniflux.Base.{
  ℕ, String, ◌≡◌, refl, false, none, some, List, [], ◌∷◌, ◌==◌, nat_eq, string_eq, any,
}
use miniflux.Base.Text.{has_prefix, trim_prefix, cut_prefix, append}
use miniflux.Base.Numbers.{format_int, format_uint, digits, hex_digit}
use miniflux.Model.Category.{Category, patch_category}
use miniflux.Reader.Filter.Rules.{Library}
use miniflux.Storage.Categories.{category_by_title, another_category_exists, update_category}
use miniflux.Validator.Category.{validate_category_creation, validate_category_modification}
use miniflux.GoogleReader.Reply.{Reply, ok, bad_request}
use miniflux.GoogleReader.Streams.{get_stream, user_stream_prefix, user_label_prefix}
use miniflux.GoogleReader.RenameTag.{rename_tag}
use miniflux.GoogleReader.RenameTag.Unique.{UniqueKeys, rename_tag-UniqueKeys}

abbrev prefixes : Library
prefixes = record {
  Regexp = String;
  compile = λ s. some s;
  match_string = has_prefix;
  to_lower = λ s. s;
  parse_date = λ s. none;
  atoi = λ s. none;
  parse_go_duration = λ s. none;
  binary_search = λ authors a. any (λ b. b == a) authors;
}

abbrev category_of : ℕ → String → Category
category_of id title = record {
  id = id;
  title = title;
  user_id = 1;
  hide_globally = false;
  extra = record { block_filter = ""; hide_label = false };
  feed_count = none;
  total_unread = none;
}

abbrev two_categories : List Category
two_categories = category_of 3 "News" ∷ category_of 4 "Tech" ∷ []

abbrev renamed_to : String → Reply × List Category
renamed_to destination =
    rename_tag prefixes (λ s. s) 1 "user/1/label/News" destination two_categories

renamed : renamed_to "user/1/label/Daily" ≡ (ok, category_of 3 "Daily" ∷ category_of 4 "Tech" ∷ [])
unfolding rename_tag get_stream user_stream_prefix user_label_prefix append has_prefix trim_prefix
    cut_prefix format_int format_uint digits hex_digit category_by_title another_category_exists
    update_category validate_category_modification validate_category_creation patch_category
renamed = refl

-- The title of another category is refused.
taken : renamed_to "user/1/label/Tech" ≡ (bad_request, two_categories)
unfolding rename_tag get_stream user_stream_prefix user_label_prefix append has_prefix trim_prefix
    cut_prefix format_int format_uint digits hex_digit category_by_title another_category_exists
    update_category validate_category_modification validate_category_creation patch_category
taken = refl

rename_tag-UniqueKeys_example : UniqueKeys (renamed_to "user/1/label/Daily").1
rename_tag-UniqueKeys_example =
    rename_tag-UniqueKeys prefixes (λ s. s) 1 "user/1/label/News" "user/1/label/Daily"
      two_categories ((refl, tt), (tt, tt))
