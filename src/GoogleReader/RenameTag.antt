-- ===== src/GoogleReader/RenameTag.antt =====
-- internal/googlereader/handler.go: `renameTagHandler`, over the user's categories.
pub mod Unique
mod Tests
use miniflux.Base.{
  ℕ, zero, suc, ◌+◌, ◌-◌, ◌*◌, ◌/◌, ◌%◌, ◌^◌, ◌≤◌, ◌<◌, min, max, String, ◌≡◌, refl, sym, ap, ◌∙◌,
  ◌≢◌, ◌↔◌, ◌⊎◌, inl, inr, Bool, true, false, not, ◌&&◌, ◌||◌, Option, none, some, List, [], ◌∷◌,
  ◌++◌, map, reverse, arith, eq_iff, ltb, leb, nat_beq, if◌then◌else◌, ltb→lt, lt→ltb, leb→le,
  nat_beq_iff, tests, Eq, ◌==◌, nat_eq, string_eq, Bool-cases, Option-cases, beq_refl, eq_of_beq,
  ne_of_beq, beq_of_ne, length, get_elem?, length-append, All-mem, Memᴰ, any, keep, All, All-append,
  All-map, lookup, insert, lookup-insert, lookup-insert_self, length-insert_new,
}
use miniflux.Base.Int.{
  ℤ, pos, negsuc, pos_part, neg_part, sub_ℕ, ◌+ℤ◌, ◌-ℤ◌, quot, rem, ◌≤ℤ◌, ◌<ℤ◌, ltb_ℤ, leb_ℤ, eqb_ℤ,
  +ℤ_parts, -ℤ_parts, eq_of_parts, int_laws,
}
use miniflux.Model.Category.{Category, CategoryModificationRequest, patch_category}
use miniflux.Reader.Filter.Rules.{Library}
use miniflux.Storage.Categories.{category_by_title, another_category_exists, update_category}
use miniflux.Validator.Checks.{LocalizedError}
use miniflux.Validator.Category.{validate_category_modification}
use miniflux.GoogleReader.Reply.{Reply, ok, bad_request, not_found}
use miniflux.GoogleReader.Streams.{
  is_label, StreamType, label_stream, Stream, StreamError, get_stream,
}

abbrev pub titled_request : String → CategoryModificationRequest
titled_request title = record {
  title = some title;
  hide_globally = none;
  hide_label = none;
  block_filter = none;
}

-- The reply to an update, and the rows.
abbrev pub affected_reply : List Category × Bool → Reply × List Category
affected_reply (rows, affected) = (if affected then ok else not_found, rows)

abbrev pub checked :
    Option LocalizedError → String → Category → List Category → Reply × List Category
checked (some err) title c rows = (bad_request, rows)
checked none title c rows =
    affected_reply (update_category (patch_category (titled_request title) c) rows)

module _ (lib : Library) (lower : String → String) (user_id : ℕ) where
  abbrev pub rename_category : String → Option Category → List Category → Reply × List Category
  rename_category title none rows = (not_found, rows)
  rename_category title (some c) rows =
      checked
        (validate_category_modification lib (λ t. another_category_exists lower user_id c.id t rows)
          (titled_request title))
        title c rows

  abbrev pub rename_label : Stream → Stream → List Category → Reply × List Category
  rename_label source destination rows =
      if not (is_label source.type) || not (is_label destination.type)
      then (bad_request, rows)
      else if destination.id == ""
      then (bad_request, rows)
      else rename_category destination.id (category_by_title user_id source.id rows) rows

  abbrev pub with_destination :
      Stream → StreamError ⊎ Stream → List Category → Reply × List Category
  with_destination source (inl err) rows = (bad_request, rows)
  with_destination source (inr destination) rows = rename_label source destination rows

  abbrev pub with_source :
      StreamError ⊎ Stream → StreamError ⊎ Stream → List Category → Reply × List Category
  with_source (inl err) destination rows = (bad_request, rows)
  with_source (inr source) destination rows = with_destination source destination rows

  -- renameTagHandler: the form's stream and its destination.
  unfoldable pub rename_tag : String → String → List Category → Reply × List Category
  unfolding update_category patch_category
  rename_tag source destination rows =
      with_source (get_stream source (pos user_id)) (get_stream destination (pos user_id)) rows
