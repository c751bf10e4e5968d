-- ===== src/GoogleReader/RenameTag/Unique.antt =====
-- The keys of the table of categories after a rename.
use miniflux.Base.{
  ℕ, String, ◌≡◌, refl, sym, ap, ◌∙◌, ◌⊎◌, inl, inr, Bool, true, false, not, ◌&&◌, ◌||◌, Option,
  none, some, List, [], ◌∷◌, map, arith, if◌then◌else◌, ◌==◌, nat_eq, string_eq, Bool-cases,
  beq_refl, eq_of_beq, ne_of_beq, beq_of_ne, any, All,
}
use miniflux.Base.Int.{pos}
use miniflux.Model.Category.{Category, patch_category}
use miniflux.Reader.Filter.Rules.{Library}
use miniflux.Storage.Categories.{
  category_by_title, another_category_exists, is_row_of, set_row, overwrite, update_category,
}
use miniflux.Validator.Checks.{LocalizedError}
use miniflux.Validator.Category.{validate_category_creation, validate_category_modification}
use miniflux.GoogleReader.Reply.{Reply, bad_request}
use miniflux.GoogleReader.Streams.{Stream, StreamError, get_stream, is_label}
use miniflux.GoogleReader.RenameTag.{
  titled_request, checked, rename_category, rename_label, with_source, rename_tag,
}

-- Two categories with one id, or two of one user with one title.
abbrev pub clash : Category → Category → Bool
clash c d = c.id == d.id || (c.user_id == d.user_id && c.title == d.title)

abbrev pub UniqueKeys : List Category → Type 0
UniqueKeys [] = Unit
UniqueKeys (c ∷ rows) = All (λ d. clash c d ≡ false) rows × UniqueKeys rows

-- A row that does not stand in the way of the new title of `c`.
abbrev IsFree : Category → Category → Type 0
IsFree c d = (d.user_id == c.user_id && not (d.id == c.id) && d.title == c.title) ≡ false

title_beq_comm : (a b : String) → (a == b) ≡ (b == a)
title_beq_comm a b = elim (Bool-cases (a == b)) [
  | inl same ↦ rw (eq_of_beq a b same) refl
  | inr apart ↦ apart ∙ sym (beq_of_ne b a (λ q. ne_of_beq a b apart (sym q)))
]

set_row-clash :
    (b b' : Bool) (c d e : Category)
    → is_row_of c d ≡ b
    → is_row_of c e ≡ b'
    → IsFree c d
    → IsFree c e
    → clash d e ≡ false
    → clash (set_row b c d) (set_row b' c e) ≡ false
set_row-clash true true c d e is is' h k apart = ground arith
set_row-clash true false c d e is is' h k apart =
    let swapped = title_beq_comm c.title e.title in ground arith
set_row-clash false true c d e is is' h k apart = ground arith
set_row-clash false false c d e is is' h k apart = apart

overwrite-clash :
    (c d e : Category)
    → IsFree c d
    → IsFree c e
    → clash d e ≡ false
    → clash (overwrite c d) (overwrite c e) ≡ false
overwrite-clash c d e h k apart =
    set_row-clash (is_row_of c d) (is_row_of c e) c d e refl refl h k apart

overwrite-All :
    (c d : Category) (rows : List Category)
    → IsFree c d
    → All (IsFree c) rows
    → All (λ e. clash d e ≡ false) rows
    → All (λ e. clash (overwrite c d) e ≡ false) (map (overwrite c) rows)
overwrite-All c d [] h free apart = tt
overwrite-All c d (e ∷ rows) h (k, free) (a, apart) =
    (overwrite-clash c d e h k a, overwrite-All c d rows h free apart)

overwrite-UniqueKeys :
    (c : Category) (rows : List Category)
    → All (IsFree c) rows
    → UniqueKeys rows
    → UniqueKeys (map (overwrite c) rows)
overwrite-UniqueKeys c [] free h = tt
overwrite-UniqueKeys c (d ∷ rows) (k, free) (apart, h) =
    (overwrite-All c d rows k free apart, overwrite-UniqueKeys c rows free h)

free_row :
    (lower : String → String) (user_id id : ℕ) (title : String) (d : Category)
    → (d.user_id == user_id && not (d.id == id) && lower d.title == lower title) ≡ false
    → (d.user_id == user_id && not (d.id == id) && d.title == title) ≡ false
free_row lower user_id id title d h = elim (Bool-cases (d.title == title)) [
  | inl same ↦
      let folded : (lower d.title == lower title) ≡ true =
        ap (λ t. lower t == lower title) (eq_of_beq d.title title same) ∙ beq_refl (lower title) in
      ground arith
  | inr apart ↦ ground arith
]

free_rows :
    (lower : String → String) (user_id id : ℕ) (title : String) (rows : List Category)
    → any (λ d. d.user_id == user_id && not (d.id == id) && lower d.title == lower title) rows
      ≡ false
    → All (λ d. (d.user_id == user_id && not (d.id == id) && d.title == title) ≡ false) rows
free_rows lower user_id id title [] h = tt
free_rows lower user_id id title (d ∷ rows) h = (
  free_row lower user_id id title d (ground arith),
  free_rows lower user_id id title rows (ground arith),
)

-- A request that passes the validator has a title that no other category of the user has.
validated_title :
    (lib : Library) (title_exists : String → Bool) (title : String)
    → validate_category_modification lib title_exists (titled_request title) ≡ none
    → title_exists title ≡ false
unfolding validate_category_modification validate_category_creation
validated_title lib title_exists title h = ground arith

checked-UniqueKeys :
    (err : Option LocalizedError) (title : String) (c : Category) (rows : List Category)
    → (err ≡ none
        → All
            (λ d. (d.user_id == c.user_id && not (d.id == c.id) && d.title == title) ≡ false)
            rows)
    → UniqueKeys rows
    → UniqueKeys (checked err title c rows).1
unfolding update_category patch_category
checked-UniqueKeys (some err) title c rows free h = h
checked-UniqueKeys none title c rows free h =
    overwrite-UniqueKeys (patch_category (titled_request title) c) rows (free refl) h

picked :
    (b : Bool) (user_id : ℕ) (d c : Category) (rest : Option Category)
    → (b ≡ true → d.user_id ≡ user_id)
    → (rest ≡ some c → c.user_id ≡ user_id)
    → (if b then some d else rest) ≡ some c
    → c.user_id ≡ user_id
picked true user_id d c rest here there h =
    ap (λ o. elim o [ none ↦ user_id | some x ↦ x.user_id ]) (sym h) ∙ here refl
picked false user_id d c rest here there h = there h

category_by_title-user :
    (user_id : ℕ) (title : String) (rows : List Category) (c : Category)
    → category_by_title user_id title rows ≡ some c
    → c.user_id ≡ user_id
unfolding category_by_title
category_by_title-user user_id title [] c h = absurd (cc)
category_by_title-user user_id title (d ∷ rows) c h =
    picked (d.user_id == user_id && d.title == title) user_id d c
      (category_by_title user_id title rows) (λ here. eq_of_beq d.user_id user_id (ground arith))
      (λ there. category_by_title-user user_id title rows c there) h

unless_refused :
    (b b' : Bool) (out : Reply × List Category) (rows : List Category)
    → UniqueKeys out.1
    → UniqueKeys rows
    → UniqueKeys (if b then (bad_request, rows) else if b' then (bad_request, rows) else out).1
unless_refused true b' out rows good h = h
unless_refused false true out rows good h = h
unless_refused false false out rows good h = good

module _ (lib : Library) (lower : String → String) (user_id : ℕ) (rows : List Category) where
  rename_category-UniqueKeys :
      (title : String) (found : Option Category)
      → ((c : Category) → found ≡ some c → c.user_id ≡ user_id)
      → UniqueKeys rows
      → UniqueKeys (rename_category lib lower user_id title found rows).1
  unfolding another_category_exists
  rename_category-UniqueKeys title none own h = h
  rename_category-UniqueKeys title (some c) own h =
      let err =
        validate_category_modification lib (λ t. another_category_exists lower user_id c.id t rows)
          (titled_request title) in
      checked-UniqueKeys err title c rows
        (λ passed. rw (own c refl) (
          free_rows lower user_id c.id title rows (
            validated_title lib (λ t. another_category_exists lower user_id c.id t rows) title
              passed)))
        h

  rename_label-UniqueKeys :
      (source destination : Stream)
      → UniqueKeys rows
      → UniqueKeys (rename_label lib lower user_id source destination rows).1
  rename_label-UniqueKeys source destination h =
      unless_refused (not (is_label source.type) || not (is_label destination.type))
        (destination.id == "")
        (rename_category lib lower user_id destination.id (category_by_title user_id source.id rows)
          rows)
        rows
        (rename_category-UniqueKeys destination.id (category_by_title user_id source.id rows)
          (λ c found. category_by_title-user user_id source.id rows c found) h)
        h

  with_source-UniqueKeys :
      (source destination : StreamError ⊎ Stream)
      → UniqueKeys rows
      → UniqueKeys (with_source lib lower user_id source destination rows).1
  with_source-UniqueKeys (inl err) destination h = h
  with_source-UniqueKeys (inr source) (inl err) h = h
  with_source-UniqueKeys (inr source) (inr destination) h =
      rename_label-UniqueKeys source destination h

-- A request to rename a tag keeps the keys of the table of categories, whatever its texts are: where
-- no two categories have one id and no two of one user have one title, that holds afterwards.
pub rename_tag-UniqueKeys :
    (lib : Library) (lower : String → String) (user_id : ℕ) (source destination : String)
    (rows : List Category)
    → UniqueKeys rows
    → UniqueKeys (rename_tag lib lower user_id source destination rows).1
unfolding rename_tag
rename_tag-UniqueKeys lib lower user_id source destination rows h =
    with_source-UniqueKeys lib lower user_id rows (get_stream source (pos user_id))
      (get_stream destination (pos user_id)) h
