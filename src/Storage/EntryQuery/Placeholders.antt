-- ===== src/Storage/EntryQuery/Placeholders.antt =====
-- A query that is put together by its methods asks for what the methods were told.
use miniflux.Base.{
  ℕ, zero, suc, String, ◌≡◌, refl, Bool, true, false, Option, none, some, List, [], ◌∷◌, ◌++◌,
  if◌then◌else◌, ◌==◌, nat_eq, string_eq, length, get_elem?,
}
use miniflux.Base.Int.{ℤ, pos, ltb_ℤ}
use miniflux.Base.Text.{append}
use miniflux.Base.Numbers.{format_uint, decimal}
use miniflux.Storage.EntryQuery.{Arg, int, text, ints, texts, date}
use miniflux.Storage.EntryQuery.Methods

-- A condition with its argument in its place.
pub record Condition : Type 0 where
  pub front : String
  pub arg : Option Arg
  pub back : String

abbrev pub plain : String → Condition
plain s = record { front = s; arg = none; back = "" }

abbrev pub asks : String → Arg → String → Condition
asks front arg back = record { front = front; arg = some arg; back = back }

-- The calls of the methods.
pub data Call : Type 0 where
  content : Bool → Call
  author search status other_status : String → Call
  starred : Bool → Call
  before_changed after_changed before_published after_published : ℕ → Call
  before_id after_id entry_id feed_id category_id limit offset offset_id : ℤ → Call
  entry_ids : List ℤ → Call
  statuses tags : List String → Call
  globally_visible : Call
  sorting : String → String → Call

abbrev pub unless : Bool → Condition → List Condition
unless true c = []
unless false c = c ∷ []

abbrev pub when : Bool → Condition → List Condition
when true c = c ∷ []
when false c = []

abbrev pub one_id : ℤ → List Condition
one_id id = unless (Methods.is_zero id) (asks "e.id = $" (int id) "")

abbrev pub one_status : String → List Condition
one_status s = unless (s == "") (asks "e.status = $" (text s) "")

-- What a call adds to the conditions.
unfoldable pub conditions_of : Call → List Condition
conditions_of (content v) = []
conditions_of (author name) = asks "e.author = $" (text name) "" ∷ []
conditions_of (search query) =
    unless (query == "") (asks "e.document_vectors @@ websearch_to_tsquery($" (text query) ")")
conditions_of (status s) = one_status s
conditions_of (other_status s) = unless (s == "") (asks "e.status <> $" (text s) "")
conditions_of (starred v) = plain (if v then "e.starred is true" else "e.starred is false") ∷ []
conditions_of (before_changed at) = asks "e.changed_at < $" (date at) "" ∷ []
conditions_of (after_changed at) = asks "e.changed_at > $" (date at) "" ∷ []
conditions_of (before_published at) = asks "e.published_at < $" (date at) "" ∷ []
conditions_of (after_published at) = asks "e.published_at > $" (date at) "" ∷ []
conditions_of (before_id id) = unless (Methods.is_zero id) (asks "e.id < $" (int id) "")
conditions_of (after_id id) = unless (Methods.is_zero id) (asks "e.id > $" (int id) "")
conditions_of (entry_id id) = one_id id
conditions_of (feed_id id) = when (ltb_ℤ (pos 0) id) (asks "e.feed_id = $" (int id) "")
conditions_of (category_id id) = when (ltb_ℤ (pos 0) id) (asks "f.category_id = $" (int id) "")
conditions_of (limit n) = []
conditions_of (offset n) = []
conditions_of (offset_id id) = []
conditions_of (entry_ids []) = []
conditions_of (entry_ids (id ∷ [])) = one_id id
conditions_of (entry_ids (id ∷ next ∷ ids)) = asks "e.id = ANY($" (ints (id ∷ next ∷ ids)) ")" ∷ []
conditions_of (statuses []) = []
conditions_of (statuses (s ∷ [])) = one_status s
conditions_of (statuses (s ∷ next ∷ rest)) =
    asks "e.status = ANY($" (texts (s ∷ next ∷ rest)) ")" ∷ []
conditions_of (tags []) = []
conditions_of (tags (t ∷ ts)) =
    asks "LOWER(e.tags::text)::text[] @> LOWER($" (texts (t ∷ ts)) "::text[]::text)::text[]" ∷ []
conditions_of globally_visible =
    plain "c.hide_globally IS FALSE" ∷ plain "f.hide_globally IS FALSE" ∷ []
conditions_of (sorting column direction) = []

-- A text shows a condition: its placeholder is the position, from 1, of the argument.
abbrev pub Placed : List Arg → String → Option Arg → String → String → Type 0
Placed args front none back shown = shown ≡ front
Placed args front (some arg) back shown =
    (i : ℕ) × (shown ≡ append front (append (format_uint decimal (suc i)) back))
    × (get_elem? args i ≡ some arg)

abbrev pub Shows : List Arg → Condition → String → Type 0
Shows args c shown = Placed args c.front c.arg c.back shown

abbrev pub ShowsAll : List Arg → List Condition → List String → Type 0
ShowsAll args [] [] = Unit
ShowsAll args [] (s ∷ shown) = ⊥
ShowsAll args (c ∷ conditions) [] = ⊥
ShowsAll args (c ∷ conditions) (s ∷ shown) = Shows args c s × ShowsAll args conditions shown

get_elem?-append :
    (args more : List Arg) (i : ℕ) (arg : Arg)
    → get_elem? args i ≡ some arg
    → get_elem? (args ++ more) i ≡ some arg
get_elem?-append [] more i arg h = absurd (cc)
get_elem?-append (a ∷ args) more zero arg h = h
get_elem?-append (a ∷ args) more (suc i) arg h = get_elem?-append args more i arg h

pub get_elem?-last :
    (args : List Arg) (arg : Arg) → get_elem? (args ++ arg ∷ []) (length args) ≡ some arg
get_elem?-last [] arg = refl
get_elem?-last (a ∷ args) arg = get_elem?-last args arg

Placed-more :
    (args more : List Arg) (front : String) (arg : Option Arg) (back shown : String)
    → Placed args front arg back shown
    → Placed (args ++ more) front arg back shown
Placed-more args more front none back shown h = h
Placed-more args more front (some arg) back shown (i, h, found) =
    (i, h, get_elem?-append args more i arg found)

pub ShowsAll-more :
    (args more : List Arg) (cs : List Condition) (shown : List String)
    → ShowsAll args cs shown
    → ShowsAll (args ++ more) cs shown
ShowsAll-more args more [] [] h = tt
ShowsAll-more args more [] (s ∷ shown) h = h
ShowsAll-more args more (c ∷ cs) [] h = h
ShowsAll-more args more (c ∷ cs) (s ∷ shown) (first, rest) =
    (Placed-more args more c.front c.arg c.back s first, ShowsAll-more args more cs shown rest)

pub ShowsAll-append :
    (args : List Arg) (cs ds : List Condition) (shown more : List String)
    → ShowsAll args cs shown
    → ShowsAll args ds more
    → ShowsAll args (cs ++ ds) (shown ++ more)
ShowsAll-append args [] ds [] more h k = k
ShowsAll-append args [] ds (s ∷ shown) more h k = absurd h
ShowsAll-append args (c ∷ cs) ds [] more h k = absurd h
ShowsAll-append args (c ∷ cs) ds (s ∷ shown) more (first, rest) k =
    (first, ShowsAll-append args cs ds shown more rest k)
