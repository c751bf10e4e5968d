-- ===== src/Ui/Pagination.antt =====
-- internal/ui/pagination.go: the offsets of the pages of a list, and what the links show. The
-- number of items per page is positive, as validateEntriesPerPage demands; Go panics at 0. The
-- query of a link is net/url's encoding, which is left out.
pub mod Laws
mod Tests
use miniflux.Base.{
  ℕ, zero, suc, ◌+◌, ◌-◌, ◌*◌, ◌/◌, ◌%◌, ◌≤◌, ◌<◌, min, max, String, ◌≡◌, refl, sym, ap, ◌∙◌, ◌≢◌,
  ◌↔◌, ◌⊎◌, inl, inr, Bool, true, false, not, ◌&&◌, ◌||◌, Option, none, some, List, [], ◌∷◌, ◌++◌,
  map, reverse, arith, eq_iff, ltb, leb, nat_beq, if◌then◌else◌, ltb→lt, lt→ltb, leb→le,
  nat_beq_iff, tests, Eq, ◌==◌, nat_eq, string_eq, Bool-cases, Option-cases, beq_refl, eq_of_beq,
  ne_of_beq, beq_of_ne, length, get_elem?, length-append, All-mem, Memᴰ, any, keep, All, All-append,
  All-map, lookup, insert, lookup-insert, lookup-insert_self, length-insert_new,
}
use miniflux.Base.Int.{
  ℤ, pos, negsuc, pos_part, neg_part, sub_ℕ, ◌+ℤ◌, ◌-ℤ◌, quot, rem, ◌≤ℤ◌, ◌<ℤ◌, ltb_ℤ, leb_ℤ, eqb_ℤ,
  +ℤ_parts, -ℤ_parts, eq_of_parts, int_laws,
}

pub record Pagination : Type 0 where
  pub route : String
  pub total : ℤ
  pub offset : ℤ
  pub items_per_page : ℕ
  pub show_next : Bool
  pub show_last : Bool
  pub show_first : Bool
  pub show_prev : Bool
  pub next_offset : ℤ
  pub last_offset : ℤ
  pub prev_offset : ℤ
  pub first_offset : ℤ
  pub search_query : String
  pub unread_only : Bool

-- The local lastOffset.
abbrev pub last_offset_of : ℤ → ℕ → ℤ
last_offset_of total items =
    let last : ℤ = elim (quot total items) [
      | pos q ↦ pos (q * items)
      | negsuc q ↦ sub_ℕ 0 (suc q * items)
    ] in
    if eqb_ℤ last total then last -ℤ pos items else last

unfoldable pub get_pagination : String → ℤ → ℤ → ℕ → Pagination
get_pagination route total offset items =
    let show_next = ltb_ℤ (pos items) (total -ℤ offset) in
    let show_prev = ltb_ℤ (pos 0) offset in
    record {
      route = route;
      total = total;
      offset = offset;
      items_per_page = items;
      show_next = show_next;
      show_last = show_next;
      show_first = show_prev;
      show_prev = show_prev;
      next_offset = if show_next then offset +ℤ pos items else pos 0;
      last_offset = last_offset_of total items;
      prev_offset = if show_prev then offset -ℤ pos items else pos 0;
      first_offset = pos 0;
      search_query = "";
      unread_only = false;
    }

-- pagination.WithSearchQuery, WithUnreadOnly
unfoldable pub with_search_query : String → Pagination → Pagination
with_search_query q p = record p { search_query = q }

unfoldable pub with_unread_only : Bool → Pagination → Pagination
with_unread_only value p = record p { unread_only = value }

-- disabled
unfoldable pub disabled : Bool → String
disabled true = ""
disabled false = "disabled"

-- pagination.offsetQuery: the values that the query holds, before their encoding; `query_escape` is
-- net/url's QueryEscape.
unfoldable pub offset_query : (String → String) → ℤ → Pagination → List (String × (String ⊎ ℤ))
offset_query query_escape offset p =
    (if ltb_ℤ (pos 0) offset then ("offset", inr offset) ∷ [] else [])
    ++ (if not (p.search_query == "") then ("q", inl (query_escape p.search_query)) ∷ [] else [])
    ++ (if p.unread_only then ("unread", inl "1") ∷ [] else [])
