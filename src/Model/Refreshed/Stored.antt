-- ===== src/Model/Refreshed/Stored.antt =====
-- Which stored entry mapStoredEntries keeps for a hash.
use miniflux.Base.{
  ℕ, String, ◌≡◌, ◌∙◌, ◌&&◌, Option, none, some, List, [], ◌∷◌, arith, eq_iff, if◌then◌else◌, ◌==◌,
  nat_eq, string_eq, lookup, lookup-insert,
}
use miniflux.Model.Entry.{Entry}
use miniflux.Model.Refreshed.{store_entry, map_stored_from, map_stored_entries}

-- The first of two that is there.
abbrev pub or_else {ℓ} : {A : Type ℓ} → Option A → Option A → Option A
or_else none y = y
or_else (some x) y = some x

module _ {Url : Type 0} where
  -- The first stored entry with the hash.
  unfoldable pub first_stored : String → List (Entry Url) → Option (Entry Url)
  first_stored h [] = none
  first_stored h (e ∷ es) = if e.hash == h then some e else first_stored h es

  -- The last stored entry with the hash in the feed itself.
  unfoldable pub last_own : ℕ → String → List (Entry Url) → Option (Entry Url)
  last_own feed_id h [] = none
  last_own feed_id h (e ∷ es) =
      or_else (last_own feed_id h es) (if e.hash == h && e.feed_id == feed_id then some e else none)

  lookup-store_entry :
      (feed_id : ℕ) (h : String) (m : List (String × Entry Url)) (e : Entry Url)
      → lookup h (store_entry feed_id m e) ≡ (
          if e.hash == h
          then or_else
              (if e.feed_id == feed_id then some e else none)
              (or_else (lookup h m) (some e))
          else lookup h m)
  unfolding store_entry
  lookup-store_entry feed_id h m e = ground (arith, lookup-insert e.hash h e m, eq_iff e.hash h)

  lookup-map_stored_from :
      (feed_id : ℕ) (h : String) (m : List (String × Entry Url)) (es : List (Entry Url))
      → lookup h (map_stored_from feed_id m es)
        ≡ or_else (last_own feed_id h es) (or_else (lookup h m) (first_stored h es))
  unfolding map_stored_from last_own first_stored
  lookup-map_stored_from feed_id h m [] = ground arith
  lookup-map_stored_from feed_id h m (e ∷ es) =
      lookup-map_stored_from feed_id h (store_entry feed_id m e) es
      ∙ ground (arith, lookup-store_entry feed_id h m e)

  -- For a hash mapStoredEntries keeps the last stored entry of the feed itself, and where the feed
  -- has none the first of any feed.
  pub lookup-map_stored_entries :
      (feed_id : ℕ) (h : String) (es : List (Entry Url))
      → lookup h (map_stored_entries feed_id es)
        ≡ or_else (last_own feed_id h es) (first_stored h es)
  unfolding map_stored_entries lookup
  lookup-map_stored_entries feed_id h es = lookup-map_stored_from feed_id h [] es
