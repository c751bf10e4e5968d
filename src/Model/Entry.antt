-- ===== src/Model/Entry.antt =====
-- internal/model/entry.go and enclosure.go: an entry of a feed and its attachments.
-- Instants are nanoseconds, identifiers are natural numbers. The pointers to the feed, to the Atom
-- element and to the site data are left out; a parsed URL is a value of a type `Url` of net/url.
use miniflux.Base.{
  ℕ, String, Bool, true, false, not, ◌&&◌, ◌||◌, Option, none, some, List, ◌++◌, map, if◌then◌else◌,
  ◌==◌, nat_eq, string_eq, any,
}
use miniflux.Base.Text.{has_prefix}

-- entry.go: EntryStatusUnread, EntryStatusRead, EntryStatusRemoved
abbrev pub status_unread : String
status_unread = "unread"

abbrev pub status_read : String
status_read = "read"

abbrev pub status_removed : String
status_removed = "removed"

pub record Enclosure (Url : Type 0) : Type 0 where
  pub url : String
  pub mime_type : String
  pub size : ℕ
  pub media_progression : ℕ
  pub height : ℕ
  pub width : ℕ
  pub original_url : String
  pub parsed_url : Option Url

pub record EntryExtra (Url : Type 0) : Type 0 where
  pub language : String
  pub auto_title : String
  pub enclosures : List (Enclosure Url)

pub record Entry (Url : Type 0) : Type 0 where
  pub id : ℕ
  pub user_id : ℕ
  pub feed_id : ℕ
  pub status : String
  pub hash : String
  pub title : String
  pub url : String
  pub comments_url : String
  pub date : ℕ
  pub created_at : ℕ
  pub changed_at : ℕ
  pub content : String
  pub author : String
  pub starred : Bool
  pub reading_time : ℕ
  pub tags : List String
  pub extra : EntryExtra Url
  pub parsed_url : Option Url
  pub imported : Bool
  pub stored : Bool

module _ {Url : Type 0} where
  -- Entry.KeepImportedStatus
  unfoldable pub keep_imported_status : String → Entry Url → Entry Url
  keep_imported_status value e = if e.imported then e else record e { status = value }

  -- Entry.Unread
  unfoldable pub is_unread : Entry Url → Bool
  is_unread e = e.status == status_unread

  -- Entry.MarkStored
  unfoldable pub mark_stored : Entry Url → Entry Url
  mark_stored e = record e { stored = true }

  -- Entry.WithURLString
  unfoldable pub with_url_string : String → Entry Url → Entry Url
  with_url_string s e = if e.url == s then e else record e { parsed_url = none; url = s }

  -- Entry.AppendEnclosures; `nil` is the empty list.
  unfoldable pub append_enclosures : List (Enclosure Url) → Entry Url → Entry Url
  append_enclosures list e =
      let extra = e.extra in
      record e { extra = record extra { enclosures = extra.enclosures ++ list } }

  -- Entry.AutoTitle
  unfoldable pub auto_title : Entry Url → String
  auto_title e =
      if not (e.title == "")
      then e.title
      else if not (e.extra.auto_title == "")
      then e.extra.auto_title
      else e.url

  -- Entries.RefreshFeed, one round of its loop
  unfoldable pub refresh_entry : ℕ → ℕ → Entry Url → Entry Url
  refresh_entry user_id feed_id e =
      let e' = record e { user_id = user_id; feed_id = feed_id } in
      if e.status == "" then record e' { status = status_unread } else e'

  -- Entries.Hashes
  unfoldable pub hashes : List (Entry Url) → List String
  hashes es = map (λ e. e.hash) es

  -- Entries.RefreshFeed: the entries as the loop leaves them, and their hashes.
  unfoldable pub refresh_feed : ℕ → ℕ → List (Entry Url) → List (Entry Url) × List String
  unfolding refresh_entry hashes
  refresh_feed user_id feed_id es =
      let es' = map (refresh_entry user_id feed_id) es in (es', hashes es')

  -- Entry.WithURL, Entry.ParsedURL; `parse` and `show` are net/url's Parse and String.
  module _ (parse : String → Option Url) (show : Url → String) where
    unfoldable pub with_url : Option Url → Entry Url → Entry Url
    unfolding with_url_string
    with_url none e = with_url_string "" e
    with_url (some u) e = record e { parsed_url = some u; url = show u }

    -- The result, `none` for an error, and the entry with its cache.
    unfoldable pub parsed_url : Entry Url → Option Url × Entry Url
    parsed_url e = elim e.parsed_url [
      | some u ↦ (some u, e)
      | none ↦ elim (parse e.url) [
        | none ↦ (none, e)
        | some u ↦ (some u, record e { parsed_url = some u })
      ]
    ]

  -- Enclosure.IsAudio, IsVideo; `to_lower` is strings.ToLower.
  module _ (to_lower : String → String) where
    unfoldable pub is_audio : Enclosure Url → Bool
    is_audio enc = has_prefix "audio/" (to_lower enc.mime_type)

    unfoldable pub is_video : Enclosure Url → Bool
    is_video enc = has_prefix "video/" (to_lower enc.mime_type)

    -- EnclosureList.ContainsAudioOrVideo
    unfoldable pub contains_audio_or_video : List (Enclosure Url) → Bool
    unfolding is_audio is_video
    contains_audio_or_video list = any (λ enc. is_audio enc || is_video enc) list

    -- Entry.ShouldMarkAsReadOnView; the two Booleans are the user's settings
    -- MarkReadOnMediaPlayerCompletion and MarkReadOnView.
    unfoldable pub should_mark_as_read_on_view : Bool → Bool → Entry Url → Bool
    should_mark_as_read_on_view on_completion on_view e =
        if not (e.status == status_unread)
        then false
        else if on_completion && contains_audio_or_video e.extra.enclosures
        then false
        else on_view

-- EntryUpdateRequest
pub record EntryUpdateRequest : Type 0 where
  pub title : Option String
  pub content : Option String

-- `if p != nil && *p != "" { field = *p }`
abbrev pub over_non_empty : Option String → String → String
over_non_empty none old = old
over_non_empty (some s) old = if s == "" then old else s

-- EntryUpdateRequest.Patch
unfoldable pub patch_entry : {Url : Type 0} → EntryUpdateRequest → Entry Url → Entry Url
patch_entry r e = record e {
  title = over_non_empty r.title e.title;
  content = over_non_empty r.content e.content;
}
