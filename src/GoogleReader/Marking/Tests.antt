-- ===== src/GoogleReader/Marking/Tests.antt =====
-- Requests to mark entries as read.
use miniflux.Base.{
  ℕ, ◌*◌, String, ◌≡◌, refl, Option, none, some, List, [], ◌∷◌, if◌then◌else◌, ◌==◌, nat_eq,
  string_eq,
}
use miniflux.Base.Int.{pos}
use miniflux.Base.Text.{byte_length}
use miniflux.Base.Numbers.{parse_int, parse_digits, scan_digits, decimal_value}
use miniflux.Model.Entry.{Entry}
use miniflux.Model.Samples.{blank_entry}
use miniflux.Storage.Entries.{mark_feed_as_read}
use miniflux.GoogleReader.Reply.{ok, not_found}
use miniflux.GoogleReader.Marking.{marked_before, mark_feed, mark_all}
use miniflux.GoogleReader.Marking.Sound.{Sound, mark_all-Sound}

abbrev owner : ℕ → ℕ
owner feed = 1

abbrev category_of : ℕ → ℕ
category_of feed = 3

abbrev by_title : String → Option ℕ
by_title title = if title == "News" then some 3 else none

abbrev rows : List (Entry String)
rows = record blank_entry { id = 4; date = 10 } ∷ record blank_entry { id = 5; date = 30 } ∷ []

-- Microseconds are told by the length of the text.
micro :
    (marked_before 9 "1700000000" ≡ some (1700000000 * 1000000000))
    × (marked_before 9 "1700000000000000" ≡ some (1700000000000000 * 1000))
unfolding marked_before byte_length parse_int parse_digits scan_digits decimal_value
micro = (refl, refl)

-- The second request of the same kind answers that there is nothing.
feed_twice :
    (mark_feed owner category_of by_title 20 1 20 (some (pos 1)) rows ≡ (
      ok,
      record blank_entry { id = 4; date = 10; status = "read"; changed_at = 20 }
          ∷ record blank_entry { id = 5; date = 30 }
          ∷ [],
    ))
    × (mark_feed owner category_of by_title 21 1 20
          (some (pos 1))
          (record blank_entry { id = 5; date = 30 } ∷ [])
        ≡ (not_found, record blank_entry { id = 5; date = 30 } ∷ []))
unfolding mark_feed mark_feed_as_read
feed_twice = (refl, refl)

mark_all-Sound_example :
    Sound owner category_of by_title 20 1 rows
      (mark_all owner category_of by_title 20 1 "user/-/label/News" "" rows)
mark_all-Sound_example = mark_all-Sound owner category_of by_title 20 1 "user/-/label/News" "" rows
