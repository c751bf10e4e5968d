-- ===== src/Reader/Filter/Tests.antt =====
-- Runs of the filter, and its theorems at inputs.
use miniflux.Base.{
  ℕ, ◌+◌, ◌*◌, ◌≤◌, String, ◌≡◌, refl, ◌⊎◌, inr, false, not, ◌&&◌, none, some, List, [], ◌∷◌, arith,
  if◌then◌else◌, ◌==◌, nat_eq, string_eq, length, any,
}
use miniflux.Base.Int.{pos, negsuc, ◌<ℤ◌}
use miniflux.Base.Text.{has_prefix, cut, cut_suffix, split, trim_space, is_space}
use miniflux.Base.Sort.{sort, IsSorted}
use miniflux.Model.Entry.{Entry}
use miniflux.Model.Feed.{Feed}
use miniflux.Model.User.{User}
use miniflux.Model.Samples.{entry_of, blank_feed, blank_user}
use miniflux.Model.Feed.{inc_filtered_by_rules}
use miniflux.Reader.Filter.Dates.{days}
use miniflux.Reader.Filter.Rules.{Library, RuleError, unknown_field, new_combined_filter}
use miniflux.Reader.Filter.Entries.{
  settings_of, add_unique, Run, done, failed, block_rules, keep_rules, delete_entries,
}
use miniflux.Reader.Filter.Entries.{match_author}
use miniflux.Reader.Filter.Authors.{match_author-any, days-exact_or_negative}
use miniflux.Reader.Filter.Safety.{delete_entries-ends}
use miniflux.Reader.Filter.Counting.{OfRun, dropped, delete_entries-counts}
use miniflux.Reader.Filter.Kept.{HasOwnHashes, delete_entries-HasOwnHashes}

-- Regular expressions that are prefixes.
abbrev prefixes : Library
prefixes = record {
  Regexp = String;
  compile = λ s. some s;
  match_string = has_prefix;
  to_lower = λ s. s;
  parse_date = λ s. none;
  atoi = λ s. if s == "200000" then some (pos 200000) else none;
  parse_go_duration = λ s. none;
  binary_search = λ authors a. any (λ b. a == b) authors;
}

abbrev user : User ℕ
user = record blank_user { block_filter_entry_rules = " \nhash=x\n\n" }

abbrev reader : User ℕ
reader = record blank_user { block_filter_entry_rules = " title=bad\r\n\nurl = http:" }

abbrev feed : Feed String
feed = record blank_feed {
  entries =
      (let e = entry_of 1 "a" 5 in record e { title = "good" })
      ∷ (let e = entry_of 1 "b" 5 in record e { title = "bad news" })
      ∷ (let e = entry_of 1 "a" 6 in record e { title = "again" })
      ∷ [];
}

unknown : new_combined_filter prefixes ("" ∷ " \nhash=x\n\n" ∷ []) ≡ inr (2, 2, unknown_field)
unfolding new_combined_filter cut cut_suffix split trim_space is_space
unknown = refl

-- A limit of 200000 days overflows the duration.
overflow : days (pos 200000) ≡ negsuc 1166744073709551615
unfolding days
overflow = refl

abbrev run : Run (Feed String)
run = delete_entries prefixes 100 0 false false reader feed

kept_one :
    run
    ≡ done (record feed {
      entries = (let e = entry_of 1 "a" 5 in record e { title = "good" }) ∷ [];
      filtered_by_rules = 1;
      filtered_by_hash = 1;
    })
unfolding delete_entries sort has_prefix trim_space split cut_suffix cut add_unique
    inc_filtered_by_rules
kept_one = refl

delete_entries-ends_example :
    ((f' : Feed String) × (run ≡ done f'))
    ⊎ ((err : ℕ × ℕ × RuleError) × (run ≡ failed err)
        × ((block_rules prefixes reader feed ≡ inr err)
            ⊎ (keep_rules prefixes reader feed ≡ inr err)))
delete_entries-ends_example = delete_entries-ends prefixes 100 0 false false reader feed

delete_entries-counts_example :
    OfRun (λ f'. length f'.entries + dropped f' ≡ length feed.entries + dropped feed) run
delete_entries-counts_example = delete_entries-counts prefixes 100 0 false reader feed refl

delete_entries-HasOwnHashes_example : OfRun (λ f'. HasOwnHashes f'.entries) run
delete_entries-HasOwnHashes_example =
    delete_entries-HasOwnHashes prefixes 100 0 false reader feed refl

any_flipped :
    (xs : List String) (a : String)
    → IsSorted xs
    → prefixes.binary_search xs a ≡ any (λ y. a == y) xs
any_flipped xs a sorted = refl

abbrev by_ann : Entry String
by_ann = let e = entry_of 1 "a" 5 in record e { author = "ann" }

abbrev two_blocked : Feed String
two_blocked =
    let extra = blank_feed.extra in
    record blank_feed { extra = record extra { block_authors = "zoe" ∷ "ann" ∷ [] } }

match_author-any_example :
    match_author prefixes (settings_of prefixes 0 false false two_blocked [] []).authors by_ann
    ≡ (not (by_ann.author == "") && any (λ y. by_ann.author == y) ("zoe" ∷ "ann" ∷ []))
match_author-any_example =
    match_author-any prefixes 0 false false two_blocked [] [] by_ann any_flipped

days-exact_or_negative_example :
    ((200000 ≤ 106751) × (days (pos 200000) ≡ pos (200000 * 86400000000000)))
    ⊎ ((106752 ≤ 200000) × (days (pos 200000) <ℤ pos 0))
days-exact_or_negative_example = days-exact_or_negative 200000 (omega arith)
