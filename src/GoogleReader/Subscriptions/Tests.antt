-- ===== src/GoogleReader/Subscriptions/Tests.antt =====
-- Requests that edit a subscription.
use miniflux.Base.{
  ℕ, String, ◌≡◌, refl, sym, ap, ◌∙◌, ◌≢◌, true, false, Option, none, some, if◌then◌else◌, ◌==◌,
  nat_eq, string_eq, beq_refl, beq_of_ne,
}
use miniflux.Base.Int.{ℤ, pos, negsuc}
use miniflux.Base.Numbers.{parse_int, parse_digits, scan_digits, decimal_value}
use miniflux.Model.Category.{Category}
use miniflux.Model.Feed.{Feed}
use miniflux.Model.Feed.Patch.{patch_feed}
use miniflux.Model.Samples.{blank_feed}
use miniflux.GoogleReader.Reply.{Reply, ok, bad_request}
use miniflux.GoogleReader.Streams.{label_stream, feed_stream, Stream}
use miniflux.GoogleReader.FeedStore.{Storage}
use miniflux.GoogleReader.Subscriptions.{get_feed, get_or_create_category, rename, move, edit}

-- The titles and the categories of the feeds.
abbrev Rows : Type 0
Rows = ℕ → Option (String × ℕ)

abbrev category_of : ℕ → String → Category
category_of id title = record {
  id = id;
  title = title;
  user_id = 1;
  hide_globally = false;
  extra = record { block_filter = ""; hide_label = false };
  feed_count = none;
  total_unread = none;
}

abbrev feed_of_row : ℕ → Option (String × ℕ) → Option (Feed String)
feed_of_row id none = none
feed_of_row id (some (title, category)) =
    some (record blank_feed { id = id; title = title; category = category_of category "" })

abbrev feed_of_rows : ℤ → Rows → Option (Feed String)
feed_of_rows (pos id) rows = feed_of_row id (rows id)
feed_of_rows (negsuc n) rows = none

abbrev put : Feed String → Rows → Rows
put f rows id = if id == f.id then some (f.title, f.category.id) else rows id

feed_of_row-id :
    (id : ℕ) (row : Option (String × ℕ)) (f : Feed String) → feed_of_row id row ≡ some f → f.id ≡ id
feed_of_row-id id none f h = absurd (cc)
feed_of_row-id id (some (title, category)) f h =
    ap (λ o. elim o [ none ↦ id | some g ↦ g.id ]) (sym h)

feed_of_rows-id :
    (id : ℤ) (f : Feed String) (rows : Rows) → feed_of_rows id rows ≡ some f → pos f.id ≡ id
feed_of_rows-id (pos id) f rows h = ap pos (feed_of_row-id id (rows id) f h)
feed_of_rows-id (negsuc n) f rows h = absurd (cc)

put-found :
    (f : Feed String) (rows : Rows)
    → feed_of_rows (pos f.id) (put f rows)
      ≡ some (record blank_feed {
        id = f.id;
        title = f.title;
        category = category_of f.category.id "";
      })
put-found f rows = rw (beq_refl f.id) refl

put-other :
    (f : Feed String) (rows : Rows) (id : ℤ)
    → pos f.id ≢ id
    → feed_of_rows id (put f rows) ≡ feed_of_rows id rows
put-other f rows (pos id) apart = rw (beq_of_ne id f.id (λ same. apart (ap pos (sym same)))) refl
put-other f rows (negsuc n) apart = refl

some_inj : {A : Type 0} (a b : A) → some a ≡ some b → a ≡ b
some_inj a b h = cc

abbrev in_memory : Storage String
in_memory = record {
  State = Rows;
  feed_by_id = λ id rows. some (feed_of_rows id rows);
  update_feed = λ f rows. some (put f rows);
  remove_multiple_feeds = λ ids rows. some rows;
  first_category = λ rows. some (some (category_of 1 "All"));
  category_by_title = λ title rows. some none;
  create_category = λ title rows. some (category_of 7 title, rows);
  remove_categories = λ titles rows. some rows;
  id_law = λ id f rows h. feed_of_rows-id id f rows (some_inj (feed_of_rows id rows) (some f) h);
  update_law = λ f rows rows' h.
      let same = some_inj (put f rows) rows' h in
      (
        record blank_feed { id = f.id; title = f.title; category = category_of f.category.id "" },
        ap (λ r. some (feed_of_rows (pos f.id) r)) (sym same) ∙ ap some (put-found f rows),
        refl,
        refl,
      );
  update_other_law = λ f rows rows' id h apart.
      let same = some_inj (put f rows) rows' h in
      ap (λ r. some (feed_of_rows id r)) (sym same) ∙ ap some (put-other f rows id apart);
  create_law = λ title rows rows' c id h.
      let same : rows ≡ rows' = ap (λ o. elim o [ none ↦ rows | some p ↦ p.1 ]) h in
      ap (λ r. some (feed_of_rows id r)) (sym same);
}

abbrev two_feeds : Rows
two_feeds id = if id == 4 then some ("News", 1) else if id == 5 then some ("Blog", 2) else none

abbrev feed_4 : Stream
feed_4 = record { type = feed_stream; id = "4" }

abbrev tech : Stream
tech = record { type = label_stream; id = "Tech" }

-- The reply, and the two feeds after it.
abbrev seen : Reply × Rows → Reply × (Option (String × ℕ) × Option (String × ℕ))
seen (reply, rows) = (reply, (rows 4, rows 5))

-- A rename and a move into a new category.
renamed_and_moved :
    seen (edit in_memory feed_4 "Daily" true tech two_feeds)
    ≡ (ok, (some ("Daily", 7), some ("Blog", 2)))
unfolding edit rename move get_feed get_or_create_category patch_feed parse_int parse_digits
    scan_digits decimal_value
renamed_and_moved = refl

-- A tag to add that is no label is refused after the feed has been renamed.
renamed_and_refused :
    seen (edit in_memory feed_4 "Daily" true feed_4 two_feeds)
    ≡ (bad_request, (some ("Daily", 1), some ("Blog", 2)))
unfolding edit rename move get_feed patch_feed parse_int parse_digits scan_digits decimal_value
renamed_and_refused = refl

-- A feed that is not there.
not_there :
    (edit in_memory (record feed_4 { id = "6" }) "Daily" false tech two_feeds).0 ≡ bad_request
unfolding edit rename move get_feed patch_feed parse_int parse_digits scan_digits decimal_value
not_there = refl
