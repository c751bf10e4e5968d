-- ===== src/Model/Category.antt =====
-- internal/model/category.go: a category of feeds.
use miniflux.Base.{ℕ, String, Bool, Option, none, some, nat_eq, string_eq}

pub record CategoryExtra : Type 0 where
  pub block_filter : String
  pub hide_label : Bool

pub record Category : Type 0 where
  pub id : ℕ
  pub title : String
  pub user_id : ℕ
  pub hide_globally : Bool
  pub extra : CategoryExtra
  pub feed_count : Option ℕ
  pub total_unread : Option ℕ

pub record CategoryModificationRequest : Type 0 where
  pub title : Option String
  pub hide_globally : Option Bool
  pub hide_label : Option Bool
  pub block_filter : Option String

-- `if p != nil { field = *p }`
abbrev pub over {ℓ} : {A : Type ℓ} → Option A → A → A
over none old = old
over (some v) old = v

-- CategoryModificationRequest.Patch
unfoldable pub patch_category : CategoryModificationRequest → Category → Category
patch_category r c = record c {
  title = over r.title c.title;
  hide_globally = over r.hide_globally c.hide_globally;
  extra = record {
    block_filter = over r.block_filter c.extra.block_filter;
    hide_label = over r.hide_label c.extra.hide_label;
  };
}
