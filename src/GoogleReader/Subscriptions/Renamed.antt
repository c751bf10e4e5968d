-- ===== src/GoogleReader/Subscriptions/Renamed.antt =====
-- What `rename` does to the feeds.
use mathlib.Core.Path.{subst}
use miniflux.Base.{
  ℕ, String, ◌≡◌, refl, sym, ap, ◌∙◌, ◌≢◌, ◌⊎◌, inl, inr, Option, none, some, arith, nat_eq,
  string_eq, beq_of_ne,
}
use miniflux.Base.Int.{ℤ, pos}
use miniflux.Base.Numbers.{parse_int, decimal}
use miniflux.Model.Feed.{Feed}
use miniflux.Model.Feed.Patch.{patch_feed}
use miniflux.GoogleReader.Reply.{Reply, ok}
use miniflux.GoogleReader.Streams.{Stream}
use miniflux.GoogleReader.Subscriptions.{found, feed_of, get_feed, saved, rename_found, rename}
use miniflux.GoogleReader.FeedStore.{Storage, Failure, new_title, new_category}

module _ {Url : Type 0} (S : Storage Url) where
  open S use {State}

  -- Every feed but one is found as before.
  abbrev pub OthersSame : ℤ → State → State → Type 0
  OthersSame id st st' = (i : ℤ) → id ≢ i → S.feed_by_id i st' ≡ S.feed_by_id i st

  -- The feed of an id has a title.
  abbrev pub HasTitle : ℤ → String → State → Type 0
  HasTitle id title st = (g : Feed Url) × (S.feed_by_id id st ≡ some (some g)) × (g.title ≡ title)

  found-inr :
      (id : ℤ) (answer : Option (Option (Feed Url))) (f : Feed Url)
      → found S answer ≡ inr f
      → answer ≡ some (some f)
  found-inr id none f h = absurd (cc)
  found-inr id (some none) f h = absurd (cc)
  found-inr id (some (some g)) f h = ground arith

  pub get_feed-inr :
      (s : Stream) (id : ℤ) (f : Feed Url) (st : State)
      → parse_int decimal s.id ≡ some id
      → get_feed S s st ≡ inr f
      → S.feed_by_id id st ≡ some (some f)
  unfolding get_feed
  get_feed-inr s id f st parsed h =
      found-inr id (S.feed_by_id id st) f (ap (λ o. feed_of S o st) (sym parsed) ∙ h)

  -- An outcome: the others are as before, and the feed has the title unless something failed.
  abbrev pub Good : ℤ → String → State → Option Failure × State → Type 0
  Good id title st (failure, st') =
      OthersSame id st st' × ((failure ≢ none) ⊎ HasTitle id title st')

  abbrev pub GoodReply : ℤ → String → State → Reply × State → Type 0
  GoodReply id title st (reply, st') = OthersSame id st st' × ((reply ≢ ok) ⊎ HasTitle id title st')

  -- The state after an update of a feed of the id.
  pub saved-Good :
      (id : ℤ) (p : Feed Url) (before st : State) (o : Option State)
      → S.update_feed p st ≡ o
      → pos p.id ≡ id
      → OthersSame id before st
      → Good id p.title before (saved S st o)
  saved-Good id p before st none h same others = (others, inl (cc))
  saved-Good id p before st (some st') h same others =
      let (g, at, title, category) = S.update_law p st st' h in
      (
        (λ i apart. S.update_other_law p st st' i h (λ q. apart (sym same ∙ q)) ∙ others i apart),
        inr (g, sym (ap (λ i. S.feed_by_id i st') same) ∙ at, title),
      )

  titled :
      (title : String) (f : Feed Url)
      → title ≢ ""
      → (pos (patch_feed (new_title title) f).id ≡ pos f.id)
        × ((patch_feed (new_title title) f).title ≡ title)
  unfolding patch_feed
  titled title f given = (refl, rw (beq_of_ne title "" given) refl)

  pub categorised :
      (c : ℕ) (f : Feed Url)
      → (pos (patch_feed (new_category c) f).id ≡ pos f.id)
        × ((patch_feed (new_category c) f).title ≡ f.title)
  unfolding patch_feed
  categorised c f = (refl, refl)

  rename_found-Good :
      (id : ℤ) (title : String) (st : State) (got : Failure ⊎ Feed Url)
      → title ≢ ""
      → ((f : Feed Url) → got ≡ inr f → S.feed_by_id id st ≡ some (some f))
      → Good id title st (rename_found S title st got)
  rename_found-Good id title st (inl err) given h = (λ i apart. refl, inl (cc))
  rename_found-Good id title st (inr f) given h =
      let (same, named) = titled title f given in
      let p = patch_feed (new_title title) f in
      let good : Good id p.title st (saved S st (S.update_feed p st)) =
        saved-Good id p st st (S.update_feed p st) refl (same ∙ S.id_law id f st (h f refl))
          (λ i apart. refl) in
      subst (λ t. Good id t st (saved S st (S.update_feed p st))) named good

  pub rename-Good :
      (s : Stream) (id : ℤ) (title : String) (st : State)
      → parse_int decimal s.id ≡ some id
      → title ≢ ""
      → Good id title st (rename S s title st)
  unfolding rename
  rename-Good s id title st parsed given = rw (beq_of_ne title "" given) (
      rename_found-Good id title st (get_feed S s st) given
        (λ f h. get_feed-inr s id f st parsed h))
