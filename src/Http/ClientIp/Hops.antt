-- ===== src/Http/ClientIp/Hops.antt =====
-- X-Forwarded-For is read from the right: what stands to the left of a hop that is not trusted has
-- no influence.
use miniflux.Base.{
  String, ◌≡◌, refl, sym, ap, inl, inr, Bool, not, Option, none, some, List, [], ◌∷◌, ◌++◌, reverse,
  if◌then◌else◌, nat_eq, string_eq, Bool-cases, Option-cases,
}
use mathlib.Core.List.{append_assoc, reverse-cons}
use miniflux.Base.Text.{split, trim_space}
use miniflux.Http.ClientIp.{or_else, text_of, answer, scan_items, scan_values, x_forwarded_for}

-- The hops of a header, in the order in which they were added.
abbrev pub hops : List String → List String
hops [] = []
hops (value ∷ values) = split 0x2c value ++ hops values

or_else_assoc : (a b c : Option String) → or_else (or_else a b) c ≡ or_else a (or_else b c)
or_else_assoc none b c = refl
or_else_assoc (some a) b c = refl

hops-append : (vs ws : List String) → hops (vs ++ ws) ≡ hops vs ++ hops ws
hops-append [] ws = refl
hops-append (v ∷ vs) ws =
    rw (hops-append vs ws) (sym (append_assoc (split 0x2c v) (hops vs) (hops ws)))

module _ (trusted is_ip : String → Bool) where
  -- The last hop that is not trusted.
  abbrev pub last_untrusted : List String → Option String
  last_untrusted [] = none
  last_untrusted (hop ∷ rest) =
      or_else (last_untrusted rest)
        (if not (trusted (trim_space hop)) then some (trim_space hop) else none)

  -- The answer for a hop, if there is one.
  abbrev answered : Option String → Option String
  answered none = none
  answered (some hop) = some (answer trusted is_ip hop)

  answered-or_else :
      (a b : Option String) → answered (or_else a b) ≡ or_else (answered a) (answered b)
  answered-or_else none b = refl
  answered-or_else (some a) b = refl

  last_untrusted-append :
      (xs ys : List String)
      → last_untrusted (xs ++ ys) ≡ or_else (last_untrusted ys) (last_untrusted xs)
  last_untrusted-append [] ys = elim (Option-cases (last_untrusted ys)) [
    | inl nobody ↦ rw nobody refl
    | inr (hop, found) ↦ rw found refl
  ]
  last_untrusted-append (x ∷ xs) ys =
      rw (last_untrusted-append xs ys) (or_else_assoc (last_untrusted ys) (last_untrusted xs) _)

  scan_items-append :
      (xs ys : List String)
      → scan_items trusted is_ip (xs ++ ys)
        ≡ or_else (scan_items trusted is_ip xs) (scan_items trusted is_ip ys)
  unfolding scan_items
  scan_items-append [] ys = refl
  scan_items-append (x ∷ xs) ys = elim (Bool-cases (trusted (trim_space x))) [
    | inl proxy ↦ rw proxy (scan_items-append xs ys)
    | inr client ↦ rw client refl
  ]

  scan_items-reverse :
      (xs : List String) → scan_items trusted is_ip (reverse xs) ≡ answered (last_untrusted xs)
  unfolding scan_items
  scan_items-reverse [] = refl
  scan_items-reverse (x ∷ xs) =
      rw
        (
          reverse-cons x xs,
          scan_items-append (reverse xs) (x ∷ []),
          scan_items-reverse xs,
          answered-or_else (last_untrusted xs)
              (if not (trusted (trim_space x)) then some (trim_space x) else none),
        )
        (ap (or_else (answered (last_untrusted xs))) (elim (Bool-cases (trusted (trim_space x))) [
          | inl proxy ↦ rw proxy refl
          | inr client ↦ rw client refl
        ]))

  scan_values-append :
      (xs ys : List String)
      → scan_values trusted is_ip (xs ++ ys)
        ≡ or_else (scan_values trusted is_ip xs) (scan_values trusted is_ip ys)
  unfolding scan_values
  scan_values-append [] ys = refl
  scan_values-append (x ∷ xs) ys = rw (scan_values-append xs ys) (
      sym (
        or_else_assoc (scan_items trusted is_ip (reverse (split 0x2c x)))
          (scan_values trusted is_ip xs) (scan_values trusted is_ip ys)))

  or_else-none : (a : Option String) → or_else a none ≡ a
  or_else-none none = refl
  or_else-none (some a) = refl

  scan_one :
      (v : String)
      → scan_values trusted is_ip (v ∷ []) ≡ scan_items trusted is_ip (reverse (split 0x2c v))
  unfolding scan_values
  scan_one v = or_else-none (scan_items trusted is_ip (reverse (split 0x2c v)))

  scan_values-reverse :
      (vs : List String)
      → scan_values trusted is_ip (reverse vs) ≡ answered (last_untrusted (hops vs))
  unfolding scan_values
  scan_values-reverse [] = refl
  scan_values-reverse (v ∷ vs) =
      rw
        (
          reverse-cons v vs,
          scan_values-append (reverse vs) (v ∷ []),
          scan_values-reverse vs,
          scan_one v,
          scan_items-reverse (split 0x2c v),
          last_untrusted-append (split 0x2c v) (hops vs),
        )
        (sym (answered-or_else (last_untrusted (hops vs)) (last_untrusted (split 0x2c v))))

  text_of-answered :
      (o : Option String)
      → text_of (answered o) ≡ elim o [ none ↦ "" | some hop ↦ answer trusted is_ip hop ]
  text_of-answered none = refl
  text_of-answered (some hop) = refl

  -- XForwardedFor answers for the last hop of the header that is not a trusted proxy, over all its
  -- values, and with "" where there is no such hop.
  pub x_forwarded_for-last_untrusted :
      (values : List String)
      → x_forwarded_for trusted is_ip values
        ≡ elim (last_untrusted (hops values)) [ none ↦ "" | some hop ↦ answer trusted is_ip hop ]
  unfolding x_forwarded_for
  x_forwarded_for-last_untrusted values =
      rw (scan_values-reverse values) (text_of-answered (last_untrusted (hops values)))

  -- Values of X-Forwarded-For that stand before values with a hop that is not trusted do not change
  -- what XForwardedFor answers.
  pub x_forwarded_for_forged :
      (forged values : List String) (hop : String)
      → last_untrusted (hops values) ≡ some hop
      → x_forwarded_for trusted is_ip (forged ++ values) ≡ x_forwarded_for trusted is_ip values
  x_forwarded_for_forged forged values hop found =
      rw
        (
          x_forwarded_for-last_untrusted (forged ++ values),
          x_forwarded_for-last_untrusted values,
          hops-append forged values,
          last_untrusted-append (hops forged) (hops values),
          found,
        )
        refl
