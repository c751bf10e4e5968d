-- ===== src/Base/Dict.antt =====
-- Go's maps as association lists with one pair for each key that was written.
use Prim.Native.Nat.{suc}
use mathlib.Core.Path.{◌≡◌, refl}
use mathlib.Core.List.{List, [], ◌∷◌}
use mathlib.Core.Option.{Option, none, some}
use native.Mathlib.Omega.{arith}
use miniflux.Base.Tests.{Eq, ◌==◌, if◌then◌else◌, beq_refl}
use miniflux.Base.Lists.{length}

module _ {ℓ κ} {Key : Type ℓ} {Value : Type κ} ⦃keys : Eq Key⦄ where
  -- `v, ok := m[k]`
  unfoldable pub lookup : (key : Key) (dict : List (Key × Value)) → Option Value
  lookup key [] = none
  lookup key (pair ∷ dict) = if pair.0 == key then some pair.1 else lookup key dict

  -- `m[k] = v`
  unfoldable pub insert :
      (key : Key) (value : Value) (dict : List (Key × Value)) → List (Key × Value)
  insert key value [] = (key, value) ∷ []
  insert key value (pair ∷ dict) =
      if pair.0 == key then (pair.0, value) ∷ dict else pair ∷ insert key value dict

  -- What a key has after a write to a key.
  pub lookup-insert :
      (written asked : Key) (value : Value) (dict : List (Key × Value))
      → lookup asked (insert written value dict)
        ≡ (if written == asked then some value else lookup asked dict)
  unfolding lookup insert
  lookup-insert written asked value [] = refl
  lookup-insert written asked value (pair ∷ dict) = ground (
    arith,
    keys.beq_iff written asked,
    keys.beq_iff pair.0 written,
    keys.beq_iff pair.0 asked,
    lookup-insert written asked value dict,
  )

  pub lookup-insert_self :
      (key : Key) (value : Value) (dict : List (Key × Value))
      → lookup key (insert key value dict) ≡ some value
  lookup-insert_self key value dict = rw (lookup-insert key key value dict, beq_refl key) refl

  -- A new key adds one pair.
  pub length-insert_new :
      (key : Key) (value : Value) (dict : List (Key × Value))
      → lookup key dict ≡ none
      → length (insert key value dict) ≡ suc (length dict)
  unfolding lookup insert
  length-insert_new key value [] new = refl
  length-insert_new key value (pair ∷ dict) new = ground (arith, length-insert_new key value dict)
