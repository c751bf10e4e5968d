-- ===== src/Base/Results.antt =====
-- Results: an error or a value.
use mathlib.Core.Path.{◌≡◌, refl}
use mathlib.Core.Logic.{◌⊎◌, inl, inr}

infixl 5 ◌>>=◌
abbrev pub ◌>>=◌ {ℓ κ ν} : {E : Type ν} {A : Type ℓ} {B : Type κ} → E ⊎ A → (A → E ⊎ B) → E ⊎ B
inl err >>= k = inl err
inr a >>= k = k a

-- A step that answers: what its first part gave.
pub inr_of_bind {ℓ κ ν} :
    {E : Type ν} {A : Type ℓ} {B : Type κ} (m : E ⊎ A) (k : A → E ⊎ B) (b : B)
    → (m >>= k) ≡ inr b
    → (a : A) × (m ≡ inr a) × (k a ≡ inr b)
inr_of_bind (inl err) k b h = absurd (cc)
inr_of_bind (inr a) k b h = (a, refl, h)
