-- ===== src/Base/Text/Prefixes.antt =====
-- Prefixes of texts that are put together.
use Prim.Native.Char.{code}
use Prim.Native.String.{[], ◌∷◌}
use miniflux.Base.{
  String, ◌≡◌, refl, true, false, some, [], ◌∷◌, arith, nat_eq, string_eq, beq_refl,
}
use miniflux.Base.Text.{append, cut_prefix, trim_prefix, has_prefix}

pub append_assoc : (s t u : String) → append (append s t) u ≡ append s (append t u)
unfolding append
append_assoc [] t u = refl
append_assoc (c ∷ s) t u = rw (append_assoc s t u) refl

-- A prefix in common is read by both.
pub cut_prefix-append :
    (front p s : String) → cut_prefix (append front p) (append front s) ≡ cut_prefix p s
unfolding append cut_prefix
cut_prefix-append [] p s = refl
cut_prefix-append (c ∷ front) p s = rw (beq_refl (code c)) (cut_prefix-append front p s)

pub cut_prefix_self : (p s : String) → cut_prefix p (append p s) ≡ some s
unfolding append cut_prefix
cut_prefix_self [] s = refl
cut_prefix_self (c ∷ p) s = rw (beq_refl (code c)) (cut_prefix_self p s)

pub has_prefix_self : (p s : String) → has_prefix p (append p s) ≡ true
unfolding has_prefix
has_prefix_self p s = rw (has_prefix, cut_prefix_self p s) refl

pub trim_prefix_self : (p s : String) → trim_prefix p (append p s) ≡ s
unfolding trim_prefix
trim_prefix_self p s = rw (trim_prefix, cut_prefix_self p s) refl

-- Without the prefix nothing is trimmed.
pub trim_prefix_other : (p s : String) → has_prefix p s ≡ false → trim_prefix p s ≡ s
unfolding trim_prefix has_prefix
trim_prefix_other p s h = ground arith
