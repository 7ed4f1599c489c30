-- ===== src/Base/Text.antt =====
-- The order of texts by which `sort.Strings` sorts: by their bytes, which for UTF-8 is the order by
-- characters that the native `compare` has.
use Prim.Native.Nat.{Ordering}
use Prim.Native.String.{String, compare}
use Prim.Native.String.compare as text_compare
use mathlib.Core.Path.{◌≡◌, refl}
use mathlib.Core.Logic.{◌≢◌}
use native.Mathlib.Omega.{arith}
use text.Mathlib.TextEquality.{path_by_compare}

abbrev pub flip : Ordering → Ordering
flip Ordering.lt = Ordering.gt
flip Ordering.eq = Ordering.eq
flip Ordering.gt = Ordering.lt

pub compare-flip : (s t : String) → compare s t ≡ flip (compare t s)
compare-flip String.[] String.[] = refl
compare-flip String.[] (String.◌∷◌ d t) = rw (text_compare.nil-cons d t, text_compare.cons-nil d t)
compare-flip (String.◌∷◌ c s) String.[] = rw (text_compare.nil-cons c s, text_compare.cons-nil c s)
compare-flip (String.◌∷◌ c s) (String.◌∷◌ d t) =
    rw (text_compare.cons-cons c d s t, text_compare.cons-cons d c t s)
      (ground (arith, compare-flip s t))

abbrev pub Le : String → String → Type 0
Le s t = compare s t ≢ Ordering.gt

pub Le-trans : (s t u : String) → Le s t → Le t u → Le s u
Le-trans String.[] String.[] u h k = k
Le-trans String.[] (String.◌∷◌ d t) String.[] h k = ground arith
Le-trans String.[] (String.◌∷◌ d t) (String.◌∷◌ e u) h k = ground (arith, text_compare.nil-cons e u)
Le-trans (String.◌∷◌ c s) String.[] u h k = absurd (h (text_compare.cons-nil c s))
Le-trans (String.◌∷◌ c s) (String.◌∷◌ d t) String.[] h k = absurd (k (text_compare.cons-nil d t))
Le-trans (String.◌∷◌ c s) (String.◌∷◌ d t) (String.◌∷◌ e u) h k = ground (
  arith,
  text_compare.cons-cons c d s t,
  text_compare.cons-cons d e t u,
  text_compare.cons-cons c e s u,
  Le-trans s t u,
)

pub eq_of_compare : (s t : String) → compare s t ≡ Ordering.eq → s ≡ t
eq_of_compare = path_by_compare
