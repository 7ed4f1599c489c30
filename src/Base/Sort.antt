-- ===== src/Base/Sort.antt =====
-- `sort.Strings`, as an insertion sort. Its result does not depend on the order of its input, holds
-- the same texts and ascends.
use Prim.Native.Nat.{Ordering}
use Prim.Native.String.{String, compare}
use mathlib.Core.Path.{◌≡◌, refl, sym, ◌∙◌, ap, ap₂}
use mathlib.Core.Bool.{true, false, ◌||◌}
use mathlib.Core.List.{List, [], ◌∷◌}
use native.Mathlib.Omega.{arith}
use ghsecretman.Base.Tests.{◌==◌, contains}
use ghsecretman.Base.Text.{compare-flip, Le, Le-trans, eq_of_compare}

unfoldable pub put_in : String → List String → List String
put_in x [] = x ∷ []
put_in x (y ∷ ys) = elim (compare y x) [ Ordering.gt ↦ x ∷ y ∷ ys | _ ↦ y ∷ put_in x ys ]

unfoldable pub sort_strings : List String → List String
unfolding put_in
sort_strings [] = []
sort_strings (x ∷ xs) = put_in x (sort_strings xs)

put_in_comm : (x y : String) (l : List String) → put_in x (put_in y l) ≡ put_in y (put_in x l)
unfolding put_in
put_in_comm x y [] = ground (arith, compare-flip x y, eq_of_compare x y)
put_in_comm x y (z ∷ l) = ground (
  arith,
  put_in_comm x y l,
  compare-flip x y,
  eq_of_compare x y,
  compare-flip z x,
  compare-flip z y,
  Le-trans z x y,
  Le-trans z y x,
  Le-trans x y z,
  Le-trans y x z,
)

pub contains-put_in :
    (x : String) (l : List String) (a : String) → contains (put_in x l) a ≡ (a == x || contains l a)
unfolding put_in
contains-put_in x [] a = refl
contains-put_in x (y ∷ l) a = ground (arith, contains-put_in x l a)

pub contains-sort_strings :
    (l : List String) (a : String) → contains (sort_strings l) a ≡ contains l a
unfolding sort_strings
contains-sort_strings [] a = refl
contains-sort_strings (x ∷ l) a =
    contains-put_in x (sort_strings l) a ∙ ap (λ b. a == x || b) (contains-sort_strings l a)

-- Every text of the list is at or above `a`.
abbrev AllAbove : String → List String → Type 0
AllAbove a [] = Unit
AllAbove a (x ∷ l) = Le a x × AllAbove a l

abbrev pub IsSorted : List String → Type 0
IsSorted [] = Unit
IsSorted (x ∷ l) = AllAbove x l × IsSorted l

AllAbove-trans : (a b : String) (l : List String) → Le a b → AllAbove b l → AllAbove a l
AllAbove-trans a b [] h k = tt
AllAbove-trans a b (x ∷ l) h k = (Le-trans a b x h k.0, AllAbove-trans a b l h k.1)

AllAbove-put_in : (a x : String) (l : List String) → Le a x → AllAbove a l → AllAbove a (put_in x l)
unfolding put_in
AllAbove-put_in a x [] h k = (h, tt)
AllAbove-put_in a x (y ∷ l) h k = ground (arith, AllAbove-put_in a x l)

put_in-IsSorted : (x : String) (l : List String) → IsSorted l → IsSorted (put_in x l)
unfolding put_in
put_in-IsSorted x [] s = (tt, tt)
put_in-IsSorted x (y ∷ l) (above, s) =
    ground
      (arith, put_in-IsSorted x l s, AllAbove-put_in y x l, compare-flip y x, AllAbove-trans x y l)

pub sort_strings-IsSorted : (l : List String) → IsSorted (sort_strings l)
unfolding sort_strings
sort_strings-IsSorted [] = tt
sort_strings-IsSorted (x ∷ l) = put_in-IsSorted x (sort_strings l) (sort_strings-IsSorted l)

-- No text occurs twice.
abbrev pub IsUnique : List String → Type 0
IsUnique [] = Unit
IsUnique (x ∷ l) = (contains l x ≡ false) × IsUnique l

put_in-IsUnique :
    (x : String) (l : List String) → contains l x ≡ false → IsUnique l → IsUnique (put_in x l)
unfolding put_in
put_in-IsUnique x [] h u = (refl, tt)
put_in-IsUnique x (y ∷ l) h (fresh, u) = ground (arith, put_in-IsUnique x l, contains-put_in x l y)

pub sort_strings-IsUnique : (l : List String) → IsUnique l → IsUnique (sort_strings l)
unfolding sort_strings
sort_strings-IsUnique [] u = tt
sort_strings-IsUnique (x ∷ l) (fresh, u) =
    put_in-IsUnique x (sort_strings l) (contains-sort_strings l x ∙ fresh)
      (sort_strings-IsUnique l u)

Le-of_contains : (a b : String) (l : List String) → AllAbove a l → contains l b ≡ true → Le a b
Le-of_contains a b [] h c = cc
Le-of_contains a b (x ∷ l) h c = ground (arith, Le-of_contains a b l h.1)

heads_eq :
    (x y : String) (l r : List String)
    → AllAbove x l
    → AllAbove y r
    → contains (x ∷ l) y ≡ contains (y ∷ r) y
    → contains (x ∷ l) x ≡ contains (y ∷ r) x
    → x ≡ y
heads_eq x y l r hl hr cy cx =
    ground
      (arith, Le-of_contains x y l hl, Le-of_contains y x r hr, compare-flip x y, eq_of_compare x y)

IsSorted-unique :
    (l r : List String)
    → IsSorted l
    → IsSorted r
    → IsUnique l
    → IsUnique r
    → ((a : String) → contains l a ≡ contains r a)
    → l ≡ r
IsSorted-unique [] [] sl sr ul ur h = refl
IsSorted-unique [] (y ∷ r) sl sr ul ur h = ground (arith, h y)
IsSorted-unique (x ∷ l) [] sl sr ul ur h = ground (arith, h x)
IsSorted-unique (x ∷ l) (y ∷ r) sl sr ul ur h =
    let heads = heads_eq x y l r sl.0 sr.0 (h y) (h x) in
    ap₂ ◌∷◌ heads
      (IsSorted-unique l r sl.1 sr.1 ul.1 ur.1 (λ a. ground (arith, h a, heads, ul.0, ur.0)))

-- Two lists with the same texts, each text once, are sorted alike: the order in which `range`
-- visits a map is lost.
pub sort_strings-eq_of_same :
    (l r : List String)
    → IsUnique l
    → IsUnique r
    → ((a : String) → contains l a ≡ contains r a)
    → sort_strings l ≡ sort_strings r
sort_strings-eq_of_same l r ul ur h =
    IsSorted-unique (sort_strings l) (sort_strings r) (sort_strings-IsSorted l)
      (sort_strings-IsSorted r) (sort_strings-IsUnique l ul) (sort_strings-IsUnique r ur)
      (λ a. contains-sort_strings l a ∙ h a ∙ sym (contains-sort_strings r a))
