-- ===== src/Diff/Rows.antt =====
-- The rows that the loops of diff.go emit, kind by kind and name by name.
use ghsecretman.Base.{
  String, not, List, [], ◌∷◌, ◌++◌, ◌≡◌, refl, arith, contains, ◌&&◌, ◌||◌, ◌==◌, if◌then◌else◌,
}
use ghsecretman.Base.Maps.{Set, has, insert, lookup-insert}
use ghsecretman.Base.Sort.{IsUnique}
use ghsecretman.Plan.{Kind, kind_eq}
use ghsecretman.Diff.{
  Entry, row, status_extra, status_ignored, override_none, override_ignored, not_in,
  extra_name_entry, rows_of, extra_rows,
}

-- The rows for one kind and name.
abbrev pub pick : Kind → String → List Entry → List Entry
pick k n [] = []
pick k n (e ∷ entries) =
    let rest = pick k n entries in if kind_eq k e.kind && n == e.name then e ∷ rest else rest

pub pick-append :
    (k : Kind) (n : String) (es fs : List Entry) → pick k n (es ++ fs) ≡ pick k n es ++ pick k n fs
pick-append k n [] fs = refl
pick-append k n (e ∷ es) fs = ground (arith, pick-append k n es fs)

abbrev pub IsRowOf : Kind → (String → Entry) → Type 0
IsRowOf kind entry = (x : String) → ((entry x).kind ≡ kind) × ((entry x).name ≡ x)

module _ (k kind : Kind) (n : String) where
  pub pick-rows_of :
      (entry : String → Entry) (names : List String)
      → IsRowOf kind entry
      → IsUnique names
      → pick k n (rows_of entry names)
        ≡ (if kind_eq k kind && contains names n then entry n ∷ [] else [])
  unfolding rows_of
  pick-rows_of entry [] h u = ground arith
  pick-rows_of entry (x ∷ names) h (fresh, u) = ground (arith, pick-rows_of entry names h u, h x)

pub contains-not_in :
    (emitted : Set) (names : List String) (n : String)
    → contains (not_in emitted names) n ≡ (contains names n && not (has n emitted))
unfolding not_in
contains-not_in emitted [] n = refl
contains-not_in emitted (x ∷ names) n = ground (arith, contains-not_in emitted names n)

pub not_in-IsUnique :
    (emitted : Set) (names : List String) → IsUnique names → IsUnique (not_in emitted names)
unfolding not_in
not_in-IsUnique emitted [] u = tt
not_in-IsUnique emitted (x ∷ names) (fresh, u) =
    ground (arith, not_in-IsUnique emitted names u, contains-not_in emitted names x)

module _ (repo : String) (kind : Kind) (ignored : List String) (shield intended : Set) where
  abbrev extra : String → Set → Entry × Set
  extra n = extra_name_entry repo kind n ignored shield

  -- The row of a live name that is not intended.
  abbrev pub extra_row : String → Entry
  extra_row n =
      if not (contains ignored n)
      then row repo kind n status_extra override_none
      else row repo kind n status_ignored (if has n shield then override_ignored else override_none)

  -- The set of emitted shields does not bear on the rows.
  pub extra_rows-rows_of :
      (names : List String) (emitted : Set)
      → (extra_rows extra intended names emitted).0 ≡ rows_of extra_row (not_in intended names)
  unfolding extra_rows extra_name_entry rows_of not_in
  extra_rows-rows_of [] emitted = refl
  extra_rows-rows_of (x ∷ names) emitted =
      ground
        (arith, extra_rows-rows_of names emitted, extra_rows-rows_of names (insert x tt emitted))

  pub has-extra_rows :
      (n : String) (names : List String) (emitted : Set)
      → has n (extra_rows extra intended names emitted).1 ≡ (
          has n emitted
          || contains names n && not (has n intended) && contains ignored n && has n shield)
  unfolding extra_rows extra_name_entry
  has-extra_rows n [] emitted = ground arith
  has-extra_rows n (x ∷ names) emitted = ground (
    arith,
    has-extra_rows n names emitted,
    has-extra_rows n names (insert x tt emitted),
    lookup-insert n x tt emitted,
  )
