-- ===== src/Base/Maps.antt =====
-- Go maps with text keys, as association lists. The order of the list stands for the order in which
-- `range` happens to visit the map, which Go leaves open; a map holds a key at most once.
use ghsecretman.Base.Tests.{◌==◌, contains, if◌then◌else◌, Bool-cases}
use Prim.Native.String.{String}
use mathlib.Core.Logic.{inl, inr}
use mathlib.Core.Path.{subst, ◌≡◌, refl, sym, ◌∙◌}
use mathlib.Core.Bool.{Bool, true, false, ◌||◌}
use mathlib.Core.Option.{Option, none, some}
use mathlib.Core.List.{List, [], ◌∷◌}
use native.Mathlib.Omega.{arith}
use ghsecretman.Base.Sort.{sort_strings, IsUnique, sort_strings-eq_of_same}

abbrev pub Map {ℓ} : Type ℓ → Type ℓ
Map V = List (String × V)

module _ {ℓ} {V : Type ℓ} where
  -- `v, ok := m[k]`
  abbrev pub lookup : String → Map V → Option V
  lookup k [] = none
  lookup k ((j, v) ∷ m) = if k == j then some v else lookup k m

  -- `_, ok := m[k]`
  abbrev pub has : String → Map V → Bool
  has k m = elim (lookup k m) [ none ↦ false | some _ ↦ true ]

  -- `m[k] = v`
  abbrev pub insert : String → V → Map V → Map V
  insert k v [] = (k, v) ∷ []
  insert k v ((j, w) ∷ m) = if k == j then (k, v) ∷ m else (j, w) ∷ insert k v m

  -- `for n := range m`
  abbrev pub keys : Map V → List String
  keys [] = []
  keys ((k, _) ∷ m) = k ∷ keys m

  abbrev pub NodupKeys : Map V → Type 0
  NodupKeys [] = Unit
  NodupKeys ((k, _) ∷ m) = (has k m ≡ false) × NodupKeys m

  pub lookup-insert :
      (j k : String) (v : V) (m : Map V)
      → lookup j (insert k v m) ≡ (if j == k then some v else lookup j m)
  lookup-insert j k v [] = refl
  lookup-insert j k v ((i, w) ∷ m) = ground (arith, lookup-insert j k v m)

  pub has-insert :
      (j k : String) (v : V) (m : Map V) → has j (insert k v m) ≡ (if j == k then true else has j m)
  has-insert j k v m = ground (arith, lookup-insert j k v m)

  pub insert-NodupKeys : (k : String) (v : V) (m : Map V) → NodupKeys m → NodupKeys (insert k v m)
  insert-NodupKeys k v [] u = (refl, tt)
  insert-NodupKeys k v ((j, w) ∷ m) (fresh, u) =
      ground (arith, insert-NodupKeys k v m u, lookup-insert j k v m)

  pub contains-keys : (m : Map V) (k : String) → contains (keys m) k ≡ has k m
  contains-keys [] k = refl
  contains-keys ((j, v) ∷ m) k = ground (arith, contains-keys m k)

  pub keys-IsUnique : (m : Map V) → NodupKeys m → IsUnique (keys m)
  keys-IsUnique [] u = tt
  keys-IsUnique ((k, v) ∷ m) (fresh, u) = (contains-keys m k ∙ fresh, keys-IsUnique m u)

  -- A map that holds only what a predicate admits at its key.
  pub record IsMapOf {κ} (P : String → V → Type κ) (m : Map V) : Type (ℓ ⊔ κ) where
    pub nodup : NodupKeys m
    pub each : (k : String) (v : V) → lookup k m ≡ some v → P k v

  pub empty-IsMapOf {κ} : (P : String → V → Type κ) → IsMapOf P []
  empty-IsMapOf P = record { nodup = tt; each = λ k v e. absurd (ground arith) }

  at_inserted {κ} :
      (P : String → V → Type κ) (j k : String) (v w : V) (m : Map V)
      → (j == k) ≡ true
      → lookup j (insert k v m) ≡ some w
      → P k v
      → P j w
  at_inserted P j k v w m same found p =
      let key : k ≡ j = ground (arith, same) in
      let value : v ≡ w = ground (arith, lookup-insert j k v m) in
      subst (λ x. P x w) key (subst (P k) value p)

  pub insert-IsMapOf {κ} :
      (P : String → V → Type κ) (k : String) (v : V) (m : Map V)
      → IsMapOf P m
      → P k v
      → IsMapOf P (insert k v m)
  insert-IsMapOf P k v m h p = record {
    nodup = insert-NodupKeys k v m h.nodup;
    each = λ j w found. elim (Bool-cases (j == k)) [
      | inl same ↦ at_inserted P j k v w m same found p
      | inr other ↦ h.each j w (ground (arith, lookup-insert j k v m))
    ];
  }

  -- Two lists that hold the same Go map, perhaps in another order.
  pub record SameMap (m m' : Map V) : Type ℓ where
    pub left_keys : NodupKeys m
    pub right_keys : NodupKeys m'
    pub same : (k : String) → lookup k m ≡ lookup k m'

  pub SameMap-has : {m m' : Map V} → SameMap m m' → (k : String) → has k m ≡ has k m'
  SameMap-has s k = rw (s.same k, has)

  pub SameMap-sort_strings :
      {m m' : Map V} → SameMap m m' → sort_strings (keys m) ≡ sort_strings (keys m')
  SameMap-sort_strings {m} {m'} s =
      sort_strings-eq_of_same (keys m) (keys m') (keys-IsUnique m s.left_keys)
        (keys-IsUnique m' s.right_keys)
        (λ k. contains-keys m k ∙ SameMap-has s k ∙ sym (contains-keys m' k))

-- `map[string]struct{}`
abbrev pub Set : Type 0
Set = Map (Unit {0})

-- The loop that puts the texts of a list into a set.
unfoldable pub add_all : List String → Set → Set
add_all [] out = out
add_all (s ∷ ss) out = add_all ss (insert s tt out)

pub has-add_all :
    (l : List String) (s : Set) (k : String) → has k (add_all l s) ≡ (contains l k || has k s)
unfolding add_all
has-add_all [] s k = refl
has-add_all (x ∷ l) s k = ground (arith, has-add_all l (insert x tt s) k, lookup-insert k x tt s)

-- `m[k]` of a map to texts: the empty text where the key is missing.
abbrev pub get_text : String → Map String → String
get_text k m = elim (lookup k m) [ none ↦ "" | some v ↦ v ]
