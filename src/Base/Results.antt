-- ===== src/Base/Results.antt =====
-- Go's `(value, error)` results.
use mathlib.Core.Path.{subst, ◌≡◌, refl}
use mathlib.Core.Logic.{◌⊎◌, inl, inr}
use Prim.Native.String.{String}
use mathlib.Core.Bool.{Bool, true, false}
use native.Mathlib.Omega.{arith}
use ghsecretman.Base.Tests.{if◌then◌else◌}

-- What an `error` value of the program holds: a message made by `fmt.Errorf` or `errors.New`, one
-- wrapped by `%w` behind a prefix, and the two error types of `internal/resolve`.
pub data Error : Type 0 where
  message : String → Error
  wrapped : String → Error → Error
  file_error : String → Error → Error
  env_error : String → String → Error
  nil_dereference index_out_of_range : Error

pub data Result {ℓ} (V : Type ℓ) : Type ℓ where
  err : Error → Result V
  ok : V → Result V

-- `if err != nil { return err }` after a call.
infixl 5 ◌>>=◌
abbrev pub ◌>>=◌ {κ μ} : {V : Type κ} {W : Type μ} → Result V → (V → Result W) → Result W
err e >>= rest = err e
ok v >>= rest = rest v

-- `fmt.Errorf("…: %w", err)` on the error of a call.
abbrev pub wrap {ℓ} : {A : Type ℓ} → String → Result A → Result A
wrap p (ok a) = ok a
wrap p (err e) = err (wrapped p e)

pub Result-cases {ℓ} :
    {A : Type ℓ} (r : Result A) → ((a : A) × (r ≡ ok a)) ⊎ ((e : Error) × (r ≡ err e))
Result-cases (ok a) = inl (a, refl)
Result-cases (err e) = inr (e, refl)

-- What a result that is ok says of its parts.
pub bind_ok {ℓ κ} :
    {A : Type ℓ} {B : Type κ} (r : Result A) (f : A → Result B) (b : B)
    → (r >>= f) ≡ ok b
    → (a : A) × (r ≡ ok a) × (f a ≡ ok b)
bind_ok (ok a) f b h = (a, refl, h)
bind_ok (err e) f b h = absurd (ground arith)

pub guard_ok {ℓ} :
    {A : Type ℓ} (c : Bool) (e : Error) (r : Result A) (a : A)
    → (if c then err e else r) ≡ ok a
    → r ≡ ok a
guard_ok true e r a h = absurd (ground arith)
guard_ok false e r a h = h

pub ok_injective {ℓ} : {A : Type ℓ} (a b : A) → Path (Result A) (ok a) (ok b) → a ≡ b
ok_injective a b h = ground arith

-- A result that, if it is ok, is of a certain kind.
abbrev pub Returns {ℓ κ} : {A : Type ℓ} → (A → Type κ) → Result A → Type κ
Returns P (ok a) = P a
Returns P (err e) = Unit

pub Returns-bind {ℓ κ ν μ} :
    {A : Type ℓ} {B : Type κ} (Q : A → Type ν) (P : B → Type μ) (r : Result A) (f : A → Result B)
    → Returns Q r
    → ((a : A) → r ≡ ok a → Q a → Returns P (f a))
    → Returns P (r >>= f)
Returns-bind Q P (ok a) f q k = k a refl q
Returns-bind Q P (err e) f q k = tt

pub Returns-if {ℓ κ} :
    {A : Type ℓ} (P : A → Type κ) (c : Bool) (r s : Result A)
    → (c ≡ true → Returns P r)
    → (c ≡ false → Returns P s)
    → Returns P (if c then r else s)
Returns-if P true r s p q = p refl
Returns-if P false r s p q = q refl

pub Returns-of {ℓ κ} :
    {A : Type ℓ} (P : A → Type κ) (r : Result A) → ((a : A) → r ≡ ok a → P a) → Returns P r
Returns-of P (ok a) h = h a refl
Returns-of P (err e) h = tt

pub Returns-ok {ℓ κ} :
    {A : Type ℓ} (P : A → Type κ) (r : Result A) (a : A) → Returns P r → r ≡ ok a → P a
Returns-ok P (ok b) a p h = subst P (ok_injective b a h) p
Returns-ok P (err e) a p h = absurd (ground arith)

pub Returns-then {ℓ κ μ} :
    {A : Type ℓ} {B : Type κ} (P : B → Type μ) (r : Result A) (f : A → Result B)
    → ((a : A) → Returns P (f a))
    → Returns P (r >>= f)
Returns-then P (ok a) f k = k a
Returns-then P (err e) f k = tt
