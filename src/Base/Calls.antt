-- ===== src/Base/Calls.antt =====
-- A call of the backend: it returns a result, and changes a state that the program does not see.
use ghsecretman.Base.Results.{Error, Result, ok, err, wrapped}
use mathlib.Core.Path.{◌≡◌, refl}
use Prim.Native.String.{String}
use native.Mathlib.Omega.{arith}

abbrev pub Call : Type 0 → Type 0 → Type 0
Call S A = S → Result A × S

-- What follows a call: the rest of the function, or the return of its error.
abbrev pub next : {S A B : Type 0} → (A → Call S B) → Result A × S → Result B × S
next f (ok a, s) = f a s
next f (err e, s) = (err e, s)

infixl 5 ◌>>=◌ ◌>>◌
abbrev pub ◌>>=◌ : {S A B : Type 0} → Call S A → (A → Call S B) → Call S B
◌>>=◌ m f s = next f (m s)

abbrev pub ◌>>◌ : {S A B : Type 0} → Call S A → Call S B → Call S B
m >> k = m >>= λ _. k

-- What needs no call.
abbrev pub lift : {S A : Type 0} → Result A → Call S A
lift r s = (r, s)

-- `fmt.Errorf("…: %w", err)` on the error of a call.
abbrev pub rewrap : {S A : Type 0} → String → Result A × S → Result A × S
rewrap p (ok a, s) = (ok a, s)
rewrap p (err e, s) = (err (wrapped p e), s)

abbrev pub wrap_call : {S A : Type 0} → String → Call S A → Call S A
wrap_call p m s = rewrap p (m s)

-- Whatever the call returns, what held of the state before it holds after it.
abbrev pub Keeps : {S A : Type 0} → (S → Type 0) → Call S A → Type 0
Keeps {S} P m = (s : S) → P s → P (m s).1

module _ {S : Type 0} (P : S → Type 0) where
  pub after :
      {A B : Type 0} (f : A → Call S B) (r : Result A × S)
      → P r.1
      → ((a : A) (s' : S) → r ≡ (ok a, s') → P s' → P (f a s').1)
      → P (next f r).1
  after f (ok a, s') p k = k a s' refl p
  after f (err e, s') p k = p

  after_wrap : {A : Type 0} (prefix : String) (r : Result A × S) → P r.1 → P (rewrap prefix r).1
  after_wrap prefix (ok a, s') p = p
  after_wrap prefix (err e, s') p = p

  pub Keeps-bind :
      {A B : Type 0} (m : Call S A) (f : A → Call S B)
      → Keeps P m
      → ((a : A) (s s' : S) → m s ≡ (ok a, s') → Keeps P (f a))
      → Keeps P (m >>= f)
  Keeps-bind m f km kf s p = after f (m s) (km s p) (λ a s' e q. kf a s s' e s' q)

  pub Keeps-wrap :
      {A : Type 0} (prefix : String) (m : Call S A) → Keeps P m → Keeps P (wrap_call prefix m)
  Keeps-wrap prefix m km s p = after_wrap prefix (m s) (km s p)

next_ok :
    {S A B : Type 0} (f : A → Call S B) (r : Result A × S) (last : S) (b : B)
    → next f r ≡ (ok b, last)
    → (a : A) × (s' : S) × (r ≡ (ok a, s')) × (f a s' ≡ (ok b, last))
next_ok f (ok a, s') last b h = (a, s', refl, h)
next_ok f (err e, s') last b h = absurd (ground arith)

-- A call that is ok, of its parts.
pub call_ok :
    {S A B : Type 0} (m : Call S A) (f : A → Call S B) (s last : S) (b : B)
    → (m >>= f) s ≡ (ok b, last)
    → (a : A) × (s' : S) × (m s ≡ (ok a, s')) × (f a s' ≡ (ok b, last))
call_ok m f s last b h = next_ok f (m s) last b h

-- An error of a wrapped call is a wrapped error.
pub wrap_call_err :
    {S A : Type 0} (prefix : String) (r : Result A × S) (e : Error) (s : S)
    → rewrap prefix r ≡ (err e, s)
    → (x : Error) × (e ≡ wrapped prefix x)
wrap_call_err prefix (ok a, s') e s h = absurd (ground arith)
wrap_call_err prefix (err x, s') e s h = (x, ground arith)

-- A wrapped call that is ok is ok.
pub wrap_call_ok :
    {S A : Type 0} (prefix : String) (r : Result A × S) (a : A) (s : S)
    → rewrap prefix r ≡ (ok a, s)
    → r ≡ (ok a, s)
wrap_call_ok prefix (ok x, s') a s h = h
wrap_call_ok prefix (err x, s') a s h = absurd (ground arith)
