-- ===== src/Runner/Keys.antt =====
-- `entryKey` tells any two kinds and names apart.
use ghsecretman.Runner.Target.{key_of}
use ghsecretman.Base.{
  inr, inl, ◌≢◌, Bool-cases, refl, false, ◌&&◌, ◌∙◌, arith, ◌<>◌, ◌==◌, sym, true, ◌≡◌, String,
}
use Prim.Native.Char.{Char, code}
use text.Mathlib.TextLemmas.{append_cancel_left, cons-append, head-eq_of_cons-eq}
use mathlib.Core.Path.{ap}
use ghsecretman.Plan.{kind_text, kind_eq, Kind, kind_var, kind_secret, kind_dependabot}

-- The first character of a kind's text, and the others.
abbrev initial : Kind → Char
initial kind_var = "v"
initial kind_secret = "s"
initial kind_dependabot = "d"

abbrev others : Kind → String
others kind_var = "ars"
others kind_secret = "ecrets"
others kind_dependabot = "ependabot"

kind_text-append :
    (k : Kind) (t : String) → kind_text k <> t ≡ String.◌∷◌ (initial k) (others k <> t)
kind_text-append kind_var t = cons-append "v" "ars" t
kind_text-append kind_secret t = cons-append "s" "ecrets" t
kind_text-append kind_dependabot t = cons-append "d" "ependabot" t

initial-eq :
    (k j : Kind) (a b : String) → key_of k a ≡ key_of j b → code (initial k) ≡ code (initial j)
initial-eq k j a b h =
    ap code
      (head-eq_of_cons-eq (sym (kind_text-append k ("/" <> a)) ∙ h ∙ kind_text-append j ("/" <> b)))

kind_eq-of_code : (k j : Kind) → code (initial k) ≡ code (initial j) → kind_eq k j ≡ true
kind_eq-of_code kind_var kind_var h = refl
kind_eq-of_code kind_secret kind_secret h = refl
kind_eq-of_code kind_dependabot kind_dependabot h = refl
kind_eq-of_code kind_var kind_secret h = absurd (omega arith)
kind_eq-of_code kind_var kind_dependabot h = absurd (omega arith)
kind_eq-of_code kind_secret kind_var h = absurd (omega arith)
kind_eq-of_code kind_secret kind_dependabot h = absurd (omega arith)
kind_eq-of_code kind_dependabot kind_var h = absurd (omega arith)
kind_eq-of_code kind_dependabot kind_secret h = absurd (omega arith)

key_of-injective : (k : Kind) (a b : String) → key_of k a ≡ key_of k b → a ≡ b
key_of-injective k a b h = append_cancel_left "/" a b (append_cancel_left (kind_text k) _ _ h)

pub kind_eq→eq : (k j : Kind) → kind_eq k j ≡ true → k ≡ j
kind_eq→eq k j h = ground arith

key_of-ne : (k j : Kind) (a b : String) → kind_eq k j ≡ false → key_of k a ≢ key_of j b
key_of-ne k j a b d h = ground (arith, kind_eq-of_code k j (initial-eq k j a b h))

same_kind : (k : Kind) (a b : String) → (key_of k a == key_of k b) ≡ (a == b)
same_kind k a b = ground (arith, key_of-injective k a b)

pub kind_eq_refl : (k : Kind) → kind_eq k k ≡ true
kind_eq_refl kind_var = refl
kind_eq_refl kind_secret = refl
kind_eq_refl kind_dependabot = refl

-- Two keys of `resolveAll` are equal exactly when their kinds and their names are.
pub key_of_eq : (k j : Kind) (a b : String) → (key_of k a == key_of j b) ≡ (kind_eq k j && a == b)
key_of_eq k j a b = elim (Bool-cases (kind_eq k j)) [
  | inl same ↦ rw (← kind_eq→eq k j same, kind_eq_refl k) (same_kind k a b)
  | inr d ↦ ground (arith, key_of-ne k j a b d)
]
