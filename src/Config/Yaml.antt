-- ===== src/Config/Yaml.antt =====
-- The nodes of gopkg.in/yaml.v3 and the loops of config.go over the content of a mapping.
use mathlib.Core.Path.{subst}
use ghsecretman.Base.{
  Returns-bind, Returns, ◌>>=◌, index_out_of_range, String, Bool, List, [], ◌∷◌, ◌≡◌, arith, Result,
  ok, err, inl, inr, Result-cases,
}

-- The package is a parameter: its type of nodes, the fields of a node that the decoder reads, its tests
-- of a node's kind, and `yaml.Unmarshal` into a node.
pub record Yaml : Type 1 where
  pub Node : Type 0
  pub is_document : Node → Bool
  pub is_mapping : Node → Bool
  pub is_sequence : Node → Bool
  pub is_scalar : Node → Bool
  pub value : Node → String
  pub content : Node → List Node
  pub unmarshal : String → Result Node

-- `for i := 0; i < len(n.Content); i += 2`, whose round reads the elements at i and at i + 1: Go
-- panics where there is none at i + 1. A round returns what it leaves in the loop's variable, or the
-- error that the function returns.
abbrev pub each_pair : {N A : Type 0} → (N → N → A → Result A) → List N → A → Result A
each_pair round [] out = ok out
each_pair round (k ∷ []) out = err index_out_of_range
each_pair round (k ∷ (v ∷ rest)) out = round k v out >>= λ next. each_pair round rest next

module _ {N A : Type 0} (P : A → Type 0) (round : N → N → A → Result A)
    (kept : (k v : N) (a b : A) → P a → round k v a ≡ ok b → P b) where
  -- What every round keeps, the loop keeps.
  pub each_pair-kept : (l : List N) (a b : A) → P a → each_pair round l a ≡ ok b → P b
  each_pair-kept [] a b p h = let same : a ≡ b = ground arith in subst P same p
  each_pair-kept (k ∷ []) a b p h = cc
  each_pair-kept (k ∷ (v ∷ rest)) a b p h = elim (Result-cases (round k v a)) [
    | inr (e, failed) ↦ absurd (ground arith)
    | inl (next, done) ↦ each_pair-kept rest next b (kept k v a next p done) (ground arith)
  ]

pub Returns-each_pair :
    {N A : Type 0} (P : A → Type 0) (round : N → N → A → Result A)
    → ((k v : N) (a : A) → P a → Returns P (round k v a))
    → (l : List N) (a : A) → P a
    → Returns P (each_pair round l a)
Returns-each_pair P round kept [] a p = p
Returns-each_pair P round kept (k ∷ []) a p = tt
Returns-each_pair P round kept (k ∷ (v ∷ rest)) a p =
    Returns-bind P P (round k v a) _ (kept k v a p)
      (λ next _ q. Returns-each_pair P round kept rest next q)
