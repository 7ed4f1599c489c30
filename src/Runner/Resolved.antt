-- ===== src/Runner/Resolved.antt =====
-- What the maps of resolved values hold for a managed intent.
use mathlib.Core.Path.{subst}
use ghsecretman.Runner.Keys.{key_of_eq}
use ghsecretman.Resolve.{resolve}
use ghsecretman.Diff.Sets.{any_managed}
use ghsecretman.Base.Maps.{lookup-insert, insert, lookup, Map}
use ghsecretman.Runner.Target.{resolve_all, entry_key, key_of, resolve_all_loop}
use ghsecretman.Base.{
  ◌∙◌, Result-cases, inl, inr, Bool-cases, ◌∷◌, arith, false, ok, ◌≡◌, List, String, [], true, some,
  ◌&&◌, ◌==◌,
}
use ghsecretman.Plan.{kind_eq, is_managed, select, Intent, Kind}
use ghsecretman.System.{System}

-- The one intent for a kind and name, where it is managed.
module _ (sys : System) (k : Kind) (n : String) where
  resolve_all_loop-other :
      (is : List Intent) (out m : Map String)
      → resolve_all_loop sys is out ≡ ok m
      → any_managed (select k n is) ≡ false
      → lookup (key_of k n) m ≡ lookup (key_of k n) out
  unfolding resolve_all_loop
  resolve_all_loop-other [] out m h none_managed = ground arith
  resolve_all_loop-other (i ∷ is) out m h none_managed = elim (Bool-cases (is_managed i.action)) [
    | inr skip ↦ resolve_all_loop-other is out m (ground arith) (ground arith)
    | inl take ↦ elim (Result-cases (resolve sys i.entry)) [
      | inr (e, failed) ↦ ground arith
      | inl (v, found) ↦
          resolve_all_loop-other is (insert (entry_key i) v out) m (ground arith) (ground arith)
          ∙ ground
              (arith, lookup-insert (key_of k n) (entry_key i) v out, key_of_eq k i.kind n i.name)
    ]
  ]

  resolve_all_loop-here :
      (i : Intent) (is : List Intent) (out m : Map String)
      → resolve_all_loop sys (i ∷ is) out ≡ ok m
      → (kind_eq k i.kind && n == i.name) ≡ true
      → select k n is ≡ []
      → is_managed i.action ≡ true
      → (v : String) × (resolve sys i.entry ≡ ok v) × (lookup (key_of k n) m ≡ some v)
  unfolding resolve_all_loop
  resolve_all_loop-here i is out m h here rest managed = elim (Result-cases (resolve sys i.entry)) [
    | inr (e, failed) ↦ absurd (ground arith)
    | inl (v, found) ↦ (
      v,
      found,
      resolve_all_loop-other is (insert (entry_key i) v out) m (ground arith) (ground arith)
          ∙ ground
              (arith, lookup-insert (key_of k n) (entry_key i) v out, key_of_eq k i.kind n i.name),
    )
  ]

  resolve_all_loop-tail :
      (i : Intent) (is : List Intent) (out m : Map String)
      → resolve_all_loop sys (i ∷ is) out ≡ ok m
      → (out' : Map String) × (resolve_all_loop sys is out' ≡ ok m)
  unfolding resolve_all_loop
  resolve_all_loop-tail i is out m h = elim (Bool-cases (is_managed i.action)) [
    | inr skip ↦ (out, ground arith)
    | inl take ↦ elim (Result-cases (resolve sys i.entry)) [
      | inr (e, failed) ↦ absurd (ground arith)
      | inl (v, found) ↦ (insert (entry_key i) v out, ground arith)
    ]
  ]

  -- What `resolveAll` holds for a name that one intent manages: the text of its entry.
  abbrev pub Found : Map String → Intent → Type 0
  Found m i = (v : String) × (resolve sys i.entry ≡ ok v) × (lookup (key_of k n) m ≡ some v)

  resolve_all_loop-Found :
      (is : List Intent) (out m : Map String) (i : Intent)
      → resolve_all_loop sys is out ≡ ok m
      → select k n is ≡ i ∷ []
      → is_managed i.action ≡ true
      → Found m i
  resolve_all_loop-Found [] out m i h one managed = cc
  resolve_all_loop-Found (j ∷ is) out m i h one managed =
      elim (Bool-cases (kind_eq k j.kind && n == j.name)) [
        | inl here ↦
            let same : j ≡ i = ground arith in
            subst
              (λ (x : Intent).
                (v : String) × (resolve sys x.entry ≡ ok v) × (lookup (key_of k n) m ≡ some v))
              same (resolve_all_loop-here j is out m h here (ground arith) (ground arith))
        | inr there ↦
            let (out', rest) = resolve_all_loop-tail j is out m h in
            resolve_all_loop-Found is out' m i rest (ground arith) managed
      ]

  -- Where `resolveAll` succeeds on intents of which exactly one is for a given kind and name, and that
  -- one is managed, the map holds for that kind and name the text that `Resolve` returns for the
  -- intent's entry.
  pub resolve_all-Found :
      (is : List Intent) (m : Map String) (i : Intent)
      → resolve_all sys is ≡ ok m
      → select k n is ≡ i ∷ []
      → is_managed i.action ≡ true
      → Found m i
  unfolding resolve_all
  resolve_all-Found is m i = resolve_all_loop-Found is [] m i
