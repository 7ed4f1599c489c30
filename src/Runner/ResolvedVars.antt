-- ===== src/Runner/ResolvedVars.antt =====
-- What `resolveVars` holds for a managed variable.
use ghsecretman.Runner.Keys.{kind_eq→eq}
use mathlib.Core.Path.{subst}
use ghsecretman.Resolve.{resolve}
use ghsecretman.Diff.Sets.{any_managed}
use ghsecretman.Plan.{kind_var, is_managed, select, kind_eq, Intent}
use ghsecretman.Base.Maps.{lookup-insert, insert, lookup, Map}
use ghsecretman.System.{System}
use ghsecretman.Runner.Target.{
  entry_key, resolve_all_loop, resolve_all, resolve_vars, resolve_vars_loop,
}
use ghsecretman.Base.{
  String, true, false, some, List, [], ◌∷◌, ◌≡◌, refl, ◌∙◌, arith, ok, inl, inr, ◌&&◌, ◌==◌,
  Bool-cases, Result-cases,
}

module _ (sys : System) (n : String) where
  resolve_vars_loop-other :
      (is : List Intent) (out m : Map String)
      → resolve_vars_loop sys is out ≡ ok m
      → any_managed (select kind_var n is) ≡ false
      → lookup n m ≡ lookup n out
  unfolding resolve_vars_loop
  resolve_vars_loop-other [] out m h none_managed = ground arith
  resolve_vars_loop-other (i ∷ is) out m h none_managed =
      elim (Bool-cases (kind_eq i.kind kind_var && is_managed i.action)) [
        | inr skip ↦ resolve_vars_loop-other is out m (ground arith) (ground arith)
        | inl take ↦ elim (Result-cases (resolve sys i.entry)) [
          | inr (e, failed) ↦ ground arith
          | inl (v, found) ↦
              resolve_vars_loop-other is (insert i.name v out) m (ground arith) (ground arith)
              ∙ ground (arith, lookup-insert n i.name v out, kind_eq→eq i.kind kind_var)
        ]
      ]

  -- What the map holds for a name that one intent manages: the text of its entry.
  abbrev pub FoundVar : Map String → Intent → Type 0
  FoundVar m i = (v : String) × (resolve sys i.entry ≡ ok v) × (lookup n m ≡ some v)

  resolve_vars_loop-here :
      (i : Intent) (is : List Intent) (out m : Map String)
      → resolve_vars_loop sys (i ∷ is) out ≡ ok m
      → (kind_eq kind_var i.kind && n == i.name) ≡ true
      → select kind_var n is ≡ []
      → is_managed i.action ≡ true
      → FoundVar m i
  unfolding resolve_vars_loop
  resolve_vars_loop-here i is out m h here rest managed =
      elim (Result-cases (resolve sys i.entry)) [
        | inr (e, failed) ↦ absurd (ground arith)
        | inl (v, found) ↦ (
          v,
          found,
          resolve_vars_loop-other is (insert i.name v out) m (ground arith) (ground arith)
              ∙ ground (arith, lookup-insert n i.name v out),
        )
      ]

  resolve_vars_loop-tail :
      (i : Intent) (is : List Intent) (out m : Map String)
      → resolve_vars_loop sys (i ∷ is) out ≡ ok m
      → (out' : Map String) × (resolve_vars_loop sys is out' ≡ ok m)
  unfolding resolve_vars_loop
  resolve_vars_loop-tail i is out m h =
      elim (Bool-cases (kind_eq i.kind kind_var && is_managed i.action)) [
        | inr skip ↦ (out, ground arith)
        | inl take ↦ elim (Result-cases (resolve sys i.entry)) [
          | inr (e, failed) ↦ absurd (ground arith)
          | inl (v, found) ↦ (insert i.name v out, ground arith)
        ]
      ]

  resolve_vars_loop-FoundVar :
      (is : List Intent) (out m : Map String) (i : Intent)
      → resolve_vars_loop sys is out ≡ ok m
      → select kind_var n is ≡ i ∷ []
      → is_managed i.action ≡ true
      → FoundVar m i
  resolve_vars_loop-FoundVar [] out m i h one managed = cc
  resolve_vars_loop-FoundVar (j ∷ is) out m i h one managed =
      elim (Bool-cases (kind_eq kind_var j.kind && n == j.name)) [
        | inl here ↦
            let same : j ≡ i = ground arith in
            subst (FoundVar m) same
              (resolve_vars_loop-here j is out m h here (ground arith) (ground arith))
        | inr there ↦
            let (out', rest) = resolve_vars_loop-tail j is out m h in
            resolve_vars_loop-FoundVar is out' m i rest (ground arith) managed
      ]

  pub resolve_vars-FoundVar :
      (is : List Intent) (m : Map String) (i : Intent)
      → resolve_vars sys is ≡ ok m
      → select kind_var n is ≡ i ∷ []
      → is_managed i.action ≡ true
      → FoundVar m i
  unfolding resolve_vars
  resolve_vars-FoundVar is m i = resolve_vars_loop-FoundVar is [] m i

-- If `resolveAll` succeeds on a list of intents, so does `resolveVars`.
resolve_vars_loop-total :
    (sys : System) (is : List Intent) (out m out' : Map String)
    → resolve_all_loop sys is out ≡ ok m
    → (m' : Map String) × (resolve_vars_loop sys is out' ≡ ok m')
unfolding resolve_vars_loop resolve_all_loop
resolve_vars_loop-total sys [] out m out' h = (out', refl)
resolve_vars_loop-total sys (i ∷ is) out m out' h = elim (Bool-cases (is_managed i.action)) [
  | inr skip ↦
      let (m', r) = resolve_vars_loop-total sys is out m out' (ground arith) in (m', ground arith)
  | inl take ↦ elim (Result-cases (resolve sys i.entry)) [
    | inr (e, failed) ↦ absurd (ground arith)
    | inl (v, found) ↦ elim (Bool-cases (kind_eq i.kind kind_var)) [
      | inl var ↦
          let (m', r) =
            resolve_vars_loop-total sys is (insert (entry_key i) v out) m (insert i.name v out')
              (ground arith) in
          (m', ground arith)
      | inr other ↦
          let (m', r) =
            resolve_vars_loop-total sys is (insert (entry_key i) v out) m out' (ground arith) in
          (m', ground arith)
    ]
  ]
]

pub resolve_vars-total :
    (sys : System) (is : List Intent) (m : Map String)
    → resolve_all sys is ≡ ok m
    → (m' : Map String) × (resolve_vars sys is ≡ ok m')
unfolding resolve_vars resolve_all
resolve_vars-total sys is m h = resolve_vars_loop-total sys is [] m [] h
