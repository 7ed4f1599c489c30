-- ===== src/Runner/Footprint.antt =====
-- What the commands for one repo may do to GitHub: a property of the backend's state that the
-- allowed calls keep is kept by the whole command.
use ghsecretman.Runner.Keys.{kind_eq_refl}
use ghsecretman.Runner.Target.{entry_key}
use ghsecretman.Runner.Repo.{apply_one, delete_one}
use ghsecretman.Base.Calls.{Keeps}
use ghsecretman.Diff.Rows.{pick}
use ghsecretman.Runner.Phases.{apply_loop, run_apply_phase, run_delete_phase, is_extra}
use ghsecretman.Base.Maps.{get_text, Map}
use ghsecretman.Github.{PublicKey, Backend}
use ghsecretman.System.{System}
use ghsecretman.Diff.{Entry}
use ghsecretman.Plan.{kind_eq, is_managed, select, Kind, Intent}
use ghsecretman.Base.{
  String, Bool, true, false, Option, List, [], ◌∷◌, ◌≡◌, refl, arith, inl, inr, if◌then◌else◌,
  Bool-cases, ◌&&◌, ◌==◌,
}

abbrev pub All : {A : Type 0} → (A → Type 0) → List A → Type 0
All Q [] = Unit
All Q (x ∷ xs) = Q x × All Q xs

self_match : (k : Kind) (n : String) → (kind_eq k k && n == n) ≡ true
self_match k n = rw (kind_eq_refl k) (ground arith)

pub All-head :
    {A : Type 0} (Q : A → Type 0) (x : A) (xs : List A) (c : Bool)
    → c ≡ true
    → All Q (if c then x ∷ xs else xs)
    → Q x
All-head Q x xs true e h = h.0
All-head Q x xs false e h = cc

All-tail :
    {A : Type 0} (Q : A → Type 0) (x : A) (xs : List A) (c : Bool)
    → All Q (if c then x ∷ xs else xs)
    → All Q xs
All-tail Q x xs true h = h.1
All-tail Q x xs false h = h

pub All-of_select :
    (Q : Intent → Type 0) (is : List Intent)
    → ((k : Kind) (n : String) → All Q (select k n is))
    → All Q is
All-of_select Q [] h = tt
All-of_select Q (i ∷ is) h = (
  All-head Q i (select i.kind i.name is) (kind_eq i.kind i.kind && i.name == i.name)
      (self_match i.kind i.name) (h i.kind i.name),
  All-of_select Q is
      (λ k n. All-tail Q i (select k n is) (kind_eq k i.kind && n == i.name) (h k n)),
)

pub All-of_pick :
    (Q : Entry → Type 0) (es : List Entry)
    → ((k : Kind) (n : String) → All Q (pick k n es))
    → All Q es
All-of_pick Q [] h = tt
All-of_pick Q (e ∷ es) h = (
  All-head Q e (pick e.kind e.name es) (kind_eq e.kind e.kind && e.name == e.name)
      (self_match e.kind e.name) (h e.kind e.name),
  All-of_pick Q es (λ k n. All-tail Q e (pick k n es) (kind_eq k e.kind && n == e.name) (h k n)),
)

module _ (sys : System) (b : Backend) (org repo : String) (P : b.State → Type 0) where
  abbrev pub MaySet : Map String → Option PublicKey → Option PublicKey → Intent → Type 0
  MaySet resolved ak dk i =
      is_managed i.action ≡ true
      → Keeps P (apply_one b org repo i.kind i.name (get_text (entry_key i) resolved) ak dk)

  pub run_apply_phase-Keeps :
      (is : List Intent) (resolved : Map String) (ak dk : Option PublicKey) (dry : Bool)
      → (dry ≡ false → All (MaySet resolved ak dk) is)
      → (s : b.State) → P s
      → P (run_apply_phase sys b org repo is resolved ak dk dry s).1
  unfolding run_apply_phase
  run_apply_phase-Keeps [] resolved ak dk dry h s p = p
  run_apply_phase-Keeps (i ∷ is) resolved ak dk true h s p =
      elim (Bool-cases (is_managed i.action)) [
        | inl m ↦ rw m (run_apply_phase-Keeps is resolved ak dk true (λ e. cc) s p)
        | inr m ↦ rw m (run_apply_phase-Keeps is resolved ak dk true (λ e. cc) s p)
      ]
  run_apply_phase-Keeps (i ∷ is) resolved ak dk false h s p =
      elim (Bool-cases (is_managed i.action)) [
        | inl m ↦
            rw m (run_apply_phase-Keeps is resolved ak dk false (λ e. (h e).1) _ ((h refl).0 m s p))
        | inr m ↦ rw m (run_apply_phase-Keeps is resolved ak dk false (λ e. (h e).1) s p)
      ]

  abbrev pub MayDelete : Entry → Type 0
  MayDelete e = is_extra e.status ≡ true → Keeps P (delete_one b org repo e.kind e.name)

  pub run_delete_phase-Keeps :
      (es : List Entry) (dry : Bool)
      → (dry ≡ false → All MayDelete es)
      → (s : b.State) → P s
      → P (run_delete_phase sys b org repo es dry s).1
  unfolding run_delete_phase
  run_delete_phase-Keeps [] dry h s p = p
  run_delete_phase-Keeps (e ∷ es) true h s p = elim (Bool-cases (is_extra e.status)) [
    | inl m ↦ rw m (run_delete_phase-Keeps es true (λ e. cc) s p)
    | inr m ↦ rw m (run_delete_phase-Keeps es true (λ e. cc) s p)
  ]
  run_delete_phase-Keeps (e ∷ es) false h s p = elim (Bool-cases (is_extra e.status)) [
    | inl m ↦ rw m (run_delete_phase-Keeps es false (λ x. (h x).1) _ ((h refl).0 m s p))
    | inr m ↦ rw m (run_delete_phase-Keeps es false (λ x. (h x).1) s p)
  ]

  -- The loop of `ApplyRepo` is the first phase of `EnforceRepo`.
  pub apply_loop-run_apply_phase :
      (is : List Intent) (resolved : Map String) (ak dk : Option PublicKey) (s : b.State)
      → apply_loop sys b org repo is resolved ak dk s
        ≡ run_apply_phase sys b org repo is resolved ak dk false s
  unfolding apply_loop run_apply_phase
  apply_loop-run_apply_phase [] resolved ak dk s = refl
  apply_loop-run_apply_phase (i ∷ is) resolved ak dk s =
      let s' = (apply_one b org repo i.kind i.name (get_text (entry_key i) resolved) ak dk s).1 in
      ground (
        arith,
        apply_loop-run_apply_phase is resolved ak dk s,
        apply_loop-run_apply_phase is resolved ak dk s',
      )
