-- ===== src/Tests/Sets.antt =====
-- What the writes of the backend in memory do to its live state.
use ghsecretman.Runner.Lawful.{live_at}
use ghsecretman.Diff.{Live}
use ghsecretman.Diff.Verdict.{IsLive}
use ghsecretman.Base.Maps.{lookup-insert, insert-NodupKeys, insert, NodupKeys, Map}
use ghsecretman.Base.Sort.{IsUnique}
use ghsecretman.Tests.Memory.{lookup-erase, erase, Memory, with_name, without}
use ghsecretman.Plan.{kind_eq, kind_dependabot, kind_secret, kind_var, Kind}
use ghsecretman.Base.{
  String, true, false, Option, none, some, List, [], ◌∷◌, ◌≡◌, refl, arith, inl, inr, ◌&&◌, ◌==◌,
  if◌then◌else◌, contains, Bool-cases,
}

abbrev pub view : Memory → Live
view s = record { vars = s.vars; secrets = s.secrets; dependabot = s.dependabot }

pub erase-NodupKeys : (k : String) (m : Map String) → NodupKeys m → NodupKeys (erase k m)
erase-NodupKeys k [] u = tt
erase-NodupKeys k ((i, v) ∷ m) (fresh, u) =
    ground (arith, erase-NodupKeys k m u, lookup-erase i k m)

contains-with_name :
    (m n : String) (l : List String)
    → contains (with_name n l) m ≡ (if m == n then true else contains l m)
contains-with_name m n l = ground arith

pub with_name-IsUnique : (n : String) (l : List String) → IsUnique l → IsUnique (with_name n l)
with_name-IsUnique n l u = elim (Bool-cases (contains l n)) [
  | inl there ↦ rw there u
  | inr fresh ↦ rw fresh (fresh, u)
]

contains-without :
    (m n : String) (l : List String)
    → contains (without n l) m ≡ (if m == n then false else contains l m)
contains-without m n [] = ground arith
contains-without m n (x ∷ l) = ground (arith, contains-without m n l)

pub without-IsUnique : (n : String) (l : List String) → IsUnique l → IsUnique (without n l)
without-IsUnique n [] u = tt
without-IsUnique n (x ∷ l) (fresh, u) =
    ground (arith, without-IsUnique n l u, contains-without x n l)

-- The law on a set or a deletion, from a state to another.
abbrev pub Becomes : Kind → String → Option String → Memory → Memory → Type 0
Becomes k n new s s' =
    IsLive (view s')
    × ((j : Kind) (m : String)
        → live_at (view s') j m ≡ (if kind_eq j k && m == n then new else live_at (view s) j m))

pub set_var_at :
    (n v : String) (s : Memory) (j : Kind) (m : String)
    → live_at (view (record s { vars = insert n v s.vars })) j m
      ≡ (if kind_eq j kind_var && m == n then some v else live_at (view s) j m)
set_var_at n v s kind_var m = ground (arith, lookup-insert m n v s.vars)
set_var_at n v s kind_secret m = refl
set_var_at n v s kind_dependabot m = refl

pub set_var :
    (n v : String) (s : Memory)
    → IsLive (view s)
    → Becomes kind_var n (some v) s (record s { vars = insert n v s.vars })
set_var n v s u = (
  record {
    vars = insert-NodupKeys n v s.vars u.vars;
    secrets = u.secrets;
    dependabot = u.dependabot;
  },
  set_var_at n v s,
)

pub set_secret_at :
    (n : String) (s : Memory) (j : Kind) (m : String)
    → live_at (view (record s { secrets = with_name n s.secrets })) j m
      ≡ (if kind_eq j kind_secret && m == n then some "" else live_at (view s) j m)
set_secret_at n s kind_var m = refl
set_secret_at n s kind_secret m = ground (arith, contains-with_name m n s.secrets)
set_secret_at n s kind_dependabot m = refl

pub set_secret :
    (n : String) (s : Memory)
    → IsLive (view s)
    → Becomes kind_secret n (some "") s (record s { secrets = with_name n s.secrets })
set_secret n s u = (
  record {
    vars = u.vars;
    secrets = with_name-IsUnique n s.secrets u.secrets;
    dependabot = u.dependabot;
  },
  set_secret_at n s,
)

pub set_dependabot_at :
    (n : String) (s : Memory) (j : Kind) (m : String)
    → live_at (view (record s { dependabot = with_name n s.dependabot })) j m
      ≡ (if kind_eq j kind_dependabot && m == n then some "" else live_at (view s) j m)
set_dependabot_at n s kind_var m = refl
set_dependabot_at n s kind_secret m = refl
set_dependabot_at n s kind_dependabot m = ground (arith, contains-with_name m n s.dependabot)

pub set_dependabot :
    (n : String) (s : Memory)
    → IsLive (view s)
    → Becomes kind_dependabot n (some "") s (record s { dependabot = with_name n s.dependabot })
set_dependabot n s u = (
  record {
    vars = u.vars;
    secrets = u.secrets;
    dependabot = with_name-IsUnique n s.dependabot u.dependabot;
  },
  set_dependabot_at n s,
)

pub drop_var_at :
    (n : String) (s : Memory) (j : Kind) (m : String)
    → live_at (view (record s { vars = erase n s.vars })) j m
      ≡ (if kind_eq j kind_var && m == n then none else live_at (view s) j m)
drop_var_at n s kind_var m = ground (arith, lookup-erase m n s.vars)
drop_var_at n s kind_secret m = refl
drop_var_at n s kind_dependabot m = refl

pub drop_var :
    (n : String) (s : Memory)
    → IsLive (view s)
    → Becomes kind_var n none s (record s { vars = erase n s.vars })
drop_var n s u = (
  record { vars = erase-NodupKeys n s.vars u.vars; secrets = u.secrets; dependabot = u.dependabot },
  drop_var_at n s,
)

pub drop_secret_at :
    (n : String) (s : Memory) (j : Kind) (m : String)
    → live_at (view (record s { secrets = without n s.secrets })) j m
      ≡ (if kind_eq j kind_secret && m == n then none else live_at (view s) j m)
drop_secret_at n s kind_var m = refl
drop_secret_at n s kind_secret m = ground (arith, contains-without m n s.secrets)
drop_secret_at n s kind_dependabot m = refl

pub drop_secret :
    (n : String) (s : Memory)
    → IsLive (view s)
    → Becomes kind_secret n none s (record s { secrets = without n s.secrets })
drop_secret n s u = (
  record {
    vars = u.vars;
    secrets = without-IsUnique n s.secrets u.secrets;
    dependabot = u.dependabot;
  },
  drop_secret_at n s,
)

pub drop_dependabot_at :
    (n : String) (s : Memory) (j : Kind) (m : String)
    → live_at (view (record s { dependabot = without n s.dependabot })) j m
      ≡ (if kind_eq j kind_dependabot && m == n then none else live_at (view s) j m)
drop_dependabot_at n s kind_var m = refl
drop_dependabot_at n s kind_secret m = refl
drop_dependabot_at n s kind_dependabot m = ground (arith, contains-without m n s.dependabot)

pub drop_dependabot :
    (n : String) (s : Memory)
    → IsLive (view s)
    → Becomes kind_dependabot n none s (record s { dependabot = without n s.dependabot })
drop_dependabot n s u = (
  record {
    vars = u.vars;
    secrets = u.secrets;
    dependabot = without-IsUnique n s.dependabot u.dependabot;
  },
  drop_dependabot_at n s,
)
