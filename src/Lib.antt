-- ===== src/Lib.antt =====
-- ghsecretman keeps the variables, the Actions secrets and the Dependabot secrets of GitHub
-- repositories in line with a YAML file. It decodes the file (internal/config/config.go), plans
-- what each repo should hold from the repo's own block and from the block of all repos
-- (internal/plan/plan.go), compares the plan with the live state (internal/diff/diff.go), finds the
-- texts of the entries (internal/resolve/resolve.go), and reads and writes through the interface
-- Backend (internal/github/github.go); internal/runner/runner.go puts these together into the
-- commands audit, apply and enforce.
--
-- Base: shared names; Go's (value, error) as Result, maps with text keys as association lists whose
-- order is that of Go's range over them, sort.Strings, and calls of a backend as functions from a
-- state to a result and a state. A panic is an error of its own kind.
-- System: files, environment, paths and the verbs of fmt, as a parameter.
-- Config: the types of config.go. Config/Yaml has the nodes of yaml.v3 as a parameter;
-- Config/Entries, Config/Repos, Config/Orgs and Config/Load are the decoder from the entries up to
-- LoadBytes, a function for each of its functions and one more for the round of each loop.
-- The module Plan is plan.go. Its child Plan/Cascade is ForRepoCascade and EffectiveIgnored, whose
-- own children prove what these two yield against the precedence rules, stated for one name, and
-- that Go's order of visiting maps does not show. Plan/Organization is ForOrg and
-- EffectiveOrgIgnored.
-- Diff: diff.go; its children describe Compute name by name, for a repo and for an organization.
-- Resolve: Resolve and the errors it returns.
-- Github: the interface Backend, as a record over a state that the program does not see.
-- Github/Client and Github/Operations are the type Client of github.go and
-- internal/github/encrypt.go, over a record of the calls of go-github, nacl/box and
-- encoding/base64; Github/Pages, Github/Variables and Github/Secrets prove what its loops over
-- pages, its update or create, and its sealing come to.
-- Runner: the commands for one repo first. Runner/Target has lookupTarget and the maps of resolved
-- values, Runner/Stanza the text of an audit, Runner/Repo the calls for one repo, Runner/Phases the
-- loops that set and delete, and Runner/Audit, Runner/Apply and Runner/Enforce the commands. A
-- command returns its result together with the text that it writes. Runner/Footprint,
-- Runner/Allowed and Runner/Commands prove what a command can do to GitHub, Runner/Loaded what a
-- loaded configuration grants a command. Runner/Lawful states what GitHub's documentation promises
-- of the calls for one repo, as hypotheses on the backend, for names that GitHub keeps as they are
-- spelled and states that one page of each listing shows, and Runner/Settled and Runner/Convergence
-- what an enforce and an audit then come to; Runner/DryRun is about dry runs, as is
-- Runner/OrgCommands/DryRun. Runner/OrgScope and Runner/OrgCommands are the same for the objects of
-- an organization: the ids of selected repos with their cache, the loops, and AuditOrgScope,
-- ApplyOrgScope and EnforceOrgScope. Runner/Pool is the worker pool of runOrg, as a step relation:
-- starting a worker, flushing a buffer and counting an outcome are steps, the last two each under
-- the mutex, in whatever order the workers come. Runner/Owner is Audit, Apply and Enforce over all
-- repos of an owner, with the scheduler of the pool as a parameter of which its theorems assume
-- that it takes a schedule of that relation.
-- CommandLine: cmd/ghsecretman/main.go, from the arguments to the exit code. CommandLine/Frame has
-- what the commands share and the program's surroundings as the parameter World,
-- CommandLine/Commands and CommandLine/Dispatch the commands and run, CommandLine/Refusals the
-- arguments that are refused; the backend in World is any, of which the client is one.
-- Tests: a backend in memory, runs, and the theorems at concrete data. Tests/Paged has the client
-- over a GitHub in memory that keeps names in upper case and lists one page, and is lawful.
--
-- Each loop of the modelled code but two runs over a list, so that the definitions are structural
-- recursions and need no fuel. The two loops over pages of github.go end when GitHub says that
-- there is no next page; they take fuel, one for each page, so that as much fuel as there are pages
-- is enough, and the model says so by an error of its own where it runs out.
--
-- Not modelled: contexts (cancellation); what the package flag does with the arguments, which is a
-- parameter; the embedded document of internal/schema/schema.go, which has no logic; and writeFile
-- of config.go, resolve.go and runner.go, which only tests use. The work of one worker of the pool
-- is an outcome that the work may end in: how its calls of GitHub interleave with those of other
-- workers is left open, and what GitHub answers then is covered by every outcome being allowed.
pub mod Base
pub mod System
pub mod Config
pub mod Plan
pub mod Diff
pub mod Resolve
pub mod Github
pub mod Runner
pub mod CommandLine
pub mod Tests
