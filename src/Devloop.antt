-- ===== src/Devloop.antt =====
-- devloop/tamper_guard.py: which uncommitted changes the development loop may make. What git prints is
-- an argument: the lines of the diff, the NUL-separated fields after their split, and the paths. So is
-- `str.strip`. An offset counts bytes, and every offset here stands after ASCII text.
pub mod Fields
pub mod Clean
use text.Mathlib.Text.{starts_with}
use Prim.Native.String.{slice, len}
use fund.Base.{
  none, some, true, false, [], ◌∷◌, Bool, List, String, ℕ, Option, any, if◌then◌else◌, not, ◌&&◌,
  ◌||◌, is_empty, str_eq, ◌++◌,
}

abbrev pub Change : Type 0
Change = String × String

abbrev drop_bytes : ℕ → String → String
drop_bytes n s = slice s n (len s)

abbrev pub letter : String → String
letter s = slice s 0 1

-- A changed line of one side of a diff, without its mark; the header of that side is no line.
unfoldable pub side : (mark header : String) → List String → List String
side mark header [] = []
side mark header (l ∷ ls) =
    let rest = side mark header ls in
    if starts_with l mark && not (starts_with l header) then drop_bytes 1 l ∷ rest else rest

abbrev ticks : (strip : String → String) → (old new : String) → Bool
ticks strip old new =
    let o = strip old in
    let n = strip new in
    starts_with o "- [ ]" && starts_with n "- [x]" && str_eq (drop_bytes 5 o) (drop_bytes 5 n)

-- Lists of unequal lengths fail.
unfoldable pub all_ticks : (strip : String → String) → (minus plus : List String) → Bool
all_ticks strip [] [] = true
all_ticks strip (old ∷ olds) (new ∷ news) = ticks strip old new && all_ticks strip olds news
all_ticks strip _ _ = false

unfoldable pub checkbox_only_diff : (strip : String → String) → (diff : List String) → Bool
unfolding side all_ticks
checkbox_only_diff strip diff =
    let minus = side "-" "---" diff in
    not (is_empty minus) && all_ticks strip minus (side "+" "+++" diff)

-- zip(fields[::2], fields[1::2]), each status cut to its letter
unfoldable pub changes_of : (fields : List String) → List Change
changes_of [] = []
changes_of (status ∷ []) = []
changes_of (status ∷ path ∷ fields) = (letter status, path) ∷ changes_of fields

-- Each untracked path is an addition.
unfoldable pub untracked : (paths : List String) → List Change
untracked [] = []
untracked (path ∷ paths) =
    let rest = untracked paths in if str_eq path "" then rest else ("A", path) ∷ rest

abbrev pub is_in : List String → String → Bool
is_in paths path = any (str_eq path) paths

abbrev pub is_under : List String → String → Bool
is_under dirs path = any (starts_with path) dirs

unfoldable pub protected_dirs : List String
protected_dirs =
    "specs/" ∷ "fixtures/" ∷ "charters/" ∷ "scripts/" ∷ "research/" ∷ "fundbt/" ∷ "stratgate/"
    ∷ "calibration/" ∷ "devloop/" ∷ ".github/" ∷ "evals/seats/" ∷ []

unfoldable pub protected_files : List String
protected_files =
    "CLAUDE.md" ∷ "KICKOFF.md" ∷ "Makefile" ∷ "pyproject.toml" ∷ ".gitignore"
    ∷ "evals/traces/recorded-expected.json" ∷ "pytest.ini" ∷ "setup.cfg" ∷ "tox.ini" ∷ "conftest.py"
    ∷ []

abbrev pub checkbox_file : String
checkbox_file = "specs/acceptance.md"

abbrev pub baseline_guarded_dirs : List String
baseline_guarded_dirs = "tests/" ∷ "evals/cases/" ∷ "evals/traces/" ∷ []

abbrev pub devloop_scratch : List String
devloop_scratch = "devloop/NOTES.md" ∷ []

pub data Violation : Type 0 where
  beyond_ticks : (path : String) → Violation
  protected_path : (path status : String) → Violation
  weakened_evidence : (path status : String) → Violation

abbrev pub is_protected : String → Bool
is_protected path = is_in protected_files path || is_under protected_dirs path

abbrev pub is_frozen : (baseline_files : List String) → String → Bool
is_frozen baseline_files path = is_under baseline_guarded_dirs path && is_in baseline_files path

-- One turn of the loop over the changes. `ticked` is the answer of `checkbox_only_diff`.
unfoldable pub violation :
    (ticked : Bool) → (baseline_files : List String) → Change → Option Violation
unfolding protected_dirs protected_files
violation ticked baseline_files (status, path) =
    if is_in devloop_scratch path
    then none
    else if str_eq path checkbox_file && str_eq status "M"
    then if ticked then none else some (beyond_ticks path)
    else if is_protected path
    then some (protected_path path status)
    else if is_frozen baseline_files path && not (str_eq status "A")
    then some (weakened_evidence path status)
    else none

abbrev pub report : Option Violation → List Violation → List Violation
report none rest = rest
report (some v) rest = v ∷ rest

unfoldable pub violations :
    (ticked : Bool) → (baseline_files : List String) → List Change → List Violation
violations ticked baseline_files [] = []
violations ticked baseline_files (c ∷ cs) =
    report (violation ticked baseline_files c) (violations ticked baseline_files cs)

-- The exit code.
unfoldable pub main :
    (strip : String → String) → (baseline_files diff fields others : List String) → ℕ
main strip baseline_files diff fields others =
    if is_empty (
      violations (checkbox_only_diff strip diff) baseline_files
        (changes_of fields ++ untracked others))
    then 0
    else 1
