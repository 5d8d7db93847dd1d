-- ===== src/Baseline.antt =====
-- The build's check of a vulnerability report against the reviewed findings
-- (scripts/check-govulncheck.go). A set of findings is a map to the unit. The lines of the list, the
-- decoded items of the report and the error that ends either are arguments, as are strings.TrimSpace and
-- the files that cannot be opened, which are such an error. What is printed, with its order, is not
-- modelled.
pub mod Matched
use Prim.Native.String.{[], ◌∷◌}
use Prim.Native.Char.{code}
use mathlib.Core.List.{[] as []ᴸ, ◌∷◌ as ◌∷ᴸ◌}
use tenderduty_nos.Prelude.{
  ℕ, String, Bool, true, false, not, ◌||◌, if◌then◌else◌, ◌==◌, Option, none, some, List, Map,
  insert, has, str_eq, Reply, got, failed,
}

abbrev pub Findings : Type 0
Findings = Map (Unit {0})

pub record Finding : Type 0 where
  pub osv : String
  pub functions : List String

-- `strings.SplitN(text, "#", 2)[0]`
unfoldable pub before_hash : String → String
before_hash [] = ""
before_hash (c ∷ s) = let rest = before_hash s in if code c == 35 then "" else c ∷ rest

unfoldable pub load_allowlist : (String → String) → List String → Option String → Reply Findings
load_allowlist trim lines (some e) = failed e
load_allowlist trim lines none = got (allowed lines)
  where
    allowed : List String → Findings
    allowed []ᴸ = []ᴸ
    allowed (text ∷ᴸ rest) =
        let others = allowed rest in
        let line = trim (before_hash text) in
        if str_eq line "" then others else insert line tt others

-- Whether a frame of the trace names a function.
unfoldable pub reaches_symbol : List String → Bool
reaches_symbol []ᴸ = false
reaches_symbol (function ∷ᴸ rest) = not (str_eq function "") || reaches_symbol rest

-- An item that is no finding is `none`.
unfoldable pub collect : List (Option Finding) → Findings → Findings
unfolding reaches_symbol
collect []ᴸ found = found
collect (none ∷ᴸ items) found = collect items found
collect (some f ∷ᴸ items) found = collect items (
    if str_eq f.osv ""
    then found
    else if reaches_symbol f.functions
    then insert f.osv tt found
    else found)

unfoldable pub symbol_findings : List (Option Finding) → Option String → Reply Findings
unfolding collect
symbol_findings items none = got (collect items []ᴸ)
symbol_findings items (some e) = failed e

unfoldable pub difference : Findings → Findings → List String
difference []ᴸ right = []ᴸ
difference ((id, u) ∷ᴸ left) right =
    let rest = difference left right in if has id right then rest else id ∷ᴸ rest

abbrev pub is_empty : List String → Bool
is_empty []ᴸ = true
is_empty (x ∷ᴸ xs) = false

-- The exit code, for the one argument that the program wants.
unfoldable pub exit_code : Reply Findings → Reply Findings → ℕ
unfolding difference
exit_code (failed e) found = 1
exit_code (got allowed) (failed e) = 1
exit_code (got allowed) (got found) =
    if is_empty (difference found allowed)
    then (if is_empty (difference allowed found) then 0 else 1)
    else 1
