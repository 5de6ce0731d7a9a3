-- ===== src/Script.antt =====
-- Several actions as one shell script and its output taken apart again: shellScript,
-- parseShellScript and batchResult of backend/helpers/action_pipeline.go, shellQuote of
-- backend/helpers/tool_runner.go.
pub mod Output
pub mod Unended
mod Samples
use kubendt.Prelude.{
  ℕ, zero, suc, String, Bool, true, false, Option, none, some, List, [], ◌∷◌, ◌++◌, ℤ, pos, negsuc,
  map, ltb, is_empty, trim_space, join, fields, split_lines, replace_char, append, atoi, show, ◌==◌,
  ◌&&◌, not, string_eq, int_eq, if◌then◌else◌,
}

-- What an action needs on the pod: a command that exits 0 when it is met, and a message.
pub record Precondition : Type 0 where
  pub command : List String
  pub failure : String

abbrev pub precondition_rc : ℤ
precondition_rc = pos 96

abbrev pub batch_marker : String
batch_marker = "__kubendt_rc__"

-- Within single quotes, each quote of the text as a quote outside of them.
unfoldable pub shell_quote : String → String
shell_quote s = append "'" (append (replace_char 39 "'\\''" s) "'")

unfoldable pub shell_join : List String → String
shell_join argv = join " " (map shell_quote argv)

unfoldable pub precondition_guard : Precondition → String
precondition_guard pc = append "( " (
    append (shell_join pc.command)
      (append " || { echo " (append (shell_quote pc.failure) "; exit 96; }; )")))

-- The commands of the rows that are not empty.
unfoldable pub row_commands : List (List String) → List String
row_commands [] = []
row_commands ([] ∷ rows) = row_commands rows
row_commands ((first ∷ rest) ∷ rows) = shell_join (first ∷ rest) ∷ row_commands rows

unfoldable pub guard_commands : Option Precondition → List String
guard_commands none = []
guard_commands (some pc) = precondition_guard pc ∷ []

unfoldable pub or_true : List String → List String
or_true [] = "true" ∷ []
or_true (c ∷ cmds) = c ∷ cmds

-- The line of one action.
unfoldable pub script_line : ℕ → Option Precondition → List (List String) → String
script_line k guard rows = append "{ " (
    append (join " && " (or_true (guard_commands guard ++ row_commands rows)))
      (append "; } 2>&1; echo \"" (append batch_marker (append " " (append (show k) " $?\"\n")))))

-- The script of the actions from action k on.
unfoldable pub shell_script : ℕ → List (Option Precondition × List (List String)) → String
shell_script k [] = ""
shell_script k ((guard, rows) ∷ plans) =
    append (script_line k guard rows) (shell_script (suc k) plans)

pub record BatchResult : Type 0 where
  pub output : String
  pub rc : ℤ
  pub seen : Bool

pub data BatchError : Type 0 where
  left_no_result : BatchError
  failed_precondition : String → BatchError
  not_in_image : String → String → BatchError
  exit_status : ℤ → String → BatchError

-- `missing_program` is MissingProgram: the program that a shell's output says is not there, "" for
-- none.
unfoldable pub batch_err : (String → String) → BatchResult → Option BatchError
batch_err missing_program r =
    let failed = some (exit_status r.rc r.output) in
    let program = missing_program r.output in
    if not r.seen
    then some left_no_result
    else if r.rc == pos 0
    then none
    else if r.rc == precondition_rc && not (is_empty r.output)
    then some (failed_precondition r.output)
    else if r.rc == pos 127 && not (is_empty program)
    then some (not_in_image program r.output)
    else failed

-- The index and the exit status of a line's fields, when it is the marker of one of n actions.
unfoldable pub read_marker : ℕ → List String → Option (ℕ × ℤ)
read_marker n (m ∷ k ∷ rc ∷ []) =
    if m == batch_marker
    then elim (atoi k) [
      | none ↦ none
      | some (negsuc _) ↦ none
      | some (pos i) ↦ elim (atoi rc) [
        | none ↦ none
        | some status ↦ if ltb i n then some (i, status) else none
      ]
    ]
    else none
read_marker n fs = none

-- res[k] = r, k within res
unfoldable pub set_at : ℕ → BatchResult → List BatchResult → List BatchResult
set_at k r [] = []
set_at zero r (x ∷ res) = r ∷ res
set_at (suc k) r (x ∷ res) = x ∷ set_at k r res

unfoldable pub seen_result : List String → ℤ → BatchResult
seen_result lines rc = record { output = trim_space (join "\n" lines); rc = rc; seen = true }

abbrev pub unseen : BatchResult
unseen = record { output = ""; rc = pos 0; seen = false }

-- The loop over the lines, with the lines since the last marker.
unfoldable pub parse_lines : ℕ → List String → List BatchResult → List String → List BatchResult
parse_lines n cur res [] = res
parse_lines n cur res (line ∷ lines) = elim (read_marker n (fields line)) [
  | none ↦ parse_lines n (cur ++ (line ∷ [])) res lines
  | some (k, rc) ↦ parse_lines n [] (set_at k (seen_result cur rc) res) lines
]

unfoldable pub unseen_results : ℕ → List BatchResult
unseen_results zero = []
unseen_results (suc n) = unseen ∷ unseen_results n

unfoldable pub parse_shell_script : String → ℕ → List BatchResult
parse_shell_script out n = parse_lines n [] (unseen_results n) (split_lines out)
