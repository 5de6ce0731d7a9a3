-- ===== src/Commands.antt =====
-- The commands that executors run: backend/executor/command.go, the dispatch functions and
-- ExecCommandAndGet of backend/executor/base.go and the registry of backend/executor/exec.go.
pub mod Registry
mod Samples
use kubendt.Prelude.{
  ℕ, zero, suc, String, Bool, true, false, Option, none, some, List, [], ◌∷◌, ◌++◌, ◌&&◌, not,
  Table, lookup, put, is_empty, is_some, trim_space, join, append, ◌==◌, string_eq, if◌then◌else◌,
  Result, ok, err, ◌>>=◌, ◌>>◌, refuse, map,
}

pub data CommandKind : Type 0 where
  args_kind line_kind batch_kind : CommandKind

pub record Command : Type 0 where
  pub kind : CommandKind
  pub args : List String
  pub line : String
  pub lines : List String
  pub container : String

pub data CommandError : Type 0 where
  empty_args empty_line empty_batch : CommandError
  expects_args expects_line : String → CommandKind → CommandError
  empty_name : CommandError
  already_registered not_registered : String → CommandError

unfoldable pub new_args_command : List String → Command
new_args_command args = record {
  kind = args_kind;
  args = args;
  line = "";
  lines = [];
  container = "";
}

unfoldable pub new_line_command : String → Command
new_line_command line = record {
  kind = line_kind;
  args = [];
  line = trim_space line;
  lines = [];
  container = "";
}

-- The lines that are not blank, trimmed.
unfoldable pub trimmed_lines : List String → List String
trimmed_lines [] = []
trimmed_lines (l ∷ lines) =
    let rest = trimmed_lines lines in let t = trim_space l in if is_empty t then rest else t ∷ rest

unfoldable pub new_batch_command : String → List String → Command
new_batch_command program lines = record {
  kind = batch_kind;
  args = [];
  line = program;
  lines = trimmed_lines lines;
  container = "";
}

unfoldable pub command_string : Command → String
command_string c = elim c.kind [
  | line_kind ↦ c.line
  | args_kind ↦ join " " c.args
  | batch_kind ↦ append c.line (append " " (join (append " && " (append c.line " ")) c.lines))
]

unfoldable pub validate : Command → Result CommandError Unit
validate c = elim c.kind [
  | args_kind ↦ elim c.args [ [] ↦ err empty_args | a ∷ rest ↦ ok tt ]
  | line_kind ↦ if is_empty (trim_space c.line) then err empty_line else ok tt
  | batch_kind ↦ elim c.lines [ [] ↦ err empty_batch | l ∷ rest ↦ ok tt ]
]

-- The executors by name, each with the kind of command it declares, if it declares one.
abbrev pub Executors : Type 0
Executors = Table String (Option CommandKind)

unfoldable pub register : String → Option CommandKind → Executors → Result CommandError Executors
register name kind executors =
    let name = trim_space name in
    if is_empty name
    then err empty_name
    else if is_some (lookup name executors)
    then err (already_registered name)
    else ok (put name kind executors)

unfoldable pub get_executor : Executors → String → Result CommandError (Option CommandKind)
get_executor executors name = elim (lookup name executors) [
  | none ↦ err (not_registered name)
  | some kind ↦ ok kind
]

unfoldable pub kind_for : Executors → String → CommandKind
kind_for executors name = elim (get_executor executors (trim_space name)) [
  | err e ↦ args_kind
  | ok none ↦ args_kind
  | ok (some kind) ↦ kind
]

-- The loop over the rows of an action, with the program found so far, "" for none.
unfoldable pub batch_lines : String → List (List String) → String × List String
batch_lines program [] = (program, [])
batch_lines program ([] ∷ rows) = batch_lines program rows
batch_lines program ((first ∷ args) ∷ rows) =
    let program' = if is_empty program then first else program in
    let rest = batch_lines program' rows in
    let row = if first == program' then args else first ∷ args in (rest.0, join " " row ∷ rest.1)

unfoldable pub batch_from_rows : List (List String) → Command
batch_from_rows rows = let found = batch_lines "" rows in new_batch_command found.0 found.1

unfoldable pub commands_from_legacy_for_executor :
    Executors → List (List String) → String → List Command
commands_from_legacy_for_executor executors commands name = elim (kind_for executors name) [
  | batch_kind ↦ batch_from_rows commands ∷ []
  | line_kind ↦ map (λ c. new_line_command (join " " c)) commands
  | args_kind ↦ map new_args_command commands
]

unfoldable pub dispatch_as_args : String → Command → Result CommandError (List String)
dispatch_as_args name command = elim command.kind [
  | args_kind ↦ ok command.args
  | kind ↦ err (expects_args name kind)
]

unfoldable pub dispatch_as_single_arg : String → Command → Result CommandError (List String)
dispatch_as_single_arg name command = elim command.kind [
  | line_kind ↦ ok (command.line ∷ [])
  | kind ↦ err (expects_line name kind)
]

-- ExecCommandAndGet up to the call of the cluster: what is put behind the executor's prefix.
unfoldable pub exec_args :
    (String → Command → Result CommandError (List String))
    → List String
    → String
    → Command
    → Result CommandError (List String)
exec_args dispatch prefix name command = do
  validate command
  args ← dispatch name command
  ok (prefix ++ args)
