-- ===== src/Commands/Registry.antt =====
-- What the registry of executors and the kinds they declare make of an action's commands.
use kubendt.Prelude.{
  String, Option, none, List, [], ◌∷◌, ◌++◌, ◌≡◌, refl, ap, ◌∙◌, arith, lookup, lookup-put,
  is_empty, trim_space, join, ◌==◌, string_eq, if◌then◌else◌, Result, ok, err, map,
}
use kubendt.Commands.{
  CommandKind, args_kind, line_kind, CommandError, empty_args, empty_line, new_args_command,
  new_line_command, validate, Executors, register, get_executor, kind_for,
  commands_from_legacy_for_executor, dispatch_as_args, dispatch_as_single_arg, exec_args,
}

-- Registering an executor that is accepted makes it, and it alone, found under its trimmed name:
-- what every other name finds is as before, and no name that was taken is given to another.
pub get_executor-register :
    (name other : String) (kind : Option CommandKind) (executors executors' : Executors)
    → register name kind executors ≡ ok executors'
    → (lookup (trim_space name) executors ≡ none)
      × (get_executor executors' other
          ≡ (if trim_space name == other then ok kind else get_executor executors other))
unfolding register get_executor
get_executor-register name other kind executors executors' h =
    ground (arith, h, lookup-put (trim_space name) other kind executors)

-- The arguments that a driver's rows make on kubectl exec, row after row.
abbrev pub as_args : List String → List (List String) → List (Result CommandError (List String))
as_args prefix [] = []
as_args prefix (row ∷ rows) =
    elim row [ [] ↦ err empty_args | first ∷ rest ↦ ok (prefix ++ (first ∷ rest)) ]
    ∷ as_args prefix rows

abbrev pub as_lines : List String → List (List String) → List (Result CommandError (List String))
as_lines prefix [] = []
as_lines prefix (row ∷ rows) =
    let text = trim_space (join " " row) in
    (if is_empty (trim_space text) then err empty_line else ok (prefix ++ (text ∷ [])))
    ∷ as_lines prefix rows

-- On an executor of arguments the commands that an action's rows make are what its dispatch takes:
-- each row that is not empty goes out as it is behind the prefix, and an empty one is refused.
pub exec_args-commands_from_legacy_for_executor :
    (executors : Executors) (name : String) (prefix : List String) (rows : List (List String))
    → kind_for executors name ≡ args_kind
    → map
        (exec_args dispatch_as_args prefix name)
        (commands_from_legacy_for_executor executors rows name)
      ≡ as_args prefix rows
unfolding commands_from_legacy_for_executor exec_args validate dispatch_as_args new_args_command
exec_args-commands_from_legacy_for_executor executors name prefix rows h =
    ap (map (exec_args dispatch_as_args prefix name)) as_args_commands ∙ args_rows rows
  where
    as_args_commands :
        commands_from_legacy_for_executor executors rows name ≡ map new_args_command rows
    as_args_commands = rw (commands_from_legacy_for_executor, h) refl

    args_rows :
        (rows : List (List String))
        → map (exec_args dispatch_as_args prefix name) (map new_args_command rows)
          ≡ as_args prefix rows
    args_rows [] = refl
    args_rows ([] ∷ rows) = rw (args_rows rows) refl
    args_rows ((first ∷ rest) ∷ rows) = rw (args_rows rows) refl

-- On an executor of lines they are what its dispatch takes: each row goes out as one trimmed
-- argument behind the prefix, and a blank one is refused.
pub exec_args-commands_from_legacy_lines :
    (executors : Executors) (name : String) (prefix : List String) (rows : List (List String))
    → kind_for executors name ≡ line_kind
    → map
        (exec_args dispatch_as_single_arg prefix name)
        (commands_from_legacy_for_executor executors rows name)
      ≡ as_lines prefix rows
unfolding commands_from_legacy_for_executor exec_args validate dispatch_as_single_arg
    new_line_command
exec_args-commands_from_legacy_lines executors name prefix rows h =
    ap (map (exec_args dispatch_as_single_arg prefix name)) as_line_commands ∙ line_rows rows
  where
    as_line_commands :
        commands_from_legacy_for_executor executors rows name
        ≡ map (λ c. new_line_command (join " " c)) rows
    as_line_commands = rw (commands_from_legacy_for_executor, h) refl

    line_rows :
        (rows : List (List String))
        → map
            (exec_args dispatch_as_single_arg prefix name)
            (map (λ c. new_line_command (join " " c)) rows)
          ≡ as_lines prefix rows
    line_rows [] = refl
    line_rows (row ∷ rows) = ground (arith, line_rows rows)
