-- ===== src/Commands/Samples.antt =====
-- The registry of executors and the commands it makes at small inputs.
use kubendt.Prelude.{
  [], ◌∷◌, ◌≡◌, refl, none, some, ok, map, trim_space, lookup, if◌then◌else◌, ◌==◌, string_eq, join,
}
use kubendt.Commands.{
  batch_kind, Executors, register, get_executor, kind_for, exec_args, dispatch_as_args,
  commands_from_legacy_for_executor, batch_from_rows, batch_lines, new_batch_command, trimmed_lines,
  command_string,
}
use kubendt.Commands.Registry.{
  as_args, get_executor-register, exec_args-commands_from_legacy_for_executor,
}

abbrev kubectl_only : Executors
kubectl_only = ("kubectl", none) ∷ []

tc_registered :
    (lookup (trim_space "tc") kubectl_only ≡ none)
    × (get_executor (("kubectl", none) ∷ ("tc", some batch_kind) ∷ []) "tc" ≡ (
        if trim_space "tc" == "tc" then ok (some batch_kind) else get_executor kubectl_only "tc"))
unfolding register trim_space
tc_registered =
    get_executor-register "tc" "tc" (some batch_kind) kubectl_only
      (("kubectl", none) ∷ ("tc", some batch_kind) ∷ []) refl

ip_row_args :
    map
      (exec_args dispatch_as_args ("ssh" ∷ []) "kubectl")
      (commands_from_legacy_for_executor kubectl_only (("ip" ∷ "a" ∷ []) ∷ [] ∷ []) "kubectl")
    ≡ as_args ("ssh" ∷ []) (("ip" ∷ "a" ∷ []) ∷ [] ∷ [])
unfolding kind_for get_executor trim_space
ip_row_args =
    exec_args-commands_from_legacy_for_executor kubectl_only "kubectl" ("ssh" ∷ [])
      (("ip" ∷ "a" ∷ []) ∷ [] ∷ []) refl

one_batch :
    map command_string (
      commands_from_legacy_for_executor
        (("tc", some batch_kind) ∷ [])
        (("tc" ∷ "qdisc" ∷ "del" ∷ []) ∷ [] ∷ ("tc" ∷ "qdisc" ∷ "add" ∷ []) ∷ [])
        "tc")
    ≡ "tc qdisc del && tc qdisc add" ∷ []
unfolding commands_from_legacy_for_executor kind_for get_executor trim_space batch_from_rows
    batch_lines new_batch_command trimmed_lines command_string join
one_batch = refl
