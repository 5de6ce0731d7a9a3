-- ===== src/NodeInputs/Samples.antt =====
-- Fields of nodes at small inputs.
use kubendt.Prelude.{
  String, Bool, true, false, List, [], ◌∷◌, ◌≡◌, refl, ok, err, pos, Result, trim_space, split_char,
  split_part,
}
use kubendt.Types.{NodeSpec, MountSpec}
use kubendt.Types.Samples.{sample_node}
use kubendt.NodeInputs.{
  not_absolute, traversal, bad_env_name, duplicate_target, env_rest, is_env_name, all_env_names,
  is_absolute, validate_container_path, check_mounts, check_devices, check_node_inputs,
  validate_node_inputs,
}

abbrev stored : String → Result Unit Bool
stored file = ok true

abbrev mount_at : String → MountSpec
mount_at path = record { file = "a.conf"; mount_to = path; sensitive = false; missing = false }

abbrev with_env : String → NodeSpec
with_env name = let n : NodeSpec = sample_node "h" (pos 1) in record n { env = (name, "1") ∷ [] }

abbrev mounting : List MountSpec → NodeSpec
mounting mounts = let n : NodeSpec = sample_node "h" (pos 1) in record n { mounts = mounts }

inputs :
    (validate_container_path "/etc/../a" ≡ err traversal)
    × (validate_container_path "etc/a" ≡ err not_absolute)
    × (validate_container_path "/etc/..a" ≡ ok tt)
    × (validate_node_inputs stored (with_env "A_1" ∷ []) ≡ ok tt)
    × (validate_node_inputs stored (with_env "1A" ∷ []) ≡ err (bad_env_name "h"))
    × (validate_node_inputs stored (mounting (mount_at "/a" ∷ mount_at "/a" ∷ []) ∷ [])
        ≡ err (duplicate_target "h" "/a"))
unfolding validate_node_inputs check_node_inputs check_mounts check_devices validate_container_path
    is_absolute all_env_names is_env_name env_rest trim_space split_char split_part
inputs = (refl, refl, refl, refl, refl, refl)
