-- ===== src/NodeInputs.antt =====
-- The fields of nodes that are checked before anything is created: ValidateNodeInputs of
-- backend/helpers/topology_validation.go. `file_exists` is NamespaceFileExists.
mod Samples
use kubendt.Prelude.{
  ℕ, zero, suc, String, Bool, true, false, List, [], ◌∷◌, ◌&&◌, ◌||◌, not, Table, codes, contains,
  trim_space, is_empty, leb, eqb, split_char, ◌==◌, string_eq, nat_eq, if◌then◌else◌, Result, ok,
  err, ◌>>=◌, ◌>>◌, refuse,
}
use kubendt.Types.{NodeSpec, MountSpec, DeviceSpec}

pub data PathError : Type 0 where
  path_required not_absolute null_byte traversal : PathError

-- The node's name, and the file or the path that is wrong.
pub data InputError (E : Type 0) : Type 0 where
  image_required bad_env_name file_missing : String → InputError E
  bad_mount duplicate_target no_such_file : String → String → InputError E
  bad_device : String → PathError → InputError E
  not_verified : String → E → InputError E

abbrev is_letter : ℕ → Bool
is_letter c = (leb b'A' c && leb c b'Z') || (leb b'a' c && leb c b'z') || eqb c b'_'

unfoldable pub env_rest : List ℕ → Bool
env_rest [] = true
env_rest (c ∷ rest) = (is_letter c || (leb b'0' c && leb c b'9')) && env_rest rest

-- ^[A-Za-z_][A-Za-z0-9_]*$
unfoldable pub is_env_name : List ℕ → Bool
is_env_name [] = false
is_env_name (c ∷ rest) = is_letter c && env_rest rest

unfoldable pub all_env_names : Table String String → Bool
all_env_names [] = true
all_env_names ((key, value) ∷ env) = is_env_name (codes key) && all_env_names env

-- strings.HasPrefix(p, "/")
unfoldable pub is_absolute : List ℕ → Bool
is_absolute [] = false
is_absolute (c ∷ rest) = c == b'/'

unfoldable pub validate_container_path : String → Result PathError Unit
validate_container_path p =
    if is_empty (trim_space p)
    then err path_required
    else if not (is_absolute (codes p))
    then err not_absolute
    else if contains (codes p) 0
    then err null_byte
    else refuse (contains (split_char b'/' p) "..") traversal

module _ {E : Type 0} (file_exists : String → Result E Bool) where
  -- The loop over the mounts, with the targets seen so far.
  unfoldable pub check_mounts : String → List String → List MountSpec → Result (InputError E) Unit
  check_mounts node seen [] = ok tt
  check_mounts node seen (m ∷ mounts) = do
    refuse (is_empty (trim_space m.file)) (file_missing node)
    elim (validate_container_path m.mount_to) [ err e ↦ err (bad_mount node m.file) | ok _ ↦ ok tt ]
    refuse (contains seen m.mount_to) (duplicate_target node m.mount_to)
    elim (file_exists m.file) [
      | err e ↦ err (not_verified node e)
      | ok exists ↦ refuse (not exists) (no_such_file node m.file)
    ]
    check_mounts node (m.mount_to ∷ seen) mounts

  unfoldable pub check_devices : String → List DeviceSpec → Result (InputError E) Unit
  check_devices node [] = ok tt
  check_devices node (d ∷ devices) = do
    elim (validate_container_path d.path) [ err e ↦ err (bad_device node e) | ok _ ↦ ok tt ]
    check_devices node devices

  unfoldable pub check_node_inputs : NodeSpec → Result (InputError E) Unit
  check_node_inputs n = do
    refuse (is_empty (trim_space n.image)) (image_required n.name)
    refuse (not (all_env_names n.env)) (bad_env_name n.name)
    check_mounts n.name [] n.mounts
    check_devices n.name n.devices

  unfoldable pub validate_node_inputs : List NodeSpec → Result (InputError E) Unit
  validate_node_inputs [] = ok tt
  validate_node_inputs (n ∷ nodes) = do check_node_inputs n; validate_node_inputs nodes
