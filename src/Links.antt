-- ===== src/Links.antt =====
-- The checks of a request's links against the nodes: ValidateLinkName, ValidateLinkEndpoint and
-- ValidateLinksForModify of backend/helpers/network_modify.go. An error names the link's index.
pub mod Endpoints
pub mod LinkName
pub mod Resolved
mod Samples
use Prim.Native.String.{len}
use kubendt.Prelude.{
  ℕ, suc, String, Bool, true, false, Option, none, some, List, [], ◌∷◌, ◌||◌, ◌&&◌, not, Table, ℤ,
  pos, lookup, put, is_empty, trim_space, codes, ltb, eqb, ltb_ℤ, ◌==◌, ◌!=◌, string_eq,
  if◌then◌else◌, Result, ok, err, ◌>>=◌, ◌>>◌, refuse,
}
use kubendt.Types.{NodeSpec, LinkSpec}
use kubendt.Names.{external_node_name, split_indexed_pod_name}

pub data Field : Type 0 where
  node_field peer_node_field : Field

pub data LinkError : Type 0 where
  endpoints_required both_external : ℕ → LinkError
  no_such_node pod_out_of_range needs_concrete_pod : ℕ → Field → String → LinkError
  name_too_long name_not_trimmed name_not_printable name_not_allowed : ℕ → LinkError

-- replicasByNode: the last of two nodes of one name wins
unfoldable pub replicas_by_node : Table String ℤ → List NodeSpec → Table String ℤ
replicas_by_node table [] = table
replicas_by_node table (n ∷ nodes) = replicas_by_node (put n.name n.replicas table) nodes

-- The loop over the characters of a link's name.
unfoldable pub check_runes : List ℕ → ℕ → Result LinkError Unit
check_runes [] i = ok tt
check_runes (r ∷ rest) i =
    let next = check_runes rest i in
    if ltb r 0x20 || ltb 0x7e r
    then err (name_not_printable i)
    else if eqb r b'/' || eqb r 0x22 || eqb r 0x5c
    then err (name_not_allowed i)
    else next

unfoldable pub validate_link_name : String → ℕ → Result LinkError Unit
validate_link_name name i =
    if is_empty name
    then ok tt
    else if ltb 16 (len name)
    then err (name_too_long i)
    else if trim_space name != name
    then err (name_not_trimmed i)
    else check_runes (codes name) i

unfoldable pub validate_link_endpoint : String → Table String ℤ → ℕ → Field → Result LinkError Unit
validate_link_endpoint endpoint replicas i field =
    if endpoint == "external" then ok tt else elim (split_indexed_pod_name endpoint) [
      | some (base, idx) ↦ elim (lookup base replicas) [
        | none ↦ err (no_such_node i field endpoint)
        | some count ↦
            if ltb_ℤ idx (pos 0) || not (ltb_ℤ idx count)
            then err (pod_out_of_range i field endpoint)
            else ok tt
      ]
      | none ↦ elim (lookup endpoint replicas) [
        | none ↦ err (no_such_node i field endpoint)
        | some count ↦
            if ltb_ℤ (pos 1) count then err (needs_concrete_pod i field endpoint) else ok tt
      ]
    ]

unfoldable pub validate_link : LinkSpec → Table String ℤ → ℕ → Result LinkError Unit
validate_link link replicas i = do
  refuse (is_empty (trim_space link.node) || is_empty (trim_space link.peer_node))
      (endpoints_required i)
  refuse (link.node == external_node_name && link.peer_node == external_node_name) (both_external i)
  validate_link_endpoint link.node replicas i node_field
  validate_link_endpoint link.peer_node replicas i peer_node_field
  validate_link_name link.name i

-- The loop over the links, from link i on.
unfoldable pub validate_links : List LinkSpec → Table String ℤ → ℕ → Result LinkError Unit
validate_links [] replicas i = ok tt
validate_links (link ∷ links) replicas i = do
  validate_link link replicas i
  validate_links links replicas (suc i)

unfoldable pub validate_links_for_modify : List LinkSpec → List NodeSpec → Result LinkError Unit
validate_links_for_modify links nodes = validate_links links (replicas_by_node [] nodes) 0
