-- ===== src/ExternalLabels.antt =====
-- The labels of uplinks: backend/helpers/network.go, from extractExternalSide to
-- ValidateExternalLabelConsistency. A Topology object is its label annotation and the entries of its
-- spec.links, as the cluster lists them.
mod Consistency
mod Samples
use kubendt.Prelude.{
  ℕ, suc, String, Bool, true, false, Option, none, some, List, [], ◌∷◌, ◌||◌, ◌&&◌, not, ◌==◌, ◌!=◌,
  string_eq, if◌then◌else◌, Table, lookup, put, is_empty, trim_space, Result, ok, err,
}
use kubendt.Types.{LinkSpec}
use kubendt.Names.{external_node_name, crd_external_peer_pod}
use kubendt.Topologies.{Entry}

-- The host interface and the label of a link to the outside.
unfoldable pub extract_external_side : LinkSpec → Option (String × String)
extract_external_side link =
    if link.peer_node == external_node_name
    then some (trim_space link.peer_intf, trim_space link.peer_label)
    else if link.node == external_node_name
    then some (trim_space link.local_intf, trim_space link.peer_label)
    else none

pub record LabelMaps : Type 0 where
  pub label_by_intf : Table String String
  pub intf_by_label : Table String String

unfoldable pub bind : String → String → LabelMaps → LabelMaps
bind intf label maps = record {
  label_by_intf = put intf label maps.label_by_intf;
  intf_by_label = put label intf maps.intf_by_label;
}

unfoldable pub bind_entries : String → List Entry → LabelMaps → LabelMaps
bind_entries label [] maps = maps
bind_entries label (e ∷ entries) maps =
    let intf = trim_space e.peer_intf in
    bind_entries label entries
      (if e.peer_pod != crd_external_peer_pod || is_empty intf then maps else bind intf label maps)

unfoldable pub build_namespace_external_label_maps :
    List (String × List Entry) → LabelMaps → LabelMaps
build_namespace_external_label_maps [] maps = maps
build_namespace_external_label_maps ((annotation, entries) ∷ topologies) maps =
    let label = trim_space annotation in
    build_namespace_external_label_maps topologies
      (if is_empty label then maps else bind_entries label entries maps)

unfoldable pub no_labels : LabelMaps
no_labels = record { label_by_intf = []; intf_by_label = [] }

pub data LabelError : Type 0 where
  already_labelled : ℕ → String → LabelError
  already_bound : ℕ → String → LabelError

-- A value that a map holds, other than the one wanted.
unfoldable pub other : Option String → String → Option String
other none wanted = none
other (some found) wanted = if found != wanted then some found else none

unfoldable pub check_label : ℕ → String → String → LabelMaps → Result LabelError LabelMaps
check_label i intf label maps = elim (other (lookup intf maps.label_by_intf) label) [
  | some existing ↦ err (already_labelled i existing)
  | none ↦ elim (other (lookup label maps.intf_by_label) intf) [
    | some existing ↦ err (already_bound i existing)
    | none ↦ ok (bind intf label maps)
  ]
]

unfoldable pub check_links : ℕ → List LinkSpec → LabelMaps → Result LabelError Unit
check_links i [] maps = ok tt
check_links i (link ∷ links) maps = elim (extract_external_side link) [
  | none ↦ check_links (suc i) links maps
  | some (intf, label) ↦
      elim (if is_empty intf || is_empty label then ok maps else check_label i intf label maps) [
        | err e ↦ err e
        | ok maps' ↦ check_links (suc i) links maps'
      ]
]

unfoldable pub validate_external_label_consistency :
    List (String × List Entry) → List LinkSpec → Result LabelError Unit
validate_external_label_consistency topologies links =
    check_links 0 links (build_namespace_external_label_maps topologies no_labels)
