-- ===== src/LinkMtus.antt =====
-- The MTUs that a configure request asks for its links: RecordLinkMTUs of
-- backend/helpers/link_shaping.go, over the checks of Attributes and the table of Rows. `resolve` is
-- ResolvePodReference, `topo` the namespace's links read from the cluster.
pub mod Bounds
mod Samples
use kubendt.Prelude.{
  ℕ, suc, String, Bool, true, Option, none, some, List, [], ◌∷◌, ℤ, Table, put, ◌==◌, string_eq,
  if◌then◌else◌, Result, ok, err,
}
use kubendt.Types.{LinkSpec}
use kubendt.Types.Configure.{LinkShaping}
use kubendt.Names.{external_node_name}
use kubendt.Shaping.{link_peer, link_ips}
use kubendt.Attributes.{MtuError, validate_link_mtu}
use kubendt.Rows.{LinkRows, set_link_mtu}

pub data RecordError (E : Type 0) : Type 0 where
  no_topology : E → RecordError E
  bad_node : ℕ → E → RecordError E
  no_link goes_external not_saved : ℕ → RecordError E
  bad_mtu : ℕ → MtuError E → RecordError E

-- What one link leaves: an error, or the table and the pods whose links changed.
abbrev pub Recorded : Type 0 → Type 0
Recorded E = Result (RecordError E) (LinkRows × Table String Bool)

module _ {E : Type 0} (resolve : String → Result E String) (topo : Result E (List LinkSpec))
    (ip_family : String → ℕ) (platform : Result E ℤ) (cluster namespace : String) where
  unfoldable pub record_found :
      ℕ
      → ℤ
      → List LinkSpec
      → String
      → String
      → String
      → String
      → LinkRows
      → Table String Bool
      → Recorded E
  record_found i mtu links pod iface peer_pod peer_intf rows pods =
      if peer_pod == external_node_name
      then err (goes_external i)
      else elim (validate_link_mtu ip_family platform mtu (link_ips links pod iface)) [
        | err e ↦ err (bad_mtu i e)
        | ok _ ↦ elim (set_link_mtu cluster namespace pod iface peer_pod peer_intf mtu rows) [
          | none ↦ err (not_saved i)
          | some rows' ↦ ok (rows', put peer_pod true (put pod true pods))
        ]
      ]

  unfoldable pub record_mtu : ℕ → ℤ → LinkShaping → LinkRows → Table String Bool → Recorded E
  record_mtu i mtu l rows pods = elim topo [
    | err e ↦ err (no_topology e)
    | ok links ↦ elim (resolve l.node) [
      | err e ↦ err (bad_node i e)
      | ok pod ↦ elim (link_peer links pod l.local_intf) [
        | none ↦ err (no_link i)
        | some (peer_pod, peer_intf) ↦
            record_found i mtu links pod l.local_intf peer_pod peer_intf rows pods
      ]
    ]
  ]

  -- The loop over the links from link i on; what earlier links recorded stays when a later one fails.
  unfoldable pub record_link_mtus :
      ℕ
      → List LinkShaping
      → LinkRows
      → Table String Bool
      → Result (RecordError E) (Table String Bool) × LinkRows
  record_link_mtus i [] rows pods = (ok pods, rows)
  record_link_mtus i (l ∷ links) rows pods = elim l.mtu [
    | none ↦ record_link_mtus (suc i) links rows pods
    | some mtu ↦ elim (record_mtu i mtu l rows pods) [
      | err e ↦ (err e, rows)
      | ok (rows', pods') ↦ record_link_mtus (suc i) links rows' pods'
    ]
  ]
