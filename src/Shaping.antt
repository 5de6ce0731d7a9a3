-- ===== src/Shaping.antt =====
-- The links section of a configure request as actions on pods: backend/helpers/link_shaping.go, and
-- the same list of targets that LinkAttributeActions of backend/helpers/link_attributes.go builds.
pub mod Ends
pub mod Sequences
mod Samples
use kubendt.Prelude.{
  ℕ, suc, String, Bool, true, false, Option, none, some, List, [], ◌∷◌, ◌++◌, ◌&&◌, ◌||◌, not, ℤ,
  is_empty, is_some, ◌==◌, ◌!=◌, string_eq, if◌then◌else◌, Result, ok, err, ◌>>=◌, ◌>>◌, refuse,
}
use kubendt.Types.{LinkSpec}
use kubendt.Types.Actions.{ActionEntry, TcParamEntry, bare_action}
use kubendt.Types.Addresses.{Addrs}
use kubendt.Types.Configure.{LinkShaping, PodConfig}
use kubendt.Names.{external_node_name}

-- links[i]: and what is wrong with it; E is the type of the errors of pod references.
pub data ShapingError (E : Type 0) : Type 0 where
  fields_required link_not_found wrong_peer_node wrong_peer_intf : ℕ → ShapingError E
  remove_takes_no_shaping needs_a_part peer_is_external : ℕ → ShapingError E
  symmetric_and_reverse : ℕ → ShapingError E
  bad_reference : ℕ → E → ShapingError E

-- types.ActionEntry{Type: "del_qdisc", Iface: iface}
unfoldable pub del_qdisc : String → ActionEntry
del_qdisc iface = let a : ActionEntry = bare_action "del_qdisc" in record a { iface = iface }

-- types.ActionEntry{Type: "add_qdisc", Iface: iface, TCParams: params}
unfoldable pub add_qdisc : String → Option TcParamEntry → ActionEntry
add_qdisc iface params =
    let a : ActionEntry = bare_action "add_qdisc" in record a { iface = iface; tc_params = params }

-- add: to the first target of that pod, or as a target of its own.
unfoldable pub add_action : String → ActionEntry → List PodConfig → List PodConfig
add_action pod action [] = record { pod = pod; actions = action ∷ [] } ∷ []
add_action pod action (t ∷ targets) =
    let rest = add_action pod action targets in
    if t.pod == pod then record t { actions = t.actions ++ (action ∷ []) } ∷ targets else t ∷ rest

-- The other end of pod:iface, whichever side the link lists it on.
unfoldable pub link_peer : List LinkSpec → String → String → Option (String × String)
link_peer [] pod iface = none
link_peer (t ∷ topo) pod iface =
    let rest = link_peer topo pod iface in
    if t.node == pod && t.local_intf == iface
    then some (t.peer_node, t.peer_intf)
    else if t.peer_node == pod && t.peer_intf == iface
    then some (t.node, t.local_intf)
    else rest

-- Every address of both ends of the link of pod:iface.
unfoldable pub link_ips : List LinkSpec → String → String → List String
link_ips [] pod iface = []
link_ips (t ∷ topo) pod iface =
    let rest = link_ips topo pod iface in
    if (t.node == pod && t.local_intf == iface) || (t.peer_node == pod && t.peer_intf == iface)
    then t.local_ip ++ t.peer_ip
    else rest

module _ {E : Type 0} where
  -- case l.Remove
  unfoldable pub clear_ends :
      ℕ
      → LinkShaping
      → String
      → String
      → String
      → List PodConfig
      → Result (ShapingError E) (List PodConfig)
  clear_ends i l pod peer_pod peer_intf targets = do
    refuse (is_some l.shaping || is_some l.reverse || l.symmetric) (remove_takes_no_shaping i)
    let cleared = add_action pod (del_qdisc l.local_intf) targets
    ok (
        if peer_pod != external_node_name
        then add_action peer_pod (del_qdisc peer_intf) cleared
        else cleared)

  -- default
  unfoldable pub shape_ends :
      ℕ
      → LinkShaping
      → String
      → String
      → String
      → List PodConfig
      → Result (ShapingError E) (List PodConfig)
  shape_ends i l pod peer_pod peer_intf targets = do
    refuse ((l.symmetric || is_some l.reverse) && not (peer_pod != external_node_name))
        (peer_is_external i)
    refuse (l.symmetric && is_some l.reverse) (symmetric_and_reverse i)
    let mine =
        if is_some l.shaping
        then add_action pod (add_qdisc l.local_intf l.shaping) targets
        else targets
    ok (
        if is_some l.reverse
        then add_action peer_pod (add_qdisc peer_intf l.reverse) mine
        else if l.symmetric
        then add_action peer_pod (add_qdisc peer_intf l.shaping) mine
        else mine)

  -- The switch: what link i adds once its two ends are known.
  unfoldable pub change_ends :
      ℕ
      → LinkShaping
      → String
      → String
      → String
      → List PodConfig
      → Result (ShapingError E) (List PodConfig)
  change_ends i l pod peer_pod peer_intf targets =
      if l.remove
      then clear_ends i l pod peer_pod peer_intf targets
      else if not (is_some l.shaping) && not (is_some l.reverse)
      then if is_some l.mtu then ok targets else err (needs_a_part i)
      else shape_ends i l pod peer_pod peer_intf targets

module _ {E : Type 0} (resolve : String → Result E String) where
  -- fmt.Errorf("%s: %w", where, err)
  unfoldable pub resolve_at : ℕ → String → Result (ShapingError E) String
  resolve_at i ref = elim (resolve ref) [ ok pod ↦ ok pod | err e ↦ err (bad_reference i e) ]

  -- The peer node that a link gives must be the one it is linked to.
  unfoldable pub check_peer_node : ℕ → String → String → Result (ShapingError E) Unit
  check_peer_node i peer_node peer_pod = if is_empty peer_node then ok tt else do
    want ← if peer_node == external_node_name then ok peer_node else resolve_at i peer_node
    refuse (want != peer_pod) (wrong_peer_node i)

  -- The body of the loop, on link i.
  unfoldable pub expand_link :
      ℕ → LinkShaping → List LinkSpec → List PodConfig → Result (ShapingError E) (List PodConfig)
  expand_link i l topo targets = do
    refuse (is_empty l.node || is_empty l.local_intf) (fields_required i)
    pod ← resolve_at i l.node
    elim (link_peer topo pod l.local_intf) [
      | none ↦ err (link_not_found i)
      | some (peer_pod, peer_intf) ↦ do
        check_peer_node i l.peer_node peer_pod
        refuse (not (is_empty l.peer_intf) && l.peer_intf != peer_intf) (wrong_peer_intf i)
        change_ends i l pod peer_pod peer_intf targets
    ]

  -- The loop over the links from link i on, with the targets built so far.
  unfoldable pub expand_links :
      ℕ
      → List LinkShaping
      → List LinkSpec
      → List PodConfig
      → Result (ShapingError E) (List PodConfig)
  expand_links i [] topo targets = ok targets
  expand_links i (l ∷ links) topo targets = do
    targets' ← expand_link i l topo targets
    expand_links (suc i) links topo targets'

  unfoldable pub expand_link_shaping :
      List LinkShaping → List LinkSpec → Result (ShapingError E) (List PodConfig)
  expand_link_shaping links topo = expand_links 0 links topo []
