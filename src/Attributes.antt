-- ===== src/Attributes.antt =====
-- The attributes that a topology declares on links: the first half of
-- backend/helpers/link_attributes.go. ipFamily and the platform's MTU are parameters.
use kubendt.Prelude.{
  ℕ, String, Bool, true, false, none, some, List, [], ◌∷◌, ◌&&◌, ◌||◌, not, ℤ, pos, is_empty, ltb_ℤ,
  ◌==◌, string_eq, int_eq, nat_eq, pair_eq, if◌then◌else◌, Result, ok, err, ◌>>◌, refuse,
}
use kubendt.Types.{NodeSpec, LinkSpec}
use kubendt.Types.Actions.{TcParamEntry, tc_param_entry, no_classes}
use kubendt.Types.Addresses.{extra}
use kubendt.Types.Configure.{PodConfig}
use kubendt.Names.{external_node_name, resolve_pod_name_from_link}
use kubendt.Shaping.{add_action, add_qdisc}

pub record LinkAttrs : Type 0 where
  pub delay : String
  pub jitter : String
  pub loss : String
  pub bandwidth : String
  pub mtu : ℤ
  pub local_addrs : List String
  pub peer_addrs : List String

unfoldable pub attrs_of : LinkSpec → LinkAttrs
attrs_of l = record {
  delay = l.delay;
  jitter = l.jitter;
  loss = l.loss;
  bandwidth = l.bandwidth;
  mtu = l.mtu;
  local_addrs = extra l.local_ip;
  peer_addrs = extra l.peer_ip;
}

unfoldable pub has_shaping : LinkAttrs → Bool
has_shaping a =
    not (is_empty a.delay)
    || not (is_empty a.jitter)
    || not (is_empty a.loss)
    || not (is_empty a.bandwidth)

-- len(addrs) == 0
unfoldable pub nothing_in : List String → Bool
nothing_in [] = true
nothing_in (a ∷ rest) = false

unfoldable pub attrs_empty : LinkAttrs → Bool
attrs_empty a =
    not (has_shaping a) && a.mtu == pos 0 && nothing_in a.local_addrs && nothing_in a.peer_addrs

unfoldable pub swapped : LinkAttrs → LinkAttrs
swapped a = record a { local_addrs = a.peer_addrs; peer_addrs = a.local_addrs }

unfoldable pub netem_of : LinkAttrs → TcParamEntry
netem_of a =
    tc_param_entry "netem" a.delay a.jitter "" "" a.loss "" none "" "" "" "" none a.bandwidth "" ""
      no_classes

pub data MtuError (E : Type 0) : Type 0 where
  out_of_range too_small_for_ipv6 above_platform : ℤ → MtuError E
  no_platform_mtu : E → MtuError E

abbrev pub min_link_mtu : ℤ
min_link_mtu = pos 68

abbrev pub max_link_mtu : ℤ
max_link_mtu = pos 65535

unfoldable pub check_ipv6 : {E : Type 0} → (String → ℕ) → ℤ → List String → Result (MtuError E) Unit
check_ipv6 ip_family mtu [] = ok tt
check_ipv6 ip_family mtu (a ∷ addrs) = do
  refuse (ip_family a == 6 && ltb_ℤ mtu (pos 1280)) (too_small_for_ipv6 mtu)
  check_ipv6 ip_family mtu addrs

-- At most what the operator said the cluster carries.
unfoldable pub check_platform : {E : Type 0} → Result E ℤ → ℤ → Result (MtuError E) Unit
check_platform (err e) mtu = err (no_platform_mtu e)
check_platform (ok most) mtu = refuse (ltb_ℤ most mtu) (above_platform mtu)

unfoldable pub validate_link_mtu :
    {E : Type 0} → (String → ℕ) → Result E ℤ → ℤ → List String → Result (MtuError E) Unit
validate_link_mtu ip_family platform mtu addrs = if mtu == pos 0 then ok tt else do
  refuse (ltb_ℤ mtu min_link_mtu || ltb_ℤ max_link_mtu mtu) (out_of_range mtu)
  check_ipv6 ip_family mtu addrs
  check_platform platform mtu

-- The netem on both ends, on the node's end only when the peer is the external network.
unfoldable pub link_attribute_actions :
    List LinkSpec → List NodeSpec → List PodConfig → List PodConfig
link_attribute_actions [] nodes targets = targets
link_attribute_actions (l ∷ links) nodes targets =
    let a = attrs_of l in
    let mine =
      add_action (resolve_pod_name_from_link l.node nodes)
        (add_qdisc l.local_intf (some (netem_of a))) targets in
    let both =
      if l.peer_node == external_node_name
      then mine
      else add_action (resolve_pod_name_from_link l.peer_node nodes)
          (add_qdisc l.peer_intf (some (netem_of a))) mine in
    link_attribute_actions links nodes (if has_shaping a then both else targets)
