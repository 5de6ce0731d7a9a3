-- ===== src/Shaping/Samples.antt =====
-- The links section of a configure request at small inputs.
use kubendt.Prelude.{
  String, true, false, none, some, List, [], ◌∷◌, ◌≡◌, refl, ok, All, Distinct, string_eq, Result,
}
use kubendt.Types.{LinkSpec}
use kubendt.Types.Actions.{TcParamEntry, tc_param_entry, no_classes}
use kubendt.Types.Configure.{LinkShaping, PodConfig}
use kubendt.Types.Samples.{sample_link}
use kubendt.Shaping.{
  add_action, add_qdisc, del_qdisc, link_peer, resolve_at, check_peer_node, clear_ends, shape_ends,
  change_ends, expand_link, expand_links, expand_link_shaping,
}
use kubendt.Shaping.Sequences.{asked_all, at_pod, actions_of, pods, actions_of-expand_link_shaping}
use kubendt.Shaping.Ends.{ends_on, expand_link_shaping-ends_on}

abbrev wiring : List LinkSpec
wiring = sample_link "a-0" "eth1" "b-0" "eth2" ∷ sample_link "b-0" "eth1" "external" "eth0" ∷ []

abbrev slow : TcParamEntry
slow = tc_param_entry "netem" "10ms" "" "" "" "" "" none "" "" "" "" none "" "" "" no_classes

abbrev both_ways : LinkShaping
both_ways = record {
  node = "a-0";
  local_intf = "eth1";
  peer_node = "";
  peer_intf = "";
  shaping = some slow;
  symmetric = true;
  reverse = none;
  remove = false;
  mtu = none;
}

abbrev cleared : LinkShaping
cleared = record both_ways { node = "b-0"; shaping = none; symmetric = false; remove = true }

abbrev as_written : String → Result Unit String
as_written ref = ok ref

abbrev shaped_targets : List PodConfig
shaped_targets =
    record { pod = "a-0"; actions = add_qdisc "eth1" (some slow) ∷ [] }
    ∷ record { pod = "b-0"; actions = add_qdisc "eth2" (some slow) ∷ del_qdisc "eth1" ∷ [] }
    ∷ []

shaped : expand_link_shaping as_written (both_ways ∷ cleared ∷ []) wiring ≡ ok shaped_targets
unfolding expand_link_shaping expand_links expand_link resolve_at check_peer_node change_ends
    clear_ends shape_ends add_action add_qdisc del_qdisc link_peer
shaped = refl

actions_of-expand_link_shaping_example :
    Distinct (pods shaped_targets)
    × ((p : String)
        → actions_of p shaped_targets
          ≡ at_pod p (asked_all as_written (both_ways ∷ cleared ∷ []) wiring))
actions_of-expand_link_shaping_example =
    actions_of-expand_link_shaping as_written (both_ways ∷ cleared ∷ []) wiring shaped_targets
      shaped

expand_link_shaping-ends_on_example :
    All (λ a. ends_on wiring "b-0" a.iface ≡ true) (actions_of "b-0" shaped_targets)
expand_link_shaping-ends_on_example =
    expand_link_shaping-ends_on as_written wiring (both_ways ∷ cleared ∷ []) shaped_targets "b-0"
      shaped
