-- ===== src/Interfaces/Samples.antt =====
-- The conflict check at small inputs.
use kubendt.Prelude.{
  ◌≡◌, refl, String, some, none, [], ◌∷◌, List, ok, Distinct, contains, true, false, pair_eq,
  string_eq, cut_last_dash, atoi, all_digit_chars,
}
use kubendt.Types.Samples.{lab, lab_links}
use kubendt.Names.{resolve_pod_name_from_link}
use kubendt.Interfaces.{
  PodUsed, TopologyItem, claimed, claim, check_end, check_interface_conflicts, claimed_interfaces,
  pod_set_of, declared, validate_interface_conflicts,
}
use kubendt.Interfaces.Claims.{slots, declares, validate_interface_conflicts_lem}

abbrev listed : List TopologyItem
listed = record { name = "host-0"; local_intfs = some "eth2" ∷ none ∷ [] } ∷ []

abbrev claims_after : PodUsed
claims_after =
    ("host-0", "eth1" ∷ "eth2" ∷ [])
    ∷ ("router-0", "eth1" ∷ [])
    ∷ ("router-1", "eth1" ∷ [])
    ∷ ("dmz-sw-0", "eth2" ∷ "eth1" ∷ [])
    ∷ []

lab_passes : validate_interface_conflicts (ok listed) lab_links lab ≡ ok claims_after
unfolding validate_interface_conflicts claimed_interfaces pod_set_of declared
    check_interface_conflicts check_end claimed claim resolve_pod_name_from_link cut_last_dash
    all_digit_chars atoi
lab_passes = refl

validate_interface_conflicts_lem_example :
    Distinct (slots lab lab_links)
    × ((p i : String) → contains (slots lab lab_links) (p, i) ≡ true → declares listed p i ≡ false)
validate_interface_conflicts_lem_example =
    validate_interface_conflicts_lem lab listed lab_links claims_after (refl, tt) lab_passes
