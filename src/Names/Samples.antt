-- ===== src/Names/Samples.antt =====
-- Tests of the names, and the theorems about them at small inputs.
use kubendt.Prelude.{◌≡◌, refl, some, none, pos, cut_last_dash, atoi, all_digit_chars}
use kubendt.Types.Samples.{lab}
use kubendt.Names.{split_indexed_pod_name, resolve_pod_name_from_link}

-- TestSplitIndexedPodName of backend/helpers/network_test.go, and a sign that Atoi takes.
split_cases :
    (split_indexed_pod_name "router-12" ≡ some ("router", pos 12))
    × (split_indexed_pod_name "dmz-sw" ≡ none)
    × (split_indexed_pod_name "router-+3" ≡ some ("router", pos 3))
unfolding split_indexed_pod_name cut_last_dash atoi
split_cases = (refl, refl, refl)

resolve_cases :
    (resolve_pod_name_from_link "host" lab ≡ "host-0")
    × (resolve_pod_name_from_link "router-1" lab ≡ "router-1")
    × (resolve_pod_name_from_link "external" lab ≡ "external")
unfolding resolve_pod_name_from_link cut_last_dash all_digit_chars atoi
resolve_cases = (refl, refl, refl)
