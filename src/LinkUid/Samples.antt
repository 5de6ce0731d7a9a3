-- ===== src/LinkUid/Samples.antt =====
-- The theorems about link identifiers at small inputs.
use kubendt.Prelude.{int_eq, ℕ, ◌≡◌, ◌<◌, refl, pos, [], ◌∷◌, List, ok, arith, Distinct, All}
use kubendt.Types.{LinkSpec}
use kubendt.Types.Samples.{sample_link, with_uid}
use kubendt.LinkUid.{
  uid_count, LinkUidOwner, link_uid_owner_from_spec, prepare_unique_link_uids, registered_link_uids,
  reserve_explicit, assign_missing, generate_available_link_uid, try_random, scan_free, taken,
}
use kubendt.LinkUid.Explicit.{uids}
use kubendt.LinkUid.Prepare.{Completes, IsAvailable, prepare_unique_link_uids_lem}

-- A source of random numbers that always draws the same one.
abbrev same_draw : ℕ → ℕ
same_draw k = 5

abbrev bounded : (k : ℕ) → same_draw k < uid_count
bounded k = omega arith

abbrev registry : List LinkUidOwner
registry =
    record (link_uid_owner_from_spec "other" (sample_link "a" "eth0" "b" "eth0")) {
      uid = pos 1_000_000;
    }
    ∷ []

abbrev request : List LinkSpec
request =
    sample_link "r" "eth1" "h" "eth1"
    ∷ with_uid (pos 1_000_005) (sample_link "r" "eth2" "h" "eth2")
    ∷ []

-- Every draw hits the named identifier and the scan's first candidate is registered.
abbrev completed : List LinkSpec
completed =
    with_uid (pos 1_000_001) (sample_link "r" "eth1" "h" "eth1")
    ∷ with_uid (pos 1_000_005) (sample_link "r" "eth2" "h" "eth2")
    ∷ []

request_passes : prepare_unique_link_uids "lab" (ok registry) same_draw request ≡ ok completed
unfolding prepare_unique_link_uids registered_link_uids link_uid_owner_from_spec reserve_explicit
    assign_missing generate_available_link_uid try_random scan_free taken
request_passes = refl

prepare_unique_link_uids_lem_example :
    Completes request completed
    × Distinct (uids completed)
    × All (IsAvailable registry) (uids completed)
prepare_unique_link_uids_lem_example =
    prepare_unique_link_uids_lem "lab" same_draw bounded registry request completed request_passes
