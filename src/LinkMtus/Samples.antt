-- ===== src/LinkMtus/Samples.antt =====
-- The MTUs of a configure request at small inputs.
use kubendt.Prelude.{
  ℕ, String, false, none, some, List, [], ◌∷◌, ◌≡◌, refl, pos, arith, inr, ok, err, Result, String,
}
use kubendt.Types.{LinkSpec}
use kubendt.Types.Configure.{LinkShaping}
use kubendt.Types.Samples.{sample_link}
use kubendt.Shaping.{link_peer, link_ips}
use kubendt.Attributes.{out_of_range, validate_link_mtu, check_ipv6, check_platform}
use kubendt.Rows.{LinkRows, mtu_row, set_link_mtu, update_mtu, any_row, insert_row, on_ends}
use kubendt.LinkMtus.{bad_mtu, record_link_mtus, record_mtu, record_found}
use kubendt.LinkMtus.Bounds.{InBounds, record_link_mtus-InBounds}

abbrev with_mtu : String → ℕ → LinkShaping
with_mtu intf mtu = record {
  node = "a-0";
  local_intf = intf;
  peer_node = "";
  peer_intf = "";
  shaping = none;
  symmetric = false;
  reverse = none;
  remove = false;
  mtu = some (pos mtu);
}

abbrev wiring : Result String (List LinkSpec)
wiring = ok (sample_link "a-0" "eth1" "b-0" "eth1" ∷ sample_link "a-0" "eth2" "c-0" "eth1" ∷ [])

abbrev recorded : LinkRows
recorded = ((("c", "ns"), ("a-0", "eth1")), mtu_row "b-0" "eth1" (pos 1400)) ∷ []

abbrev as_written : String → Result String String
as_written ref = ok ref

-- The first link is recorded although the second one is refused.
first_of_two :
    record_link_mtus as_written wiring
      (λ a. 4)
      (ok (pos 1500))
      "c"
      "ns"
      0
      (with_mtu "eth1" 1400 ∷ with_mtu "eth2" 60 ∷ [])
      []
      []
    ≡ (err (bad_mtu 1 (out_of_range (pos 60))), recorded)
unfolding record_link_mtus record_mtu record_found link_peer link_ips validate_link_mtu check_ipv6
    check_platform set_link_mtu update_mtu any_row insert_row on_ends mtu_row
first_of_two = refl

record_link_mtus-InBounds_example :
    InBounds
      (pos 1500)
      (record_link_mtus as_written wiring
        (λ a. 4)
        (ok (pos 1500))
        "c"
        "ns"
        0
        (with_mtu "eth1" 1300 ∷ with_mtu "eth2" 60 ∷ [])
        recorded
        []).1
unfolding mtu_row
record_link_mtus-InBounds_example =
    record_link_mtus-InBounds as_written wiring (λ a. 4) (pos 1500) "c" "ns" 0
      (with_mtu "eth1" 1300 ∷ with_mtu "eth2" 60 ∷ []) recorded []
      (inr (omega arith, omega arith, omega arith), tt)
