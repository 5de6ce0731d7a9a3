-- ===== src/LinkIps/Samples.antt =====
-- Addresses of links at small inputs.
use kubendt.Prelude.{ℕ, String, Bool, true, List, [], ◌∷◌, ◌≡◌, refl, ok, err, trim_space}
use kubendt.Types.{LinkSpec}
use kubendt.Types.Addresses.{no_addrs}
use kubendt.Types.Samples.{sample_link}
use kubendt.LinkIps.{
  local_side, needs_prefix, repeated, on_both_ends, check_addr, check_end_addrs, has_family,
  share_family, overlap, check_link_ips, validate_link_ips,
}

abbrev addressed : List String → List String → LinkSpec
addressed local peer =
    let l : LinkSpec = sample_link "a" "eth1" "b" "eth1" in
    record l { local_ip = local; peer_ip = peer }

abbrev any_text : String → Bool
any_text s = true

abbrev four : String → ℕ
four s = 4

addresses :
    (validate_link_ips any_text any_text four 0
        (addressed ("10.0.0.1" ∷ []) ("10.0.0.2/24" ∷ []) ∷ [])
      ≡ ok tt)
    × (validate_link_ips any_text any_text four 0
          (addressed ("10.0.0.1/24" ∷ "10.0.0.2" ∷ []) [] ∷ [])
        ≡ err (needs_prefix 0 local_side 1))
    × (validate_link_ips any_text any_text four 0
          (addressed ("10.0.0.1/24" ∷ "10.0.0.1/24" ∷ []) [] ∷ [])
        ≡ err (repeated 0 local_side 1))
    × (validate_link_ips any_text any_text four 0
          (addressed ("10.0.0.1/24" ∷ []) ("10.0.0.1/24" ∷ []) ∷ [])
        ≡ err (on_both_ends 0))
unfolding validate_link_ips check_link_ips check_end_addrs check_addr has_family share_family
    overlap trim_space no_addrs
addresses = (refl, refl, refl, refl)
