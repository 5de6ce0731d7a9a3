-- ===== src/LinkIps.antt =====
-- The addresses of links: ValidateLinkIPs of backend/helpers/topology_validation.go. `is_cidr` and
-- `is_ip` say whether net.ParseCIDR and net.ParseIP read a text, `ip_family` is ipFamily.
mod Samples
use kubendt.Prelude.{
  ℕ, zero, suc, String, Bool, true, false, List, [], ◌∷◌, ◌&&◌, ◌||◌, not, codes, contains,
  trim_space, is_empty, ltb, ◌==◌, string_eq, nat_eq, if◌then◌else◌, Result, ok, err, ◌>>=◌, ◌>>◌,
  refuse,
}
use kubendt.Types.{LinkSpec}
use kubendt.Types.Addresses.{Addrs, no_addrs}

pub data Side : Type 0 where
  local_side peer_side : Side

-- link[i], the side and the address's place.
pub data IpError : Type 0 where
  empty_address bad_cidr needs_prefix bad_ip repeated : ℕ → Side → ℕ → IpError
  on_both_ends no_shared_family : ℕ → IpError

module _ (is_cidr is_ip : String → Bool) (ip_family : String → ℕ) where
  -- The switch, on the trimmed address at place n.
  unfoldable pub check_addr : ℕ → Side → ℕ → String → Result IpError Unit
  check_addr i side n value =
      if is_empty value
      then err (empty_address i side n)
      else if contains (codes value) b'/'
      then refuse (not (is_cidr value)) (bad_cidr i side n)
      else if ltb 0 n
      then err (needs_prefix i side n)
      else refuse (not (is_ip value)) (bad_ip i side n)

  unfoldable pub check_end_addrs : ℕ → Side → ℕ → List String → Addrs → Result IpError Unit
  check_end_addrs i side n seen [] = ok tt
  check_end_addrs i side n seen (a ∷ addrs) = do
    let value = trim_space a
    check_addr i side n value
    refuse (contains seen value) (repeated i side n)
    check_end_addrs i side (suc n) (value ∷ seen) addrs

  unfoldable pub has_family : ℕ → Addrs → Bool
  has_family family [] = false
  has_family family (x ∷ addrs) = ip_family x == family || has_family family addrs

  unfoldable pub share_family : Addrs → Addrs → Bool
  share_family a [] = false
  share_family a (y ∷ b) = has_family (ip_family y) a || share_family a b

  unfoldable pub overlap : Addrs → Addrs → Bool
  overlap [] b = false
  overlap (x ∷ a) b = contains b x || overlap a b

  unfoldable pub check_link_ips : ℕ → LinkSpec → Result IpError Unit
  check_link_ips i l = do
    check_end_addrs i local_side 0 [] l.local_ip
    check_end_addrs i peer_side 0 [] l.peer_ip
    refuse (overlap l.local_ip l.peer_ip) (on_both_ends i)
    refuse
        (not (no_addrs l.local_ip)
          && not (no_addrs l.peer_ip)
          && not (share_family l.local_ip l.peer_ip))
        (no_shared_family i)

  unfoldable pub validate_link_ips : ℕ → List LinkSpec → Result IpError Unit
  validate_link_ips i [] = ok tt
  validate_link_ips i (l ∷ links) = do check_link_ips i l; validate_link_ips (suc i) links
