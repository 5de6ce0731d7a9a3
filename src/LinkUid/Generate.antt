-- ===== src/LinkUid/Generate.antt =====
-- A generated identifier is free, and none is generated only when none is free.
use kubendt.Prelude.{
  ℕ, zero, suc, ◌+◌, ◌≤◌, ◌<◌, ◌≡◌, ◌⊎◌, refl, true, false, none, some, ℤ, pos, arith, Bool-cases,
  Option-cases, inl, inr, lookup, int_eq, ok, err,
}
use kubendt.LinkUid.{
  Owners, taken, try_random, scan_free, generate_available_link_uid, min_link_uid, max_link_uid,
  uid_count, no_free_uid, max_link_uid_random_tries,
}

-- In the range of identifiers, and neither registered nor reserved.
pub record IsFree (used reserved : Owners) (uid : ℤ) : Type 0 where
  pub number : ℕ
  pub as_number : uid ≡ pos number
  pub low : min_link_uid ≤ number
  pub high : number ≤ max_link_uid
  pub not_used : lookup uid used ≡ none
  pub not_reserved : lookup uid reserved ≡ none

module _ (draws : ℕ → ℕ) (used reserved : Owners) where
  try_random_free :
      (tries at : ℕ) (c : ℕ)
      → ((k : ℕ) → draws k < uid_count)
      → (try_random draws used reserved tries at).0 ≡ some c
      → (min_link_uid ≤ c) × (c ≤ max_link_uid) × (taken used reserved c ≡ false)
  unfolding try_random
  try_random_free zero at c d h = cc
  try_random_free (suc tries) at c d h =
      elim (Bool-cases (taken used reserved (draws at + min_link_uid))) [
        | inl e ↦ try_random_free tries (suc at) c d (rw e at h)
        | inr e ↦ ground (arith, d at, h, e)
      ]

module _ (used reserved : Owners) where
  scan_free_free :
      (left from : ℕ) (c : ℕ)
      → scan_free used reserved left from ≡ some c
      → (from ≤ c) × (c < from + left) × (taken used reserved c ≡ false)
  unfolding scan_free
  scan_free_free zero from c h = cc
  scan_free_free (suc left) from c h = ground (arith, h, scan_free_free left (suc from) c)

  scan_free-none :
      (left from c : ℕ)
      → scan_free used reserved left from ≡ none
      → from ≤ c
      → c < from + left
      → taken used reserved c ≡ true
  unfolding scan_free
  scan_free-none zero from c h low high = absurd (omega arith)
  scan_free-none (suc left) from c h low high = ground (arith, h, scan_free-none left (suc from) c)

  taken_false :
      (c : ℕ)
      → min_link_uid ≤ c
      → c ≤ max_link_uid
      → taken used reserved c ≡ false
      → IsFree used reserved (pos c)
  unfolding taken
  taken_false c low high h = record {
    number = c;
    as_number = refl;
    low = low;
    high = high;
    not_used = ground (arith, h);
    not_reserved = ground (arith, h);
  }

  -- The generator returns a number of the range that neither the registry nor the request holds,
  -- or it fails and every number of the range is held by one of them.
  pub generate_available_link_uid_lem :
      (draws : ℕ → ℕ) (at : ℕ)
      → ((k : ℕ) → draws k < uid_count)
      → ((uid : ℤ) × ((generate_available_link_uid draws used reserved at).0 ≡ ok uid)
          × IsFree used reserved uid)
        ⊎ (((generate_available_link_uid draws used reserved at).0 ≡ err no_free_uid)
            × ((c : ℕ) → min_link_uid ≤ c → c ≤ max_link_uid → taken used reserved c ≡ true))
  unfolding generate_available_link_uid
  generate_available_link_uid_lem draws at bounded =
      elim (Option-cases (try_random draws used reserved max_link_uid_random_tries at).0) [
        | inr (c, found) ↦
            let (low, high, free) =
              try_random_free draws used reserved max_link_uid_random_tries at c bounded found in
            inl (pos c, rw (found, generate_available_link_uid), taken_false c low high free)
        | inl not_found ↦ elim (Option-cases (scan_free used reserved uid_count min_link_uid)) [
          | inr (c, found) ↦
              let (low, high, free) = scan_free_free uid_count min_link_uid c found in
              inl (
                pos c,
                rw (not_found, found, generate_available_link_uid),
                taken_false c low (omega arith) free,
              )
          | inl none_free ↦ inr (
            rw (not_found, none_free, generate_available_link_uid),
            λ c low high. scan_free-none uid_count min_link_uid c none_free low (omega arith),
          )
        ]
      ]
