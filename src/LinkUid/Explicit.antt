-- ===== src/LinkUid/Explicit.antt =====
-- What the first loop checks: the identifiers that a request names.
use kubendt.Prelude.{
  ℕ, suc, String, ◌≡◌, true, false, none, some, is_some, List, [], ◌∷◌, ℤ, pos, ◌≤ℤ◌, arith,
  Option-cases, Bool-cases, inl, inr, int_eq, contains, Distinct, All, lookup, put, lookup-put,
  lookup-put_self, ok,
}
use kubendt.Types.{LinkSpec}
use kubendt.LinkUid.{
  Owners, LinkUidOwner, min_link_uid, max_link_uid, reserve_explicit, link_uid_owner_from_spec,
}

-- The identifiers of the links that have one.
abbrev pub uids : List LinkSpec → List ℤ
uids [] = []
uids (link ∷ links) = elim link.uid [ none ↦ uids links | some uid ↦ uid ∷ uids links ]

-- In the range, and not of a registered link.
abbrev pub IsUsable : Owners → ℤ → Type 0
IsUsable used uid = (pos min_link_uid ≤ℤ uid) × (uid ≤ℤ pos max_link_uid) × (lookup uid used ≡ none)

-- What the reservations of a request hold once the first loop is through.
pub record Reserved (used : Owners) (links : List LinkSpec) (before after : Owners) : Type 0 where
  pub distinct : Distinct (uids links)
  pub usable : All (IsUsable used) (uids links)
  pub held : (uid : ℤ) → contains (uids links) uid ≡ true → is_some (lookup uid after) ≡ true
  pub kept : (uid : ℤ) → is_some (lookup uid before) ≡ true → is_some (lookup uid after) ≡ true
  pub fresh : (uid : ℤ) → contains (uids links) uid ≡ true → lookup uid before ≡ none

module _ (namespace : String) (used : Owners) where
  reserve_explicit_cons :
      (link : LinkSpec) (links : List LinkSpec) (i : ℕ) (before after : Owners) (uid : ℤ)
      → link.uid ≡ some uid
      → reserve_explicit namespace used (link ∷ links) i before ≡ ok after
      → IsUsable used uid
        × (lookup uid before ≡ none)
        × (reserve_explicit namespace used links
              (suc i)
              (put uid (link_uid_owner_from_spec namespace link) before)
            ≡ ok after)
  unfolding reserve_explicit
  reserve_explicit_cons link links i before after uid e h =
      ((ground arith, ground arith, ground arith), ground arith, ground arith)

  Reserved-cons :
      (link : LinkSpec) (links : List LinkSpec) (before after : Owners) (uid : ℤ)
      (owner : LinkUidOwner)
      → link.uid ≡ some uid
      → IsUsable used uid
      → lookup uid before ≡ none
      → Reserved used links (put uid owner before) after
      → Reserved used (link ∷ links) before after
  Reserved-cons link links before after uid owner e usable unreserved r = record {
    distinct = rw e (new, r.distinct);
    usable = rw e (usable, r.usable);
    held = λ u. rw e λ h.
        ground (arith, h, r.held u, r.kept u, lookup-put uid u owner before, int_eq.beq_iff uid u);
    kept = λ u h. ground (arith, h, r.kept u, lookup-put uid u owner before, int_eq.beq_iff uid u);
    fresh = λ u. rw e λ h.
        ground
          (arith, h, r.fresh u, lookup-put uid u owner before, int_eq.beq_iff uid u, unreserved);
  }
    where
      new : contains (uids links) uid ≡ false
      new = elim (Bool-cases (contains (uids links) uid)) [
        | inl c ↦ cc (r.fresh uid c, lookup-put_self uid owner before)
        | inr c ↦ c
      ]

  -- Past the first loop the named identifiers are usable and all different, and all are reserved.
  pub reserve_explicit-Reserved :
      (links : List LinkSpec) (i : ℕ) (before after : Owners)
      → reserve_explicit namespace used links i before ≡ ok after
      → Reserved used links before after
  unfolding reserve_explicit
  reserve_explicit-Reserved [] i before after h = record {
    distinct = tt;
    usable = tt;
    held = λ u c. cc;
    kept = λ u c. ground (arith, h, c);
    fresh = λ u c. cc;
  }
  reserve_explicit-Reserved (link ∷ links) i before after h = elim (Option-cases link.uid) [
    | inl e ↦
        let r = reserve_explicit-Reserved links (suc i) before after (rw e at h) in
        record {
          distinct = rw e r.distinct;
          usable = rw e r.usable;
          held = λ u. rw e (r.held u);
          kept = r.kept;
          fresh = λ u. rw e (r.fresh u);
        }
    | inr (uid, e) ↦
        let (usable, unreserved, rest) = reserve_explicit_cons link links i before after uid e h in
        Reserved-cons link links before after uid _ e usable unreserved
          (reserve_explicit-Reserved links (suc i) _ after rest)
  ]
