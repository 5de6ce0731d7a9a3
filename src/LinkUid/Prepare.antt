-- ===== src/LinkUid/Prepare.antt =====
-- PrepareUniqueLinkUIDs as a whole.
use kubendt.Prelude.{
  ℕ, ◌<◌, String, ◌≡◌, ◌⊎◌, refl, true, false, none, some, is_some, List, [], ◌∷◌, ℤ, pos, ◌≤ℤ◌,
  arith, Option-cases, Bool-cases, inl, inr, int_eq, contains, Distinct, All, lookup, put,
  lookup-put, lookup-put_self, Result, ok, err, ◌||◌, ◌==◌, beq_refl, >>=-eq-ok,
}
use kubendt.Types.{LinkSpec}
use kubendt.LinkUid.{
  Owners, LinkUidOwner, UidError, uid_count, min_link_uid, max_link_uid, assign_missing,
  reserve_explicit, registered_link_uids, generate_available_link_uid, no_free_uid,
  link_uid_owner_from_spec, prepare_unique_link_uids,
}
use kubendt.LinkUid.Generate.{IsFree, generate_available_link_uid_lem}
use kubendt.LinkUid.Explicit.{uids, IsUsable, reserve_explicit-Reserved}

-- The same links in the same order, each with an identifier: its own if the request named one.
abbrev pub Completes : List LinkSpec → List LinkSpec → Type 0
Completes [] [] = Unit
Completes [] (o ∷ out) = ⊥
Completes (l ∷ links) [] = ⊥
Completes (l ∷ links) (o ∷ out) =
    ((uid : ℤ) × (o ≡ record l { uid = some uid }) × ((u : ℤ) → l.uid ≡ some u → u ≡ uid))
    × Completes links out

-- What the second loop makes of links whose reservations are `reserved`.
record Assigned (used reserved : Owners) (links out : List LinkSpec) : Type 0 where
  completes : Completes links out
  distinct : Distinct (uids out)
  usable : All (IsUsable used) (uids out)
  origin :
      (u : ℤ)
      → contains (uids out) u ≡ true
      → (contains (uids links) u ≡ true) ⊎ (lookup u reserved ≡ none)

IsFree→IsUsable : {used reserved : Owners} {uid : ℤ} → IsFree used reserved uid → IsUsable used uid
IsFree→IsUsable f = (ground arith, ground arith, f.not_used)

module _ (used : Owners) where
  -- A link that names its identifier, in front of links that are done.
  Assigned-named :
      (reserved : Owners) (link : LinkSpec) (links out : List LinkSpec) (uid : ℤ)
      → link.uid ≡ some uid
      → contains (uids links) uid ≡ false
      → IsUsable used uid
      → is_some (lookup uid reserved) ≡ true
      → Assigned used reserved links out
      → Assigned used reserved (link ∷ links) (link ∷ out)
  Assigned-named reserved link links out uid e once usable held a = record {
    completes = ((uid, λ i. record link { uid = e i }, λ u q. cc), a.completes);
    distinct = rw e (new, a.distinct);
    usable = rw e (usable, a.usable);
    origin = λ u. rw e λ h. ground (arith, h, a.origin u);
  }
    where
      new : contains (uids out) uid ≡ false
      new = elim (Bool-cases (contains (uids out) uid)) [
        | inl c ↦ elim (a.origin uid c) [ inl listed ↦ cc | inr unreserved ↦ cc ]
        | inr c ↦ c
      ]

  -- A link that was given one.
  Assigned-generated :
      (reserved : Owners) (link : LinkSpec) (links out : List LinkSpec) (uid : ℤ)
      (owner : LinkUidOwner)
      → link.uid ≡ none
      → contains (uids links) uid ≡ false
      → IsFree used reserved uid
      → Assigned used (put uid owner reserved) links out
      → Assigned used reserved (link ∷ links) (record link { uid = some uid } ∷ out)
  Assigned-generated reserved link links out uid owner e once free a = record {
    completes = ((uid, refl, λ u q. cc), a.completes);
    distinct = (new, a.distinct);
    usable = (IsFree→IsUsable free, a.usable);
    origin = λ u. rw e λ h. ground (
      arith,
      h,
      a.origin u,
      lookup-put uid u owner reserved,
      int_eq.beq_iff uid u,
      free.not_reserved,
    );
  }
    where
      new : contains (uids out) uid ≡ false
      new = elim (Bool-cases (contains (uids out) uid)) [
        | inl c ↦ elim (a.origin uid c) [
          | inl listed ↦ cc
          | inr unreserved ↦ cc (lookup-put_self uid owner reserved)
        ]
        | inr c ↦ c
      ]

named :
    (used : Owners) (link : LinkSpec) (links : List LinkSpec) (uid : ℤ)
    → link.uid ≡ some uid
    → Distinct (uids (link ∷ links))
    → All (IsUsable used) (uids (link ∷ links))
    → ((contains (uids links) uid ≡ false) × Distinct (uids links))
      × (IsUsable used uid × All (IsUsable used) (uids links))
named used link links uid e d v = (rw e at d, rw e at v)

unnamed :
    (used : Owners) (link : LinkSpec) (links : List LinkSpec)
    → link.uid ≡ none
    → Distinct (uids (link ∷ links))
    → All (IsUsable used) (uids (link ∷ links))
    → Distinct (uids links) × All (IsUsable used) (uids links)
unnamed used link links e d v = (rw e at d, rw e at v)

contains-uids :
    (link : LinkSpec) (links : List LinkSpec) (uid u : ℤ)
    → link.uid ≡ some uid
    → contains (uids (link ∷ links)) u ≡ ((uid == u) || contains (uids links) u)
contains-uids link links uid u e = rw e refl

module _ (namespace : String) (used : Owners) (draws : ℕ → ℕ)
    (bounded : (k : ℕ) → draws k < uid_count) where
  assign_missing-Assigned :
      (links out : List LinkSpec) (reserved : Owners) (at : ℕ)
      → Distinct (uids links)
      → All (IsUsable used) (uids links)
      → ((u : ℤ) → contains (uids links) u ≡ true → is_some (lookup u reserved) ≡ true)
      → assign_missing namespace draws used links reserved at ≡ ok out
      → Assigned used reserved links out
  unfolding assign_missing
  assign_missing-Assigned [] [] reserved at d v held h = record {
    completes = tt;
    distinct = tt;
    usable = tt;
    origin = λ u c. cc;
  }
  assign_missing-Assigned [] (o ∷ out) reserved at d v held h = cc
  assign_missing-Assigned (link ∷ links) out reserved at d v held h = elim (Option-cases link.uid) [
    | inr (uid, e) ↦
        let (rest, made, eq) =
          >>=-eq-ok (assign_missing namespace draws used links reserved at) _ (rw e at h) in
        let ((once, d'), (usable, v')) = named used link links uid e d v in
        let same : out ≡ link ∷ rest = ground (arith, eq) in
        rw same (
          Assigned-named used reserved link links rest uid e once usable
            (held uid (ground (arith, contains-uids link links uid uid e, beq_refl uid)))
            (assign_missing-Assigned links rest reserved at d' v'
              (λ u c. held u (ground (arith, contains-uids link links uid u e, c))) made))
    | inl e ↦ elim (generate_available_link_uid_lem used reserved draws at bounded) [
      | inr (fails, all) ↦
          let clash : ◌≡◌ {A = Result UidError (List LinkSpec)} (err no_free_uid) (ok out) =
            rw (e, fails) at h in
          cc
      | inl (uid, eq, free) ↦
          let owner : LinkUidOwner = record (link_uid_owner_from_spec namespace link) {
            uid = uid;
          } in
          let (rest, made, eq') =
            >>=-eq-ok
              (assign_missing namespace draws used links (put uid owner reserved)
                (generate_available_link_uid draws used reserved at).1)
              _ (rw (e, eq) at h) in
          let same : out ≡ record link { uid = some uid } ∷ rest = ground (arith, eq') in
          let (d', v') = unnamed used link links e d v in
          let held' : (u : ℤ)
              → contains (uids links) u ≡ true
              → is_some (lookup u reserved) ≡ true =
            λ u c. held u (rw e c) in
          let once : contains (uids links) uid ≡ false =
            ground (arith, held' uid, free.not_reserved) in
          rw same (
            Assigned-generated used reserved link links rest uid owner e once free (
              assign_missing-Assigned links rest (put uid owner reserved) _ d' v'
                (λ u c. ground (arith, held' u c, lookup-put uid u owner reserved)) made))
    ]
  ]

-- The identifiers of the registry's rows.
abbrev pub owner_uids : List LinkUidOwner → List ℤ
owner_uids [] = []
owner_uids (owner ∷ rows) = owner.uid ∷ owner_uids rows

registered_link_uids-none :
    (rows : List LinkUidOwner) (used : Owners) (u : ℤ)
    → lookup u (registered_link_uids rows used) ≡ none
    → (lookup u used ≡ none) × (contains (owner_uids rows) u ≡ false)
unfolding registered_link_uids
registered_link_uids-none [] used u h = (h, refl)
registered_link_uids-none (owner ∷ rows) used u h = elim (Option-cases (lookup owner.uid used)) [
  | inl e ↦
      let (free, rest) = registered_link_uids-none rows (put owner.uid owner used) u (rw e at h) in
      ground (arith, free, rest, lookup-put owner.uid u owner used)
  | inr (o, e) ↦
      let (free, rest) = registered_link_uids-none rows used u (rw e at h) in
      ground (arith, free, rest, e, int_eq.beq_iff owner.uid u)
]

-- In the range, and not of a row of the registry.
abbrev pub IsAvailable : List LinkUidOwner → ℤ → Type 0
IsAvailable rows uid =
    (pos min_link_uid ≤ℤ uid) × (uid ≤ℤ pos max_link_uid) × (contains (owner_uids rows) uid ≡ false)

All-IsAvailable :
    (rows : List LinkUidOwner) (us : List ℤ)
    → All (IsUsable (registered_link_uids rows [])) us
    → All (IsAvailable rows) us
All-IsAvailable rows [] h = tt
All-IsAvailable rows (u ∷ us) ((low, high, free), h) =
    ((low, high, (registered_link_uids-none rows [] u free).1), All-IsAvailable rows us h)

module _ (namespace : String) (draws : ℕ → ℕ) (bounded : (k : ℕ) → draws k < uid_count) where
  -- When the request passes, the result lists the same links in the same order, each unchanged but
  -- for its identifier; a link that named one keeps it, every identifier lies in the range and
  -- belongs to no registered link, and no two links share one; provided that the registry could be
  -- read and every draw is below the number of identifiers.
  pub prepare_unique_link_uids_lem :
      (rows : List LinkUidOwner) (links out : List LinkSpec)
      → prepare_unique_link_uids namespace (ok rows) draws links ≡ ok out
      → Completes links out × Distinct (uids out) × All (IsAvailable rows) (uids out)
  unfolding prepare_unique_link_uids
  prepare_unique_link_uids_lem rows links out h =
      let used = registered_link_uids rows [] in
      let (after, reserved, rest) = >>=-eq-ok (reserve_explicit namespace used links 0 []) _ h in
      let r = reserve_explicit-Reserved namespace used links 0 [] after reserved in
      let a =
        assign_missing-Assigned namespace used draws bounded links out after 0 r.distinct r.usable
          r.held rest in
      (a.completes, a.distinct, All-IsAvailable rows (uids out) a.usable)
