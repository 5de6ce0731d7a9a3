-- ===== src/LinkUid/Registry/Inserted.antt =====
-- What the inserts of a sync add to the table, and which rows belong to a namespace.
use kubendt.Prelude.{
  String, ◌≡◌, refl, ap, sym, ◌∙◌, true, false, List, [], ◌∷◌, ◌++◌, ◌||◌, ◌&&◌, ◌==◌, string_eq,
  int_eq, if◌then◌else◌, arith, Bool-cases, inl, inr, contains, Distinct, All, beq_refl,
}
use mathlib.Core.List.{append_assoc, append-nil}
use kubendt.LinkUid.{LinkUidOwner}
use kubendt.LinkUid.Prepare.{owner_uids}
use kubendt.LinkUid.Registry.{
  RegistryRow, Registry, Inserted, owner_key, insert_link_uid_owners, of_namespace, clear_namespace,
}
use kubendt.LinkUid.Registry.Keys.{owner_key-uid}

abbrev pub owner_keys : List LinkUidOwner → List String
owner_keys [] = []
owner_keys (o ∷ owners) = owner_key o ∷ owner_keys owners

abbrev pub rows_of : String → List LinkUidOwner → Registry
rows_of cluster [] = []
rows_of cluster (o ∷ owners) = record { cluster = cluster; owner = o } ∷ rows_of cluster owners

-- The owners in the rows of a namespace.
abbrev pub rows_at : String → String → Registry → List LinkUidOwner
rows_at cluster namespace [] = []
rows_at cluster namespace (row ∷ registry) =
    if of_namespace cluster namespace row
    then row.owner ∷ rows_at cluster namespace registry
    else rows_at cluster namespace registry

insert_link_uid_owners_cons :
    (cluster : String) (o : LinkUidOwner) (owners : List LinkUidOwner) (s : Inserted)
    → contains s.0 (owner_key o) ≡ false
    → insert_link_uid_owners cluster (o ∷ owners) s
      ≡ insert_link_uid_owners cluster owners
          (owner_key o ∷ s.0, s.1 ++ (record { cluster = cluster; owner = o } ∷ []))
unfolding insert_link_uid_owners
insert_link_uid_owners_cons cluster o owners s fresh =
    ap
      (λ b. insert_link_uid_owners cluster owners (
        if b
        then s
        else (owner_key o ∷ s.0, s.1 ++ (record { cluster = cluster; owner = o } ∷ []))))
      fresh

-- Owners whose keys differ and are new are all inserted.
pub insert_link_uid_owners-all :
    (cluster : String) (owners : List LinkUidOwner) (inserted : List String) (registry : Registry)
    → Distinct (owner_keys owners)
    → ((k : String) → contains (owner_keys owners) k ≡ true → contains inserted k ≡ false)
    → ((insert_link_uid_owners cluster owners (inserted, registry)).1
        ≡ registry ++ rows_of cluster owners)
      × ((k : String)
          → contains (insert_link_uid_owners cluster owners (inserted, registry)).0 k
            ≡ (contains (owner_keys owners) k || contains inserted k))
unfolding insert_link_uid_owners
insert_link_uid_owners-all cluster [] inserted registry d new =
    (sym (append-nil registry), λ k. refl)
insert_link_uid_owners-all cluster (o ∷ owners) inserted registry (once, d) new =
    let fresh : contains inserted (owner_key o) ≡ false =
      new (owner_key o) (rw (beq_refl (owner_key o)) refl) in
    let (rows, keys) =
      insert_link_uid_owners-all cluster owners (owner_key o ∷ inserted)
        (registry ++ (record { cluster = cluster; owner = o } ∷ [])) d
        (λ k h. ground (arith, h, new k, once, string_eq.beq_iff (owner_key o) k)) in
    rw (insert_link_uid_owners_cons cluster o owners (inserted, registry) fresh)
      (rows ∙ append_assoc registry _ _, λ k. ground (arith, keys k))

contains-owner_keys :
    (o : LinkUidOwner) (owners : List LinkUidOwner)
    → contains (owner_uids owners) o.uid ≡ false
    → contains (owner_keys owners) (owner_key o) ≡ false
contains-owner_keys o [] h = refl
contains-owner_keys o (p ∷ owners) h = ground (
  arith,
  h,
  contains-owner_keys o owners,
  owner_key-uid p o,
  string_eq.beq_iff (owner_key p) (owner_key o),
  int_eq.beq_iff p.uid o.uid,
)

pub owner_keys-Distinct :
    (owners : List LinkUidOwner) → Distinct (owner_uids owners) → Distinct (owner_keys owners)
owner_keys-Distinct [] d = tt
owner_keys-Distinct (o ∷ owners) (once, d) =
    (contains-owner_keys o owners once, owner_keys-Distinct owners d)

module _ (cluster namespace : String) where
  pub rows_at-append :
      (first second : Registry)
      → rows_at cluster namespace (first ++ second)
        ≡ rows_at cluster namespace first ++ rows_at cluster namespace second
  rows_at-append [] second = refl
  rows_at-append (row ∷ first) second = elim (Bool-cases (of_namespace cluster namespace row)) [
    | inl e ↦ rw e (ap (λ os. row.owner ∷ os) (rows_at-append first second))
    | inr e ↦ rw e (rows_at-append first second)
  ]

  -- The rows that a sync inserts for the namespace.
  pub rows_at-rows_of :
      (owners : List LinkUidOwner)
      → All (λ o. o.namespace ≡ namespace) owners
      → rows_at cluster namespace (rows_of cluster owners) ≡ owners
  rows_at-rows_of [] h = refl
  rows_at-rows_of (o ∷ owners) (h, hs) =
      rw (h, beq_refl cluster, beq_refl namespace, rows_at-rows_of owners hs) refl

  -- Rows of another cluster, or of another namespace.
  pub rows_at-rows_of_others :
      (other other_namespace : String) (owners : List LinkUidOwner)
      → All (λ o. o.namespace ≡ other_namespace) owners
      → (other == cluster && other_namespace == namespace) ≡ false
      → rows_at cluster namespace (rows_of other owners) ≡ []
  rows_at-rows_of_others other other_namespace [] h e = refl
  rows_at-rows_of_others other other_namespace (o ∷ owners) (h, hs) e =
      rw (h, rows_at-rows_of_others other other_namespace owners hs e) (rw e refl)

  pub rows_at-clear_namespace :
      (registry : Registry)
      → rows_at cluster namespace (clear_namespace cluster namespace registry) ≡ []
  rows_at-clear_namespace [] = refl
  rows_at-clear_namespace (row ∷ registry) =
      elim (Bool-cases (of_namespace cluster namespace row)) [
        | inl e ↦ rw e (rows_at-clear_namespace registry)
        | inr e ↦ rw (e, e) (rows_at-clear_namespace registry)
      ]

  of_other :
      (row : RegistryRow) (other other_namespace : String)
      → (other == cluster && other_namespace == namespace) ≡ false
      → of_namespace other other_namespace row ≡ true
      → of_namespace cluster namespace row ≡ false
  of_other row other other_namespace e h = ground (
    arith,
    e,
    h,
    string_eq.beq_iff row.cluster other,
    string_eq.beq_iff row.owner.namespace other_namespace,
  )

  pub rows_at-clear_others :
      (other other_namespace : String) (registry : Registry)
      → (other == cluster && other_namespace == namespace) ≡ false
      → rows_at cluster namespace (clear_namespace other other_namespace registry)
        ≡ rows_at cluster namespace registry
  rows_at-clear_others other other_namespace [] e = refl
  rows_at-clear_others other other_namespace (row ∷ registry) e =
      elim (Bool-cases (of_namespace other other_namespace row)) [
        | inl r ↦
            rw (r, of_other row other other_namespace e r)
              (rows_at-clear_others other other_namespace registry e)
        | inr r ↦ rw (r, rows_at-clear_others other other_namespace registry e) refl
      ]
