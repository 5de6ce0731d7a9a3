-- ===== src/LinkUid/Registry/Rebuilt.antt =====
-- The loop of SyncLinkUIDRegistryFromCluster over the namespaces of the cluster.
use kubendt.Prelude.{
  no_bar, String, ◌≡◌, refl, sym, ◌∙◌, true, false, Option, some, List, [], ◌∷◌, ◌++◌, ◌||◌, ◌&&◌,
  ◌==◌, string_eq, arith, Bool-cases, inl, inr, contains, Distinct, All, beq_refl, ok,
}
use mathlib.Core.Path.{subst}
use mathlib.Core.List.{append-nil}
use kubendt.Topologies.{Objects}
use kubendt.LinkUid.{LinkUidOwner, Owners}
use kubendt.LinkUid.Registry.{Inserted, owner_key, insert_link_uid_owners, insert_namespaces}
use kubendt.LinkUid.Registry.Keys.{owner_key-namespace}
use kubendt.LinkUid.Registry.Collected.{IsOrder}
use kubendt.LinkUid.Registry.Inserted.{
  owner_keys, rows_of, rows_at, insert_link_uid_owners-all, owner_keys-Distinct, rows_at-append,
  rows_at-rows_of, rows_at-rows_of_others,
}
use kubendt.LinkUid.Registry.Synced.{collected, collected-namespace, collected-Distinct, collect-eq}

contains-All :
    (namespaces : List String) (namespace : String)
    → All (λ n. no_bar n ≡ true) namespaces
    → contains namespaces namespace ≡ true
    → no_bar namespace ≡ true
contains-All [] namespace h c = cc
contains-All (n ∷ namespaces) namespace h c =
    ground (arith, h.0, c, string_eq.beq_iff n namespace, contains-All namespaces namespace h.1)

-- The keys of a namespace's owners are not those of another namespace.
owner_keys-others :
    (namespace : String) (o : LinkUidOwner) (owners : List LinkUidOwner)
    → All (λ p. p.namespace ≡ namespace) owners
    → no_bar namespace ≡ true
    → no_bar o.namespace ≡ true
    → (namespace == o.namespace) ≡ false
    → contains (owner_keys owners) (owner_key o) ≡ false
owner_keys-others namespace o [] h p q ne = refl
owner_keys-others namespace o (r ∷ owners) (h, hs) p q ne =
    let same : owner_key r ≡ owner_key o → namespace ≡ o.namespace =
      λ e. sym h ∙ owner_key-namespace r o (rw h p) q e in
    ground (
      arith,
      ne,
      same,
      string_eq.beq_iff (owner_key r) (owner_key o),
      string_eq.beq_iff namespace o.namespace,
      owner_keys-others namespace o owners hs p q ne,
    )

owner_keys-unseen :
    (namespace k : String) (owners : List LinkUidOwner) (inserted : List String)
    → All (λ o. o.namespace ≡ namespace) owners
    → ((o : LinkUidOwner) → o.namespace ≡ namespace → contains inserted (owner_key o) ≡ false)
    → contains (owner_keys owners) k ≡ true
    → contains inserted k ≡ false
owner_keys-unseen namespace k [] inserted h unseen c = cc
owner_keys-unseen namespace k (o ∷ owners) inserted (h, hs) unseen c = ground (
  arith,
  c,
  unseen o h,
  string_eq.beq_iff (owner_key o) k,
  owner_keys-unseen namespace k owners inserted hs unseen,
)

-- A name that stands in a list differs from one that does not.
differ :
    (namespace n : String) (namespaces : List String)
    → contains namespaces namespace ≡ false
    → contains namespaces n ≡ true
    → (namespace == n) ≡ false
differ namespace n namespaces once c = ground (arith, once, c, string_eq.beq_iff namespace n)

module _ (iterate : Owners → Owners) (order : IsOrder iterate)
    (topologies : String → Option Objects) (objects : String → Objects) (cluster : String) where
  -- What the loop over the namespaces relies on: their rows are gone and none of their keys is
  -- inserted.
  pub record IsAhead (namespaces : List String) (s : Inserted) : Type 0 where
    pub gone :
        (namespace : String)
        → contains namespaces namespace ≡ true
        → rows_at cluster namespace s.1 ≡ []
    pub unseen :
        (o : LinkUidOwner)
        → contains namespaces o.namespace ≡ true
        → contains s.0 (owner_key o) ≡ false

  abbrev pub owners_of : String → List LinkUidOwner
  owners_of namespace = collected iterate order namespace (objects namespace)

  after : String → Inserted → Inserted
  after namespace s = insert_link_uid_owners cluster (owners_of namespace) s

  -- What the loop leaves of each namespace's rows.
  pub record IsRebuilt (namespaces : List String) (before done : Inserted) : Type 0 where
    pub listed :
        (namespace : String)
        → contains namespaces namespace ≡ true
        → rows_at cluster namespace done.1 ≡ owners_of namespace
    pub others :
        (other namespace : String)
        → (cluster == other && contains namespaces namespace) ≡ false
        → rows_at other namespace done.1 ≡ rows_at other namespace before.1

  module _ (namespace : String) (namespaces : List String) (s : Inserted)
      (once : contains namespaces namespace ≡ false)
      (plain : All (λ n. no_bar n ≡ true) (namespace ∷ namespaces))
      (ahead : IsAhead (namespace ∷ namespaces) s) where
    after_lem :
        ((after namespace s).1 ≡ s.1 ++ rows_of cluster (owners_of namespace))
        × ((k : String)
            → contains (after namespace s).0 k
              ≡ (contains (owner_keys (owners_of namespace)) k || contains s.0 k))
    unfolding after
    after_lem =
        insert_link_uid_owners-all cluster (owners_of namespace) s.0 s.1
          (owner_keys-Distinct _ (collected-Distinct iterate order namespace (objects namespace)))
          (λ k.
            owner_keys-unseen namespace k _ s.0
              (collected-namespace iterate order namespace (objects namespace))
              (λ o h. ahead.unseen o (rw (h, beq_refl namespace) refl)))

    after-IsAhead : IsAhead namespaces (after namespace s)
    after-IsAhead = record {
      gone = λ n c. rw after_lem.0 (
          rows_at-append cluster n s.1 _
          ∙ rw
              (
                ahead.gone n (ground (arith, c)),
                rows_at-rows_of_others cluster n cluster namespace _
                    (collected-namespace iterate order namespace (objects namespace))
                    (ground (arith, differ namespace n namespaces once c)),
              )
              refl);
      unseen = λ o c. rw (after_lem.1 (owner_key o)) (
          ground (
            arith,
            ahead.unseen o (ground (arith, c)),
            owner_keys-others namespace o _
                (collected-namespace iterate order namespace (objects namespace)) plain.0
                (contains-All namespaces o.namespace plain.1 c)
                (differ namespace o.namespace namespaces once c),
          ));
    }

    -- The rows of the namespace itself are complete, those of others are as they were.
    after-own : rows_at cluster namespace (after namespace s).1 ≡ owners_of namespace
    after-own = rw after_lem.0 (
        rows_at-append cluster namespace s.1 _
        ∙ rw
            (
              ahead.gone namespace (rw (beq_refl namespace) refl),
              rows_at-rows_of cluster namespace _
                  (collected-namespace iterate order namespace (objects namespace)),
            )
            refl)

    after-others :
        (other n : String)
        → (cluster == other && namespace == n) ≡ false
        → rows_at other n (after namespace s).1 ≡ rows_at other n s.1
    after-others other n e = rw after_lem.0 (
        rows_at-append other n s.1 _
        ∙ rw
            (rows_at-rows_of_others other n cluster namespace _
              (collected-namespace iterate order namespace (objects namespace)) e)
            (append-nil _))

    IsRebuilt-cons :
        (done : Inserted)
        → IsRebuilt namespaces (after namespace s) done
        → IsRebuilt (namespace ∷ namespaces) s done
    IsRebuilt-cons done rebuilt = record {
      listed = λ n c. elim (Bool-cases (contains namespaces n)) [
        | inl later ↦ rebuilt.listed n later
        | inr not_later ↦
            let same : namespace ≡ n =
              ground (arith, c, not_later, string_eq.beq_iff namespace n) in
            subst (λ m. rows_at cluster m done.1 ≡ owners_of m) same
              (rebuilt.others cluster namespace (rw once (ground arith)) ∙ after-own)
      ];
      others = λ other n e.
          rebuilt.others other n (ground (arith, e)) ∙ after-others other n (ground (arith, e));
    }

  pub insert_namespaces-IsRebuilt :
      (namespaces : List String) (s : Inserted)
      → Distinct namespaces
      → All (λ n. no_bar n ≡ true) namespaces
      → ((n : String) → contains namespaces n ≡ true → topologies n ≡ some (objects n))
      → IsAhead namespaces s
      → (done : Inserted) × (insert_namespaces iterate topologies cluster namespaces s ≡ ok done)
        × IsRebuilt namespaces s done
  unfolding insert_namespaces after
  insert_namespaces-IsRebuilt [] s d plain readable ahead =
      (s, refl, record { listed = λ n c. cc; others = λ other n e. refl })
  insert_namespaces-IsRebuilt (namespace ∷ namespaces) s (once, d) plain readable ahead =
      let here : topologies namespace ≡ some (objects namespace) =
        readable namespace (rw (beq_refl namespace) refl) in
      let (done, eq, rebuilt) =
        insert_namespaces-IsRebuilt namespaces (after namespace s) d plain.1
          (λ n c. readable n (ground (arith, c)))
          (after-IsAhead namespace namespaces s once plain ahead) in
      (
        done,
        rw
            (
              insert_namespaces,
              collect-eq iterate order topologies namespace (objects namespace) here,
            )
            eq,
        IsRebuilt-cons namespace namespaces s once plain ahead done rebuilt,
      )
