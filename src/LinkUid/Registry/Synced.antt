-- ===== src/LinkUid/Registry/Synced.antt =====
-- What the two syncs make of the registry.
use kubendt.Prelude.{
  String, ◌≡◌, refl, ap, ◌∙◌, false, Option, some, List, [], ◌∷◌, ◌++◌, ◌&&◌, ◌==◌, ℤ, string_eq,
  int_eq, Distinct, All, ok,
}
use mathlib.Core.List.{append-nil}
use kubendt.Topologies.{Objects}
use kubendt.LinkUid.{LinkUidOwner, Owners}
use kubendt.LinkUid.Prepare.{owner_uids}
use kubendt.LinkUid.Registry.{
  Registry, values, clear_namespace, collect_objects, collect_namespace_link_uid_owners,
  sync_namespace_link_uid_registry, delete_namespace_link_uid_registry,
}
use kubendt.LinkUid.Registry.Collected.{
  IsOf, IsCollected, IsOrder, first_owner, find_owner, collect_objects-IsCollected,
  collect_objects-lookup, iterate-IsCollected, find_owner-values, owner_uids-values,
}
use kubendt.LinkUid.Registry.Inserted.{
  rows_of, rows_at, insert_link_uid_owners-all, owner_keys-Distinct, rows_at-append,
  rows_at-rows_of, rows_at-rows_of_others, rows_at-clear_namespace, rows_at-clear_others,
}

-- The rows of a namespace hold, for each identifier that its objects have, the owner that the first
-- entry with it makes, and one row for an identifier.
pub record IsSynced (cluster namespace : String) (objects : Objects) (registry : Registry)
    : Type 0 where
  pub owners :
      (uid : ℤ)
      → find_owner (rows_at cluster namespace registry) uid ≡ first_owner namespace objects uid
  pub once : Distinct (owner_uids (rows_at cluster namespace registry))

values-namespace :
    (namespace : String) (m : Owners)
    → All (IsOf namespace) m
    → All (λ o. o.namespace ≡ namespace) (values m)
values-namespace namespace [] h = tt
values-namespace namespace ((uid, o) ∷ m) h = (h.0.1, values-namespace namespace m h.1)

module _ (iterate : Owners → Owners) (order : IsOrder iterate) where
  -- What the sync of a namespace collects.
  abbrev pub collected : String → Objects → List LinkUidOwner
  collected namespace objects = values (iterate (collect_objects namespace objects []))

  order-IsCollected :
      (namespace : String) (objects : Objects)
      → IsCollected namespace (iterate (collect_objects namespace objects []))
  order-IsCollected namespace objects =
      iterate-IsCollected iterate namespace _ order
        (collect_objects-IsCollected namespace objects [] record { keyed = tt; distinct = tt })

  pub collected-namespace :
      (namespace : String) (objects : Objects)
      → All (λ o. o.namespace ≡ namespace) (collected namespace objects)
  collected-namespace namespace objects =
      values-namespace namespace _ (order-IsCollected namespace objects).keyed

  pub collected-Distinct :
      (namespace : String) (objects : Objects) → Distinct (owner_uids (collected namespace objects))
  collected-Distinct namespace objects =
      let c = order-IsCollected namespace objects in
      rw (owner_uids-values namespace _ c.keyed) c.distinct

  pub collected-IsSynced :
      (cluster namespace : String) (objects : Objects) (registry : Registry)
      → rows_at cluster namespace registry ≡ collected namespace objects
      → IsSynced cluster namespace objects registry
  collected-IsSynced cluster namespace objects registry h = record {
    owners = λ uid. rw h (
        find_owner-values namespace _ uid (order-IsCollected namespace objects).keyed
        ∙ order.same _ uid
            (collect_objects-IsCollected namespace objects []
              record { keyed = tt; distinct = tt }).distinct
        ∙ collect_objects-lookup namespace objects [] uid);
    once = rw h (collected-Distinct namespace objects);
  }

  module _ (topologies : String → Option Objects) where
    pub collect-eq :
        (namespace : String) (objects : Objects)
        → topologies namespace ≡ some objects
        → collect_namespace_link_uid_owners iterate topologies namespace
          ≡ ok (collected namespace objects)
    unfolding collect_namespace_link_uid_owners
    collect-eq namespace objects h = rw (collect_namespace_link_uid_owners, h) refl

    sync_namespace-eq :
        (cluster namespace : String) (objects : Objects) (registry : Registry)
        → topologies namespace ≡ some objects
        → sync_namespace_link_uid_registry iterate topologies (some cluster) namespace registry ≡ (
          ok tt,
          clear_namespace cluster namespace registry
              ++ rows_of cluster (collected namespace objects),
        )
    unfolding sync_namespace_link_uid_registry
    sync_namespace-eq cluster namespace objects registry h =
        rw (sync_namespace_link_uid_registry, collect-eq namespace objects h)
          (ap (λ rs. (ok tt, rs))
            (insert_link_uid_owners-all cluster (collected namespace objects) []
              (clear_namespace cluster namespace registry)
              (owner_keys-Distinct _ (collected-Distinct namespace objects)) (λ k c. refl)).0)

    -- A sync of a namespace whose objects can be read.
    pub sync_namespace_link_uid_registry-IsSynced :
        (cluster namespace : String) (objects : Objects) (registry : Registry)
        → topologies namespace ≡ some objects
        → let synced =
            sync_namespace_link_uid_registry iterate topologies (some cluster) namespace registry in
          (synced.0 ≡ ok tt)
          × IsSynced cluster namespace objects synced.1
          × ((other other_namespace : String)
              → (cluster == other && namespace == other_namespace) ≡ false
              → rows_at other other_namespace synced.1 ≡ rows_at other other_namespace registry)
    sync_namespace_link_uid_registry-IsSynced cluster namespace objects registry h =
        rw (sync_namespace-eq cluster namespace objects registry h) (
          refl,
          collected-IsSynced cluster namespace objects _ (
              rows_at-append cluster namespace (clear_namespace cluster namespace registry) _
              ∙ rw
                  (
                    rows_at-clear_namespace cluster namespace registry,
                    rows_at-rows_of cluster namespace _ (collected-namespace namespace objects),
                  )
                  refl),
          λ other other_namespace e.
              (rows_at-append other other_namespace (clear_namespace cluster namespace registry) _
                ∙ rw
                    (
                      rows_at-clear_others other other_namespace cluster namespace registry e,
                      rows_at-rows_of_others other other_namespace cluster namespace _
                          (collected-namespace namespace objects) e,
                    )
                    (append-nil _)),
        )

-- A deletion leaves no row of the namespace and every other row.
delete_namespace_link_uid_registry_lem :
    (cluster namespace other other_namespace : String) (registry : Registry)
    → (cluster == other && namespace == other_namespace) ≡ false
    → let deleted = delete_namespace_link_uid_registry (some cluster) namespace registry in
      (deleted.0 ≡ ok tt)
      × (rows_at cluster namespace deleted.1 ≡ [])
      × (rows_at other other_namespace deleted.1 ≡ rows_at other other_namespace registry)
unfolding delete_namespace_link_uid_registry
delete_namespace_link_uid_registry_lem cluster namespace other other_namespace registry ne = (
  refl,
  rows_at-clear_namespace cluster namespace registry,
  rows_at-clear_others other other_namespace cluster namespace registry ne,
)
