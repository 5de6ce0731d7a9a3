-- ===== src/LinkUid/Registry/Collected.antt =====
-- The owners that collectNamespaceLinkUIDOwners collects, beside a search for the first entry.
use kubendt.Prelude.{
  String, ◌≡◌, refl, Option, none, some, List, [], ◌∷◌, ◌==◌, ℤ, int_eq, string_eq, if◌then◌else◌,
  arith, Bool-cases, Option-cases, inl, inr, lookup, put, keys, Distinct, All, lookup-put,
  put-Distinct, contains-keys, beq_refl, sym, ◌∙◌,
}
use kubendt.Topologies.{Entry, Objects}
use kubendt.LinkUid.{LinkUidOwner, Owners}
use kubendt.LinkUid.Prepare.{owner_uids}
use kubendt.LinkUid.Registry.{owner_of_entry, collect_entries, collect_objects, values}

abbrev pub or_else : Option LinkUidOwner → Option LinkUidOwner → Option LinkUidOwner
or_else none second = second
or_else (some o) second = some o

-- The owner that the first entry with an identifier makes.
abbrev pub first_in_entries : String → String → List Entry → ℤ → Option LinkUidOwner
first_in_entries namespace pod [] u = none
first_in_entries namespace pod (e ∷ es) u = elim e.uid [
  | none ↦ first_in_entries namespace pod es u
  | some uid ↦
      let rest = first_in_entries namespace pod es u in
      if uid == u then some (owner_of_entry namespace pod e) else rest
]

abbrev pub first_owner : String → Objects → ℤ → Option LinkUidOwner
first_owner namespace [] u = none
first_owner namespace ((pod, es) ∷ objects) u =
    or_else (first_in_entries namespace pod es u) (first_owner namespace objects u)

abbrev pub IsOf : String → ℤ × LinkUidOwner → Type 0
IsOf namespace (uid, owner) = (owner.uid ≡ uid) × (owner.namespace ≡ namespace)

All-put :
    (namespace : String) (k : ℤ) (v : LinkUidOwner) (m : Owners)
    → IsOf namespace (k, v)
    → All (IsOf namespace) m
    → All (IsOf namespace) (put k v m)
All-put namespace k v [] p h = (p, tt)
All-put namespace k v ((j, w) ∷ m) p h = elim (Bool-cases (j == k)) [
  | inl e ↦ rw e (p, h.1)
  | inr e ↦ rw e (h.0, All-put namespace k v m p h.1)
]

-- The owners of a namespace under their identifiers, each identifier once.
pub record IsCollected (namespace : String) (m : Owners) : Type 0 where
  pub keyed : All (IsOf namespace) m
  pub distinct : Distinct (keys m)

or_else_assoc : (a b c : Option LinkUidOwner) → or_else (or_else a b) c ≡ or_else a (or_else b c)
or_else_assoc none b c = refl
or_else_assoc (some o) b c = refl

owner_of_entry-uid :
    (namespace pod : String) (e : Entry) (uid : ℤ)
    → e.uid ≡ some uid
    → (owner_of_entry namespace pod e).uid ≡ uid
unfolding owner_of_entry
owner_of_entry-uid namespace pod e uid h = rw h refl

module _ (namespace : String) where
  collect_entries-lookup :
      (pod : String) (es : List Entry) (m : Owners) (u : ℤ)
      → lookup u (collect_entries namespace pod es m)
        ≡ or_else (lookup u m) (first_in_entries namespace pod es u)
  unfolding collect_entries
  collect_entries-lookup pod [] m u = ground arith
  collect_entries-lookup pod (e ∷ es) m u = elim (Option-cases e.uid) [
    | inl h ↦ rw h (collect_entries-lookup pod es m u)
    | inr (uid, h) ↦ elim (Option-cases (lookup uid m)) [
      | inl new ↦
          rw (h, new)
            (ground (
              arith,
              collect_entries-lookup pod es (put uid (owner_of_entry namespace pod e) m) u,
              lookup-put uid u (owner_of_entry namespace pod e) m,
              int_eq.beq_iff uid u,
              new,
            ))
      | inr (o, known) ↦
          rw (h, known)
            (ground (arith, collect_entries-lookup pod es m u, int_eq.beq_iff uid u, known))
    ]
  ]

  pub collect_objects-lookup :
      (objects : Objects) (m : Owners) (u : ℤ)
      → lookup u (collect_objects namespace objects m)
        ≡ or_else (lookup u m) (first_owner namespace objects u)
  unfolding collect_objects
  collect_objects-lookup [] m u = ground arith
  collect_objects-lookup ((pod, es) ∷ objects) m u =
      rw
        (
          collect_objects-lookup objects (collect_entries namespace pod es m) u,
          collect_entries-lookup pod es m u,
        )
        (ground (
          arith,
          or_else_assoc (lookup u m) (first_in_entries namespace pod es u)
              (first_owner namespace objects u),
        ))

  collect_entries-IsCollected :
      (pod : String) (es : List Entry) (m : Owners)
      → IsCollected namespace m
      → IsCollected namespace (collect_entries namespace pod es m)
  unfolding collect_entries owner_of_entry
  collect_entries-IsCollected pod [] m c = c
  collect_entries-IsCollected pod (e ∷ es) m c = elim (Option-cases e.uid) [
    | inl h ↦ rw h (collect_entries-IsCollected pod es m c)
    | inr (uid, h) ↦ elim (Option-cases (lookup uid m)) [
      | inl new ↦
          rw (h, new)
            (collect_entries-IsCollected pod es _ record {
              keyed =
                  All-put namespace uid _ m (owner_of_entry-uid namespace pod e uid h, refl)
                    c.keyed;
              distinct = put-Distinct uid _ m c.distinct;
            })
      | inr (o, known) ↦ rw (h, known) (collect_entries-IsCollected pod es m c)
    ]
  ]

  pub collect_objects-IsCollected :
      (objects : Objects) (m : Owners)
      → IsCollected namespace m
      → IsCollected namespace (collect_objects namespace objects m)
  unfolding collect_objects
  collect_objects-IsCollected [] m c = c
  collect_objects-IsCollected ((pod, es) ∷ objects) m c =
      collect_objects-IsCollected objects _ (collect_entries-IsCollected pod es m c)

-- Go goes through a map in some order: every entry stands at its key, and once.
pub record IsOrder (iterate : Owners → Owners) : Type 0 where
  pub same : (m : Owners) (uid : ℤ) → Distinct (keys m) → lookup uid (iterate m) ≡ lookup uid m
  pub distinct : (m : Owners) → Distinct (keys m) → Distinct (keys (iterate m))

All-lookup :
    (namespace : String) (m : Owners) (u : ℤ) (o : LinkUidOwner)
    → All (IsOf namespace) m
    → lookup u m ≡ some o
    → IsOf namespace (u, o)
All-lookup namespace [] u o h e = cc
All-lookup namespace ((j, w) ∷ m) u o h e =
    ground (arith, h.0, e, int_eq.beq_iff j u, All-lookup namespace m u o h.1)

lookup-All :
    (namespace : String) (m : Owners)
    → Distinct (keys m)
    → ((u : ℤ) (o : LinkUidOwner) → lookup u m ≡ some o → IsOf namespace (u, o))
    → All (IsOf namespace) m
lookup-All namespace [] d h = tt
lookup-All namespace ((j, w) ∷ m) (new, d) h = (
  h j w (rw (beq_refl j) refl),
  lookup-All namespace m d
      λ u o e. h u o (ground (arith, e, new, contains-keys u m, int_eq.beq_iff j u)),
)

pub iterate-IsCollected :
    (iterate : Owners → Owners) (namespace : String) (m : Owners)
    → IsOrder iterate
    → IsCollected namespace m
    → IsCollected namespace (iterate m)
iterate-IsCollected iterate namespace m order c = record {
  keyed =
      lookup-All namespace (iterate m) (order.distinct m c.distinct)
        λ u o e. All-lookup namespace m u o c.keyed (sym (order.same m u c.distinct) ∙ e);
  distinct = order.distinct m c.distinct;
}

-- A list of owners as the search for an identifier sees it.
abbrev pub find_owner : List LinkUidOwner → ℤ → Option LinkUidOwner
find_owner [] u = none
find_owner (o ∷ owners) u = if o.uid == u then some o else find_owner owners u

pub find_owner-values :
    (namespace : String) (m : Owners) (u : ℤ)
    → All (IsOf namespace) m
    → find_owner (values m) u ≡ lookup u m
find_owner-values namespace [] u h = refl
find_owner-values namespace ((j, w) ∷ m) u h = rw (h.0.0, find_owner-values namespace m u h.1) refl

pub owner_uids-values :
    (namespace : String) (m : Owners) → All (IsOf namespace) m → owner_uids (values m) ≡ keys m
owner_uids-values namespace [] h = refl
owner_uids-values namespace ((j, w) ∷ m) h = rw (h.0.0, owner_uids-values namespace m h.1) refl
