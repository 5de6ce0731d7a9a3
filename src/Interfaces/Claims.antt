-- ===== src/Interfaces/Claims.antt =====
-- What a request that passes the conflict check may rely on.
use kubendt.Prelude.{
  ℕ, suc, String, ◌≡◌, inl, inr, refl, Bool, true, false, Option-cases, Bool-cases, List, [], ◌∷◌,
  ◌++◌, if◌then◌else◌, ◌==◌, ◌||◌, ◌&&◌, pair_eq, string_eq, Distinct, contains, contains-append,
  beq_refl, lookup, put, lookup-put, ok, >>=-eq-ok, arith, eq_iff,
}
use kubendt.Types.{NodeSpec, LinkSpec}
use kubendt.Names.{external_node_name, resolve_pod_name_from_link}
use kubendt.Interfaces.{
  PodUsed, claimed, claim, check_end, check_interface_conflicts, TopologyItem, declared,
  claimed_interfaces, pod_set_of, validate_interface_conflicts,
}

module _ (nodes : List NodeSpec) where
  -- The pod and interface of one end, nothing for the external network.
  abbrev pub end_slot : String → String → List (String × String)
  end_slot node intf =
      if node == external_node_name then [] else (resolve_pod_name_from_link node nodes, intf) ∷ []

  -- All the pods' interfaces that links attach to, in order.
  abbrev pub slots : List LinkSpec → List (String × String)
  slots [] = []
  slots (link ∷ links) =
      end_slot link.node link.local_intf ++ (end_slot link.peer_node link.peer_intf ++ slots links)

claimed-claim :
    (used : PodUsed) (pod intf p i : String)
    → claimed (claim used pod intf) p i ≡ ((pod == p && intf == i) || claimed used p i)
unfolding claimed claim
claimed-claim used pod intf p i = elim (Option-cases (lookup pod used)) [
  | inl e ↦ ground (arith, e, eq_iff pod p, lookup-put pod p (intf ∷ []) used)
  | inr (u, e) ↦ ground (arith, e, eq_iff pod p, lookup-put pod p (intf ∷ u) used)
]

-- Slots that are all different, none claimed before, and all claimed after.
record Claimed (before after : PodUsed) (ss : List (String × String)) : Type 0 where
  pub distinct : Distinct ss
  pub free : (p i : String) → contains ss (p, i) ≡ true → claimed before p i ≡ false
  pub taken : (p i : String) → claimed after p i ≡ (contains ss (p, i) || claimed before p i)

Distinct-append :
    (xs ys : List (String × String))
    → Distinct xs
    → Distinct ys
    → ((s : String × String) → contains ys s ≡ true → contains xs s ≡ false)
    → Distinct (xs ++ ys)
Distinct-append [] ys dx dy apart = dy
Distinct-append (x ∷ xs) ys (new, dx) dy apart = (
  ground (arith, contains-append xs ys x, new, apart x, beq_refl x),
  Distinct-append xs ys dx dy (λ s c. ground (arith, apart s c)),
)

Claimed-append :
    (before middle after : PodUsed) (xs ys : List (String × String))
    → Claimed before middle xs
    → Claimed middle after ys
    → Claimed before after (xs ++ ys)
Claimed-append before middle after xs ys a b = record {
  distinct =
      Distinct-append xs ys a.distinct b.distinct
        (λ s c. ground (arith, c, a.taken s.0 s.1, b.free s.0 s.1));
  free =
      λ p i c. ground (arith, c, contains-append xs ys (p, i), a.free p i, b.free p i, a.taken p i);
  taken = λ p i. ground (arith, contains-append xs ys (p, i), a.taken p i, b.taken p i);
}

Claimed-none : (used : PodUsed) → Claimed used used []
Claimed-none used = record { distinct = tt; free = λ p i c. cc; taken = λ p i. refl }

module _ (nodes : List NodeSpec) where
  check_end-Claimed :
      (i : ℕ) (node intf : String) (before after : PodUsed)
      → check_end nodes i node intf before ≡ ok after
      → Claimed before after (end_slot nodes node intf)
  unfolding check_end
  check_end-Claimed i node intf before after h = elim (Bool-cases (node == external_node_name)) [
    | inl e ↦ let same : before ≡ after = ground (arith, h, e) in rw (e, same) (Claimed-none after)
    | inr e ↦ elim (Bool-cases (claimed before (resolve_pod_name_from_link node nodes) intf)) [
      | inl c ↦ absurd (ground (arith, h, e, c))
      | inr c ↦
          let pod = resolve_pod_name_from_link node nodes in
          let same : after ≡ claim before pod intf = ground (arith, h, e, c) in
          rw (e, same)
            (record {
              distinct = (refl, tt);
              free =
                  λ p j q. ground (arith, q, c, string_eq.beq_iff pod p, string_eq.beq_iff intf j);
              taken = λ p j. ground (arith, claimed-claim before pod intf p j);
            })
    ]
  ]

  check_interface_conflicts-Claimed :
      (links : List LinkSpec) (i : ℕ) (before after : PodUsed)
      → check_interface_conflicts nodes links i before ≡ ok after
      → Claimed before after (slots nodes links)
  unfolding check_interface_conflicts
  check_interface_conflicts-Claimed [] i before after h =
      let same : before ≡ after = ground (arith, h) in rw same (Claimed-none after)
  check_interface_conflicts-Claimed (link ∷ links) i before after h =
      let (one, h1, rest) = >>=-eq-ok (check_end nodes i link.node link.local_intf before) _ h in
      let (two, h2, h3) = >>=-eq-ok (check_end nodes i link.peer_node link.peer_intf one) _ rest in
      Claimed-append before one after _ _ (check_end-Claimed i _ _ before one h1) (
        Claimed-append one two after _ _ (check_end-Claimed i _ _ one two h2)
          (check_interface_conflicts-Claimed links (suc i) two after h3))

-- A listed object of this pod declares this interface.
abbrev pub declares : List TopologyItem → String → String → Bool
declares [] p i = false
declares (item ∷ items) p i =
    (item.name == p && contains (declared item.local_intfs) i) || declares items p i

abbrev pub item_names : List TopologyItem → List String
item_names [] = []
item_names (item ∷ items) = item.name ∷ item_names items

declares_absent :
    (items : List TopologyItem) (p i : String)
    → contains (item_names items) p ≡ false
    → declares items p i ≡ false
declares_absent [] p i h = refl
declares_absent (item ∷ items) p i h = ground (arith, h, declares_absent items p i)

claimed-put :
    (used : PodUsed) (pod : String) (intfs : List String) (p i : String)
    → claimed (put pod intfs used) p i ≡ (if pod == p then contains intfs i else claimed used p i)
unfolding claimed
claimed-put used pod intfs p i = ground (arith, lookup-put pod p intfs used)

claimed_interfaces-declares :
    (items : List TopologyItem) (pod_set : List String) (used : PodUsed) (p i : String)
    → Distinct (item_names items)
    → contains pod_set p ≡ true
    → claimed (claimed_interfaces items pod_set used) p i
      ≡ (if contains (item_names items) p then declares items p i else claimed used p i)
unfolding claimed_interfaces
claimed_interfaces-declares [] pod_set used p i d h = refl
claimed_interfaces-declares (item ∷ items) pod_set used p i (new, d) h = ground (
  arith,
  new,
  h,
  string_eq.beq_iff item.name p,
  claimed_interfaces-declares items pod_set used p i d h,
  claimed_interfaces-declares items pod_set (put item.name (declared item.local_intfs) used) p i d
      h,
  claimed-put used item.name (declared item.local_intfs) p i,
  declares_absent items p i,
)

module _ (nodes : List NodeSpec) where
  pod_set_of-slots :
      (links : List LinkSpec) (p i : String)
      → contains (slots nodes links) (p, i) ≡ true
      → contains (pod_set_of nodes links) p ≡ true
  unfolding pod_set_of
  pod_set_of-slots (link ∷ links) p i h = ground (arith, h, pod_set_of-slots links p i)
  pod_set_of-slots [] p i h = cc

  -- When the request passes, no pod's interface is the end of two of its links or of both ends of
  -- one, and none is an interface that the pod's Topology object declares; ends at the external
  -- network do not count, and the names of the listed objects are all different.
  pub validate_interface_conflicts_lem :
      (items : List TopologyItem) (links : List LinkSpec) (after : PodUsed)
      → Distinct (item_names items)
      → validate_interface_conflicts (ok items) links nodes ≡ ok after
      → Distinct (slots nodes links)
        × ((p i : String) → contains (slots nodes links) (p, i) ≡ true → declares items p i ≡ false)
  unfolding validate_interface_conflicts
  validate_interface_conflicts_lem items links after d h =
      let c = check_interface_conflicts-Claimed nodes links 0 _ after h in
      (
        c.distinct,
        λ p i s. ground (
          arith,
          c.free p i s,
          pod_set_of-slots links p i s,
          declares_absent items p i,
          claimed_interfaces-declares items (pod_set_of nodes links) [] p i d,
        ),
      )
