-- ===== src/Scale/Replicas.antt =====
-- The replicas that the nodes have once an accepted scale section is applied.
use kubendt.Prelude.{
  ℕ, suc, String, ◌≡◌, ◌⊎◌, inl, inr, refl, sym, ap, false, Option, none, some, Bool-cases, List,
  [], ◌∷◌, ◌==◌, string_eq, int_eq, ℤ, pos, ◌≤ℤ◌, Table, lookup, put, lookup-put, contains,
  trim_space, ok, arith, All, Distinct, if◌then◌else◌,
}
use kubendt.Types.{NodeSpec, ScaleSpec}
use kubendt.Scale.{
  ScalePlan, by_name, plan_entries, build_scale_plans, counted, override, overrides, override_all,
  apply_effective_replicas_to_nodes,
}
use kubendt.Scale.Plans.{
  entry_names, plan_entries_cons, plan_entries-Distinct, plan_entries-IsProper, IsProper,
}

abbrev pub node_names : List NodeSpec → List String
node_names [] = []
node_names (n ∷ nodes) = n.name ∷ node_names nodes

by_name_keyed :
    (nodes : List NodeSpec) (m : Table String NodeSpec)
    → ((k : String) (n : NodeSpec) → lookup k m ≡ some n → n.name ≡ k)
    → (k : String) (n : NodeSpec) → lookup k (by_name nodes m) ≡ some n
    → n.name ≡ k
unfolding by_name
by_name_keyed [] m keyed = keyed
by_name_keyed (x ∷ nodes) m keyed =
    by_name_keyed nodes (put x.name x m)
      (λ k n h. ground (arith, h, lookup-put x.name k x m, keyed k n, string_eq.beq_iff x.name k))

pub by_name_nil_keyed :
    (nodes : List NodeSpec) (k : String) (n : NodeSpec)
    → lookup k (by_name nodes []) ≡ some n
    → n.name ≡ k
by_name_nil_keyed nodes = by_name_keyed nodes [] (λ k n h. cc)

by_name_absent :
    (nodes : List NodeSpec) (m : Table String NodeSpec) (k : String)
    → contains (node_names nodes) k ≡ false
    → lookup k (by_name nodes m) ≡ lookup k m
unfolding by_name
by_name_absent [] m k h = refl
by_name_absent (x ∷ nodes) m k h =
    ground (arith, h, by_name_absent nodes (put x.name x m) k, lookup-put x.name k x m)

by_name_present :
    (nodes : List NodeSpec) (m : Table String NodeSpec)
    → Distinct (node_names nodes)
    → All (λ n. lookup n.name (by_name nodes m) ≡ some n) nodes
unfolding by_name
by_name_present [] m d = tt
by_name_present (x ∷ nodes) m (new, d) = (
  ground (
    arith,
    new,
    by_name_absent nodes (put x.name x m) x.name,
    lookup-put x.name x.name x m,
    string_eq.beq_iff x.name x.name,
  ),
  by_name_present nodes (put x.name x m) d,
)

-- The replicas that a scale section asks for.
abbrev pub wanted : List ScaleSpec → String → Option ℤ
wanted [] k = none
wanted (entry ∷ scale) k =
    if trim_space entry.name == k then some entry.replicas else wanted scale k

wanted_absent :
    (scale : List ScaleSpec) (k : String)
    → contains (entry_names scale) k ≡ false
    → wanted scale k ≡ none
wanted_absent [] k h = refl
wanted_absent (entry ∷ scale) k h = ground (arith, h, wanted_absent scale k)

-- What the plans override for one name, where `before` is the table they start from.
abbrev Overridden : Table String NodeSpec → String → Option ℤ → Option ℤ → Option ℤ → Type 0
Overridden nodes k none before after = after ≡ before
Overridden nodes k (some r) before after =
    (n : NodeSpec) × (lookup k nodes ≡ some n)
    × (pos 1 ≤ℤ r)
    × ((after ≡ some r) ⊎ ((after ≡ before) × (r ≡ counted n.replicas)))

module _ (nodes : Table String NodeSpec) (added deleted : List String)
    (keyed : (k : String) (n : NodeSpec) → lookup k nodes ≡ some n → n.name ≡ k) where
  overrides-Overridden :
      (scale : List ScaleSpec) (seen : List String) (i : ℕ) (plans : List ScalePlan)
      (m : Table String ℤ) (k : String)
      → plan_entries nodes added deleted seen i scale ≡ ok plans
      → Overridden nodes k (wanted scale k) (lookup k m) (lookup k (overrides plans m))
  unfolding plan_entries overrides
  overrides-Overridden [] seen i plans m k h =
      let same : plans ≡ [] = ground (arith, h) in rw same refl
  overrides-Overridden (entry ∷ scale) seen i plans m k h =
      let (plan, rest, c, h', shape) =
        plan_entries_cons nodes added deleted seen i entry scale plans h in
      let name = trim_space entry.name in
      let key = keyed name c.existing c.known in
      let (d, new) = plan_entries-Distinct nodes added deleted (entry ∷ scale) seen i plans h in
      let once : name ≡ k → wanted scale k ≡ none =
        λ same. rw (sym same) (wanted_absent scale name d.0) in
      elim c.outcome [
        | inl (no_plan, same) ↦
            let e : plans ≡ rest = rw no_plan at shape in
            let later = overrides-Overridden scale (name ∷ seen) (suc i) rest m k h' in
            elim (Bool-cases (name == k)) [
              | inl eq ↦
                  let at_k = (string_eq.beq_iff name k).0 eq in
                  let none_later = rw (once at_k) at later in
                  rw (eq, e) (c.existing, rw (sym at_k) c.known, c.low, inr (none_later, same))
              | inr ne ↦ rw (ne, e) later
            ]
        | inr (p, plan_p, node, replicas, current, way) ↦
            let e : plans ≡ p ∷ rest = rw plan_p at shape in
            let m' = put p.node.name p.new_replicas m in
            let node_name : p.node.name ≡ name = rw node key in
            let later = overrides-Overridden scale (name ∷ seen) (suc i) rest m' k h' in
            elim (Bool-cases (name == k)) [
              | inl eq ↦
                  let at_k = (string_eq.beq_iff name k).0 eq in
                  let none_later : lookup k (overrides rest m') ≡ lookup k m' =
                    rw (once at_k) at later in
                  let stored : lookup k (overrides rest m') ≡ some entry.replicas = ground (
                    arith,
                    none_later,
                    lookup-put p.node.name k p.new_replicas m,
                    node_name,
                    replicas,
                    eq,
                  ) in
                  rw (eq, e) (c.existing, rw (sym at_k) c.known, c.low, inl stored)
              | inr ne ↦
                  let skip : lookup k m' ≡ lookup k m =
                    ground (arith, lookup-put p.node.name k p.new_replicas m, node_name, ne) in
                  rw (ne, e) (rw skip at later)
            ]
      ]

-- A node and what the scale section makes of it; a node recorded with 0 replicas counts as one.
abbrev pub Scaled : List ScaleSpec → NodeSpec → NodeSpec → Type 0
Scaled scale n out =
    (wanted scale n.name ≡ none → out ≡ n)
    × ((r : ℤ)
        → wanted scale n.name ≡ some r
        → (out ≡ record n { replicas = out.replicas }) × (counted out.replicas ≡ r))

abbrev pub Rescaled : List ScaleSpec → List NodeSpec → List NodeSpec → Type 0
Rescaled scale [] [] = Unit
Rescaled scale [] (out ∷ outs) = ⊥
Rescaled scale (n ∷ nodes) [] = ⊥
Rescaled scale (n ∷ nodes) (out ∷ outs) = Scaled scale n out × Rescaled scale nodes outs

override-Scaled :
    (scale : List ScaleSpec) (nodes : Table String NodeSpec) (m : Table String ℤ) (n : NodeSpec)
    → lookup n.name nodes ≡ some n
    → Overridden nodes n.name (wanted scale n.name) none (lookup n.name m)
    → Scaled scale n (override (lookup n.name m) n)
override-Scaled scale nodes m n known o = (
  λ unwanted. let after : lookup n.name m ≡ none = rw unwanted at o in rw after refl,
  λ r asked.
      let (n', known', low, cases) : Overridden nodes n.name (some r) none (lookup n.name m) =
        rw asked at o in
      let own : n' ≡ n = ground (arith, known, known') in
      elim cases [
        | inl after ↦ rw after (refl, ground (arith, low))
        | inr (after, same) ↦ rw after (refl, rw (sym own) (sym same))
      ],
)

override_all-Rescaled :
    (scale : List ScaleSpec) (table : Table String NodeSpec) (m : Table String ℤ)
    (nodes : List NodeSpec)
    → All (λ n. lookup n.name table ≡ some n) nodes
    → ((k : String) → Overridden table k (wanted scale k) none (lookup k m))
    → Rescaled scale nodes (override_all m nodes)
unfolding override_all
override_all-Rescaled scale table m [] known o = tt
override_all-Rescaled scale table m (n ∷ nodes) (k, known) o = (
  override-Scaled scale table m n k (o n.name),
  override_all-Rescaled scale table m nodes known o,
)

override_all_nil : (nodes : List NodeSpec) → override_all [] nodes ≡ nodes
unfolding override_all
override_all_nil [] = refl
override_all_nil (n ∷ nodes) = ap (λ rest. n ∷ rest) (override_all_nil nodes)

apply_effective_overrides :
    (nodes : List NodeSpec) (plans : List ScalePlan)
    → apply_effective_replicas_to_nodes nodes plans ≡ override_all (overrides plans []) nodes
unfolding apply_effective_replicas_to_nodes overrides
apply_effective_overrides nodes [] = sym (override_all_nil nodes)
apply_effective_overrides nodes (p ∷ plans) = refl

-- Nodes with names that are all different, and a scale section that passes: applying its plans
-- gives every node that the section names the replicas it asks for, where 0 recorded replicas count
-- as one, changes nothing else of it, and leaves the other nodes as they were.
pub build_scale_plans-Rescaled :
    (scale : List ScaleSpec) (nodes : List NodeSpec) (added deleted : List String)
    (plans : List ScalePlan)
    → Distinct (node_names nodes)
    → build_scale_plans scale nodes added deleted ≡ ok plans
    → Rescaled scale nodes (apply_effective_replicas_to_nodes nodes plans)
unfolding build_scale_plans
build_scale_plans-Rescaled scale nodes added deleted plans d h =
    rw (apply_effective_overrides nodes plans) (
      override_all-Rescaled scale (by_name nodes []) (overrides plans []) nodes
        (by_name_present nodes [] d)
        (λ k.
          overrides-Overridden (by_name nodes []) added deleted (by_name_nil_keyed nodes) scale [] 0
            plans [] k h))

-- Every plan of a scale section that passes is of a node that exists and that the request neither
-- adds nor deletes, asks for 1 to 128 replicas, and changes their number; the section names no node
-- twice.
pub build_scale_plans-IsProper :
    (scale : List ScaleSpec) (nodes : List NodeSpec) (added deleted : List String)
    (plans : List ScalePlan)
    → build_scale_plans scale nodes added deleted ≡ ok plans
    → All (IsProper (by_name nodes []) added deleted) plans × Distinct (entry_names scale)
unfolding build_scale_plans
build_scale_plans-IsProper scale nodes added deleted plans h = (
  plan_entries-IsProper (by_name nodes []) added deleted (by_name_nil_keyed nodes) scale [] 0 plans
      h,
  (plan_entries-Distinct (by_name nodes []) added deleted scale [] 0 plans h).0,
)
