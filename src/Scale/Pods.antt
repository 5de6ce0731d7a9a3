-- ===== src/Scale/Pods.antt =====
-- The pods that a plan removes and adds are those by which the node's replicas differ.
use kubendt.Prelude.{
  ℕ, zero, suc, ◌+◌, ◌-◌, ◌≤◌, String, ◌≡◌, refl, ap, [], ◌∷◌, ◌++◌, ℤ, pos, negsuc, ◌≤ℤ◌, arith,
}
use kubendt.Names.{pod_name}
use kubendt.Scale.{ScalePlan, direction, pods_from, pods_between, to_remove, new_pod_names}

pods_from-plus :
    (name : String) (i left more : ℕ)
    → pods_from name (pos i) (left + more)
      ≡ pods_from name (pos i) left ++ pods_from name (pos (i + left)) more
pods_from-plus name i zero more = ground (arith)
pods_from-plus name i (suc left) more =
    let first : suc left + more ≡ suc (left + more) = omega arith in
    let second : i + suc left ≡ suc i + left = omega arith in
    rw (first, second)
      (ap (λ pods. pod_name name (pos i) ∷ pods) (pods_from-plus name (suc i) left more))

pods_between_plus :
    (name : String) (a b : ℕ)
    → a ≤ b
    → pods_between name (pos 0) (pos b)
      ≡ pods_between name (pos 0) (pos a) ++ pods_between name (pos a) (pos b)
unfolding pods_between
pods_between_plus name a b le = ground (arith, pods_from-plus name 0 a (b - a))

nonneg : (z : ℤ) → pos 0 ≤ℤ z → (n : ℕ) × (z ≡ pos n)
nonneg (pos n) h = (n, refl)
nonneg (negsuc n) h = absurd (omega arith)

pods_between_none : (name : String) (a b : ℕ) → b ≤ a → pods_between name (pos a) (pos b) ≡ []
unfolding pods_between
pods_between_none name a b le = let zero_runs : b - a ≡ 0 = omega arith in rw zero_runs refl

-- For a node that has no negative number of replicas, before or after: a plan that scales down
-- removes the pods that the node's list of pods loses at its end, and a plan that scales up adds the
-- pods that it gains there; each adds and removes nothing else.
pub direction-pods :
    (p : ScalePlan)
    → pos 0 ≤ℤ p.current_replicas
    → pos 0 ≤ℤ p.new_replicas
    → (direction p ≡ negsuc 0
        → (pods_between p.node.name (pos 0) p.current_replicas
            ≡ pods_between p.node.name (pos 0) p.new_replicas ++ to_remove p)
          × (new_pod_names p ≡ []))
      × (direction p ≡ pos 1
          → (pods_between p.node.name (pos 0) p.new_replicas
              ≡ pods_between p.node.name (pos 0) p.current_replicas ++ new_pod_names p)
            × (to_remove p ≡ []))
unfolding direction to_remove new_pod_names
direction-pods p hc hn =
    let (c, ec) = nonneg p.current_replicas hc in
    let (n, en) = nonneg p.new_replicas hn in
    rw (ec, en)
      (
        (λ d.
            let lt : n ≤ c = ground (arith, d) in
            (pods_between_plus p.node.name n c lt, pods_between_none p.node.name c n lt)),
        (λ d.
            let lt : c ≤ n = ground (arith, d) in
            (pods_between_plus p.node.name c n lt, pods_between_none p.node.name n c lt)),
      )
