-- ===== src/Shaping/Sequences.antt =====
-- The sequence of actions that each pod gets from the links section of a configure request.
use kubendt.Prelude.{
  ℕ, suc, String, none, some, List, [], ◌∷◌, ◌++◌, ◌≡◌, refl, arith, is_empty, is_some, ◌==◌, ◌!=◌,
  ◌&&◌, ◌||◌, not, string_eq, eq_iff, if◌then◌else◌, Result, ok, err, ap, sym, ◌∙◌, refuse,
  >>=-eq-ok, Bool-cases, Option-cases, inl, inr, Distinct, contains,
}
use mathlib.Core.List.{append-nil, append_assoc}
use kubendt.Types.{LinkSpec}
use kubendt.Types.Actions.{ActionEntry}
use kubendt.Types.Configure.{LinkShaping, PodConfig}
use kubendt.Names.{external_node_name}
use kubendt.Shaping.{
  add_action, add_qdisc, del_qdisc, link_peer, resolve_at, check_peer_node, clear_ends, shape_ends,
  change_ends, expand_link, expand_links, expand_link_shaping,
}

-- The actions of a pod's target, none if it is no target.
abbrev pub actions_of : String → List PodConfig → List ActionEntry
actions_of pod [] = []
actions_of pod (t ∷ targets) = if t.pod == pod then t.actions else actions_of pod targets

abbrev pub pods : List PodConfig → List String
pods [] = []
pods (t ∷ targets) = t.pod ∷ pods targets

pub actions_of-add_action :
    (p pod : String) (a : ActionEntry) (targets : List PodConfig)
    → actions_of p (add_action pod a targets)
      ≡ (if pod == p then actions_of p targets ++ (a ∷ []) else actions_of p targets)
unfolding add_action
actions_of-add_action p pod a [] = ground arith
actions_of-add_action p pod a (t ∷ targets) =
    ground
      (arith, actions_of-add_action p pod a targets, eq_iff t.pod pod, eq_iff t.pod p, eq_iff pod p)

pub contains-add_action :
    (p pod : String) (a : ActionEntry) (targets : List PodConfig)
    → contains (pods (add_action pod a targets)) p ≡ (pod == p || contains (pods targets) p)
unfolding add_action
contains-add_action p pod a [] = ground arith
contains-add_action p pod a (t ∷ targets) =
    ground
      (arith, contains-add_action p pod a targets, eq_iff t.pod pod, eq_iff t.pod p, eq_iff pod p)

pub add_action-Distinct :
    (pod : String) (a : ActionEntry) (targets : List PodConfig)
    → Distinct (pods targets)
    → Distinct (pods (add_action pod a targets))
unfolding add_action
add_action-Distinct pod a [] d = (refl, tt)
add_action-Distinct pod a (t ∷ targets) (new, d) = elim (Bool-cases (t.pod == pod)) [
  | inl e ↦ rw e (new, d)
  | inr e ↦ rw e (
    rw (contains-add_action t.pod pod a targets)
        (ground (arith, new, e, eq_iff t.pod pod, eq_iff pod t.pod)),
    add_action-Distinct pod a targets d,
  )
]

-- One action on the interface of one end.
abbrev pub End : Type 0
End = String × ActionEntry

-- What a request asks of a link between pod:l.localIntf and peer_pod:peer_intf, its own end first.
abbrev pub asked : LinkShaping → String → String → String → List End
asked l pod peer_pod peer_intf =
    let mine : List End =
      if l.remove
      then (pod, del_qdisc l.local_intf) ∷ []
      else if is_some l.shaping
      then (pod, add_qdisc l.local_intf l.shaping) ∷ []
      else [] in
    let theirs : List End =
      if l.remove
      then (if peer_pod == external_node_name then [] else (peer_pod, del_qdisc peer_intf) ∷ [])
      else if is_some l.reverse
      then (peer_pod, add_qdisc peer_intf l.reverse) ∷ []
      else if l.symmetric && is_some l.shaping
      then (peer_pod, add_qdisc peer_intf l.shaping) ∷ []
      else [] in
    mine ++ theirs

-- The actions at one pod, in order.
abbrev pub at_pod : String → List End → List ActionEntry
at_pod p [] = []
at_pod p ((pod, a) ∷ ends) = if pod == p then a ∷ at_pod p ends else at_pod p ends

at_pod-append : (p : String) (xs ys : List End) → at_pod p (xs ++ ys) ≡ at_pod p xs ++ at_pod p ys
at_pod-append p [] ys = refl
at_pod-append p (x ∷ xs) ys = ground (arith, at_pod-append p xs ys)

-- The targets after adding each action in turn.
abbrev pub add_all : List End → List PodConfig → List PodConfig
add_all [] targets = targets
add_all ((pod, a) ∷ ends) targets = add_all ends (add_action pod a targets)

add_all-append :
    (xs ys : List End) (targets : List PodConfig)
    → add_all (xs ++ ys) targets ≡ add_all ys (add_all xs targets)
add_all-append [] ys targets = refl
add_all-append ((pod, a) ∷ xs) ys targets = add_all-append xs ys (add_action pod a targets)

pub add_all-Distinct :
    (ends : List End) (targets : List PodConfig)
    → Distinct (pods targets)
    → Distinct (pods (add_all ends targets))
add_all-Distinct [] targets d = d
add_all-Distinct ((pod, a) ∷ ends) targets d =
    add_all-Distinct ends (add_action pod a targets) (add_action-Distinct pod a targets d)

pub actions_of-add_all :
    (p : String) (ends : List End) (targets : List PodConfig)
    → actions_of p (add_all ends targets) ≡ actions_of p targets ++ at_pod p ends
actions_of-add_all p [] targets = ground (arith, append-nil (actions_of p targets))
actions_of-add_all p ((pod, a) ∷ ends) targets = ground (
  arith,
  actions_of-add_all p ends (add_action pod a targets),
  actions_of-add_action p pod a targets,
  append_assoc (actions_of p targets) (a ∷ []) (at_pod p ends),
)

module _ {E : Type 0} where
  change_ends-add_all :
      (i : ℕ) (l : LinkShaping) (pod peer_pod peer_intf : String) (targets out : List PodConfig)
      → change_ends {E = E} i l pod peer_pod peer_intf targets ≡ ok out
      → out ≡ add_all (asked l pod peer_pod peer_intf) targets
  unfolding change_ends clear_ends shape_ends
  change_ends-add_all i l pod peer_pod peer_intf targets out h = ground (arith, h)

module _ {E : Type 0} (resolve : String → Result E String) where
  -- What a request asks of a link that it names by one end.
  abbrev pub asked_at : LinkShaping → List LinkSpec → List End
  asked_at l topo = elim (resolve l.node) [
    | err e ↦ []
    | ok pod ↦ elim (link_peer topo pod l.local_intf) [
      | none ↦ []
      | some (peer_pod, peer_intf) ↦ asked l pod peer_pod peer_intf
    ]
  ]

  -- What a request asks of the links it names, link after link.
  abbrev pub asked_all : List LinkShaping → List LinkSpec → List End
  asked_all [] topo = []
  asked_all (l ∷ links) topo = asked_at l topo ++ asked_all links topo

  pub resolve_at-eq-ok :
      (i : ℕ) (ref pod : String) → resolve_at resolve i ref ≡ ok pod → resolve ref ≡ ok pod
  unfolding resolve_at
  resolve_at-eq-ok i ref pod h = ground (arith, h)

  asked_at-eq :
      (l : LinkShaping) (topo : List LinkSpec) (pod peer_pod peer_intf : String)
      → resolve l.node ≡ ok pod
      → link_peer topo pod l.local_intf ≡ some (peer_pod, peer_intf)
      → asked_at l topo ≡ asked l pod peer_pod peer_intf
  asked_at-eq l topo pod peer_pod peer_intf r c = rw (asked_at, r) (rw c refl)

  expand_link-add_all :
      (i : ℕ) (l : LinkShaping) (topo : List LinkSpec) (targets out : List PodConfig)
      → expand_link resolve i l topo targets ≡ ok out
      → out ≡ add_all (asked_at l topo) targets
  unfolding expand_link
  expand_link-add_all i l topo targets out h =
      let (_, _, h0) = >>=-eq-ok (refuse (is_empty l.node || is_empty l.local_intf) _) _ h in
      let (pod, r, h1) = >>=-eq-ok (resolve_at resolve i l.node) _ h0 in
      elim (Option-cases (link_peer topo pod l.local_intf)) [
        | inl c ↦ cc (rw c at h1)
        | inr ((peer_pod, peer_intf), c) ↦
            let (_, _, h2) =
              >>=-eq-ok (check_peer_node resolve i l.peer_node peer_pod) _ (rw c at h1) in
            let (_, _, h3) =
              >>=-eq-ok (refuse (not (is_empty l.peer_intf) && l.peer_intf != peer_intf) _) _ h2 in
            change_ends-add_all i l pod peer_pod peer_intf targets out h3
            ∙ ap (λ ends. add_all ends targets)
                (sym
                  (asked_at-eq l topo pod peer_pod peer_intf (resolve_at-eq-ok i l.node pod r) c))
      ]

  expand_links-add_all :
      (i : ℕ) (links : List LinkShaping) (topo : List LinkSpec) (targets out : List PodConfig)
      → expand_links resolve i links topo targets ≡ ok out
      → out ≡ add_all (asked_all links topo) targets
  unfolding expand_links
  expand_links-add_all i [] topo targets out h = ground (arith, h)
  expand_links-add_all i (l ∷ links) topo targets out h =
      let (next, h0, h1) = >>=-eq-ok (expand_link resolve i l topo targets) _ h in
      expand_links-add_all (suc i) links topo next out h1
      ∙ ap (add_all (asked_all links topo)) (expand_link-add_all i l topo targets next h0)
      ∙ sym (add_all-append (asked_at l topo) (asked_all links topo) targets)

  -- When the links section of a request is accepted, each pod is the target of one entry at most,
  -- and the actions of its entry are exactly those that the links ask of it, in the order of the
  -- links, on a link's own end before its peer's.
  pub actions_of-expand_link_shaping :
      (links : List LinkShaping) (topo : List LinkSpec) (out : List PodConfig)
      → expand_link_shaping resolve links topo ≡ ok out
      → Distinct (pods out) × ((p : String) → actions_of p out ≡ at_pod p (asked_all links topo))
  unfolding expand_link_shaping
  actions_of-expand_link_shaping links topo out h =
      rw (expand_links-add_all 0 links topo [] out h) (
        add_all-Distinct (asked_all links topo) [] tt,
        λ p. actions_of-add_all p (asked_all links topo) [],
      )
