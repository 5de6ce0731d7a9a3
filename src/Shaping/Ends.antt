-- ===== src/Shaping/Ends.antt =====
-- A link that a request names by one of its ends: linkPeer of backend/helpers/link_shaping.go.
use kubendt.Prelude.{
  String, Bool, true, false, some, List, [], ◌∷◌, ◌≡◌, arith, ◌==◌, ◌||◌, ◌&&◌, not, string_eq,
  pair_eq, eq_iff, Result, ok, Bool-cases, Option-cases, Result-cases, inl, inr, All, All-append,
}
use kubendt.Types.{LinkSpec}
use kubendt.Types.Actions.{ActionEntry}
use kubendt.Types.Configure.{LinkShaping, PodConfig}
use kubendt.Names.{external_node_name}
use kubendt.Shaping.{add_qdisc, del_qdisc, link_peer, expand_link_shaping}
use kubendt.Shaping.Sequences.{
  End, asked, asked_at, asked_all, at_pod, actions_of, actions_of-expand_link_shaping,
}

-- Whether a link ends on pod:iface.
abbrev pub ends_on : List LinkSpec → String → String → Bool
ends_on [] pod iface = false
ends_on (t ∷ topo) pod iface =
    (t.node == pod && t.local_intf == iface)
    || (t.peer_node == pod && t.peer_intf == iface)
    || ends_on topo pod iface

-- No interface of a pod carries two links, nor both ends of one.
abbrev pub OneLinkEach : List LinkSpec → Type 0
OneLinkEach [] = Unit
OneLinkEach (t ∷ topo) =
    ((t.node == t.peer_node && t.local_intf == t.peer_intf) ≡ false)
    × ((t.node == external_node_name || not (ends_on topo t.node t.local_intf)) ≡ true)
    × ((t.peer_node == external_node_name || not (ends_on topo t.peer_node t.peer_intf)) ≡ true)
    × OneLinkEach topo

link_peer-ends_on :
    (topo : List LinkSpec) (pod iface peer_pod peer_intf : String)
    → link_peer topo pod iface ≡ some (peer_pod, peer_intf)
    → (ends_on topo pod iface ≡ true) × (ends_on topo peer_pod peer_intf ≡ true)
unfolding link_peer
link_peer-ends_on [] pod iface peer_pod peer_intf h = cc
link_peer-ends_on (t ∷ topo) pod iface peer_pod peer_intf h = ground (
  arith,
  h,
  link_peer-ends_on topo pod iface peer_pod peer_intf,
  eq_iff t.node peer_pod,
  eq_iff t.peer_node peer_pod,
  eq_iff t.local_intf peer_intf,
  eq_iff t.peer_intf peer_intf,
)

-- An end of a later link is no end of this one.
no_end_of :
    (topo : List LinkSpec) (node intf pod iface : String)
    → (node == external_node_name || not (ends_on topo node intf)) ≡ true
    → (pod == external_node_name) ≡ false
    → ends_on topo pod iface ≡ true
    → (node == pod && intf == iface) ≡ false
no_end_of topo node intf pod iface one x on = elim (Bool-cases (node == pod && intf == iface)) [
  | inr e ↦ e
  | inl e ↦
      let p : node ≡ pod = ground (arith, e, eq_iff node pod) in
      let q : intf ≡ iface = ground (arith, e, eq_iff intf iface) in cc (rw (p, q, x, on) at one)
]

-- Where no interface of a pod carries two links, the peer of a link's end has that end as its own
-- peer, so a link is the same whichever of its two ends names it.
pub link_peer-link_peer :
    (topo : List LinkSpec) (pod iface peer_pod peer_intf : String)
    → OneLinkEach topo
    → (pod == external_node_name) ≡ false
    → (peer_pod == external_node_name) ≡ false
    → link_peer topo pod iface ≡ some (peer_pod, peer_intf)
    → link_peer topo peer_pod peer_intf ≡ some (pod, iface)
unfolding link_peer
link_peer-link_peer [] pod iface peer_pod peer_intf u x y h = cc
link_peer-link_peer (t ∷ topo) pod iface peer_pod peer_intf (self, mine, theirs, u) x y h =
    elim (Bool-cases (t.node == pod && t.local_intf == iface)) [
      | inl e ↦ ground (
        arith,
        h,
        e,
        self,
        eq_iff t.node pod,
        eq_iff t.local_intf iface,
        eq_iff t.node peer_pod,
        eq_iff t.peer_node peer_pod,
        eq_iff t.local_intf peer_intf,
        eq_iff t.peer_intf peer_intf,
      )
      | inr e ↦ elim (Bool-cases (t.peer_node == pod && t.peer_intf == iface)) [
        | inl f ↦ ground (
          arith,
          h,
          e,
          f,
          eq_iff t.peer_node pod,
          eq_iff t.peer_intf iface,
          eq_iff t.node peer_pod,
          eq_iff t.local_intf peer_intf,
        )
        | inr f ↦
            let later : link_peer topo pod iface ≡ some (peer_pod, peer_intf) =
              ground (arith, h, e, f) in
            let (_, on) = link_peer-ends_on topo pod iface peer_pod peer_intf later in
            let a = no_end_of topo t.node t.local_intf peer_pod peer_intf mine y on in
            let b = no_end_of topo t.peer_node t.peer_intf peer_pod peer_intf theirs y on in
            let rest = link_peer-link_peer topo pod iface peer_pod peer_intf u x y later in
            ground (arith, a, b, rest)
      ]
    ]

-- The actions that land on the interface that they name, at an end of a link.
abbrev pub OnLinks : List LinkSpec → List (String × ActionEntry) → Type 0
OnLinks topo = All (λ (end : String × ActionEntry). ends_on topo end.0 end.1.iface ≡ true)

asked-OnLinks :
    (topo : List LinkSpec) (l : LinkShaping) (pod peer_pod peer_intf : String)
    → ends_on topo pod l.local_intf ≡ true
    → ends_on topo peer_pod peer_intf ≡ true
    → OnLinks topo (asked l pod peer_pod peer_intf)
unfolding add_qdisc del_qdisc
asked-OnLinks topo l pod peer_pod peer_intf h k = ground (arith, h, k)

at_pod-OnLinks :
    (topo : List LinkSpec) (p : String) (ends : List End)
    → OnLinks topo ends
    → All (λ a. ends_on topo p a.iface ≡ true) (at_pod p ends)
at_pod-OnLinks topo p [] h = tt
at_pod-OnLinks topo p ((pod, a) ∷ ends) h = elim (Bool-cases (pod == p)) [
  | inl e ↦ rw e (rw ((eq_iff pod p).0 e) at h.0, at_pod-OnLinks topo p ends h.1)
  | inr e ↦ rw e (at_pod-OnLinks topo p ends h.1)
]

module _ {E : Type 0} (resolve : String → Result E String) (topo : List LinkSpec) where
  asked_at-OnLinks : (l : LinkShaping) → OnLinks topo (asked_at resolve l topo)
  asked_at-OnLinks l = elim (Result-cases (resolve l.node)) [
    | inl (bad, r) ↦ rw (asked_at, r) tt
    | inr (pod, r) ↦ elim (Option-cases (link_peer topo pod l.local_intf)) [
      | inl c ↦ rw (asked_at, r) (rw c tt)
      | inr ((peer_pod, peer_intf), c) ↦
          let (mine, theirs) = link_peer-ends_on topo pod l.local_intf peer_pod peer_intf c in
          rw (asked_at, r) (rw c (asked-OnLinks topo l pod peer_pod peer_intf mine theirs))
    ]
  ]

  asked_all-OnLinks : (links : List LinkShaping) → OnLinks topo (asked_all resolve links topo)
  asked_all-OnLinks [] = tt
  asked_all-OnLinks (l ∷ links) =
      All-append _ (asked_at resolve l topo) (asked_all resolve links topo) (asked_at-OnLinks l)
        (asked_all-OnLinks links)

  -- When the links section of a request is accepted, every action it makes for a pod names an
  -- interface of that pod on which a link of the topology ends.
  pub expand_link_shaping-ends_on :
      (links : List LinkShaping) (out : List PodConfig) (p : String)
      → expand_link_shaping resolve links topo ≡ ok out
      → All (λ a. ends_on topo p a.iface ≡ true) (actions_of p out)
  expand_link_shaping-ends_on links out p h =
      rw ((actions_of-expand_link_shaping resolve links topo out h).1 p)
        (at_pod-OnLinks topo p (asked_all resolve links topo) (asked_all-OnLinks links))
