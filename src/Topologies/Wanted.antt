-- ===== src/Topologies/Wanted.antt =====
-- upsertAppendLinksInTopologies of backend/helpers/network_modify.go, against what the links of a
-- request ask of one pod.
use kubendt.Prelude.{
  ℕ, ℤ, String, ◌≡◌, ◌≢◌, refl, ap, sym, ◌∙◌, Bool, Bool-cases, Option, none, some, is_some, inl,
  inr, List, [], ◌∷◌, ◌++◌, if◌then◌else◌, not, ◌==◌, string_eq, lookup, contains, All, length,
}
use mathlib.Core.List.{append_assoc, append-nil}
use kubendt.Types.{NodeSpec, LinkSpec}
use kubendt.Types.Addresses.{first}
use kubendt.Names.{
  external_node_name, crd_external_peer_pod, resolve_pod_name_from_link, to_crd_peer_pod,
}
use kubendt.Topologies.{Entry}
use kubendt.Topologies.Upserts.{
  collect_links, uid_of, Additions, add_node_side, add_peer_side, no_additions, Stored,
  upsert_append_links_in_topologies,
}
use kubendt.Topologies.Upserted.{
  is_nil, after_upsert, written, lookup-upsert_append_links_in_topologies,
}
use kubendt.Topologies.Agreed.{entries_of, add_node_side-at, add_peer_side-at}
use kubendt.Topologies.Appended.{IsPlain, IsAppended, fresh-IsAppended}

abbrev crd_name : String → String
crd_name pod = if pod == external_node_name then crd_external_peer_pod else pod

-- What one link asks of the pod: an entry for each of its ends there.
abbrev pub asked : String → String → String → ℤ → LinkSpec → List Entry
asked pod node peer uid link =
    (if node == pod
      then (record {
        local_intf = link.local_intf;
        local_ip = first link.local_ip;
        peer_pod = crd_name peer;
        peer_intf = link.peer_intf;
        peer_ip = first link.peer_ip;
        uid = some uid;
      })
        ∷ []
      else [])
    ++ (if peer == pod
        then (record {
          local_intf = link.peer_intf;
          local_ip = first link.peer_ip;
          peer_pod = crd_name node;
          peer_intf = link.local_intf;
          peer_ip = first link.local_ip;
          uid = some uid;
        })
          ∷ []
        else [])

abbrev pub wanted : (ℕ → ℤ) → List NodeSpec → String → List LinkSpec → List Entry
wanted draw nodes pod [] = []
wanted draw nodes pod (link ∷ links) =
    asked pod (resolve_pod_name_from_link link.node nodes)
      (resolve_pod_name_from_link link.peer_node nodes)
      (elim link.uid [ some u ↦ u | none ↦ draw (length links) ]) link
    ++ wanted draw nodes pod links

-- An object that stands keeps its entries and gets more behind them.
pub record Extends (existing asks : List Entry) (after : Option (List Entry)) (told : Bool)
    : Type 0 where
  pub tail : List Entry
  pub appended : IsAppended existing asks tail
  pub object : after ≡ some (existing ++ tail)
  pub reported : told ≡ not (is_nil tail)

-- A pod without an object gets one with all that is asked.
abbrev pub Upserted : Option (List Entry) → List Entry → Option (List Entry) → Bool → Type 0
Upserted none asks after told = (entries_of after ≡ asks) × (told ≡ is_some after)
Upserted (some existing) asks after told = Extends existing asks after told

Upserted_lem :
    (found added : Option (List Entry))
    → All IsPlain (entries_of found)
    → All IsPlain (entries_of added)
    → Upserted found (entries_of added) (after_upsert added found) (written added found)
Upserted_lem none none p q = (refl, refl)
Upserted_lem none (some added) p q = (refl, refl)
Upserted_lem (some ex) none p q = record {
  tail = [];
  appended = fresh-IsAppended ex [] p tt;
  object = ap some (sym (append-nil ex));
  reported = refl;
}
Upserted_lem (some ex) (some added) p q = record {
  tail = _;
  appended = fresh-IsAppended ex added p q;
  object = refl;
  reported = refl;
}

module _ (pod : String) (real : pod ≢ external_node_name) where
  step-asked :
      (node peer : String) (uid : ℤ) (link : LinkSpec) (m : Additions)
      → entries_of (
          lookup pod
            (add_peer_side node peer uid link (add_node_side node peer uid link m)).pod_links)
        ≡ entries_of (lookup pod m.pod_links) ++ asked pod node peer uid link
  unfolding to_crd_peer_pod
  step-asked node peer uid link m =
      let near = add_node_side node peer uid link m in
      let (one, _) = add_node_side-at pod real node peer uid link m in
      let (two, _) = add_peer_side-at pod real node peer uid link near in
      elim (Bool-cases (node == pod)) [
        | inl n ↦ elim (Bool-cases (peer == pod)) [
          | inl p ↦ rw (two, one, n, p) (append_assoc (entries_of (lookup pod m.pod_links)) _ _)
          | inr p ↦ rw (two, one, n, p) refl
        ]
        | inr n ↦ elim (Bool-cases (peer == pod)) [
          | inl p ↦ rw (two, one, n, p) refl
          | inr p ↦ rw (two, one, n, p) (sym (append-nil _))
        ]
      ]

  collect_links-wanted :
      (draw : ℕ → ℤ) (nodes : List NodeSpec) (links : List LinkSpec) (m : Additions)
      → entries_of (lookup pod (collect_links draw nodes links m).pod_links)
        ≡ entries_of (lookup pod m.pod_links) ++ wanted draw nodes pod links
  unfolding collect_links uid_of
  collect_links-wanted draw nodes [] m = sym (append-nil _)
  collect_links-wanted draw nodes (link ∷ links) m =
      let node = resolve_pod_name_from_link link.node nodes in
      let peer = resolve_pod_name_from_link link.peer_node nodes in
      let uid = uid_of draw (length links) link in
      let near = add_node_side node peer uid link m in
      collect_links-wanted draw nodes links (add_peer_side node peer uid link near)
      ∙ ap (λ es. es ++ wanted draw nodes pod links) (step-asked node peer uid link m)
      ∙ append_assoc (entries_of (lookup pod m.pod_links)) (asked pod node peer uid link)
          (wanted draw nodes pod links)

-- An upsert asks of a pod, not the outside, one entry for each end that a link has there, with the
-- link's interfaces, first addresses, the other pod as objects name it, and the link's uid or the
-- one drawn for it. An object that stands keeps its entries and gets some of these behind them, in
-- order, such that none has the interfaces, addresses and peer pod of an entry before it, and for
-- every one asked for some entry of the object has them; the pod is reported when it got any. A pod
-- without an object gets all of them, and is reported when it got an object. In the entries of the
-- object and in those asked for, no interface or peer pod and no first address of the own end holds
-- a bar.
pub upsert_append_links_in_topologies-Upserted :
    (draw : ℕ → ℤ) (links : List LinkSpec) (nodes : List NodeSpec) (s : Stored) (pod : String)
    → pod ≢ external_node_name
    → All IsPlain (entries_of (lookup pod s.objects))
    → All IsPlain (wanted draw nodes pod links)
    → let (touched, after) = upsert_append_links_in_topologies draw links nodes s in
      Upserted
        (lookup pod s.objects)
        (wanted draw nodes pod links)
        (lookup pod after.objects)
        (contains touched pod)
unfolding no_additions
upsert_append_links_in_topologies-Upserted draw links nodes s pod real p q =
    let (found, told) = lookup-upsert_append_links_in_topologies draw links nodes s pod in
    let same = collect_links-wanted pod real draw nodes links no_additions in
    let added = lookup pod (collect_links draw nodes links no_additions).pod_links in
    rw (found, told, sym same) (Upserted_lem (lookup pod s.objects) added p (rw (sym same) at q))
