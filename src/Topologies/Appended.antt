-- ===== src/Topologies/Appended.antt =====
-- Which entries upsertAppendLinksInTopologies of backend/helpers/network_modify.go appends to an
-- object, told by the fields of the entries.
use kubendt.Prelude.{
  ◌≡◌, refl, sym, Bool, true, false, Bool-cases, inl, inr, List, [], ◌∷◌, ◌++◌, ◌&&◌, ◌||◌, ◌==◌,
  string_eq, contains, All, All-append, append, no_bar, bar_injective, arith,
}
use mathlib.Core.List.{append_assoc}
use kubendt.Topologies.{Entry}
use kubendt.Topologies.Upserts.{topology_link_key, full_keys}
use kubendt.Topologies.Upserted.{fresh, full_keys-append}

-- The same interfaces, addresses and peer pod.
abbrev pub same_link : Entry → Entry → Bool
same_link f e =
    f.local_intf == e.local_intf
    && f.local_ip == e.local_ip
    && f.peer_pod == e.peer_pod
    && f.peer_intf == e.peer_intf
    && f.peer_ip == e.peer_ip

abbrev pub holds : List Entry → Entry → Bool
holds [] e = false
holds (f ∷ es) e = same_link f e || holds es e

-- No field in front of another holds a bar.
abbrev pub IsPlain : Entry → Type 0
IsPlain e =
    (no_bar e.local_intf ≡ true)
    × (no_bar e.local_ip ≡ true)
    × (no_bar e.peer_pod ≡ true)
    × (no_bar e.peer_intf ≡ true)

topology_link_key-same_link :
    (f e : Entry)
    → IsPlain f
    → IsPlain e
    → topology_link_key f ≡ topology_link_key e
    → same_link f e ≡ true
unfolding topology_link_key
topology_link_key-same_link f e p q h =
    let (a, rest) = bar_injective f.local_intf e.local_intf _ _ p.0 q.0 h in
    let (b, rest') = bar_injective f.local_ip e.local_ip _ _ p.1 q.1 rest in
    let (c, rest'') = bar_injective f.peer_pod e.peer_pod _ _ p.2 q.2 rest' in
    let (d, last) = bar_injective f.peer_intf e.peer_intf _ _ p.3 q.3 rest'' in
    ground (
      arith,
      string_eq.beq_iff f.local_intf e.local_intf,
      string_eq.beq_iff f.local_ip e.local_ip,
      string_eq.beq_iff f.peer_pod e.peer_pod,
      string_eq.beq_iff f.peer_intf e.peer_intf,
      string_eq.beq_iff f.peer_ip e.peer_ip,
      a,
      b,
      c,
      d,
      last,
    )

same_link-topology_link_key :
    (f e : Entry) → same_link f e ≡ true → topology_link_key f ≡ topology_link_key e
unfolding topology_link_key
same_link-topology_link_key f e h =
    let a : f.local_intf ≡ e.local_intf =
      ground (arith, h, string_eq.beq_iff f.local_intf e.local_intf) in
    let b : f.local_ip ≡ e.local_ip = ground (arith, h, string_eq.beq_iff f.local_ip e.local_ip) in
    let c : f.peer_pod ≡ e.peer_pod = ground (arith, h, string_eq.beq_iff f.peer_pod e.peer_pod) in
    let d : f.peer_intf ≡ e.peer_intf =
      ground (arith, h, string_eq.beq_iff f.peer_intf e.peer_intf) in
    let l : f.peer_ip ≡ e.peer_ip = ground (arith, h, string_eq.beq_iff f.peer_ip e.peer_ip) in
    λ i. append (a i) (
      append "|"
        (append (b i) (append "|" (append (c i) (append "|" (append (d i) (append "|" (l i))))))))

contains-holds :
    (es : List Entry) (e : Entry)
    → All IsPlain es
    → IsPlain e
    → contains (full_keys es) (topology_link_key e) ≡ holds es e
contains-holds [] e p q = refl
contains-holds (f ∷ es) e (p, ps) q = ground (
  arith,
  contains-holds es e ps q,
  string_eq.beq_iff (topology_link_key f) (topology_link_key e),
  topology_link_key-same_link f e p q,
  same_link-topology_link_key f e,
)

holds-append : (es fs : List Entry) (e : Entry) → holds (es ++ fs) e ≡ (holds es e || holds fs e)
holds-append [] fs e = refl
holds-append (g ∷ es) fs e = ground (arith, holds-append es fs e)

same_link_self : (e : Entry) → same_link e e ≡ true
same_link_self e = ground (
  arith,
  string_eq.beq_iff e.local_intf e.local_intf,
  string_eq.beq_iff e.local_ip e.local_ip,
  string_eq.beq_iff e.peer_pod e.peer_pod,
  string_eq.beq_iff e.peer_intf e.peer_intf,
  string_eq.beq_iff e.peer_ip e.peer_ip,
)

-- In the same order, with some left out.
pub data Sub : List Entry → List Entry → Type 0 where
  empty : Sub [] []
  left_out : (e : Entry) (es fs : List Entry) → Sub es fs → Sub es (e ∷ fs)
  taken_in : (e : Entry) (es fs : List Entry) → Sub es fs → Sub (e ∷ es) (e ∷ fs)

abbrev pub AllNew : List Entry → List Entry → Type 0
AllNew before [] = Unit
AllNew before (e ∷ es) = (holds before e ≡ false) × AllNew (before ++ (e ∷ [])) es

-- What is appended to an object: some of the wanted entries, in order, each new and once, and no
-- wanted entry is missing then.
pub record IsAppended (existing added tail : List Entry) : Type 0 where
  pub order : Sub tail added
  pub fresh_links : AllNew existing tail
  pub complete : All (λ e. holds (existing ++ tail) e ≡ true) added

pub fresh-IsAppended :
    (existing added : List Entry)
    → All IsPlain existing
    → All IsPlain added
    → IsAppended existing added (fresh (full_keys existing) added)
fresh-IsAppended existing [] ps qs = record { order = empty; fresh_links = tt; complete = tt }
fresh-IsAppended existing (e ∷ added) ps (q, qs) =
    elim (Bool-cases (contains (full_keys existing) (topology_link_key e))) [
      | inl c ↦
          let ih = fresh-IsAppended existing added ps qs in
          let tail = fresh (full_keys existing) added in
          let known : holds (existing ++ tail) e ≡ true =
            ground (arith, c, contains-holds existing e ps q, holds-append existing tail e) in
          rw c record {
            order = left_out e _ added ih.order;
            fresh_links = ih.fresh_links;
            complete = (known, ih.complete);
          }
      | inr c ↦
          let more = All-append IsPlain existing (e ∷ []) ps (q, tt) in
          let ih = fresh-IsAppended (existing ++ (e ∷ [])) added more qs in
          let rest = fresh (full_keys (existing ++ (e ∷ []))) added in
          let known : holds (existing ++ (e ∷ rest)) e ≡ true =
            ground (arith, holds-append existing (e ∷ rest) e, same_link_self e) in
          let shifted = append_assoc existing (e ∷ []) rest in
          let whole : IsAppended existing (e ∷ added) (e ∷ rest) = record {
            order = taken_in e _ added ih.order;
            fresh_links = (ground (arith, c, contains-holds existing e ps q), ih.fresh_links);
            complete = (known, rw shifted at (ih.complete));
          } in
          rw (c, sym (full_keys-append existing (e ∷ []))) whole
    ]
