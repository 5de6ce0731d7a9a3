-- ===== src/Trace/Indexed.antt =====
-- Which pod an address resolves to.
use kubendt.Prelude.{
  String, ◌≡◌, refl, sym, ap, ◌∙◌, Bool-cases, inl, inr, Option, none, some, List, [], ◌∷◌,
  if◌then◌else◌, ◌&&◌, ◌||◌, Bool, true, false, contains, keys, is_some, Option-cases, select, ◌⊎◌,
  ◌↔◌, beq_refl, ◌==◌, string_eq, Table, lookup, put, lookup-put, arith,
}
use kubendt.Types.{LinkSpec}
use kubendt.Trace.{TraceIpNode}
use kubendt.Trace.Index.{
  Index, declare_links, add_addresses, add_pods, build_trace_ip_index, TracePod, is_running,
  arrived,
}
use kubendt.Trace.Declared.{
  later, later_assoc, nothing_first, declarations, last_declared, declare_links_lem,
}

-- The last of a pod's interfaces with an address, and the last pod that has it.
abbrev owner : String → Table String String → String → Option TraceIpNode
owner pod [] ip = none
owner pod ((a, iface) ∷ addrs) ip =
    later (if a == ip then some (record { pod = pod; iface = iface }) else none)
      (owner pod addrs ip)

abbrev live_owner : List TracePod → String → Option TraceIpNode
live_owner [] ip = none
live_owner (p ∷ pods) ip = later (owner p.name p.addresses ip) (live_owner pods ip)

-- Whether a pod that runs has an address.
abbrev pub has_live : String → List TracePod → Bool
has_live ip [] = false
has_live ip (p ∷ pods) =
    (p.phase == "Running" && contains (keys p.addresses) ip) || has_live ip pods

abbrev pub Member : {A : Type 0} → A → List A → Type 0
Member x [] = ⊥
Member x (y ∷ ys) = (y ≡ x) ⊎ Member x ys

-- The goroutines finish in some order: the same pods.
abbrev pub Reorders : (List TracePod → List TracePod) → Type 0
Reorders order = (pods : List TracePod) (p : TracePod) → Member p (order pods) ↔ Member p pods

add_addresses_lem :
    (pod : String) (addrs : Table String String) (idx : Index) (ip : String)
    → lookup ip (add_addresses pod addrs idx) ≡ later (lookup ip idx) (owner pod addrs ip)
unfolding add_addresses
add_addresses_lem pod [] idx ip = refl
add_addresses_lem pod ((a, iface) ∷ addrs) idx ip =
    let n : TraceIpNode = record { pod = pod; iface = iface } in
    ground (arith, add_addresses_lem pod addrs (put a n idx) ip, lookup-put a ip n idx)

add_pods_lem :
    (pods : List TracePod) (idx : Index) (ip : String)
    → lookup ip (add_pods pods idx) ≡ later (lookup ip idx) (live_owner pods ip)
unfolding add_pods
add_pods_lem [] idx ip = refl
add_pods_lem (p ∷ pods) idx ip =
    rw
      (
        add_pods,
        add_pods_lem pods (add_addresses p.name p.addresses idx) ip,
        add_addresses_lem p.name p.addresses idx ip,
      )
      (sym (later_assoc (lookup ip idx) (owner p.name p.addresses ip) (live_owner pods ip)))

-- The interface that an address was found on.
owner-some :
    (pod ip : String) (addrs : Table String String) (n : TraceIpNode)
    → owner pod addrs ip ≡ some n
    → (iface : String) × Member (ip, iface) addrs × (n ≡ record { pod = pod; iface = iface })
owner-some pod ip [] n h = cc
owner-some pod ip ((a, i) ∷ addrs) n h = elim (Option-cases (owner pod addrs ip)) [
  | inr (m, e) ↦
      let (iface, listed, same) = owner-some pod ip addrs m e in
      let last : n ≡ m = ground (arith, h, e) in (iface, inr listed, last ∙ same)
  | inl e ↦ elim (Bool-cases (a == ip)) [
    | inr x ↦ absurd (ground (arith, h, e, x))
    | inl x ↦
        let here : n ≡ record { pod = pod; iface = i } = ground (arith, h, e, x) in
        (i, inl (λ j. ((string_eq.beq_iff a ip).0 x j, i)), here)
  ]
]

owner-keys :
    (pod ip : String) (addrs : Table String String)
    → is_some (owner pod addrs ip) ≡ contains (keys addrs) ip
owner-keys pod ip [] = refl
owner-keys pod ip ((a, i) ∷ addrs) = ground (arith, owner-keys pod ip addrs)

-- The pod that an address was found in.
live_owner-some :
    (pods : List TracePod) (ip : String) (n : TraceIpNode)
    → live_owner pods ip ≡ some n
    → (p : TracePod) × Member p pods
      × (iface : String) × Member (ip, iface) p.addresses
      × (n ≡ record { pod = p.name; iface = iface })
live_owner-some [] ip n h = cc
live_owner-some (p ∷ pods) ip n h = elim (Option-cases (live_owner pods ip)) [
  | inr (m, e) ↦
      let (q, listed, iface, at, same) = live_owner-some pods ip m e in
      let last : n ≡ m = ground (arith, h, e) in (q, inr listed, iface, at, last ∙ same)
  | inl e ↦
      let here : owner p.name p.addresses ip ≡ some n = ground (arith, h, e) in
      let (iface, at, same) = owner-some p.name ip p.addresses n here in
      (p, inl refl, iface, at, same)
]

live_owner-none :
    (pods : List TracePod) (ip : String) (p : TracePod)
    → live_owner pods ip ≡ none
    → Member p pods
    → contains (keys p.addresses) ip ≡ false
live_owner-none [] ip p h m = absurd m
live_owner-none (q ∷ pods) ip p h (inl same) =
    rw (← same) (ground (arith, h, owner-keys q.name ip q.addresses))
live_owner-none (q ∷ pods) ip p h (inr later_on) =
    live_owner-none pods ip p (ground (arith, h)) later_on

Member-select :
    (pods : List TracePod) (p : TracePod)
    → Member p (select is_running pods)
    → Member p pods × ((p.phase == "Running") ≡ true)
unfolding is_running
Member-select [] p m = absurd m
Member-select (q ∷ pods) p m = elim (Bool-cases (q.phase == "Running")) [
  | inl r ↦ elim (rw r at m) [
    | inl same ↦ (inl same, ap (λ x. x.phase == "Running") (sym same) ∙ r)
    | inr later_on ↦ let (listed, runs) = Member-select pods p later_on in (inr listed, runs)
  ]
  | inr r ↦ let (listed, runs) = Member-select pods p (rw r at m) in (inr listed, runs)
]

select-Member :
    (pods : List TracePod) (p : TracePod)
    → Member p pods
    → (p.phase == "Running") ≡ true
    → Member p (select is_running pods)
unfolding is_running
select-Member [] p m runs = absurd m
select-Member (q ∷ pods) p (inl same) runs =
    let here : (q.phase == "Running") ≡ true = ap (λ x. x.phase == "Running") same ∙ runs in
    rw here (inl same)
select-Member (q ∷ pods) p (inr later_on) runs = elim (Bool-cases (q.phase == "Running")) [
  | inl r ↦ rw r (inr (select-Member pods p later_on runs))
  | inr r ↦ rw r (select-Member pods p later_on runs)
]

has_live-cases :
    (ip : String) (pods : List TracePod)
    → ((p : TracePod)
        → Member p pods
        → (p.phase == "Running") ≡ true
        → contains (keys p.addresses) ip ≡ false)
    → has_live ip pods ≡ false
has_live-cases ip [] h = refl
has_live-cases ip (p ∷ pods) h =
    ground (arith, h p (inl refl), has_live-cases ip pods (λ q m. h q (inr m)))

Member-keys :
    (ip iface : String) (addrs : Table String String)
    → Member (ip, iface) addrs
    → contains (keys addrs) ip ≡ true
Member-keys ip iface [] m = absurd m
Member-keys ip iface ((a, i) ∷ addrs) (inl same) = rw (ap (λ e. e.0) same, beq_refl ip) refl
Member-keys ip iface ((a, i) ∷ addrs) (inr later_on) =
    ground (arith, Member-keys ip iface addrs later_on)

Member-has_live :
    (ip : String) (pods : List TracePod) (p : TracePod)
    → Member p pods
    → (p.phase == "Running") ≡ true
    → contains (keys p.addresses) ip ≡ true
    → has_live ip pods ≡ true
Member-has_live ip [] p m r c = absurd m
Member-has_live ip (q ∷ pods) p (inl same) r c = rw (same, r, c) refl
Member-has_live ip (q ∷ pods) p (inr later_on) r c =
    ground (arith, Member-has_live ip pods p later_on r c)

-- Whatever the order in which the addresses of the running pods come in, an address that one of
-- them has resolves to such a pod and to an interface that it has it on, and an address that none
-- of them has resolves to the last end of a link, at a pod, that declares it, mask or not, and to
-- nothing if no end does.
pub build_trace_ip_index_lem :
    (order : List TracePod → List TracePod) (links : List LinkSpec) (pods : List TracePod)
    (ip : String)
    → Reorders order
    → let found = lookup ip (build_trace_ip_index order links pods) in
      ((has_live ip pods ≡ true)
        × (p : TracePod) × Member p pods
        × (p.phase ≡ "Running")
        × (iface : String) × Member (ip, iface) p.addresses
        × (found ≡ some (record { pod = p.name; iface = iface })))
      ⊎ ((has_live ip pods ≡ false) × (found ≡ last_declared (declarations links) ip))
unfolding build_trace_ip_index
build_trace_ip_index_lem order links pods ip reorders =
    let live = add_pods_lem (arrived order pods) (declare_links links []) ip in
    let declared = declare_links_lem links [] ip in
    elim (Option-cases (live_owner (arrived order pods) ip)) [
      | inr (n, e) ↦
          let (p, came, iface, at, same) = live_owner-some (arrived order pods) ip n e in
          let (listed, runs) =
            Member-select pods p ((reorders (select is_running pods) p).0 came) in
          inl (
            Member-has_live ip pods p listed runs (Member-keys ip iface p.addresses at),
            p,
            listed,
            (string_eq.beq_iff p.phase "Running").0 runs,
            iface,
            at,
            live ∙ rw e (ap some same),
          )
      | inl e ↦ inr (
        has_live-cases ip pods (λ p m r.
            live_owner-none (arrived order pods) ip p e
              ((reorders (select is_running pods) p).1 (select-Member pods p m r))),
        live ∙ rw e (declared ∙ nothing_first _),
      )
    ]
