-- ===== src/Rows/Stepwise.antt =====
-- The statements on the table one after the other, beside what a whole operation makes of it.
use kubendt.Prelude.{
  ◌≡◌, refl, ◌∙◌, ap, arith, Bool-cases, inl, inr, Eq, Bool, true, false, not, ◌&&◌, String, Option,
  none, some, List, [], ◌∷◌, ◌||◌, ℤ, pos, is_some, ◌==◌, string_eq, int_eq, pair_eq, if◌then◌else◌,
}
use kubendt.Types.{NodeSpec, LinkSpec}
use kubendt.Names.{resolve_pod_name_from_link}
use kubendt.Attributes.{attrs_of, attrs_empty}
use kubendt.Rows.{encode_addrs, RowKey, LinkRow, row_key, row_of, peer_of, on_ends, on_pod, mtu_row}
use kubendt.Rows.View.{View, without, with_row, updated, own_key, peer_key}
use kubendt.Names.Resolution.{resolve_pod_name_from_link_lem}
use kubendt.Types.Addresses.{extra}
use kubendt.Attributes.{has_shaping, nothing_in}
use kubendt.Rows.Ops.{
  replay_save, replay_forget_links, replay_forget_pods, replay_set_mtu, declares, declared_row,
  on_links, on_pods, last_at, more_than_one, later_addresses, new_row,
}

module _ (marshal : List String → String) (cluster : String) where
  abbrev pub stepwise_save : String → List LinkSpec → List NodeSpec → View → View
  stepwise_save namespace [] nodes v = v
  stepwise_save namespace (l ∷ links) nodes v =
      let key = row_key cluster namespace l nodes in
      stepwise_save namespace links nodes (
        if attrs_empty (attrs_of l)
        then without (λ k r. k == key) v
        else with_row key (row_of marshal l nodes) v)

  abbrev pub stepwise_forget_links : String → List LinkSpec → List NodeSpec → View → View
  stepwise_forget_links namespace [] nodes v = v
  stepwise_forget_links namespace (l ∷ links) nodes v =
      let own = resolve_pod_name_from_link l.node nodes in
      stepwise_forget_links namespace links nodes
        (without (on_ends cluster namespace own l.local_intf (peer_of l nodes) l.peer_intf) v)

  abbrev pub stepwise_forget_pods : String → List String → View → View
  stepwise_forget_pods namespace [] v = v
  stepwise_forget_pods namespace (pod ∷ pods) v =
      stepwise_forget_pods namespace pods (without (on_pod cluster namespace pod) v)

  -- The row of either end has the MTU; where neither has a row, the first end gets one, unless the
  -- MTU is cleared.
  abbrev pub stepwise_set_mtu : String → String → String → String → String → ℤ → View → View
  stepwise_set_mtu namespace pod iface peer peer_intf mtu v =
      let own = own_key cluster namespace pod iface peer peer_intf in
      let other = peer_key cluster namespace pod iface peer peer_intf in
      let set = updated mtu (on_ends cluster namespace pod iface peer peer_intf) v in
      if (is_some (v own) || is_some (v other)) || mtu == pos 0
      then set
      else with_row own (mtu_row peer peer_intf mtu) set

beq_comm : {A : Type 0} ⦃e : Eq A⦄ (a b : A) → (a == b) ≡ (b == a)
beq_comm ⦃e⦄ a b = ground (arith, e.beq_iff a b, e.beq_iff b a)

without-without :
    (p q r : RowKey → LinkRow → Bool) (v : View)
    → ((k : RowKey) (s : LinkRow) → (p k s || q k s) ≡ r k s)
    → (k : RowKey) → without q (without p v) k ≡ without r v k
without-without p q r v h k = by_entry (v k)
  where
    by_entry :
        (o : Option LinkRow)
        → elim (elim o as (λ x. Option LinkRow) [
          | none ↦ none
          | some s ↦ if p k s then none else some s
        ])
            as (λ x. Option LinkRow) [ none ↦ none | some s ↦ if q k s then none else some s ]
          ≡ elim o as (λ x. Option LinkRow) [
            | none ↦ none
            | some s ↦ if r k s then none else some s
          ]
    by_entry none = refl
    by_entry (some s) = ground (arith, h k s)

without_at :
    (key k : RowKey) (v : View) → without (λ k' r. k' == key) v k ≡ (if key == k then none else v k)
without_at key k v = by_entry (v k)
  where
    by_entry :
        (o : Option LinkRow)
        → elim o as (λ x. Option LinkRow) [
          | none ↦ none
          | some s ↦ if k == key then none else some s
        ]
          ≡ (if key == k then none else o)
    by_entry none = ground arith
    by_entry (some s) = rw (beq_comm k key) refl

either_key :
    (cluster namespace pod iface peer peer_intf : String) (k : RowKey) (r : LinkRow)
    → on_ends cluster namespace pod iface peer peer_intf k r ≡ (
        k == ((cluster, namespace), (pod, iface)) || k == ((cluster, namespace), (peer, peer_intf)))
unfolding on_ends
either_key cluster namespace pod iface peer peer_intf k r = ground arith

without_none :
    (r : RowKey → LinkRow → Bool) (v : View)
    → ((k : RowKey) (s : LinkRow) → r k s ≡ false)
    → (k : RowKey) → v k ≡ without r v k
without_none r v h k = by_entry (v k)
  where
    by_entry :
        (o : Option LinkRow)
        → o ≡ elim o as (λ x. Option LinkRow) [
          | none ↦ none
          | some s ↦ if r k s then none else some s
        ]
    by_entry none = refl
    by_entry (some s) = rw (h k s) refl

module _ (marshal : List String → String) (cluster : String) where
  pub stepwise_forget_pods-replay :
      (namespace : String) (pods : List String) (v : View)
      → stepwise_forget_pods marshal cluster namespace pods v
        ≡ replay_forget_pods marshal cluster namespace pods v
  unfolding on_pod
  stepwise_forget_pods-replay namespace [] v =
      λ i. λ k. (without_none (on_pods marshal cluster namespace []) v (λ k' s. ground arith) k) i
  stepwise_forget_pods-replay namespace (pod ∷ pods) v =
      stepwise_forget_pods-replay namespace pods (without (on_pod cluster namespace pod) v) ∙ λ i.
      λ k.
        (without-without (on_pod cluster namespace pod) (on_pods marshal cluster namespace pods)
            (on_pods marshal cluster namespace (pod ∷ pods)) v
            (λ k' s. ground (
              arith,
              string_eq.beq_iff k'.1.0 pod,
              string_eq.beq_iff pod k'.1.0,
              string_eq.beq_iff s.peer_node pod,
              string_eq.beq_iff pod s.peer_node,
            ))
            k)
          i

  peer_of-resolve :
      (l : LinkSpec) (nodes : List NodeSpec)
      → peer_of l nodes ≡ resolve_pod_name_from_link l.peer_node nodes
  unfolding peer_of
  peer_of-resolve l nodes = ground (arith, resolve_pod_name_from_link_lem l.peer_node nodes)

  pub stepwise_forget_links-replay :
      (namespace : String) (links : List LinkSpec) (nodes : List NodeSpec) (v : View)
      → stepwise_forget_links marshal cluster namespace links nodes v
        ≡ replay_forget_links marshal cluster namespace links nodes v
  unfolding on_ends
  stepwise_forget_links-replay namespace [] nodes v = λ i.
      λ k. (without_none (on_links marshal cluster namespace [] nodes) v (λ k' s. ground arith) k) i
  stepwise_forget_links-replay namespace (l ∷ links) nodes v =
      let own = resolve_pod_name_from_link l.node nodes in
      let gone = on_ends cluster namespace own l.local_intf (peer_of l nodes) l.peer_intf in
      stepwise_forget_links-replay namespace links nodes (without gone v) ∙ λ i. λ k.
        (without-without gone (on_links marshal cluster namespace links nodes)
            (on_links marshal cluster namespace (l ∷ links) nodes) v
            (λ k' s. ground (
              arith,
              peer_of-resolve l nodes,
              string_eq.beq_iff k'.1.0 own,
              string_eq.beq_iff own k'.1.0,
              string_eq.beq_iff k'.1.1 l.local_intf,
              string_eq.beq_iff l.local_intf k'.1.1,
              string_eq.beq_iff k'.1.0 (peer_of l nodes),
              string_eq.beq_iff (peer_of l nodes) k'.1.0,
              string_eq.beq_iff k'.1.1 l.peer_intf,
              string_eq.beq_iff l.peer_intf k'.1.1,
            ))
            k)
          i

  encode_addrs-extra :
      (addrs : List String)
      → encode_addrs marshal (extra addrs) ≡ later_addresses marshal cluster addrs
  unfolding encode_addrs extra
  encode_addrs-extra [] = refl
  encode_addrs-extra (a ∷ []) = refl
  encode_addrs-extra (a ∷ b ∷ more) = refl

  nothing_in-extra :
      (addrs : List String) → nothing_in (extra addrs) ≡ not (more_than_one marshal cluster addrs)
  unfolding nothing_in extra
  nothing_in-extra [] = refl
  nothing_in-extra (a ∷ []) = refl
  nothing_in-extra (a ∷ b ∷ more) = refl

  declared_row-row_of :
      (l : LinkSpec) (nodes : List NodeSpec)
      → row_of marshal l nodes ≡ declared_row marshal cluster l nodes
  unfolding row_of attrs_of
  declared_row-row_of l nodes = λ i. record {
    peer_node = peer_of-resolve l nodes i;
    peer_intf = l.peer_intf;
    delay = l.delay;
    jitter = l.jitter;
    loss = l.loss;
    bandwidth = l.bandwidth;
    mtu = l.mtu;
    local_addresses = encode_addrs-extra l.local_ip i;
    peer_addresses = encode_addrs-extra l.peer_ip i;
  }

  attrs_empty-declares :
      (l : LinkSpec) → attrs_empty (attrs_of l) ≡ not (declares marshal cluster l)
  unfolding attrs_empty attrs_of has_shaping
  attrs_empty-declares l = ground (arith, nothing_in-extra l.local_ip, nothing_in-extra l.peer_ip)

  -- What the statements for one link leave under a key.
  saved_at :
      (key k : RowKey) (l : LinkSpec) (nodes : List NodeSpec) (v : View)
      → (if attrs_empty (attrs_of l)
            then without (λ k' r. k' == key) v
            else with_row key (row_of marshal l nodes) v)
          k
        ≡ (if key == k
            then (if declares marshal cluster l
                then some (declared_row marshal cluster l nodes)
                else none)
            else v k)
  saved_at key k l nodes v = elim (Bool-cases (declares marshal cluster l)) [
    | inl d ↦
        let full : attrs_empty (attrs_of l) ≡ false = rw (attrs_empty-declares l, d) refl in
        rw (full, d, declared_row-row_of l nodes) refl
    | inr d ↦
        let blank : attrs_empty (attrs_of l) ≡ true = rw (attrs_empty-declares l, d) refl in
        rw (blank, d) (without_at key k v)
  ]

  abbrev declared : LinkSpec → List NodeSpec → Option LinkRow
  declared l nodes =
      if declares marshal cluster l then some (declared_row marshal cluster l nodes) else none

  last_wins :
      (in_namespace here hit : Bool) (last : Option LinkSpec) (saved before : Option LinkRow)
      (l : LinkSpec) (nodes : List NodeSpec)
      → saved ≡ (if hit then declared l nodes else before)
      → hit ≡ (in_namespace && here)
      → (if in_namespace
          then elim last as (λ x. Option LinkRow) [ none ↦ saved | some m ↦ declared m nodes ]
          else saved)
        ≡ (if in_namespace
            then elim (elim last as (λ x. Option LinkSpec) [
              | some m ↦ some m
              | none ↦ if here then some l else none
            ])
                as (λ x. Option LinkRow) [ none ↦ before | some m ↦ declared m nodes ]
            else before)
  last_wins true true hit none saved before l nodes s h =
      s ∙ ap (λ b. if b then declared l nodes else before) h
  last_wins true false hit none saved before l nodes s h =
      s ∙ ap (λ b. if b then declared l nodes else before) h
  last_wins true here hit (some m) saved before l nodes s h = refl
  last_wins false here hit last saved before l nodes s h =
      s ∙ ap (λ b. if b then declared l nodes else before) h

  stepwise_save_cons :
      (namespace : String) (l : LinkSpec) (links : List LinkSpec) (nodes : List NodeSpec) (v : View)
      → (k : RowKey)
      → replay_save marshal cluster namespace links nodes
          (if attrs_empty (attrs_of l)
            then without (λ k' r. k' == row_key cluster namespace l nodes) v
            else with_row (row_key cluster namespace l nodes) (row_of marshal l nodes) v)
          k
        ≡ replay_save marshal cluster namespace (l ∷ links) nodes v k
  unfolding row_key
  stepwise_save_cons namespace l links nodes v k =
      let key = row_key cluster namespace l nodes in
      let own = resolve_pod_name_from_link l.node nodes in
      let hit : (key == k) ≡ (k.0 == (cluster, namespace) && (own, l.local_intf) == k.1) = ground (
        arith,
        string_eq.beq_iff k.0.0 cluster,
        string_eq.beq_iff cluster k.0.0,
        string_eq.beq_iff k.0.1 namespace,
        string_eq.beq_iff namespace k.0.1,
      ) in
      last_wins (k.0 == (cluster, namespace)) ((own, l.local_intf) == k.1) (key == k)
        (last_at marshal cluster links nodes k.1) _ (v k) l nodes (saved_at key k l nodes v) hit

  pub stepwise_save-replay :
      (namespace : String) (links : List LinkSpec) (nodes : List NodeSpec) (v : View)
      → stepwise_save marshal cluster namespace links nodes v
        ≡ replay_save marshal cluster namespace links nodes v
  stepwise_save-replay namespace [] nodes v = λ i. λ k. (same k) i
    where
      same : (k : RowKey) → v k ≡ replay_save marshal cluster namespace [] nodes v k
      same k = ground arith
  stepwise_save-replay namespace (l ∷ links) nodes v =
      stepwise_save-replay namespace links nodes _ ∙ λ i.
      λ k. (stepwise_save_cons namespace l links nodes v k) i

  pub stepwise_set_mtu-replay :
      (namespace pod iface peer peer_intf : String) (mtu : ℤ) (v : View)
      → stepwise_set_mtu marshal cluster namespace pod iface peer peer_intf mtu v
        ≡ replay_set_mtu marshal cluster namespace pod iface peer peer_intf mtu v
  unfolding on_ends mtu_row
  stepwise_set_mtu-replay namespace pod iface peer peer_intf mtu v =
      let own : RowKey = ((cluster, namespace), (pod, iface)) in
      let other : RowKey = ((cluster, namespace), (peer, peer_intf)) in
      let same : on_ends cluster namespace pod iface peer peer_intf
          ≡ (λ k r. k == own || k == other) =
        λ i. λ k r. (either_key cluster namespace pod iface peer peer_intf k r) i in
      ap
        (λ where_.
          if (is_some (v own) || is_some (v other)) || mtu == pos 0
          then updated mtu where_ v
          else with_row own (new_row peer peer_intf mtu) (updated mtu where_ v))
        same
