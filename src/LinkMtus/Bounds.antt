-- ===== src/LinkMtus/Bounds.antt =====
-- The MTUs in the table link_attributes: ValidateLinkMTU of backend/helpers/link_attributes.go before
-- each write of RecordLinkMTUs in backend/helpers/link_shaping.go.
use kubendt.Prelude.{
  ℕ, suc, String, Bool, some, List, [], ◌∷◌, ◌≡◌, arith, All, ◌⊎◌, inl, inr, ℤ, pos, ◌≤ℤ◌, ltb_ℤ,
  int_eq, pair_eq, ◌==◌, ◌||◌, Table, put, string_eq, Bool-cases, Option-cases, Result-cases,
  Result, ok, err, refuse, >>=-eq-ok, lookup,
}
use kubendt.Types.{LinkSpec}
use kubendt.Types.Configure.{LinkShaping}
use kubendt.Names.{external_node_name}
use kubendt.Shaping.{link_peer, link_ips}
use kubendt.Attributes.{min_link_mtu, max_link_mtu, check_ipv6, check_platform, validate_link_mtu}
use kubendt.Rows.{
  RowKey, LinkRow, LinkRows, set_link_mtu, on_ends, update_mtu, any_row, insert_row, mtu_row,
}
use kubendt.LinkMtus.{Recorded, record_found, record_mtu, record_link_mtus}

-- The platform's value, or one within the kernel's range that the cluster carries.
abbrev pub IsMtu : ℤ → ℤ → Type 0
IsMtu most mtu = (mtu ≡ pos 0) ⊎ ((min_link_mtu ≤ℤ mtu) × (mtu ≤ℤ max_link_mtu) × (mtu ≤ℤ most))

validate_link_mtu-IsMtu :
    {E : Type 0} (ip_family : String → ℕ) (most mtu : ℤ) (addrs : List String)
    → validate_link_mtu {E = E} ip_family (ok most) mtu addrs ≡ ok tt
    → IsMtu most mtu
unfolding validate_link_mtu check_platform
validate_link_mtu-IsMtu ip_family most mtu addrs h = elim (Bool-cases (mtu == pos 0)) [
  | inl e ↦ inl ((int_eq.beq_iff mtu (pos 0)).0 e)
  | inr e ↦
      let (_, range, h1) =
        >>=-eq-ok (refuse (ltb_ℤ mtu min_link_mtu || ltb_ℤ max_link_mtu mtu) _) _
          (rw (validate_link_mtu, e) at h) in
      let (_, _, h2) = >>=-eq-ok (check_ipv6 ip_family mtu addrs) _ h1 in
      inr (ground (arith, range), ground (arith, range), ground (arith, h2))
]

-- Every MTU of a table is one that the platform allows.
abbrev pub InBounds : ℤ → LinkRows → Type 0
InBounds most = All (λ (e : RowKey × LinkRow). IsMtu most e.1.mtu)

module _ (most mtu : ℤ) (allowed : IsMtu most mtu) where
  put-InBounds :
      (key : RowKey) (r : LinkRow) (rows : LinkRows)
      → IsMtu most r.mtu
      → InBounds most rows
      → InBounds most (put key r rows)
  put-InBounds key r [] this h = (this, tt)
  put-InBounds key r ((k, s) ∷ rows) this h = elim (Bool-cases (k == key)) [
    | inl e ↦ rw e (this, h.1)
    | inr e ↦ rw e (h.0, put-InBounds key r rows this h.1)
  ]

  update_mtu-InBounds :
      (where_ : RowKey → LinkRow → Bool) (rows : LinkRows)
      → InBounds most rows
      → InBounds most (update_mtu mtu where_ rows)
  unfolding update_mtu
  update_mtu-InBounds where_ [] h = tt
  update_mtu-InBounds where_ ((k, s) ∷ rows) h = elim (Bool-cases (where_ k s)) [
    | inl e ↦ rw e (allowed, update_mtu-InBounds where_ rows h.1)
    | inr e ↦ rw e (h.0, update_mtu-InBounds where_ rows h.1)
  ]

  insert_row-InBounds :
      (key : RowKey) (r : LinkRow) (rows rows' : LinkRows)
      → IsMtu most r.mtu
      → InBounds most rows
      → insert_row key r rows ≡ some rows'
      → InBounds most rows'
  unfolding insert_row
  insert_row-InBounds key r rows rows' this h done = elim (Option-cases (lookup key rows)) [
    | inl e ↦
        let same : put key r rows ≡ rows' = ground (arith, rw (e, insert_row) at done) in
        rw (← same) (put-InBounds key r rows this h)
    | inr (old, e) ↦ cc (rw (e, insert_row) at done)
  ]

  set_link_mtu-InBounds :
      (cluster namespace pod iface peer_pod peer_intf : String) (rows rows' : LinkRows)
      → InBounds most rows
      → set_link_mtu cluster namespace pod iface peer_pod peer_intf mtu rows ≡ some rows'
      → InBounds most rows'
  unfolding set_link_mtu mtu_row
  set_link_mtu-InBounds cluster namespace pod iface peer_pod peer_intf rows rows' h done =
      let where_ = on_ends cluster namespace pod iface peer_pod peer_intf in
      let set = update_mtu-InBounds where_ rows h in
      elim (Bool-cases (any_row where_ rows || mtu == pos 0)) [
        | inl e ↦
            let same : update_mtu mtu where_ rows ≡ rows' =
              ground (arith, rw (set_link_mtu, e) at done) in
            rw (← same) set
        | inr e ↦
            insert_row-InBounds _ (mtu_row peer_pod peer_intf mtu) _ rows' allowed set
              (rw (set_link_mtu, e) at done)
      ]

-- What a link leaves in the table, if anything.
abbrev Leaves : {E : Type 0} → ℤ → Recorded E → Type 0
Leaves most (err e) = Unit
Leaves most (ok (rows, pods)) = InBounds most rows

module _ {E : Type 0} (resolve : String → Result E String) (topo : Result E (List LinkSpec))
    (ip_family : String → ℕ) (most : ℤ) (cluster namespace : String) where
  record_found-Leaves :
      (i : ℕ) (mtu : ℤ) (links : List LinkSpec) (pod iface peer_pod peer_intf : String)
      (rows : LinkRows) (pods : Table String Bool)
      → InBounds most rows
      → Leaves most (
          record_found resolve topo ip_family
            (ok most)
            cluster
            namespace
            i
            mtu
            links
            pod
            iface
            peer_pod
            peer_intf
            rows
            pods)
  unfolding record_found
  record_found-Leaves i mtu links pod iface peer_pod peer_intf rows pods h =
      elim (Bool-cases (peer_pod == external_node_name)) [
        | inl e ↦ rw (record_found, e) tt
        | inr e ↦
            elim (Result-cases
              (validate_link_mtu {E = E} ip_family (ok most) mtu (link_ips links pod iface))) [
                | inl (bad, v) ↦ rw (record_found, e, v) tt
                | inr (fine, v) ↦
                    let allowed =
                      validate_link_mtu-IsMtu ip_family most mtu (link_ips links pod iface) v in
                    elim (Option-cases
                      (set_link_mtu cluster namespace pod iface peer_pod peer_intf mtu rows)) [
                        | inl s ↦ rw (record_found, e, v, s) tt
                        | inr (rows', s) ↦
                            rw (record_found, e, v, s)
                              (set_link_mtu-InBounds most mtu allowed cluster namespace pod iface
                                peer_pod peer_intf rows rows' h s)
                      ]
              ]
      ]

  record_mtu-Leaves :
      (i : ℕ) (mtu : ℤ) (l : LinkShaping) (rows : LinkRows) (pods : Table String Bool)
      → InBounds most rows
      → Leaves most
          (record_mtu resolve topo ip_family (ok most) cluster namespace i mtu l rows pods)
  unfolding record_mtu
  record_mtu-Leaves i mtu l rows pods h = elim (Result-cases topo) [
    | inl (bad, t) ↦ rw (record_mtu, t) tt
    | inr (links, t) ↦ elim (Result-cases (resolve l.node)) [
      | inl (bad, r) ↦ rw (record_mtu, t, r) tt
      | inr (pod, r) ↦ elim (Option-cases (link_peer links pod l.local_intf)) [
        | inl c ↦ rw (record_mtu, t, r, c) tt
        | inr ((peer_pod, peer_intf), c) ↦
            rw (record_mtu, t, r, c)
              (record_found-Leaves i mtu links pod l.local_intf peer_pod peer_intf rows pods h)
      ]
    ]
  ]

  -- The MTUs of a configure request leave in the table only MTUs that are 0 or lie between 68 and
  -- 65535 and within what the cluster carries, where it held only such before, also when one of its
  -- links is refused after others were recorded.
  pub record_link_mtus-InBounds :
      (i : ℕ) (links : List LinkShaping) (rows : LinkRows) (pods : Table String Bool)
      → InBounds most rows
      → InBounds most
          (record_link_mtus resolve topo ip_family (ok most) cluster namespace i links rows pods).1
  unfolding record_link_mtus
  record_link_mtus-InBounds i [] rows pods h = h
  record_link_mtus-InBounds i (l ∷ links) rows pods h = elim (Option-cases l.mtu) [
    | inl m ↦ rw (record_link_mtus, m) (record_link_mtus-InBounds (suc i) links rows pods h)
    | inr (mtu, m) ↦
        let one = record_mtu resolve topo ip_family (ok most) cluster namespace i mtu l rows pods in
        let left = record_mtu-Leaves i mtu l rows pods h in
        elim (Result-cases one) [
          | inl (bad, r) ↦ rw (record_link_mtus, m, r) h
          | inr ((rows', pods'), r) ↦
              rw (record_link_mtus, m, r)
                (record_link_mtus-InBounds (suc i) links rows' pods' (rw r at left))
        ]
  ]
