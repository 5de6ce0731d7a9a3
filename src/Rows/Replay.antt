-- ===== src/Rows/Replay.antt =====
-- Runs of the operations on the table link_attributes against an abstract table, a partial function
-- of the key: SaveLinkAttributes, SetLinkMTU and the deletions of backend/helpers/link_attributes.go.
use kubendt.Prelude.{
  String, Bool, true, false, Option, none, some, List, [], ◌∷◌, ◌≡◌, refl, ap, ◌∙◌, arith, not, ℤ,
  lookup, put, keys, Distinct, put-Distinct, select-Distinct, is_some, ◌==◌, string_eq, int_eq,
  pair_eq, if◌then◌else◌,
}
use kubendt.Types.{NodeSpec, LinkSpec}
use kubendt.Names.{resolve_pod_name_from_link}
use kubendt.Attributes.{attrs_of, attrs_empty}
use kubendt.Rows.{
  RowKey, LinkRow, LinkRows, row_key, row_of, peer_of, delete_rows, save_link_attributes, on_ends,
  delete_link_attributes_for_links, on_pod, delete_link_attributes_for_pods,
  delete_namespace_link_attributes, update_mtu, mtu_row, insert_row, set_link_mtu,
}
use kubendt.Rows.View.{
  View, view, without, with_row, with_mtu, updated, view-delete_rows, view-put, lookup-update_mtu,
  keys-update_mtu, own_key, any_row-on_ends,
}
use kubendt.Rows.Stepwise.{
  stepwise_save, stepwise_forget_links, stepwise_forget_pods, stepwise_set_mtu,
  stepwise_save-replay, stepwise_forget_links-replay, stepwise_forget_pods-replay,
  stepwise_set_mtu-replay,
}
use kubendt.Rows.Ops.{
  Op, save, forget_links, forget_pods, forget_namespace, set_mtu, run_op, run_ops, replay_op,
  replay,
}

module _ (marshal : List String → String) (cluster : String) where
  -- Rows with the keys of a table that show a view.
  abbrev pub Shows : LinkRows → View → Type 0
  Shows rows v = Distinct (keys rows) × (view rows ≡ v)

  delete_rows-Shows :
      (where_ : RowKey → LinkRow → Bool) (rows : LinkRows)
      → Distinct (keys rows)
      → Shows (delete_rows where_ rows) (without where_ (view rows))
  unfolding delete_rows
  delete_rows-Shows where_ rows d = (
    select-Distinct (λ (e : RowKey × LinkRow). not (where_ e.0 e.1)) rows d,
    view-delete_rows where_ rows d,
  )

  saved-Shows :
      (blank : Bool) (key : RowKey) (r : LinkRow) (rows : LinkRows)
      → Distinct (keys rows)
      → Shows
          (if blank then delete_rows (λ k s. k == key) rows else put key r rows)
          (if blank then without (λ k s. k == key) (view rows) else with_row key r (view rows))
  saved-Shows true key r rows d = delete_rows-Shows (λ k s. k == key) rows d
  saved-Shows false key r rows d = (put-Distinct key r rows d, view-put key r rows)

  save-Shows :
      (namespace : String) (links : List LinkSpec) (nodes : List NodeSpec) (rows : LinkRows)
      → Distinct (keys rows)
      → Shows
          (save_link_attributes marshal cluster namespace links nodes rows)
          (stepwise_save marshal cluster namespace links nodes (view rows))
  unfolding save_link_attributes
  save-Shows namespace [] nodes rows d = (d, refl)
  save-Shows namespace (l ∷ links) nodes rows d =
      let key = row_key cluster namespace l nodes in
      let (d1, same) = saved-Shows (attrs_empty (attrs_of l)) key (row_of marshal l nodes) rows d in
      let (d2, later) = save-Shows namespace links nodes _ d1 in
      (d2, later ∙ ap (stepwise_save marshal cluster namespace links nodes) same)

  forget_links-Shows :
      (namespace : String) (links : List LinkSpec) (nodes : List NodeSpec) (rows : LinkRows)
      → Distinct (keys rows)
      → Shows
          (delete_link_attributes_for_links cluster namespace links nodes rows)
          (stepwise_forget_links marshal cluster namespace links nodes (view rows))
  unfolding delete_link_attributes_for_links
  forget_links-Shows namespace [] nodes rows d = (d, refl)
  forget_links-Shows namespace (l ∷ links) nodes rows d =
      let gone =
        on_ends cluster namespace (resolve_pod_name_from_link l.node nodes) l.local_intf
          (peer_of l nodes) l.peer_intf in
      let (d1, same) = delete_rows-Shows gone rows d in
      let (d2, later) = forget_links-Shows namespace links nodes (delete_rows gone rows) d1 in
      (d2, later ∙ ap (stepwise_forget_links marshal cluster namespace links nodes) same)

  forget_pods-Shows :
      (namespace : String) (pods : List String) (rows : LinkRows)
      → Distinct (keys rows)
      → Shows
          (delete_link_attributes_for_pods cluster namespace pods rows)
          (stepwise_forget_pods marshal cluster namespace pods (view rows))
  unfolding delete_link_attributes_for_pods
  forget_pods-Shows namespace [] rows d = (d, refl)
  forget_pods-Shows namespace (pod ∷ pods) rows d =
      let gone = on_pod cluster namespace pod in
      let (d1, same) = delete_rows-Shows gone rows d in
      let (d2, later) = forget_pods-Shows namespace pods (delete_rows gone rows) d1 in
      (d2, later ∙ ap (stepwise_forget_pods marshal cluster namespace pods) same)

  -- The operation comes through and shows its replay.
  abbrev pub Implements : Option LinkRows → View → Type 0
  Implements done v = (rows : LinkRows) × (done ≡ some rows) × Shows rows v

  insert_row-Shows :
      (key : RowKey) (r : LinkRow) (rows : LinkRows) (v : View)
      → Shows rows v
      → is_some (v key) ≡ false
      → Implements (insert_row key r rows) (with_row key r v)
  unfolding insert_row
  insert_row-Shows key r rows v (d, same) free =
      let none_there : lookup key rows ≡ none =
        absent (lookup key rows) (ap (λ w. is_some (w key)) same ∙ free) in
      (
        put key r rows,
        rw (insert_row, none_there) refl,
        (put-Distinct key r rows d, view-put key r rows ∙ ap (with_row key r) same),
      )
    where
      absent : (o : Option LinkRow) → is_some o ≡ false → o ≡ none
      absent none h = refl
      absent (some r') h = cc

  insert_unless-Shows :
      (b : Bool) (key : RowKey) (r : LinkRow) (rows : LinkRows) (v : View)
      → Shows rows v
      → (b ≡ false → is_some (v key) ≡ false)
      → Implements
          (if b then some rows else insert_row key r rows)
          (if b then v else with_row key r v)
  insert_unless-Shows true key r rows v shown free = (rows, refl, shown)
  insert_unless-Shows false key r rows v shown free =
      insert_row-Shows key r rows v shown (free refl)

  updated_none :
      (mtu : ℤ) (where_ : RowKey → LinkRow → Bool) (v : View) (k : RowKey)
      → is_some (updated mtu where_ v k) ≡ is_some (v k)
  updated_none mtu where_ v k = by_entry (v k)
    where
      by_entry :
          (o : Option LinkRow)
          → is_some (elim o as (λ x. Option LinkRow) [
            | none ↦ none
            | some r ↦ some (if where_ k r then with_mtu mtu r else r)
          ])
            ≡ is_some o
      by_entry none = refl
      by_entry (some r) = refl

  set_mtu-Shows :
      (namespace pod iface peer peer_intf : String) (mtu : ℤ) (rows : LinkRows)
      → Distinct (keys rows)
      → Implements
          (set_link_mtu cluster namespace pod iface peer peer_intf mtu rows)
          (stepwise_set_mtu marshal cluster namespace pod iface peer peer_intf mtu (view rows))
  unfolding set_link_mtu
  set_mtu-Shows namespace pod iface peer peer_intf mtu rows d =
      let where_ = on_ends cluster namespace pod iface peer peer_intf in
      let own = own_key cluster namespace pod iface peer peer_intf in
      let hit = any_row-on_ends cluster namespace pod iface peer peer_intf rows in
      let shown : Shows (update_mtu mtu where_ rows) (updated mtu where_ (view rows)) = (
        rw (keys-update_mtu mtu where_ rows) d,
        λ i. λ k. (lookup-update_mtu mtu where_ rows k) i,
      ) in
      rw (set_link_mtu, hit)
        (insert_unless-Shows _ own (mtu_row peer peer_intf mtu) (update_mtu mtu where_ rows)
          (updated mtu where_ (view rows)) shown
          (λ nothing. updated_none mtu where_ (view rows) own ∙ ground (arith, nothing)))

  as_replay : (rows : LinkRows) {v w : View} → Shows rows v → v ≡ w → Shows rows w
  as_replay rows (d, same) e = (d, same ∙ e)

  run_op-Implements :
      (op : Op) (rows : LinkRows)
      → Distinct (keys rows)
      → Implements (run_op marshal cluster op rows) (replay_op marshal cluster op (view rows))
  unfolding delete_namespace_link_attributes
  run_op-Implements (save namespace links nodes) rows d = (
    _,
    refl,
    as_replay _ (save-Shows namespace links nodes rows d)
        (stepwise_save-replay marshal cluster namespace links nodes (view rows)),
  )
  run_op-Implements (forget_links namespace links nodes) rows d = (
    _,
    refl,
    as_replay _ (forget_links-Shows namespace links nodes rows d)
        (stepwise_forget_links-replay marshal cluster namespace links nodes (view rows)),
  )
  run_op-Implements (forget_pods namespace pods) rows d = (
    _,
    refl,
    as_replay _ (forget_pods-Shows namespace pods rows d)
        (stepwise_forget_pods-replay marshal cluster namespace pods (view rows)),
  )
  run_op-Implements (forget_namespace namespace) rows d =
      (_, refl, delete_rows-Shows (λ k r. k.0 == (cluster, namespace)) rows d)
  run_op-Implements (set_mtu namespace pod iface peer peer_intf mtu) rows d =
      let (done, made, shown) = set_mtu-Shows namespace pod iface peer peer_intf mtu rows d in
      (
        done,
        made,
        as_replay _ shown (
            stepwise_set_mtu-replay marshal cluster namespace pod iface peer peer_intf mtu
              (view rows)),
      )

  -- Any run of saves, deletions and MTU settings on a table with no key twice comes through, no
  -- insert failing on a key that is taken, and leaves such a table. Under each key it holds what
  -- the operations, each taken as a whole, leave of the table as a partial function of the key: a
  -- save puts what the last link named by that end declares, or nothing if it declares nothing; a
  -- deletion by links takes the rows at either end of any of them, a deletion by pods those at any
  -- of the pods or with their peer there; an MTU is set at both ends, or put at the first end where
  -- neither has a row, unless it is 0.
  pub run_ops-Implements :
      (ops : List Op) (rows : LinkRows)
      → Distinct (keys rows)
      → Implements (run_ops marshal cluster ops rows) (replay marshal cluster ops (view rows))
  run_ops-Implements [] rows d = (rows, refl, (d, refl))
  run_ops-Implements (op ∷ ops) rows d =
      let (rows', done, (d', same)) = run_op-Implements op rows d in
      let (last, later, (d'', same')) = run_ops-Implements ops rows' d' in
      (last, rw (run_ops, done) later, (d'', same' ∙ ap (replay marshal cluster ops) same))
