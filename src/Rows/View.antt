-- ===== src/Rows/View.antt =====
-- The table link_attributes as a partial function of its key, and what each statement of
-- backend/helpers/link_attributes.go does to it.
use kubendt.Prelude.{
  String, Bool, true, false, Option, none, some, [], ◌∷◌, ◌≡◌, refl, ap, ◌∙◌, arith, ◌||◌, not, ℤ,
  lookup, put, keys, Distinct, lookup-put, select, lookup-select, update_values,
  lookup-update_values, keys-update_values, is_some, ◌==◌, string_eq, int_eq, pair_eq,
  if◌then◌else◌,
}
use kubendt.Rows.{RowKey, LinkRow, LinkRows, delete_rows, on_ends, update_mtu, any_row}

abbrev pub View : Type 0
View = RowKey → Option LinkRow

abbrev pub view : LinkRows → View
view rows k = lookup k rows

abbrev pub without : (RowKey → LinkRow → Bool) → View → View
without where_ v k = elim (v k) [ none ↦ none | some r ↦ if where_ k r then none else some r ]

abbrev pub with_row : RowKey → LinkRow → View → View
with_row key r v k = if key == k then some r else v k

unless_or_none :
    (b : Bool) (r : LinkRow)
    → ◌≡◌ {A = Option LinkRow} (if not b then some r else none) (if b then none else some r)
unless_or_none true r = refl
unless_or_none false r = refl

pub view-delete_rows :
    (where_ : RowKey → LinkRow → Bool) (rows : LinkRows)
    → Distinct (keys rows)
    → view (delete_rows where_ rows) ≡ without where_ (view rows)
unfolding delete_rows
view-delete_rows where_ rows d = λ i. λ k. (at_key k) i
  where
    at_entry :
        (k : RowKey) (o : Option LinkRow)
        → elim o as (λ x. Option LinkRow) [
          | none ↦ none
          | some v ↦ if not (where_ k v) then some v else none
        ]
          ≡ elim o as (λ x. Option LinkRow) [
            | none ↦ none
            | some r ↦ if where_ k r then none else some r
          ]
    at_entry k none = refl
    at_entry k (some r) = unless_or_none (where_ k r) r

    at_key :
        (k : RowKey)
        → lookup k (select (λ (e : RowKey × LinkRow). not (where_ e.0 e.1)) rows)
          ≡ without where_ (view rows) k
    at_key k =
        lookup-select (λ (e : RowKey × LinkRow). not (where_ e.0 e.1)) k rows d
        ∙ at_entry k (lookup k rows)

pub view-put :
    (key : RowKey) (r : LinkRow) (rows : LinkRows)
    → view (put key r rows) ≡ with_row key r (view rows)
view-put key r rows = λ i. λ k. (lookup-put key k r rows) i

-- The row with another MTU.
abbrev pub with_mtu : ℤ → LinkRow → LinkRow
with_mtu mtu r = record r { mtu = mtu }

abbrev pub updated : ℤ → (RowKey → LinkRow → Bool) → View → View
updated mtu where_ v k = elim (v k) [
  | none ↦ none
  | some r ↦ some (if where_ k r then with_mtu mtu r else r)
]

abbrev changed : ℤ → (RowKey → LinkRow → Bool) → RowKey → LinkRow → LinkRow
changed mtu where_ k r = if where_ k r then with_mtu mtu r else r

update_mtu-update_values :
    (mtu : ℤ) (where_ : RowKey → LinkRow → Bool) (rows : LinkRows)
    → update_mtu mtu where_ rows ≡ update_values (changed mtu where_) rows
unfolding update_mtu
update_mtu-update_values mtu where_ [] = refl
update_mtu-update_values mtu where_ ((j, r) ∷ rows) =
    ap (λ rest. (j, changed mtu where_ j r) ∷ rest) (update_mtu-update_values mtu where_ rows)

pub lookup-update_mtu :
    (mtu : ℤ) (where_ : RowKey → LinkRow → Bool) (rows : LinkRows) (k : RowKey)
    → lookup k (update_mtu mtu where_ rows) ≡ updated mtu where_ (view rows) k
lookup-update_mtu mtu where_ rows k =
    ap (lookup k) (update_mtu-update_values mtu where_ rows)
    ∙ lookup-update_values (changed mtu where_) k rows

pub keys-update_mtu :
    (mtu : ℤ) (where_ : RowKey → LinkRow → Bool) (rows : LinkRows)
    → keys (update_mtu mtu where_ rows) ≡ keys rows
keys-update_mtu mtu where_ rows =
    ap keys (update_mtu-update_values mtu where_ rows)
    ∙ keys-update_values (changed mtu where_) rows

module _ (cluster namespace pod iface peer peer_intf : String) where
  abbrev pub own_key : RowKey
  own_key = ((cluster, namespace), (pod, iface))

  abbrev pub peer_key : RowKey
  peer_key = ((cluster, namespace), (peer, peer_intf))

  pub any_row-on_ends :
      (rows : LinkRows)
      → any_row (on_ends cluster namespace pod iface peer peer_intf) rows
        ≡ (is_some (lookup own_key rows) || is_some (lookup peer_key rows))
  unfolding any_row on_ends
  any_row-on_ends [] = refl
  any_row-on_ends ((k, r) ∷ rows) = ground (arith, any_row-on_ends rows)
