-- ===== src/History/Purge.antt =====
-- The purge of the rows of an earlier namespace.
use kubendt.Prelude.{
  ℕ, suc, String, ◌≡◌, refl, ◌∙◌, ap, Bool, true, false, Bool-cases, inl, inr, List, [], ◌∷◌, not,
  nat_eq, Option, some, select, contains, Distinct, All, length, ok, arith,
}
use kubendt.History.{Row, Store, stale, row_ids, purge_driver_operations_before}
use kubendt.History.Rows.{kept, delete_ids-select}

module _ (p : Row → Bool) where
  contains-row_ids :
      (rows : List Row) (id : ℕ)
      → contains (row_ids rows) id ≡ false
      → contains (row_ids (select p rows)) id ≡ false
  contains-row_ids [] id h = refl
  contains-row_ids (row ∷ rows) id h =
      let later : contains (row_ids rows) id ≡ false = ground (arith, h) in
      ground (arith, h, contains-row_ids rows id later)

  -- The ids of the rows that pass, in front of other rows with other ids.
  Hits : List ℕ → Row → Type 0
  Hits gone row = contains gone row.id ≡ p row

  Hits-cons :
      (row : Row) (gone : List ℕ) (rows : List Row)
      → contains (row_ids rows) row.id ≡ false
      → All (Hits gone) rows
      → All (Hits (row.id ∷ gone)) rows
  unfolding Hits
  Hits-cons row gone [] new h = tt
  Hits-cons row gone (r ∷ rows) new (hit, h) =
      let later : contains (row_ids rows) row.id ≡ false = ground (arith, new) in
      (
        ground (arith, new, hit, nat_eq.beq_iff r.id row.id, nat_eq.beq_iff row.id r.id),
        Hits-cons row gone rows later h,
      )

  Hits-passing :
      (row : Row) (rows : List Row) (gone before : List ℕ)
      → p row ≡ true
      → gone ≡ row.id ∷ before
      → contains (row_ids rows) row.id ≡ false
      → All (Hits before) rows
      → All (Hits gone) (row ∷ rows)
  unfolding Hits
  Hits-passing row rows gone before e same new h =
      let head : contains gone row.id ≡ p row =
        rw same (ground (arith, e, nat_eq.beq_iff row.id row.id)) in
      let tail : All (Hits gone) rows = rw same (Hits-cons row before rows new h) in (head, tail)

  Hits-failing :
      (row : Row) (rows : List Row) (gone before : List ℕ)
      → p row ≡ false
      → gone ≡ before
      → contains before row.id ≡ false
      → All (Hits before) rows
      → All (Hits gone) (row ∷ rows)
  unfolding Hits
  Hits-failing row rows gone before e same new h =
      let head : contains gone row.id ≡ p row = rw same (ground (arith, e, new)) in
      let tail : All (Hits gone) rows = rw same h in (head, tail)

  row_ids-Hits :
      (rows : List Row) → Distinct (row_ids rows) → All (Hits (row_ids (select p rows))) rows
  row_ids-Hits [] d = tt
  row_ids-Hits (row ∷ rows) (new, d) =
      let before = row_ids (select p rows) in
      elim (Bool-cases (p row)) [
        | inl e ↦ Hits-passing row rows _ before e (rw e refl) new (row_ids-Hits rows d)
        | inr e ↦
            Hits-failing row rows _ before e (rw e refl) (contains-row_ids rows row.id new)
              (row_ids-Hits rows d)
      ]

  kept-Hits :
      (gone : List ℕ) (rows : List Row)
      → All (Hits gone) rows
      → select (kept gone) rows ≡ select (λ r. not (p r)) rows
  unfolding Hits
  kept-Hits gone [] h = refl
  kept-Hits gone (row ∷ rows) (hit, h) = ground (arith, hit, kept-Hits gone rows h)

-- When no two rows share an id, the purge removes exactly the rows of the cluster's namespace whose
-- time reads as one before the given time, keeps the others in order, and reports how many went.
pub purge_driver_operations_before_lem :
    (parse : String → Option ℕ) (cluster namespace : String) (t : ℕ) (store : Store)
    → Distinct (row_ids store.rows)
    → ((purge_driver_operations_before parse (some cluster) namespace t store).1.rows
        ≡ select (λ r. not (stale parse cluster namespace t r)) store.rows)
      × ((purge_driver_operations_before parse (some cluster) namespace t store).0
          ≡ ok (length (select (stale parse cluster namespace t) store.rows)))
unfolding purge_driver_operations_before
purge_driver_operations_before_lem parse cluster namespace t store d =
    let gone = row_ids (select (stale parse cluster namespace t) store.rows) in
    (
      delete_ids-select gone store
          ∙ kept-Hits (stale parse cluster namespace t) gone store.rows
              (row_ids-Hits (stale parse cluster namespace t) store.rows d),
      ap ok (length-row_ids (select (stale parse cluster namespace t) store.rows)),
    )
  where
    length-row_ids : (rows : List Row) → length (row_ids rows) ≡ length rows
    length-row_ids [] = refl
    length-row_ids (row ∷ rows) = ap suc (length-row_ids rows)
