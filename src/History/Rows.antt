-- ===== src/History/Rows.antt =====
-- What deletions leave of the history's rows, and what the rows decode to.
use kubendt.Prelude.{
  ℕ, String, ◌≡◌, refl, sym, ◌∙◌, Bool, true, false, Bool-cases, inl, inr, List, [], ◌∷◌, ◌++◌, not,
  ◌==◌, nat_eq, string_eq, Option, contains, select, All, ok, >>=-eq-ok, arith, ◌&&◌,
}
use kubendt.Types.Actions.{ActionEntry}
use kubendt.History.{
  Row, Store, PersistedDriverOperation, decode, decode_all, delete_by_id, delete_ids, ids,
}

module _ {A : Type 0} where
  pub select_commute :
      (p q : A → Bool) (xs : List A) → select p (select q xs) ≡ select q (select p xs)
  select_commute p q [] = refl
  select_commute p q (x ∷ xs) = ground (arith, select_commute p q xs)

  select_all : (p : A → Bool) (xs : List A) → ((x : A) → p x ≡ true) → select p xs ≡ xs
  select_all p [] h = refl
  select_all p (x ∷ xs) h = ground (arith, h x, select_all p xs h)

  select_twice :
      (p q r : A → Bool) (xs : List A)
      → ((x : A) → (p x && q x) ≡ r x)
      → select p (select q xs) ≡ select r xs
  select_twice p q r [] h = refl
  select_twice p q r (x ∷ xs) h = ground (arith, h x, select_twice p q r xs h)

abbrev pub kept : List ℕ → Row → Bool
kept gone row = not (contains gone row.id)

pub delete_ids-select :
    (gone : List ℕ) (store : Store) → (delete_ids gone store).rows ≡ select (kept gone) store.rows
unfolding delete_ids delete_by_id
delete_ids-select [] store = sym (select_all (kept []) store.rows (λ row. refl))
delete_ids-select (id ∷ gone) store =
    delete_ids-select gone (delete_by_id id store)
    ∙ select_twice (kept gone) (λ row. not (row.id == id)) (kept (id ∷ gone)) store.rows
        (λ row. ground (arith, nat_eq.beq_iff row.id id, nat_eq.beq_iff id row.id))

pub delete_ids_next :
    (gone : List ℕ) (store : Store) → (delete_ids gone store).next_id ≡ store.next_id
unfolding delete_ids delete_by_id
delete_ids_next [] store = refl
delete_ids_next (id ∷ gone) store = delete_ids_next gone (delete_by_id id store)

module _ (unmarshal : String → Option ActionEntry) where
  pub decode_all_cons :
      (row : Row) (rows : List Row) (ops : List PersistedDriverOperation)
      → decode_all unmarshal (row ∷ rows) ≡ ok ops
      → (op : PersistedDriverOperation) × (rest : List PersistedDriverOperation) × (decode unmarshal
            row
          ≡ ok op)
        × (decode_all unmarshal rows ≡ ok rest)
        × (ops ≡ op ∷ rest)
  unfolding decode_all
  decode_all_cons row rows ops h =
      let (op, h1, h2) = >>=-eq-ok (decode unmarshal row) _ h in
      let (rest, h3, h4) = >>=-eq-ok (decode_all unmarshal rows) _ h2 in
      (op, rest, h1, h3, ground (arith, h4))

  -- Part of the rows that decode decodes.
  pub decode_all-select :
      (p : Row → Bool) (rows : List Row) (ops : List PersistedDriverOperation)
      → decode_all unmarshal rows ≡ ok ops
      → (some_ops : List PersistedDriverOperation) × (decode_all unmarshal (select p rows)
          ≡ ok some_ops)
  unfolding decode_all
  decode_all-select p [] ops h = ([], refl)
  decode_all-select p (row ∷ rows) ops h =
      let (op, rest, h1, h2, h3) = decode_all_cons row rows ops h in
      let (some_ops, h4) = decode_all-select p rows rest h2 in
      elim (Bool-cases (p row)) [
        | inl e ↦ (op ∷ some_ops, rw e (ground (arith, h1, h4)))
        | inr e ↦ (some_ops, rw e h4)
      ]

  pub decode_all-append :
      (rows more : List Row) (ops others : List PersistedDriverOperation)
      → decode_all unmarshal rows ≡ ok ops
      → decode_all unmarshal more ≡ ok others
      → decode_all unmarshal (rows ++ more) ≡ ok (ops ++ others)
  unfolding decode_all
  decode_all-append [] more ops others h g = ground (arith, h, g)
  decode_all-append (row ∷ rows) more ops others h g =
      let (op, rest, h1, h2, h3) = decode_all_cons row rows ops h in
      ground (arith, h1, h2, h3, decode_all-append rows more rest others h2 g)

  module _ (on : PersistedDriverOperation → Bool) where
    -- What the row decodes to does not pass the test.
    abbrev pub Off : Row → Type 0
    Off row = (op : PersistedDriverOperation) → decode unmarshal row ≡ ok op → on op ≡ false

    pub Off-select :
        (rows : List Row) (ops : List PersistedDriverOperation)
        → All Off rows
        → decode_all unmarshal rows ≡ ok ops
        → select on ops ≡ []
    unfolding decode_all
    Off-select [] ops a h = let none_left : ops ≡ [] = ground (arith, h) in rw none_left refl
    Off-select (row ∷ rows) ops (off, a) h =
        let (op, rest, h1, h2, h3) = decode_all_cons row rows ops h in
        rw h3 (ground (arith, off op h1, Off-select rows rest a h2))

    -- Without the rows whose operations pass the test, every row is off.
    pub kept-Off :
        (gone : List ℕ) (rows : List Row) (ops : List PersistedDriverOperation)
        → decode_all unmarshal rows ≡ ok ops
        → ((id : ℕ) → contains (ids (select on ops)) id ≡ true → contains gone id ≡ true)
        → All Off (select (kept gone) rows)
    unfolding decode_all decode
    kept-Off gone [] ops h covers = tt
    kept-Off gone (row ∷ rows) ops h covers =
        let (op, rest, h1, h2, h3) = decode_all_cons row rows ops h in
        let same_id : op.id ≡ row.id = ground (arith, h1) in
        let tail : (id : ℕ) → contains (ids (select on rest)) id ≡ true → contains gone id ≡ true =
          λ id c. covers id (rw h3 (ground (arith, c))) in
        let head : on op ≡ true → contains gone row.id ≡ true =
          λ e. covers row.id (rw h3 (ground (arith, e, same_id, nat_eq.beq_iff op.id row.id))) in
        elim (Bool-cases (contains gone row.id)) [
          | inl e ↦ rw e (kept-Off gone rows rest h2 tail)
          | inr e ↦ rw e (
            λ other d.
                let same : other ≡ op = ground (arith, d, h1) in ground (arith, same, e, head),
            kept-Off gone rows rest h2 tail,
          )
        ]

pub contains-ids :
    (xs ys : List PersistedDriverOperation) (id : ℕ)
    → contains (ids xs) id ≡ true
    → contains (ids (xs ++ ys)) id ≡ true
contains-ids [] ys id h = cc
contains-ids (x ∷ xs) ys id h = ground (arith, h, contains-ids xs ys id)
