-- ===== src/Auth/Tokens/Names.antt =====
-- API tokens from their creation to their end.
use Prim.Native.String.append
use kubendt.Prelude.{
  has_prefix, ℕ, ltb, String, ◌≡◌, refl, ◌∙◌, Bool, true, false, none, some, List, [], ◌∷◌, ◌++◌,
  if◌then◌else◌, not, ◌==◌, ◌||◌, string_eq, nat_eq, append, ok, arith, beq_refl, Bool-cases, inl,
  inr, Distinct, contains,
}
use kubendt.Auth.Tokens.{
  TokenRow, TokenTable, find_row, named, hashed, create_api_token, token_expired,
  validate_api_token, api_token_prefix,
}

abbrev pub row_names : List TokenRow → List String
row_names [] = []
row_names (row ∷ rows) = row.name ∷ row_names rows

find_row-append :
    (hash : String) (rows : List TokenRow) (row : TokenRow)
    → hashed hash rows ≡ false
    → (row.token_hash == hash) ≡ true
    → find_row (λ r. r.token_hash == hash) (rows ++ (row ∷ [])) ≡ some row
find_row-append hash [] row h e = ground (arith, e)
find_row-append hash (r ∷ rows) row h e =
    let later : hashed hash rows ≡ false = ground (arith, h) in
    ground (arith, h, find_row-append hash rows row later e)

has_prefix-append : (p t : String) → has_prefix (append p t) p ≡ true
has_prefix-append String.[] t = has_prefix_none (append "" t)
  where
    has_prefix_none : (s : String) → has_prefix s "" ≡ true
    has_prefix_none String.[] = refl
    has_prefix_none (String.◌∷◌ c s) = refl
has_prefix-append (String.◌∷◌ c p) t = rw append.cons (ground (arith, has_prefix-append p t))

row_names-append :
    (rows : List TokenRow) (row : TokenRow) (name : String)
    → contains (row_names (rows ++ (row ∷ []))) name
      ≡ (contains (row_names rows) name || row.name == name)
row_names-append [] row name = ground arith
row_names-append (r ∷ rows) row name = ground (arith, row_names-append rows row name)

contains-row_names :
    (rows : List TokenRow) (name : String) → contains (row_names rows) name ≡ named name rows
contains-row_names [] name = refl
contains-row_names (r ∷ rows) name = ground (arith, contains-row_names rows name)

Distinct-append_row :
    (rows : List TokenRow) (row : TokenRow)
    → Distinct (row_names rows)
    → named row.name rows ≡ false
    → Distinct (row_names (rows ++ (row ∷ [])))
Distinct-append_row [] row d h = (refl, tt)
Distinct-append_row (r ∷ rows) row (new, d) h =
    let later : named row.name rows ≡ false = ground (arith, h) in
    (
      ground (
        arith,
        new,
        h,
        row_names-append rows row r.name,
        string_eq.beq_iff row.name r.name,
        string_eq.beq_iff r.name row.name,
      ),
      Distinct-append_row rows row d later,
    )

swap : {A : Type 0} (b : Bool) (x y : A) → (if not b then x else y) ≡ (if b then y else x)
swap true x y = refl
swap false x y = refl

validate_found :
    (hash : String → String) (raw : String) (now : ℕ) (table : TokenTable) (row : TokenRow)
    → has_prefix raw api_token_prefix ≡ true
    → find_row (λ r. r.token_hash == hash raw) table.rows ≡ some row
    → (validate_api_token hash now raw table).0 ≡ (
        if token_expired now row
        then none
        else some (record { identity = "admin"; roles = "admin" ∷ []; method = "token" }))
unfolding validate_api_token
validate_found hash raw now table row p f = elim (Bool-cases (token_expired now row)) [
  | inl e ↦ rw (p, f) (rw e refl)
  | inr e ↦ rw (p, f) (rw e refl)
]

-- A token that is created is valid at once and until its expiry, for good if it has none, and not
-- after it; names that were all different stay so.
pub validate_api_token-create_api_token :
    (hash : String → String) (random name raw : String) (expires_at created now : ℕ)
    (table after : TokenTable)
    → create_api_token hash random name expires_at created table ≡ (ok raw, after)
    → ((validate_api_token hash now raw after).0 ≡ (
        if not (ltb 0 expires_at) || not (ltb expires_at now)
        then some (record { identity = "admin"; roles = "admin" ∷ []; method = "token" })
        else none))
      × (Distinct (row_names table.rows) → Distinct (row_names after.rows))
unfolding create_api_token
validate_api_token-create_api_token hash random name raw expires_at created now table after h =
    let minted = append api_token_prefix random in
    let row : TokenRow = record {
      id = table.next_id;
      token_hash = hash minted;
      name = name;
      created_at = created;
      last_used_at = none;
      expires_at = if ltb 0 expires_at then some expires_at else none;
    } in
    let free : named name table.rows ≡ false = ground (arith, h) in
    let unhashed : hashed (hash minted) table.rows ≡ false = ground (arith, h) in
    let is_raw : raw ≡ minted = ground (arith, h) in
    let rows : after.rows ≡ table.rows ++ (row ∷ []) = ground (arith, h) in
    let found = find_row-append (hash minted) table.rows row unhashed (beq_refl (hash minted)) in
    let prefixed : has_prefix minted api_token_prefix ≡ true =
      has_prefix-append api_token_prefix random in
    let valid = validate_found hash minted now after row prefixed (rw rows found) in
    let life : token_expired now row ≡ not (not (ltb 0 expires_at) || not (ltb expires_at now)) =
      ground arith in
    (
      rw is_raw (valid ∙ rw life (search swap)),
      λ d. rw rows (Distinct-append_row table.rows row d free),
    )
