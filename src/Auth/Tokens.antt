-- ===== src/Auth/Tokens.antt =====
-- API tokens: backend/auth/auth.go. The table api_tokens is a list of rows; the hash, the random
-- part of a token and the times, in seconds, are arguments.
pub mod Names
use kubendt.Prelude.{
  has_prefix, ℕ, suc, ltb, String, Bool, true, false, Option, none, some, List, [], ◌∷◌, ◌++◌, map,
  if◌then◌else◌, not, ◌==◌, ◌||◌, string_eq, nat_eq, select, append, Result, ok, err,
}
use kubendt.Auth.Sessions.{Principal}

abbrev pub api_token_prefix : String
api_token_prefix = "kdt_"

pub record TokenRow : Type 0 where
  pub id : ℕ
  pub token_hash : String
  pub name : String
  pub created_at : ℕ
  pub last_used_at : Option ℕ
  pub expires_at : Option ℕ

pub record TokenTable : Type 0 where
  pub rows : List TokenRow
  pub next_id : ℕ

pub data TokenError : Type 0 where
  token_name_exists : TokenError
  hash_taken : TokenError

abbrev pub find_row : (TokenRow → Bool) → List TokenRow → Option TokenRow
find_row p [] = none
find_row p (row ∷ rows) = if p row then some row else find_row p rows

abbrev pub named : String → List TokenRow → Bool
named name [] = false
named name (row ∷ rows) = row.name == name || named name rows

abbrev pub hashed : String → List TokenRow → Bool
hashed hash [] = false
hashed hash (row ∷ rows) = row.token_hash == hash || hashed hash rows

-- An expiry of 0 is none.
unfoldable pub create_api_token :
    (String → String) → String → String → ℕ → ℕ → TokenTable → Result TokenError String × TokenTable
create_api_token hash random name expires_at now table =
    let raw = append api_token_prefix random in
    if named name table.rows
    then (err token_name_exists, table)
    else if hashed (hash raw) table.rows
    then (err hash_taken, table)
    else (
      ok raw,
      record {
        rows =
            table.rows
            ++ (record {
              id = table.next_id;
              token_hash = hash raw;
              name = name;
              created_at = now;
              last_used_at = none;
              expires_at = if ltb 0 expires_at then some expires_at else none;
            }
                ∷ []);
        next_id = suc table.next_id;
      },
    )

abbrev pub token_expired : ℕ → TokenRow → Bool
token_expired now row = elim row.expires_at [ none ↦ false | some t ↦ ltb t now ]

unfoldable pub validate_api_token :
    (String → String) → ℕ → String → TokenTable → Option Principal × TokenTable
validate_api_token hash now raw table =
    if not (has_prefix raw api_token_prefix)
    then (none, table)
    else elim (find_row (λ row. row.token_hash == hash raw) table.rows) [
      | none ↦ (none, table)
      | some row ↦ if token_expired now row then (none, table) else (
        some (record { identity = "admin"; roles = "admin" ∷ []; method = "token" }),
        record table {
          rows =
              map (λ r. if r.id == row.id then record r { last_used_at = some now } else r)
                table.rows;
        },
      )
    ]

-- DeleteAPIToken, and whether a row was removed.
unfoldable pub delete_api_token : ℕ → TokenTable → Bool × TokenTable
delete_api_token id table =
    (has_id table.rows, record table { rows = select (λ row. not (row.id == id)) table.rows })
  where
    has_id : List TokenRow → Bool
    has_id [] = false
    has_id (row ∷ rows) = row.id == id || has_id rows
