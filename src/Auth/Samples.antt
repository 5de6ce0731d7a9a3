-- ===== src/Auth/Samples.antt =====
-- Logins, sessions and tokens at small inputs, with the identity for the hash.
use kubendt.Prelude.{
  ℕ, ◌≡◌, refl, arith, String, some, none, [], ◌∷◌, List, ok, string_eq, ltb, ◌||◌, suc, length,
  if◌then◌else◌, ◌-◌, ◌*◌, ◌+◌,
}
use kubendt.Auth.Limiter.{login_window, login_max_attempts, login_allowed}
use kubendt.Auth.Limiter.Burst.{fail_all, latest, login_allowed-fail_all}
use kubendt.Auth.Sessions.{SessionTable, second, create_session, validate_session, join_roles}
use kubendt.Auth.Sessions.Uses.{use_all, last_use, validate_session-use_all}
use kubendt.Auth.Tokens.{TokenTable, create_api_token}

abbrev seven : List ℕ
seven = 11 ∷ 12 ∷ 13 ∷ 14 ∷ 15 ∷ 16 ∷ 17 ∷ []

login_allowed-fail_all_example :
    (login_allowed 20 (fail_all "ip" (10 ∷ seven) []) "ip").0
    ≡ (ltb (latest 10 seven + login_window) 20 || ltb (suc (length seven)) login_max_attempts)
login_allowed-fail_all_example =
    login_allowed-fail_all "ip" 10 seven 20 [] tt
      (
        omega arith,
        (
          omega arith,
          (omega arith, (omega arith, (omega arith, (omega arith, (omega arith, tt))))),
        ),
      )
      refl

abbrev own : String → String
own raw = raw

abbrev opened : SessionTable
opened =
    (
      "tok",
      record { identity = "admin"; roles = "admin,ops"; created_at = 100; last_seen_at = 100 },
    )
    ∷ []

session_opened :
    create_session own "tok" "admin" ("admin" ∷ "ops" ∷ []) 100_000_000_000 [] ≡ ok opened
unfolding create_session join_roles
session_opened = refl

validate_session-use_all_example :
    (validate_session own 10_000_000_000 60_000_000_000 112_000_000_000 "tok"
      (use_all own 10_000_000_000 60_000_000_000 "tok" (105_000_000_000 ∷ []) opened)).0
    ≡ (if ltb 10_000_000_000 (
            112_000_000_000
            - last_use own 10_000_000_000 60_000_000_000 100 (105_000_000_000 ∷ []) * second)
          || ltb 60_000_000_000 (112_000_000_000 - 100 * second)
        then none
        else some (record { identity = "admin"; roles = "admin" ∷ "ops" ∷ []; method = "session" }))
unfolding join_roles
validate_session-use_all_example =
    validate_session-use_all own 10_000_000_000 60_000_000_000 "tok" "admin" "admin" ("ops" ∷ [])
      100_000_000_000 112_000_000_000 (105_000_000_000 ∷ []) [] opened refl (refl, (refl, tt)) refl
      session_opened (omega arith, omega arith, tt)

abbrev no_tokens : TokenTable
no_tokens = record { rows = []; next_id = 1 }

abbrev minted : TokenTable
minted = record {
  rows =
      record {
        id = 1;
        token_hash = "kdt_x";
        name = "ci";
        created_at = 5;
        last_used_at = none;
        expires_at = some 9;
      }
      ∷ [];
  next_id = 2;
}

token_made : create_api_token own "x" "ci" 9 5 no_tokens ≡ (ok "kdt_x", minted)
unfolding create_api_token
token_made = refl
