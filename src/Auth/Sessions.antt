-- ===== src/Auth/Sessions.antt =====
-- Browser sessions: backend/auth/auth.go. The table sessions has the token's hash for its key. The
-- hash, the limits and the times are arguments; times are nanoseconds, and the table's are seconds.
pub mod Roles
pub mod Uses
use Prim.Native.Char.{Char, code}
use kubendt.Prelude.{
  ℕ, ◌+◌, ◌-◌, ◌*◌, ◌/◌, ltb, eqb, String, Bool, true, false, Option, none, some, is_some, List, [],
  ◌∷◌, if◌then◌else◌, not, ◌==◌, ◌||◌, string_eq, Table, lookup, put, select, is_empty, append,
  Result, ok, err,
}

pub record Principal : Type 0 where
  pub identity : String
  pub roles : List String
  pub method : String

unfoldable pub has_role : Principal → String → Bool
has_role p role = any_role p.roles
  where
    any_role : List String → Bool
    any_role [] = false
    any_role (r ∷ rest) = r == role || any_role rest

pub record Session : Type 0 where
  pub identity : String
  pub roles : String
  pub created_at : ℕ
  pub last_seen_at : ℕ

abbrev pub SessionTable : Type 0
SessionTable = Table String Session

abbrev pub second : ℕ
second = 1_000_000_000

pub data SessionError : Type 0 where
  hash_taken : SessionError

-- strings.Join(roles, ",")
unfoldable pub join_roles : List String → String
join_roles [] = ""
join_roles (r ∷ []) = r
join_roles (r ∷ next ∷ rest) = append r (append "," (join_roles (next ∷ rest)))

abbrev pub onto_first : Char → List String → List String
onto_first c [] = []
onto_first c (s ∷ rest) = String.◌∷◌ c s ∷ rest

-- strings.Split(s, ",")
unfoldable pub split_comma : String → List String
split_comma String.[] = "" ∷ []
split_comma (String.◌∷◌ c s) =
    let rest = split_comma s in if eqb (code c) b',' then "" ∷ rest else onto_first c rest

unfoldable pub split_roles : String → List String
split_roles s = if is_empty s then [] else split_comma s

unfoldable pub create_session :
    (String → String)
    → String
    → String
    → List String
    → ℕ
    → SessionTable
    → Result SessionError SessionTable
create_session hash raw identity roles now sessions =
    if is_some (lookup (hash raw) sessions)
    then err hash_taken
    else ok (
        put (hash raw)
          (record {
            identity = identity;
            roles = join_roles roles;
            created_at = now / second;
            last_seen_at = now / second;
          })
          sessions)

unfoldable pub delete_session : (String → String) → String → SessionTable → SessionTable
delete_session hash raw sessions = select (λ entry. not (entry.0 == hash raw)) sessions

abbrev pub expired : ℕ → ℕ → ℕ → Session → Bool
expired idle_timeout max_lifetime now s =
    ltb idle_timeout (now - s.last_seen_at * second)
    || ltb max_lifetime (now - s.created_at * second)

unfoldable pub validate_session :
    (String → String) → ℕ → ℕ → ℕ → String → SessionTable → Option Principal × SessionTable
validate_session hash idle_timeout max_lifetime now raw sessions =
    if is_empty raw then (none, sessions) else elim (lookup (hash raw) sessions) [
      | none ↦ (none, sessions)
      | some s ↦
          if expired idle_timeout max_lifetime now s
          then (none, delete_session hash raw sessions)
          else (
            some
                (record { identity = s.identity; roles = split_roles s.roles; method = "session" }),
            put (hash raw) (record s { last_seen_at = now / second }) sessions,
          )
    ]
