-- ===== src/Auth/Sessions/Uses.antt =====
-- How long a session lasts.
use kubendt.Prelude.{
  ℕ, ◌-◌, ◌*◌, ◌/◌, ◌≤◌, ltb, String, ◌≡◌, refl, Bool, true, false, none, some, List, [], ◌∷◌,
  if◌then◌else◌, not, ◌==◌, ◌||◌, string_eq, lookup, put, keys, Distinct, lookup-put_self,
  lookup-select, is_empty, ok, arith, beq_refl, All,
}
use kubendt.Auth.Sessions.{
  Session, SessionTable, second, create_session, delete_session, expired, validate_session,
  join_roles,
}
use kubendt.Auth.Sessions.Roles.{no_comma, split_roles-join_roles}

if_first :
    {A B : Type 0} (b : Bool) (x y : A) (u v : B)
    → (if◌then◌else◌ {A = A × B} b (x, u) (y, v)).0 ≡ (if b then x else y)
if_first true x y u v = refl
if_first false x y u v = refl

module _ (hash : String → String) (idle_timeout max_lifetime : ℕ) where
  -- The uses of a token at the given times, in their order.
  abbrev pub use_all : String → List ℕ → SessionTable → SessionTable
  use_all raw [] sessions = sessions
  use_all raw (t ∷ ts) sessions =
      use_all raw ts (validate_session hash idle_timeout max_lifetime t raw sessions).1

  abbrev pub last_use : ℕ → List ℕ → ℕ
  last_use seen [] = seen
  last_use seen (t ∷ ts) = last_use (t / second) ts

  -- Each use is within the idle limit of the one before and within the lifetime.
  abbrev pub Kept : ℕ → ℕ → List ℕ → Type 0
  Kept created seen [] = Unit
  Kept created seen (t ∷ ts) =
      (t - seen * second ≤ idle_timeout)
      × (t - created * second ≤ max_lifetime)
      × Kept created (t / second) ts

  lookup-use_all :
      (raw : String) (ts : List ℕ) (s : Session) (sessions : SessionTable)
      → is_empty raw ≡ false
      → Kept s.created_at s.last_seen_at ts
      → lookup (hash raw) sessions ≡ some s
      → lookup (hash raw) (use_all raw ts sessions)
        ≡ some (record s { last_seen_at = last_use s.last_seen_at ts })
  unfolding validate_session
  lookup-use_all raw [] s sessions e k h = h
  lookup-use_all raw (t ∷ ts) s sessions e (idle, life, k) h =
      let s' : Session = record s { last_seen_at = t / second } in
      let live : expired idle_timeout max_lifetime t s ≡ false = ground (arith, idle, life) in
      let next : (validate_session hash idle_timeout max_lifetime t raw sessions).1
          ≡ put (hash raw) s' sessions =
        rw (e, h) (rw live refl) in
      rw next (
        lookup-use_all raw ts s' (put (hash raw) s' sessions) e k
          (lookup-put_self (hash raw) s' sessions))

  -- A session that was opened by a token that is not empty, with at least one role, with roles free
  -- of commas whose text as the table keeps it is not empty, and then used with no pause longer
  -- than the idle limit and never past its lifetime is valid at a further time exactly when that
  -- time is within the idle limit of the latest use and within the lifetime, and then it shows the
  -- identity and the roles that it was opened with; the times are as the table keeps them, in whole
  -- seconds.
  pub validate_session-use_all :
      (raw identity role : String) (roles : List String) (opened now : ℕ) (ts : List ℕ)
      (before after : SessionTable)
      → is_empty raw ≡ false
      → All (λ r. no_comma r ≡ true) (role ∷ roles)
      → is_empty (join_roles (role ∷ roles)) ≡ false
      → create_session hash raw identity (role ∷ roles) opened before ≡ ok after
      → Kept (opened / second) (opened / second) ts
      → (validate_session hash idle_timeout max_lifetime now raw (use_all raw ts after)).0 ≡ (
          if ltb idle_timeout (now - last_use (opened / second) ts * second)
            || ltb max_lifetime (now - opened / second * second)
          then none
          else some (record { identity = identity; roles = role ∷ roles; method = "session" }))
  unfolding validate_session create_session
  validate_session-use_all raw identity role roles opened now ts before after e plain full c k =
      let s : Session = record {
        identity = identity;
        roles = join_roles (role ∷ roles);
        created_at = opened / second;
        last_seen_at = opened / second;
      } in
      let stored : after ≡ put (hash raw) s before = ground (arith, c) in
      let found =
        lookup-use_all raw ts s after e k (rw stored (lookup-put_self (hash raw) s before)) in
      rw (e, found, split_roles-join_roles role roles plain full) (search if_first)

  -- A token is valid in no session after its logout, and the logout changes nothing for a token with
  -- another hash; in a table that holds each hash once.
  pub validate_session-delete_session :
      (raw other : String) (now : ℕ) (sessions : SessionTable)
      → Distinct (keys sessions)
      → ((validate_session hash idle_timeout max_lifetime now raw
            (delete_session hash raw sessions)).0
          ≡ none)
        × ((hash other == hash raw) ≡ false
            → (validate_session hash idle_timeout max_lifetime now other
                (delete_session hash raw sessions)).0
              ≡ (validate_session hash idle_timeout max_lifetime now other sessions).0)
  unfolding validate_session delete_session
  validate_session-delete_session raw other now sessions d =
      let gone = lookup-select (λ entry. not (entry.0 == hash raw)) (hash raw) sessions d in
      let kept = lookup-select (λ entry. not (entry.0 == hash raw)) (hash other) sessions d in
      (ground (arith, gone, beq_refl (hash raw)), λ differ. ground (arith, kept, differ))
