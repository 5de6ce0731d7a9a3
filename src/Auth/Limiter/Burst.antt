-- ===== src/Auth/Limiter/Burst.antt =====
-- A burst of failures locks its client out, and only its client.
use kubendt.Prelude.{
  ℕ, suc, ◌+◌, ◌≤◌, ltb, String, ◌≡◌, refl, false, none, some, not, ◌==◌, ◌||◌, string_eq, List, [],
  ◌∷◌, length, lookup, put, keys, Distinct, lookup-put, lookup-put_self, ◌∙◌, lookup-select,
  put-Distinct, select-Distinct, arith,
}
use kubendt.Auth.Limiter.{
  LoginAttempt, Attempts, login_window, login_max_attempts, login_allowed, fails_before,
  register_login_failure,
}

register_login_failure-Distinct :
    (now : ℕ) (ip : String) (attempts : Attempts)
    → Distinct (keys attempts)
    → Distinct (keys (register_login_failure now ip attempts))
unfolding register_login_failure
register_login_failure-Distinct now ip attempts d =
    select-Distinct _ _ (put-Distinct ip _ attempts d)

lookup-register_login_failure :
    (now : ℕ) (ip : String) (attempts : Attempts)
    → Distinct (keys attempts)
    → lookup ip (register_login_failure now ip attempts)
      ≡ some (record {
        fails = suc (fails_before now (lookup ip attempts));
        reset_at = now + login_window;
      })
unfolding register_login_failure
lookup-register_login_failure now ip attempts d =
    let a : LoginAttempt = record {
      fails = suc (fails_before now (lookup ip attempts));
      reset_at = now + login_window;
    } in
    lookup-select (λ entry. not (ltb entry.1.reset_at now)) ip (put ip a attempts)
      (put-Distinct ip a attempts d)
    ∙ rw (lookup-put_self ip a attempts)
        (let not_stale : ltb (now + login_window) now ≡ false = ground arith in rw not_stale refl)

-- The failures of one client at the given times.
abbrev pub fail_all : String → List ℕ → Attempts → Attempts
fail_all ip [] attempts = attempts
fail_all ip (t ∷ ts) attempts = fail_all ip ts (register_login_failure t ip attempts)

-- Each time is within the window of the one before.
abbrev pub Chained : ℕ → List ℕ → Type 0
Chained before [] = Unit
Chained before (t ∷ ts) = (t ≤ before + login_window) × Chained t ts

abbrev pub latest : ℕ → List ℕ → ℕ
latest before [] = before
latest before (t ∷ ts) = latest t ts

lookup-fail_all :
    (ip : String) (ts : List ℕ) (attempts : Attempts) (fails before : ℕ)
    → Distinct (keys attempts)
    → Chained before ts
    → lookup ip attempts ≡ some (record { fails = fails; reset_at = before + login_window })
    → lookup ip (fail_all ip ts attempts)
      ≡ some (record { fails = fails + length ts; reset_at = latest before ts + login_window })
lookup-fail_all ip [] attempts fails before d c h =
    let none_more : fails + 0 ≡ fails = omega arith in rw none_more h
lookup-fail_all ip (t ∷ ts) attempts fails before d (near, c) h =
    let live : ltb (before + login_window) t ≡ false = ground (arith, near) in
    let counted : fails_before t (lookup ip attempts) ≡ fails = rw h (rw live refl) in
    let one_more : fails + suc (length ts) ≡ suc fails + length ts = omega arith in
    rw one_more (
      lookup-fail_all ip ts (register_login_failure t ip attempts) (suc fails) t
        (register_login_failure-Distinct t ip attempts d) c
        (lookup-register_login_failure t ip attempts d ∙ rw counted refl))

-- A client without failures on record that fails at these times, each within the window of the one
-- before, may try again exactly when it failed fewer than 8 times or the window after the latest
-- failure is over.
pub login_allowed-fail_all :
    (ip : String) (t : ℕ) (ts : List ℕ) (now : ℕ) (attempts : Attempts)
    → Distinct (keys attempts)
    → Chained t ts
    → lookup ip attempts ≡ none
    → (login_allowed now (fail_all ip (t ∷ ts) attempts) ip).0
      ≡ (ltb (latest t ts + login_window) now || ltb (suc (length ts)) login_max_attempts)
unfolding login_allowed
login_allowed-fail_all ip t ts now attempts d c h =
    let first : lookup ip (register_login_failure t ip attempts)
        ≡ some (record { fails = 1; reset_at = t + login_window }) =
      lookup-register_login_failure t ip attempts d ∙ rw h refl in
    let after =
      lookup-fail_all ip ts (register_login_failure t ip attempts) 1 t
        (register_login_failure-Distinct t ip attempts d) c first in
    let count : 1 + length ts ≡ suc (length ts) = omega arith in ground (arith, after, count)

-- One client's failure changes what is allowed to no other client at that time or later.
pub login_allowed-register_login_failure :
    (now later : ℕ) (ip other : String) (attempts : Attempts)
    → Distinct (keys attempts)
    → (ip == other) ≡ false
    → now ≤ later
    → login_allowed later (register_login_failure now ip attempts) other
      ≡ login_allowed later attempts other
unfolding login_allowed register_login_failure
login_allowed-register_login_failure now later ip other attempts d differ le =
    let a : LoginAttempt = record {
      fails = suc (fails_before now (lookup ip attempts));
      reset_at = now + login_window;
    } in
    ground (
      arith,
      differ,
      le,
      lookup-select (λ entry. not (ltb entry.1.reset_at now)) other (put ip a attempts)
          (put-Distinct ip a attempts d),
      lookup-put ip other a attempts,
    )
