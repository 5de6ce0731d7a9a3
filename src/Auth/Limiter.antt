-- ===== src/Auth/Limiter.antt =====
-- The limit on failed logins: backend/auth/loginlimit.go. Times are nanoseconds; the clock is read
-- once in an operation.
pub mod Burst
use kubendt.Prelude.{
  ℕ, suc, ◌+◌, ◌-◌, ltb, leb, String, Bool, true, false, Option, none, some, if◌then◌else◌, not,
  ◌==◌, string_eq, Table, lookup, put, select,
}

abbrev pub login_max_attempts : ℕ
login_max_attempts = 8

-- 15 minutes
abbrev pub login_window : ℕ
login_window = 900_000_000_000

pub record LoginAttempt : Type 0 where
  pub fails : ℕ
  pub reset_at : ℕ

abbrev pub Attempts : Type 0
Attempts = Table String LoginAttempt

-- Whether an attempt is allowed, and else how long until it is.
unfoldable pub login_allowed : ℕ → Attempts → String → Bool × ℕ
login_allowed now attempts ip = elim (lookup ip attempts) [
  | none ↦ (true, 0)
  | some a ↦
      if ltb a.reset_at now
      then (true, 0)
      else if leb login_max_attempts a.fails
      then (false, a.reset_at - now)
      else (true, 0)
]

abbrev pub fails_before : ℕ → Option LoginAttempt → ℕ
fails_before now none = 0
fails_before now (some a) = if ltb a.reset_at now then 0 else a.fails

unfoldable pub register_login_failure : ℕ → String → Attempts → Attempts
register_login_failure now ip attempts =
    select (λ entry. not (ltb entry.1.reset_at now))
      (put ip
        (record {
          fails = suc (fails_before now (lookup ip attempts));
          reset_at = now + login_window;
        })
        attempts)

unfoldable pub register_login_success : String → Attempts → Attempts
register_login_success ip attempts = select (λ entry. not (entry.0 == ip)) attempts
