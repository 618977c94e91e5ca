-- ===== src/Service/Auth/Throttle.antt =====
-- The login's throttle in backend/src/services/auth.rs: `locked_until` and `record_failed_login`.
use arc_admin.Prelude.{
  nat_eq, string_eq, List, Option, String, [], first_chars, if◌then◌else◌, is_some, ltb, none, some,
  ℕ, ◌++◌, ◌-◌, ◌/◌, ◌∷◌,
}
use arc_admin.Db.{Db, text, texts, flag}
use arc_admin.Repo.Sessions
use arc_admin.Repo.AuditLogs.{record_log}
use arc_admin.Service.Auth.{AuthSessionConfig, LoginThrottleKeys}

-- The later of the locks so far and a current one.
abbrev pub later : Option ℕ → Option ℕ → Option ℕ
later latest none = latest
later none (some current) = some current
later (some existing) (some current) = some (if ltb existing current then current else existing)

-- `locked_until`, over the account, the source and both.
unfoldable pub locked_until : ℕ → Db → LoginThrottleKeys → Option ℕ
locked_until now pool keys =
    later
      (later (Sessions.locked_until now pool keys.account)
        (Sessions.locked_until now pool keys.source_ip))
      (Sessions.locked_until now pool keys.account_ip)

abbrev pub dimensions : AuthSessionConfig → LoginThrottleKeys → List (String × String × ℕ)
dimensions config keys =
    ("account", keys.account, config.login_max_failures)
    ∷ ("source_ip", keys.source_ip, config.login_ip_max_failures)
    ∷ ("account_ip", keys.account_ip, config.login_account_ip_max_failures)
    ∷ []

-- What the loop over the dimensions has so far: the latest lock, the dimensions that are locked, and
-- the transaction.
pub record Recorded : Type 0 where
  pub latest : Option ℕ
  pub locked_dimensions : List String
  pub db : Db

abbrev pub locked_names : List String → String → Option ℕ → List String
locked_names names dimension none = names
locked_names names dimension (some lock) = names ++ dimension ∷ []

unfoldable pub record_dimensions :
    ℕ → AuthSessionConfig → List (String × String × ℕ) → Recorded → Recorded
record_dimensions now config [] sofar = sofar
record_dimensions now config ((dimension, key, max_failures) ∷ rest) sofar =
    let failed =
      Sessions.record_login_failure now sofar.db key max_failures config.login_failure_window_secs
        config.login_lockout_secs in
    record_dimensions now config rest (record {
      latest = later sofar.latest failed.0;
      locked_dimensions = locked_names sofar.locked_dimensions dimension failed.0;
      db = failed.1;
    })

-- One transaction, which nothing aborts.
unfoldable pub record_failed_login :
    ℕ → Db → AuthSessionConfig → LoginThrottleKeys → Option ℕ → Option ℕ × Db
unfolding record_dimensions
record_failed_login now pool config keys user_id =
    let recorded =
      record_dimensions now config (dimensions config keys)
        (record { latest = none; locked_dimensions = []; db = pool }) in
    (
      recorded.latest,
      record_log recorded.db none "auth.login.failure" "user" user_id (
          ("identifierFingerprint", text (first_chars 12 keys.account))
          ∷ ("sourceIpFingerprint", text (first_chars 12 keys.source_ip))
          ∷ ("locked", flag (is_some recorded.latest))
          ∷ ("lockedDimensions", texts recorded.locked_dimensions)
          ∷ []),
    )

-- `(locked_until - Utc::now()).num_seconds().max(1)`
unfoldable pub retry_after : ℕ → ℕ → ℕ
retry_after lock utc_now =
    let seconds_left = (lock - utc_now) / 1000000 in if ltb seconds_left 1 then 1 else seconds_left
