-- ===== src/Auth/RateLimits.antt =====
-- backend/src/ops_composer/auth/service.py and auth/repository.py: attempts are counted in fixed windows.
-- Times are in microseconds. `hash_subject` is `hmac_subject` with the secret of the settings.
use ops_composer.Prelude.{
  ℕ, suc, ◌+◌, ◌-◌, ◌*◌, ◌/◌, ◌%◌, String, Bool, true, false, Option, none, some, [], ◌∷◌, ◌++◌,
  ◌&&◌, ◌==◌, ltb, text_eq, first_where, update_where, delete_where,
}
use ops_composer.Db.{Db, Tx, Result, ok, err, modify}
use ops_composer.Domain.Auth.{RateLimit}
use ops_composer.Domain.Errors.{auth_rate_limited}

abbrev pub second : ℕ
second = 1000000

-- The start and the end of the window that the time is in.
abbrev pub fixed_window : ℕ → ℕ → ℕ × ℕ
fixed_window now seconds =
    let epoch = now / second in
    let start = (epoch - epoch % seconds) * second in (start, start + seconds * second)

pub record RateLimitSpec : Type 0 where
  pub scope : String
  pub subject : String
  pub maximum : ℕ
  pub window_seconds : ℕ

pub record ConsumedRateLimit : Type 0 where
  pub scope : String
  pub subject_hash : String
  pub window_started_at : ℕ
  pub reset_at : ℕ
  pub count : ℕ
  pub maximum : ℕ

-- The primary key of `auth_rate_limits`.
abbrev pub is_bucket : String → String → ℕ → RateLimit → Bool
is_bucket scope subject_hash window_started_at r =
    text_eq r.scope scope
    && text_eq r.subject_hash subject_hash
    && (r.window_started_at == window_started_at)

-- DO UPDATE SET
abbrev pub count_again : ℕ → RateLimit → RateLimit
count_again expires_at r = record r { attempt_count = suc r.attempt_count; expires_at = expires_at }

-- INSERT … ON CONFLICT (scope, subject_hash, window_started_at) … RETURNING attempt_count
unfoldable pub upsert_limit : String → String → ℕ → ℕ → Option RateLimit → Db → ℕ × Db
unfolding update_where
upsert_limit scope subject_hash start expires_at none db = (
  1,
  record db {
    auth_rate_limits =
        db.auth_rate_limits
        ++ record {
          scope = scope;
          subject_hash = subject_hash;
          window_started_at = start;
          attempt_count = 1;
          expires_at = expires_at;
        }
          ∷ [];
  },
)
upsert_limit scope subject_hash start expires_at (some r) db = (
  suc r.attempt_count,
  record db {
    auth_rate_limits =
        update_where (is_bucket scope subject_hash start) (count_again expires_at)
          db.auth_rate_limits;
  },
)

unfoldable pub consume_rate_limit : String → String → ℕ → ℕ → Db → ℕ × Db
unfolding upsert_limit first_where
consume_rate_limit scope subject_hash start expires_at db =
    upsert_limit scope subject_hash start expires_at
      (first_where (is_bucket scope subject_hash start) db.auth_rate_limits) db

unfoldable pub clear_rate_limit : String → String → ℕ → Tx (Unit {0})
unfolding delete_where
clear_rate_limit scope subject_hash start = modify λ db. record db {
  auth_rate_limits = delete_where (is_bucket scope subject_hash start) db.auth_rate_limits;
}

abbrev pub consumed_limit : RateLimitSpec → String → ℕ × ℕ → ℕ → ConsumedRateLimit
consumed_limit spec subject_hash window count = record {
  scope = spec.scope;
  subject_hash = subject_hash;
  window_started_at = window.0;
  reset_at = window.1;
  count = count;
  maximum = spec.maximum;
}

-- What follows the unit of work, which is committed: the refusal over the limit.
unfoldable pub check_limit : RateLimitSpec → String → ℕ × ℕ → ℕ × Db → Result ConsumedRateLimit × Db
check_limit spec subject_hash window (count, db) = (
  (elim (ltb spec.maximum count) [
    | true ↦ err auth_rate_limited
    | false ↦ ok (consumed_limit spec subject_hash window count)
  ]),
  db,
)

-- `_consume_rate_limit`
unfoldable pub consume_limit :
    (String → String → String) → RateLimitSpec → ℕ → Db → Result ConsumedRateLimit × Db
unfolding check_limit consume_rate_limit
consume_limit hash_subject spec now db =
    let window = fixed_window now spec.window_seconds in
    let subject_hash = hash_subject spec.scope spec.subject in
    check_limit spec subject_hash window
      (consume_rate_limit spec.scope subject_hash window.0 window.1 db)
