-- ===== src/Auth/Lockout.antt =====
-- The limits of `login` (backend/src/ops_composer/auth/service.py): how many passwords a client can try
-- for a name in a window.
use ops_composer.Prelude.{
  ℕ, suc, ◌+◌, ◌≤◌, ◌<◌, String, Bool, true, false, Option, none, some, List, [], ◌∷◌, ◌≡◌, refl,
  sym, ◌⊎◌, ap, ◌∙◌, inl, inr, arith, ltb, ==_refl, text_refl, length, Bool-cases, Option-cases,
  if◌then◌else◌, first_where, first_where-append, first_where-append_none, first_where-update_where,
  first_where_holds,
}
use ops_composer.Db.{Db, Tx, Result, ok, err, run_tx, closed}
use ops_composer.Domain.Auth.{RateLimit}
use ops_composer.Domain.Audit.{AuditSource}
use ops_composer.Domain.Errors.{Failure, invalid_credentials, auth_rate_limited}
use ops_composer.Auth.Sessions.{Drawn}
use ops_composer.Auth.RateLimits.{
  RateLimitSpec, ConsumedRateLimit, fixed_window, is_bucket, count_again, upsert_limit,
  consume_rate_limit, check_limit, consumed_limit, consume_limit,
}
use ops_composer.Auth.Login.{
  LoginSettings, AuthResult, ip_limit, username_ip_limit, then_within, login_tx, login,
}

abbrev counted : Option RateLimit → ℕ
counted none = 0
counted (some r) = r.attempt_count

-- The attempts that are counted in a window.
unfoldable pub attempts : String → String → ℕ → List RateLimit → ℕ
unfolding first_where
attempts scope subject_hash start rows =
    counted (first_where (is_bucket scope subject_hash start) rows)

module _ (scope subject_hash : String) (start : ℕ) where
  abbrev in_bucket : RateLimit → Bool
  in_bucket = is_bucket scope subject_hash start

  new_here :
      (n expires_at : ℕ)
      → in_bucket (record {
        scope = scope;
        subject_hash = subject_hash;
        window_started_at = start;
        attempt_count = n;
        expires_at = expires_at;
      })
        ≡ true
  new_here n expires_at = rw (text_refl scope, text_refl subject_hash, ==_refl start) refl

  -- An attempt is counted.
  consume_counts :
      (expires_at : ℕ) (db : Db)
      → let after = consume_rate_limit scope subject_hash start expires_at db in
        (after.0 ≡ suc (attempts scope subject_hash start db.auth_rate_limits))
        × (attempts scope subject_hash start after.1.auth_rate_limits ≡ after.0)
  unfolding consume_rate_limit upsert_limit attempts
  consume_counts expires_at db = elim (Option-cases (first_where in_bucket db.auth_rate_limits)) [
    | inl absent ↦ rw absent (
      refl,
      ap counted (first_where-append_none in_bucket db.auth_rate_limits _ absent)
          ∙ rw (new_here 1 expires_at) refl,
    )
    | inr (r, found) ↦ rw found (
      refl,
      ap counted (
            first_where-update_where in_bucket in_bucket (count_again expires_at) (λ x. refl)
              db.auth_rate_limits)
          ∙ rw (found, first_where_holds in_bucket db.auth_rate_limits found) refl,
    )
  ]

-- No attempt of another bucket is lost.
consume_keeps :
    (scope subject_hash : String) (start : ℕ) (scope' hash' : String) (start' expires_at : ℕ)
    (db : Db)
    → attempts scope subject_hash start db.auth_rate_limits
      ≤ attempts scope subject_hash start
          (consume_rate_limit scope' hash' start' expires_at db).1.auth_rate_limits
unfolding consume_rate_limit upsert_limit attempts
consume_keeps scope subject_hash start scope' hash' start' expires_at db =
    elim (Option-cases (first_where q rows)) [
      | inl absent ↦ rw absent (omega arith)
      | inr (r, found) ↦ elim (Option-cases (first_where p rows)) [
        | inl fresh ↦ rw (fresh, first_where-append q rows _ found, found) (omega arith)
        | inr (s, old) ↦
            let changed = first_where-update_where q p (count_again expires_at) (λ x. refl) rows in
            rw (old, changed, found) (kept (p r) r)
      ]
    ]
  where
    rows : List RateLimit
    rows = db.auth_rate_limits

    q : RateLimit → Bool
    q = is_bucket scope subject_hash start

    p : RateLimit → Bool
    p = is_bucket scope' hash' start'

    kept :
        (b : Bool) (r : RateLimit)
        → r.attempt_count ≤ (if b then count_again expires_at r else r).attempt_count
    kept true r = omega arith
    kept false r = omega arith

-- Within the limit, or over it.
check_limit-cases :
    (spec : RateLimitSpec) (subject_hash : String) (window : ℕ × ℕ) (taken : ℕ × Db)
    → ((spec.maximum < taken.0)
        × (check_limit spec subject_hash window taken ≡ (err auth_rate_limited, taken.1)))
      ⊎ ((taken.0 ≤ spec.maximum)
          × (check_limit spec subject_hash window taken
              ≡ (ok (consumed_limit spec subject_hash window taken.0), taken.1)))
unfolding check_limit
check_limit-cases spec subject_hash window (count, db) =
    elim (Bool-cases (ltb spec.maximum count)) [
      | inl over ↦ inl (ground (arith, over), rw over refl)
      | inr within ↦ inr (ground (arith, within), rw within refl)
    ]

limited_once :
    {A : Type 0} {d mid : Db}
    → Path (Result A × Db) (err auth_rate_limited, d) (err invalid_credentials, mid)
    → ⊥
limited_once {A} e =
    let same : Path (Result A) (err auth_rate_limited) (err invalid_credentials) =
      ap (λ x. x.0) e in
    cc

run_tx-err :
    {A : Type 0} (m : Tx A) (db : Db) {e : Failure} {mid : Db}
    → run_tx m db ≡ (err e, mid)
    → mid ≡ db
unfolding run_tx
run_tx-err m db {e} {mid} h = go (m db) h
  where
    go : {A : Type 0} (r : Result (A × Db)) → closed db r ≡ (err e, mid) → mid ≡ db
    go (ok (a, d)) k = cc
    go (err x) k = cc

-- What a login is given, apart from the name and the client.
pub record Attempt : Type 0 where
  pub source : AuditSource
  pub drawn : Drawn
  pub sealed : List ℕ × ℕ
  pub password : String
  pub now : ℕ

module _ (settings : LoginSettings) (username client_key : String) where
  abbrev pub try : Attempt → Db → Result AuthResult × Db
  try a = login settings a.source a.drawn a.sealed username a.password client_key a.now

  abbrev pub spec : RateLimitSpec
  spec = username_ip_limit settings (settings.canonical username) client_key

  abbrev pub subject : String
  subject = settings.hash_subject spec.scope spec.subject

  -- The attempts of the name and the client that are counted in a window.
  abbrev pub tried : ℕ → Db → ℕ
  tried window db = attempts spec.scope subject window db.auth_rate_limits

  abbrev pub IsIn : ℕ → Attempt → Type 0
  IsIn window a = (fixed_window a.now settings.username_ip_window_seconds).0 ≡ window

  -- Attempts that were refused for the name or the password, one after the other.
  pub data Refused (window : ℕ) : List Attempt → Db → Db → Type 0 where
    none_yet : {db : Db} → Refused window [] db db
    one_more :
        {a : Attempt} {rest : List Attempt} {db mid db' : Db}
        → IsIn window a
        → try a db ≡ (err invalid_credentials, mid)
        → Refused window rest mid db'
        → Refused window (a ∷ rest) db db'

  unfoldable pub ip_taken : Attempt → Db → ℕ × Db
  ip_taken a db =
      let ip = ip_limit settings client_key in
      let window = fixed_window a.now ip.window_seconds in
      consume_rate_limit ip.scope (settings.hash_subject ip.scope ip.subject) window.0 window.1 db

  unfoldable pub name_taken : Attempt → Db → ℕ × Db
  name_taken a db =
      let window = fixed_window a.now spec.window_seconds in
      consume_rate_limit spec.scope subject window.0 window.1 db

  -- Refused for the address, refused for the name, or left to the unit of work.
  pub login-cases :
      (a : Attempt) (db : Db)
      → ((mid : Db) × (try a db ≡ (err auth_rate_limited, mid)))
        ⊎ ((spec.maximum < (name_taken a (ip_taken a db).1).0
              × (try a db ≡ (err auth_rate_limited, (name_taken a (ip_taken a db).1).1)))
            ⊎ ((bucket : ConsumedRateLimit) × ((name_taken a (ip_taken a db).1).0 ≤ spec.maximum)
                × (try a db
                    ≡ run_tx
                        (login_tx settings a.source a.drawn a.sealed bucket
                          (settings.canonical username)
                          a.password
                          a.now)
                        (name_taken a (ip_taken a db).1).1)))
  unfolding login consume_limit ip_taken name_taken
  login-cases a db =
      let ip = ip_limit settings client_key in
      elim (check_limit-cases ip (settings.hash_subject ip.scope ip.subject)
        (fixed_window a.now ip.window_seconds) (ip_taken a db)) [
          | inl (_, refused) ↦ inl (_, ap (λ r. then_within r next) refused)
          | inr (_, within) ↦
              let first_part = ap (λ r. then_within r next) within in
              elim (check_limit-cases spec subject (fixed_window a.now spec.window_seconds)
                (name_taken a (ip_taken a db).1)) [
                  | inl (over, refused) ↦
                      inr (inl (over, first_part ∙ ap (λ r. then_within r body) refused))
                  | inr (low, passed) ↦ inr (
                      inr (
                        consumed_limit spec subject (fixed_window a.now spec.window_seconds)
                            (name_taken a (ip_taken a db).1).0,
                        low,
                        first_part ∙ ap (λ r. then_within r body) passed,
                      ))
                ]
        ]
    where
      body : ConsumedRateLimit → Db → Result AuthResult × Db
      body bucket mid =
          run_tx
            (login_tx settings a.source a.drawn a.sealed bucket (settings.canonical username)
              a.password a.now)
            mid

      next : ConsumedRateLimit → Db → Result AuthResult × Db
      next _ counted_db =
          then_within (consume_limit settings.hash_subject spec a.now counted_db) body

  -- A refused attempt is counted.
  refused_counts :
      (window : ℕ) (a : Attempt) (db mid : Db)
      → IsIn window a
      → try a db ≡ (err invalid_credentials, mid)
      → suc (tried window db) ≤ tried window mid
  unfolding ip_taken name_taken
  refused_counts window a db mid inside h =
      let first_db = (ip_taken a db).1 in
      let here = (fixed_window a.now spec.window_seconds).0 in
      let ends = (fixed_window a.now spec.window_seconds).1 in
      let more : tried here db ≤ tried here first_db =
        consume_keeps spec.scope subject here _ _ _ _ db in
      let counts = consume_counts spec.scope subject here ends first_db in
      elim (login-cases a db) [
        | inl (d, e) ↦ absurd (limited_once (sym e ∙ h))
        | inr (inl (_, e)) ↦ absurd (limited_once (sym e ∙ h))
        | inr (inr (bucket, _, e)) ↦
            let same = run_tx-err _ _ (sym e ∙ h) in
            rw (← inside, same) (omega (arith, more, counts.0, counts.1))
      ]

  refused_all :
      (window : ℕ) (tries : List Attempt) (db db' : Db)
      → Refused window tries db db'
      → length tries + tried window db ≤ tried window db'
  refused_all window _ _ _ none_yet = omega arith
  refused_all window _ _ _ (one_more {a} {rest} {db} {mid} {db'} inside h more) =
      omega (arith, refused_counts window a db mid inside h, refused_all window rest mid db' more)

  -- After a run of attempts for one name from one client, with nothing between them, as many as the
  -- limit allows and each refused in one window of the clock for the name or the password, the next
  -- attempt in that window raises AuthRateLimitedError, whatever its password.
  pub login_limited :
      (window : ℕ) (tries : List Attempt) (db db' : Db) (a : Attempt)
      → Refused window tries db db'
      → settings.username_ip_limit ≤ length tries
      → IsIn window a
      → (try a db').0 ≡ err auth_rate_limited
  unfolding ip_taken name_taken
  login_limited window tries db db' a refused enough inside =
      let first_db = (ip_taken a db').1 in
      let here = (fixed_window a.now spec.window_seconds).0 in
      let ends = (fixed_window a.now spec.window_seconds).1 in
      let more : tried here db' ≤ tried here first_db =
        consume_keeps spec.scope subject here _ _ _ _ db' in
      let counts = consume_counts spec.scope subject here ends first_db in
      let all = refused_all window tries db db' refused in
      elim (login-cases a db') [
        | inl (d, e) ↦ ap (λ x. x.0) e
        | inr (inl (_, e)) ↦ ap (λ x. x.0) e
        | inr (inr (bucket, low, _)) ↦
            let all_here : length tries + tried here db ≤ tried here db' = rw (← inside) at all in
            absurd (omega (arith, more, counts.0, all_here, low, enough))
      ]
