-- ===== src/Auth/Verified.antt =====
-- A login that returns (backend/src/ops_composer/auth/service.py) is one of an active user with the right
-- password.
use ops_composer.Prelude.{
  ℕ, List, String, true, not, ◌||◌, Option, none, some, ◌≡◌, sym, ap, ◌∙◌, inl, inr, arith, text_eq,
  first_where, Bool-cases, Option-cases,
}
use ops_composer.Db.{Db, Tx, Result, ok, err, run_tx, closed}
use ops_composer.Domain.Auth.{UserIdentity, RateLimit}
use ops_composer.Domain.Audit.{AuditSource}
use ops_composer.Domain.Errors.{Failure}
use ops_composer.Auth.Sessions.{Drawn}
use ops_composer.Auth.Users.{is_active, find_user_by_username}
use ops_composer.Auth.RateLimits.{ConsumedRateLimit, is_bucket, consume_rate_limit, upsert_limit}
use ops_composer.Auth.Login.{LoginSettings, AuthResult, password_hash_of, login_tx}
use ops_composer.Auth.Lockout.{Attempt, ip_taken, name_taken, try, login-cases}

not_both :
    {A : Type 0} {e : Failure} {d mid : Db} {a : A}
    → Path (Result A × Db) (err e, d) (ok a, mid)
    → ⊥
not_both {A} {e} {a = a} p = let same : Path (Result A) (err e) (ok a) = ap (λ x. x.0) p in cc

run_tx-ok :
    {A : Type 0} (m : Tx A) (db : Db) {a : A} {mid : Db}
    → run_tx m db ≡ (ok a, mid)
    → m db ≡ ok (a, mid)
unfolding run_tx
run_tx-ok m db {a} {mid} h = go (m db) h
  where
    go : {A : Type 0} {a : A} (r : Result (A × Db)) → closed db r ≡ (ok a, mid) → r ≡ ok (a, mid)
    go (ok (b, d)) k = cc
    go (err x) k = absurd (not_both k)

module _ (settings : LoginSettings) (username : String) (password : String) where
  -- The user of the name is active, and the password is that of the user.
  pub record IsVerified (db : Db) : Type 0 where
    pub user : UserIdentity
    pub named :
        first_where
          (λ u. text_eq (settings.lower u.username) (settings.canonical username))
          db.users
        ≡ some user
    pub live : is_active user.status ≡ true
    pub verified : (settings.verify (password_hash_of db (some user)) password).valid ≡ true

  login_tx-IsVerified :
      (source : AuditSource) (drawn : Drawn) (sealed : List ℕ × ℕ) (bucket : ConsumedRateLimit)
      (now : ℕ) (db db' : Db) {result : AuthResult}
      → login_tx settings source drawn sealed bucket (settings.canonical username) password now db
        ≡ ok (result, db')
      → IsVerified db
  unfolding login_tx find_user_by_username
  login_tx-IsVerified source drawn sealed bucket now db db' h =
      elim (Option-cases (
        first_where (λ u. text_eq (settings.lower u.username) (settings.canonical username))
          db.users)) [
            | inl absent ↦ absurd (let e = rw absent at h in cc)
            | inr (u, found) ↦
                let test =
                  not (is_active u.status)
                  || not (settings.verify (password_hash_of db (some u)) password).valid in
                elim (Bool-cases test) [
                  | inl refused ↦ absurd (let e = rw (found, refused) at h in cc)
                  | inr passed ↦ record {
                    user = u;
                    named = found;
                    live = ground (arith, passed);
                    verified = ground (arith, passed);
                  }
                ]
          ]

  -- The counted attempts change the table of limits only.
  consume_users :
      (scope subject_hash : String) (start expires_at : ℕ) (db : Db)
      → let after = (consume_rate_limit scope subject_hash start expires_at db).1 in
        IsVerified after → IsVerified db
  unfolding consume_rate_limit upsert_limit password_hash_of
  consume_users scope subject_hash start expires_at db v =
      go (first_where (is_bucket scope subject_hash start) db.auth_rate_limits) v
    where
      go :
          (o : Option RateLimit)
          → IsVerified (upsert_limit scope subject_hash start expires_at o db).1
          → IsVerified db
      go none w = record { user = w.user; named = w.named; live = w.live; verified = w.verified }
      go (some r) w = record {
        user = w.user;
        named = w.named;
        live = w.live;
        verified = w.verified;
      }

  -- A login that returns a session or a challenge is for a name of an active user, and its password is
  -- right for the hash that is stored for that user.
  pub login-IsVerified :
      (client_key : String) (a : Attempt) (db db' : Db) {result : AuthResult}
      → a.password ≡ password
      → try settings username client_key a db ≡ (ok result, db')
      → IsVerified db
  unfolding ip_taken name_taken run_tx
  login-IsVerified client_key a db db' {result} same h =
      elim (login-cases settings username client_key a db) [
        | inl (d, e) ↦ absurd (not_both (sym e ∙ h))
        | inr (inl (_, e)) ↦ absurd (not_both (sym e ∙ h))
        | inr (inr (bucket, _, e)) ↦
            let mid =
              (name_taken settings username client_key a
                (ip_taken settings username client_key a db).1).1 in
            let unit =
              login_tx settings a.source a.drawn a.sealed bucket (settings.canonical username)
                a.password a.now in
            let returned : unit mid ≡ ok (result, db') = run_tx-ok unit mid (sym e ∙ h) in
            consume_users _ _ _ _ db (
              consume_users _ _ _ _ _ (
                login_tx-IsVerified a.source a.drawn a.sealed bucket a.now mid db'
                  (rw same at returned)))
      ]
