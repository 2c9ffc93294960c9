-- ===== src/Db.antt =====
-- The database as the services see it, and a unit of work (backend/src/ops_composer/uow/unit.py).
-- A transaction sees and changes the whole database; an exception undoes it.
use ops_composer.Prelude.{
  ℕ, String, Bool, true, false, Option, none, some, List, ◌≡◌, refl, ap, subst,
}
use ops_composer.Domain.Errors.{Failure}
use ops_composer.Domain.Audit.{AuditEvent}
use ops_composer.Domain.Ops.{Run, RunTarget, RunEvent, WorkerLease}
use ops_composer.Domain.Auth.{
  AuthSession, UserIdentity, PasswordCredential, ActivationToken, MfaFactor, RecoveryCode,
  Challenge, RateLimit,
}
use ops_composer.Domain.WebShell.{WebShellSession}
use ops_composer.Domain.Encryption.{
  EncryptionKeyRecord, SystemSecretEnvelope, CredentialSecretEnvelope, KeyRotationJob,
}

-- A row of `host_execution_locks`; its key is the host.
pub record HostLock : Type 0 where
  pub host_id : ℕ
  pub run_id : Option ℕ
  pub owner_id : String
  pub acquired_at : ℕ
  pub expires_at : ℕ
  pub web_shell_session_id : Option ℕ

-- A row of `run_secret_inputs`.
pub record SecretInputs : Type 0 where
  pub run_id : ℕ
  pub encrypted_payload : List ℕ
  pub encryption_key_version : ℕ
  pub parameter_names : List String
  pub created_at : ℕ

pub record Db : Type 0 where
  pub runs : List Run
  pub run_targets : List RunTarget
  pub run_events : List RunEvent
  pub run_secret_inputs : List SecretInputs
  pub worker_leases : List WorkerLease
  pub host_execution_locks : List HostLock
  pub web_shell_sessions : List WebShellSession
  pub audit_events : List AuditEvent
  pub sessions : List AuthSession
  pub users : List UserIdentity
  pub user_credentials : List PasswordCredential
  pub user_activation_tokens : List ActivationToken
  pub user_mfa_factors : List MfaFactor
  pub user_recovery_codes : List RecoveryCode
  pub auth_challenges : List Challenge
  pub auth_rate_limits : List RateLimit
  pub credential_secret_envelopes : List CredentialSecretEnvelope
  pub system_secret_envelopes : List SystemSecretEnvelope
  pub encryption_key_registry : List EncryptionKeyRecord
  pub key_rotation_jobs : List KeyRotationJob

pub data Result {ℓ} (A : Type ℓ) : Type ℓ where
  ok : A → Result A
  err : Failure → Result A

-- What runs inside `async with self._unit_of_work_factory()`: the changes so far are lost with an
-- exception, so a failure carries no database.
abbrev pub Tx : Type 0 → Type 0
Tx A = Db → Result (A × Db)

abbrev pub return : {A : Type 0} → A → Tx A
return a db = ok (a, db)

abbrev pub raise : {A : Type 0} → Failure → Tx A
raise e db = err e

infixl 5 ◌>>=◌ ◌>>◌
abbrev pub ◌>>=◌ : {A B : Type 0} → Tx A → (A → Tx B) → Tx B
◌>>=◌ m f db = elim (m db) [ ok (a, db') ↦ f a db' | err e ↦ err e ]

abbrev pub ◌>>◌ : {B : Type 0} → Tx (Unit {0}) → Tx B → Tx B
m >> k = m >>= λ _. k

abbrev pub gets : {A : Type 0} → (Db → A) → Tx A
gets f db = ok (f db, db)

abbrev pub modify : (Db → Db) → Tx (Unit {0})
modify f db = ok (tt, f db)

-- `if test: raise e`
abbrev pub raise_if : Bool → Failure → Tx (Unit {0})
raise_if true e db = err e
raise_if false e db = ok (tt, db)

-- The value of an optional row, or an exception.
abbrev pub require : {A : Type 0} → Option A → Failure → Tx A
require o e db = elim o [ Option.none ↦ err e | Option.some a ↦ ok (a, db) ]

-- `__aexit__`: commit, or roll back and raise.
abbrev pub closed : {A : Type 0} → Db → Result (A × Db) → Result A × Db
closed db (ok (a, db')) = (ok a, db')
closed db (err e) = (err e, db)

unfoldable pub run_tx : {A : Type 0} → Tx A → Db → Result A × Db
run_tx m db = closed db (m db)

-- What holds of the database after a statement or a unit of work that returns.
abbrev pub After : {A : Type 0} → (Db → Type 0) → Result (A × Db) → Type 0
After P (ok (a, db)) = P db
After P (err e) = Unit

pub After-any : {A : Type 0} (r : Result (A × Db)) → After (λ _. Unit) r
After-any (ok a) = tt
After-any (err e) = tt

pub After-ok :
    {A : Type 0} (P : Db → Type 0) (r : Result (A × Db)) {a : A} {db : Db}
    → After P r
    → r ≡ ok (a, db)
    → P db
After-ok P (ok (b, db')) h e = let same : db' ≡ _ = cc in subst P same h
After-ok P (err x) h e = cc

-- The rule of a bind: what the first part ensures is what the second may use.
pub After-bind :
    {A B : Type 0} (P Q : Db → Type 0) (m : Tx A) (f : A → Tx B) (db : Db)
    → After P (m db)
    → ((a : A) (mid : Db) → P mid → After Q (f a mid))
    → After Q ((m >>= f) db)
After-bind {A} {B} P Q m f db h next = go (m db) h
  where
    go :
        (r : Result (A × Db))
        → After P r
        → After Q (elim r as (λ _. Result (B × Db)) [ ok (a, mid) ↦ f a mid | err e ↦ err e ])
    go (ok (a, mid)) k = next a mid k
    go (err e) k = tt

-- A bind whose first part returns is its second part.
pub >>=-ok :
    {A B : Type 0} (m : Tx A) (f : A → Tx B) (db : Db) {a : A} {mid : Db}
    → m db ≡ ok (a, mid)
    → (m >>= f) db ≡ f a mid
>>=-ok {A} {B} m f db e =
    ap
      (λ (r : Result (A × Db)). elim r as (λ _. Result (B × Db)) [
        | ok (a, mid) ↦ f a mid
        | err x ↦ err x
      ])
      e

-- Inversion of a bind that returns.
pub >>=-eq-ok :
    {A B : Type 0} (m : Tx A) (f : A → Tx B) (db : Db) {b : B} {db' : Db}
    → (m >>= f) db ≡ ok (b, db')
    → (a : A) × (mid : Db) × (m db ≡ ok (a, mid)) × (f a mid ≡ ok (b, db'))
>>=-eq-ok {A} {B} m f db {b} {db'} h = go (m db) refl h
  where
    go :
        (r : Result (A × Db))
        → m db ≡ r
        → elim r as (λ _. Result (B × Db)) [ ok (a, mid) ↦ f a mid | err e ↦ err e ] ≡ ok (b, db')
        → (a : A) × (mid : Db) × (m db ≡ ok (a, mid)) × (f a mid ≡ ok (b, db'))
    go (ok (a, mid)) e k = (a, mid, e, k)
    go (err e) _ k = cc

-- Inversions of the guards.
pub raise_if-eq-ok :
    (b : Bool) (e : Failure) (db mid : Db) {u : Unit {0}}
    → raise_if b e db ≡ ok (u, mid)
    → (b ≡ false) × (mid ≡ db)
raise_if-eq-ok true e db mid h = cc
raise_if-eq-ok false e db mid h = (refl, cc)

pub require-eq-ok :
    {A : Type 0} (o : Option A) (e : Failure) (db mid : Db) {a : A}
    → require o e db ≡ ok (a, mid)
    → (o ≡ some a) × (mid ≡ db)
require-eq-ok none e db mid h = cc
require-eq-ok (some b) e db mid h = (cc, cc)

-- A bind whose first part fails fails.
pub >>=-err :
    {A B : Type 0} (m : Tx A) (f : A → Tx B) (db : Db) {e : Failure}
    → m db ≡ err e
    → (m >>= f) db ≡ err e
>>=-err {A} {B} m f db h =
    ap
      (λ (r : Result (A × Db)). elim r as (λ _. Result (B × Db)) [
        | ok (a, mid) ↦ f a mid
        | err x ↦ err x
      ])
      h

-- A statement or a unit of work that keeps what holds of the database, and the rules that compose them.
abbrev pub Keeps : {A : Type 0} → (Db → Type 0) → Tx A → Type 0
Keeps P m = (db : Db) → P db → After P (m db)

pub Keeps-bind :
    {A B : Type 0} (P : Db → Type 0) (m : Tx A) (f : A → Tx B)
    → Keeps P m
    → ((a : A) → Keeps P (f a))
    → Keeps P (m >>= f)
Keeps-bind P m f h k db p = After-bind P P m f db (h db p) (λ a mid q. k a mid q)

pub Keeps-raise_if : (P : Db → Type 0) (b : Bool) (e : Failure) → Keeps P (raise_if b e)
Keeps-raise_if P true e db p = tt
Keeps-raise_if P false e db p = p

pub Keeps-require :
    {A : Type 0} (P : Db → Type 0) (o : Option A) (e : Failure) → Keeps P (require o e)
Keeps-require P none e db p = tt
Keeps-require P (some a) e db p = p
