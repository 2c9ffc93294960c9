-- ===== src/WebShell/Claims.antt =====
-- About `claim` of services/web_shell.py and `activate` of repositories/web_shell.py: what a claim that
-- returns did.
use ops_composer.Prelude.{
  ℕ, ◌+◌, String, ◌≡◌, refl, sym, ap, subst, ◌∙◌, Bool, true, false, not, Option, none, some, inl,
  inr, arith, ◌==◌, Bool-cases, length, rows_where, update_where, first_where,
}
use ops_composer.Db.{Db, Result, ok, raise_if, require, >>=-eq-ok, raise_if-eq-ok, require-eq-ok}
use ops_composer.Domain.Auth.{Permission, SessionPrincipal}
use ops_composer.Domain.Assets.{Assets}
use ops_composer.Domain.Errors.{
  web_shell_session_expired, web_shell_unavailable, host_key_confirmation_required,
}
use ops_composer.Domain.WebShell.{CredentialType, WebShellSession}
use ops_composer.Audit
use ops_composer.Auth.{require_permission}
use ops_composer.WebShell.Store
use ops_composer.WebShell.Store.{
  is_pending, has_session_id, is_signed_in, can_activate, set_active, activate_lock, activate_found,
  live_lock_of,
}
use ops_composer.WebShell.Service.{
  lease, is_claimable, no_keys, Cipher, Secrets, read_secrets, WebShellLaunch, launch, claim,
}

pub permitted :
    (principal : SessionPrincipal) (p : Permission) (db : Db)
    → principal.permissions p ≡ true
    → require_permission principal p db ≡ ok (tt, db)
unfolding require_permission
permitted principal p db h = rw h refl

module _ (id auth : ℕ) (owner_id : String) (now expires_at : ℕ) (db mid : Db)
    (active : WebShellSession) where
  activate_lock-keeps :
      (row : WebShellSession) (d : Db)
      → activate_lock id owner_id now expires_at row d ≡ ok (some active, mid)
      → mid.web_shell_sessions ≡ d.web_shell_sessions
  unfolding activate_lock
  activate_lock-keeps row d h =
      elim (Bool-cases (length (rows_where (live_lock_of id now) d.host_execution_locks) == 1)) [
        | inl one ↦ ground (arith, rw one at h)
        | inr other ↦ absurd (ground (arith, rw other at h))
      ]

  -- What an activation that returns a row did to the sessions.
  activate_found_parts :
      (o : Option WebShellSession)
      → activate_found id auth owner_id now expires_at o db ≡ ok (some active, mid)
      → (ws : WebShellSession) × (o ≡ some ws)
        × (mid.web_shell_sessions
            ≡ update_where
                (can_activate id auth now db)
                (set_active owner_id now expires_at)
                db.web_shell_sessions)
  unfolding activate_found
  activate_found_parts none h = cc
  activate_found_parts (some ws) h = (
    ws,
    refl,
    activate_lock-keeps (set_active owner_id now expires_at ws)
        (record db {
          web_shell_sessions =
              update_where (can_activate id auth now db) (set_active owner_id now expires_at)
                db.web_shell_sessions;
        })
        h,
  )

  activate_parts :
      Store.activate id auth owner_id now expires_at db ≡ ok (some active, mid)
      → (ws : WebShellSession) × (first_where (can_activate id auth now db) db.web_shell_sessions
          ≡ some ws)
        × (mid.web_shell_sessions
            ≡ update_where
                (can_activate id auth now db)
                (set_active owner_id now expires_at)
                db.web_shell_sessions)
  unfolding Store.activate
  activate_parts h =
      activate_found_parts (first_where (can_activate id auth now db) db.web_shell_sessions) h

returned :
    {A : Type 0} {a b : A} {d e : Db} → ◌≡◌ {A = Result (A × Db)} (ok (a, d)) (ok (b, e)) → e ≡ d
returned h = cc

read_secrets-keeps :
    (cipher : Cipher) (t : CredentialType) (secret : String → Option String) (db mid : Db)
    (x : Secrets)
    → read_secrets cipher t secret db ≡ ok (x, mid)
    → mid ≡ db
unfolding read_secrets
read_secrets-keeps cipher CredentialType.password secret db mid x h =
    let (raw, d1, got, h1) = >>=-eq-ok (require (secret "password") web_shell_unavailable) _ db h in
    let (_, d2, checked, h2) =
      >>=-eq-ok (raise_if (not (cipher.is_line raw)) web_shell_unavailable) _ d1 h1 in
    returned h2 ∙ (raise_if-eq-ok _ _ d1 d2 checked).1 ∙ (require-eq-ok _ _ db d1 got).1
read_secrets-keeps cipher CredentialType.ssh_private_key secret db mid x h =
    let (raw, d1, got, h1) =
      >>=-eq-ok (require (secret "privateKey") web_shell_unavailable) _ db h in
    let (_, d2, checked, h2) =
      >>=-eq-ok (raise_if (not (cipher.is_text raw)) web_shell_unavailable) _ d1 h1 in
    returned h2 ∙ (raise_if-eq-ok _ _ d1 d2 checked).1 ∙ (require-eq-ok _ _ db d1 got).1

launch-keeps :
    (assets : Assets) (cipher : Cipher) (active : WebShellSession) (db db' : Db)
    (l : WebShellLaunch)
    → launch assets cipher active db ≡ ok (l, db')
    → db'.web_shell_sessions ≡ db.web_shell_sessions
unfolding launch Audit.append
launch-keeps assets cipher active db db' l h =
    let (revision, d1, revised, h1) =
      >>=-eq-ok
        (require (assets.get_credential_revision active.credential_id active.credential_version)
          web_shell_unavailable)
        _ db h in
    let (secret, d2, decrypted, h2) =
      >>=-eq-ok (require (cipher.decrypt revision) web_shell_unavailable) _ d1 h1 in
    let (secrets, d3, read, h3) =
      >>=-eq-ok (read_secrets cipher active.credential_type secret) _ d2 h2 in
    let (_, d4, trusted, h4) =
      >>=-eq-ok
        (raise_if (no_keys (assets.list_host_keys active.host_id)) host_key_confirmation_required) _
        d3 h3 in
    ap (λ (d : Db). d.web_shell_sessions) (returned h4)
    ∙ ap (λ (d : Db). d.web_shell_sessions)
        ((raise_if-eq-ok _ _ d3 d4 trusted).1
          ∙ read_secrets-keeps cipher active.credential_type secret d2 d3 secrets read
          ∙ (require-eq-ok _ _ d1 d2 decrypted).1
          ∙ (require-eq-ok _ _ db d1 revised).1)

permission_keeps :
    (principal : SessionPrincipal) (p : Permission) (db mid : Db)
    → require_permission principal p db ≡ ok (tt, mid)
    → mid ≡ db
unfolding require_permission
permission_keeps principal p db mid h = (raise_if-eq-ok _ _ db mid h).1

-- What a claim that returns did to the sessions.
pub claim_parts :
    (assets : Assets) (cipher : Cipher) (id : ℕ) (principal : SessionPrincipal) (owner_id : String)
    (now : ℕ) (db db' : Db) (l : WebShellLaunch)
    → claim assets cipher id principal owner_id now db ≡ ok (l, db')
    → (current : WebShellSession) × (ws : WebShellSession) × (first_where
          (has_session_id id)
          db.web_shell_sessions
        ≡ some current)
      × (is_claimable principal now current ≡ true)
      × (first_where (can_activate id principal.session_id now db) db.web_shell_sessions ≡ some ws)
      × (db'.web_shell_sessions
          ≡ update_where
              (can_activate id principal.session_id now db)
              (set_active owner_id now (now + lease))
              db.web_shell_sessions)
unfolding claim Store.get
claim_parts assets cipher id principal owner_id now db db' l h =
    let (_, d1, allowed, h1) =
      >>=-eq-ok (require_permission principal Permission.web_shell) _ db h in
    let found = first_where (has_session_id id) d1.web_shell_sessions in
    let (current, d3, required, h3) = >>=-eq-ok (require found web_shell_session_expired) _ d1 h1 in
    let (_, d4, guarded, h4) =
      >>=-eq-ok (raise_if (not (is_claimable principal now current)) web_shell_session_expired) _ d3
        h3 in
    let (activated, d5, changed, h5) =
      >>=-eq-ok (Store.activate id principal.session_id owner_id now (now + lease)) _ d4 h4 in
    let (active, d6, given, h6) = >>=-eq-ok (require activated web_shell_session_expired) _ d5 h5 in
    let (claimable, e4) = raise_if-eq-ok _ _ d3 d4 guarded in
    let (present, e3) = require-eq-ok found _ d1 d3 required in
    let e1 : d1 ≡ db = permission_keeps principal Permission.web_shell db d1 allowed in
    let start : d4 ≡ db = e4 ∙ e3 ∙ e1 in
    let (is_given, e6) = require-eq-ok activated _ d5 d6 given in
    let changed' : Store.activate id principal.session_id owner_id now (now + lease) db
        ≡ ok (some active, d5) =
      subst
        (λ d.
          Store.activate id principal.session_id owner_id now (now + lease) d
          ≡ ok (some active, d5))
        start (rw is_given at changed) in
    let (ws, hit, left) =
      activate_parts id principal.session_id owner_id now (now + lease) db d5 active changed' in
    (
      current,
      ws,
      ap (λ (d : Db). first_where (has_session_id id) d.web_shell_sessions) (sym e1) ∙ present,
      is_true (is_claimable principal now current) claimable,
      hit,
      launch-keeps assets cipher active d6 db' l h6
          ∙ ap (λ (d : Db). d.web_shell_sessions) e6
          ∙ left,
    )
  where
    is_true : (b : Bool) → not b ≡ false → b ≡ true
    is_true true e = refl
    is_true false e = cc
