-- ===== src/WebShell/Create.antt =====
-- The two parts of `create` of services/web_shell.py that change the database, inverted.
use ops_composer.Prelude.{
  ℕ, ◌+◌, ◌<◌, String, ◌≡◌, sym, ap, subst, ◌∙◌, true, false, not, Option, none, some, List, [],
  ◌∷◌, ◌++◌, inl, inr, arith, ltb, leb, Bool-cases, length, rows_where, exists_where,
}
use ops_composer.Db.{
  Db, HostLock, Result, ok, return, raise_if, require, >>=-eq-ok, raise_if-eq-ok, require-eq-ok,
  ◌>>◌,
}
use ops_composer.Domain.Auth.{Permission, SessionPrincipal}
use ops_composer.Domain.Audit.{AuditAction, AuditOutcome, AuditSource}
use ops_composer.Domain.Assets.{ResolvedHost, Assets}
use ops_composer.Domain.WebShell.{WebShellSession}
use ops_composer.Domain.Errors.{not_found, validation, host_busy, web_shell_capacity}
use ops_composer.Audit
use ops_composer.Audit.{session_event}
use ops_composer.Auth.{require_permission}
use ops_composer.Locks.{take_lock}
use ops_composer.WebShell.Store
use ops_composer.WebShell.Store.{
  acquire_answer, is_live, is_expired, shell_lock, delete_sessions, lock_of_any, has_session_id,
}
use ops_composer.WebShell.Service.{
  ticket, audit_recovered, only_host, no_keys, admit, resolve, pending_session, open_session,
  create,
}

unfoldable pub live_count : ℕ → Db → ℕ
unfolding rows_where
live_count now db = length (rows_where (is_live now) db.web_shell_sessions)

require_permission-keeps :
    (principal : SessionPrincipal) (p : Permission) (db mid : Db)
    → require_permission principal p db ≡ ok (tt, mid)
    → mid ≡ db
unfolding require_permission
require_permission-keeps principal p db mid h = (raise_if-eq-ok _ _ db mid h).1

returned :
    {A : Type 0} {a b : A} {d e : Db} → ◌≡◌ {A = Result (A × Db)} (ok (a, d)) (ok (b, e)) → e ≡ d
returned h = cc

only_host-keeps :
    (hs : List ResolvedHost) (db mid : Db) (target : ResolvedHost)
    → only_host hs db ≡ ok (target, mid)
    → mid ≡ db
only_host-keeps [] db mid target h = cc
only_host-keeps (x ∷ []) db mid target h = cc
only_host-keeps (x ∷ y ∷ hs) db mid target h = cc

resolve-keeps :
    (assets : Assets) (host_id : ℕ) (db mid : Db) (target : ResolvedHost)
    → resolve assets host_id db ≡ ok (target, mid)
    → mid ≡ db
unfolding resolve
resolve-keeps assets host_id db mid target h =
    let (host, d1, found, h1) = >>=-eq-ok (require (assets.get_host host_id) not_found) _ db h in
    let (_, d2, enabled, h2) = >>=-eq-ok (raise_if (not host.enabled) validation) _ d1 h1 in
    let (chosen, d3, only, h3) =
      >>=-eq-ok (only_host (assets.resolve_host_ids (host_id ∷ []))) _ d2 h2 in
    let (_, d4, trusted, h4) =
      >>=-eq-ok (raise_if (no_keys (assets.list_host_keys host_id)) _) _ d3 h3 in
    returned h4
    ∙ (raise_if-eq-ok _ _ d3 d4 trusted).1
    ∙ only_host-keeps (assets.resolve_host_ids (host_id ∷ [])) d2 d3 chosen only
    ∙ (raise_if-eq-ok _ _ d1 d2 enabled).1
    ∙ (require-eq-ok _ _ db d1 found).1

-- The database between the two parts of `create` that change it.
pub create_parts :
    (assets : Assets) (max_sessions session_id host_id : ℕ) (principal : SessionPrincipal)
    (api_id pending : String) (now : ℕ) (db db' : Db) (s : WebShellSession)
    → create assets max_sessions session_id host_id principal api_id pending now db ≡ ok (s, db')
    → (mid : Db) × (target : ResolvedHost) × (admit max_sessions now db ≡ ok (tt, mid))
      × (open_session host_id
            (pending_session session_id principal api_id target now)
            pending
            now
            mid
          ≡ ok (s, db'))
unfolding create
create_parts assets max_sessions session_id host_id principal api_id pending now db db' s h =
    let (_, d1, permitted, h1) =
      >>=-eq-ok (require_permission principal Permission.web_shell) _ db h in
    let e1 : d1 ≡ db = require_permission-keeps principal Permission.web_shell db d1 permitted in
    let (_, mid, admitted, h2) = >>=-eq-ok (admit max_sessions now) _ d1 h1 in
    let (target, d3, resolved, h3) = >>=-eq-ok (resolve assets host_id) _ mid h2 in
    (
      mid,
      target,
      subst (λ d. admit max_sessions now d ≡ ok (tt, mid)) e1 admitted,
      subst
          (λ d.
            open_session host_id (pending_session session_id principal api_id target now) pending
              now d
            ≡ ok (s, db'))
          (resolve-keeps assets host_id mid d3 target resolved) h3,
    )

pub audit_recovered-keeps :
    (count : ℕ) (source : AuditSource) (db mid : Db)
    → audit_recovered count source db ≡ ok (tt, mid)
    → (mid.web_shell_sessions ≡ db.web_shell_sessions)
      × (mid.host_execution_locks ≡ db.host_execution_locks)
unfolding audit_recovered Audit.append
audit_recovered-keeps count source db mid h = elim (Bool-cases (ltb 0 count)) [
  | inl some_gone ↦ ground (arith, rw some_gone at h)
  | inr none_gone ↦ ground (arith, rw none_gone at h)
]

-- What the first part leaves.
pub admit_parts :
    (max_sessions now : ℕ) (db mid : Db)
    → admit max_sessions now db ≡ ok (tt, mid)
    → (live_count now mid < max_sessions)
      × (mid.host_execution_locks ≡ (delete_sessions (is_expired now) db).host_execution_locks)
unfolding admit Store.cleanup_expired Store.count_live live_count
admit_parts max_sessions now db mid h =
    let n = length (rows_where (is_expired now) db.web_shell_sessions) in
    let cleaned : Db = delete_sessions (is_expired now) db in
    let (_, d2, audited, h2) =
      >>=-eq-ok (audit_recovered n AuditSource.api)
        (λ _ d. raise_if (leb max_sessions (live_count now d)) web_shell_capacity d) cleaned h in
    let (below, same) =
      raise_if-eq-ok (leb max_sessions (live_count now d2)) web_shell_capacity d2 mid h2 in
    (
      subst (λ d. live_count now d < max_sessions) (sym same)
          (not_leb max_sessions (live_count now d2) below),
      ap (λ (d : Db). d.host_execution_locks) same
          ∙ (audit_recovered-keeps n AuditSource.api cleaned d2 audited).1,
    )
  where
    not_leb : (m n : ℕ) → leb m n ≡ false → n < m
    not_leb m n e = ground (arith, e)

add_parts :
    (new s : WebShellSession) (mid d : Db)
    → Store.add new mid ≡ ok (s, d)
    → (s ≡ new) × (d ≡ record mid { web_shell_sessions = mid.web_shell_sessions ++ new ∷ [] })
unfolding Store.add
add_parts new s mid d h =
    elim (Bool-cases
      (exists_where (has_session_id new.web_shell_session_id) mid.web_shell_sessions)) [
        | inl clash ↦ absurd (ground (arith, rw clash at h))
        | inr fresh ↦ let h' = rw fresh at h in (cc, returned h')
      ]

acquire_parts :
    (host_id session_id : ℕ) (owner_id : String) (now expires_at : ℕ) (mid d : Db)
    → Store.acquire_host_lock host_id session_id owner_id now expires_at mid ≡ ok (true, d)
    → (d.web_shell_sessions ≡ mid.web_shell_sessions)
      × (take_lock
            (shell_lock host_id session_id owner_id now expires_at)
            now
            mid.host_execution_locks
          ≡ some d.host_execution_locks)
unfolding Store.acquire_host_lock
acquire_parts host_id session_id owner_id now expires_at mid d h =
    go
      (take_lock (shell_lock host_id session_id owner_id now expires_at) now
        mid.host_execution_locks)
      h
  where
    go :
        (o : Option (List HostLock))
        → acquire_answer o mid ≡ ok (true, d)
        → (d.web_shell_sessions ≡ mid.web_shell_sessions) × (o ≡ some d.host_execution_locks)
    go none e = cc
    go (some locks) e =
        let left : d ≡ record mid { host_execution_locks = locks } = returned e in
        (
          ap (λ (x : Db). x.web_shell_sessions) left,
          ap some (sym (ap (λ (x : Db). x.host_execution_locks) left)),
        )

audited_parts :
    (x : WebShellSession) (d db' : Db) (s : WebShellSession)
    → (Audit.append (
            session_event AuditAction.web_shell_requested AuditOutcome.succeeded x.actor_user_id
              x.auth_session_id)
          >> return x)
        d
      ≡ ok (s, db')
    → (db'.web_shell_sessions ≡ d.web_shell_sessions)
      × (db'.host_execution_locks ≡ d.host_execution_locks)
unfolding Audit.append
audited_parts x d db' s h =
    let e = returned h in
    (ap (λ (y : Db). y.web_shell_sessions) e, ap (λ (y : Db). y.host_execution_locks) e)

-- What the second part leaves.
pub open_session_parts :
    (host_id : ℕ) (new : WebShellSession) (pending : String) (now : ℕ) (mid db' : Db)
    (s : WebShellSession)
    → open_session host_id new pending now mid ≡ ok (s, db')
    → (db'.web_shell_sessions ≡ mid.web_shell_sessions ++ new ∷ [])
      × (take_lock
            (shell_lock host_id new.web_shell_session_id pending now (now + ticket))
            now
            mid.host_execution_locks
          ≡ some db'.host_execution_locks)
unfolding open_session
open_session_parts host_id new pending now mid db' s h =
    let (x, d1, added, h1) = >>=-eq-ok (Store.add new) _ mid h in
    let (acquired, d2, locked, h2) =
      >>=-eq-ok (Store.acquire_host_lock host_id x.web_shell_session_id pending now (now + ticket))
        _ d1 h1 in
    let (_, d3, guarded, h3) = >>=-eq-ok (raise_if (not acquired) host_busy) _ d2 h2 in
    let (got, e3) = raise_if-eq-ok (not acquired) host_busy d2 d3 guarded in
    let (e0, e1) = add_parts new x mid d1 added in
    let is_acquired : acquired ≡ true = ground (arith, got) in
    let (same, taken) =
      acquire_parts host_id x.web_shell_session_id pending now (now + ticket) d1 d2
        (rw is_acquired at locked) in
    let (sessions, locks) = audited_parts x d3 db' s h3 in
    (
      sessions ∙ rw e3 same ∙ ap (λ (d : Db). d.web_shell_sessions) e1,
      subst
          (λ y.
            take_lock (shell_lock host_id y.web_shell_session_id pending now (now + ticket)) now
              mid.host_execution_locks
            ≡ some db'.host_execution_locks)
          e0
          (rw (ap (λ (d : Db). d.host_execution_locks) e1) at taken
            ∙ ap (λ (d : Db). some d.host_execution_locks) (sym e3)
            ∙ ap some (sym locks)),
    )
