-- ===== src/WebShell/Service.antt =====
-- `WebShellService` of backend/src/ops_composer/services/web_shell.py: each method is one unit of work,
-- but for heartbeat, which has two. `now` is `utc_now()`, and a new id is an argument; the assets and
-- the cipher are arguments.
use ops_composer.Prelude.{
  ℕ, ◌+◌, ◌*◌, String, Bool, true, false, not, Option, none, some, List, [], ◌∷◌, ◌&&◌, ◌||◌, ◌==◌,
  ltb, leb, holds_text, if◌then◌else◌,
}
use ops_composer.Db.{Db, Tx, Result, ok, err, return, raise, raise_if, require, run_tx, ◌>>=◌, ◌>>◌}
use ops_composer.Domain.Auth.{Permission, SessionPrincipal}
use ops_composer.Domain.Audit.{AuditAction, AuditOutcome, AuditSource, AuditEvent}
use ops_composer.Domain.Assets.{HostKey, ResolvedHost, CredentialRevision, Assets}
use ops_composer.Domain.Errors.{
  not_found, validation, web_shell_capacity, web_shell_session_expired, web_shell_unavailable,
  host_busy, host_key_confirmation_required,
}
use ops_composer.Domain.WebShell.{
  CredentialType, WebShellState, WebShellCloseReason, WebShellSession,
}
use ops_composer.Audit
use ops_composer.Audit.{session_event, system_event}
use ops_composer.Auth.{require_permission}
use ops_composer.WebShell.Store
use ops_composer.WebShell.Store.{is_pending, is_active}

-- WEB_SHELL_TICKET_SECONDS and WEB_SHELL_LEASE_SECONDS, in microseconds.
abbrev pub ticket : ℕ
ticket = 30 * 1000000

abbrev pub lease : ℕ
lease = 30 * 1000000

unfoldable pub audit_recovered : ℕ → AuditSource → Tx (Unit {0})
unfolding Audit.append
audit_recovered count source =
    if ltb 0 count
    then Audit.append
        (system_event AuditAction.web_shell_stale_recovered AuditOutcome.succeeded source)
    else return tt

abbrev pub no_keys : List HostKey → Bool
no_keys [] = true
no_keys _ = false

abbrev pub only_host : List ResolvedHost → Tx ResolvedHost
only_host (target ∷ []) = return target
only_host _ = raise validation

-- The host is enabled, has one usable credential and a confirmed key.
unfoldable pub resolve : Assets → ℕ → Tx ResolvedHost
resolve assets host_id = do
  host ← require (assets.get_host host_id) not_found
  raise_if (not host.enabled) validation
  target ← only_host (assets.resolve_host_ids (host_id ∷ []))
  raise_if (no_keys (assets.list_host_keys host_id)) host_key_confirmation_required
  return target

unfoldable pub pending_session : ℕ → SessionPrincipal → String → ResolvedHost → ℕ → WebShellSession
pending_session session_id principal api_id target now = record {
  web_shell_session_id = session_id;
  host_id = target.host_id;
  actor_user_id = principal.user_id;
  auth_session_id = principal.session_id;
  credential_id = target.credential_id;
  credential_version = target.credential_version;
  credential_type = target.credential_type;
  host_name = target.name;
  host_address = target.address;
  ssh_port = target.ssh_port;
  username = target.credential_username;
  state = WebShellState.pending;
  api_instance_id = api_id;
  owner_id = none;
  ticket_expires_at = now + ticket;
  lease_expires_at = now + ticket;
  connected_at = none;
  last_activity_at = none;
  close_requested_at = none;
  created_at = now;
}

-- The part of `create` before the host is read: recovery and the limit.
unfoldable pub admit : ℕ → ℕ → Tx (Unit {0})
unfolding Store.cleanup_expired Store.count_live audit_recovered
admit max_sessions now = do
  recovered ← Store.cleanup_expired now
  audit_recovered recovered AuditSource.api
  live_sessions ← Store.count_live now
  raise_if (leb max_sessions live_sessions) web_shell_capacity

-- The part of `create` after the host is read. `pending` is the owner `pending:{owner_id}`.
unfoldable pub open_session : ℕ → WebShellSession → String → ℕ → Tx WebShellSession
unfolding Store.add Store.acquire_host_lock Audit.append
open_session host_id new pending now = do
  session ← Store.add new
  acquired ← Store.acquire_host_lock host_id session.web_shell_session_id pending now (now + ticket)
  raise_if (not acquired) host_busy
  Audit.append (
      session_event AuditAction.web_shell_requested AuditOutcome.succeeded session.actor_user_id
        session.auth_session_id)
  return session

unfoldable pub create :
    Assets → ℕ → ℕ → ℕ → SessionPrincipal → String → String → ℕ → Tx WebShellSession
unfolding admit resolve pending_session open_session require_permission
create assets max_sessions session_id host_id principal api_id pending now = do
  require_permission principal Permission.web_shell
  admit max_sessions now
  target ← resolve assets host_id
  open_session host_id (pending_session session_id principal api_id target now) pending now

-- The guard of `claim` on the row that it reads for update.
unfoldable pub is_claimable : SessionPrincipal → ℕ → WebShellSession → Bool
is_claimable principal now current =
    current.actor_user_id == principal.user_id
    && current.auth_session_id == principal.session_id
    && is_pending current.state
    && ltb now current.ticket_expires_at

-- The secrets of a launch, for the session's type of credential.
pub record Secrets : Type 0 where
  pub password : Option String
  pub private_key : Option String
  pub passphrase : Option String

pub record WebShellLaunch : Type 0 where
  pub session : WebShellSession
  pub secrets : Secrets
  pub known_hosts : List HostKey

-- The cipher's answer is a dictionary, or a ValueError. `is_text` is the test that a value is neither
-- empty nor has a NUL, and `is_line` that it has no line break either.
pub record Cipher : Type 0 where
  pub decrypt : CredentialRevision → Option (String → Option String)
  pub is_text : String → Bool
  pub is_line : String → Bool

unfoldable pub read_secrets : Cipher → CredentialType → (String → Option String) → Tx Secrets
read_secrets cipher CredentialType.password secret = do
  raw_password ← require (secret "password") web_shell_unavailable
  raise_if (not (cipher.is_line raw_password)) web_shell_unavailable
  return (record { password = some raw_password; private_key = none; passphrase = none })
read_secrets cipher CredentialType.ssh_private_key secret = do
  raw_private_key ← require (secret "privateKey") web_shell_unavailable
  raise_if (not (cipher.is_text raw_private_key)) web_shell_unavailable
  return (record {
    password = none;
    private_key = some raw_private_key;
    passphrase = secret "passphrase";
  })

-- The part of `claim` after the activation.
unfoldable pub launch : Assets → Cipher → WebShellSession → Tx WebShellLaunch
unfolding read_secrets Audit.append
launch assets cipher active = do
  revision ←
      require (assets.get_credential_revision active.credential_id active.credential_version)
        web_shell_unavailable
  secret ← require (cipher.decrypt revision) web_shell_unavailable
  secrets ← read_secrets cipher active.credential_type secret
  let keys = assets.list_host_keys active.host_id
  raise_if (no_keys keys) host_key_confirmation_required
  Audit.append (
      session_event AuditAction.web_shell_started AuditOutcome.succeeded active.actor_user_id
        active.auth_session_id)
  return (record { session = active; secrets = secrets; known_hosts = keys })

unfoldable pub claim : Assets → Cipher → ℕ → SessionPrincipal → String → ℕ → Tx WebShellLaunch
unfolding Store.get Store.activate is_claimable launch require_permission
claim assets cipher web_shell_session_id principal owner_id now = do
  require_permission principal Permission.web_shell
  found ← Store.get web_shell_session_id
  current ← require found web_shell_session_expired
  raise_if (not (is_claimable principal now current)) web_shell_session_expired
  activated ← Store.activate web_shell_session_id principal.session_id owner_id now (now + lease)
  active ← require activated web_shell_session_expired
  launch assets cipher active

-- Why a heartbeat was refused, from the row that the second unit of work reads.
abbrev pub refused_reason : String → Option WebShellSession → WebShellCloseReason
refused_reason owner_id none = WebShellCloseReason.auth_session_invalid
refused_reason owner_id (some current) =
    if holds_text current.owner_id owner_id
      && elim current.state [ WebShellState.close_requested ↦ true | _ ↦ false ]
    then WebShellCloseReason.user_requested
    else WebShellCloseReason.auth_session_invalid

-- What follows the first unit of work. Other transactions may commit before the second: `meanwhile`.
unfoldable pub after_heartbeat :
    (Db → Db) → ℕ → String → Result Bool × Db → Result (Option WebShellCloseReason) × Db
unfolding Store.get run_tx
after_heartbeat meanwhile web_shell_session_id owner_id (err e, db) = (err e, db)
after_heartbeat meanwhile web_shell_session_id owner_id (ok true, db) = (ok none, db)
after_heartbeat meanwhile web_shell_session_id owner_id (ok false, db) =
    run_tx
      (do current ← Store.get web_shell_session_id; return (some (refused_reason owner_id current)))
      (meanwhile db)

-- `none` goes on.
unfoldable pub heartbeat :
    (Db → Db) → ℕ → String → ℕ → ℕ → Db → Result (Option WebShellCloseReason) × Db
unfolding Store.heartbeat after_heartbeat run_tx
heartbeat meanwhile web_shell_session_id owner_id now last_activity_at db =
    after_heartbeat meanwhile web_shell_session_id owner_id
      (run_tx (Store.heartbeat web_shell_session_id owner_id now (now + lease) last_activity_at) db)

abbrev pub timed_out : WebShellCloseReason → Bool
timed_out WebShellCloseReason.idle_timeout = true
timed_out WebShellCloseReason.max_duration = true
timed_out _ = false

abbrev pub failed : WebShellCloseReason → Bool
failed WebShellCloseReason.auth_session_invalid = true
failed WebShellCloseReason.database_unavailable = true
failed WebShellCloseReason.start_failed = true
failed WebShellCloseReason.protocol_error = true
failed WebShellCloseReason.slow_consumer = true
failed _ = false

unfoldable pub finished_event : WebShellSession → WebShellCloseReason → AuditEvent
finished_event session reason =
    session_event
      (if timed_out reason
        then AuditAction.web_shell_timed_out
        else (if failed reason then AuditAction.web_shell_failed else AuditAction.web_shell_closed))
      (if failed reason || timed_out reason then AuditOutcome.failed else AuditOutcome.succeeded)
      session.actor_user_id session.auth_session_id

-- `request_close` for a session of the caller.
unfoldable pub close_own : ℕ → SessionPrincipal → ℕ → WebShellSession → Tx (Unit {0})
unfolding Store.delete Store.mark_close_requested finished_event Audit.append
close_own web_shell_session_id principal now current = elim current.state as (λ _. Tx (Unit {0})) [
  | WebShellState.pending ↦ do
    Store.delete web_shell_session_id none >>= λ _. return tt
    Audit.append (finished_event current WebShellCloseReason.user_requested)
  | WebShellState.active ↦ do
    updated ← Store.mark_close_requested web_shell_session_id principal.user_id now
    elim updated as (λ _. Tx (Unit {0})) [
      | none ↦ return tt
      | some _ ↦ Audit.append (
          session_event AuditAction.web_shell_close_requested AuditOutcome.succeeded
            principal.user_id principal.session_id)
    ]
  | WebShellState.close_requested ↦ return tt
]

unfoldable pub request_close : ℕ → SessionPrincipal → ℕ → Tx (Unit {0})
unfolding Store.get close_own
request_close web_shell_session_id principal now = do
  found ← Store.get web_shell_session_id
  elim found as (λ _. Tx (Unit {0})) [
    | none ↦ return tt
    | some current ↦
        if current.actor_user_id == principal.user_id
        then close_own web_shell_session_id principal now current
        else return tt
  ]

-- `finish`, and `discard_failed_claim`, which calls it.
unfoldable pub finish : ℕ → String → WebShellCloseReason → Tx (Unit {0})
unfolding Store.delete finished_event Audit.append
finish web_shell_session_id owner_id reason = do
  deleted ← Store.delete web_shell_session_id (some owner_id)
  elim deleted as (λ _. Tx (Unit {0})) [
    | none ↦ return tt
    | some current ↦ Audit.append (finished_event current reason)
  ]

unfoldable pub recover_stale : ℕ → Tx ℕ
unfolding Store.cleanup_expired audit_recovered
recover_stale now = do
  count ← Store.cleanup_expired now
  audit_recovered count AuditSource.system
  return count
