-- ===== src/WebShell/Examples.antt =====
-- The theorems on Web Shells at a concrete host.
use ops_composer.Prelude.{◌≤◌, ◌≡◌, refl, true, false, none, some, [], ◌∷◌}
use ops_composer.Prelude.{exists_where}
use ops_composer.Domain.Audit.{AuditSource}
use ops_composer.Audit.{system_event}
use ops_composer.WebShell.Store.{is_expired}
use ops_composer.WebShell.Service.{recover_stale}
use ops_composer.WebShell.Recovery.{good_until, lock_of_session, recover_stale-live}
use ops_composer.WebShell.Store
use ops_composer.WebShell.Store.{has_session_id}
use ops_composer.WebShell.Steps.{deleted, here, next}
use ops_composer.Prelude.{All, rows_where, ltb, leb, first_where}
use ops_composer.Db.{Db, ok, err}
use ops_composer.Domain.Auth.{UserRole, UserStatus, SessionPrincipal}
use ops_composer.Domain.Assets.{HostKey, ResolvedHost, Assets}
use ops_composer.Domain.WebShell.{CredentialType, WebShellState, WebShellSession}
use ops_composer.Domain.Audit.{AuditAction, AuditOutcome}
use ops_composer.Domain.Errors.{web_shell_session_expired}
use ops_composer.Audit.{session_event}
use ops_composer.Locks.{lock_of}
use ops_composer.WebShell.Store.{shell_lock}
use ops_composer.WebShell.Service.{create, claim, Cipher, WebShellLaunch}
use ops_composer.WebShell.Ticket.{claim_once}
use ops_composer.WebShell.Create.{live_count}
use ops_composer.WebShell.Limits.{create-bounded, create_excluded}
use ops_composer.Samples.{queued_db}
use ops_composer.Queue.Claim.{run_lock}

abbrev target : ResolvedHost
target = record {
  host_id = 2;
  name = "web";
  address = "10.0.0.1";
  ssh_port = 22;
  credential_id = 30;
  credential_version = 1;
  credential_type = CredentialType.password;
  credential_username = "root";
}

abbrev key : HostKey
key = record {
  host_id = 2;
  algorithm = "ssh-ed25519";
  public_key = "k";
  fingerprint = "f";
  trusted_by = 1;
  trusted_at = 1;
}

abbrev assets : Assets
assets = record {
  get_host = λ h. some (record {
    host_id = h;
    name = "web";
    address = "10.0.0.1";
    ssh_port = 22;
    credential_id = 30;
    enabled = true;
  });
  resolve_all_hosts = [];
  resolve_host_ids = λ hs. target ∷ [];
  has_group = λ g. false;
  resolve_group_hosts = λ g. [];
  host_ids_without_keys = λ hs. [];
  list_host_keys = λ h. key ∷ [];
  get_credential_revision = λ c v. some (record {
    credential_id = c;
    version = v;
    encrypted_secret = [];
    encryption_key_version = 1;
    created_at = 1;
  });
}

abbrev principal : SessionPrincipal
principal = record {
  session_id = 5;
  user_id = 1;
  username = "ada";
  role = UserRole.admin;
  permissions = λ p. true;
  mfa_enabled = false;
  mfa_enrollment_required = false;
  mfa_verified_at = none;
  reauthenticated_at = none;
  elevated_until = none;
  csrf_hash = "c";
  expires_at = 1000000000;
}

-- A run held the host until 5.
abbrev before : Db
before = record queued_db {
  host_execution_locks = run_lock 8 "w" 1 5 2 ∷ [];
  sessions =
      record {
        session_id = 5;
        user_id = 1;
        token_hash = "t";
        csrf_hash = "c";
        expires_at = 1000000000;
        created_at = 1;
        mfa_verified_at = none;
        reauthenticated_at = none;
        elevated_until = none;
      }
      ∷ [];
  users =
      record {
        user_id = 1;
        username = "ada";
        status = UserStatus.active;
        role = UserRole.admin;
        mfa_enrollment_required = false;
        activated_at = some 1;
        version = 1;
        created_at = 1;
        updated_at = 1;
      }
      ∷ [];
}

abbrev new_session : WebShellSession
new_session = record {
  web_shell_session_id = 40;
  host_id = 2;
  actor_user_id = 1;
  auth_session_id = 5;
  credential_id = 30;
  credential_version = 1;
  credential_type = CredentialType.password;
  host_name = "web";
  host_address = "10.0.0.1";
  ssh_port = 22;
  username = "root";
  state = WebShellState.pending;
  api_instance_id = "api";
  owner_id = none;
  ticket_expires_at = 30000010;
  lease_expires_at = 30000010;
  connected_at = none;
  last_activity_at = none;
  close_requested_at = none;
  created_at = 10;
}

abbrev opened_db : Db
opened_db = record before {
  host_execution_locks = shell_lock 2 40 "pending:api" 10 30000010 ∷ [];
  web_shell_sessions = new_session ∷ [];
  audit_events = session_event AuditAction.web_shell_requested AuditOutcome.succeeded 1 5 ∷ [];
}

creates : create assets 1 40 2 principal "api" "pending:api" 10 before ≡ ok (new_session, opened_db)
unfolding create
creates = refl

create-bounded_example : live_count 10 opened_db ≤ 1
create-bounded_example =
    create-bounded assets 1 40 2 principal "api" "pending:api" 10 before opened_db new_session
      creates

old_lock : lock_of 2 before.host_execution_locks ≡ some (run_lock 8 "w" 1 5 2)
unfolding lock_of
old_lock = refl

create_excluded_example : (run_lock 8 "w" 1 5 2).expires_at ≤ 10
create_excluded_example =
    create_excluded assets 1 40 2 principal "api" "pending:api" 10 before opened_db new_session
      creates (run_lock 8 "w" 1 5 2) old_lock refl

abbrev cipher : Cipher
cipher = record {
  decrypt = λ r. some (λ name. some "secret");
  is_text = λ t. true;
  is_line = λ t. true;
}

abbrev active_session : WebShellSession
active_session = record new_session {
  state = WebShellState.active;
  owner_id = some "api";
  connected_at = some 20;
  last_activity_at = some 20;
  lease_expires_at = 30000020;
}

abbrev launched : WebShellLaunch
launched = record {
  session = active_session;
  secrets = record { password = some "secret"; private_key = none; passphrase = none };
  known_hosts = key ∷ [];
}

abbrev active_db : Db
active_db = record opened_db {
  host_execution_locks =
      record (shell_lock 2 40 "pending:api" 10 30000010) { owner_id = "api"; expires_at = 30000020 }
      ∷ [];
  web_shell_sessions = active_session ∷ [];
  audit_events =
      session_event AuditAction.web_shell_requested AuditOutcome.succeeded 1 5
      ∷ session_event AuditAction.web_shell_started AuditOutcome.succeeded 1 5
      ∷ [];
}

claims_shell : claim assets cipher 40 principal "api" 20 opened_db ≡ ok (launched, active_db)
unfolding claim
claims_shell = refl

new_session-keyed :
    All
      (λ s.
        first_where (has_session_id s.web_shell_session_id) opened_db.web_shell_sessions ≡ some s)
      opened_db.web_shell_sessions
unfolding first_where
new_session-keyed = (refl, tt)

-- In between, the session is removed.
abbrev closed_db : Db
closed_db = record active_db { host_execution_locks = []; web_shell_sessions = [] }

deletes : Store.delete 40 (some "api") active_db ≡ ok (some active_session, closed_db)
unfolding Store.delete
deletes = refl

claim_once_example :
    claim assets cipher 40 principal "other" 30 closed_db ≡ err web_shell_session_expired
claim_once_example =
    claim_once assets cipher 40 principal "api" 20 opened_db active_db launched claims_shell
      new_session-keyed principal "other" 30 closed_db refl
      (next here (deleted 40 (some "api") (some active_session) deletes))

abbrev recovered_db : Db
recovered_db = record opened_db {
  host_execution_locks = [];
  web_shell_sessions = [];
  audit_events =
      session_event AuditAction.web_shell_requested AuditOutcome.succeeded 1 5
      ∷ system_event AuditAction.web_shell_stale_recovered AuditOutcome.succeeded AuditSource.system
      ∷ [];
}

recovers : recover_stale 30000010 opened_db ≡ ok (1, recovered_db)
unfolding recover_stale
recovers = refl

recover_stale-live_example :
    (recovered_db.web_shell_sessions
      ≡ rows_where (λ s. ltb 30000010 (good_until s)) opened_db.web_shell_sessions)
    × All
        (λ s.
          exists_where (lock_of_session s.web_shell_session_id) recovered_db.host_execution_locks
          ≡ false)
        (rows_where (λ s. leb (good_until s) 30000010) opened_db.web_shell_sessions)
recover_stale-live_example = recover_stale-live 30000010 1 opened_db recovered_db recovers
