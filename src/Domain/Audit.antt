-- ===== src/Domain/Audit.antt =====
-- backend/src/ops_composer/domain/audit.py: the actions and outcomes of audit events, and the part of
-- an event that the services decide. The log context, the sanitised metadata and the timestamp, which
-- `new_audit_event` adds for readers, are left out.
use ops_composer.Prelude.{ℕ, String, Option}

pub data AuditAction : Type 0 where
  request_completed request_rejected request_validation_failed unhandled_exception app_starting
        app_ready app_stopped database_unavailable database_recovered migration_started
        migration_completed migration_failed migration_validation_failed master_key_initialized
        master_key_validated master_key_validation_failed playbook_workspace_failed
        runtime_directory_failed audit_persist_failed audit_exported audit_retention_purged
        admin_bootstrapped admin_bootstrap_rejected auth_login_succeeded auth_login_failed
        auth_rate_limited auth_session_invalid auth_logout_succeeded origin_denied csrf_denied
        auth_purge_completed user_created user_activated user_updated user_role_changed
        user_disabled user_activation_reissued user_sessions_revoked user_mfa_enrollment_started
        user_mfa_enrollment_succeeded user_mfa_reset user_mfa_break_glass
        user_recovery_codes_regenerated user_password_changed auth_mfa_succeeded auth_mfa_failed
        auth_recovery_used auth_reauth_succeeded auth_reauth_failed auth_permission_denied
        credential_created credential_rotated credential_deleted credential_updated
        credential_enabled credential_disabled master_key_registered master_key_rotation_requested
        master_key_rotation_started master_key_rotation_batch_completed
        master_key_rotation_succeeded master_key_rotation_failed host_created host_updated
        host_deleted group_created group_updated group_deleted host_key_scan_started
        host_key_scan_succeeded host_key_scan_failed host_key_confirmed host_key_changed run_created
        run_idempotent_replay run_idempotency_conflict run_target_resolution_failed
        run_cancel_requested run_cancel_rejected run_retry_created worker_started worker_ready
        worker_stopped worker_loop_failed stale_runs_recovered run_claimed host_lock_collision
        run_preparation_failed runtime_directory_created runtime_directory_cleaned run_started
        host_completed run_succeeded run_partial run_failed run_rejected run_canceled run_timed_out
        run_interrupted playbook_created playbook_updated playbook_deleted
        playbook_validation_succeeded playbook_validation_failed playbook_source_disabled
        playbook_imported playbook_exported playbook_revision_restored playbook_previewed
        run_secret_input_consumed web_shell_requested web_shell_started web_shell_close_requested
        web_shell_closed web_shell_denied web_shell_failed web_shell_timed_out
        web_shell_stale_recovered :
      AuditAction

pub data AuditOutcome : Type 0 where
  started succeeded failed denied noop : AuditOutcome

pub data AuditSource : Type 0 where
  api worker cli system : AuditSource

pub record AuditEvent : Type 0 where
  pub event_action : AuditAction
  pub event_outcome : AuditOutcome
  pub source : AuditSource
  pub actor_user_id : Option ℕ
  pub session_id : Option ℕ
  pub run_id : Option ℕ
  pub worker_id : Option String
