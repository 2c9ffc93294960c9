-- ===== src/Domain/Errors.antt =====
-- backend/src/ops_composer/domain/errors.py and auth/errors.py: the exceptions, by class.
-- `value_error` and
-- `runtime_error` are Python's own; `database_error` is psycopg's, for a violated constraint, and
-- `ck_users_active_owner` the one of that name.
use ops_composer.Prelude.{Option, none, some}

pub data Failure : Type 0 where
  ops_error not_found conflict idempotency_conflict validation playbook_not_found playbook_invalid
        playbook_source_disabled playbook_disabled playbook_version_conflict
        playbook_project_invalid secret_parameters_required host_key_changed
        host_key_confirmation_required run_not_cancelable host_busy web_shell_capacity
        web_shell_session_expired web_shell_unavailable key_version_missing key_rotation_in_progress
        claim_collision permission_denied reauthentication_required invalid_credentials
        user_conflict user_version_conflict last_owner_required admin_already_exists
        activation_expired auth_rate_limited invalid_session invalid_challenge invalid_mfa_code
        totp_disabled value_error ck_users_active_owner runtime_error database_error :
      Failure

-- The base class in the source, up to `OpsError`.
unfoldable pub base : Failure → Option Failure
base not_found = some ops_error
base conflict = some ops_error
base idempotency_conflict = some conflict
base validation = some ops_error
base playbook_not_found = some not_found
base playbook_invalid = some validation
base playbook_source_disabled = some validation
base playbook_disabled = some validation
base playbook_version_conflict = some conflict
base playbook_project_invalid = some playbook_invalid
base secret_parameters_required = some validation
base host_key_changed = some conflict
base host_key_confirmation_required = some conflict
base run_not_cancelable = some conflict
base host_busy = some conflict
base web_shell_capacity = some conflict
base web_shell_session_expired = some conflict
base web_shell_unavailable = some ops_error
base key_version_missing = some ops_error
base key_rotation_in_progress = some conflict
base _ = none
