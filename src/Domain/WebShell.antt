-- ===== src/Domain/WebShell.antt =====
-- backend/src/ops_composer/domain/web_shell.py: Web Shell sessions and the reasons that end them.
use ops_composer.Prelude.{ℕ, String, Option}

pub data CredentialType : Type 0 where
  password ssh_private_key : CredentialType

pub data WebShellState : Type 0 where
  pending active close_requested : WebShellState

pub data WebShellCloseReason : Type 0 where
  client_disconnected user_requested remote_exit idle_timeout max_duration auth_session_invalid
        database_unavailable server_shutdown start_failed protocol_error slow_consumer :
      WebShellCloseReason

pub record WebShellSession : Type 0 where
  pub web_shell_session_id : ℕ
  pub host_id : ℕ
  pub actor_user_id : ℕ
  pub auth_session_id : ℕ
  pub credential_id : ℕ
  pub credential_version : ℕ
  pub credential_type : CredentialType
  pub host_name : String
  pub host_address : String
  pub ssh_port : ℕ
  pub username : String
  pub state : WebShellState
  pub api_instance_id : String
  pub owner_id : Option String
  pub ticket_expires_at : ℕ
  pub lease_expires_at : ℕ
  pub connected_at : Option ℕ
  pub last_activity_at : Option ℕ
  pub close_requested_at : Option ℕ
  pub created_at : ℕ
