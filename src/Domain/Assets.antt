-- ===== src/Domain/Assets.antt =====
-- backend/src/ops_composer/domain/ops.py: hosts, their trusted keys and credentials, as far as runs and
-- Web Shells read them. `Assets` are the reads of the asset repository that they use.
use ops_composer.Prelude.{ℕ, String, Bool, Option, List}
use ops_composer.Domain.WebShell.{CredentialType}

pub record Host : Type 0 where
  pub host_id : ℕ
  pub name : String
  pub address : String
  pub ssh_port : ℕ
  pub credential_id : ℕ
  pub enabled : Bool

pub record HostKey : Type 0 where
  pub host_id : ℕ
  pub algorithm : String
  pub public_key : String
  pub fingerprint : String
  pub trusted_by : ℕ
  pub trusted_at : ℕ

pub record ResolvedHost : Type 0 where
  pub host_id : ℕ
  pub name : String
  pub address : String
  pub ssh_port : ℕ
  pub credential_id : ℕ
  pub credential_version : ℕ
  pub credential_type : CredentialType
  pub credential_username : String

pub record CredentialRevision : Type 0 where
  pub credential_id : ℕ
  pub version : ℕ
  pub encrypted_secret : List ℕ
  pub encryption_key_version : ℕ
  pub created_at : ℕ

pub record Assets : Type 0 where
  pub get_host : ℕ → Option Host
  pub resolve_all_hosts : List ResolvedHost
  pub resolve_host_ids : List ℕ → List ResolvedHost
  pub has_group : ℕ → Bool
  pub resolve_group_hosts : ℕ → List ResolvedHost
  pub host_ids_without_keys : List ℕ → List ℕ
  pub list_host_keys : ℕ → List HostKey
  pub get_credential_revision : ℕ → ℕ → Option CredentialRevision
