-- ===== src/Queue/SubmitExamples.antt =====
-- The theorems on new runs at a ping of one host.
use ops_composer.Prelude.{
  exists_where, All, ℕ, ◌≡◌, refl, true, false, none, some, List, [], ◌∷◌, map, length, first_where,
}
use ops_composer.Db.{Db, ok}
use ops_composer.Samples.{nobody, empty_db}
use ops_composer.Domain.Json.{Json}
use ops_composer.Domain.Assets.{Assets, ResolvedHost}
use ops_composer.Domain.WebShell.{CredentialType}
use ops_composer.Domain.Ops.{RunStatus, Run, RunKind, TargetKind}
use ops_composer.Queue.Store.{by_key}
use ops_composer.Queue.Events.{next_sequence}
use ops_composer.Queue.Submit.{
  Sources, RunRequest, RequestPayload, new_run, new_target, host_id_of, resolve_targets,
  queued_event, created_event, persist, create,
}
use ops_composer.Queue.Idempotent.{apart_from_audit}
use ops_composer.Queue.Replays.Twice.{create_twice}
use ops_composer.Queue.Stored.{queued_as, waits_on, persist-stored}
use ops_composer.Queue.Steps.{claimed, here, next}
use ops_composer.Queue.Claim.{run_lock, claim_next}

abbrev web : ResolvedHost
web = record {
  host_id = 2;
  name = "web";
  address = "10.0.0.1";
  ssh_port = 22;
  credential_id = 5;
  credential_version = 1;
  credential_type = CredentialType.password;
  credential_username = "ops";
}

abbrev assets_with : List ℕ → Assets
assets_with missing = record {
  get_host = λ h. none;
  resolve_all_hosts = web ∷ [];
  resolve_host_ids = λ hs. web ∷ [];
  has_group = λ g. false;
  resolve_group_hosts = λ g. [];
  host_ids_without_keys = λ hs. missing;
  list_host_keys = λ h. [];
  get_credential_revision = λ c v. none;
}

abbrev sources_with : List ℕ → Sources
sources_with missing = record {
  assets = assets_with missing;
  fingerprint = λ (p : RequestPayload). "f";
  describe = λ hs. record {
    resolved_targets = Json.null;
    inventory_snapshot = Json.null;
    credential_versions = Json.null;
  };
  host_count = λ hs. Json.null;
  run_id = 7;
  run_target_id = λ (h : ResolvedHost). 70;
  run_event_id = 700;
}

abbrev ping : RunRequest
ping = record {
  requested_by = 1;
  idempotency_key = "key-0001";
  kind = RunKind.ping;
  target_spec = Json.null;
  operation_spec = Json.null;
  timeout_seconds = 30;
  forks = 1;
  target_kind = TargetKind.hosts;
  host_ids = 2 ∷ [];
  group_id = none;
  workspace_revision = none;
  source_run_id = none;
}

abbrev pinged : Run
pinged = new_run (sources_with []) ping 9 (web ∷ [])

abbrev pinged_db : Db
pinged_db = record empty_db {
  runs = next_sequence pinged ∷ [];
  run_targets = new_target (sources_with []) ping 9 web ∷ [];
  run_events = queued_event (sources_with []) ping 9 7 (web ∷ []) ∷ [];
  audit_events = created_event (sources_with []) ping 9 7 ∷ [];
}

pings : persist (sources_with []) ping 9 empty_db ≡ ok (pinged, pinged_db)
unfolding persist
pings = refl

no_run : first_where (by_key 1 "key-0001") empty_db.runs ≡ none
unfolding first_where
no_run = refl

has_run : first_where (by_key 1 "key-0001") pinged_db.runs ≡ some (next_sequence pinged)
unfolding first_where
has_run = refl

persist-stored_example :
    (hosts : List ResolvedHost) × (resolve_targets
        (assets_with [])
        TargetKind.hosts
        (2 ∷ [])
        none
        empty_db
      ≡ ok (hosts, empty_db))
    × (length ((assets_with []).host_ids_without_keys (map host_id_of hosts)) ≡ 0)
    × (pinged.status ≡ RunStatus.queued)
    × (pinged.requested_by ≡ 1)
    × (pinged.idempotency_key ≡ "key-0001")
    × (exists_where (queued_as 7) pinged_db.runs ≡ true)
    × All (λ host. exists_where (waits_on 7 host.host_id) pinged_db.run_targets ≡ true) hosts
persist-stored_example =
    persist-stored (sources_with []) ping 9 pinged empty_db pinged_db no_run pings

abbrev later_sources : Sources
later_sources = record (sources_with (2 ∷ [])) { run_id = 8 }

created_ping : create (sources_with []) ping 9 true empty_db ≡ (ok pinged, pinged_db)
unfolding create
created_ping = refl

-- In between, a worker claims the run.
abbrev claimed_ping : Run
claimed_ping = record (next_sequence pinged) {
  status = RunStatus.preparing;
  claimed_by = some "w";
  claimed_at = some 10;
  started_at = some 10;
  updated_at = 10;
}

abbrev claimed_db : Db
claimed_db = record pinged_db {
  runs = claimed_ping ∷ [];
  host_execution_locks = run_lock 7 "w" 10 40 2 ∷ [];
}

claims_ping : claim_next nobody "w" 10 40 pinged_db ≡ ok (some claimed_ping, claimed_db)
unfolding claim_next
claims_ping = refl

create_twice_example :
    (r : Run) × ((create later_sources ping 12 true claimed_db).0 ≡ ok r)
    × (r.run_id ≡ 7)
    × (apart_from_audit (create later_sources ping 12 true claimed_db).1
        ≡ apart_from_audit claimed_db)
create_twice_example =
    create_twice (sources_with []) later_sources ping 9 12 true true pinged empty_db pinged_db
      claimed_db refl refl created_ping
      (next here (claimed nobody "w" 10 40 claimed_ping claims_ping))
