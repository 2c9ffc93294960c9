-- ===== src/Queue/Idempotent.antt =====
-- About `RunService._create` of backend/src/ops_composer/services/runs.py.
use ops_composer.Prelude.{
  ℕ, ◌≡◌, refl, sym, ap, ◌∙◌, Bool, true, false, Option, none, some, [], ◌∷◌, ◌++◌, ◌&&◌, leb,
  text_eq, inl, inr, arith, Bool-cases, first_where, char_count,
}
use ops_composer.Db.{Db, Result, ok, err, run_tx, closed}
use ops_composer.Domain.Audit.{AuditEvent, AuditAction}
use ops_composer.Domain.Errors.{Failure, idempotency_conflict}
use ops_composer.Domain.Ops.{Run}
use ops_composer.Audit
use ops_composer.Audit.{record_best_effort}
use ops_composer.Queue.Store.{by_key, get_by_idempotency_key}
use ops_composer.Queue.Submit.{
  Sources, RunRequest, fingerprint_of, replay_event, denied_event, replay, look_up, is_conflict,
  on_conflict, after_look_up, create,
}

-- The database without its audit log.
abbrev pub apart_from_audit : Db → Db
apart_from_audit db = record db { audit_events = [] }

record_best_effort-keeps :
    (recorded : Bool) (event : AuditEvent) (db : Db)
    → apart_from_audit (record_best_effort recorded event db) ≡ apart_from_audit db
unfolding record_best_effort run_tx Audit.append
record_best_effort-keeps true event db = refl
record_best_effort-keeps false event db = refl

module _ (sources : Sources) (request : RunRequest) (now : ℕ) where
  on_conflict-keeps :
      (recorded : Bool) (e : Failure) (db : Db)
      → apart_from_audit (on_conflict sources request now recorded e db) ≡ apart_from_audit db
  unfolding on_conflict
  on_conflict-keeps recorded e db = elim (Bool-cases (is_conflict sources request now e)) [
    | inl t ↦ rw t (
        record_best_effort-keeps recorded
          (denied_event sources request now AuditAction.run_idempotency_conflict) db)
    | inr t ↦ rw t refl
  ]

  pub look_up_found :
      (db : Db) (existing : Run)
      → first_where (by_key request.requested_by request.idempotency_key) db.runs ≡ some existing
      → look_up sources request now db ≡ replay sources request now (some existing) db
  unfolding look_up get_by_idempotency_key
  look_up_found db existing found = ap (λ o. replay sources request now o db) found

  pub replay_same :
      (db : Db) (existing : Run)
      → text_eq existing.request_fingerprint (fingerprint_of sources request now) ≡ true
      → replay sources request now (some existing) db
        ≡ ok (
          some existing,
          record db {
            audit_events = db.audit_events ++ replay_event sources request now existing.run_id ∷ [];
          },
        )
  unfolding replay Audit.append
  replay_same db existing same = rw same refl

  pub replay_other :
      (db : Db) (existing : Run)
      → text_eq existing.request_fingerprint (fingerprint_of sources request now) ≡ false
      → replay sources request now (some existing) db ≡ err idempotency_conflict
  unfolding replay
  replay_other db existing other = rw other refl

  -- A look-up that finds no run changes nothing.
  pub look_up-none : (db mid : Db) → look_up sources request now db ≡ ok (none, mid) → mid ≡ db
  unfolding look_up get_by_idempotency_key
  look_up-none db mid h =
      go (first_where (by_key request.requested_by request.idempotency_key) db.runs) h
    where
      go : (o : Option Run) → replay sources request now o db ≡ ok (none, mid) → mid ≡ db
      go none k = sym (cc)
      go (some existing) k =
          elim (Bool-cases
            (text_eq existing.request_fingerprint (fingerprint_of sources request now))) [
              | inl t ↦
                  let found = sym (replay_same db existing t) ∙ k in absurd (ground (arith, found))
              | inr t ↦
                  let refused = sym (replay_other db existing t) ∙ k in
                  absurd (ground (arith, refused))
            ]

  -- With a key of a valid length, the answer is what the look-up leads to.
  pub create_after :
      (recorded : Bool) (db : Db) {r : Result (Option Run × Db)}
      → (leb 8 (char_count request.idempotency_key) && leb (char_count request.idempotency_key) 200)
        ≡ true
      → look_up sources request now db ≡ r
      → create sources request now recorded db
        ≡ after_look_up sources request now recorded (closed db r)
  unfolding create run_tx
  create_after recorded db long e =
      rw long (ap (λ x. after_look_up sources request now recorded (closed db x)) e)

  -- While a run has the requester's idempotency key, the same request is answered with that run, and any
  -- other request is refused; neither stores anything but an audit event.
  pub create_again :
      (recorded : Bool) (db : Db) (existing : Run)
      → (leb 8 (char_count request.idempotency_key) && leb (char_count request.idempotency_key) 200)
        ≡ true
      → first_where (by_key request.requested_by request.idempotency_key) db.runs ≡ some existing
      → (text_eq existing.request_fingerprint (fingerprint_of sources request now) ≡ true
          → create sources request now recorded db ≡ (
            ok existing,
            record db {
              audit_events =
                  db.audit_events ++ replay_event sources request now existing.run_id ∷ [];
            },
          ))
        × (text_eq existing.request_fingerprint (fingerprint_of sources request now) ≡ false
            → ((create sources request now recorded db).0 ≡ err idempotency_conflict)
              × (apart_from_audit (create sources request now recorded db).1 ≡ apart_from_audit db))
  unfolding after_look_up
  create_again recorded db existing long found = (
    λ same.
        create_after recorded db long
          (look_up_found db existing found ∙ replay_same db existing same),
    λ other.
        let e =
          create_after recorded db long
            (look_up_found db existing found ∙ replay_other db existing other) in
        (
          ap (λ (x : Result Run × Db). x.0) e,
          ap (λ (x : Result Run × Db). apart_from_audit x.1) e
              ∙ on_conflict-keeps recorded idempotency_conflict db,
        ),
  )
