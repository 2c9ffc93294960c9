-- ===== src/Queue/Replays/Twice.antt =====
-- About a request to `RunService._create` of backend/src/ops_composer/services/runs.py that is sent twice.
use ops_composer.Prelude.{
  ℕ, ◌≡◌, refl, sym, ap, ◌∙◌, subst, Bool, true, false, Option, none, some, [], ◌∷◌, ◌++◌, ◌&&◌,
  leb, text_eq, eq_iff, inl, inr, arith, Bool-cases, Option-cases, first_where, char_count,
}
use ops_composer.Db.{Db, Result, ok, err, run_tx, closed}
use ops_composer.Domain.Ops.{Run}
use ops_composer.Queue.Store.{by_key, get_by_idempotency_key}
use ops_composer.Queue.Submit.{
  Sources, RunRequest, payload_of, fingerprint_of, replay, replay_event, look_up, persist, create,
  after_look_up, after_persist,
}
use ops_composer.Queue.Idempotent.{
  apart_from_audit, create_again, replay_same, replay_other, create_after, look_up-none,
}
use ops_composer.Queue.Confirmed.{ok-inj}
use ops_composer.Queue.Steps.{Reach}
use ops_composer.Queue.Replays.{IsAnswered, persist-IsAnswered}
use ops_composer.Queue.Replays.Lasting.{Reach-IsAnswered}

some-inj : {A : Type 0} {a b : A} → ◌≡◌ {A = Option A} (some a) (some b) → a ≡ b
some-inj h = cc

module _ (sources : Sources) (request : RunRequest) (now : ℕ) where
  abbrev Answers : ℕ → Db → Type 0
  Answers run_id =
      IsAnswered request.requested_by request.idempotency_key (fingerprint_of sources request now)
        run_id

  replay-some :
      (existing x : Run) (db mid : Db)
      → first_where (by_key request.requested_by request.idempotency_key) db.runs ≡ some existing
      → replay sources request now (some existing) db ≡ ok (some x, mid)
      → Answers x.run_id mid
  replay-some existing x db mid found h =
      elim (Bool-cases
        (text_eq existing.request_fingerprint (fingerprint_of sources request now))) [
          | inl t ↦
              let logged : Db = record db {
                audit_events =
                    db.audit_events ++ replay_event sources request now existing.run_id ∷ [];
              } in
              let e : ◌≡◌ {A = Option Run × Db} (some existing, logged) (some x, mid) =
                ok-inj (sym (replay_same sources request now db existing t) ∙ h) in
              let same_run : existing ≡ x = some-inj (ap (λ (y : Option Run × Db). y.0) e) in
              let runs : mid.runs ≡ db.runs = sym (ap (λ (y : Option Run × Db). y.1.runs) e) in
              (
                existing,
                ap (first_where (by_key request.requested_by request.idempotency_key)) runs ∙ found,
                ap (λ (r : Run). r.run_id) same_run,
                (eq_iff existing.request_fingerprint (fingerprint_of sources request now)).0 t,
              )
          | inr t ↦
              let refused = sym (replay_other sources request now db existing t) ∙ h in
              absurd (ground (arith, refused))
        ]

  not_found_some :
      (x : Run) (db mid : Db) → replay sources request now none db ≡ ok (some x, mid) → true ≡ false
  unfolding replay
  not_found_some x db mid h = cc

  replay-none :
      (o : Option Run) (db mid : Db) → replay sources request now o db ≡ ok (none, mid) → o ≡ none
  unfolding replay
  replay-none none db mid h = refl
  replay-none (some existing) db mid h =
      elim (Bool-cases
        (text_eq existing.request_fingerprint (fingerprint_of sources request now))) [
          | inl t ↦ absurd (ground (arith, sym (replay_same sources request now db existing t) ∙ h))
          | inr t ↦
              absurd (ground (arith, sym (replay_other sources request now db existing t) ∙ h))
        ]

  look_up-some :
      (x : Run) (db mid : Db)
      → look_up sources request now db ≡ ok (some x, mid)
      → Answers x.run_id mid
  unfolding look_up get_by_idempotency_key
  look_up-some x db mid h =
      elim (Option-cases
        (first_where (by_key request.requested_by request.idempotency_key) db.runs)) [
          | inl e ↦
              let nothing : replay sources request now none db ≡ ok (some x, mid) =
                subst (λ o. replay sources request now o db ≡ ok (some x, mid)) e h in
              absurd (ground (arith, not_found_some x db mid nothing))
          | inr (r, e) ↦
              replay-some r x db mid e
                (subst (λ o. replay sources request now o db ≡ ok (some x, mid)) e h)
        ]

  look_up-none-found :
      (db mid : Db)
      → look_up sources request now db ≡ ok (none, mid)
      → first_where (by_key request.requested_by request.idempotency_key) db.runs ≡ none
  unfolding look_up get_by_idempotency_key
  look_up-none-found db mid h =
      replay-none (first_where (by_key request.requested_by request.idempotency_key) db.runs) db mid
        h

  persisted :
      (recorded : Bool) (run : Run) (db mid : Db)
      → first_where (by_key request.requested_by request.idempotency_key) db.runs ≡ none
      → after_persist sources request now recorded (run_tx (persist sources request now) db)
        ≡ (ok run, mid)
      → Answers run.run_id mid
  unfolding run_tx after_persist
  persisted recorded run db mid fresh h = go (persist sources request now db) refl h
    where
      go :
          (r : Result (Run × Db))
          → persist sources request now db ≡ r
          → after_persist sources request now recorded (closed db r) ≡ (ok run, mid)
          → Answers run.run_id mid
      go (ok (x, d)) e k =
          let same : x ≡ run = ok-inj (ap (λ (y : Result Run × Db). y.0) k) in
          let there : d ≡ mid = ap (λ (y : Result Run × Db). y.1) k in
          subst (Answers run.run_id) there (
            subst (λ (y : Run). Answers y.run_id d) same
              (persist-IsAnswered sources request now x db d fresh e))
      go (err x) e k = absurd (ground (arith, ap (λ (y : Result Run × Db). y.0) k))

  -- What a call that returns leaves under the request's key.
  create-IsAnswered :
      (recorded : Bool) (run : Run) (db mid : Db)
      → (leb 8 (char_count request.idempotency_key) && leb (char_count request.idempotency_key) 200)
        ≡ true
      → create sources request now recorded db ≡ (ok run, mid)
      → Answers run.run_id mid
  unfolding after_look_up
  create-IsAnswered recorded run db mid long h = go (look_up sources request now db) refl
    where
      go :
          (r : Result (Option Run × Db))
          → look_up sources request now db ≡ r
          → Answers run.run_id mid
      go (ok (some x, d)) e =
          let k : ◌≡◌ {A = Result Run × Db} (ok x, d) (ok run, mid) =
            sym (create_after sources request now recorded db long e) ∙ h in
          let same : x ≡ run = ok-inj (ap (λ (y : Result Run × Db). y.0) k) in
          subst (Answers run.run_id) (ap (λ (y : Result Run × Db). y.1) k)
            (subst (λ (y : Run). Answers y.run_id d) same (look_up-some x db d e))
      go (ok (none, d)) e =
          let k : after_persist sources request now recorded
                (run_tx (persist sources request now) d)
              ≡ (ok run, mid) =
            sym (create_after sources request now recorded db long e) ∙ h in
          let same : d ≡ db = look_up-none sources request now db d e in
          persisted recorded run d mid
            (subst
              (λ (x : Db).
                first_where (by_key request.requested_by request.idempotency_key) x.runs ≡ none)
              (sym same) (look_up-none-found db d e))
            k
      go (err x) e =
          let k = sym (create_after sources request now recorded db long e) ∙ h in
          absurd (ground (arith, ap (λ (y : Result Run × Db). y.0) k))

-- A request that returned a run and is sent again, after whatever statements of the queue have run in
-- between and whatever has become of the hosts and their keys, is answered with the run of the same id,
-- and stores nothing but an audit event. The conditions are that the idempotency key has 8 to 200
-- characters and that the request has the same fingerprint both times.
pub create_twice :
    (sources again : Sources) (request : RunRequest) (now later : ℕ) (recorded recorded' : Bool)
    (run : Run) (db mid mid' : Db)
    → (leb 8 (char_count request.idempotency_key) && leb (char_count request.idempotency_key) 200)
      ≡ true
    → again.fingerprint (payload_of request) ≡ sources.fingerprint (payload_of request)
    → create sources request now recorded db ≡ (ok run, mid)
    → Reach mid mid'
    → (r : Run) × ((create again request later recorded' mid').0 ≡ ok r)
      × (r.run_id ≡ run.run_id)
      × (apart_from_audit (create again request later recorded' mid').1 ≡ apart_from_audit mid')
create_twice sources again request now later recorded recorded' run db mid mid' long same_print h
      between =
    let (r, found, id, print) =
      Reach-IsAnswered request.requested_by request.idempotency_key
        (fingerprint_of sources request now) run.run_id between
        (create-IsAnswered sources request now recorded run db mid long h) in
    let matches : text_eq r.request_fingerprint (fingerprint_of again request later) ≡ true =
      (eq_iff r.request_fingerprint (fingerprint_of again request later)).1
        (print ∙ sym same_print) in
    let e = (create_again again request later recorded' mid' r long found).0 matches in
    (
      r,
      ap (λ (x : Result Run × Db). x.0) e,
      id,
      ap (λ (x : Result Run × Db). apart_from_audit x.1) e,
    )
