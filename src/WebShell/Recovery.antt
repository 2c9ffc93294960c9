-- ===== src/WebShell/Recovery.antt =====
-- About `recover_stale` of services/web_shell.py.
use ops_composer.Prelude.{
  ℕ, ◌≡◌, refl, ap, ◌∙◌, Bool, true, false, Option, none, some, List, [], ◌∷◌, inl, inr, arith,
  ◌==◌, ==_iff, ==_refl, ltb, leb, Bool-cases, All, All-map, All-rows_where, All-exists_where,
  length, rows_where, delete_where, exists_where, exists_where-delete_where,
  exists_where-rows_where, ◌&&◌,
}
use ops_composer.Db.{Db, HostLock, Result, ok, >>=-eq-ok}
use ops_composer.Domain.Audit.{AuditSource}
use ops_composer.Domain.WebShell.{WebShellState, WebShellSession}
use ops_composer.WebShell.Store
use ops_composer.WebShell.Store.{is_expired, has_session_id, lock_of_any, delete_sessions}
use ops_composer.WebShell.Service.{audit_recovered, recover_stale}
use ops_composer.WebShell.Create.{audit_recovered-keeps}

-- The time until which a session is good: its ticket's while it waits, its lease's from then on.
abbrev pub good_until : WebShellSession → ℕ
good_until s = elim s.state [
  | WebShellState.pending ↦ s.ticket_expires_at
  | WebShellState.active ↦ s.lease_expires_at
  | WebShellState.close_requested ↦ s.lease_expires_at
]

abbrev pub lock_of_session : ℕ → HostLock → Bool
lock_of_session id l = elim l.web_shell_session_id [ none ↦ false | some i ↦ i == id ]

expired-good_until : (now : ℕ) (s : WebShellSession) → is_expired now s ≡ leb (good_until s) now
expired-good_until now s = go s.state refl
  where
    go : (t : WebShellState) → s.state ≡ t → is_expired now s ≡ leb (good_until s) now
    go WebShellState.pending e = rw e refl
    go WebShellState.active e = rw e refl
    go WebShellState.close_requested e = rw e refl

delete-good :
    (now : ℕ) (rs : List WebShellSession)
    → delete_where (is_expired now) rs ≡ rows_where (λ s. ltb now (good_until s)) rs
unfolding delete_where rows_where
delete-good now [] = refl
delete-good now (s ∷ rs) = elim (Bool-cases (leb (good_until s) now)) [
  | inl gone ↦
      let late : ltb now (good_until s) ≡ false = ground (arith, gone) in
      rw (expired-good_until now s, gone, late) (delete-good now rs)
  | inr stays ↦
      let early : ltb now (good_until s) ≡ true = ground (arith, stays) in
      rw (expired-good_until now s, stays, early) (ap (λ l. s ∷ l) (delete-good now rs))
]

locks_gone :
    (gone : List WebShellSession) (id : ℕ) (ls : List HostLock)
    → exists_where (has_session_id id) gone ≡ true
    → exists_where (lock_of_session id) (delete_where (lock_of_any gone) ls) ≡ false
unfolding lock_of_any
locks_gone gone id ls h =
    exists_where-delete_where (lock_of_session id) (lock_of_any gone)
      (λ l e. inside l.web_shell_session_id e) ls
  where
    inside :
        (o : Option ℕ)
        → elim o [ none ↦ false | some i ↦ i == id ] ≡ true
        → elim o [ none ↦ false | some i ↦ exists_where (has_session_id i) gone ] ≡ true
    inside none e = e
    inside (some i) e = rw ((==_iff i id).0 e) h

-- What a recovery of stale Web Shells that returns leaves: the sessions whose ticket, while they wait
-- for their claim, or whose lease, from then on, has not run out, and no other; and of the sessions
-- that are gone no host lock.
pub recover_stale-live :
    (now n : ℕ) (db db' : Db)
    → recover_stale now db ≡ ok (n, db')
    → (db'.web_shell_sessions ≡ rows_where (λ s. ltb now (good_until s)) db.web_shell_sessions)
      × All
          (λ s.
            exists_where (lock_of_session s.web_shell_session_id) db'.host_execution_locks ≡ false)
          (rows_where (λ s. leb (good_until s) now) db.web_shell_sessions)
unfolding recover_stale Store.cleanup_expired delete_sessions
recover_stale-live now n db db' h =
    let count = length (rows_where (is_expired now) db.web_shell_sessions) in
    let gone = rows_where (is_expired now) db.web_shell_sessions in
    let (_, d, audited, last) =
      >>=-eq-ok (audit_recovered count AuditSource.system) (λ _ e. ok (count, e))
        (delete_sessions (is_expired now) db) h in
    let same : db' ≡ d = returned last in
    let kept =
      audit_recovered-keeps count AuditSource.system (delete_sessions (is_expired now) db) d
        audited in
    let locks : db'.host_execution_locks ≡ delete_where (lock_of_any gone) db.host_execution_locks =
      ap (λ (e : Db). e.host_execution_locks) same ∙ kept.1 in
    (
      ap (λ (e : Db). e.web_shell_sessions) same ∙ kept.0 ∙ delete-good now db.web_shell_sessions,
      All-rows_where _ (λ s. leb (good_until s) now) db.web_shell_sessions
          (All-map _ _ db.web_shell_sessions
            (λ s self late. rw locks (
              locks_gone gone s.web_shell_session_id db.host_execution_locks (
                exists_where-rows_where (has_session_id s.web_shell_session_id) (is_expired now)
                  db.web_shell_sessions
                  (self (λ r. has_session_id s.web_shell_session_id r && is_expired now r)
                    (rw (==_refl s.web_shell_session_id, expired-good_until now s, late) refl)))))
            (All-exists_where db.web_shell_sessions)),
    )
  where
    returned : {d e : Db} {a b : ℕ} → ◌≡◌ {A = Result (ℕ × Db)} (ok (a, d)) (ok (b, e)) → e ≡ d
    returned x = cc
