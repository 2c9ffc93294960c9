-- ===== src/WebShell/Limits.antt =====
-- About `create` of services/web_shell.py: the limit of sessions and the lock of the host.
use ops_composer.Prelude.{
  ℕ, suc, ◌+◌, ◌≤◌, String, ◌≡◌, sym, ap, ◌∙◌, Bool, true, not, none, some, List, [], ◌∷◌, ◌++◌,
  inl, inr, arith, ◌==◌, ==_refl, ltb, Bool-cases, length, rows_where, first_where-delete_where,
  is_set,
}
use ops_composer.Db.{Db, HostLock, ok}
use ops_composer.Domain.Auth.{SessionPrincipal}
use ops_composer.Domain.Assets.{Assets}
use ops_composer.Domain.WebShell.{WebShellSession}
use ops_composer.Locks.{lock_of, is_held}
use ops_composer.Locks.Upsert.{is_set-take_lock, lock_of-take_lock}
use ops_composer.WebShell.Store.{is_live, is_expired, shell_lock, delete_sessions, lock_of_any}
use ops_composer.WebShell.Service.{ticket, pending_session, create}
use ops_composer.WebShell.Create.{live_count, create_parts, admit_parts, open_session_parts}

length-rows_where_append :
    (p : WebShellSession → Bool) (xs : List WebShellSession) (x : WebShellSession)
    → length (rows_where p (xs ++ x ∷ [])) ≤ suc (length (rows_where p xs))
unfolding rows_where
length-rows_where_append p [] x = elim (Bool-cases (p x)) [
  | inl e ↦ rw e (omega arith)
  | inr e ↦ rw e (omega arith)
]
length-rows_where_append p (y ∷ xs) x = elim (Bool-cases (p y)) [
  | inl e ↦ rw e (omega (arith, length-rows_where_append p xs x))
  | inr e ↦ rw e (length-rows_where_append p xs x)
]

-- The cleanup keeps the locks of runs.
delete_sessions-keeps :
    (p : WebShellSession → Bool) (db : Db) (g : ℕ) (l : HostLock)
    → lock_of g db.host_execution_locks ≡ some l
    → l.web_shell_session_id ≡ none
    → lock_of g (delete_sessions p db).host_execution_locks ≡ some l
unfolding lock_of delete_sessions lock_of_any
delete_sessions-keeps p db g l found of_run =
    first_where-delete_where (λ x. x.host_id == g) _ db.host_execution_locks found (rw of_run)

module _ (assets : Assets) (max_sessions session_id host_id : ℕ) (principal : SessionPrincipal)
    (api_id pending : String) (now : ℕ) (db db' : Db) (s : WebShellSession)
    (created : create assets max_sessions session_id host_id principal api_id pending now db
      ≡ ok (s, db')) where
  -- After a Web Shell is created, the sessions that are live are at most the configured number.
  pub create-bounded : live_count now db' ≤ max_sessions
  unfolding live_count
  create-bounded =
      let (mid, target, admitted, opened) =
        create_parts assets max_sessions session_id host_id principal api_id pending now db db' s
          created in
      let (below, _) = admit_parts max_sessions now db mid admitted in
      let new = pending_session session_id principal api_id target now in
      let (rows, _) = open_session_parts host_id new pending now mid db' s opened in
      rw rows
        (omega (arith, below, length-rows_where_append (is_live now) mid.web_shell_sessions new))

  -- After a Web Shell is created on a host, the host's lock is the session's, until its ticket runs out.
  create_locks :
      lock_of host_id db'.host_execution_locks
      ≡ some (shell_lock host_id session_id pending now (now + ticket))
  unfolding pending_session
  create_locks =
      let (mid, target, _, opened) =
        create_parts assets max_sessions session_id host_id principal api_id pending now db db' s
          created in
      let new = pending_session session_id principal api_id target now in
      let (_, taken) = open_session_parts host_id new pending now mid db' s opened in
      lock_of-take_lock (shell_lock host_id session_id pending now (now + ticket)) now host_id
        mid.host_execution_locks db'.host_execution_locks taken
      ∙ rw (==_refl host_id)

  -- If a Web Shell is created on a host whose lock belongs to a run, that lock has expired.
  pub create_excluded :
      (l : HostLock)
      → lock_of host_id db.host_execution_locks ≡ some l
      → l.web_shell_session_id ≡ none
      → l.expires_at ≤ now
  unfolding pending_session
  create_excluded l found of_run =
      let (mid, target, admitted, opened) =
        create_parts assets max_sessions session_id host_id principal api_id pending now db db' s
          created in
      let (_, cleaned) = admit_parts max_sessions now db mid admitted in
      let new = pending_session session_id principal api_id target now in
      let (_, taken) = open_session_parts host_id new pending now mid db' s opened in
      let kept : lock_of host_id mid.host_execution_locks ≡ some l =
        ap (lock_of host_id) cleaned
        ∙ delete_sessions-keeps (is_expired now) db host_id l found of_run in
      let free : true ≡ not (ltb now l.expires_at) =
        ap is_set (sym taken)
        ∙ is_set-take_lock (shell_lock host_id session_id pending now (now + ticket)) now
            mid.host_execution_locks
        ∙ ap (λ o. not (is_held now o)) kept in
      ground (arith, free)
