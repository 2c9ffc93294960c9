-- ===== src/WebShell/Steps.antt =====
-- The statements of repositories/web_shell.py on sessions, in any order.
use ops_composer.Prelude.{
  ℕ, String, ◌≡◌, refl, Bool, true, false, Option, none, some, List, [], ◌∷◌, ◌&&◌, inl, inr, arith,
  ◌==◌, Bool-cases, All, All-append, All-delete_where, All-update_where, length, exists_where,
  rows_where, first_where, update_where,
}
use ops_composer.Db.{Db, ok, After, After-ok}
use ops_composer.Domain.WebShell.{WebShellSession}
use ops_composer.WebShell.Store
use ops_composer.WebShell.Store.{
  is_pending, has_session_id, can_activate, set_active, activate_lock, activate_found, live_lock_of,
  can_refresh, is_expired, delete_sessions, can_close, set_close_requested, deletable,
}

-- A statement that returns. A session that is added has another id than `claimed`, as the ids of new
-- sessions are drawn at random.
pub data Step (claimed : ℕ) (db db' : Db) : Type 0 where
  added :
      (session x : WebShellSession)
      → has_session_id claimed session ≡ false
      → Store.add session db ≡ ok (x, db')
      → Step claimed db db'
  activated :
      (id auth : ℕ) (owner_id : String) (now expires_at : ℕ) (x : Option WebShellSession)
      → Store.activate id auth owner_id now expires_at db ≡ ok (x, db')
      → Step claimed db db'
  beat :
      (id : ℕ) (owner_id : String) (now expires_at last_activity_at : ℕ) (x : Bool)
      → Store.heartbeat id owner_id now expires_at last_activity_at db ≡ ok (x, db')
      → Step claimed db db'
  close_requested :
      (id actor_user_id now : ℕ) (x : Option WebShellSession)
      → Store.mark_close_requested id actor_user_id now db ≡ ok (x, db')
      → Step claimed db db'
  deleted :
      (id : ℕ) (owner_id : Option String) (x : Option WebShellSession)
      → Store.delete id owner_id db ≡ ok (x, db')
      → Step claimed db db'
  cleaned : (now n : ℕ) → Store.cleanup_expired now db ≡ ok (n, db') → Step claimed db db'

pub data Reach (claimed : ℕ) (db : Db) : Db → Type 0 where
  here : Reach claimed db db
  next : {mid db' : Db} → Reach claimed db mid → Step claimed mid db' → Reach claimed db db'

-- No session of the id waits for its claim.
abbrev pub IsTaken : ℕ → List WebShellSession → Type 0
IsTaken id sessions = All (λ s. (has_session_id id s && is_pending s.state) ≡ false) sessions

update-IsTaken :
    (id : ℕ) (p : WebShellSession → Bool) (f : WebShellSession → WebShellSession)
    → ((s : WebShellSession)
        → p s ≡ true
        → (has_session_id id s && is_pending s.state) ≡ false
        → (has_session_id id (f s) && is_pending (f s).state) ≡ false)
    → (sessions : List WebShellSession) → IsTaken id sessions
    → IsTaken id (update_where p f sessions)
update-IsTaken id p f step sessions h =
    All-update_where (λ s. (has_session_id id s && is_pending s.state) ≡ false)
      (λ s. (has_session_id id s && is_pending s.state) ≡ false) p f sessions
      (λ s k. elim (Bool-cases (p s)) [ inl e ↦ rw e (step s e k) | inr e ↦ rw e k ]) h

module _ (claimed : ℕ) where
  abbrev Taken : Db → Type 0
  Taken db = IsTaken claimed db.web_shell_sessions

  add-IsTaken :
      (session : WebShellSession) (db : Db)
      → has_session_id claimed session ≡ false
      → Taken db
      → After Taken (Store.add session db)
  unfolding Store.add
  add-IsTaken session db other h =
      elim (Bool-cases
        (exists_where (has_session_id session.web_shell_session_id) db.web_shell_sessions)) [
          | inl e ↦ rw e tt
          | inr e ↦ rw e (
              All-append (λ s. (has_session_id claimed s && is_pending s.state) ≡ false)
                db.web_shell_sessions (session ∷ []) h (rw other refl, tt))
        ]

  activate_lock-IsTaken :
      (id : ℕ) (owner_id : String) (now expires_at : ℕ) (row : WebShellSession) (db : Db)
      → Taken db
      → After Taken (activate_lock id owner_id now expires_at row db)
  unfolding activate_lock
  activate_lock-IsTaken id owner_id now expires_at row db h =
      elim (Bool-cases (length (rows_where (live_lock_of id now) db.host_execution_locks) == 1)) [
        | inl e ↦ rw e h
        | inr e ↦ rw e tt
      ]

  activate-IsTaken :
      (id auth : ℕ) (owner_id : String) (now expires_at : ℕ) (db : Db)
      → Taken db
      → After Taken (Store.activate id auth owner_id now expires_at db)
  unfolding Store.activate
  activate-IsTaken id auth owner_id now expires_at db h =
      go (first_where (can_activate id auth now db) db.web_shell_sessions)
    where
      go :
          (o : Option WebShellSession)
          → After Taken (activate_found id auth owner_id now expires_at o db)
      go none = unfold activate_found in h
      go (some ws) =
          unfold activate_found set_active in
          activate_lock-IsTaken id owner_id now expires_at (set_active owner_id now expires_at ws)
            (record db {
              web_shell_sessions =
                  update_where (can_activate id auth now db) (set_active owner_id now expires_at)
                    db.web_shell_sessions;
            })
            (update-IsTaken claimed (can_activate id auth now db)
              (set_active owner_id now expires_at) (λ s e k. ground arith) db.web_shell_sessions h)

  heartbeat-IsTaken :
      (id : ℕ) (owner_id : String) (now expires_at last_activity_at : ℕ) (db : Db)
      → Taken db
      → After Taken (Store.heartbeat id owner_id now expires_at last_activity_at db)
  unfolding Store.heartbeat
  heartbeat-IsTaken id owner_id now expires_at last_activity_at db h =
      update-IsTaken claimed (can_refresh id owner_id now db)
        (λ ws. record ws {
          lease_expires_at = expires_at;
          last_activity_at = some last_activity_at;
        })
        (λ s e k. k) db.web_shell_sessions h

  close-IsTaken :
      (id actor_user_id now : ℕ) (db : Db)
      → Taken db
      → After Taken (Store.mark_close_requested id actor_user_id now db)
  unfolding Store.mark_close_requested
  close-IsTaken id actor_user_id now db h =
      update-IsTaken claimed (can_close id actor_user_id) (set_close_requested now)
        (λ s e k. ground arith) db.web_shell_sessions h

  delete_sessions-IsTaken :
      (p : WebShellSession → Bool) (db : Db) → Taken db → Taken (delete_sessions p db)
  unfolding delete_sessions
  delete_sessions-IsTaken p db h =
      All-delete_where (λ s. (has_session_id claimed s && is_pending s.state) ≡ false) p
        db.web_shell_sessions h

  delete-IsTaken :
      (id : ℕ) (owner_id : Option String) (db : Db)
      → Taken db
      → After Taken (Store.delete id owner_id db)
  unfolding Store.delete
  delete-IsTaken id owner_id db h = delete_sessions-IsTaken (deletable id owner_id) db h

  cleanup-IsTaken : (now : ℕ) (db : Db) → Taken db → After Taken (Store.cleanup_expired now db)
  unfolding Store.cleanup_expired
  cleanup-IsTaken now db h = delete_sessions-IsTaken (is_expired now) db h

  Step-IsTaken : {db db' : Db} → Step claimed db db' → Taken db → Taken db'
  Step-IsTaken {db} (added session x other e) h =
      After-ok Taken _ (add-IsTaken session db other h) e
  Step-IsTaken {db} (activated id auth owner_id now expires_at x e) h =
      After-ok Taken _ (activate-IsTaken id auth owner_id now expires_at db h) e
  Step-IsTaken {db} (beat id owner_id now expires_at last x e) h =
      After-ok Taken _ (heartbeat-IsTaken id owner_id now expires_at last db h) e
  Step-IsTaken {db} (close_requested id actor_user_id now x e) h =
      After-ok Taken _ (close-IsTaken id actor_user_id now db h) e
  Step-IsTaken {db} (deleted id owner_id x e) h =
      After-ok Taken _ (delete-IsTaken id owner_id db h) e
  Step-IsTaken {db} (cleaned now n e) h = After-ok Taken _ (cleanup-IsTaken now db h) e

  -- Once no session of the id waits for its claim, none does after any statements.
  pub Reach-IsTaken :
      {db db' : Db}
      → Reach claimed db db'
      → IsTaken claimed db.web_shell_sessions
      → IsTaken claimed db'.web_shell_sessions
  Reach-IsTaken here h = h
  Reach-IsTaken (next reach step) h = Step-IsTaken step (Reach-IsTaken reach h)
