-- ===== src/WebShell/Store.antt =====
-- backend/src/ops_composer/repositories/web_shell.py, operation by operation. The advisory lock of
-- `acquire_admission_lock` only orders transactions, which are in order here.
use ops_composer.Prelude.{
  ℕ, String, Bool, true, false, Option, none, some, List, [], ◌∷◌, ◌++◌, ◌&&◌, ◌==◌, ltb, leb,
  holds_text, if◌then◌else◌, rows_where, update_where, delete_where, exists_where, first_where,
  length,
}
use mathlib.Core.Option
use ops_composer.Db.{Db, HostLock, Tx, ok, err}
use ops_composer.Domain.Auth.{UserStatus, UserIdentity}
use ops_composer.Domain.Errors.{runtime_error, database_error}
use ops_composer.Domain.WebShell.{WebShellState, WebShellSession}
use ops_composer.Locks.{take_lock}

abbrev pub is_pending : WebShellState → Bool
is_pending WebShellState.pending = true
is_pending _ = false

abbrev pub is_active : WebShellState → Bool
is_active WebShellState.active = true
is_active _ = false

-- The two WHERE clauses: a ticket or a lease that has run out, and one that has not.
abbrev pub is_expired : ℕ → WebShellSession → Bool
is_expired now s =
    if is_pending s.state then leb s.ticket_expires_at now else leb s.lease_expires_at now

abbrev pub is_live : ℕ → WebShellSession → Bool
is_live now s =
    if is_pending s.state then ltb now s.ticket_expires_at else ltb now s.lease_expires_at

abbrev pub has_session_id : ℕ → WebShellSession → Bool
has_session_id web_shell_session_id s = s.web_shell_session_id == web_shell_session_id

-- A lock that refers to one of the rows: ON DELETE CASCADE.
unfoldable pub lock_of_any : List WebShellSession → HostLock → Bool
unfolding exists_where
lock_of_any gone l = elim l.web_shell_session_id [
  | none ↦ false
  | some id ↦ exists_where (has_session_id id) gone
]

unfoldable pub delete_sessions : (WebShellSession → Bool) → Db → Db
unfolding rows_where delete_where lock_of_any
delete_sessions p db = record db {
  web_shell_sessions = delete_where p db.web_shell_sessions;
  host_execution_locks =
      delete_where (lock_of_any (rows_where p db.web_shell_sessions)) db.host_execution_locks;
}

unfoldable pub cleanup_expired : ℕ → Tx ℕ
unfolding delete_sessions rows_where
cleanup_expired now db = ok (
  length (rows_where (is_expired now) db.web_shell_sessions),
  delete_sessions (is_expired now) db,
)

unfoldable pub count_live : ℕ → Tx ℕ
unfolding rows_where
count_live now db = ok (length (rows_where (is_live now) db.web_shell_sessions), db)

-- PRIMARY KEY (web_shell_session_id)
unfoldable pub add : WebShellSession → Tx WebShellSession
unfolding exists_where
add session db =
    if exists_where (has_session_id session.web_shell_session_id) db.web_shell_sessions
    then err database_error
    else ok (session, record db { web_shell_sessions = db.web_shell_sessions ++ session ∷ [] })

abbrev pub shell_lock : ℕ → ℕ → String → ℕ → ℕ → HostLock
shell_lock host_id web_shell_session_id owner_id now expires_at = record {
  host_id = host_id;
  run_id = none;
  owner_id = owner_id;
  acquired_at = now;
  expires_at = expires_at;
  web_shell_session_id = some web_shell_session_id;
}

-- The answer of the upsert: whether it returned a row.
abbrev pub acquire_answer : Option (List HostLock) → Tx Bool
acquire_answer none db = ok (false, db)
acquire_answer (some locks) db = ok (true, record db { host_execution_locks = locks })

unfoldable pub acquire_host_lock : ℕ → ℕ → String → ℕ → ℕ → Tx Bool
unfolding take_lock
acquire_host_lock host_id web_shell_session_id owner_id now expires_at db =
    acquire_answer
      (take_lock (shell_lock host_id web_shell_session_id owner_id now expires_at) now
        db.host_execution_locks)
      db

unfoldable pub get : ℕ → Tx (Option WebShellSession)
unfolding first_where
get web_shell_session_id db =
    ok (first_where (has_session_id web_shell_session_id) db.web_shell_sessions, db)

abbrev pub is_active_user : ℕ → UserIdentity → Bool
is_active_user user_id u =
    u.user_id == user_id && elim u.status [ UserStatus.active ↦ true | _ ↦ false ]

-- EXISTS (SELECT 1 FROM sessions s JOIN users u …): the session has not expired, and its user is active.
unfoldable pub is_signed_in : ℕ → ℕ → Db → Bool
unfolding exists_where
is_signed_in auth_session_id now db =
    exists_where
      (λ s.
        s.session_id == auth_session_id
        && ltb now s.expires_at
        && exists_where (is_active_user s.user_id) db.users)
      db.sessions

unfoldable pub can_activate : ℕ → ℕ → ℕ → Db → WebShellSession → Bool
unfolding is_signed_in
can_activate web_shell_session_id auth_session_id now db ws =
    ws.web_shell_session_id == web_shell_session_id
    && ws.auth_session_id == auth_session_id
    && is_pending ws.state
    && ltb now ws.ticket_expires_at
    && is_signed_in ws.auth_session_id now db

unfoldable pub set_active : String → ℕ → ℕ → WebShellSession → WebShellSession
set_active owner_id now expires_at ws = record ws {
  state = WebShellState.active;
  owner_id = some owner_id;
  connected_at = some now;
  last_activity_at = some now;
  lease_expires_at = expires_at;
}

abbrev pub live_lock_of : ℕ → ℕ → HostLock → Bool
live_lock_of web_shell_session_id now l =
    elim l.web_shell_session_id [ none ↦ false | some id ↦ id == web_shell_session_id ]
    && ltb now l.expires_at

-- The second statement of `activate`, when the first returned a row.
unfoldable pub activate_lock : ℕ → String → ℕ → ℕ → WebShellSession → Tx (Option WebShellSession)
unfolding rows_where update_where
activate_lock web_shell_session_id owner_id now expires_at row db =
    if length (rows_where (live_lock_of web_shell_session_id now) db.host_execution_locks) == 1
    then ok (
      some row,
      record db {
        host_execution_locks =
            update_where (live_lock_of web_shell_session_id now)
              (λ l. record l { owner_id = owner_id; expires_at = expires_at })
              db.host_execution_locks;
      },
    )
    else err runtime_error

-- The answer of the first statement of `activate`: the row that the test finds, changed.
unfoldable pub activate_found :
    ℕ → ℕ → String → ℕ → ℕ → Option WebShellSession → Tx (Option WebShellSession)
unfolding activate_lock can_activate set_active update_where
activate_found web_shell_session_id auth_session_id owner_id now expires_at none db = ok (none, db)
activate_found web_shell_session_id auth_session_id owner_id now expires_at (some ws) db =
    activate_lock web_shell_session_id owner_id now expires_at
      (set_active owner_id now expires_at ws)
      (record db {
        web_shell_sessions =
            update_where (can_activate web_shell_session_id auth_session_id now db)
              (set_active owner_id now expires_at) db.web_shell_sessions;
      })

unfoldable pub activate : ℕ → ℕ → String → ℕ → ℕ → Tx (Option WebShellSession)
unfolding activate_found can_activate first_where
activate web_shell_session_id auth_session_id owner_id now expires_at db =
    activate_found web_shell_session_id auth_session_id owner_id now expires_at
      (first_where (can_activate web_shell_session_id auth_session_id now db) db.web_shell_sessions)
      db

unfoldable pub can_refresh : ℕ → String → ℕ → Db → WebShellSession → Bool
unfolding is_signed_in
can_refresh web_shell_session_id owner_id now db ws =
    ws.web_shell_session_id == web_shell_session_id
    && holds_text ws.owner_id owner_id
    && is_active ws.state
    && is_signed_in ws.auth_session_id now db

-- web_shell_session_id IN (SELECT … FROM refreshed) AND owner_id = …
unfoldable pub refreshed_lock : List WebShellSession → String → HostLock → Bool
unfolding lock_of_any
refreshed_lock refreshed owner_id l =
    lock_of_any refreshed l && holds_text (some l.owner_id) owner_id

unfoldable pub heartbeat : ℕ → String → ℕ → ℕ → ℕ → Tx Bool
unfolding can_refresh refreshed_lock rows_where update_where exists_where
heartbeat web_shell_session_id owner_id now expires_at last_activity_at db =
    let p = can_refresh web_shell_session_id owner_id now db in
    let refreshed = rows_where p db.web_shell_sessions in
    ok (
      exists_where p db.web_shell_sessions
          && exists_where (refreshed_lock refreshed owner_id) db.host_execution_locks,
      record db {
        web_shell_sessions =
            update_where p
              (λ ws. record ws {
                lease_expires_at = expires_at;
                last_activity_at = some last_activity_at;
              })
              db.web_shell_sessions;
        host_execution_locks =
            update_where (refreshed_lock refreshed owner_id)
              (λ l. record l { expires_at = expires_at }) db.host_execution_locks;
      },
    )

abbrev pub can_close : ℕ → ℕ → WebShellSession → Bool
can_close web_shell_session_id actor_user_id ws =
    ws.web_shell_session_id == web_shell_session_id
    && ws.actor_user_id == actor_user_id
    && is_active ws.state

abbrev pub set_close_requested : ℕ → WebShellSession → WebShellSession
set_close_requested now ws = record ws {
  state = WebShellState.close_requested;
  close_requested_at = some now;
}

unfoldable pub mark_close_requested : ℕ → ℕ → ℕ → Tx (Option WebShellSession)
unfolding first_where update_where
mark_close_requested web_shell_session_id actor_user_id now db =
    let p = can_close web_shell_session_id actor_user_id in
    ok (
      Option.map (set_close_requested now) (first_where p db.web_shell_sessions),
      record db {
        web_shell_sessions = update_where p (set_close_requested now) db.web_shell_sessions;
      },
    )

-- WHERE web_shell_session_id = … [AND owner_id = …]
abbrev pub deletable : ℕ → Option String → WebShellSession → Bool
deletable web_shell_session_id none ws = ws.web_shell_session_id == web_shell_session_id
deletable web_shell_session_id (some owner_id) ws =
    ws.web_shell_session_id == web_shell_session_id && holds_text ws.owner_id owner_id

unfoldable pub delete : ℕ → Option String → Tx (Option WebShellSession)
unfolding first_where delete_sessions
delete web_shell_session_id owner_id db = ok (
  first_where (deletable web_shell_session_id owner_id) db.web_shell_sessions,
  delete_sessions (deletable web_shell_session_id owner_id) db,
)
