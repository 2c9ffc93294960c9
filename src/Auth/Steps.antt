-- ===== src/Auth/Steps.antt =====
-- The units of work of auth/service.py on users, one after the other.
use ops_composer.Prelude.{ℕ, String, ◌≡◌, List}
use ops_composer.Db.{Db, ok}
use ops_composer.Domain.Auth.{UserStatus, UserRole, UserIdentity, SessionPrincipal}
use ops_composer.Auth.Sessions.{AuthSettings, Drawn}
use ops_composer.Auth.Admin.{create_user, reissue_activation, update_user, reset_user_mfa, activate}
use ops_composer.Auth.BreakGlass.{break_glass_reset_mfa, break_glass_reset_password, logout}

-- A unit of work on users that returns.
pub data Step : Db → Db → Type 0 where
  created :
      (settings : AuthSettings) (canonical lower : String → String) (drawn : Drawn) (user_id : ℕ)
      (actor : SessionPrincipal) (username : String) (role : UserRole) (now : ℕ) {u : UserIdentity}
      {db db' : Db}
      → create_user settings canonical lower drawn user_id actor username role now db ≡ ok (u, db')
      → Step db db'
  reissued :
      (settings : AuthSettings) (drawn : Drawn) (actor : SessionPrincipal) (user_id now : ℕ)
      {u : UserIdentity} {db db' : Db}
      → reissue_activation settings drawn actor user_id now db ≡ ok (u, db')
      → Step db db'
  updated :
      (actor : SessionPrincipal) (user_id : ℕ) (role : UserRole) (status : UserStatus)
      (version now : ℕ) {u : UserIdentity} {db db' : Db}
      → update_user actor user_id role status version now db ≡ ok (u, db')
      → Step db db'
  mfa_reset :
      (actor : SessionPrincipal) (user_id now : ℕ) {u : Unit {0}} {db db' : Db}
      → reset_user_mfa actor user_id now db ≡ ok (u, db')
      → Step db db'
  mfa_recovered :
      (canonical lower phrase : String → String) (username confirmation : String) (now : ℕ)
      {u : UserIdentity} {db db' : Db}
      → break_glass_reset_mfa canonical lower phrase username confirmation now db ≡ ok (u, db')
      → Step db db'
  password_recovered :
      (canonical lower phrase hash_password : String → String)
      (username confirmation new_password : String) (now : ℕ) {u : UserIdentity} {db db' : Db}
      → break_glass_reset_password canonical lower phrase hash_password username confirmation
          new_password now db
        ≡ ok (u, db')
      → Step db db'
  logged_out :
      (principal : SessionPrincipal) {u : Unit {0}} {db db' : Db}
      → logout principal db ≡ ok (u, db')
      → Step db db'
  activated :
      (settings : AuthSettings) (hash_password : String → String) (drawn : Drawn)
      (sealed : List ℕ × ℕ) (code password : String) (now : ℕ) {u : UserIdentity} {db db' : Db}
      → activate settings hash_password drawn sealed code password now db ≡ ok (u, db')
      → Step db db'

-- Units of work, one after the other.
pub data Reach : Db → Db → Type 0 where
  here : {db : Db} → Reach db db
  next : {db mid db' : Db} → Reach db mid → Step mid db' → Reach db db'
