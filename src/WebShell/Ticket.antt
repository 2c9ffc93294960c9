-- ===== src/WebShell/Ticket.antt =====
-- About `claim` of services/web_shell.py and `activate` of repositories/web_shell.py: the ticket of a
-- Web Shell.
use ops_composer.Prelude.{
  ℕ, ◌+◌, String, ◌≡◌, refl, sym, subst, ◌∙◌, ◌≢◌, true, false, Option, none, some, inl, inr, arith,
  ==_iff, Bool-cases, update_where, first_where, first_where_holds, All, All-update_where,
  All-first_where, Option-cases, ◌&&◌, if◌then◌else◌,
}
use ops_composer.Db.{Db, ok, err, >>=-ok}
use ops_composer.Domain.Auth.{Permission, SessionPrincipal}
use ops_composer.Domain.Assets.{Assets}
use ops_composer.Domain.Errors.{web_shell_session_expired}
use ops_composer.Domain.WebShell.{WebShellSession}
use ops_composer.Auth.{require_permission}
use ops_composer.WebShell.Store
use ops_composer.WebShell.Store.{
  is_pending, has_session_id, is_signed_in, can_activate, set_active, activate_lock, activate_found,
  live_lock_of,
}
use ops_composer.WebShell.Steps.{Reach, IsTaken, Reach-IsTaken}
use ops_composer.WebShell.Service.{lease, is_claimable, Cipher, WebShellLaunch, claim}
use ops_composer.WebShell.Claims.{permitted, claim_parts}

-- A row that cannot be claimed ends the claim.
claim_refused :
    (assets : Assets) (cipher : Cipher) (id : ℕ) (principal : SessionPrincipal) (owner_id : String)
    (now : ℕ) (db : Db) (current : WebShellSession)
    → principal.permissions Permission.web_shell ≡ true
    → first_where (has_session_id id) db.web_shell_sessions ≡ some current
    → is_claimable principal now current ≡ false
    → claim assets cipher id principal owner_id now db ≡ err web_shell_session_expired
unfolding claim Store.get
claim_refused assets cipher id principal owner_id now db current allowed found refused =
    >>=-ok (require_permission principal Permission.web_shell) _ db
      (permitted principal Permission.web_shell db allowed)
    ∙ rw (found, refused)

claim_unknown :
    (assets : Assets) (cipher : Cipher) (id : ℕ) (principal : SessionPrincipal) (owner_id : String)
    (now : ℕ) (db : Db)
    → principal.permissions Permission.web_shell ≡ true
    → first_where (has_session_id id) db.web_shell_sessions ≡ none
    → claim assets cipher id principal owner_id now db ≡ err web_shell_session_expired
unfolding claim Store.get
claim_unknown assets cipher id principal owner_id now db allowed no_row =
    >>=-ok (require_permission principal Permission.web_shell) _ db
      (permitted principal Permission.web_shell db allowed)
    ∙ rw no_row refl

some-inj : {A : Type 0} {a b : A} → ◌≡◌ {A = Option A} (some a) (some b) → a ≡ b
some-inj h = cc

not_both : true ≢ false
not_both h = cc

-- Where no session of the id waits for its claim, a claim ends.
claim_taken :
    (assets : Assets) (cipher : Cipher) (id : ℕ) (principal : SessionPrincipal) (owner_id : String)
    (now : ℕ) (db : Db)
    → principal.permissions Permission.web_shell ≡ true
    → IsTaken id db.web_shell_sessions
    → claim assets cipher id principal owner_id now db ≡ err web_shell_session_expired
unfolding is_claimable
claim_taken assets cipher id principal owner_id now db allowed taken =
    elim (Option-cases (first_where (has_session_id id) db.web_shell_sessions)) [
      | inl no_row ↦ claim_unknown assets cipher id principal owner_id now db allowed no_row
      | inr (current, row) ↦
          let its_id = first_where_holds (has_session_id id) db.web_shell_sessions row in
          let started : (has_session_id id current && is_pending current.state) ≡ false =
            All-first_where (λ s. (has_session_id id s && is_pending s.state) ≡ false)
              (has_session_id id) db.web_shell_sessions row taken in
          claim_refused assets cipher id principal owner_id now db current allowed row
            (ground (arith, its_id, started))
    ]

module _ (assets : Assets) (cipher : Cipher) (id : ℕ) (principal : SessionPrincipal)
    (owner_id : String) (now : ℕ) (db db' : Db) (l : WebShellLaunch)
    (opened : claim assets cipher id principal owner_id now db ≡ ok (l, db')) where
  -- A claim that returns has activated the row of the ticket.
  claim_activates :
      (current : WebShellSession) × (first_where (has_session_id id) db.web_shell_sessions
        ≡ some current)
      × (can_activate id principal.session_id now db current ≡ true)
      × (db'.web_shell_sessions
          ≡ update_where
              (can_activate id principal.session_id now db)
              (set_active owner_id now (now + lease))
              db.web_shell_sessions)
  unfolding can_activate is_claimable
  claim_activates =
      let (current, ws, row, claimable, hit, left) =
        claim_parts assets cipher id principal owner_id now db db' l opened in
      let p = can_activate id principal.session_id now db in
      let can_ws : p ws ≡ true = first_where_holds p db.web_shell_sessions hit in
      let its_id : has_session_id id current ≡ true =
        first_where_holds (has_session_id id) db.web_shell_sessions row in
      let same : ws.auth_session_id ≡ current.auth_session_id =
        (==_iff ws.auth_session_id principal.session_id).0 (ground (arith, can_ws))
        ∙ sym
            ((==_iff current.auth_session_id principal.session_id).0 (ground (arith, claimable))) in
      let signed_in : is_signed_in current.auth_session_id now db ≡ true =
        subst (λ i. is_signed_in i now db ≡ true) same (ground (arith, can_ws)) in
      (current, row, ground (arith, claimable, its_id, signed_in), left)

  -- Afterwards no session of the id waits for its claim.
  claim-IsTaken :
      All
        (λ s. first_where (has_session_id s.web_shell_session_id) db.web_shell_sessions ≡ some s)
        db.web_shell_sessions
      → IsTaken id db'.web_shell_sessions
  unfolding set_active
  claim-IsTaken keyed =
      let (current, row, can, left) = claim_activates in
      rw left (
        All-update_where
          (λ s. first_where (has_session_id s.web_shell_session_id) db.web_shell_sessions ≡ some s)
          (λ s. (has_session_id id s && is_pending s.state) ≡ false)
          (can_activate id principal.session_id now db) (set_active owner_id now (now + lease))
          db.web_shell_sessions (λ s own. step current row can s own) keyed)
    where
      step :
          (current : WebShellSession)
          → first_where (has_session_id id) db.web_shell_sessions ≡ some current
          → can_activate id principal.session_id now db current ≡ true
          → (s : WebShellSession)
          → first_where (has_session_id s.web_shell_session_id) db.web_shell_sessions ≡ some s
          → (let t =
                if can_activate id principal.session_id now db s
                then set_active owner_id now (now + lease) s
                else s in
              has_session_id id t && is_pending t.state)
            ≡ false
      step current row can s own =
          elim (Bool-cases (can_activate id principal.session_id now db s)) [
            | inl e ↦ rw e (ground arith)
            | inr e ↦ elim (Bool-cases (has_session_id id s)) [
              | inl mine ↦
                  let its : s.web_shell_session_id ≡ id =
                    (==_iff s.web_shell_session_id id).0 mine in
                  let found : first_where (has_session_id id) db.web_shell_sessions ≡ some s =
                    subst (λ i. first_where (has_session_id i) db.web_shell_sessions ≡ some s) its
                      own in
                  let same : current ≡ s = some-inj (sym row ∙ found) in
                  absurd (
                    not_both (
                      sym
                        (subst (λ c. can_activate id principal.session_id now db c ≡ true) same can)
                      ∙ e))
              | inr other ↦ rw (e, other) refl
            ]
          ]

  -- In a table of sessions whose ids are distinct: after a claim that returns, every later claim of the
  -- same Web Shell by a user with the permission is refused, whoever claims it and whenever, and
  -- whatever statements on sessions ran in between: sessions added under other ids, activations,
  -- heartbeats, close requests, deletions and clean-ups.
  pub claim_once :
      All
        (λ s. first_where (has_session_id s.web_shell_session_id) db.web_shell_sessions ≡ some s)
        db.web_shell_sessions
      → (again : SessionPrincipal) (other_owner : String) (later : ℕ) (mid : Db)
      → again.permissions Permission.web_shell ≡ true
      → Reach id db' mid
      → claim assets cipher id again other_owner later mid ≡ err web_shell_session_expired
  claim_once keyed again other_owner later mid allowed between =
      claim_taken assets cipher id again other_owner later mid allowed
        (Reach-IsTaken id between (claim-IsTaken keyed))
