-- ===== src/Keys/Shrinks.antt =====
-- What a batch does to the number of records under other versions, whichever table it is from.
use ops_composer.Prelude.{
  ℕ, suc, ◌+◌, ◌<◌, Bool, true, false, not, some, List, [], ◌∷◌, ◌++◌, ◌≡◌, refl, sym, ◌⊎◌, ap, ◌∙◌,
  subst, inl, inr, arith, ◌==◌, map, length, All, All-map, take, rows_where, order_by,
  length-order_by, length-rows_where-append, All-not_exists_where,
}
use ops_composer.Db.{Db, ok}
use ops_composer.Domain.Encryption.{EncryptedRecordKind, EncryptedRecord}
use ops_composer.Keys.Keyring.{Packages, MasterKeyring}
use ops_composer.Keys.Service.{reencrypt, reencrypt_all}
use ops_composer.Keys.Store.{
  Contention, of_credential, of_mfa, of_system, of_run_secret, versions_in, is_left, load, or_else,
  is_kind, update_kind, update_rotation_batch, update_each, used_versions, load_rotation_batch,
  credential_before, mfa_before, system_before, run_before,
}
use ops_composer.Keys.Secrets.{&>-elim}
use ops_composer.Keys.Reencrypt.{reencrypt-rotated}
use ops_composer.Keys.Vault.{Writes}
use ops_composer.Keys.Tables.{
  Writes-set_credential, Writes-set_mfa, Writes-set_system, Writes-set_run_secret,
}
use ops_composer.Keys.Remaining.{left}
use ops_composer.Keys.Progress.{load_lt}
use ops_composer.Keys.Rotation.{or_else-elim}

abbrev pub left_of : ℕ → Db → ℕ
left_of target db = left target (used_versions db)

-- Nobody else holds a lock.
abbrev pub alone : Contention
alone = record { gate = false; job_locked = λ j. false; record_locked = λ r. false }

is_kind_refl : (k : EncryptedRecordKind) → is_kind k k ≡ true
is_kind_refl EncryptedRecordKind.credential = refl
is_kind_refl EncryptedRecordKind.mfa = refl
is_kind_refl EncryptedRecordKind.system = refl
is_kind_refl EncryptedRecordKind.run_secret = refl

abbrev pub AllOf : EncryptedRecordKind → List EncryptedRecord → Type 0
AllOf k news = All (λ r. r.kind ≡ k) news

-- Records of one kind are written.
pub update_rotation_batch-ok :
    (k : EncryptedRecordKind) (r : EncryptedRecord) (rs : List EncryptedRecord) (target now : ℕ)
    (db : Db)
    → AllOf k (r ∷ rs)
    → update_rotation_batch (r ∷ rs) target now db ≡ ok (tt, update_kind k (r ∷ rs) target now db)
unfolding update_rotation_batch
update_rotation_batch-ok k r rs target now db alike =
    let same =
      All-not_exists_where (λ s. not (is_kind s.kind r.kind)) (r ∷ rs)
        (All-map (λ s. s.kind ≡ k) (λ s. not (is_kind s.kind r.kind) ≡ false) (r ∷ rs)
          (λ s e. ap not (ap (λ j. is_kind j r.kind) (e ∙ sym alike.0) ∙ is_kind_refl r.kind))
          alike) in
    let kinds : r.kind ≡ k = alike.0 in
    rw same (ap (λ j. ok (tt, update_kind j (r ∷ rs) target now db)) kinds)

module _ (packages : Packages) (keyring : MasterKeyring) (nonces : EncryptedRecord → List ℕ)
    (target : ℕ) where
  reencrypt_all-AllOf :
      {R : Type 0} (of : R → EncryptedRecord) (k : EncryptedRecordKind)
      → ((r : R) → (of r).kind ≡ k)
      → (batch : List R) (news : List EncryptedRecord)
      → reencrypt_all packages keyring nonces target (map of batch) ≡ some news
      → AllOf k news
  unfolding reencrypt_all
  reencrypt_all-AllOf of k kinds [] news h =
      let none_left : [] ≡ news = cc in subst (AllOf k) none_left tt
  reencrypt_all-AllOf of k kinds (s ∷ batch) news h =
      &>-elim (reencrypt packages keyring (nonces (of s)) target (of s)) _ h λ new e h1.
        &>-elim (reencrypt_all packages keyring nonces target (map of batch)) _ h1 λ others e' h2.
          let whole : new ∷ others ≡ news = cc in
          let row = reencrypt-rotated packages keyring (nonces (of s)) target (of s) new e in
          let same = ap (λ (x : EncryptedRecord). x.kind) row in
          subst (AllOf k) whole (same ∙ kinds s, reencrypt_all-AllOf of k kinds batch others e')

-- The four tables together.
left_of-tables :
    (target : ℕ) (db : Db)
    → left_of target db
      ≡ left target (versions_in of_credential db.credential_secret_envelopes)
        + (left target (versions_in of_mfa db.user_mfa_factors)
            + (left target (versions_in of_system db.system_secret_envelopes)
                + left target (versions_in of_run_secret db.run_secret_inputs)))
unfolding left
left_of-tables target db =
    let p = λ (w : ℕ). not (w == target) in
    let c = versions_in of_credential db.credential_secret_envelopes in
    let m = versions_in of_mfa db.user_mfa_factors in
    let s = versions_in of_system db.system_secret_envelopes in
    let r = versions_in of_run_secret db.run_secret_inputs in
    omega (
      arith,
      length-rows_where-append p c (m ++ (s ++ r)),
      length-rows_where-append p m (s ++ r),
      length-rows_where-append p s r,
    )

-- A SELECT without rows, when nobody holds any: no row is under another version.
nothing_taken :
    {R : Type 0} (of : R → EncryptedRecord) (limit : ℕ) (rows : List R)
    → map of (take (suc limit) rows) ≡ []
    → rows ≡ []
nothing_taken of limit [] e = refl
nothing_taken of limit (r ∷ rows) e = cc

length-is_left :
    {R : Type 0} (target : ℕ) (of : R → EncryptedRecord) (rows : List R)
    → length (rows_where (is_left alone target of) rows) ≡ left target (versions_in of rows)
unfolding left rows_where
length-is_left target of [] = refl
length-is_left target of (r ∷ rows) = ground (arith, length-is_left target of rows)

load_nil :
    {R : Type 0} (target limit : ℕ) (of : R → EncryptedRecord) (before : R → R → Bool)
    (rows : List R)
    → load alone target (suc limit) of before rows ≡ []
    → left target (versions_in of rows) ≡ 0
unfolding load
load_nil target limit of before rows e =
    let selected = rows_where (is_left alone target of) rows in
    let none_sorted = ap length (nothing_taken of limit (order_by before selected) e) in
    sym (length-is_left target of rows) ∙ (sym (length-order_by before selected) ∙ none_sorted)

or_else_nil : (xs ys : List EncryptedRecord) → or_else xs ys ≡ [] → (xs ≡ []) × (ys ≡ [])
or_else_nil [] ys e = (refl, e)
or_else_nil (x ∷ xs) ys e = cc

pub load_rotation_batch_nil :
    (target limit : ℕ) (db : Db)
    → load_rotation_batch alone target (suc limit) db ≡ []
    → left_of target db ≡ 0
unfolding load_rotation_batch
load_rotation_batch_nil target limit db e =
    let (no_credentials, e1) = or_else_nil _ _ e in
    let (no_mfa, e2) = or_else_nil _ _ e1 in
    let (no_system, no_runs) = or_else_nil _ _ e2 in
    omega (
      arith,
      left_of-tables target db,
      load_nil target limit of_credential credential_before db.credential_secret_envelopes
          no_credentials,
      load_nil target limit of_mfa mfa_before db.user_mfa_factors no_mfa,
      load_nil target limit of_system system_before db.system_secret_envelopes no_system,
      load_nil target limit of_run_secret run_before db.run_secret_inputs no_runs,
    )

-- A batch of one kind, which is empty or leaves fewer records.
abbrev pub Shrinks : ℕ → ℕ → Db → List EncryptedRecord → List EncryptedRecord → Type 0
Shrinks target now db batch news =
    (k : EncryptedRecordKind) × AllOf k news
    × ((batch ≡ []) ⊎ (left_of target (update_kind k news target now db) < left_of target db))

module _ (packages : Packages) (keyring : MasterKeyring) (nonces : EncryptedRecord → List ℕ)
    (target now : ℕ) (contention : Contention) (limit : ℕ) (db : Db)
    (news : List EncryptedRecord) where
  module _ {R : Type 0} (of : R → EncryptedRecord) (is_row : EncryptedRecord → R → Bool)
      (set : EncryptedRecord → R → R) (writes : Writes of is_row set target)
      (k : EncryptedRecordKind) (kinds : (r : R) → (of r).kind ≡ k) where
    table-Shrinks :
        (before : R → R → Bool) (rows : List R)
        → (left target (versions_in of (update_each is_row set news rows))
              < left target (versions_in of rows)
            → left_of target (update_kind k news target now db) < left_of target db)
        → reencrypt_all packages keyring nonces target (load contention target limit of before rows)
          ≡ some news
        → Shrinks target now db (load contention target limit of before rows) news
    unfolding load
    table-Shrinks before rows total h = (
      k,
      reencrypt_all-AllOf packages keyring nonces target of k kinds _ news h,
      elim (load_lt packages keyring nonces target of is_row set writes contention limit before rows
          news h) [ inl empty ↦ inl empty | inr lt ↦ inr (total lt) ],
    )

  abbrev Rotates : List EncryptedRecord → Type 0
  Rotates batch =
      reencrypt_all packages keyring nonces target batch ≡ some news
      → Shrinks target now db batch news

  pub batch-Shrinks : Rotates (load_rotation_batch contention target limit db)
  unfolding load_rotation_batch update_kind
  batch-Shrinks =
      or_else-elim Rotates _ _
        (table-Shrinks of_credential _ _ (Writes-set_credential target now)
          EncryptedRecordKind.credential (λ r. refl) _ db.credential_secret_envelopes
          (λ lt. omega (
            arith,
            lt,
            left_of-tables target db,
            left_of-tables target (update_kind EncryptedRecordKind.credential news target now db),
          )))
        (or_else-elim Rotates _ _
          (table-Shrinks of_mfa _ _ (Writes-set_mfa target now) EncryptedRecordKind.mfa (λ r. refl)
            _ db.user_mfa_factors
            (λ lt. omega (
              arith,
              lt,
              left_of-tables target db,
              left_of-tables target (update_kind EncryptedRecordKind.mfa news target now db),
            )))
          (or_else-elim Rotates _ _
            (table-Shrinks of_system _ _ (Writes-set_system target now) EncryptedRecordKind.system
              (λ r. refl) _ db.system_secret_envelopes
              (λ lt. omega (
                arith,
                lt,
                left_of-tables target db,
                left_of-tables target (update_kind EncryptedRecordKind.system news target now db),
              )))
            (table-Shrinks of_run_secret _ _ (Writes-set_run_secret target now)
              EncryptedRecordKind.run_secret (λ r. refl) _ db.run_secret_inputs
              (λ lt. omega (
                arith,
                lt,
                left_of-tables target db,
                left_of-tables target
                    (update_kind EncryptedRecordKind.run_secret news target now db),
              )))))
