-- ===== src/Keys/Startup.antt =====
-- What a start of the service sees to: `ensure_keyring` of
-- backend/src/ops_composer/services/encryption.py.
use ops_composer.Prelude.{
  ℕ, ◌≤◌, String, Bool, true, false, not, ◌&&◌, Option, none, some, List, [], ◌∷◌, ◌++◌, ◌≡◌, refl,
  ◌∙◌, subst, ◌⊎◌, inl, inr, arith, ltb, text_refl, All, All-map, All-append, exists_where,
  exists_where-append, order_by, first_where, exists_of_first_where, first_where_of_exists,
  not_exists_where-All, Bool-cases,
}
use mathlib.Core.List.{map-append}
use ops_composer.Db.{
  Db, Tx, ok, raise_if, require, After, After-any, After-bind, After-ok, ◌>>=◌, ◌>>◌,
}
use ops_composer.Audit
use ops_composer.Domain.Audit.{AuditEvent}
use ops_composer.Domain.Errors.{Failure, key_version_missing, value_error}
use ops_composer.Domain.Encryption.{EncryptionKeyRecord, SystemSecretEnvelope, total_count}
use ops_composer.Keys.Keyring.{
  Packages, MasterKeyring, is_version, key_of, or_primary, has_version, versions, aad,
  encrypt_with_aad, encrypt_bytes,
}
use ops_composer.Keys.Service.{
  LegacyCheck, Draws, idempotency_secret_name, is_missing, check_settings, register_all,
  ensure_pepper, append_all, ensure_keyring,
}
use ops_composer.Keys.Store.{
  list_keys, is_secret, get_system_secret, put_system_secret, usage, usages, usage_of,
  used_versions, versions_in, version_of, of_credential, of_mfa, of_system, of_run_secret,
}
use ops_composer.Keys.Secrets.{&>-elim}
use ops_composer.Keys.Remaining.{used-All}

-- Every encrypted record is under a version of the keyring.
abbrev pub IsCovered : MasterKeyring → Db → Type 0
IsCovered keyring db = All (λ w. has_version keyring w ≡ true) (used_versions db)

abbrev pub HasPepper : Db → Type 0
HasPepper db = exists_where (is_secret idempotency_secret_name) db.system_secret_envelopes ≡ true

not_missing : (n : ℕ) (b : Bool) → (ltb 0 n && not b) ≡ false → 1 ≤ n → b ≡ true
not_missing n b h some_row = ground arith

covered :
    (keyring : MasterKeyring) (db : Db)
    → exists_where (is_missing keyring) (usages db) ≡ false
    → IsCovered keyring db
unfolding is_missing usage_of
covered keyring db h =
    All-map (λ w. (is_missing keyring (usage_of db w) ≡ false) × (1 ≤ total_count (usage_of db w)))
      (λ w. has_version keyring w ≡ true) (used_versions db)
      (λ w both. not_missing (total_count (usage_of db w)) (has_version keyring w) both.0 both.1)
      (used-All (λ u. is_missing keyring u ≡ false) db
        (not_exists_where-All (is_missing keyring) (usages db) h))

-- The version that the pepper is encrypted under.
sealed_covered :
    (packages : Packages) (keyring : MasterKeyring) (nonce plaintext : List ℕ)
    (purpose subject : String) {sealed : List ℕ × ℕ}
    → encrypt_bytes packages keyring nonce purpose subject plaintext none ≡ some sealed
    → has_version keyring sealed.1 ≡ true
unfolding encrypt_bytes encrypt_with_aad key_of has_version
sealed_covered packages keyring nonce plaintext purpose subject {sealed} h =
    &>-elim (aad packages purpose subject) _ h λ context _ h1.
      &>-elim (key_of keyring (or_primary keyring (some keyring.primary_version))) _ h1
        λ key found e.
          &>-elim
            (first_where (is_version (or_primary keyring (some keyring.primary_version)))
              keyring.keys)
            _ found
            λ row there _.
              let same : or_primary keyring (some keyring.primary_version) ≡ sealed.1 = cc in
              subst (λ v. exists_where (is_version v) keyring.keys ≡ true) same
                (exists_of_first_where _ keyring.keys there)

After-require :
    {A : Type 0} (Q : Db → Type 0) (o : Option A) (e : Failure) {B : Type 0} (f : A → Tx B)
    (db : Db)
    → ((a : A) → o ≡ some a → After Q (f a db))
    → After Q ((require o e >>= f) db)
After-require Q none e f db k = tt
After-require Q (some a) e f db k = k a refl

abbrev AreKept : MasterKeyring → Db → Type 0
AreKept keyring db = IsCovered keyring db × HasPepper db

append-All : {A : Type 0} (P : A → Type 0) (xs ys : List A) → All P (xs ++ ys) → All P xs × All P ys
append-All P [] ys h = (tt, h)
append-All P (x ∷ xs) ys h = let (hx, hy) = append-All P xs ys h.1 in ((h.0, hx), hy)

put-AreKept :
    (keyring : MasterKeyring) (new : SystemSecretEnvelope) (db : Db)
    → has_version keyring new.encryption_key_version ≡ true
    → exists_where (is_secret new.secret_name) db.system_secret_envelopes ≡ false
    → IsCovered keyring db
    → After
        (λ d.
          IsCovered keyring d
          × (exists_where (is_secret new.secret_name) d.system_secret_envelopes ≡ true))
        (put_system_secret new db)
unfolding put_system_secret exists_where
put-AreKept keyring new db known fresh h =
    let rows = db.system_secret_envelopes in
    let C = versions_in of_credential db.credential_secret_envelopes in
    let M = versions_in of_mfa db.user_mfa_factors in
    let S = versions_in of_system rows in
    let R = versions_in of_run_secret db.run_secret_inputs in
    let P : ℕ → Type 0 = λ w. has_version keyring w ≡ true in
    let (hc, h1) = append-All P C (M ++ (S ++ R)) h in
    let (hm, h2) = append-All P M (S ++ R) h1 in
    let (hs, hr) = append-All P S R h2 in
    let added : All P (versions_in of_system (rows ++ new ∷ [])) =
      rw (map-append (λ r. version_of (of_system r)) rows (new ∷ []))
        (All-append P S _ hs (known, tt)) in
    rw fresh (
      All-append P C _ hc (All-append P M _ hm (All-append P _ R added hr)),
      exists_where-append (is_secret new.secret_name) rows (new ∷ [])
          ∙ rw (fresh, text_refl new.secret_name) refl,
    )

ensure_pepper-AreKept :
    (packages : Packages) (keyring : MasterKeyring) (draws : Draws) (now : ℕ) (db : Db)
    (o : Option SystemSecretEnvelope)
    → first_where (is_secret idempotency_secret_name) db.system_secret_envelopes ≡ o
    → IsCovered keyring db
    → After (AreKept keyring) (ensure_pepper packages keyring draws now o db)
unfolding ensure_pepper
ensure_pepper-AreKept packages keyring draws now db (some s) e h =
    (h, exists_of_first_where (is_secret idempotency_secret_name) db.system_secret_envelopes e)
ensure_pepper-AreKept packages keyring draws now db none e h =
    After-require (AreKept keyring)
      (encrypt_bytes packages keyring draws.pepper_nonce "system-secret" idempotency_secret_name
        draws.pepper none)
      value_error
      (λ sealed. put_system_secret (record {
        secret_name = idempotency_secret_name;
        encrypted_secret = sealed.0;
        encryption_key_version = sealed.1;
        updated_at = now;
      }))
      db
      λ sealed made.
        put-AreKept keyring _ db
          (sealed_covered packages keyring draws.pepper_nonce draws.pepper "system-secret"
            idempotency_secret_name made)
          (fresh (Bool-cases (exists_where pepper db.system_secret_envelopes))) h
  where
    pepper : SystemSecretEnvelope → Bool
    pepper = is_secret idempotency_secret_name

    fresh :
        (exists_where pepper db.system_secret_envelopes ≡ true)
          ⊎ (exists_where pepper db.system_secret_envelopes ≡ false)
        → exists_where pepper db.system_secret_envelopes ≡ false
    fresh (inl there) =
        let (s, found) = first_where_of_exists pepper db.system_secret_envelopes there in
        absurd (cc (e, found))
    fresh (inr absent) = absent

append_all-AreKept :
    (keyring : MasterKeyring) (events : List AuditEvent) (db : Db)
    → AreKept keyring db
    → After (AreKept keyring) (append_all events db)
unfolding append_all Audit.append
append_all-AreKept keyring [] db h = h
append_all-AreKept keyring (event ∷ events) db h = append_all-AreKept keyring events _ h

-- After a start that returns, every encrypted record is under a version of the keyring, and the pepper
-- of the idempotency keys is there.
pub ensure_keyring-IsCovered :
    (packages : Packages) (keyring : MasterKeyring) (draws : Draws) (now : ℕ)
    (legacy : Option LegacyCheck) (db db' : Db) {u : Unit {0}}
    → ensure_keyring packages keyring draws now legacy db ≡ ok (u, db')
    → IsCovered keyring db' × HasPepper db'
unfolding ensure_keyring list_keys usage get_system_secret
ensure_keyring-IsCovered packages keyring draws now legacy db db' h =
    After-ok (AreKept keyring) (ensure_keyring packages keyring draws now legacy db)
      (After-bind (λ _. Unit) (AreKept keyring) (check_settings packages keyring legacy registered)
        (λ _. register_all packages keyring draws now registered (versions keyring) >>= rest) db
        (After-any (check_settings packages keyring legacy registered db))
        λ _ d1 _.
          After-bind (λ _. Unit) (AreKept keyring)
            (register_all packages keyring draws now registered (versions keyring)) rest d1
            (After-any (register_all packages keyring draws now registered (versions keyring) d1))
            checked)
      h
  where
    registered : List EncryptionKeyRecord
    registered = order_by (λ r s. ltb r.key_version s.key_version) db.encryption_key_registry

    rest : List AuditEvent → Tx (Unit {0})
    rest emitted = do
      items ← usage
      raise_if (exists_where (is_missing keyring) items) key_version_missing
      pepper ← get_system_secret idempotency_secret_name
      ensure_pepper packages keyring draws now pepper
      append_all emitted

    checked :
        (emitted : List AuditEvent) (mid : Db)
        → Unit {0}
        → After (AreKept keyring) (rest emitted mid)
    checked emitted mid _ = elim (Bool-cases (exists_where (is_missing keyring) (usages mid))) [
      | inl missing ↦ rw missing tt
      | inr all_there ↦ rw all_there (
          After-bind (AreKept keyring) (AreKept keyring)
            (ensure_pepper packages keyring draws now
              (first_where (is_secret idempotency_secret_name) mid.system_secret_envelopes))
            (λ _. append_all emitted) mid
            (ensure_pepper-AreKept packages keyring draws now mid _ refl
              (covered keyring mid all_there))
            (λ _ d k. append_all-AreKept keyring emitted d k))
    ]
