-- ===== src/Keys/Vault.antt =====
-- What the four tables of encrypted records say, apart from how it is encrypted: the abstract view
-- that a rotation keeps.
use ops_composer.Prelude.{
  ℕ, Bool, true, Option, some, List, [], ◌∷◌, ◌≡◌, refl, sym, ap, subst, ◌∙◌, inl, inr, map, length,
  All, Bool-cases, update_where,
}
use ops_composer.Db.{Db}
use ops_composer.Domain.Encryption.{RecordId, EncryptedRecord}
use ops_composer.Keys.Keyring.{Packages, MasterKeyring}
use ops_composer.Keys.Service.{rotated, reencrypt, reencrypt_all}
use ops_composer.Keys.Store.{of_credential, of_mfa, of_system, of_run_secret, update_each}
use ops_composer.Keys.Secrets.{IsLawful, Secret, &>-elim, secret_of}
use ops_composer.Keys.Reencrypt.{secret_of-reencrypt}

-- A row: its key, and what it decrypts to, if it does.
pub record Entry : Type 0 where
  pub record_id : RecordId
  pub sub_id : Option ℕ
  pub secret : Option Secret

pub record Vault : Type 0 where
  pub credentials : List Entry
  pub mfa_factors : List Entry
  pub system_secrets : List Entry
  pub run_secrets : List Entry

module _ (packages : Packages) (keyring : MasterKeyring) where
  abbrev pub entry : EncryptedRecord → Entry
  entry r = record {
    record_id = r.record_id;
    sub_id = r.sub_id;
    secret = secret_of packages keyring r;
  }

  abbrev pub entries : {R : Type 0} → (R → EncryptedRecord) → List R → List Entry
  entries of rows = map (λ r. entry (of r)) rows

  abbrev pub vault : Db → Vault
  vault db = record {
    credentials = entries of_credential db.credential_secret_envelopes;
    mfa_factors = entries of_mfa db.user_mfa_factors;
    system_secrets = entries of_system db.system_secret_envelopes;
    run_secrets = entries of_run_secret db.run_secret_inputs;
  }

-- An entry that has the key of another is the other.
abbrev pub IsOnly : Entry → Entry → Type 0
IsOnly e e' = e'.record_id ≡ e.record_id → e'.sub_id ≡ e.sub_id → e' ≡ e

-- The primary key of a table.
abbrev pub IsKeyed : List Entry → Type 0
IsKeyed es = All (λ e. All (IsOnly e) es) es

pub record AreKeyed (v : Vault) : Type 0 where
  pub credentials : IsKeyed v.credentials
  pub mfa_factors : IsKeyed v.mfa_factors
  pub system_secrets : IsKeyed v.system_secrets
  pub run_secrets : IsKeyed v.run_secrets

-- An UPDATE of a table writes the records that were encrypted again, by their keys.
pub record Writes {R : Type 0} (of : R → EncryptedRecord) (is_row : EncryptedRecord → R → Bool)
    (set : EncryptedRecord → R → R) (target : ℕ) : Type 0 where
  pub written :
      (s r : R) (new : EncryptedRecord)
      → new ≡ rotated new.encrypted_payload target (of s)
      → is_row new r ≡ true
      → (of (set new r) ≡ new)
        × ((of r).record_id ≡ (of s).record_id)
        × ((of r).sub_id ≡ (of s).sub_id)
  pub finds :
      (s : R) (new : EncryptedRecord)
      → new ≡ rotated new.encrypted_payload target (of s)
      → is_row new s ≡ true

module _ (packages : Packages) (keyring : MasterKeyring) (lawful : IsLawful packages)
    (nonces : EncryptedRecord → List ℕ)
    (drawn : (r : EncryptedRecord) → length (nonces r) ≡ 12) where
  entry-reencrypt :
      (r new : EncryptedRecord)
      → reencrypt packages keyring (nonces r) keyring.primary_version r ≡ some new
      → entry packages keyring new ≡ entry packages keyring r
  entry-reencrypt r new h =
      let both = secret_of-reencrypt packages keyring lawful (nonces r) (drawn r) r new h in
      let same_id = ap (λ (x : EncryptedRecord). x.record_id) both.1 in
      let same_sub = ap (λ (x : EncryptedRecord). x.sub_id) both.1 in cc (both.0, same_id, same_sub)

  module _ {R : Type 0} (of : R → EncryptedRecord) (is_row : EncryptedRecord → R → Bool)
      (set : EncryptedRecord → R → R) (writes : Writes of is_row set keyring.primary_version) where
    -- One UPDATE writes a record that was encrypted again.
    update_one-entries :
        (s : R) (new : EncryptedRecord) (rows : List R)
        → reencrypt packages keyring (nonces (of s)) keyring.primary_version (of s) ≡ some new
        → All (IsOnly (entry packages keyring (of s))) (entries packages keyring of rows)
        → entries packages keyring of (update_where (is_row new) (set new) rows)
          ≡ entries packages keyring of rows
    unfolding update_where
    update_one-entries s new [] h only = refl
    update_one-entries s new (r ∷ rows) h only = elim (Bool-cases (is_row new r)) [
      | inr other ↦ rw (other, update_one-entries s new rows h only.1)
      | inl found ↦
          let row =
            (secret_of-reencrypt packages keyring lawful (nonces (of s)) (drawn (of s)) (of s) new
              h).1 in
          let (kept, same_id, same_sub) = writes.written s r new row found in
          let same : entry packages keyring (of (set new r)) ≡ entry packages keyring (of r) =
            ap (entry packages keyring) kept
            ∙ (entry-reencrypt (of s) new h ∙ sym (only.0 same_id same_sub)) in
          rw found (rw (same, update_one-entries s new rows h only.1) refl)
    ]

    -- The UPDATEs of a batch.
    pub update_each-entries :
        (batch : List R) (news : List EncryptedRecord) (rows : List R)
        → reencrypt_all packages keyring nonces keyring.primary_version (map of batch) ≡ some news
        → All
            (λ s. All (IsOnly (entry packages keyring (of s))) (entries packages keyring of rows))
            batch
        → entries packages keyring of (update_each is_row set news rows)
          ≡ entries packages keyring of rows
    unfolding reencrypt_all update_each
    update_each-entries [] news rows h only =
        let none_left : [] ≡ news = cc in rw (← none_left) refl
    update_each-entries (s ∷ batch) news rows h only =
        &>-elim (reencrypt packages keyring (nonces (of s)) keyring.primary_version (of s)) _ h
          λ new e h1.
            &>-elim (reencrypt_all packages keyring nonces keyring.primary_version (map of batch)) _
              h1
              λ others e' h2.
                let whole : new ∷ others ≡ news = cc in
                let mid = update_where (is_row new) (set new) rows in
                let same = update_one-entries s new rows e only.0 in
                rw (← whole) (
                  update_each-entries batch others mid e' (
                    subst (λ es. All (λ t. All (IsOnly (entry packages keyring (of t))) es) batch)
                      (sym same) only.1)
                  ∙ same)
