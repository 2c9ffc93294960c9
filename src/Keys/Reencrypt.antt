-- ===== src/Keys/Reencrypt.antt =====
-- About `_reencrypt` of backend/src/ops_composer/services/encryption.py: a record says the same under
-- the new key.
use ops_composer.Prelude.{ℕ, Option, some, List, ◌≡◌, refl, ap, subst, ◌∙◌, length}
use ops_composer.Domain.Encryption.{EncryptedRecordKind, EncryptedRecord}
use ops_composer.Keys.Keyring.{
  Packages, MasterKeyring, encrypt_bytes, decrypt_bytes, encrypt_credential, decrypt_credential,
}
use ops_composer.Keys.Service.{
  purpose_of, id_text, uuid_of, rotated, reencrypt_credential, reencrypt_bytes, reencrypt,
}
use ops_composer.Keys.Secrets.{
  IsLawful, Secret, &>-elim, secret_of_credential, secret_of_bytes, secret_of,
  reencrypted_credential, reencrypted_bytes,
}

module _ (packages : Packages) (keyring : MasterKeyring) (nonce : List ℕ) (target : ℕ)
    (r new : EncryptedRecord) where
  -- A new record differs from the old one in its payload and its version.
  abbrev pub IsRotated : Type 0
  IsRotated = new ≡ rotated new.encrypted_payload target r

  rotated_credential : reencrypt_credential packages keyring nonce target r ≡ some new → IsRotated
  unfolding reencrypt_credential
  rotated_credential h = &>-elim r.sub_id _ h λ revision _ h1.
      &>-elim (uuid_of r.record_id) _ h1 λ id _ h2.
        &>-elim
          (decrypt_credential packages keyring id revision r.encrypted_payload
            (some r.encryption_key_version))
          _ h2
          λ secret _ h3.
            &>-elim (encrypt_credential packages keyring nonce id revision secret) _ h3
              λ envelope _ h4. let row : rotated envelope target r ≡ new = cc in rw (← row) refl

  rotated_bytes : reencrypt_bytes packages keyring nonce target r ≡ some new → IsRotated
  unfolding reencrypt_bytes
  rotated_bytes h =
      let purpose = purpose_of r.kind in
      let subject = id_text packages r.record_id in
      &>-elim
        (decrypt_bytes packages keyring purpose subject r.encrypted_payload
          r.encryption_key_version)
        _ h
        λ plaintext _ h1.
          &>-elim (encrypt_bytes packages keyring nonce purpose subject plaintext (some target)) _
            h1 λ sealed _ h2. let row : rotated sealed.0 target r ≡ new = cc in rw (← row) refl

  pub reencrypt-rotated : reencrypt packages keyring nonce target r ≡ some new → IsRotated
  unfolding reencrypt
  reencrypt-rotated h = go r.kind h
    where
      go :
          (k : EncryptedRecordKind)
          → elim k as (λ _. Option EncryptedRecord) [
            | EncryptedRecordKind.credential ↦ reencrypt_credential packages keyring nonce target r
            | _ ↦ reencrypt_bytes packages keyring nonce target r
          ]
            ≡ some new
          → IsRotated
      go EncryptedRecordKind.credential e = rotated_credential e
      go EncryptedRecordKind.mfa e = rotated_bytes e
      go EncryptedRecordKind.system e = rotated_bytes e
      go EncryptedRecordKind.run_secret e = rotated_bytes e

module _ (packages : Packages) (keyring : MasterKeyring) (lawful : IsLawful packages)
    (nonce : List ℕ) (drawn : length nonce ≡ 12) (r new : EncryptedRecord) where
  secret_of-rotated :
      new.kind ≡ r.kind
      → reencrypt packages keyring nonce keyring.primary_version r ≡ some new
      → secret_of packages keyring new ≡ secret_of packages keyring r
  unfolding reencrypt secret_of
  secret_of-rotated same h =
      subst
        (λ k. secret_of packages keyring new ≡ elim k as (λ _. Option Secret) [
          | EncryptedRecordKind.credential ↦ secret_of_credential packages keyring new
          | _ ↦ secret_of_bytes packages keyring new
        ])
        same refl
      ∙ go r.kind h
    where
      go :
          (k : EncryptedRecordKind)
          → elim k as (λ _. Option EncryptedRecord) [
            | EncryptedRecordKind.credential ↦
                reencrypt_credential packages keyring nonce keyring.primary_version r
            | _ ↦ reencrypt_bytes packages keyring nonce keyring.primary_version r
          ]
            ≡ some new
          → elim k as (λ _. Option Secret) [
            | EncryptedRecordKind.credential ↦ secret_of_credential packages keyring new
            | _ ↦ secret_of_bytes packages keyring new
          ]
            ≡ elim k as (λ _. Option Secret) [
              | EncryptedRecordKind.credential ↦ secret_of_credential packages keyring r
              | _ ↦ secret_of_bytes packages keyring r
            ]
      go EncryptedRecordKind.credential e =
          reencrypted_credential packages keyring lawful nonce drawn r new e
      go EncryptedRecordKind.mfa e = reencrypted_bytes packages keyring lawful nonce drawn r new e
      go EncryptedRecordKind.system e =
          reencrypted_bytes packages keyring lawful nonce drawn r new e
      go EncryptedRecordKind.run_secret e =
          reencrypted_bytes packages keyring lawful nonce drawn r new e

  -- Where AES-GCM and json are lawful and the nonce has 12 bytes: when `_reencrypt` returns a record
  -- under the keyring's primary version, the record is under that version with its id and kind, and
  -- decrypts to what the old one decrypted to.
  pub secret_of-reencrypt :
      reencrypt packages keyring nonce keyring.primary_version r ≡ some new
      → (secret_of packages keyring new ≡ secret_of packages keyring r)
        × (new ≡ rotated new.encrypted_payload keyring.primary_version r)
  secret_of-reencrypt h =
      let row = reencrypt-rotated packages keyring nonce keyring.primary_version r new h in
      let same : new.kind ≡ r.kind = ap (λ (x : EncryptedRecord). x.kind) row in
      (secret_of-rotated same h, row)
