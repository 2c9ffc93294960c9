-- ===== src/Keys/Readable.antt =====
-- When every record decrypts and the keyring has its primary key, `_reencrypt` does not fail.
use ops_composer.Prelude.{ℕ, true, Option, none, some, List, [], ◌∷◌, ◌≡◌, refl, is_set, All}
use ops_composer.Domain.Encryption.{EncryptedRecordKind, EncryptedRecord}
use ops_composer.Keys.Keyring.{
  Packages, MasterKeyring, key_of, aad, encrypt_with_aad, encrypt_bytes, decrypt_bytes,
  encrypt_credential, decrypt_credential,
}
use ops_composer.Keys.Service.{
  purpose_of, id_text, uuid_of, reencrypt_credential, reencrypt_bytes, reencrypt, reencrypt_all,
}
use ops_composer.Keys.Secrets.{
  Secret, &>-elim, secret_of_credential, secret_of_bytes, secret_of, or_primary_primary,
}

pub of_set : {A : Type 0} (o : Option A) → is_set o ≡ true → (a : A) × (o ≡ some a)
of_set none h = cc
of_set (some a) h = (a, refl)

module _ (packages : Packages) (keyring : MasterKeyring) {key : List ℕ}
    (has_primary : key_of keyring keyring.primary_version ≡ some key) (nonce : List ℕ)
    (r : EncryptedRecord) where
  abbrev Returns : Option EncryptedRecord → Type 0
  Returns o = is_set o ≡ true

  credential-Returns :
      {s : Secret}
      → secret_of_credential packages keyring r ≡ some s
      → Returns (reencrypt_credential packages keyring nonce keyring.primary_version r)
  unfolding secret_of_credential reencrypt_credential encrypt_credential encrypt_with_aad
  credential-Returns h = &>-elim r.sub_id _ h λ revision has_revision h1.
      &>-elim (uuid_of r.record_id) _ h1 λ id has_id h2.
        &>-elim
          (decrypt_credential packages keyring id revision r.encrypted_payload
            (some r.encryption_key_version))
          _ h2 λ secret opened h3. rw (has_revision, has_id, opened, has_primary) refl

  bytes-Returns :
      {s : Secret}
      → secret_of_bytes packages keyring r ≡ some s
      → Returns (reencrypt_bytes packages keyring nonce keyring.primary_version r)
  unfolding secret_of_bytes reencrypt_bytes decrypt_bytes encrypt_bytes encrypt_with_aad
  bytes-Returns h =
      let purpose = purpose_of r.kind in
      let subject = id_text packages r.record_id in
      &>-elim
        (decrypt_bytes packages keyring purpose subject r.encrypted_payload
          r.encryption_key_version)
        _ h
        λ plaintext opened h1. &>-elim (aad packages purpose subject) _ opened λ context valid h2.
          let primary = or_primary_primary keyring in
          rw (opened, valid, primary, primary, has_primary) refl

  reencrypt-Returns :
      is_set (secret_of packages keyring r) ≡ true
      → Returns (reencrypt packages keyring nonce keyring.primary_version r)
  unfolding secret_of reencrypt
  reencrypt-Returns h = go r.kind h
    where
      go :
          (k : EncryptedRecordKind)
          → is_set (elim k as (λ _. Option Secret) [
            | EncryptedRecordKind.credential ↦ secret_of_credential packages keyring r
            | _ ↦ secret_of_bytes packages keyring r
          ])
            ≡ true
          → Returns (elim k as (λ _. Option EncryptedRecord) [
            | EncryptedRecordKind.credential ↦
                reencrypt_credential packages keyring nonce keyring.primary_version r
            | _ ↦ reencrypt_bytes packages keyring nonce keyring.primary_version r
          ])
      go EncryptedRecordKind.credential e = credential-Returns (of_set _ e).1
      go EncryptedRecordKind.mfa e = bytes-Returns (of_set _ e).1
      go EncryptedRecordKind.system e = bytes-Returns (of_set _ e).1
      go EncryptedRecordKind.run_secret e = bytes-Returns (of_set _ e).1

module _ (packages : Packages) (keyring : MasterKeyring) {key : List ℕ}
    (has_primary : key_of keyring keyring.primary_version ≡ some key)
    (nonces : EncryptedRecord → List ℕ) where
  pub reencrypt_all-some :
      (batch : List EncryptedRecord)
      → All (λ r. is_set (secret_of packages keyring r) ≡ true) batch
      → (news : List EncryptedRecord) × (reencrypt_all packages keyring nonces
            keyring.primary_version batch
          ≡ some news)
  unfolding reencrypt_all
  reencrypt_all-some [] h = ([], refl)
  reencrypt_all-some (r ∷ batch) h =
      let (new, e) = of_set _ (reencrypt-Returns packages keyring has_primary (nonces r) r h.0) in
      let (others, e') = reencrypt_all-some batch h.1 in (new ∷ others, rw (e, e') refl)
