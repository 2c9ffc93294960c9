-- ===== src/Keys/Secrets.antt =====
-- What the encrypted records say, and that services/encryption.py says the same again under another
-- key.
use ops_composer.Prelude.{
  ℕ, ◌+◌, ◌≤◌, String, Bool, true, false, Option, none, some, List, ◌++◌, ◌≡◌, refl, arith, ltb,
  length, length-append, take-append, drop-append, length-take, length-take-drop,
}
use ops_composer.Domain.Encryption.{EncryptedRecordKind, EncryptedRecord}
use ops_composer.Keys.Keyring.{
  Packages, MasterKeyring, ◌&>◌, unless, key_of, or_primary, aad, encrypt_with_aad,
  decrypt_with_aad, encrypt_bytes, decrypt_bytes, encrypt_credential, decrypt_credential,
}
use ops_composer.Keys.Service.{
  purpose_of, id_text, uuid_of, rotated, reencrypt_credential, reencrypt_bytes,
}

-- AES-GCM adds a tag of 16 bytes and decrypts what it encrypted; a JSON object that was read comes back
-- from its text, which has a byte at least.
pub record IsLawful (packages : Packages) : Type 0 where
  pub decrypts :
      (key nonce plaintext aad : List ℕ)
      → packages.aead_decrypt key nonce (packages.aead_encrypt key nonce plaintext aad) aad
        ≡ some plaintext
  pub length-encrypted :
      (key nonce plaintext aad : List ℕ)
      → length (packages.aead_encrypt key nonce plaintext aad) ≡ length plaintext + 16
  pub length-decrypted :
      (key nonce ciphertext aad plaintext : List ℕ)
      → packages.aead_decrypt key nonce ciphertext aad ≡ some plaintext
      → length ciphertext ≡ length plaintext + 16
  pub loads-dumps :
      (text : List ℕ) (secret : List (String × String))
      → packages.loads text ≡ some secret
      → packages.loads (packages.dumps secret) ≡ some secret
  pub length-dumps : (secret : List (String × String)) → 1 ≤ length (packages.dumps secret)

-- What a record says: a credential's fields, or bytes.
pub data Secret : Type 0 where
  fields : List (String × String) → Secret
  bytes : List ℕ → Secret

-- Inversions of the chains of optional values.
pub &>-elim :
    {A B C : Type 0} (o : Option A) (f : A → Option B) {b : B}
    → (o &> f) ≡ some b
    → ((a : A) → o ≡ some a → f a ≡ some b → C)
    → C
&>-elim none f h k = cc
&>-elim (some a) f h k = k a refl h

pub unless-some :
    {A : Type 0} (b : Bool) (o : Option A) {a : A}
    → unless b o ≡ some a
    → (b ≡ false) × (o ≡ some a)
unless-some true o h = cc
unless-some false o h = (refl, h)

module _ (packages : Packages) (keyring : MasterKeyring) (lawful : IsLawful packages) where
  -- Whatever decrypts has a plaintext of a byte at least.
  decrypted_nonempty :
      (envelope context plaintext : List ℕ) (version : ℕ)
      → decrypt_with_aad packages keyring envelope context version ≡ some plaintext
      → 1 ≤ length plaintext
  unfolding decrypt_with_aad
  decrypted_nonempty envelope context plaintext version h =
      let (long, opened) = unless-some (ltb (length envelope) 29) _ h in
      &>-elim (key_of keyring version) _ opened λ key _ e.
        let tagged = lawful.length-decrypted key _ _ context plaintext e in
        ground (arith, long, tagged, length-take-drop 12 envelope, length-take 12 envelope)

  module _ (nonce : List ℕ) (drawn : length nonce ≡ 12) where
    decrypt-encrypt_with_aad :
        (plaintext context : List ℕ) (key_version : Option ℕ) {sealed : List ℕ × ℕ}
        → 1 ≤ length plaintext
        → encrypt_with_aad packages keyring nonce plaintext context key_version ≡ some sealed
        → decrypt_with_aad packages keyring sealed.0 context (or_primary keyring key_version)
          ≡ some plaintext
    unfolding encrypt_with_aad decrypt_with_aad
    decrypt-encrypt_with_aad plaintext context key_version {sealed} some_byte h =
        &>-elim (key_of keyring (or_primary keyring key_version)) _ h λ key found e.
          let made = packages.aead_encrypt key nonce plaintext context in
          let whole : nonce ++ made ≡ sealed.0 = cc in
          let long : ltb (length (nonce ++ made)) 29 ≡ false = ground (
            arith,
            drawn,
            length-append nonce made,
            lawful.length-encrypted key nonce plaintext context,
          ) in
          rw
            (← whole, long, found, take-append 12 nonce made drawn, drop-append 12 nonce made drawn)
            (lawful.decrypts key nonce plaintext context)

module _ (packages : Packages) (keyring : MasterKeyring) where
  unfoldable pub secret_of_credential : EncryptedRecord → Option Secret
  unfolding decrypt_credential
  secret_of_credential r = r.sub_id &> λ revision. uuid_of r.record_id &> λ credential_id.
      decrypt_credential packages keyring credential_id revision r.encrypted_payload
        (some r.encryption_key_version)
      &> λ secret. some (fields secret)

  unfoldable pub secret_of_bytes : EncryptedRecord → Option Secret
  unfolding decrypt_bytes
  secret_of_bytes r =
      decrypt_bytes packages keyring (purpose_of r.kind) (id_text packages r.record_id)
        r.encrypted_payload r.encryption_key_version
      &> λ plaintext. some (bytes plaintext)

  unfoldable pub secret_of : EncryptedRecord → Option Secret
  unfolding secret_of_credential secret_of_bytes
  secret_of r = elim r.kind [
    | EncryptedRecordKind.credential ↦ secret_of_credential r
    | _ ↦ secret_of_bytes r
  ]

pub or_primary_primary :
    (keyring : MasterKeyring)
    → or_primary keyring (some keyring.primary_version) ≡ keyring.primary_version
or_primary_primary keyring = ground arith

module _ (packages : Packages) (keyring : MasterKeyring) (lawful : IsLawful packages)
    (nonce : List ℕ) (drawn : length nonce ≡ 12) (r new : EncryptedRecord) where
  -- The same fields from the new envelope of a credential.
  resealed_credential :
      (revision id : ℕ) (secret : List (String × String)) (envelope : List ℕ)
      → packages.loads (packages.dumps secret) ≡ some secret
      → encrypt_credential packages keyring nonce id revision secret ≡ some envelope
      → decrypt_credential packages keyring id revision envelope (some keyring.primary_version)
        ≡ some secret
  unfolding decrypt_credential encrypt_credential
  resealed_credential revision id secret envelope back_again h =
      &>-elim
        (encrypt_with_aad packages keyring nonce (packages.dumps secret)
          (packages.credential_context id revision) none)
        _ h
        λ sealed encrypted e.
          let same : sealed.0 ≡ envelope = cc in
          let back =
            decrypt-encrypt_with_aad packages keyring lawful nonce drawn (packages.dumps secret)
              (packages.credential_context id revision) none (lawful.length-dumps secret)
              encrypted in
          rw (← same, or_primary_primary keyring, back) back_again

  -- What decrypts was read, and is read again.
  reread_credential :
      (revision id : ℕ) (secret : List (String × String))
      → decrypt_credential packages keyring id revision r.encrypted_payload
          (some r.encryption_key_version)
        ≡ some secret
      → packages.loads (packages.dumps secret) ≡ some secret
  unfolding decrypt_credential
  reread_credential revision id secret h =
      &>-elim
        (decrypt_with_aad packages keyring r.encrypted_payload
          (packages.credential_context id revision)
          (or_primary keyring (some r.encryption_key_version)))
        _ h λ text _ read. lawful.loads-dumps text secret read

  pub reencrypted_credential :
      reencrypt_credential packages keyring nonce keyring.primary_version r ≡ some new
      → secret_of_credential packages keyring new ≡ secret_of_credential packages keyring r
  unfolding reencrypt_credential secret_of_credential
  reencrypted_credential h = &>-elim r.sub_id _ h λ revision has_revision h1.
      &>-elim (uuid_of r.record_id) _ h1 λ id has_id h2.
        &>-elim
          (decrypt_credential packages keyring id revision r.encrypted_payload
            (some r.encryption_key_version))
          _ h2
          λ secret opened h3.
            &>-elim (encrypt_credential packages keyring nonce id revision secret) _ h3
              λ envelope sealed h4.
                let row : rotated envelope keyring.primary_version r ≡ new = cc in
                let back_again = reread_credential revision id secret opened in
                rw
                  (
                    ← row,
                    has_revision,
                    has_id,
                    opened,
                    resealed_credential revision id secret envelope back_again sealed,
                  )
                  refl

  -- The same bytes from the new envelope of any other record.
  pub resealed_bytes :
      (purpose subject : String) (plaintext : List ℕ) (sealed : List ℕ × ℕ)
      → 1 ≤ length plaintext
      → encrypt_bytes packages keyring nonce purpose subject plaintext
          (some keyring.primary_version)
        ≡ some sealed
      → decrypt_bytes packages keyring purpose subject sealed.0 keyring.primary_version
        ≡ some plaintext
  unfolding decrypt_bytes encrypt_bytes
  resealed_bytes purpose subject plaintext sealed long h =
      &>-elim (aad packages purpose subject) _ h λ context valid encrypted.
        let version = or_primary_primary keyring in
        let same : or_primary keyring (some (or_primary keyring (some keyring.primary_version)))
            ≡ keyring.primary_version =
          rw (version, version) refl in
        let back =
          decrypt-encrypt_with_aad packages keyring lawful nonce drawn plaintext context
            (some (or_primary keyring (some keyring.primary_version))) long encrypted in
        rw valid (rw same at back)

  bytes_nonempty :
      (purpose subject : String) (plaintext : List ℕ)
      → decrypt_bytes packages keyring purpose subject r.encrypted_payload r.encryption_key_version
        ≡ some plaintext
      → 1 ≤ length plaintext
  unfolding decrypt_bytes
  bytes_nonempty purpose subject plaintext h =
      &>-elim (aad packages purpose subject) _ h λ context valid opened.
        decrypted_nonempty packages keyring lawful r.encrypted_payload context plaintext
          r.encryption_key_version opened

  pub reencrypted_bytes :
      reencrypt_bytes packages keyring nonce keyring.primary_version r ≡ some new
      → secret_of_bytes packages keyring new ≡ secret_of_bytes packages keyring r
  unfolding reencrypt_bytes secret_of_bytes
  reencrypted_bytes h =
      let purpose = purpose_of r.kind in
      let subject = id_text packages r.record_id in
      &>-elim
        (decrypt_bytes packages keyring purpose subject r.encrypted_payload
          r.encryption_key_version)
        _ h
        λ plaintext opened h1.
          &>-elim
            (encrypt_bytes packages keyring nonce purpose subject plaintext
              (some keyring.primary_version))
            _ h1
            λ sealed encrypted h2.
              let row : rotated sealed.0 keyring.primary_version r ≡ new = cc in
              let long = bytes_nonempty purpose subject plaintext opened in
              rw (← row, opened, resealed_bytes purpose subject plaintext sealed long encrypted)
                refl
