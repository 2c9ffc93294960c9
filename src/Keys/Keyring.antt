-- ===== src/Keys/Keyring.antt =====
-- backend/src/ops_composer/services/crypto.py: the keyring, its envelopes, and the envelopes of
-- credentials. A ValueError is `none`. What Python and its packages do to texts and bytes, AES-GCM
-- among them, is the record `Packages`.
use ops_composer.Prelude.{
  ℕ, String, Bool, true, false, not, Option, none, some, List, [], ◌∷◌, ◌++◌, map, ◌||◌, ◌&&◌, ◌==◌,
  ltb, text_eq, if◌then◌else◌, length, take, drop, exists_where, first_where, order_by,
}

-- `aead_encrypt key nonce plaintext aad` and `aead_decrypt key nonce ciphertext aad` are AESGCM's,
-- with none for InvalidTag. `context` and `credential_context` are the bytes of the two f-strings
-- about purpose and subject, and about a credential and its revision. `dumps` and `loads` are json's
-- on an object whose values are texts, with none for any other document.
pub record Packages : Type 0 where
  pub aead_encrypt : List ℕ → List ℕ → List ℕ → List ℕ → List ℕ
  pub aead_decrypt : List ℕ → List ℕ → List ℕ → List ℕ → Option (List ℕ)
  pub b64decode : String → Option (List ℕ)
  pub has_nul : String → Bool
  pub uuid_text : ℕ → String
  pub decimal : ℕ → String
  pub context : String → String → List ℕ
  pub credential_context : ℕ → ℕ → List ℕ
  pub dumps : List (String × String) → List ℕ
  pub loads : List ℕ → Option (List (String × String))
  pub check_text : List ℕ
  pub legacy_context : List ℕ

pub record MasterKeyring : Type 0 where
  pub keys : List (ℕ × List ℕ)
  pub primary_version : ℕ

infixl 5 ◌&>◌
abbrev pub ◌&>◌ : {A B : Type 0} → Option A → (A → Option B) → Option B
o &> f = elim o [ none ↦ none | some a ↦ f a ]

-- `if test: raise ValueError`
abbrev pub unless : {A : Type 0} → Bool → Option A → Option A
unless true o = none
unless false o = o

pub data KeyValue : Type 0 where
  raw : List ℕ → KeyValue
  encoded : String → KeyValue

abbrev pub of_32 : List ℕ → Option (List ℕ)
of_32 key = unless (not (length key == 32)) (some key)

unfoldable pub decode_key : Packages → KeyValue → Option (List ℕ)
decode_key packages (raw key) = of_32 key
decode_key packages (encoded value) = packages.b64decode value &> of_32

abbrev pub is_version : ℕ → ℕ × List ℕ → Bool
is_version version entry = entry.0 == version

unfoldable pub decode_keys : Packages → List (ℕ × KeyValue) → Option (List (ℕ × List ℕ))
unfolding decode_key
decode_keys packages [] = some []
decode_keys packages (item ∷ items) = unless (item.0 == 0) (
    decode_key packages item.1 &> λ key.
    decode_keys packages items &> λ decoded. some ((item.0, key) ∷ decoded))

-- `MasterKeyring.__init__`
unfoldable pub master_keyring : Packages → List (ℕ × KeyValue) → ℕ → Option MasterKeyring
unfolding decode_keys exists_where
master_keyring packages keys primary_version = unless (primary_version == 0) (
    decode_keys packages keys &> λ decoded.
    unless (not (exists_where (is_version primary_version) decoded))
      (some (record { keys = decoded; primary_version = primary_version })))

unfoldable pub versions : MasterKeyring → List ℕ
unfolding order_by
versions keyring = order_by ltb (map (λ entry. entry.0) keyring.keys)

unfoldable pub has_version : MasterKeyring → ℕ → Bool
unfolding exists_where
has_version keyring version = exists_where (is_version version) keyring.keys

-- `self._keys.get(version)`, or the ValueError for none
unfoldable pub key_of : MasterKeyring → ℕ → Option (List ℕ)
unfolding first_where
key_of keyring version = first_where (is_version version) keyring.keys &> λ entry. some entry.1

-- `key_version or self.primary_version`
abbrev pub or_primary : MasterKeyring → Option ℕ → ℕ
or_primary keyring none = keyring.primary_version
or_primary keyring (some version) = if version == 0 then keyring.primary_version else version

unfoldable pub aad : Packages → String → String → Option (List ℕ)
aad packages purpose subject =
    unless
      (text_eq purpose ""
        || text_eq subject ""
        || packages.has_nul purpose
        || packages.has_nul subject)
      (some (packages.context purpose subject))

-- `nonce` is what `os.urandom(12)` draws.
unfoldable pub encrypt_with_aad :
    Packages → MasterKeyring → List ℕ → List ℕ → List ℕ → Option ℕ → Option (List ℕ × ℕ)
unfolding key_of
encrypt_with_aad packages keyring nonce plaintext context key_version =
    let version = or_primary keyring key_version in
    key_of keyring version &> λ key.
    some (nonce ++ packages.aead_encrypt key nonce plaintext context, version)

unfoldable pub decrypt_with_aad : Packages → MasterKeyring → List ℕ → List ℕ → ℕ → Option (List ℕ)
unfolding key_of
decrypt_with_aad packages keyring envelope context key_version = unless (ltb (length envelope) 29) (
    key_of keyring key_version &> λ key.
    packages.aead_decrypt key (take 12 envelope) (drop 12 envelope) context)

unfoldable pub encrypt_bytes :
    Packages → MasterKeyring → List ℕ → String → String → List ℕ → Option ℕ → Option (List ℕ × ℕ)
unfolding aad encrypt_with_aad
encrypt_bytes packages keyring nonce purpose subject plaintext key_version =
    aad packages purpose subject &> λ context.
    encrypt_with_aad packages keyring nonce plaintext context
      (some (or_primary keyring key_version))

unfoldable pub decrypt_bytes :
    Packages → MasterKeyring → String → String → List ℕ → ℕ → Option (List ℕ)
unfolding aad decrypt_with_aad
decrypt_bytes packages keyring purpose subject envelope key_version =
    aad packages purpose subject &> λ context.
    decrypt_with_aad packages keyring envelope context key_version

abbrev pub same_bytes : List ℕ → List ℕ → Bool
same_bytes [] [] = true
same_bytes [] (y ∷ ys) = false
same_bytes (x ∷ xs) [] = false
same_bytes (x ∷ xs) (y ∷ ys) = (x == y) && same_bytes xs ys

unfoldable pub encrypt_check : Packages → MasterKeyring → List ℕ → ℕ → Option (List ℕ)
unfolding encrypt_bytes
encrypt_check packages keyring nonce key_version =
    encrypt_bytes packages keyring nonce "key-check" (packages.decimal key_version)
      packages.check_text (some key_version)
    &> λ sealed. some sealed.0

-- A check that passes returns nothing.
abbrev pub expect_check : Packages → List ℕ → Option (Unit {0})
expect_check packages plaintext = unless (not (same_bytes plaintext packages.check_text)) (some tt)

unfoldable pub validate_check : Packages → MasterKeyring → ℕ → List ℕ → Option (Unit {0})
unfolding decrypt_bytes
validate_check packages keyring key_version envelope =
    decrypt_bytes packages keyring "key-check" (packages.decimal key_version) envelope key_version
    &> expect_check packages

unfoldable pub validate_legacy_check : Packages → MasterKeyring → ℕ → List ℕ → Option (Unit {0})
unfolding decrypt_with_aad
validate_legacy_check packages keyring key_version envelope =
    decrypt_with_aad packages keyring envelope packages.legacy_context key_version
    &> expect_check packages

-- `CredentialCipher.encrypt`, under the keyring's primary version.
unfoldable pub encrypt_credential :
    Packages → MasterKeyring → List ℕ → ℕ → ℕ → List (String × String) → Option (List ℕ)
unfolding encrypt_with_aad
encrypt_credential packages keyring nonce credential_id version secret =
    encrypt_with_aad packages keyring nonce (packages.dumps secret)
      (packages.credential_context credential_id version) none
    &> λ sealed. some sealed.0

-- `CredentialCipher.decrypt`
unfoldable pub decrypt_credential :
    Packages → MasterKeyring → ℕ → ℕ → List ℕ → Option ℕ → Option (List (String × String))
unfolding decrypt_with_aad
decrypt_credential packages keyring credential_id version envelope key_version =
    decrypt_with_aad packages keyring envelope (packages.credential_context credential_id version)
      (or_primary keyring key_version)
    &> packages.loads
