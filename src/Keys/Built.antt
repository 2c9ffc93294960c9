-- ===== src/Keys/Built.antt =====
-- About `MasterKeyring.__init__` of backend/src/ops_composer/services/crypto.py.
use ops_composer.Prelude.{
  ℕ, ◌≤◌, not, some, List, [], ◌∷◌, ◌≡◌, refl, arith, ◌==◌, length, All, All-first_where,
  exists_where, first_where_of_exists,
}
use ops_composer.Keys.Keyring.{
  Packages, MasterKeyring, KeyValue, raw, encoded, of_32, decode_key, decode_keys, master_keyring,
  is_version, key_of,
}
use ops_composer.Keys.Secrets.{&>-elim, unless-some}

-- A version is positive, and its key has 32 bytes.
abbrev IsKey : ℕ × List ℕ → Type 0
IsKey entry = (1 ≤ entry.0) × (length entry.1 ≡ 32)

of_32-length : (key : List ℕ) {k : List ℕ} → of_32 key ≡ some k → length k ≡ 32
of_32-length key {k} h =
    let (right, made) = unless-some (not (length key == 32)) (some key) h in
    let same : key ≡ k = cc in rw (← same) (ground (arith, right))

decode_key-length :
    (packages : Packages) (value : KeyValue) {k : List ℕ}
    → decode_key packages value ≡ some k
    → length k ≡ 32
unfolding decode_key
decode_key-length packages (raw key) h = of_32-length key h
decode_key-length packages (encoded value) h =
    &>-elim (packages.b64decode value) of_32 h λ key _ made. of_32-length key made

decode_keys-All :
    (packages : Packages) (items : List (ℕ × KeyValue)) {decoded : List (ℕ × List ℕ)}
    → decode_keys packages items ≡ some decoded
    → All IsKey decoded
unfolding decode_keys
decode_keys-All packages [] {decoded} h = let same : [] ≡ decoded = cc in rw (← same) tt
decode_keys-All packages (item ∷ items) {decoded} h =
    let (positive, h1) = unless-some (item.0 == 0) _ h in
    &>-elim (decode_key packages item.1) _ h1 λ key made h2.
      &>-elim (decode_keys packages items) _ h2 λ others rest h3.
        let whole : (item.0, key) ∷ others ≡ decoded = cc in
        rw (← whole) (
          (ground (arith, positive), decode_key-length packages item.1 made),
          decode_keys-All packages items rest,
        )

-- What a keyring is after its constructor: positive versions with keys of 32 bytes, and a key of the
-- primary version among them.
pub record IsBuilt (keyring : MasterKeyring) : Type 0 where
  pub keys : All IsKey keyring.keys
  pub primary : 1 ≤ keyring.primary_version
  pub primary_key :
      (key : List ℕ) × (key_of keyring keyring.primary_version ≡ some key) × (length key ≡ 32)

-- A keyring that the constructor returns has positive versions with keys of 32 bytes only, and a key
-- of its primary version, whatever the configured keys were.
pub master_keyring-IsBuilt :
    (packages : Packages) (items : List (ℕ × KeyValue)) (primary_version : ℕ)
    {keyring : MasterKeyring}
    → master_keyring packages items primary_version ≡ some keyring
    → IsBuilt keyring
unfolding master_keyring key_of
master_keyring-IsBuilt packages items primary_version {keyring} h =
    let (positive, h1) = unless-some (primary_version == 0) _ h in
    &>-elim (decode_keys packages items) _ h1 λ decoded made h2.
      let (there, h3) =
        unless-some (not (exists_where (is_version primary_version) decoded)) _ h2 in
      let whole : record { keys = decoded; primary_version = primary_version } ≡ keyring = cc in
      let all = decode_keys-All packages items made in
      let (row, found) =
        first_where_of_exists (is_version primary_version) decoded (ground (arith, there)) in
      rw (← whole) (record {
        keys = all;
        primary = ground (arith, positive);
        primary_key = (
          row.1,
          rw found refl,
          (All-first_where IsKey (is_version primary_version) decoded found all).1,
        );
      })
