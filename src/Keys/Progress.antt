-- ===== src/Keys/Progress.antt =====
-- A batch that is not empty leaves fewer records under other versions.
use ops_composer.Prelude.{
  ℕ, ◌≤◌, ◌<◌, Bool, true, false, some, List, [], ◌∷◌, ◌≡◌, refl, ◌⊎◌, ap, ◌∙◌, inl, inr, arith,
  ◌==◌, ==_refl, map, All, All-map, All-take, All-order_by, All-rows_where_self, All-both, take,
  rows_where, order_by, update_where, Bool-cases,
}
use ops_composer.Domain.Encryption.{EncryptedRecord}
use ops_composer.Keys.Keyring.{Packages, MasterKeyring}
use ops_composer.Keys.Service.{rotated, reencrypt, reencrypt_all}
use ops_composer.Keys.Store.{Contention, version_of, versions_in, is_left, load, update_each}
use ops_composer.Keys.Secrets.{&>-elim}
use ops_composer.Keys.Reencrypt.{reencrypt-rotated}
use ops_composer.Keys.Vault.{Writes}
use ops_composer.Keys.Remaining.{left}
use ops_composer.Keys.Rotation.{All-batch}

module _ (packages : Packages) (keyring : MasterKeyring) (nonces : EncryptedRecord → List ℕ)
    (target : ℕ) {R : Type 0} (of : R → EncryptedRecord) (is_row : EncryptedRecord → R → Bool)
    (set : EncryptedRecord → R → R) (writes : Writes of is_row set target) where
  -- The rows of the table under other versions.
  abbrev pub left_in : List R → ℕ
  left_in rows = left target (versions_in of rows)

  abbrev Renews : R → EncryptedRecord → Type 0
  Renews s new = new ≡ rotated new.encrypted_payload target (of s)

  written-version :
      (s r : R) (new : EncryptedRecord)
      → Renews s new
      → is_row new r ≡ true
      → version_of (of (set new r)) ≡ target
  written-version s r new row found =
      ap version_of (writes.written s r new row found).0 ∙ ap version_of row

  update_one_le :
      (s : R) (new : EncryptedRecord) (rows : List R)
      → Renews s new
      → left_in (update_where (is_row new) (set new) rows) ≤ left_in rows
  unfolding left rows_where update_where
  update_one_le s new [] row = omega arith
  update_one_le s new (r ∷ rows) row = elim (Bool-cases (is_row new r)) [
    | inl found ↦
        rw (found, written-version s r new row found, ==_refl target)
          (ground (arith, update_one_le s new rows row))
    | inr other ↦ rw other (ground (arith, update_one_le s new rows row))
  ]

  -- The UPDATE of a row under another version.
  abbrev Falls : List R → R → Type 0
  Falls rows s =
      (version_of (of s) == target) ≡ false
      → (new : EncryptedRecord) → Renews s new
      → left_in (update_where (is_row new) (set new) rows) < left_in rows

  update_one_lt : (rows : List R) → All (Falls rows) rows
  unfolding left rows_where update_where
  update_one_lt [] = tt
  update_one_lt (r ∷ rows) = (
    λ old new row.
        let found = writes.finds r new row in
        rw (found, written-version r r new row found, ==_refl target, old)
          (ground (arith, update_one_le r new rows row)),
    All-map (Falls rows) (Falls (r ∷ rows)) rows
        (λ s falls old new row. elim (Bool-cases (is_row new r)) [
          | inl found ↦
              rw (found, written-version s r new row found, ==_refl target)
                (ground (arith, falls old new row))
          | inr other ↦ rw other (ground (arith, falls old new row))
        ])
        (update_one_lt rows),
  )

  update_each_le :
      (batch : List R) (news : List EncryptedRecord) (rows : List R)
      → reencrypt_all packages keyring nonces target (map of batch) ≡ some news
      → left_in (update_each is_row set news rows) ≤ left_in rows
  unfolding reencrypt_all update_each
  update_each_le [] news rows h = let none_left : [] ≡ news = cc in rw (← none_left) (omega arith)
  update_each_le (s ∷ batch) news rows h =
      &>-elim (reencrypt packages keyring (nonces (of s)) target (of s)) _ h λ new e h1.
        &>-elim (reencrypt_all packages keyring nonces target (map of batch)) _ h1 λ others e' h2.
          let whole : new ∷ others ≡ news = cc in
          let row = reencrypt-rotated packages keyring (nonces (of s)) target (of s) new e in
          let mid = update_where (is_row new) (set new) rows in
          rw (← whole)
            (omega (arith, update_one_le s new rows row, update_each_le batch others mid e'))

  update_each_lt :
      (batch : List R) (news : List EncryptedRecord) (rows : List R)
      → All (λ s. Falls rows s × ((version_of (of s) == target) ≡ false)) batch
      → reencrypt_all packages keyring nonces target (map of batch) ≡ some news
      → (batch ≡ []) ⊎ (left_in (update_each is_row set news rows) < left_in rows)
  unfolding reencrypt_all update_each
  update_each_lt [] news rows falls h = inl refl
  update_each_lt (s ∷ batch) news rows falls h = inr (
      &>-elim (reencrypt packages keyring (nonces (of s)) target (of s)) _ h λ new e h1.
        &>-elim (reencrypt_all packages keyring nonces target (map of batch)) _ h1 λ others e' h2.
          let whole : new ∷ others ≡ news = cc in
          let row = reencrypt-rotated packages keyring (nonces (of s)) target (of s) new e in
          let mid = update_where (is_row new) (set new) rows in
          rw (← whole)
            (omega (arith, falls.0.0 falls.0.1 new row, update_each_le batch others mid e')))

  pub load_lt :
      (contention : Contention) (limit : ℕ) (before : R → R → Bool) (rows : List R)
      (news : List EncryptedRecord)
      → reencrypt_all packages keyring nonces target (load contention target limit of before rows)
        ≡ some news
      → (load contention target limit of before rows ≡ [])
        ⊎ (left_in (update_each is_row set news rows) < left_in rows)
  unfolding load
  load_lt contention limit before rows news h =
      elim (update_each_lt batch news rows (All-both (Falls rows) Old batch falls old) h) [
        | inl empty ↦ inl (ap (map of) empty)
        | inr lt ↦ inr lt
      ]
    where
      selected : List R
      selected = rows_where (is_left contention target of) rows

      batch : List R
      batch = take limit (order_by before selected)

      Old : R → Type 0
      Old s = (version_of (of s) == target) ≡ false

      falls : All (Falls rows) batch
      falls = All-batch (Falls rows) contention target limit of before rows (update_one_lt rows)

      old : All Old batch
      old = All-take Old limit _ (
          All-order_by Old before selected (
            All-map (λ s. is_left contention target of s ≡ true) Old selected
              (λ s e. ground (arith, e)) (All-rows_where_self (is_left contention target of) rows)))
