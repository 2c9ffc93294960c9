-- ===== src/Keys/Tables.antt =====
-- The four tables under the UPDATEs of repositories/encryption.py.
use ops_composer.Prelude.{
  ℕ, true, Option, none, some, ◌≡◌, refl, ap, ==_iff, ==_refl, &&_left, &&_right, text_refl, eq_iff,
  holds_id,
}
use ops_composer.Domain.Encryption.{RecordId, uuid, named}
use ops_composer.Keys.Store.{
  of_credential, of_mfa, of_system, of_run_secret, is_id, is_credential, is_mfa, is_system,
  is_run_secret, set_credential, set_mfa, set_system, set_run_secret,
}
use ops_composer.Keys.Vault.{Writes}

is_id-eq : (a b : RecordId) → is_id a b ≡ true → a ≡ b
is_id-eq (uuid n) (uuid m) h = ap uuid ((==_iff n m).0 h)
is_id-eq (uuid n) (named s) h = cc
is_id-eq (named s) (uuid n) h = cc
is_id-eq (named s) (named t) h = ap named ((eq_iff s t).0 h)

is_id_refl : (a : RecordId) → is_id a a ≡ true
is_id_refl (uuid n) = ==_refl n
is_id_refl (named s) = text_refl s

holds_id-eq : (o : Option ℕ) (n : ℕ) → holds_id o n ≡ true → o ≡ some n
holds_id-eq none n h = cc
holds_id-eq (some m) n h = ap (λ x. some x) ((==_iff m n).0 h)

module _ (target now : ℕ) where
  pub Writes-set_credential : Writes of_credential is_credential (set_credential target now) target
  Writes-set_credential = record {
    written = λ s r new row found.
        let id = is_id-eq new.record_id (uuid r.credential_id) (
          &&_left (is_id new.record_id (uuid r.credential_id)) (holds_id new.sub_id r.revision)
            found) in
        let sub = holds_id-eq new.sub_id r.revision (
          &&_right (is_id new.record_id (uuid r.credential_id)) (holds_id new.sub_id r.revision)
            found) in
        (cc (row, id, sub), cc (row, id), cc (row, sub));
    finds = λ s new row. rw row (rw (==_refl s.credential_id) (==_refl s.revision));
  }

  pub Writes-set_mfa : Writes of_mfa is_mfa (set_mfa target now) target
  Writes-set_mfa = record {
    written = λ s r new row found.
        let id = is_id-eq new.record_id (uuid r.user_id) found in
        (cc (row, id), cc (row, id), refl);
    finds = λ s new row. rw row (==_refl s.user_id);
  }

  pub Writes-set_system : Writes of_system is_system (set_system target now) target
  Writes-set_system = record {
    written = λ s r new row found.
        let id = is_id-eq new.record_id (named r.secret_name) found in
        (cc (row, id), cc (row, id), refl);
    finds = λ s new row. rw row (text_refl s.secret_name);
  }

  pub Writes-set_run_secret : Writes of_run_secret is_run_secret (set_run_secret target) target
  Writes-set_run_secret = record {
    written = λ s r new row found.
        let id = is_id-eq new.record_id (uuid r.run_id) found in (cc (row, id), cc (row, id), refl);
    finds = λ s new row. rw row (==_refl s.run_id);
  }
