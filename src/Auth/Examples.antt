-- ===== src/Auth/Examples.antt =====
-- The theorems on one-time codes at a concrete factor.
use ops_composer.Prelude.{
  ℕ, ◌<◌, String, ◌≡◌, refl, Bool, true, some, List, [], ◌∷◌, ◌==◌, if◌then◌else◌,
}
use ops_composer.Domain.Auth.{MfaFactor}
use ops_composer.Auth.Totp.{
  here, next, get_mfa_factor, accept_totp_step, match_totp_step, accept-match_later,
}

abbrev factor : MfaFactor
factor = record {
  user_id = 1;
  encrypted_totp_secret = [];
  encryption_key_version = 1;
  last_accepted_step = some 8;
  confirmed_at = some 5;
  created_at = 1;
  updated_at = 5;
}

abbrev accepted_factor : MfaFactor
accepted_factor = record factor { last_accepted_step = some 10; updated_at = 301 }

-- Step 11 has another code than the other steps.
abbrev code_of : ℕ → String
code_of step = if step == 11 then "111111" else "000000"

abbrev six : String → Bool
six code = true

matches_next : match_totp_step code_of six "111111" 310 (some 10) ≡ some 11
unfolding match_totp_step
matches_next = refl

has_factor : get_mfa_factor 1 (factor ∷ []) ≡ some factor
unfolding get_mfa_factor
has_factor = refl

-- The acceptance of step 10, and one of step 9, which does nothing.
abbrev accepted : List MfaFactor
accepted = (accept_totp_step 1 9 305 (accept_totp_step 1 10 301 (factor ∷ [])).1).1

has_after : get_mfa_factor 1 accepted ≡ some accepted_factor
unfolding get_mfa_factor accept_totp_step
has_after = refl

accept-match_later_example : 10 < 11
accept-match_later_example =
    accept-match_later code_of six "111111" 1 10 301 310 11 (factor ∷ []) accepted factor
      accepted_factor has_factor refl (next 1 9 305 here) has_after matches_next
