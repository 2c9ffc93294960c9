-- ===== src/Auth/Totp.antt =====
-- backend/src/ops_composer/auth/security.py and auth/repository.py: one-time codes by time. The HMAC of
-- a step (`totp_code` for the user's secret) and the test of six ASCII digits are arguments.
use mathlib.Core.Option
use ops_composer.Prelude.{
  ℕ, zero, suc, ◌/◌, ◌<◌, ◌≤◌, String, ◌≡◌, refl, ap, ◌∙◌, first_where-update_where, Bool, true,
  false, not, Option, none, some, List, [], ◌∷◌, ◌&&◌, inl, inr, arith, text_eq, ◌==◌, exists_where,
  update_where, first_where, leb, if◌then◌else◌, Bool-cases, is_set,
}
use ops_composer.Domain.Auth.{MfaFactor}

-- `last_accepted_step is not None and step <= last_accepted_step`
abbrev pub is_spent : Option ℕ → ℕ → Bool
is_spent none step = false
is_spent (some last) step = leb step last

-- The loop over the steps.
unfoldable pub first_match : (ℕ → String) → String → Option ℕ → List ℕ → Option ℕ
first_match totp_code code last [] = none
first_match totp_code code last (step ∷ steps) =
    let rest = first_match totp_code code last steps in
    if is_spent last step then rest else (if text_eq (totp_code step) code then some step else rest)

-- (current, current - 1, current + 1), less a step below zero, which the loop passes over.
abbrev pub steps_around : ℕ → List ℕ
steps_around zero = 0 ∷ 1 ∷ []
steps_around (suc n) = suc n ∷ n ∷ suc (suc n) ∷ []

-- `now` is in seconds.
unfoldable pub match_totp_step : (ℕ → String) → (String → Bool) → String → ℕ → Option ℕ → Option ℕ
unfolding first_match
match_totp_step totp_code is_six_digits code now last =
    if is_six_digits code then first_match totp_code code last (steps_around (now / 30)) else none

-- WHERE user_id = … AND confirmed_at IS NOT NULL AND (last_accepted_step IS NULL OR …)
abbrev pub can_accept : ℕ → ℕ → MfaFactor → Bool
can_accept user_id step f =
    f.user_id == user_id
    && is_set f.confirmed_at
    && not (elim f.last_accepted_step [ none ↦ false | some last ↦ leb step last ])

abbrev pub set_accepted : ℕ → ℕ → MfaFactor → MfaFactor
set_accepted step updated_at f = record f {
  last_accepted_step = some step;
  updated_at = updated_at;
}

-- Whether the UPDATE returned a row, and the table.
unfoldable pub accept_totp_step : ℕ → ℕ → ℕ → List MfaFactor → Bool × List MfaFactor
unfolding exists_where update_where
accept_totp_step user_id step updated_at fs = (
  exists_where (can_accept user_id step) fs,
  update_where (can_accept user_id step) (set_accepted step updated_at) fs,
)

unfoldable pub get_mfa_factor : ℕ → List MfaFactor → Option MfaFactor
unfolding first_where
get_mfa_factor user_id = first_where (λ f. f.user_id == user_id)

first_match_fresh :
    (totp_code : ℕ → String) (code : String) (last step : ℕ) (steps : List ℕ)
    → first_match totp_code code (some last) steps ≡ some step
    → last < step
unfolding first_match
first_match_fresh totp_code code last step [] h = cc
first_match_fresh totp_code code last step (s ∷ steps) h = elim (Bool-cases (leb s last)) [
  | inl spent ↦ first_match_fresh totp_code code last step steps (rw spent at h)
  | inr fresh ↦ elim (Bool-cases (text_eq (totp_code s) code)) [
    | inl hit ↦ ground (arith, fresh, rw (fresh, hit) at h)
    | inr other ↦ first_match_fresh totp_code code last step steps (rw (fresh, other) at h)
  ]
]

-- A code that matches is the code of a later step than the last that was accepted.
match_totp_step_fresh :
    (totp_code : ℕ → String) (is_six_digits : String → Bool) (code : String) (now last step : ℕ)
    → match_totp_step totp_code is_six_digits code now (some last) ≡ some step
    → last < step
unfolding match_totp_step
match_totp_step_fresh totp_code is_six_digits code now last step h =
    elim (Bool-cases (is_six_digits code)) [
      | inl digits ↦
          first_match_fresh totp_code code last step (steps_around (now / 30)) (rw digits at h)
      | inr other ↦ absurd (ground (arith, rw other at h))
    ]

-- Acceptances of codes, one after the other: of any user, at any step and time.
pub data Accepts (fs : List MfaFactor) : List MfaFactor → Type 0 where
  here : Accepts fs fs
  next :
      {gs : List MfaFactor} (user_id step updated_at : ℕ)
      → Accepts fs gs
      → Accepts fs (accept_totp_step user_id step updated_at gs).1

-- The user's factor, with a step of at least the given one as the last that was accepted.
abbrev IsSpent : ℕ → ℕ → List MfaFactor → Type 0
IsSpent user_id accepted fs =
    (f : MfaFactor) × (get_mfa_factor user_id fs ≡ some f)
    × (last : ℕ) × (f.last_accepted_step ≡ some last)
    × (accepted ≤ last)

-- The UPDATE only takes a step that is later than the last.
accept-later :
    (other step accepted last : ℕ) (f : MfaFactor)
    → f.last_accepted_step ≡ some last
    → accepted ≤ last
    → can_accept other step f ≡ true
    → accepted ≤ step
accept-later other step accepted last f e below h =
    let fits : not (elim f.last_accepted_step [ none ↦ false | some last ↦ leb step last ]) ≡ true =
      ground (arith, h) in
    let past : not (leb step last) ≡ true = rw e at fits in ground (arith, past)

accept-IsSpent :
    (user_id accepted other step updated_at : ℕ) (fs : List MfaFactor)
    → IsSpent user_id accepted fs
    → IsSpent user_id accepted (accept_totp_step other step updated_at fs).1
unfolding get_mfa_factor accept_totp_step
accept-IsSpent user_id accepted other step updated_at fs (f, found, last, e, below) =
    let seen =
      first_where-update_where (λ x. x.user_id == user_id) (can_accept other step)
        (set_accepted step updated_at) (λ x. refl) fs
      ∙ ap (Option.map _) found in
    elim (Bool-cases (can_accept other step f)) [
      | inl t ↦ (
        set_accepted step updated_at f,
        seen ∙ rw t refl,
        step,
        refl,
        accept-later other step accepted last f e below t,
      )
      | inr t ↦ (f, seen ∙ rw t refl, last, e, below)
    ]

Accepts-IsSpent :
    (user_id accepted : ℕ) {fs gs : List MfaFactor}
    → Accepts fs gs
    → IsSpent user_id accepted fs
    → IsSpent user_id accepted gs
Accepts-IsSpent user_id accepted here h = h
Accepts-IsSpent user_id accepted (next {gs} other step updated_at before) h =
    accept-IsSpent user_id accepted other step updated_at gs
      (Accepts-IsSpent user_id accepted before h)

accepted-IsSpent :
    (user_id accepted updated_at : ℕ) (fs : List MfaFactor) (f : MfaFactor)
    → get_mfa_factor user_id fs ≡ some f
    → can_accept user_id accepted f ≡ true
    → IsSpent user_id accepted (accept_totp_step user_id accepted updated_at fs).1
unfolding get_mfa_factor accept_totp_step
accepted-IsSpent user_id accepted updated_at fs f found fits = (
  set_accepted accepted updated_at f,
  first_where-update_where (λ x. x.user_id == user_id) (can_accept user_id accepted)
        (set_accepted accepted updated_at) (λ x. refl) fs
      ∙ ap (Option.map _) found
      ∙ rw fits refl,
  accepted,
  refl,
  omega arith,
)

-- Once a user's factor accepted a step, and whatever acceptances of any user follow: a code that matches
-- against the factor is the code of a later step. A new enrollment replaces the factor and is not
-- among the acceptances.
pub accept-match_later :
    (totp_code : ℕ → String) (is_six_digits : String → Bool) (code : String)
    (user_id accepted updated_at now step : ℕ) (fs gs : List MfaFactor) (f g : MfaFactor)
    → get_mfa_factor user_id fs ≡ some f
    → can_accept user_id accepted f ≡ true
    → Accepts (accept_totp_step user_id accepted updated_at fs).1 gs
    → get_mfa_factor user_id gs ≡ some g
    → match_totp_step totp_code is_six_digits code now g.last_accepted_step ≡ some step
    → accepted < step
accept-match_later totp_code is_six_digits code user_id accepted updated_at now step fs gs f g found
      fits between after h =
    let (g', found', last, e, below) =
      Accepts-IsSpent user_id accepted between
        (accepted-IsSpent user_id accepted updated_at fs f found fits) in
    let same : g' ≡ g = cc in
    let last_of : g.last_accepted_step ≡ some last = rw same at e in
    let later : last < step =
      match_totp_step_fresh totp_code is_six_digits code now last step (rw last_of at h) in
    omega arith
