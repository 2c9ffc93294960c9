-- ===== src/Worker/Outcome.antt =====
-- About the outcome of a run in backend/src/ops_composer/worker.py.
use ops_composer.Prelude.{
  ℕ, ◌≤◌, ℤ, String, ◌≡◌, ◌↔◌, refl, Bool, true, false, Option, List, [], ◌∷◌, inl, inr, arith,
  Bool-cases, All, map,
}
use ops_composer.Domain.Ops.{RunStatus}
use ops_composer.Queue.Coordinator.{Utf8}
use ops_composer.Worker.{
  TargetAccumulator, add_output, cut_output, is_success, is_clean, settle, tally, has_timed_out,
  final_status, resolve,
}

add_output_le :
    (utf8 : Utf8) (limit : ℕ) (a : TargetAccumulator) (output : String)
    → a.size ≤ limit
    → (add_output utf8 limit a output).size ≤ limit
unfolding add_output cut_output
add_output_le utf8 limit a output h = ground arith

-- Every output of a target, one after the other.
unfoldable pub add_all : Utf8 → ℕ → TargetAccumulator → List String → TargetAccumulator
unfolding add_output
add_all utf8 limit a [] = a
add_all utf8 limit a (output ∷ outputs) =
    add_all utf8 limit (add_output utf8 limit a output) outputs

-- However much a target writes, the bytes that are counted of it stay within the limit, if they are within
-- it before.
pub add_all_bounded :
    (utf8 : Utf8) (limit : ℕ) (a : TargetAccumulator) (outputs : List String)
    → a.size ≤ limit
    → (add_all utf8 limit a outputs).size ≤ limit
unfolding add_all
add_all_bounded utf8 limit a [] h = h
add_all_bounded utf8 limit a (output ∷ outputs) h =
    add_all_bounded utf8 limit (add_output utf8 limit a output) outputs
      (add_output_le utf8 limit a output h)

tally_iff :
    (accs : List TargetAccumulator)
    → ((tally accs).1 ≡ 0) ↔ All (λ (a : TargetAccumulator). is_success a.status ≡ true) accs
unfolding tally
tally_iff [] = (λ _. tt, λ _. refl)
tally_iff (a ∷ accs) = elim (Bool-cases (is_success a.status)) [
  | inl e ↦ rw e (λ h. (refl, (tally_iff accs).0 h), λ h. (tally_iff accs).1 h.1)
  | inr e ↦ rw e (λ h. absurd (omega (arith, h)), λ h. absurd (ground (arith, h.0)))
]

final_succeeded :
    (canceled timed_out : Bool) (counts : ℕ × ℕ) (rc : Option ℤ)
    → (final_status canceled timed_out counts rc ≡ RunStatus.succeeded)
      ↔ ((canceled ≡ false) × (timed_out ≡ false) × (is_clean rc ≡ true) × (counts.1 ≡ 0))
unfolding final_status
final_succeeded canceled timed_out counts rc = ground arith

-- A run is reported as succeeded exactly if it was not canceled and did not time out, the return code is
-- zero or missing, and every target is settled as succeeded or skipped.
pub resolve_succeeded :
    (casefold : String → String) (is_canceled : TargetAccumulator → Bool) (canceled : Bool)
    (runner_status : String) (rc : Option ℤ) (targets : List TargetAccumulator)
    → ((resolve casefold is_canceled canceled runner_status rc targets).1 ≡ RunStatus.succeeded) ↔ (
        (canceled ≡ false)
        × (has_timed_out casefold runner_status ≡ false)
        × (is_clean rc ≡ true)
        × All
            (λ (a : TargetAccumulator). is_success a.status ≡ true)
            (resolve casefold is_canceled canceled runner_status rc targets).0)
unfolding resolve
resolve_succeeded casefold is_canceled canceled runner_status rc targets =
    let settled = map (settle is_canceled rc) targets in
    let (counted, clean) =
      final_succeeded canceled (has_timed_out casefold runner_status) (tally settled) rc in
    (
      λ h. let (c, t, e, z) = counted h in (c, t, e, (tally_iff settled).0 z),
      λ h. clean (h.0, h.1, h.2, (tally_iff settled).1 h.3),
    )
