-- ===== src/Worker/Examples.antt =====
-- The theorems on the outcome of a run at two targets.
use ops_composer.Prelude.{ℕ, ◌≤◌, ℤ, String, ◌≡◌, ◌↔◌, true, false, some, List, [], ◌∷◌, All, arith}
use ops_composer.Samples.{target_on}
use ops_composer.Domain.Ops.{RunStatus, RunTargetStatus}
use ops_composer.Queue.Coordinator.{Utf8}
use ops_composer.Worker.{TargetAccumulator, is_success, is_clean, has_timed_out, resolve}
use ops_composer.Worker.Outcome.{add_all, add_all_bounded, resolve_succeeded}

abbrev watched : ℕ → RunTargetStatus → TargetAccumulator
watched host_id status = record {
  target = target_on host_id host_id status;
  chunks = [];
  size = 0;
  truncated = false;
  status = status;
  changed = 0;
  failed = 0;
  unreachable = 0;
}

abbrev both : List TargetAccumulator
both = watched 2 RunTargetStatus.running ∷ watched 3 RunTargetStatus.skipped ∷ []

-- A codec that takes every text for three bytes.
abbrev three_bytes : Utf8
three_bytes = record {
  encode = λ (s : String). 97 ∷ 98 ∷ 99 ∷ [];
  decode_replace = λ (bs : List ℕ). "ab";
}

add_all_bounded_example :
    (add_all three_bytes 5 (watched 2 RunTargetStatus.running) ("abc" ∷ "abc" ∷ "abc" ∷ [])).size
    ≤ 5
add_all_bounded_example =
    add_all_bounded three_bytes 5 (watched 2 RunTargetStatus.running) ("abc" ∷ "abc" ∷ "abc" ∷ [])
      (omega arith)

resolve_succeeded_example :
    ((resolve (λ s. s) (λ a. false) false "successful" (some (ℤ.pos 0)) both).1
      ≡ RunStatus.succeeded)
    ↔ ((false ≡ false)
        × (has_timed_out (λ s. s) "successful" ≡ false)
        × (is_clean (some (ℤ.pos 0)) ≡ true)
        × All
            (λ (a : TargetAccumulator). is_success a.status ≡ true)
            (resolve (λ s. s) (λ a. false) false "successful" (some (ℤ.pos 0)) both).0)
resolve_succeeded_example =
    resolve_succeeded (λ s. s) (λ a. false) false "successful" (some (ℤ.pos 0)) both
