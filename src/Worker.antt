-- ===== src/Worker.antt =====
-- backend/src/ops_composer/worker.py: the output that is kept of a target, and how the statuses of the
-- targets and of the run are settled when ansible-runner has ended. The cancel event is read anew for
-- each target and for the run; `casefold` is Python's.
pub mod Outcome
mod Examples
use ops_composer.Prelude.{
  ℕ, zero, suc, ◌+◌, ◌-◌, ℤ, String, Bool, true, false, not, Option, none, some, List, [], ◌∷◌,
  ◌++◌, ◌&&◌, ◌||◌, ltb, leb, text_eq, length, take, map, if◌then◌else◌,
}
use ops_composer.Domain.Ops.{RunStatus, RunTarget, RunTargetStatus}
use ops_composer.Queue.Coordinator.{Utf8}

pub record TargetAccumulator : Type 0 where
  pub target : RunTarget
  pub chunks : List String
  pub size : ℕ
  pub truncated : Bool
  pub status : RunTargetStatus
  pub changed : ℕ
  pub failed : ℕ
  pub unreachable : ℕ

-- `max(0, limit - self.size)` is the subtraction of ℕ.
unfoldable pub cut_output : Utf8 → String → ℕ → TargetAccumulator → TargetAccumulator
cut_output utf8 output limit a =
    if ltb 0 (limit - a.size)
    then record a {
      chunks = a.chunks ++ utf8.decode_replace (take (limit - a.size) (utf8.encode output)) ∷ [];
      size = limit;
    }
    else a

unfoldable pub add_output : Utf8 → ℕ → TargetAccumulator → String → TargetAccumulator
unfolding cut_output
add_output utf8 limit a output =
    if leb (a.size + length (utf8.encode output)) limit
    then record a { chunks = a.chunks ++ output ∷ []; size = a.size + length (utf8.encode output) }
    else record (cut_output utf8 output limit a) { truncated = true }

abbrev pub is_running : RunTargetStatus → Bool
is_running RunTargetStatus.running = true
is_running _ = false

-- `rc == 0`
abbrev pub is_zero : Option ℤ → Bool
is_zero none = false
is_zero (some (ℤ.pos zero)) = true
is_zero (some (ℤ.pos (suc n))) = false
is_zero (some (ℤ.negsuc n)) = false

-- `rc in {0, None}`
abbrev pub is_clean : Option ℤ → Bool
is_clean none = true
is_clean (some n) = is_zero (some n)

-- The status that is reported of a target.
unfoldable pub settle :
    (TargetAccumulator → Bool) → Option ℤ → TargetAccumulator → TargetAccumulator
settle is_canceled rc a =
    if is_canceled a
    then record a { status = RunTargetStatus.canceled }
    else if is_running a.status
    then record a {
      status = if is_zero rc then RunTargetStatus.succeeded else RunTargetStatus.failed;
    }
    else a

abbrev pub is_success : RunTargetStatus → Bool
is_success RunTargetStatus.succeeded = true
is_success RunTargetStatus.skipped = true
is_success _ = false

-- success_count and failure_count
unfoldable pub tally : List TargetAccumulator → ℕ × ℕ
tally [] = (0, 0)
tally (a ∷ accs) =
    let rest = tally accs in
    if is_success a.status then (suc rest.0, rest.1) else (rest.0, suc rest.1)

abbrev pub has_timed_out : (String → String) → String → Bool
has_timed_out casefold runner_status =
    text_eq (casefold runner_status) "timeout" || text_eq (casefold runner_status) "timed_out"

unfoldable pub final_status : Bool → Bool → ℕ × ℕ → Option ℤ → RunStatus
final_status canceled timed_out counts rc =
    if canceled
    then RunStatus.canceled
    else if timed_out
    then RunStatus.timed_out
    else if ltb 0 counts.1 && ltb 0 counts.0
    then RunStatus.partial
    else if ltb 0 counts.1 || not (is_clean rc)
    then RunStatus.failed
    else RunStatus.succeeded

-- The end of a run: what becomes of the targets, and the run's status.
unfoldable pub resolve :
    (casefold : String → String)
    → (TargetAccumulator → Bool)
    → Bool
    → String
    → Option ℤ
    → List TargetAccumulator
    → List TargetAccumulator × RunStatus
unfolding settle tally final_status
resolve casefold is_canceled canceled runner_status rc accumulators =
    let settled = map (settle is_canceled rc) accumulators in
    (settled, final_status canceled (has_timed_out casefold runner_status) (tally settled) rc)
