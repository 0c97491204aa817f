-- ===== src/Cancellation/Reasons.antt =====
-- The failure taxonomy, the retry envelope and the classifier of app/orchestration/cancellation.py.
pub mod Classification
use dataforge_ai_ml_service.Prelude.{
  ℕ, Bool, true, false, not, ◌&&◌, ◌||◌, Option, none, some, String, List, [], ◌∷◌, ltb,
  if◌then◌else◌, nat_eq, ◌==◌, Eq, ◌≡◌, ◌↔◌, arith, member, ◌++◌, ◌≤◌,
}
use dataforge_ai_ml_service.Prelude.Texts.{Text, codes, has}
use dataforge_ai_ml_service.Prelude.Sorting.{Order, sorted}

pub data RunFailureReason : Type 0 where
  transient_storage_error dagster_worker_restart : RunFailureReason
  platform_callback_timeout external_ai_timeout : RunFailureReason
  invalid_input contract_validation_failed policy_gate_blocked : RunFailureReason
  approval_hash_mismatch internal_error : RunFailureReason

-- `reason in _RECOVERABLE_REASONS`
unfoldable pub is_recoverable : RunFailureReason → Bool
is_recoverable transient_storage_error = true
is_recoverable dagster_worker_restart = true
is_recoverable platform_callback_timeout = true
is_recoverable external_ai_timeout = true
is_recoverable _ = false

pub record RetryMetadata : Type 0 where
  pub attempt_number : ℕ
  pub max_attempts : ℕ
  pub recoverable : Bool
  pub failure_reason : Option RunFailureReason
  pub last_error_message : Option String
  pub cancellation_reason_code : Option String

-- The bounds of the fields.
pub record IsValid (m : RetryMetadata) : Type 0 where
  pub attempt_pos : 1 ≤ m.attempt_number
  pub max_pos : 1 ≤ m.max_attempts

unfoldable pub is_terminal_failure : RetryMetadata → Bool
is_terminal_failure m = elim m.failure_reason [ none ↦ false | some _ ↦ true ]

unfoldable pub can_retry : RetryMetadata → Bool
unfolding is_terminal_failure
can_retry m = is_terminal_failure m && m.recoverable && ltb m.attempt_number m.max_attempts

-- `fallback or RunFailureReason.INTERNAL_ERROR`
abbrev pub or_internal : Option RunFailureReason → RunFailureReason
or_internal none = internal_error
or_internal (some r) = r

-- The tests on the lowered message.
unfoldable pub classify_lowered : Text → Option RunFailureReason → RunFailureReason
classify_lowered lowered fallback =
    if has lowered (codes "timeout") && has lowered (codes "platform")
    then platform_callback_timeout
    else if has lowered (codes "timeout") && has lowered (codes "external")
    then external_ai_timeout
    else if has lowered (codes "transient")
        || (has lowered (codes "storage") && has lowered (codes "error"))
    then transient_storage_error
    else if has lowered (codes "worker") && has lowered (codes "restart")
    then dagster_worker_restart
    else if has lowered (codes "approval") && has lowered (codes "hash")
    then approval_hash_mismatch
    else if has lowered (codes "policy")
        && (has lowered (codes "blocked") || has lowered (codes "gate"))
    then policy_gate_blocked
    else if has lowered (codes "contract")
        && (has lowered (codes "invalid") || has lowered (codes "fail"))
    then contract_validation_failed
    else if has lowered (codes "invalid") || has lowered (codes "validation")
    then invalid_input
    else or_internal fallback

-- `lower` is Python's `str.lower`.
unfoldable pub classify_failure :
    (Text → Text) → Option Text → Option RunFailureReason → RunFailureReason
classify_failure lower none fallback = or_internal fallback
classify_failure lower (some message) fallback = classify_lowered (lower message) fallback
