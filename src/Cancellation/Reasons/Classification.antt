-- ===== src/Cancellation/Reasons/Classification.antt =====
-- Which messages the classifier of app/orchestration/cancellation.py calls recoverable.
use dataforge_ai_ml_service.Prelude.{Bool, not, ◌&&◌, ◌||◌, Option, some, ◌≡◌, arith}
use dataforge_ai_ml_service.Prelude.Texts.{Text, codes, has}
use dataforge_ai_ml_service.Cancellation.Reasons.{
  RunFailureReason, is_recoverable, classify_lowered, classify_failure, or_internal,
}

-- The message names a cause that passes by itself.
abbrev pub names_transient_cause : Text → Bool
names_transient_cause m =
    has m (codes "timeout") && (has m (codes "platform") || has m (codes "external"))
    || has m (codes "transient")
    || has m (codes "storage") && has m (codes "error")
    || has m (codes "worker") && has m (codes "restart")

-- The message names a cause that a retry meets again.
abbrev pub names_lasting_cause : Text → Bool
names_lasting_cause m =
    has m (codes "approval") && has m (codes "hash")
    || has m (codes "policy") && (has m (codes "blocked") || has m (codes "gate"))
    || has m (codes "contract") && has m (codes "fail")
    || has m (codes "invalid")
    || has m (codes "validation")

-- The verdict on a message, whatever `str.lower` does: recoverable exactly when the lowered message
-- names a transient cause, or names no cause at all and the fallback is recoverable.
classify_failure-is_recoverable :
    (lower : Text → Text) (m : Text) (fallback : Option RunFailureReason)
    → is_recoverable (classify_failure lower (some m) fallback) ≡ (
        names_transient_cause (lower m)
        || not (names_lasting_cause (lower m)) && is_recoverable (or_internal fallback))
unfolding classify_failure classify_lowered is_recoverable
classify_failure-is_recoverable lower m fallback = ground arith
