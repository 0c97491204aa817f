-- ===== src/Cancellation/Tests.antt =====
-- Runs of app/orchestration/cancellation.py, and its theorems at concrete inputs.
use dataforge_ai_ml_service.Prelude.{
  true, false, none, some, List, [], ◌∷◌, if◌then◌else◌, nat_eq, list_eq, ◌==◌, ◌≡◌, ◌≢◌, refl,
  arith, raise,
}
use dataforge_ai_ml_service.Prelude.Dict
use dataforge_ai_ml_service.Prelude.Sorting.{sorted}
use dataforge_ai_ml_service.Prelude.Texts.{Text, codes, has, ascii_lower}
use dataforge_ai_ml_service.Cancellation.Reasons.{
  classify_failure, classify_lowered, can_retry, transient_storage_error, platform_callback_timeout,
  invalid_input,
}
use dataforge_ai_ml_service.Cancellation.Registry.{
  CancellationRegistry, fresh_token, token_cancelled, raise_if_cancelled, empty_registry, register,
  cancel, discard, is_cancelled, known_job_ids,
}
use dataforge_ai_ml_service.Cancellation.Registry.Invariant.{
  IsWellFormed, empty_registry-IsWellFormed,
}
use dataforge_ai_ml_service.Cancellation.Registry.View.{
  view, gone, live, registered, cancelled_by, view-register, view-cancel, view-discard,
}
use dataforge_ai_ml_service.Cancellation.Registry.Interleavings.{
  Section, registering, claiming, discarding, cancelling, after_all, IsCancelledToken,
  after_all-IsWellFormed, after_all-IsCancelledToken, register_after_cancel,
}

abbrev job : Text
job = codes "job-7"

abbrev other_job : Text
other_job = codes "job-8"

abbrev reason : Text
reason = codes "user"

-- Another job comes and goes, and this one is claimed again.
abbrev between : List Section
between = registering other_job ∷ claiming job ∷ discarding other_job ∷ cancelling 1 none ∷ []

job_unknown : view empty_registry job ≢ gone
unfolding Dict.get
job_unknown e = cc e

register_after_cancel_example :
    let waiting = after_all between (cancel job reason empty_registry).0 in
    ((register job waiting).0.heap (register job waiting).1).cancelled ≡ true
register_after_cancel_example =
    register_after_cancel job reason between empty_registry-IsWellFormed job_unknown
      (tt, (tt, ((λ e. other_ne_job e), (tt, tt))))
  where
    other_ne_job : other_job ≢ job
    other_ne_job e = ground arith

view-register_example :
    (view (register job empty_registry).0 other_job ≡ (
      if job == other_job
      then registered (view empty_registry job)
      else view empty_registry other_job))
    × (live ((register job empty_registry).0.heap (register job empty_registry).1)
        ≡ registered (view empty_registry job))
view-register_example = view-register empty_registry-IsWellFormed job other_job

view-cancel_example :
    (view (cancel job reason empty_registry).0 job ≡ (
      if job == job
      then (cancelled_by reason (view empty_registry job)).0
      else view empty_registry job))
    × ((cancel job reason empty_registry).1 ≡ (cancelled_by reason (view empty_registry job)).1)
view-cancel_example = view-cancel empty_registry-IsWellFormed job reason job

view-discard_example :
    view (discard job empty_registry) job ≡ (if job == job then gone else view empty_registry job)
view-discard_example = view-discard empty_registry-IsWellFormed job job

after_all-IsWellFormed_example : IsWellFormed (after_all between empty_registry)
after_all-IsWellFormed_example = after_all-IsWellFormed between empty_registry-IsWellFormed

abbrev cancelled_registry : CancellationRegistry
cancelled_registry = (cancel job reason empty_registry).0

first_token_cancelled : IsCancelledToken 0 cancelled_registry
unfolding cancel Dict.get
first_token_cancelled = record { handed_out = omega arith; cancelled = refl }

after_all-IsCancelledToken_example :
    IsCancelledToken 0 (after_all (discarding job ∷ registering job ∷ []) cancelled_registry)
after_all-IsCancelledToken_example =
    after_all-IsCancelledToken (discarding job ∷ registering job ∷ []) cancelled_registry
      first_token_cancelled

abbrev message : Text
message = codes "Storage ERROR while reading"

classify_failure_runs :
    (classify_failure ascii_lower (some message) none ≡ transient_storage_error)
    × (classify_failure ascii_lower (some (codes "Platform TIMEOUT")) none
        ≡ platform_callback_timeout)
    × (classify_failure ascii_lower (some (codes "invalid row")) none ≡ invalid_input)
unfolding classify_failure classify_lowered has ascii_lower
classify_failure_runs = (refl, refl, refl)

registry_runs :
    (is_cancelled job cancelled_registry ≡ true)
    × ((cancel job reason (discard job cancelled_registry)).1 ≡ false)
    × (known_job_ids (register job (register other_job cancelled_registry).0).0
        ≡ job ∷ other_job ∷ [])
unfolding is_cancelled cancel discard register known_job_ids sorted Dict.get Dict.put Dict.remove
registry_runs = (refl, refl, refl)

raise_if_cancelled_runs :
    raise_if_cancelled (token_cancelled (some reason) fresh_token)
    ≡ raise (record { reason_code = reason; message = codes "Compute run cancelled: user" })
unfolding raise_if_cancelled token_cancelled
raise_if_cancelled_runs = refl

can_retry_runs :
    can_retry (record {
      attempt_number = 1;
      max_attempts = 2;
      recoverable = true;
      failure_reason = some transient_storage_error;
      last_error_message = none;
      cancellation_reason_code = none;
    })
    ≡ true
unfolding can_retry
can_retry_runs = refl
