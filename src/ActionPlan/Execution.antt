-- ===== src/ActionPlan/Execution.antt =====
-- `validate_action_plan_execution` of app/kernel/action_plan.py.
pub mod Acceptance
use dataforge_ai_ml_service.Prelude.{
  ℕ, Bool, true, false, not, ◌&&◌, ◌||◌, Option, none, some, List, [], ◌∷◌, ◌++◌, if◌then◌else◌,
  nat_eq, list_eq, ◌==◌, String, Result, ok, raise, raise_if, ◌>>=◌, ◌>>◌,
}
use dataforge_ai_ml_service.Prelude.Texts.{Text, codes}
use dataforge_ai_ml_service.Json.{Json}
use dataforge_ai_ml_service.ErrorCode.{
  ErrorCode, action_plan_precondition_failed, action_plan_requires_approval,
  action_plan_signature_invalid,
}
use dataforge_ai_ml_service.ActionPlan.Model.{
  WorkflowType, analyze_only, preview_action_plan, apply_selected_actions, export, ActionPlanStep,
  ActionPlan,
}
use dataforge_ai_ml_service.ActionPlan.Steps.{candidate_only, idempotency_payload}

-- ActionPlanExecutionError without its message and details. Its reason for metadata that fits
-- another plan lists the fields that differ.
pub record ActionPlanExecutionError : Type 0 where
  pub reason_code : String
  pub code : ErrorCode
  pub status_code : ℕ
  pub mismatched_fields : List String

abbrev pub precondition : String → ActionPlanExecutionError
precondition reason = record {
  reason_code = reason;
  code = action_plan_precondition_failed;
  status_code = 422;
  mismatched_fields = [];
}

abbrev pub signature_invalid : String → List String → ActionPlanExecutionError
signature_invalid reason mismatched = record {
  reason_code = reason;
  code = action_plan_signature_invalid;
  status_code = 401;
  mismatched_fields = mismatched;
}

pub record ActionPlanApprovalMetadata : Type 0 where
  pub approval_id : Text
  pub approval_request_id : Text
  pub approved_by_user_id : Text
  pub approved_at : Text
  pub action_plan_id : Text
  pub action_plan_hash : Text
  pub decision_report_id : Text
  pub source_dataset_version_id : Text

pub record ValidateActionPlanExecutionRequest : Type 0 where
  pub action_plan : ActionPlan
  pub source_dataset_version_id : Text
  pub approval_metadata : Option ActionPlanApprovalMetadata

abbrev pub is_preview : WorkflowType → Bool
is_preview preview_action_plan = true
is_preview analyze_only = false
is_preview apply_selected_actions = false
is_preview export = false

abbrev pub has_none {ℓ} : {A : Type ℓ} → List A → Bool
has_none [] = true
has_none (x ∷ xs) = false

-- `expected_approval_request_id and metadata.approval_request_id != expected_approval_request_id`
abbrev pub request_differs : Option Text → Text → Bool
request_differs none actual = false
request_differs (some []) actual = false
request_differs (some (c ∷ expected)) actual = not (actual == c ∷ expected)

abbrev pub name_if_differs : Text → Text → String → List String
name_if_differs actual expected name = if actual == expected then [] else name ∷ []

-- The fields of the metadata that do not fit the plan, in the order of the code.
unfoldable pub mismatched_fields_of : ActionPlan → ActionPlanApprovalMetadata → Text → List String
mismatched_fields_of plan m integrity_hash =
    name_if_differs m.action_plan_id plan.action_plan_id "action_plan_id"
    ++ name_if_differs m.action_plan_hash integrity_hash "action_plan_hash"
    ++ name_if_differs m.decision_report_id plan.created_from_decision_report "decision_report_id"
    ++ name_if_differs m.source_dataset_version_id plan.source_dataset_version_id
        "source_dataset_version_id"

-- `_validate_approval_metadata`
unfoldable pub validate_approval_metadata :
    ActionPlan → ActionPlanApprovalMetadata → Text → Result ActionPlanExecutionError (Unit {0})
unfolding mismatched_fields_of
validate_approval_metadata plan m integrity_hash = do
  raise_if (request_differs plan.approval_request_id m.approval_request_id)
      (signature_invalid "approval_request_mismatch" [])
  let mismatched = mismatched_fields_of plan m integrity_hash
  raise_if (not (has_none mismatched))
      (signature_invalid "approval_metadata_integrity_mismatch" mismatched)

abbrev pub is_missing {ℓ} : {A : Type ℓ} → Option A → Bool
is_missing none = true
is_missing (some a) = false

-- `stable_hash` is the digest of a payload, and `dump` is pydantic's `model_dump`.
module _ (stable_hash : Json → Text) (dump : ActionPlan → Json) where
  -- `action_plan_integrity_hash`
  unfoldable pub action_plan_integrity_hash : ActionPlan → Text
  action_plan_integrity_hash plan = stable_hash (dump plan)

  -- The loop of `_validate_step_integrity`
  unfoldable pub validate_step_integrity :
      List ActionPlanStep → Result ActionPlanExecutionError (Unit {0})
  validate_step_integrity [] = ok tt
  validate_step_integrity (step ∷ steps) =
      let rest = validate_step_integrity steps in
      do
        raise_if
            (not (
              step.idempotency_key
              == stable_hash (idempotency_payload step.config_hash step.depends_on step.step_id)))
            (precondition "step_idempotency_key_mismatch")
        raise_if (not (step.promotion_scope == candidate_only))
            (precondition "invalid_promotion_scope")
        rest

  abbrev pub validate_given_metadata :
      ActionPlan
      → Option ActionPlanApprovalMetadata
      → Text
      → Result ActionPlanExecutionError (Unit {0})
  validate_given_metadata plan none integrity_hash = ok tt
  validate_given_metadata plan (some m) integrity_hash =
      validate_approval_metadata plan m integrity_hash

  -- `validate_action_plan_execution`
  unfoldable pub validate_action_plan_execution :
      ValidateActionPlanExecutionRequest → Result ActionPlanExecutionError Text
  validate_action_plan_execution q = do
    let plan = q.action_plan
    raise_if (not (plan.source_dataset_version_id == q.source_dataset_version_id))
        (precondition "source_dataset_version_mismatch")
    raise_if (not (is_preview plan.execution_mode)) (precondition "action_plan_not_preview_mode")
    raise_if (has_none plan.steps) (precondition "action_plan_has_no_steps")
    validate_step_integrity plan.steps
    let integrity_hash = action_plan_integrity_hash plan
    raise_if (plan.requires_approval && is_missing q.approval_metadata) (record {
      reason_code = "approval_metadata_required";
      code = action_plan_requires_approval;
      status_code = 403;
      mismatched_fields = [];
    })
    validate_given_metadata plan q.approval_metadata integrity_hash
    ok integrity_hash
