-- ===== src/ActionPlan/Model.antt =====
-- The contracts of app/domain/decision.py that app/kernel/action_plan.py builds and reads.
use dataforge_ai_ml_service.Prelude.{
  ℕ, Bool, ◌&&◌, Option, List, map, all, member, distinct, nat_eq, list_eq,
}
use dataforge_ai_ml_service.Prelude.Texts.{Text}
use dataforge_ai_ml_service.Json.{Config}

-- `WorkflowType` of app/domain/compute.py
pub data WorkflowType : Type 0 where
  analyze_only preview_action_plan apply_selected_actions export : WorkflowType

pub data MethodCandidateStatus : Type 0 where
  recommended available disabled_by_policy disabled_by_readiness blocked : MethodCandidateStatus

pub data PolicyStatus : Type 0 where
  enabled disabled_by_policy disabled_by_readiness blocked : PolicyStatus

-- The scores of a method play no part in a plan.
pub record MethodCandidate : Type 0 where
  pub method_id : Text
  pub status : MethodCandidateStatus
  pub policy_status : PolicyStatus

pub record RecommendedMethod : Type 0 where
  pub method_id : Text
  pub plugin_id : Text
  pub readiness_level : ℕ
  pub requires_approval : Bool
  pub reason_codes : List Text

pub record BlockedMethod : Type 0 where
  pub method_id : Text
  pub reason_code : Text
  pub reason : Text

pub record MethodRecommendation : Type 0 where
  pub recommendation_id : Text
  pub issue_id : Text
  pub action_type : Text
  pub policy_version : Text
  pub target : Config
  pub recommended_method : RecommendedMethod
  pub candidate_methods : List MethodCandidate
  pub blocked_methods : List BlockedMethod
  pub expected_outputs : List Text
  pub model_impact_required : Bool

pub record RetryPolicy : Type 0 where
  pub max_attempts : ℕ
  pub retryable_errors : List Text

pub record ActionPlanStep : Type 0 where
  pub step_id : Text
  pub type : Text
  pub depends_on : List Text
  pub idempotency_key : Text
  pub method_id : Text
  pub plugin_id : Text
  pub plugin_version : Text
  pub config_hash : Text
  pub policy_version : Text
  pub validation_gates : List Text
  pub preconditions : List Text
  pub input_artifacts : List Text
  pub output_artifact_kind : Text
  pub config : Config
  pub random_seed : Option ℕ
  pub retry_policy : RetryPolicy
  pub on_failure : Text
  pub promotion_scope : Text

pub record ActionPlan : Type 0 where
  pub action_plan_id : Text
  pub plan_schema_version : Text
  pub source_dataset_version_id : Text
  pub target_version_name : Text
  pub created_from_decision_report : Text
  pub selected_decision_ids : List Text
  pub created_by_user_id : Text
  pub policy_version : Text
  pub requires_approval : Bool
  pub approval_request_id : Option Text
  pub execution_mode : WorkflowType
  pub steps : List ActionPlanStep
  pub validation_gates : List Text
  pub expected_outputs : List Text
  pub created_at : Text

abbrev pub step_ids : List ActionPlanStep → List Text
step_ids steps = map (λ s. s.step_id) steps

-- `ActionPlan.validate_step_dependencies`: the ids are distinct, and each dependency is one of
-- them.
unfoldable pub validate_step_dependencies : List ActionPlanStep → Bool
validate_step_dependencies steps =
    distinct (step_ids steps) && all (λ s. all (λ d. member d (step_ids steps)) s.depends_on) steps
