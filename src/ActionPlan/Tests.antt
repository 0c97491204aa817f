-- ===== src/ActionPlan/Tests.antt =====
-- Runs of app/kernel/action_plan.py, and its theorems at concrete inputs.
use dataforge_ai_ml_service.Prelude.{
  true, none, some, [], ◌∷◌, ◌++◌, ◌≡◌, ◌↔◌, refl, list_eq, nat_eq, ok, raise, distinct,
}
use dataforge_ai_ml_service.Prelude.Dict
use dataforge_ai_ml_service.Prelude.Texts.{Text, codes, ascii, ascii_lower}
use dataforge_ai_ml_service.Json.{Json, str, obj, field}
use dataforge_ai_ml_service.ErrorCode.{policy_blocked, action_plan_requires_approval}
use dataforge_ai_ml_service.ActionPlan.Model.{
  recommended, available, MethodCandidate, enabled, disabled_by_policy, MethodRecommendation,
  ActionPlan, step_ids, validate_step_dependencies,
}
use dataforge_ai_ml_service.ActionPlan.Steps.{
  build_step, config_hash_of, underscored, strip_left, step_id_of, slug, idempotency_payload,
}
use dataforge_ai_ml_service.ActionPlan.Preview.{
  BuildActionPlanPreviewRequest, recommendations_by_id, selected_recommendation,
  selected_recommendations, select_candidate, plan_of, checked_plan, build_steps,
  build_action_plan_preview, preview_error, invalid_plan,
}
use dataforge_ai_ml_service.ActionPlan.Preview.Selection.{
  IsPreview, build_action_plan_preview-IsPreview, build_action_plan_preview-distinct,
}
use dataforge_ai_ml_service.ActionPlan.Execution.{
  ActionPlanApprovalMetadata, action_plan_integrity_hash, validate_action_plan_execution,
  validate_step_integrity,
}
use dataforge_ai_ml_service.ActionPlan.Execution.Acceptance.{
  IsApprovalOf, IsExecutable, validate_action_plan_execution_iff,
}
use dataforge_ai_ml_service.ActionPlan.RoundTrip.{execute_request, preview_then_execute}

-- A digest that reads the first text of the payload, and a dump that keeps the plan's id.
abbrev digest : Json → Text
digest (str t) = codes "sha256:" ++ t
digest (obj (field k (str t) rest)) = codes "sha256:" ++ t
digest _ = codes "sha256:"

abbrev dump : ActionPlan → Json
dump plan = str plan.action_plan_id

abbrev imputation : MethodRecommendation
imputation = record {
  recommendation_id = codes "rec-1";
  issue_id = codes "missing income";
  action_type = codes "IMPUTE_MISSING_VALUES";
  policy_version = codes "method_policy_v0";
  target = (codes "column", str (codes "income")) ∷ [];
  recommended_method = record {
    method_id = codes "median";
    plugin_id = codes "tabular";
    readiness_level = 3;
    requires_approval = true;
    reason_codes = [];
  };
  candidate_methods =
      record { method_id = codes "median"; status = recommended; policy_status = enabled }
      ∷ record { method_id = codes "knn"; status = available; policy_status = disabled_by_policy }
      ∷ [];
  blocked_methods = [];
  expected_outputs = codes "report" ∷ [];
  model_impact_required = true;
}

abbrev request : BuildActionPlanPreviewRequest
request = record {
  decision_report_id = codes "dr";
  source_dataset_version_id = codes "v1";
  selected_decision_ids = codes "rec-1" ∷ [];
  selected_method_overrides = [];
  method_recommendations = imputation ∷ [];
  created_by_user_id = codes "u";
  input_artifacts = codes "s3://b/k" ∷ [];
  target_version_name = none;
  created_at = none;
}

abbrev knn_request : BuildActionPlanPreviewRequest
knn_request = record request { selected_method_overrides = (codes "rec-1", codes "knn") ∷ [] }

abbrev twice_request : BuildActionPlanPreviewRequest
twice_request = record request { selected_decision_ids = codes "rec-1" ∷ codes "rec-1" ∷ [] }

abbrev median : MethodCandidate
median = record { method_id = codes "median"; status = recommended; policy_status = enabled }

abbrev plan : ActionPlan
plan =
    plan_of ascii digest (codes "now") request (imputation ∷ [])
      (build_step ascii digest imputation median [] (codes "s3://b/k" ∷ []) ∷ [])

built : build_action_plan_preview ascii digest (codes "now") request ≡ ok plan
unfolding build_action_plan_preview recommendations_by_id selected_recommendations
    selected_recommendation select_candidate build_steps checked_plan validate_step_dependencies
    Dict.index_from Dict.get Dict.put build_step
built = refl

step_id_of_imputation :
    step_ids plan.steps ≡ codes "impute_missing_values_median_missing_income" ∷ []
unfolding build_step step_id_of slug underscored strip_left ascii_lower
step_id_of_imputation = refl

overridden_by_a_disabled_method :
    build_action_plan_preview ascii digest (codes "now") knn_request
    ≡ raise (preview_error (codes "method_not_selectable") policy_blocked)
unfolding build_action_plan_preview recommendations_by_id selected_recommendations
    selected_recommendation select_candidate build_steps Dict.index_from Dict.get Dict.put
overridden_by_a_disabled_method = refl

selected_twice :
    build_action_plan_preview ascii digest (codes "now") twice_request ≡ raise invalid_plan
unfolding build_action_plan_preview recommendations_by_id selected_recommendations
    selected_recommendation select_candidate build_steps checked_plan validate_step_dependencies
    Dict.index_from Dict.get Dict.put build_step step_id_of slug ascii_lower
selected_twice = refl

build_action_plan_preview-IsPreview_example : IsPreview ascii digest (codes "now") request plan
build_action_plan_preview-IsPreview_example =
    build_action_plan_preview-IsPreview ascii digest (codes "now") request plan built

build_action_plan_preview-distinct_example : distinct request.selected_decision_ids ≡ true
build_action_plan_preview-distinct_example =
    build_action_plan_preview-distinct ascii digest (codes "now") request plan built

abbrev approval : ActionPlanApprovalMetadata
approval = record {
  approval_id = codes "a";
  approval_request_id = codes "ar";
  approved_by_user_id = codes "u";
  approved_at = codes "then";
  action_plan_id = plan.action_plan_id;
  action_plan_hash = action_plan_integrity_hash digest dump plan;
  decision_report_id = codes "dr";
  source_dataset_version_id = codes "v1";
}

approval_fits : IsApprovalOf plan (action_plan_integrity_hash digest dump plan) approval
approval_fits = record {
  request_fits = refl;
  id_fits = refl;
  hash_fits = refl;
  report_fits = refl;
  source_fits = refl;
}

preview_then_execute_example :
    validate_action_plan_execution digest dump
      (execute_request ascii digest dump (codes "now") request plan (some approval))
    ≡ ok (action_plan_integrity_hash digest dump plan)
preview_then_execute_example =
    preview_then_execute ascii digest dump (codes "now") request plan (some approval) refl built
      refl approval_fits

validate_action_plan_execution_iff_example :
    (validate_action_plan_execution digest dump
        (execute_request ascii digest dump (codes "now") request plan (some approval))
      ≡ ok (action_plan_integrity_hash digest dump plan))
    ↔ (IsExecutable digest dump
          (execute_request ascii digest dump (codes "now") request plan (some approval))
        × (action_plan_integrity_hash digest dump plan
            ≡ action_plan_integrity_hash digest dump plan))
validate_action_plan_execution_iff_example =
    validate_action_plan_execution_iff digest dump
      (execute_request ascii digest dump (codes "now") request plan (some approval))
      (action_plan_integrity_hash digest dump plan)

executed_without_approval :
    validate_action_plan_execution digest dump
      (execute_request ascii digest dump (codes "now") request plan none)
    ≡ raise (record {
      reason_code = "approval_metadata_required";
      code = action_plan_requires_approval;
      status_code = 403;
      mismatched_fields = [];
    })
unfolding validate_action_plan_execution validate_step_integrity build_step idempotency_payload
    config_hash_of
executed_without_approval = refl
