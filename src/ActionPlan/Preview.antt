-- ===== src/ActionPlan/Preview.antt =====
-- `build_action_plan_preview` of app/kernel/action_plan.py.
pub mod Selection
pub mod Chain
use dataforge_ai_ml_service.Prelude.{
  ℕ, zero, suc, Bool, true, false, not, ◌&&◌, ◌||◌, Option, none, some, List, [], ◌∷◌, ◌++◌,
  if◌then◌else◌, nat_eq, list_eq, ◌==◌, member, any, map, length, take, ordered_unique, flat_map,
  Result, ok, raise, raise_if, ◌>>=◌, ◌>>◌,
}
use dataforge_ai_ml_service.Prelude.Dict
use dataforge_ai_ml_service.Prelude.Dict.{Dict}
use dataforge_ai_ml_service.Prelude.Texts.{Text, codes, Unicode, remove_prefix}
use dataforge_ai_ml_service.Json.{Json, str, arr, obj, Fields, end, field, texts}
use dataforge_ai_ml_service.ErrorCode.{ErrorCode, action_plan_precondition_failed, policy_blocked}
use dataforge_ai_ml_service.ActionPlan.Model.{
  MethodCandidateStatus, recommended, available, PolicyStatus, enabled, MethodCandidate,
  BlockedMethod, MethodRecommendation, ActionPlanStep, ActionPlan, preview_action_plan,
  validate_step_dependencies,
}
use dataforge_ai_ml_service.ActionPlan.Steps.{build_step, or_text}

-- What leaves the builder: ActionPlanPreviewError (its status code is 422 in each case), or the
-- ValueError of the ActionPlan validator.
pub data PreviewError : Type 0 where
  preview_error : (reason_code : Text) → ErrorCode → PreviewError
  invalid_plan : PreviewError

pub record BuildActionPlanPreviewRequest : Type 0 where
  pub decision_report_id : Text
  pub source_dataset_version_id : Text
  pub selected_decision_ids : List Text
  pub selected_method_overrides : Dict Text Text
  pub method_recommendations : List MethodRecommendation
  pub created_by_user_id : Text
  pub input_artifacts : List Text
  pub target_version_name : Option Text
  pub created_at : Option Text

abbrev pub failed : Text → PreviewError
failed reason = preview_error reason action_plan_precondition_failed

-- `len(d)`
abbrev pub by_id : List MethodRecommendation → Dict Text MethodRecommendation
by_id = Dict.index_from (λ r. r.recommendation_id) []

-- `_recommendations_by_id`
unfoldable pub recommendations_by_id :
    List MethodRecommendation → Result PreviewError (Dict Text MethodRecommendation)
recommendations_by_id rs = do
  raise_if (not (length (by_id rs) == length rs)) (failed (codes "duplicate_recommendation_id"))
  ok (by_id rs)

abbrev pub found_or {ℓ} : {A : Type ℓ} → Option A → PreviewError → Result PreviewError A
found_or none x = raise x
found_or (some a) x = ok a

-- `_selected_recommendation`
unfoldable pub selected_recommendation :
    Dict Text MethodRecommendation → Text → Result PreviewError MethodRecommendation
selected_recommendation rs id =
    found_or (Dict.get rs id) (failed (codes "selected_decision_not_found"))

unfoldable pub selected_recommendations :
    Dict Text MethodRecommendation → List Text → Result PreviewError (List MethodRecommendation)
unfolding selected_recommendation
selected_recommendations rs [] = ok []
selected_recommendations rs (id ∷ ids) =
    let rest = selected_recommendations rs ids in
    do r ← selected_recommendation rs id; selected ← rest; ok (r ∷ selected)

abbrev pub is_selectable_status : MethodCandidateStatus → Bool
is_selectable_status recommended = true
is_selectable_status available = true
is_selectable_status _ = false

abbrev pub is_enabled : PolicyStatus → Bool
is_enabled enabled = true
is_enabled _ = false

abbrev pub blocked_of : MethodRecommendation → Text → Option BlockedMethod
blocked_of r method_id =
    Dict.get (Dict.index_from (λ b. b.method_id) [] r.blocked_methods) method_id

abbrev pub candidate_of : MethodRecommendation → Text → Option MethodCandidate
candidate_of r method_id =
    Dict.get (Dict.index_from (λ c. c.method_id) [] r.candidate_methods) method_id

abbrev pub raise_if_blocked : Option BlockedMethod → Result PreviewError (Unit {0})
raise_if_blocked none = ok tt
raise_if_blocked (some b) = raise (preview_error b.reason_code policy_blocked)

-- `_select_candidate`
unfoldable pub select_candidate : MethodRecommendation → Text → Result PreviewError MethodCandidate
select_candidate r method_id = do
  raise_if_blocked (blocked_of r method_id)
  candidate ← found_or (candidate_of r method_id) (failed (codes "method_candidate_not_found"))
  raise_if (not (is_selectable_status candidate.status) || not (is_enabled candidate.policy_status))
      (preview_error (codes "method_not_selectable") policy_blocked)
  ok candidate

-- `overrides.get(recommendation_id, recommended_method.method_id)`
abbrev pub chosen_method : Dict Text Text → MethodRecommendation → Text
chosen_method overrides r = elim (Dict.get overrides r.recommendation_id) [
  | none ↦ r.recommended_method.method_id
  | some method_id ↦ method_id
]

abbrev pub override_fields : Dict Text Text → Fields
override_fields [] = end
override_fields ((k, v) ∷ d) = field k (str v) (override_fields d)

-- `_policy_version`
abbrev pub single_or_mixed : List Text → Text
single_or_mixed (v ∷ []) = v
single_or_mixed _ = codes "mixed_method_policies"

unfoldable pub policy_version_of : List MethodRecommendation → Text
policy_version_of rs = single_or_mixed (ordered_unique (map (λ r. r.policy_version) rs))

-- The constructor of ActionPlan, which runs its validator.
unfoldable pub checked_plan : ActionPlan → Result PreviewError ActionPlan
checked_plan plan = do raise_if (not (validate_step_dependencies plan.steps)) invalid_plan; ok plan

-- `text or default`, for a text that may be None
abbrev pub or_default : Option Text → Text → Text
or_default none other = other
or_default (some text) other = or_text text other

-- `now` is the time of the call, and `stable_hash` the digest of a payload.
module _ (u : Unicode) (stable_hash : Json → Text) (now : Text) where
  -- `_stable_id`
  unfoldable pub stable_id : Text → Json → Text
  stable_id prefix payload =
      prefix ++ codes "_" ++ take 16 (remove_prefix (stable_hash payload) (codes "sha256:"))

  unfoldable pub action_plan_id_of : BuildActionPlanPreviewRequest → Text
  action_plan_id_of q = stable_id (codes "action_plan") (
      obj (
        field (codes "decision_report_id") (str q.decision_report_id) (
          field (codes "selected_decision_ids") (arr (texts q.selected_decision_ids)) (
            field (codes "selected_method_overrides")
              (obj (override_fields q.selected_method_overrides))
              (field (codes "source_dataset_version_id") (str q.source_dataset_version_id) end)))))

  -- The loop over the selected recommendations: a step depends on the step before it.
  unfoldable pub build_steps :
      BuildActionPlanPreviewRequest
      → List Text
      → List MethodRecommendation
      → Result PreviewError (List ActionPlanStep)
  build_steps q depends_on [] = ok []
  build_steps q depends_on (r ∷ rs) = do
    candidate ← select_candidate r (chosen_method q.selected_method_overrides r)
    let step = build_step u stable_hash r candidate depends_on q.input_artifacts
    steps ← build_steps q (step.step_id ∷ []) rs
    ok (step ∷ steps)

  abbrev pub plan_of :
      BuildActionPlanPreviewRequest → List MethodRecommendation → List ActionPlanStep → ActionPlan
  plan_of q selected steps = record {
    action_plan_id = action_plan_id_of q;
    plan_schema_version = codes "action_plan.v1";
    source_dataset_version_id = q.source_dataset_version_id;
    target_version_name =
        or_default q.target_version_name
          (q.source_dataset_version_id ++ codes "_candidate_preview");
    created_from_decision_report = q.decision_report_id;
    selected_decision_ids = q.selected_decision_ids;
    created_by_user_id = q.created_by_user_id;
    policy_version = policy_version_of selected;
    requires_approval = any (λ r. r.recommended_method.requires_approval) selected;
    approval_request_id = none;
    execution_mode = preview_action_plan;
    steps = steps;
    validation_gates = ordered_unique (flat_map (λ s. s.validation_gates) steps);
    expected_outputs = ordered_unique (flat_map (λ r. r.expected_outputs) selected);
    created_at = or_default q.created_at now;
  }

  -- `build_action_plan_preview`
  unfoldable pub build_action_plan_preview :
      BuildActionPlanPreviewRequest → Result PreviewError ActionPlan
  build_action_plan_preview q = do
    recommendations ← recommendations_by_id q.method_recommendations
    selected ← selected_recommendations recommendations q.selected_decision_ids
    steps ← build_steps q [] selected
    checked_plan (plan_of q selected steps)
