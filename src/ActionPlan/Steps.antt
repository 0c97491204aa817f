-- ===== src/ActionPlan/Steps.antt =====
-- One step of a plan: `_build_step` of app/kernel/action_plan.py and its helpers.
use mathlib.Core.List.{reverse}
use dataforge_ai_ml_service.Prelude.{
  ℕ, Bool, true, false, not, ◌&&◌, ◌||◌, Option, none, some, List, [], ◌∷◌, ◌++◌, if◌then◌else◌,
  leb, nat_eq, list_eq, ◌==◌, member,
}
use dataforge_ai_ml_service.Prelude.Dict
use dataforge_ai_ml_service.Prelude.Texts.{Text, codes, Unicode}
use dataforge_ai_ml_service.Json.{
  Json, null, bool, str, arr, obj, Config, end, field, fields, texts, or_null,
}
use dataforge_ai_ml_service.ActionPlan.Model.{
  MethodCandidate, MethodRecommendation, RetryPolicy, ActionPlanStep,
}

abbrev pub impute_missing_values : Text
impute_missing_values = codes "IMPUTE_MISSING_VALUES"

abbrev pub augment_rare_class : Text
augment_rare_class = codes "AUGMENT_RARE_CLASS"

abbrev pub candidate_only : Text
candidate_only = codes "candidate_only"

abbrev pub default_retry_policy : RetryPolicy
default_retry_policy = record {
  max_attempts = 2;
  retryable_errors = codes "TRANSIENT_STORAGE_ERROR" ∷ codes "DAGSTER_WORKER_RESTART" ∷ [];
}

-- `method_id in _synthetic_methods()`
unfoldable pub is_synthetic_method : Text → Bool
is_synthetic_method m = member m (
    codes "smote"
    ∷ codes "gaussian_copula"
    ∷ codes "borderline_smote"
    ∷ codes "adasyn"
    ∷ codes "ctgan"
    ∷ [])

abbrev pub lowercase_or_digit : ℕ → Bool
lowercase_or_digit c = leb 97 c && leb c 122 || leb 48 c && leb c 57

-- `re.sub(r"[^a-z0-9]+", "_", text)`, within a run of other characters or not
unfoldable pub underscored : Bool → Text → Text
underscored in_run [] = []
underscored in_run (c ∷ text) =
    let rest = underscored (not (lowercase_or_digit c)) text in
    if lowercase_or_digit c then c ∷ rest else if in_run then rest else 95 ∷ rest

-- `text.lstrip("_")`
unfoldable pub strip_left : Text → Text
strip_left [] = []
strip_left (c ∷ text) = let rest = strip_left text in if c == 95 then rest else c ∷ text

abbrev pub or_text : Text → Text → Text
or_text [] other = other
or_text (c ∷ text) other = c ∷ text

-- `_slug`
unfoldable pub slug : Unicode → Text → Text
unfolding underscored strip_left
slug u value =
    or_text (reverse (strip_left (reverse (strip_left (underscored false (u.lower value))))))
      (codes "step")

-- `_step_id`
unfoldable pub step_id_of : Unicode → MethodRecommendation → Text → Text
step_id_of u r method_id =
    slug u (r.action_type ++ codes "_" ++ method_id ++ codes "_" ++ r.issue_id)

abbrev pub get_or : Config → Text → Json → Json
get_or config k other = elim (Dict.get config k) [ none ↦ other | some j ↦ j ]

-- `_step_config`
unfoldable pub step_config : MethodRecommendation → Text → Config
unfolding is_synthetic_method
step_config r method_id =
    if r.action_type == impute_missing_values
    then (let config =
          (codes "column", or_null (Dict.get r.target (codes "column")))
          ∷ (codes "method", str method_id)
          ∷ (codes "add_missingness_indicator", bool true)
          ∷ [] in
        if method_id == codes "group_median"
        then Dict.put config (codes "group_key")
            (get_or r.target (codes "group_key") (str (codes "customer_segment")))
        else config)
    else if r.action_type == augment_rare_class
    then (codes "target_column", or_null (Dict.get r.target (codes "target_column")))
      ∷ (codes "rare_class_label", or_null (Dict.get r.target (codes "rare_class_label")))
      ∷ (codes "method", str method_id)
      ∷ (codes "source_split", if is_synthetic_method method_id then str (codes "train") else null)
      ∷ []
    else (codes "method", str method_id) ∷ (codes "target", obj (fields r.target)) ∷ []

-- `_validation_gates`
unfoldable pub validation_gates_of : MethodRecommendation → Text → List Text
validation_gates_of r method_id =
    if r.action_type == augment_rare_class
    then (if is_synthetic_method method_id
        then codes "split_leakage_check"
          ∷ codes "schema_validation"
          ∷ codes "business_rules_check"
          ∷ codes "synthetic_quality_check"
          ∷ codes "privacy_check"
          ∷ codes "model_impact_check"
          ∷ []
        else codes "schema_validation" ∷ codes "business_rules" ∷ codes "model_impact_check" ∷ [])
    else (codes "schema_validation" ∷ codes "business_rules" ∷ codes "privacy_check" ∷ [])
      ++ (if r.model_impact_required then codes "model_impact_check" ∷ [] else [])

-- `_preconditions`
unfoldable pub preconditions_of : MethodRecommendation → Text → List Text
preconditions_of r method_id =
    codes "source_version_is_immutable"
      ∷ (if r.action_type == impute_missing_values
          then codes "target_column_not_used_for_imputation" ∷ []
          else [])
    ++ (if is_synthetic_method method_id
        then codes "train_split_exists" ∷ codes "leakage_checks_passed" ∷ []
        else [])

abbrev pub configures_class_weights : Text → Text → Bool
configures_class_weights action_type method_id =
    (action_type == augment_rare_class) && (method_id == codes "class_weights")

-- `_step_type`
unfoldable pub step_type : Text → Text → Text
step_type action_type method_id =
    if configures_class_weights action_type method_id
    then codes "CONFIGURE_CLASS_WEIGHTS"
    else action_type

-- `_output_artifact_kind`
unfoldable pub output_artifact_kind_of : Text → Text → Text
output_artifact_kind_of action_type method_id =
    if configures_class_weights action_type method_id
    then codes "TRAINING_STRATEGY_CONFIG"
    else codes "CANDIDATE_DATASET_VERSION"

-- `_random_seed`
unfoldable pub random_seed_of : Text → Option ℕ
random_seed_of method_id = if is_synthetic_method method_id then some 42 else none

-- The payload of a step's idempotency key, which execution hashes again.
unfoldable pub idempotency_payload : Text → List Text → Text → Json
idempotency_payload config_hash depends_on step_id = obj (
    field (codes "config_hash") (str config_hash) (
      field (codes "depends_on") (arr (texts depends_on))
        (field (codes "step_id") (str step_id) end)))

module _ (u : Unicode) (stable_hash : Json → Text) where
  unfoldable pub config_hash_of : MethodRecommendation → Text → Text
  config_hash_of r method_id = stable_hash (
      obj (
        field (codes "action_type") (str r.action_type) (
          field (codes "config") (obj (fields (step_config r method_id))) (
            field (codes "method_id") (str method_id)
              (field (codes "recommendation_id") (str r.recommendation_id) end)))))

  -- `_build_step`
  unfoldable pub build_step :
      MethodRecommendation → MethodCandidate → List Text → List Text → ActionPlanStep
  build_step r candidate depends_on input_artifacts =
      let method_id = candidate.method_id in
      let config_hash = config_hash_of r method_id in
      let step_id = step_id_of u r method_id in
      record {
        step_id = step_id;
        type = step_type r.action_type method_id;
        depends_on = depends_on;
        idempotency_key = stable_hash (idempotency_payload config_hash depends_on step_id);
        method_id = method_id;
        plugin_id = r.recommended_method.plugin_id;
        plugin_version = codes "0.1.0";
        config_hash = config_hash;
        policy_version = r.policy_version;
        validation_gates = validation_gates_of r method_id;
        preconditions = preconditions_of r method_id;
        input_artifacts = input_artifacts;
        output_artifact_kind = output_artifact_kind_of r.action_type method_id;
        config = step_config r method_id;
        random_seed = random_seed_of method_id;
        retry_policy = default_retry_policy;
        on_failure = codes "fail_plan_keep_artifacts_unpromoted";
        promotion_scope = candidate_only;
      }
