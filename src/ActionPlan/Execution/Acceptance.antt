-- ===== src/ActionPlan/Execution/Acceptance.antt =====
-- Which approved plans `validate_action_plan_execution` of app/kernel/action_plan.py accepts.
use dataforge_ai_ml_service.Prelude.{
  true, false, not, ◌||◌, Option, none, some, List, [], ◌∷◌, nat_eq, list_eq, list_beq_iff, ok, ◌≡◌,
  ◌↔◌, refl, sym, ◌∙◌, ap, arith, All, Result-cases, inl, inr,
}
use dataforge_ai_ml_service.Prelude.Texts.{Text}
use dataforge_ai_ml_service.Json.{Json}
use dataforge_ai_ml_service.ActionPlan.Model.{
  WorkflowType, analyze_only, preview_action_plan, apply_selected_actions, export, ActionPlanStep,
  ActionPlan,
}
use dataforge_ai_ml_service.ActionPlan.Steps.{candidate_only, idempotency_payload}
use dataforge_ai_ml_service.ActionPlan.Execution.{
  ActionPlanApprovalMetadata, ValidateActionPlanExecutionRequest, is_preview, has_none, is_missing,
  request_differs, validate_approval_metadata, action_plan_integrity_hash, validate_step_integrity,
  validate_given_metadata, validate_action_plan_execution,
}

-- The approval was given to this very plan.
pub record IsApprovalOf (plan : ActionPlan) (integrity_hash : Text) (m : ActionPlanApprovalMetadata)
    : Type 0 where
  pub request_fits : request_differs plan.approval_request_id m.approval_request_id ≡ false
  pub id_fits : m.action_plan_id ≡ plan.action_plan_id
  pub hash_fits : m.action_plan_hash ≡ integrity_hash
  pub report_fits : m.decision_report_id ≡ plan.created_from_decision_report
  pub source_fits : m.source_dataset_version_id ≡ plan.source_dataset_version_id

abbrev pub GivenFits : ActionPlan → Text → Option ActionPlanApprovalMetadata → Type 0
GivenFits plan integrity_hash none = Unit
GivenFits plan integrity_hash (some m) = IsApprovalOf plan integrity_hash m

validate_approval_metadata_iff :
    (plan : ActionPlan) (m : ActionPlanApprovalMetadata) (integrity_hash : Text)
    → (validate_approval_metadata plan m integrity_hash ≡ ok tt)
      ↔ IsApprovalOf plan integrity_hash m
unfolding validate_approval_metadata
validate_approval_metadata_iff plan m h =
    let id_iff = list_beq_iff m.action_plan_id plan.action_plan_id in
    let hash_iff = list_beq_iff m.action_plan_hash h in
    let report_iff = list_beq_iff m.decision_report_id plan.created_from_decision_report in
    let source_iff = list_beq_iff m.source_dataset_version_id plan.source_dataset_version_id in
    (
      λ e. record {
        request_fits = ground arith;
        id_fits = ground arith;
        hash_fits = ground arith;
        report_fits = ground arith;
        source_fits = ground arith;
      },
      λ a. ground arith,
    )

module _ (stable_hash : Json → Text) (dump : ActionPlan → Json) where
  -- The step carries the key of its own contents, and its output stays a candidate.
  pub record IsIntact (step : ActionPlanStep) : Type 0 where
    pub key_fits :
        step.idempotency_key
        ≡ stable_hash (idempotency_payload step.config_hash step.depends_on step.step_id)
    pub stays_candidate : step.promotion_scope ≡ candidate_only

  validate_step_integrity-cons :
      (step : ActionPlanStep) (steps : List ActionPlanStep)
      → validate_step_integrity stable_hash dump (step ∷ steps) ≡ ok tt
      → IsIntact step × (validate_step_integrity stable_hash dump steps ≡ ok tt)
  unfolding validate_step_integrity
  validate_step_integrity-cons step steps h =
      let key = stable_hash (idempotency_payload step.config_hash step.depends_on step.step_id) in
      let key_iff = list_beq_iff step.idempotency_key key in
      let scope_iff = list_beq_iff step.promotion_scope candidate_only in
      (record { key_fits = ground arith; stays_candidate = ground arith }, ground arith)

  validate_step_integrity_sound :
      (steps : List ActionPlanStep)
      → validate_step_integrity stable_hash dump steps ≡ ok tt
      → All IsIntact steps
  validate_step_integrity_sound [] h = tt
  validate_step_integrity_sound (step ∷ steps) h =
      let (intact, rest) = validate_step_integrity-cons step steps h in
      (intact, validate_step_integrity_sound steps rest)

  pub validate_step_integrity_complete :
      (steps : List ActionPlanStep)
      → All IsIntact steps
      → validate_step_integrity stable_hash dump steps ≡ ok tt
  unfolding validate_step_integrity
  validate_step_integrity_complete [] a = refl
  validate_step_integrity_complete (step ∷ steps) (intact, a) =
      let key = stable_hash (idempotency_payload step.config_hash step.depends_on step.step_id) in
      let key' = (list_beq_iff step.idempotency_key key).1 intact.key_fits in
      let scope' = (list_beq_iff step.promotion_scope candidate_only).1 intact.stays_candidate in
      rw (key', scope') (validate_step_integrity_complete steps a)

  -- What an execution request has to meet.
  pub record IsExecutable (q : ValidateActionPlanExecutionRequest) : Type 0 where
    pub source_fits : q.action_plan.source_dataset_version_id ≡ q.source_dataset_version_id
    pub previewed : q.action_plan.execution_mode ≡ preview_action_plan
    pub has_steps : has_none q.action_plan.steps ≡ false
    pub intact : All IsIntact q.action_plan.steps
    pub approved :
        (not q.action_plan.requires_approval || not (is_missing q.approval_metadata)) ≡ true
    pub approval_fits :
        GivenFits q.action_plan
          (action_plan_integrity_hash stable_hash dump q.action_plan)
          q.approval_metadata

  is_preview_iff : (w : WorkflowType) → (is_preview w ≡ true) ↔ (w ≡ preview_action_plan)
  is_preview_iff analyze_only = ground arith
  is_preview_iff preview_action_plan = ground arith
  is_preview_iff apply_selected_actions = ground arith
  is_preview_iff export = ground arith

  validate_given_metadata_iff :
      (plan : ActionPlan) (m : Option ActionPlanApprovalMetadata) (h : Text)
      → (validate_given_metadata stable_hash dump plan m h ≡ ok tt) ↔ GivenFits plan h m
  validate_given_metadata_iff plan none h = (λ e. tt, λ a. refl)
  validate_given_metadata_iff plan (some m) h = validate_approval_metadata_iff plan m h

  validate_action_plan_execution_sound :
      (q : ValidateActionPlanExecutionRequest) {h : Text}
      → validate_action_plan_execution stable_hash dump q ≡ ok h
      → IsExecutable q × (h ≡ action_plan_integrity_hash stable_hash dump q.action_plan)
  unfolding validate_action_plan_execution
  validate_action_plan_execution_sound q {h} e =
      let plan = q.action_plan in
      let integrity_hash = action_plan_integrity_hash stable_hash dump plan in
      let source_iff = list_beq_iff plan.source_dataset_version_id q.source_dataset_version_id in
      let mode_iff = is_preview_iff plan.execution_mode in
      elim (Result-cases (validate_step_integrity stable_hash dump plan.steps)) [
        | inr (x, broken) ↦ ground arith
        | inl (t, intact) ↦
            elim (Result-cases
              (validate_given_metadata stable_hash dump plan q.approval_metadata integrity_hash)) [
                | inr (x, unfit) ↦ ground arith
                | inl (t', fit) ↦ (
                  record {
                    source_fits = ground arith;
                    previewed = ground arith;
                    has_steps = ground arith;
                    intact = validate_step_integrity_sound plan.steps intact;
                    approved = ground arith;
                    approval_fits =
                        (validate_given_metadata_iff plan q.approval_metadata integrity_hash).0 fit;
                  },
                  ground arith,
                )
              ]
      ]

  pub validate_action_plan_execution_complete :
      (q : ValidateActionPlanExecutionRequest)
      → IsExecutable q
      → validate_action_plan_execution stable_hash dump q
        ≡ ok (action_plan_integrity_hash stable_hash dump q.action_plan)
  unfolding validate_action_plan_execution
  validate_action_plan_execution_complete q x =
      let plan = q.action_plan in
      let integrity_hash = action_plan_integrity_hash stable_hash dump plan in
      let source_iff = list_beq_iff plan.source_dataset_version_id q.source_dataset_version_id in
      let mode_iff = is_preview_iff plan.execution_mode in
      let steps_pass = validate_step_integrity_complete plan.steps x.intact in
      let fit =
        (validate_given_metadata_iff plan q.approval_metadata integrity_hash).1 x.approval_fits in
      ground (arith, x.source_fits, x.previewed, x.has_steps, x.approved)

  -- Execution is accepted exactly for a previewed plan with steps, made from the version that is
  -- named, each step of which carries the key of its own contents and stays a candidate, and which
  -- comes with an approval if it needs one, and with none but an approval of this very plan. The
  -- answer is the plan's integrity hash.
  pub validate_action_plan_execution_iff :
      (q : ValidateActionPlanExecutionRequest) (h : Text)
      → (validate_action_plan_execution stable_hash dump q ≡ ok h)
        ↔ (IsExecutable q × (h ≡ action_plan_integrity_hash stable_hash dump q.action_plan))
  validate_action_plan_execution_iff q h = (
    validate_action_plan_execution_sound q,
    λ (x, e). validate_action_plan_execution_complete q x ∙ ap ok (sym e),
  )
