-- ===== src/ActionPlan/RoundTrip.antt =====
-- A plan that app/kernel/action_plan.py previews is one that it lets the platform execute.
use mathlib.Core.Path.{subst}
use dataforge_ai_ml_service.Prelude.{
  true, false, not, ◌||◌, Option, List, [], ◌∷◌, ok, ◌≡◌, refl, sym, All,
}
use dataforge_ai_ml_service.Prelude.Dict.{Dict}
use dataforge_ai_ml_service.Prelude.Texts.{Text, Unicode}
use dataforge_ai_ml_service.Json.{Json}
use dataforge_ai_ml_service.ActionPlan.Model.{MethodRecommendation, ActionPlanStep, ActionPlan}
use dataforge_ai_ml_service.ActionPlan.Steps.{build_step}
use dataforge_ai_ml_service.ActionPlan.Preview.{
  BuildActionPlanPreviewRequest, by_id, plan_of, build_action_plan_preview,
}
use dataforge_ai_ml_service.ActionPlan.Preview.Chain.{IsChain}
use dataforge_ai_ml_service.ActionPlan.Preview.Selection.{
  AreFound, build_action_plan_preview-IsPreview,
}
use dataforge_ai_ml_service.ActionPlan.Execution.{
  ActionPlanApprovalMetadata, ValidateActionPlanExecutionRequest, has_none, is_missing,
  action_plan_integrity_hash, validate_action_plan_execution,
}
use dataforge_ai_ml_service.ActionPlan.Execution.Acceptance.{
  IsIntact, IsExecutable, GivenFits, validate_action_plan_execution_complete,
}

module _ (u : Unicode) (stable_hash : Json → Text) (dump : ActionPlan → Json) (now : Text)
    (q : BuildActionPlanPreviewRequest) where
  IsChain-IsIntact :
      (depends_on : List Text) (rs : List MethodRecommendation) (ss : List ActionPlanStep)
      → IsChain u stable_hash now q depends_on rs ss
      → All (IsIntact stable_hash dump) ss
  unfolding build_step
  IsChain-IsIntact depends_on [] [] chain = tt
  IsChain-IsIntact depends_on [] (s ∷ ss) chain = absurd chain
  IsChain-IsIntact depends_on (r ∷ rs) [] chain = absurd chain
  IsChain-IsIntact depends_on (r ∷ rs) (s ∷ ss) ((c, may, e), chain) = (
    subst (IsIntact stable_hash dump) (sym e) (record { key_fits = refl; stays_candidate = refl }),
    IsChain-IsIntact (s.step_id ∷ []) rs ss chain,
  )

  chain_has_steps :
      (d : Dict Text MethodRecommendation) (ids : List Text) (rs : List MethodRecommendation)
      (ss : List ActionPlanStep)
      → has_none ids ≡ false
      → AreFound d ids rs
      → IsChain u stable_hash now q [] rs ss
      → has_none ss ≡ false
  chain_has_steps d [] rs ss h found chain = cc
  chain_has_steps d (id ∷ ids) [] ss h found chain = absurd found
  chain_has_steps d (id ∷ ids) (r ∷ rs) [] h found chain = absurd chain
  chain_has_steps d (id ∷ ids) (r ∷ rs) (s ∷ ss) h found chain = refl

  abbrev pub execute_request :
      ActionPlan → Option ActionPlanApprovalMetadata → ValidateActionPlanExecutionRequest
  execute_request plan m = record {
    action_plan = plan;
    source_dataset_version_id = q.source_dataset_version_id;
    approval_metadata = m;
  }

  preview-IsExecutable :
      (m : Option ActionPlanApprovalMetadata) (rs : List MethodRecommendation)
      (ss : List ActionPlanStep)
      → has_none q.selected_decision_ids ≡ false
      → AreFound (by_id q.method_recommendations) q.selected_decision_ids rs
      → IsChain u stable_hash now q [] rs ss
      → let plan = plan_of u stable_hash now q rs ss in
        (not plan.requires_approval || not (is_missing m)) ≡ true
        → GivenFits plan (action_plan_integrity_hash stable_hash dump plan) m
        → IsExecutable stable_hash dump (execute_request plan m)
  preview-IsExecutable m rs ss some_selected found chain approved fits = record {
    source_fits = refl;
    previewed = refl;
    has_steps =
        chain_has_steps (by_id q.method_recommendations) q.selected_decision_ids rs ss some_selected
          found chain;
    intact = IsChain-IsIntact [] rs ss chain;
    approved = approved;
    approval_fits = fits;
  }

  -- A plan that was previewed for at least one selected id is accepted for execution from the
  -- version that it was made from, with any approval of this very plan, or with none if it needs
  -- none. The answer is the hash that the approval was given for.
  pub preview_then_execute :
      (plan : ActionPlan) (m : Option ActionPlanApprovalMetadata)
      → has_none q.selected_decision_ids ≡ false
      → build_action_plan_preview u stable_hash now q ≡ ok plan
      → (not plan.requires_approval || not (is_missing m)) ≡ true
      → GivenFits plan (action_plan_integrity_hash stable_hash dump plan) m
      → validate_action_plan_execution stable_hash dump (execute_request plan m)
        ≡ ok (action_plan_integrity_hash stable_hash dump plan)
  preview_then_execute plan m some_selected built approved fits =
      let p = build_action_plan_preview-IsPreview u stable_hash now q plan built in
      let executable : IsExecutable stable_hash dump (execute_request plan m) =
        subst
          (λ x.
            (not x.requires_approval || not (is_missing m)) ≡ true
            → GivenFits x (action_plan_integrity_hash stable_hash dump x) m
            → IsExecutable stable_hash dump (execute_request x m))
          (sym p.made) (preview-IsExecutable m p.selected p.steps some_selected p.found p.chain)
          approved fits in
      validate_action_plan_execution_complete stable_hash dump (execute_request plan m) executable
