-- ===== src/ActionPlan/Preview/Selection.antt =====
-- What a plan of `build_action_plan_preview` in app/kernel/action_plan.py is made of.
use mathlib.Core.Path.{subst, ap₂}
use dataforge_ai_ml_service.Prelude.{
  true, some, List, [], ◌∷◌, map, nat_eq, list_eq, list_beq_iff, ◌==◌, member, distinct, ok,
  >>=-eq-ok, ◌≡◌, refl, ◌∙◌, ap, arith, Bool-cases, inl, inr,
}
use dataforge_ai_ml_service.Prelude.Dict
use dataforge_ai_ml_service.Prelude.Dict.{Dict, get-index}
use dataforge_ai_ml_service.Prelude.Texts.{Text, Unicode}
use dataforge_ai_ml_service.Json.{Json}
use dataforge_ai_ml_service.ActionPlan.Model.{
  MethodRecommendation, ActionPlanStep, ActionPlan, step_ids, validate_step_dependencies,
}
use dataforge_ai_ml_service.ActionPlan.Steps.{build_step, step_id_of}
use dataforge_ai_ml_service.ActionPlan.Preview.{
  BuildActionPlanPreviewRequest, build_steps, by_id, recommendations_by_id, selected_recommendation,
  selected_recommendations, checked_plan, plan_of, build_action_plan_preview,
}
use dataforge_ai_ml_service.ActionPlan.Preview.Chain.{
  chosen, candidate-method_id, IsChain, build_steps-IsChain, IsLinked, IsChain-IsLinked,
}

-- The recommendations that the ids name, in order.
abbrev pub AreFound :
    Dict Text MethodRecommendation → List Text → List MethodRecommendation → Type 0
AreFound d [] [] = Unit
AreFound d [] (r ∷ rs) = ⊥
AreFound d (id ∷ ids) [] = ⊥
AreFound d (id ∷ ids) (r ∷ rs) = (Dict.get d id ≡ some r) × AreFound d ids rs

selected_recommendation_found :
    (d : Dict Text MethodRecommendation) (id : Text) {r : MethodRecommendation}
    → selected_recommendation d id ≡ ok r
    → Dict.get d id ≡ some r
unfolding selected_recommendation
selected_recommendation_found d id h = ground arith

selected_recommendations-AreFound :
    (d : Dict Text MethodRecommendation) (ids : List Text) {rs : List MethodRecommendation}
    → selected_recommendations d ids ≡ ok rs
    → AreFound d ids rs
unfolding selected_recommendations
selected_recommendations-AreFound d [] {rs = []} h = tt
selected_recommendations-AreFound d [] {rs = r ∷ rs} h = cc
selected_recommendations-AreFound d (id ∷ ids) {rs = out} h =
    let (r, found, h') = >>=-eq-ok (selected_recommendation d id) _ h in
    let (rs, rest, e) = >>=-eq-ok (selected_recommendations d ids) _ h' in
    let made : r ∷ rs ≡ out = cc e in
    subst (AreFound d (id ∷ ids)) made
      (selected_recommendation_found d id found, selected_recommendations-AreFound d ids rest)

module _ (u : Unicode) (stable_hash : Json → Text) (now : Text)
    (q : BuildActionPlanPreviewRequest) where
  -- What the plan is made of.
  pub record IsPreview (plan : ActionPlan) : Type 0 where
    pub selected : List MethodRecommendation
    pub found : AreFound (by_id q.method_recommendations) q.selected_decision_ids selected
    pub steps : List ActionPlanStep
    pub chain : IsChain u stable_hash now q [] selected steps
    pub linked : IsLinked u stable_hash now q [] selected steps
    pub unique_steps : distinct (step_ids steps) ≡ true
    pub made : plan ≡ plan_of u stable_hash now q selected steps

  -- A plan that is built has one step for each selected id, in that order: of the recommendation of
  -- that id, by its recommended method or the override, which is a selectable and enabled candidate
  -- and not blocked. The first step depends on none and each other on the step before it alone; a
  -- step has the id, type and configuration hash of its recommendation and that method, and the
  -- idempotency key of its hash, dependencies and id. No two steps share an id.
  pub build_action_plan_preview-IsPreview :
      (plan : ActionPlan) → build_action_plan_preview u stable_hash now q ≡ ok plan → IsPreview plan
  unfolding build_action_plan_preview recommendations_by_id checked_plan validate_step_dependencies
  build_action_plan_preview-IsPreview plan h =
      let (d, indexed, h₁) = >>=-eq-ok (recommendations_by_id q.method_recommendations) _ h in
      let (rs, selected, h₂) =
        >>=-eq-ok (selected_recommendations d q.selected_decision_ids) _ h₁ in
      let (steps, built, h₃) = >>=-eq-ok (build_steps u stable_hash now q [] rs) _ h₂ in
      record {
        selected = rs;
        found =
            selected_recommendations-AreFound (by_id q.method_recommendations)
              q.selected_decision_ids
              (subst (λ x. selected_recommendations x q.selected_decision_ids ≡ ok rs)
                (ground arith) selected);
        steps = steps;
        chain = build_steps-IsChain u stable_hash now q [] rs built;
        linked =
            IsChain-IsLinked u stable_hash now q [] rs steps
              (build_steps-IsChain u stable_hash now q [] rs built);
        unique_steps = ground arith;
        made = ground arith;
      }

  -- The id of the step that a recommendation gets.
  abbrev id_for : MethodRecommendation → Text
  id_for r = step_id_of u r (chosen u stable_hash now q r)

  IsChain-step_ids :
      (depends_on : List Text) (rs : List MethodRecommendation) (ss : List ActionPlanStep)
      → IsChain u stable_hash now q depends_on rs ss
      → step_ids ss ≡ map id_for rs
  unfolding build_step
  IsChain-step_ids depends_on [] [] chain = refl
  IsChain-step_ids depends_on [] (s ∷ ss) chain = absurd chain
  IsChain-step_ids depends_on (r ∷ rs) [] chain = absurd chain
  IsChain-step_ids depends_on (r ∷ rs) (s ∷ ss) ((c, may, e), chain) =
      ap₂ (λ x xs. x ∷ xs)
        (ap (λ t. t.step_id) e
          ∙ ap (step_id_of u r) (candidate-method_id r (chosen u stable_hash now q r) c may))
        (IsChain-step_ids (s.step_id ∷ []) rs ss chain)

  member-id_for :
      (d : Dict Text MethodRecommendation) (id : Text) (r : MethodRecommendation) (ids : List Text)
      (rs : List MethodRecommendation)
      → AreFound d ids rs
      → Dict.get d id ≡ some r
      → member id ids ≡ true
      → member (id_for r) (map id_for rs) ≡ true
  member-id_for d id r [] [] found here m = m
  member-id_for d id r [] (x ∷ rs) found here m = absurd found
  member-id_for d id r (j ∷ ids) [] found here m = absurd found
  member-id_for d id r (j ∷ ids) (x ∷ rs) (there, found) here m = elim (Bool-cases (j == id)) [
    | inl same ↦
        let e : j ≡ id = (list_beq_iff j id).0 same in
        let r' : x ≡ r = cc (ap (Dict.get d) e) in
        rw ((list_beq_iff (id_for x) (id_for r)).1 (ap id_for r'))
    | inr other ↦ let rest = member-id_for d id r ids rs found here (ground arith) in ground arith
  ]

  distinct-AreFound :
      (d : Dict Text MethodRecommendation) (ids : List Text) (rs : List MethodRecommendation)
      → AreFound d ids rs
      → distinct (map id_for rs) ≡ true
      → distinct ids ≡ true
  distinct-AreFound d [] [] found h = refl
  distinct-AreFound d [] (r ∷ rs) found h = absurd found
  distinct-AreFound d (id ∷ ids) [] found h = absurd found
  distinct-AreFound d (id ∷ ids) (r ∷ rs) (here, found) h =
      ground (arith, member-id_for d id r ids rs found here, distinct-AreFound d ids rs found)

  -- A plan is built only if no decision id is selected twice.
  pub build_action_plan_preview-distinct :
      (plan : ActionPlan)
      → build_action_plan_preview u stable_hash now q ≡ ok plan
      → distinct q.selected_decision_ids ≡ true
  build_action_plan_preview-distinct plan h =
      let p = build_action_plan_preview-IsPreview plan h in
      distinct-AreFound (by_id q.method_recommendations) q.selected_decision_ids p.selected p.found
        (rw (← IsChain-step_ids [] p.selected p.steps p.chain) p.unique_steps)
