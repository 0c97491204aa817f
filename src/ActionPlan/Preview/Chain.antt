-- ===== src/ActionPlan/Preview/Chain.antt =====
-- The steps that `build_action_plan_preview` of app/kernel/action_plan.py lines up.
use mathlib.Core.Path.{subst}
use dataforge_ai_ml_service.Prelude.{
  true, none, some, List, [], ◌∷◌, nat_eq, list_eq, ok, >>=-eq-ok, ◌≡◌, refl, sym, ap, arith,
}
use dataforge_ai_ml_service.Prelude.Dict.{get-index}
use dataforge_ai_ml_service.Prelude.Texts.{Text, Unicode}
use dataforge_ai_ml_service.Json.{Json}
use dataforge_ai_ml_service.ActionPlan.Model.{MethodCandidate, MethodRecommendation, ActionPlanStep}
use dataforge_ai_ml_service.ActionPlan.Steps.{
  build_step, step_id_of, step_type, config_hash_of, idempotency_payload, candidate_only,
}
use dataforge_ai_ml_service.ActionPlan.Preview.{
  BuildActionPlanPreviewRequest, select_candidate, chosen_method, build_steps, is_selectable_status,
  is_enabled, blocked_of, candidate_of,
}

-- The method that was chosen may be used: it is a candidate, selectable and enabled, and it is not
-- blocked.
pub record MaySelect (r : MethodRecommendation) (method_id : Text) (c : MethodCandidate)
    : Type 0 where
  pub not_blocked : blocked_of r method_id ≡ none
  pub is_candidate : candidate_of r method_id ≡ some c
  pub selectable : is_selectable_status c.status ≡ true
  pub policy_enabled : is_enabled c.policy_status ≡ true

select_candidate-MaySelect :
    (r : MethodRecommendation) (method_id : Text) {c : MethodCandidate}
    → select_candidate r method_id ≡ ok c
    → MaySelect r method_id c
unfolding select_candidate
select_candidate-MaySelect r method_id h = record {
  not_blocked = ground arith;
  is_candidate = ground arith;
  selectable = ground arith;
  policy_enabled = ground arith;
}

pub candidate-method_id :
    (r : MethodRecommendation) (method_id : Text) (c : MethodCandidate)
    → MaySelect r method_id c
    → c.method_id ≡ method_id
candidate-method_id r method_id c s =
    get-index (λ x. x.method_id) r.candidate_methods method_id c s.is_candidate

module _ (u : Unicode) (stable_hash : Json → Text) (now : Text)
    (q : BuildActionPlanPreviewRequest) where
  abbrev pub chosen : MethodRecommendation → Text
  chosen r = chosen_method q.selected_method_overrides r

  -- Each step stands for its recommendation, in order, by a method that may be used, and it depends
  -- on the step before it alone.
  abbrev pub IsChain : List Text → List MethodRecommendation → List ActionPlanStep → Type 0
  IsChain depends_on [] [] = Unit
  IsChain depends_on [] (s ∷ ss) = ⊥
  IsChain depends_on (r ∷ rs) [] = ⊥
  IsChain depends_on (r ∷ rs) (s ∷ ss) =
      ((c : MethodCandidate) × MaySelect r (chosen r) c
        × (s ≡ build_step u stable_hash r c depends_on q.input_artifacts))
      × IsChain (s.step_id ∷ []) rs ss

  abbrev first_step : List Text → MethodRecommendation → MethodCandidate → ActionPlanStep
  first_step depends_on r c = build_step u stable_hash r c depends_on q.input_artifacts

  build_steps-cons :
      (depends_on : List Text) (r : MethodRecommendation) (rs : List MethodRecommendation)
      {steps : List ActionPlanStep}
      → build_steps u stable_hash now q depends_on (r ∷ rs) ≡ ok steps
      → (c : MethodCandidate) × (ss : List ActionPlanStep) × (select_candidate r (chosen r) ≡ ok c)
        × (build_steps u stable_hash now q ((first_step depends_on r c).step_id ∷ []) rs ≡ ok ss)
        × (steps ≡ first_step depends_on r c ∷ ss)
  unfolding build_steps
  build_steps-cons depends_on r rs h =
      let (c, selected, h') = >>=-eq-ok (select_candidate r (chosen r)) _ h in
      let (ss, tail, e) =
        >>=-eq-ok (build_steps u stable_hash now q ((first_step depends_on r c).step_id ∷ []) rs) _
          h' in
      (c, ss, selected, tail, cc e)

  pub build_steps-IsChain :
      (depends_on : List Text) (rs : List MethodRecommendation) {steps : List ActionPlanStep}
      → build_steps u stable_hash now q depends_on rs ≡ ok steps
      → IsChain depends_on rs steps
  unfolding build_steps
  build_steps-IsChain depends_on [] {steps = []} h = tt
  build_steps-IsChain depends_on [] {steps = s ∷ ss} h = cc
  build_steps-IsChain depends_on (r ∷ rs) h =
      let (c, ss, selected, tail, e) = build_steps-cons depends_on r rs h in
      let id = (first_step depends_on r c).step_id in
      subst (IsChain depends_on (r ∷ rs)) (sym e) (
        (c, select_candidate-MaySelect r (chosen r) selected, refl),
        build_steps-IsChain (id ∷ []) rs tail,
      )

  -- What a step has of its recommendation and of the step before it.
  pub record IsStepOf (r : MethodRecommendation) (depends_on : List Text) (s : ActionPlanStep)
      : Type 0 where
    pub method : s.method_id ≡ chosen r
    pub after : s.depends_on ≡ depends_on
    pub id : s.step_id ≡ step_id_of u r (chosen r)
    pub kind : s.type ≡ step_type r.action_type (chosen r)
    pub hashed : s.config_hash ≡ config_hash_of u stable_hash r (chosen r)
    pub key :
        s.idempotency_key ≡ stable_hash (idempotency_payload s.config_hash s.depends_on s.step_id)
    pub policy : s.policy_version ≡ r.policy_version
    pub inputs : s.input_artifacts ≡ q.input_artifacts
    pub scope : s.promotion_scope ≡ candidate_only

  -- One step of each recommendation, in order, the first after the given ones and each other after
  -- the step before it.
  abbrev pub IsLinked : List Text → List MethodRecommendation → List ActionPlanStep → Type 0
  IsLinked depends_on [] [] = Unit
  IsLinked depends_on [] (s ∷ ss) = ⊥
  IsLinked depends_on (r ∷ rs) [] = ⊥
  IsLinked depends_on (r ∷ rs) (s ∷ ss) = IsStepOf r depends_on s × IsLinked (s.step_id ∷ []) rs ss

  build_step-IsStepOf :
      (r : MethodRecommendation) (c : MethodCandidate) (depends_on : List Text)
      → c.method_id ≡ chosen r
      → IsStepOf r depends_on (build_step u stable_hash r c depends_on q.input_artifacts)
  unfolding build_step
  build_step-IsStepOf r c depends_on e = record {
    method = e;
    after = refl;
    id = ap (step_id_of u r) e;
    kind = ap (step_type r.action_type) e;
    hashed = ap (config_hash_of u stable_hash r) e;
    key = refl;
    policy = refl;
    inputs = refl;
    scope = refl;
  }

  pub IsChain-IsLinked :
      (depends_on : List Text) (rs : List MethodRecommendation) (ss : List ActionPlanStep)
      → IsChain depends_on rs ss
      → IsLinked depends_on rs ss
  IsChain-IsLinked depends_on [] [] chain = tt
  IsChain-IsLinked depends_on [] (s ∷ ss) chain = absurd chain
  IsChain-IsLinked depends_on (r ∷ rs) [] chain = absurd chain
  IsChain-IsLinked depends_on (r ∷ rs) (s ∷ ss) ((c, may, e), chain) = (
    subst (IsStepOf r depends_on) (sym e)
        (build_step-IsStepOf r c depends_on (candidate-method_id r (chosen r) c may)),
    IsChain-IsLinked (s.step_id ∷ []) rs ss chain,
  )
