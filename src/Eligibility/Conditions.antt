-- ===== src/Eligibility/Conditions.antt =====
-- When app/kernel/model_impact_eligibility.py finds a candidate eligible, and what its report says
-- then.
use dataforge_ai_ml_service.Prelude.{
  ℕ, Bool, true, false, not, ◌&&◌, Option, none, some, length, ordered_unique, leb, string_eq,
  nat_eq, list_eq, ◌≤◌, ◌≡◌, ◌↔◌, inl, inr, refl, sym, ◌∙◌, arith, Option-cases,
}
use dataforge_ai_ml_service.Prelude.Texts.{Text}
use dataforge_ai_ml_service.Eligibility.Model.{
  ModelImpactTaskType, supervised_tabular_classification, supervised_tabular_regression, input_eq,
  code_eq, Ref, SplitManifest, LeakageReport,
}
use dataforge_ai_ml_service.Eligibility.Stats.{
  resolve_target_column, has_target_missing_values, has_assignments, splits_in, has_valid_split,
  has_leakage_blocker,
}
use dataforge_ai_ml_service.Eligibility.Check.{
  CheckModelImpactEligibilityRequest, Findings, nothing_found, check_task, check_target,
  check_samples, check_splits, check_leakage, is_some, total_of, rare_count_of, findings_of,
  is_eligible, FallbackReadinessReport, ModelImpactEligibilityReport,
  check_model_impact_eligibility,
}

abbrev pub is_classification : ModelImpactTaskType → Bool
is_classification supervised_tabular_classification = true
is_classification supervised_tabular_regression = false

-- The tests that the findings rest on.
pub record Tests : Type 0 where
  pub there : Bool
  pub has_missing : Bool
  pub enough_labeled : Bool
  pub enough_rare : Bool
  pub valid : Bool
  pub has_some : Bool
  pub blocked : Bool

abbrev pub tests_of : CheckModelImpactEligibilityRequest → Tests
tests_of q = record {
  there = is_some (resolve_target_column q.tabular_profile q.split_manifest);
  has_missing = has_target_missing_values q.tabular_profile;
  enough_labeled = leb q.minimum_labeled_samples (total_of q);
  enough_rare = leb q.minimum_rare_class_samples (rare_count_of q);
  valid = has_valid_split q.split_manifest q.minimum_splits;
  has_some = is_some q.split_manifest;
  blocked = has_leakage_blocker q.split_leakage_report;
}

-- The findings, from these tests.
abbrev pub found : ModelImpactTaskType → Tests → Findings
found task t = check_leakage t.blocked (
    check_splits t.valid t.has_some (
      check_samples t.enough_labeled t.enough_rare
        (check_target t.there t.has_missing (check_task task nothing_found))))

found-eligible :
    (task : ModelImpactTaskType) (t : Tests)
    → is_eligible (found task t) ≡ (
        is_classification task
        && t.there
        && not t.has_missing
        && t.enough_labeled
        && t.enough_rare
        && t.valid
        && not t.blocked)
unfolding is_eligible
found-eligible task t = ground arith

-- What has to hold of a candidate.
pub record MeetsConditions (q : CheckModelImpactEligibilityRequest) : Type 0 where
  pub supported : q.task_type ≡ supervised_tabular_classification
  pub target : Text
  pub has_target : resolve_target_column q.tabular_profile q.split_manifest ≡ some target
  pub complete : has_target_missing_values q.tabular_profile ≡ false
  pub labeled : q.minimum_labeled_samples ≤ total_of q
  pub rare : q.minimum_rare_class_samples ≤ rare_count_of q
  pub manifest : SplitManifest
  pub has_manifest : q.split_manifest ≡ some manifest
  pub assigned : has_assignments manifest.assignments ≡ true
  pub enough_splits : q.minimum_splits ≤ length (ordered_unique (splits_in manifest))
  pub no_leakage :
      (r : LeakageReport)
      → q.split_leakage_report ≡ some r
      → (r.leakage_detected ≡ false)
        × (r.block_training ≡ false)
        × (r.block_model_evaluation ≡ false)

some_found : {A : Type 0} (o : Option A) → is_some o ≡ true → (a : A) × (o ≡ some a)
some_found none h = cc h
some_found (some a) h = (a, refl)

valid_split_found :
    (m : Option SplitManifest) (minimum : ℕ)
    → has_valid_split m minimum ≡ true
    → (manifest : SplitManifest) × (m ≡ some manifest)
      × (has_assignments manifest.assignments ≡ true)
      × (minimum ≤ length (ordered_unique (splits_in manifest)))
unfolding has_valid_split
valid_split_found none minimum h = cc h
valid_split_found (some m) minimum h = (m, refl, ground arith, ground arith)

module _ (save_artifact : FallbackReadinessReport → Ref)
    (q : CheckModelImpactEligibilityRequest) where
  abbrev report : ModelImpactEligibilityReport
  report = check_model_impact_eligibility save_artifact q

  eligible-MeetsConditions : report.eligible ≡ true → MeetsConditions q
  unfolding check_model_impact_eligibility findings_of has_leakage_blocker
  eligible-MeetsConditions h =
      let rule = found-eligible q.task_type (tests_of q) in
      let all_hold = sym rule ∙ h in
      let (target, has_target) =
        some_found (resolve_target_column q.tabular_profile q.split_manifest) (ground arith) in
      let (manifest, has_manifest, assigned, enough) =
        valid_split_found q.split_manifest q.minimum_splits (ground arith) in
      record {
        supported = ground arith;
        target = target;
        has_target = has_target;
        complete = ground arith;
        labeled = ground arith;
        rare = ground arith;
        manifest = manifest;
        has_manifest = has_manifest;
        assigned = assigned;
        enough_splits = enough;
        no_leakage = λ r e. (ground arith, ground arith, ground arith);
      }

  MeetsConditions-eligible : MeetsConditions q → report.eligible ≡ true
  unfolding check_model_impact_eligibility findings_of has_leakage_blocker has_valid_split
  MeetsConditions-eligible x =
      let rule = found-eligible q.task_type (tests_of q) in
      let valid : has_valid_split q.split_manifest q.minimum_splits ≡ true =
        ground (arith, x.has_manifest, x.assigned, x.enough_splits) in
      let unblocked : has_leakage_blocker q.split_leakage_report ≡ false =
        elim (Option-cases q.split_leakage_report) [
          | inl absent ↦ ground arith
          | inr (r, there) ↦ (let (a, b, c) = x.no_leakage r there in ground arith)
        ] in
      ground (arith, x.supported, x.has_target, x.complete, x.labeled, x.rare)

  -- A candidate is eligible exactly if the task is a classification, a target column is known and
  -- complete, there are enough labelled samples and enough of the rare class, a split manifest with
  -- assignments has enough distinct splits, and no leakage report that was given detects or blocks
  -- anything.
  pub check_model_impact_eligibility_iff : (report.eligible ≡ true) ↔ MeetsConditions q
  check_model_impact_eligibility_iff = (eligible-MeetsConditions, MeetsConditions-eligible)
