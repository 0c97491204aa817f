-- ===== src/Validation/Tests.antt =====
-- Runs of app/plugins/validation/gates.py and app/plugins/tabular/rules.py, and the theorems about
-- them at concrete inputs.
use dataforge_ai_ml_service.Prelude.{
  ℕ, true, false, none, some, List, [], ◌∷◌, nat_eq, list_eq, unique_from, ok, raise, ◌≡◌, refl,
}
use dataforge_ai_ml_service.Prelude.Dict
use dataforge_ai_ml_service.Prelude.Sorting.{sorted, insert}
use dataforge_ai_ml_service.Prelude.Texts.{codes, has}
use dataforge_ai_ml_service.Validation.RuleModel.{Row, is_in, text, wants_list}
use dataforge_ai_ml_service.Validation.Rules.{
  check_value, evaluate_checks, business_rule_evaluator, observe_rules, observe_row, build_report,
}
use dataforge_ai_ml_service.Validation.Rules.Counting.{observe_rows}
use dataforge_ai_ml_service.Validation.Gates.{validation_failed}
use dataforge_ai_ml_service.Validation.Gates.Csv.{read_csv, rows_from}
use dataforge_ai_ml_service.Validation.Gates.Checks.{
  schema_gate, business_rules_gate, privacy_gate, split_leakage_gate,
  raw_artifact_immutability_gate,
}
use dataforge_ai_ml_service.Validation.Gates.Synthetic.{split_real_and_synthetic_rows}
use dataforge_ai_ml_service.Validation.Gates.Report.{
  RunValidationGatesRequest, ValidationGatesReport, overall_status_of, report_of,
  run_validation_gates,
}
use dataforge_ai_ml_service.Validation.Gates.Verdict.{HasVerdict, run_validation_gates-HasVerdict}
use dataforge_ai_ml_service.Validation.Gates.Flags.{
  trains_not, evaluates_not, run_validation_gates-learning,
}
use dataforge_ai_ml_service.Validation.Gates.Acceptance.{IsInOrder, run_validation_gates-IsInOrder}
use dataforge_ai_ml_service.Validation.Samples.{
  digits, storage, payload_text, at_sign, request, hash_rules, run_ok,
}

run_validation_gates-IsInOrder_example :
    IsInOrder digits storage payload_text hash_rules at_sign (request 1 (2 ∷ []))
run_validation_gates-IsInOrder_example =
    run_validation_gates-IsInOrder digits storage payload_text hash_rules at_sign
      (request 1 (2 ∷ [])) run_ok.0 run_ok.1 run_ok.2

-- The source is another than the one that the request names, and both blocks are asked for.
abbrev leaking : RunValidationGatesRequest ℕ ℕ
leaking = record (request 6 (3 ∷ [])) {
  synthetic_feature_columns = none;
  split_leakage_report = some (record {
    leakage_detected = true;
    block_training = true;
    block_model_evaluation = true;
    findings_counts = 2 ∷ 1 ∷ [];
  });
}

run_blocked :
    (r : ValidationGatesReport) × (run_validation_gates digits storage payload_text hash_rules
        at_sign leaking
      ≡ ok r)
    × (r.candidate_status ≡ validation_failed)
    × (r.block_training ≡ true)
    × (r.block_model_evaluation ≡ false)
unfolding run_validation_gates read_csv rows_from schema_gate business_rules_gate privacy_gate
    split_leakage_gate raw_artifact_immutability_gate split_real_and_synthetic_rows report_of
    overall_status_of business_rule_evaluator observe_rows observe_row observe_rules evaluate_checks
    check_value build_report sorted insert unique_from has Dict.get Dict.put
run_blocked = (_, refl, refl, refl, refl)

run_validation_gates-HasVerdict_example :
    HasVerdict run_blocked.0
    × (run_blocked.0.raw_artifact_unchanged ≡ false
        → run_blocked.0.candidate_status ≡ validation_failed)
run_validation_gates-HasVerdict_example =
    run_validation_gates-HasVerdict digits storage payload_text hash_rules at_sign leaking
      run_blocked.0 run_blocked.1

run_validation_gates-learning_example :
    (run_blocked.0.block_training ≡ trains_not leaking.split_leakage_report)
    × (run_blocked.0.block_model_evaluation ≡ evaluates_not leaking.split_leakage_report)
run_validation_gates-learning_example =
    run_validation_gates-learning digits storage payload_text hash_rules at_sign leaking
      run_blocked.0 run_blocked.1

abbrev rows : List Row
rows =
    ((codes "object_id", codes "a") ∷ (codes "income", codes "5") ∷ [])
    ∷ ((codes "object_id", codes "b") ∷ (codes "income", codes "7") ∷ [])
    ∷ ((codes "object_id", codes "c") ∷ [])
    ∷ []

no_list_for_in :
    check_value digits
      (codes "a")
      (record { field = codes "income"; op = is_in; value = text (codes "a") })
    ≡ raise (wants_list is_in)
unfolding check_value
no_list_for_in = refl
