-- ===== src/Validation/Samples.antt =====
-- Numbers, a storage and a request for the runs of app/plugins/validation/gates.py.
use dataforge_ai_ml_service.Prelude.{
  keep, ℕ, ◌+◌, ◌-◌, ◌*◌, Bool, true, false, ◌&&◌, Option, none, some, List, [], ◌∷◌, ◌++◌,
  if◌then◌else◌, ltb, leb, nat_eq, list_eq, ◌==◌, unique_from, ok, ◌≡◌, refl,
}
use dataforge_ai_ml_service.Prelude.Dict
use dataforge_ai_ml_service.Prelude.Sorting.{sorted, insert}
use dataforge_ai_ml_service.Prelude.Texts.{Text, codes, has}
use dataforge_ai_ml_service.Json.{Json, obj, field, str}
use dataforge_ai_ml_service.Validation.Numbers.{Numbers}
use dataforge_ai_ml_service.Validation.RuleModel.{BusinessRule, critical, gte, number}
use dataforge_ai_ml_service.Validation.Rules.{
  check_value, evaluate_checks, business_rule_evaluator, observe_rules, observe_row, build_report,
}
use dataforge_ai_ml_service.Validation.Rules.Counting.{observe_rows}
use dataforge_ai_ml_service.Validation.Gates
use dataforge_ai_ml_service.Validation.Gates.{validation_failed}
use dataforge_ai_ml_service.Validation.Gates.Csv.{Storage, read_csv, rows_from}
use dataforge_ai_ml_service.Validation.Gates.Checks.{
  schema_gate, business_rules_gate, privacy_gate, split_leakage_gate,
  raw_artifact_immutability_gate,
}
use dataforge_ai_ml_service.Validation.Gates.Distances.{
  row_vector, euclidean, nearest_from, compute_dcr,
}
use dataforge_ai_ml_service.Validation.Gates.Synthetic.{
  split_real_and_synthetic_rows, resolve_dcr_reference_rows, signature_payload,
  synthetic_exact_duplicate_gate, dcr_gate, synthetic_nearest_neighbor_privacy_gate,
}
use dataforge_ai_ml_service.Validation.Gates.Report.{
  gate_is_blocking, RunValidationGatesRequest, ValidationGatesReport, overall_status_of, report_of,
  run_validation_gates,
}

abbrev pub digit : Text → Option ℕ
digit (c ∷ []) = if leb 48 c && leb c 57 then some (c - 48) else none
digit _ = none

-- Numbers of one digit.
abbrev pub digits : Numbers ℕ ℕ
digits = record {
  to_float = λ k. k;
  show = λ k. (48 + k) ∷ [];
  show_tuple = λ ts. codes "()";
  parse = digit;
  le = leb;
  lt = ltb;
  is_inf = λ k. k == 1000;
  zero = 0;
  infinity = 1000;
  add = λ a b. a + b;
  sub = λ a b. a - b + (b - a);
  mul = λ a b. a * b;
  sqrt = λ k. k;
  collision = 0;
}

abbrev pub at_least : ℕ → BusinessRule ℕ
at_least k = record {
  rule_id = codes "r";
  description = none;
  severity = critical;
  columns = codes "income" ∷ [];
  checks = record { field = codes "income"; op = gte; value = number k } ∷ [];
  allow_missing = false;
  message = none;
}

abbrev pub raw_row : Text → Text → Text → Dict.Dict Text (Option Text)
raw_row id income synthetic =
    (codes "object_id", some id)
    ∷ (codes "income", some income)
    ∷ (codes "is_synthetic", some synthetic)
    ∷ []

-- The source has one row, and the candidate that row and one that was made up.
abbrev pub table : List ℕ → List Text × List (Dict.Dict Text (Option Text))
table bytes = (
  codes "object_id" ∷ codes "income" ∷ codes "is_synthetic" ∷ [],
  raw_row (codes "a") (codes "5") (codes "0")
      ∷ (if bytes == 1 ∷ [] then raw_row [] (codes "8") (codes "1") ∷ [] else []),
)

abbrev pub stored : Text → Option (List ℕ)
stored uri = if uri == codes "candidate" then some (1 ∷ []) else some (2 ∷ [])

abbrev pub storage : Storage
storage = record {
  get = stored;
  dict_reader = table;
  sha256 = λ bytes. bytes;
  row_name = λ k. codes "row_" ++ (48 + k) ∷ [];
}

abbrev pub payload_text : Json → Text
payload_text (obj (field k (str t) fs)) = k ++ t
payload_text _ = []

abbrev pub at_sign : List (Text × (Text → Bool))
at_sign = (codes "email", λ t. has t (codes "@")) ∷ []

abbrev pub request : ℕ → Text → RunValidationGatesRequest ℕ ℕ
request least source_hash = record {
  candidate_artifact = record { uri = codes "candidate"; hash = [] };
  source_artifact = record { uri = codes "source"; hash = source_hash };
  schema_columns = codes "income" ∷ [];
  numeric_columns = codes "income" ∷ [];
  business_rules = at_least least ∷ [];
  rules_version = codes "v";
  rules_config_hash = none;
  pii_restricted = true;
  split_leakage_report = none;
  synthetic_feature_columns = some (codes "income" ∷ []);
  dcr_thresholds = record { nearest_neighbor_epsilon = 1; minimum_dcr_threshold = 2 };
}

abbrev pub hash_rules : List (BusinessRule ℕ) → Text
hash_rules rules = codes "h"

pub run_ok :
    (r : ValidationGatesReport) × (run_validation_gates digits storage payload_text hash_rules
        at_sign
        (request 1 (2 ∷ []))
      ≡ ok r)
    × (r.candidate_status ≡ Gates.ok)
    × (keep gate_is_blocking r.gates ≡ [])
    × (r.blocker_present ≡ false)
    × (r.block_export ≡ false)
    × (r.raw_artifact_unchanged ≡ true)
unfolding run_validation_gates read_csv rows_from schema_gate business_rules_gate privacy_gate
    split_leakage_gate raw_artifact_immutability_gate split_real_and_synthetic_rows
    resolve_dcr_reference_rows synthetic_exact_duplicate_gate dcr_gate
    synthetic_nearest_neighbor_privacy_gate compute_dcr row_vector nearest_from euclidean
    signature_payload report_of overall_status_of business_rule_evaluator observe_rows observe_row
    observe_rules evaluate_checks check_value build_report sorted insert unique_from has Dict.get
    Dict.put
run_ok = (_, refl, refl, refl, refl, refl, refl)
