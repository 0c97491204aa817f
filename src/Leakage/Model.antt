-- ===== src/Leakage/Model.antt =====
-- The contracts of app/domain/leakage.py, and what the checks read of a manifest and a profile.
use dataforge_ai_ml_service.Prelude.{ℕ, Bool, true, false, Option, List, String}
use dataforge_ai_ml_service.Prelude.Texts.{Text}

pub data LeakageCheckType : Type 0 where
  exact_hash group_key target_leakage_candidate : LeakageCheckType

pub data LeakageCheckStatus : Type 0 where
  passed failed not_applicable : LeakageCheckStatus

pub data LeakageCheckSeverity : Type 0 where
  info warning blocker : LeakageCheckSeverity

pub record LeakageCrossSplitFinding : Type 0 where
  pub splits : List Text
  pub object_ids : List Text
  pub group_value : Option Text
  pub column : Option Text

pub record LeakageCheckResult : Type 0 where
  pub check_type : LeakageCheckType
  pub status : LeakageCheckStatus
  pub severity : LeakageCheckSeverity
  pub reason_code : String
  pub block_action : Option String
  pub findings_count : ℕ
  pub affected_object_ids : List Text
  pub affected_groups : List Text
  pub affected_columns : List Text
  pub findings : List LeakageCrossSplitFinding

pub record SplitLeakageReport : Type 0 where
  pub leakage_detected : Bool
  pub leakage_risk_score : ℕ
  pub block_model_evaluation : Bool
  pub block_training : Bool
  pub checks : List LeakageCheckResult

-- A split is kept as the value of its DataSplit.
pub record SplitAssignment : Type 0 where
  pub object_id : Text
  pub split : Text

pub record SplitManifest : Type 0 where
  pub target_column : Text
  pub group_key : Option Text
  pub assignments : List SplitAssignment

pub record LeakageCandidate : Type 0 where
  pub column : Text
  pub reason_code : String

-- The candidates are none where the profile has no leakage diagnostics.
pub record Profile : Type 0 where
  pub candidates : Option (List LeakageCandidate)

-- The reason codes of SplitLeakageCheckError
pub data SplitLeakageCheckError : Type 0 where
  empty_split_manifest empty_tabular_source : SplitLeakageCheckError
  target_column_not_found : Text → SplitLeakageCheckError
  object_ids_missing_in_source : List Text → SplitLeakageCheckError

abbrev pub is_failed : LeakageCheckStatus → Bool
is_failed failed = true
is_failed passed = false
is_failed not_applicable = false

abbrev pub is_blocker : LeakageCheckSeverity → Bool
is_blocker blocker = true
is_blocker warning = false
is_blocker info = false
