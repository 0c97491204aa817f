-- ===== src/ErrorCode.antt =====
-- The stable error taxonomy of app/domain/errors.py.

pub data ErrorCode : Type 0 where
  invalid_job_payload unsupported_modality artifact_not_found artifact_out_of_scope : ErrorCode
  invalid_archive_structure archive_safety_violation policy_blocked pii_restricted : ErrorCode
  leakage_detected contract_validation_failed prediction_validation_failed : ErrorCode
  plugin_not_enabled plugin_contract_failed plugin_execution_failed dagster_run_failed : ErrorCode
  action_plan_requires_approval action_plan_signature_invalid : ErrorCode
  action_plan_precondition_failed validation_gate_failed model_impact_not_eligible : ErrorCode
  export_blocked tenant_scope_violation external_api_blocked resource_limit_exceeded : ErrorCode
