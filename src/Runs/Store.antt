-- ===== src/Runs/Store.antt =====
-- The results that app/api/store.py keeps.
use dataforge_ai_ml_service.Prelude.{Bool, Option, List, nat_eq, list_eq}
use dataforge_ai_ml_service.Prelude.Dict
use dataforge_ai_ml_service.Prelude.Dict.{Dict}
use dataforge_ai_ml_service.Prelude.Texts.{Text}
use dataforge_ai_ml_service.ActionPlan.Model.{ActionPlan, WorkflowType}
use dataforge_ai_ml_service.Runs.Events.{ComputeRunStatus}
use dataforge_ai_ml_service.Runs.Launch.{World}
use dataforge_ai_ml_service.Runs.Launch.Analyze.{AnalyzeWorkflowResult}
use dataforge_ai_ml_service.Runs.Launch.Apply.{ApplyWorkflowResult}

-- What a job leaves: the answer of its workflow. A JobResultRecord repeats the fields of it.
pub data JobResult : Type 0 where
  analyzed : AnalyzeWorkflowResult → JobResult
  applied : ApplyWorkflowResult → JobResult

pub record JobResultRecord : Type 0 where
  pub job_id : Text
  pub workflow_type : WorkflowType
  pub status : ComputeRunStatus
  pub status_url : Text
  pub mutates_dataset : Bool
  pub result : JobResult

pub record ActionPlanRecord : Type 0 where
  pub action_plan : ActionPlan
  pub job_id : Text
  pub action_plan_hash : Text
  pub accepted_step_ids : List Text
  pub status_url : Text

pub record ComputeResultStore : Type 0 where
  pub jobs : Dict Text JobResultRecord
  pub action_plans : Dict Text ActionPlanRecord

-- The state of the application that the endpoints share
pub record Service : Type 0 where
  pub world : World
  pub store : ComputeResultStore

-- `ComputeResultStore.record_job`
unfoldable pub record_job : JobResultRecord → ComputeResultStore → ComputeResultStore
record_job r s = record s { jobs = Dict.put s.jobs r.job_id r }

-- `ComputeResultStore.get_job`
unfoldable pub get_job : Text → ComputeResultStore → Option JobResultRecord
get_job id s = Dict.get s.jobs id

-- `ComputeResultStore.record_action_plan`
unfoldable pub record_action_plan : ActionPlanRecord → ComputeResultStore → ComputeResultStore
record_action_plan r s = record s {
  action_plans = Dict.put s.action_plans r.action_plan.action_plan_id r;
}
