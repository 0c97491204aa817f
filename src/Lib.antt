-- ===== src/Lib.antt =====
-- DataForge AI ML service: the compute plane that checks archives, plans and validates changes of
-- datasets, and runs them as cancellable jobs.
--
-- This library models the parts of the service that decide, and proves what they promise. Each
-- component is a module with the state and the operations of the code, and child modules for
-- proofs.
--
-- - Cancellation (app/orchestration/cancellation.py): Reasons has the failure reasons,
--   RetryMetadata and classify_failure; Registry has CancellationToken and CancellationRegistry, with
--   the tokens on a heap since the platform, the launcher and the registry share them.
--   Registry/Invariant, View and Interleavings have the invariant, the view of one job, and sequences
--   of locked sections.
-- - Archive (app/ingestion/archive_safety.py): Paths has _validate_entry_path with
--   posixpath.normpath, Entries has the checks on entries and streams; Paths/Containment compares
--   normpath with a walk through directories, and Entries/Bounds has what accepted archives are like.
-- - Plugins (app/plugin_sdk/manifest.py): Manifest has the manifests and their validator, Registry
--   has CapabilityRegistry, whose methods PluginManager calls.
-- - ActionPlan (app/kernel/action_plan.py, with the contracts of app/domain/decision.py): Steps has
--   _build_step, Preview build_action_plan_preview, Execution validate_action_plan_execution;
--   RoundTrip joins the two.
-- - Idempotency (app/kernel/idempotency.py): the payloads and keys of analyze and apply runs.
-- - Validation: RuleModel and Rules have BusinessRuleEvaluator (app/plugins/tabular/rules.py);
--   Gates has run_validation_gates (app/plugins/validation/gates.py, with
--   app/domain/validation_gates.py). The business rules gate runs the evaluator over the rows of the
--   candidate.
-- - Eligibility (app/kernel/model_impact_eligibility.py, with app/domain/model_impact.py): Stats
--   has what is gathered, Check check_model_impact_eligibility.
-- - Splits (app/plugins/tabular/splits.py): Rows has _resolve_group_key and _to_tabular_rows,
--   Groups _groups and the order of the groups, Targets _rebalance_targets, Assign _best_split and
--   _assign_splits, Distribution _class_distribution; Integrity and Success have what comes of an
--   assignment and when there is one.
-- - Leakage (app/plugins/tabular/leakage_checks.py, with app/domain/leakage.py): Table has
--   _read_rows and _row_signature, Checks the three checks and run_split_leakage_checks, Crossing
--   when a key is found in two splits, Content and Duplicates when a content is, Ids which
--   assignments are of a row, Acceptance when there is a report and Verdict what it says; Reading
--   and Splitter join the checks with the splitter.
-- - Release (app/kernel/candidate_version.py, app/kernel/export_package.py): Version has the
--   records, Candidate build_candidate_dataset_version, Gates the gates of a package, Export
--   build_export_package and the final refs of app/orchestration/apply_runtime.py; Stops, Ready and
--   Package say when a package is ready and what it holds, Chain joins the gates' report, the
--   candidate and the package.
-- - Runs (app/orchestration/status_bridge.py, analyze_workflow.py and apply_workflow.py beside it,
--   and the job endpoints of app/api/main.py with app/api/store.py): Events has the events of the
--   bridge, Launch the two launchers, Store the store, Endpoints the endpoints. A launcher changes
--   the events and the cancellation registry; what materialize does is a parameter, namely which
--   assets emit, which locked sections other threads run meanwhile, and the outcome. Endings,
--   Closings, Surfacing, Answer and Publishing have how runs end and what of them is published.
-- - Decision (app/kernel/decision_policy.py, with the signals of app/domain/evidence.py): the hard
--   gates; Score has compute_object_value_score and evaluate_object_decision, Triggers what triggers
--   a gate and Blocking when an object is blocked.
-- - ErrorCode (app/domain/errors.py), Json (the payloads that are hashed) and Prelude (equality,
--   order, sorting, dictionaries, texts, results) are shared.
--
-- Code that raises returns a Result, with what the caller can tell apart of the exception. Texts
-- are lists of code points where the code looks into them, and strings where it only compares them.
-- Loops are structural recursions, so each definition is total; only the two loops of
-- _rebalance_targets run on a count of rounds, which Splits/Targets shows to be enough. Numbers are
-- unbounded as Python's ints are; a file mode is taken from its attribute by division.
--
-- What is not under the repository is a parameter: the digest of a JSON payload (json.dumps and
-- hashlib), pydantic's model_dump, the clock, Unicode's tables for str.lower and str.isalpha, the
-- entries that zipfile yields, the object storage and the CSV reader, the regular expressions for
-- personal data as searches in a text, Python's floats as records of operations
-- (Validation/Numbers, Splits/Assign, Decision), the shuffle of random.Random, and what a run of
-- Dagster's materialize does (Runs/Launch).
--
-- Not modelled are the messages, notes and metrics that only describe a result, the lineage that
-- goes through to a report, the saving of artifacts, and the other components of the service: the
-- profile and the statistics on tables, the recommendations and reports of the decision core, what
-- the assets compute, the other endpoints, reports, telemetry and Dagster's wiring.
pub mod Prelude
pub mod ErrorCode
pub mod Json
pub mod Leakage
pub mod Cancellation
pub mod Archive
pub mod Plugins
pub mod ActionPlan
pub mod Idempotency
pub mod Validation
pub mod Release
pub mod Runs
pub mod Decision
pub mod Eligibility
pub mod Splits
