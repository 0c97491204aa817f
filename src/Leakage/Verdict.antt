-- ===== src/Leakage/Verdict.antt =====
-- What the report of app/plugins/tabular/leakage_checks.py says of the rows and the profile.
use dataforge_ai_ml_service.Prelude.{
  either_iff, ℕ, Bool, true, false, not, ◌&&◌, ◌||◌, Option, none, some, List, [], ◌∷◌, map, keep,
  any, ◌≤◌, nat_eq, list_eq, option_eq, string_eq, ◌==◌, ok, ◌≡◌, ◌↔◌, ◌⊎◌, refl, sym, ◌∙◌, arith,
  Bool-cases, inl, inr, is_empty, is_empty-keep,
}
use mathlib.Core.Path.{subst, ap₂}
use dataforge_ai_ml_service.Prelude.Dict.{Dict}
use dataforge_ai_ml_service.Prelude.Texts.{Text}
use dataforge_ai_ml_service.Validation.RuleModel.{Row}
use dataforge_ai_ml_service.Leakage.Model.{
  LeakageCheckType, LeakageCheckSeverity, LeakageCheckResult, LeakageCrossSplitFinding,
  SplitLeakageReport, SplitManifest, LeakageCandidate, Profile, is_failed, is_blocker, info,
  warning, blocker,
}
use dataforge_ai_ml_service.Leakage.Checks.{
  or_empty, collect, crossings, finding_of, quiet, crossing_result, exact_hash_check, value_in,
  group_key_check, is_confirmed, judged, target_leakage_candidate_check, is_blocking, score_of,
  greater, leakage_risk_score, report_of, index_assignments, run_split_leakage_checks,
}
use dataforge_ai_ml_service.Leakage.Crossing.{Crosses, crossings_iff}
use dataforge_ai_ml_service.Leakage.Table.{Table, rows_of, row_signature}
use dataforge_ai_ml_service.Leakage.Duplicates.{
  ContentCrosses, IsCollisionFree, ContentCrosses-Crosses,
}
use dataforge_ai_ml_service.Leakage.Acceptance.{report_on, run_split_leakage_checks-CanCheck}
use dataforge_ai_ml_service.Json.{Json}

-- What a check blocks.
record Blocks (c : LeakageCheckResult) (evaluation training : Bool) : Type 0 where
  blocking : is_blocking c ≡ (evaluation || training)
  evaluations : (is_blocking c && (c.block_action == some "BLOCK_MODEL_EVALUATION")) ≡ evaluation
  trainings : (is_blocking c && (c.block_action == some "BLOCK_TRAINING")) ≡ training

crossing_result-Blocks :
    (t : LeakageCheckType) (reason : _) (columns groups : List Text)
    (fs : List LeakageCrossSplitFinding)
    → Blocks (crossing_result t reason columns groups fs) (not (is_empty fs)) false
crossing_result-Blocks t reason columns groups [] = record {
  blocking = refl;
  evaluations = refl;
  trainings = refl;
}
crossing_result-Blocks t reason columns groups (f ∷ fs) = record {
  blocking = refl;
  evaluations = refl;
  trainings = refl;
}

judged-Blocks :
    (splits : List Text) (bs ws : List LeakageCandidate)
    → Blocks (judged splits bs ws) false (not (is_empty bs))
judged-Blocks splits [] [] = record { blocking = refl; evaluations = refl; trainings = refl }
judged-Blocks splits [] (w ∷ ws) = record { blocking = refl; evaluations = refl; trainings = refl }
judged-Blocks splits (b ∷ bs) ws = record { blocking = refl; evaluations = refl; trainings = refl }

pub is_empty-map : {A B : Type 0} (f : A → B) (xs : List A) → is_empty (map f xs) ≡ is_empty xs
is_empty-map f [] = refl
is_empty-map f (x ∷ xs) = refl

score_of_small : (s : LeakageCheckSeverity) → is_blocker s ≡ false → score_of s ≤ 2
score_of_small info h = omega arith
score_of_small warning h = omega arith
score_of_small blocker h = cc h

-- The score of some checks is at its greatest with a blocker, and at most half of that without.
abbrev IsScore : Bool → ℕ → Type 0
IsScore blocked score = (blocked ≡ true → score ≡ 4) × (blocked ≡ false → score ≤ 2)

leakage_risk_score-IsScore :
    (cs : List LeakageCheckResult) (score : ℕ)
    → score ≤ 2
    → IsScore (any is_blocking cs) (leakage_risk_score score cs)
unfolding leakage_risk_score
leakage_risk_score-IsScore [] score h = (λ e. cc e, λ e. h)
leakage_risk_score-IsScore (c ∷ cs) score h = elim (Bool-cases (is_failed c.status)) [
  | inr quiet ↦ rw quiet (leakage_risk_score-IsScore cs score h)
  | inl fails ↦ elim (Bool-cases (is_blocker c.severity)) [
    | inl blocks ↦ (λ e. ground arith, λ e. ground arith)
    | inr mild ↦
        rw (fails, mild)
          (leakage_risk_score-IsScore cs (greater score (score_of c.severity))
            (ground (arith, score_of_small c.severity mild)))
  ]
]

abbrev pub index_of : SplitManifest → Dict Text Text
index_of manifest = index_assignments [] manifest.assignments

-- Two rows of one value of the group key in different splits
abbrev pub GroupCrosses : Option Text → Dict Text Text → List Row → Type 0
GroupCrosses none assignments rows = ⊥
GroupCrosses (some column) assignments rows = Crosses (value_in column) assignments rows

abbrev pub candidates_of : Option Profile → List LeakageCandidate
candidates_of none = []
candidates_of (some profile) = or_empty profile.candidates

module _ (key_of : Row → Option Text) (assignments : Dict Text Text) (rows : List Row)
    (column : Option Text) (group_value : Text → Option Text) where
  findings_iff :
      (not (
          is_empty
            (map (finding_of column group_value) (crossings (collect key_of assignments [] rows))))
        ≡ true)
      ↔ Crosses key_of assignments rows
  findings_iff =
      let found = crossings (collect key_of assignments [] rows) in
      let (sound, complete) = crossings_iff key_of assignments rows in
      (
        λ h. sound (ground (arith, is_empty-map (finding_of column group_value) found)),
        λ c. ground (arith, is_empty-map (finding_of column group_value) found, complete c),
      )

-- A check that blocks the evaluation of models alone, exactly under a condition
record BlocksEvaluation (c : LeakageCheckResult) (When : Type 0) : Type 0 where
  blocked : Bool
  blocks : Blocks c blocked false
  reason : (blocked ≡ true) ↔ When

exact_hash_check-BlocksEvaluation :
    (digest : Json → Text) (row_id : ℕ → Text) (table : Table) (assignments : Dict Text Text)
    → IsCollisionFree digest (rows_of row_id table)
    → BlocksEvaluation
        (exact_hash_check digest (rows_of row_id table) assignments)
        (ContentCrosses assignments (rows_of row_id table))
unfolding exact_hash_check
exact_hash_check-BlocksEvaluation digest row_id table assignments free =
    let rows = rows_of row_id table in
    let key_of : Row → Option Text = λ row. some (row_signature digest row) in
    let found = findings_iff key_of assignments rows none (λ key. none) in
    let crossed = ContentCrosses-Crosses digest row_id table assignments free in
    record {
      blocked = _;
      blocks = crossing_result-Blocks _ _ _ _ _;
      reason = (λ h. crossed.0 (found.0 h), λ c. found.1 (crossed.1 c));
    }

group_key_check-BlocksEvaluation :
    (rows : List Row) (assignments : Dict Text Text) (key : Option Text)
    → BlocksEvaluation (group_key_check rows assignments key) (GroupCrosses key assignments rows)
unfolding group_key_check
group_key_check-BlocksEvaluation rows assignments none = record {
  blocked = false;
  blocks = record { blocking = refl; evaluations = refl; trainings = refl };
  reason = (λ e. cc e, λ x. elim x [ ]);
}
group_key_check-BlocksEvaluation rows assignments (some column) = record {
  blocked = _;
  blocks = crossing_result-Blocks _ _ _ _ _;
  reason = findings_iff (value_in column) assignments rows (some column) some;
}

target_leakage_candidate_check-Blocks :
    (profile : Option Profile) (manifest : SplitManifest)
    → Blocks
        (target_leakage_candidate_check profile manifest)
        false
        (any is_confirmed (candidates_of profile))
unfolding target_leakage_candidate_check
target_leakage_candidate_check-Blocks none manifest = record {
  blocking = refl;
  evaluations = refl;
  trainings = refl;
}
target_leakage_candidate_check-Blocks (some profile) manifest =
    let candidates = or_empty profile.candidates in
    let same : not (is_empty (keep is_confirmed candidates)) ≡ any is_confirmed candidates =
      ground (arith, is_empty-keep is_confirmed candidates) in
    subst (Blocks _ false) same
      (judged-Blocks _ (keep is_confirmed candidates) (keep (λ c. not (is_confirmed c)) candidates))

-- What a report says of the rows, the manifest and the profile.
pub record IsVerdict (profile : Option Profile) (manifest : SplitManifest) (rows : List Row)
    (r : SplitLeakageReport) : Type 0 where
  pub evaluation : (r.block_model_evaluation ≡ true) ↔ (
      ContentCrosses (index_of manifest) rows
      ⊎ GroupCrosses manifest.group_key (index_of manifest) rows)
  pub training : r.block_training ≡ any is_confirmed (candidates_of profile)
  pub detected : r.leakage_detected ≡ (r.block_model_evaluation || r.block_training)
  pub score : (r.leakage_risk_score ≡ 4) ↔ (r.leakage_detected ≡ true)

score-detected : (b : Bool) (n : ℕ) → IsScore b n → (n ≡ 4) ↔ (b ≡ true)
score-detected true n h = (λ e. refl, λ e. h.0 refl)
score-detected false n h = (λ e. ground (arith, h.1 refl), λ e. cc e)

-- What a report on three checks says, by what each of them blocks
report_of-Blocks :
    (c d e : LeakageCheckResult) (a b t : Bool)
    → Blocks c a false
    → Blocks d b false
    → Blocks e false t
    → ((report_of (c ∷ d ∷ e ∷ [])).block_model_evaluation ≡ (a || b))
      × ((report_of (c ∷ d ∷ e ∷ [])).block_training ≡ t)
      × ((report_of (c ∷ d ∷ e ∷ [])).leakage_detected ≡ ((a || b) || t))
unfolding report_of
report_of-Blocks c d e a b t x y z = (
  rw (x.evaluations, y.evaluations, z.evaluations) (ground arith),
  rw (x.trainings, y.trainings, z.trainings) (ground arith),
  rw (x.blocking, y.blocking, z.blocking) (ground arith),
)

report_on-IsVerdict :
    (digest : Json → Text) (row_id : ℕ → Text) (profile : Option Profile) (manifest : SplitManifest)
    (table : Table)
    → IsCollisionFree digest (rows_of row_id table)
    → IsVerdict profile manifest
        (rows_of row_id table)
        (report_on digest row_id profile manifest table (rows_of row_id table))
unfolding report_of
report_on-IsVerdict digest row_id profile manifest table free =
    let rows = rows_of row_id table in
    let checks =
      exact_hash_check digest rows (index_of manifest)
      ∷ group_key_check rows (index_of manifest) manifest.group_key
      ∷ target_leakage_candidate_check profile manifest
      ∷ [] in
    let exact = exact_hash_check-BlocksEvaluation digest row_id table (index_of manifest) free in
    let group = group_key_check-BlocksEvaluation rows (index_of manifest) manifest.group_key in
    let target = target_leakage_candidate_check-Blocks profile manifest in
    let (evaluations, trainings, all) =
      report_of-Blocks _ _ _ exact.blocked group.blocked _ exact.blocks group.blocks target in
    record {
      evaluation =
          subst
            (λ b. (b ≡ true) ↔ (
              ContentCrosses (index_of manifest) rows
              ⊎ GroupCrosses manifest.group_key (index_of manifest) rows))
            (sym evaluations) (either_iff exact.reason group.reason);
      training = trainings;
      detected = all ∙ sym (ap₂ (λ a b. a || b) evaluations trainings);
      score = score-detected _ _ (leakage_risk_score-IsScore checks 0 (omega arith));
    }

-- A report that is made blocks model evaluation exactly if two rows with the same value in every
-- column but the one of the ids, or two rows of one value of the group key, are assigned to
-- different splits; given that the digest does not collide on the contents of the rows. It blocks
-- training exactly if a candidate has a confirmed match; it detects leakage exactly if it blocks
-- one of them, and has the full score then alone.
pub run_split_leakage_checks-IsVerdict :
    (digest : Json → Text) (row_id : ℕ → Text) (profile : Option Profile) (manifest : SplitManifest)
    (table : Table) (r : SplitLeakageReport)
    → IsCollisionFree digest (rows_of row_id table)
    → run_split_leakage_checks digest row_id profile manifest table ≡ ok r
    → IsVerdict profile manifest (rows_of row_id table) r
run_split_leakage_checks-IsVerdict digest row_id profile manifest table r free h =
    subst (IsVerdict profile manifest (rows_of row_id table))
      (run_split_leakage_checks-CanCheck digest row_id profile manifest table r h).1
      (report_on-IsVerdict digest row_id profile manifest table free)
