-- ===== src/Validation/Gates/Passing.antt =====
-- What the single gates of app/plugins/validation/gates.py have seen where they do not fail.
use mathlib.Core.Path.{subst}
use dataforge_ai_ml_service.Prelude.{
  ℕ, ◌+◌, Bool, true, false, not, ◌&&◌, ◌||◌, Option, none, some, List, [], ◌∷◌, ◌++◌, map, keep,
  any, sum_of, flat_map, member, ordered_unique, member-unique_from, member-keep, ltb, nat_eq,
  list_eq, list_beq_iff, ◌==◌, ok, >>=-eq-ok, ◌≡◌, refl, sym, ap, ◌∙◌, arith, Bool-cases, inl, inr,
  any_mono, is_empty, is_empty-keep,
}
use dataforge_ai_ml_service.Prelude.Sorting.{nat_order, list_order}
use dataforge_ai_ml_service.Prelude.Sorting.Sets.{member-sorted}
use dataforge_ai_ml_service.Prelude.Texts.{Text}
use dataforge_ai_ml_service.Validation.Numbers.{Numbers}
use dataforge_ai_ml_service.Validation.RuleModel.{
  Row, BusinessRule, BusinessRulesReport, cell, is_blank,
}
use dataforge_ai_ml_service.Validation.Rules.{business_rule_evaluator, build_report}
use dataforge_ai_ml_service.Validation.Rules.Counting.{
  observe_rows, violates, breaks, build_report-blockers, counted_in, sum-breaks,
}
use dataforge_ai_ml_service.Validation.Gates.{
  ValidationGateFinding, CandidateValidationGate, is_failed,
}
use dataforge_ai_ml_service.Validation.Gates.Checks.{
  SplitLeakageReport, cell_finding, is_float, missing_columns, non_numeric, numeric_findings,
  schema_gate, rules_verdict, lift_rule_error, sample_limit, business_rules_gate, shows_any,
  pii_findings_in, privacy_gate, split_leakage_gate, source_verdict,
}

abbrev pub fails : CandidateValidationGate → Bool
fails g = is_failed g.status

is_empty-append {ℓ} :
    {A : Type ℓ} (xs ys : List A) → is_empty (xs ++ ys) ≡ (is_empty xs && is_empty ys)
is_empty-append [] ys = refl
is_empty-append (x ∷ xs) ys = refl

module _ {ℓ κ} {A : Type ℓ} {B : Type κ} where
  is_empty-map : (f : A → B) (xs : List A) → is_empty (map f xs) ≡ is_empty xs
  is_empty-map f [] = refl
  is_empty-map f (x ∷ xs) = refl

  is_empty-flat_map :
      (f : B → List A) (xs : List B)
      → is_empty (flat_map f xs) ≡ not (any (λ x. not (is_empty (f x))) xs)
  is_empty-flat_map f [] = refl
  is_empty-flat_map f (x ∷ xs) =
      ground (arith, is_empty-flat_map f xs, is_empty-append (f x) (flat_map f xs))

any_cong {ℓ} :
    {A : Type ℓ} (p q : A → Bool) → ((x : A) → p x ≡ q x) → (xs : List A) → any p xs ≡ any q xs
any_cong p q h [] = refl
any_cong p q h (x ∷ xs) = ground (arith, any_cong p q h xs, h x)

missing-member :
    (declared actual : List Text)
    → is_empty (missing_columns declared actual) ≡ true
    → (c : Text) → member c declared ≡ true
    → member c actual ≡ true
missing-member declared actual h c there =
    let lacking = λ (d : Text). not (member d actual) in
    let none_of : member c (missing_columns declared actual) ≡ false = ground arith in
    ground (
      arith,
      member-sorted c (ordered_unique (keep lacking declared)),
      member-unique_from c [] (keep lacking declared),
      member-keep lacking c declared,
    )

-- The leakage that a report, if there is one, has detected.
abbrev pub leaks : Option SplitLeakageReport → Bool
leaks none = false
leaks (some l) = l.leakage_detected

pub split_leakage_gate-fails :
    (l : Option SplitLeakageReport) → fails (split_leakage_gate l) ≡ leaks l
unfolding split_leakage_gate
split_leakage_gate-fails none = refl
split_leakage_gate-fails (some l) = ground arith

pub source_verdict-passes :
    (sha256 : List ℕ → Text) (hash : Text) (stored : Option (List ℕ))
    → fails (source_verdict sha256 hash stored).0 ≡ false
    → (bytes : List ℕ) × (stored ≡ some bytes) × (sha256 bytes ≡ hash)
source_verdict-passes sha256 hash none h = cc h
source_verdict-passes sha256 hash (some bytes) h =
    let same_iff = list_beq_iff (sha256 bytes) hash in
    elim (Bool-cases (sha256 bytes == hash)) [
      | inl same ↦ (bytes, refl, same_iff.0 same)
      | inr other ↦ ground arith
    ]

-- A cell that the privacy gate objects to.
abbrev pub shows_pii : List (Text × (Text → Bool)) → List Text → Row → Text → Bool
shows_pii patterns numeric row column =
    not (member column numeric)
    && (not (is_blank (cell row column)) && shows_any patterns (cell row column))

any-keep :
    {A : Type 0} (p q : A → Bool) (xs : List A) → any q (keep p xs) ≡ any (λ x. p x && q x) xs
any-keep p q [] = refl
any-keep p q (x ∷ xs) = ground (arith, any-keep p q xs)

pub privacy_gate-passes :
    (patterns : List (Text × (Text → Bool))) (rows : List Row) (columns : List Text)
    (restricted : Bool) (numeric : List Text)
    → fails (privacy_gate patterns rows columns restricted numeric) ≡ false
    → any (λ row. any (shows_pii patterns numeric row) columns) rows ≡ false
unfolding privacy_gate
privacy_gate-passes patterns rows columns restricted numeric h =
    let is_searched = λ (column : Text). not (member column numeric) in
    let shows = λ (row : Row) (column : Text).
      not (is_blank (cell row column)) && shows_any patterns (cell row column) in
    let searched = keep is_searched columns in
    let finds = pii_findings_in patterns searched in
    let each : (row : Row)
        → not (is_empty (finds row)) ≡ any (shows_pii patterns numeric row) columns =
      λ row. ground (
        arith,
        is_empty-map (cell_finding row) (keep (shows row) searched),
        is_empty-keep (shows row) searched,
        any-keep is_searched (shows row) columns,
      ) in
    let same =
      any_cong (λ row. not (is_empty (finds row)))
        (λ row. any (shows_pii patterns numeric row) columns) each rows in
    ground (arith, is_empty-flat_map finds rows, same)

sum_of-map {ℓ} : {A : Type ℓ} (f : A → ℕ) (xs : List A) → sum_of f xs ≡ sum_of (λ k. k) (map f xs)
sum_of-map f [] = refl
sum_of-map f (x ∷ xs) = ap (λ k. f x + k) (sum_of-map f xs)

sum-any {ℓ} :
    {A : Type ℓ} (f : A → ℕ) (xs : List A) → ltb 0 (sum_of f xs) ≡ any (λ x. ltb 0 (f x)) xs
sum-any f [] = refl
sum-any f (x ∷ xs) = ground (arith, sum-any f xs)

any_or {ℓ} :
    {A : Type ℓ} (p q : A → Bool) (xs : List A) → any (λ x. p x || q x) xs ≡ (any p xs || any q xs)
any_or p q [] = refl
any_or p q (x ∷ xs) = ground (arith, any_or p q xs)

any_none {ℓ} : {A : Type ℓ} (xs : List A) → any (λ x. false) xs ≡ false
any_none [] = refl
any_none (x ∷ xs) = any_none xs

any_swap {ℓ κ} :
    {A : Type ℓ} {B : Type κ} (p : A → B → Bool) (xs : List A) (ys : List B)
    → any (λ x. any (p x) ys) xs ≡ any (λ y. any (λ x. p x y) xs) ys
any_swap p [] ys = sym (any_none ys)
any_swap p (x ∷ xs) ys =
    ground (arith, any_swap p xs ys, any_or (p x) (λ y. any (λ z. p z y) xs) ys)

module _ {N F : Type 0} (n : Numbers N F) where
  -- A cell of a numeric column with a text that is no number.
  abbrev pub is_bad_number : Text → Row → Bool
  is_bad_number column row = not (is_blank (cell row column)) && not (is_float n (cell row column))

  numeric-passes :
      (numeric actual : List Text) (rows : List Row)
      → is_empty (numeric_findings n numeric actual rows) ≡ true
      → any (λ column. member column actual && any (is_bad_number column) rows) numeric ≡ false
  numeric-passes numeric actual rows h =
      let present = λ (column : Text). member column actual in
      let finds : Text → List ValidationGateFinding =
        λ column. map (λ row. cell_finding row column) (non_numeric n column rows) in
      let each : (column : Text) → not (is_empty (finds column)) ≡ any (is_bad_number column) rows =
        λ column. ground (
          arith,
          is_empty-map (λ (row : Row). cell_finding row column) (non_numeric n column rows),
          is_empty-keep (is_bad_number column) rows,
        ) in
      ground (
        arith,
        is_empty-flat_map finds (keep present numeric),
        any_cong (λ column. not (is_empty (finds column)))
            (λ column. any (is_bad_number column) rows) each (keep present numeric),
        any-keep present (λ column. any (is_bad_number column) rows) numeric,
      )

  pub schema_gate-passes :
      (declared numeric actual : List Text) (rows : List Row)
      → fails (schema_gate n declared numeric actual rows) ≡ false
      → ((c : Text) → member c declared ≡ true → member c actual ≡ true)
        × (any (λ column. member column actual && any (is_bad_number column) rows) numeric ≡ false)
  unfolding schema_gate
  schema_gate-passes declared numeric actual rows h = (
    missing-member declared actual (ground arith),
    numeric-passes numeric actual rows (ground arith),
  )

  violates-breaks :
      (row : Row) (rules : List (BusinessRule N))
      → any (violates n row) rules ≡ true
      → any (λ r. breaks n rules r.rule_id row) rules ≡ true
  violates-breaks row [] h = cc h
  violates-breaks row (rule ∷ rules) h = ground (
    arith,
    violates-breaks row rules,
    (list_beq_iff rule.rule_id rule.rule_id).1 refl,
    any_mono (λ r. breaks n rules r.rule_id row) (λ r. breaks n (rule ∷ rules) r.rule_id row)
        (λ r b. ground arith) rules,
  )

  -- Where no violation is counted, no row violates a rule.
  no_violations :
      (rules : List (BusinessRule N)) (rows : List Row)
      → sum_of (λ r. sum_of (counted_in n rules r.rule_id) rows) rules ≡ 0
      → any (λ row. any (violates n row) rules) rows ≡ false
  no_violations rules rows h = elim (Bool-cases (any (λ row. any (violates n row) rules) rows)) [
    | inr none_violates ↦ none_violates
    | inl some_violates ↦ ground (
      arith,
      any_mono (λ row. any (violates n row) rules)
          (λ row. any (λ r. breaks n rules r.rule_id row) rules) (λ row. violates-breaks row rules)
          rows some_violates,
      any_swap (λ row r. breaks n rules r.rule_id row) rows rules,
      sum-any (λ r. sum_of (counted_in n rules r.rule_id) rows) rules,
      any_cong (λ r. ltb 0 (sum_of (counted_in n rules r.rule_id) rows))
          (λ r. any (breaks n rules r.rule_id) rows) (λ r. sum-breaks n rules r.rule_id rows) rules,
    )
  ]

  rules_verdict-passes :
      (report : BusinessRulesReport)
      → fails (rules_verdict report) ≡ false
      → sum_of (λ r. r.violation_count) report.rules ≡ 0
  rules_verdict-passes report h = ground arith

  pub business_rules_gate-passes :
      (hash : List (BusinessRule N) → Text) (rules : List (BusinessRule N)) (version : Text)
      (config_hash : Option Text) (rows : List Row) (g : CandidateValidationGate)
      → business_rules_gate n hash rules version config_hash rows ≡ ok g
      → fails g ≡ false
      → any (λ row. any (violates n row) rules) rows ≡ false
  unfolding business_rules_gate
  business_rules_gate-passes hash [] version config_hash rows g h k = any_none rows
  business_rules_gate-passes hash (rule ∷ rules) version config_hash rows g h k =
      let evaluator =
        business_rule_evaluator hash (rule ∷ rules) version config_hash sample_limit in
      let (e, lifted, h') = >>=-eq-ok (lift_rule_error (observe_rows n evaluator rows)) _ h in
      let made : rules_verdict (build_report e) ≡ g = cc h' in
      let observed : observe_rows n evaluator rows ≡ ok e = ground arith in
      let counts =
        (build_report-blockers n hash (rule ∷ rules) version config_hash sample_limit rows e
          observed).1 in
      let none_counted =
        rules_verdict-passes (build_report e) (subst (λ x. fails x ≡ false) (sym made) k) in
      no_violations (rule ∷ rules) rows (
        sum_of-map (λ r. sum_of (counted_in n (rule ∷ rules) r.rule_id) rows) (rule ∷ rules)
        ∙ ap (sum_of (λ j. j)) (sym counts)
        ∙ sym (sum_of-map (λ s. s.violation_count) (build_report e).rules)
        ∙ none_counted)
