-- ===== src/Splits/Targets.antt =====
-- `_rebalance_targets` of app/plugins/tabular/splits.py.
use dataforge_ai_ml_service.Prelude.{
  ℕ, zero, suc, ◌+◌, ◌-◌, ◌≤◌, ◌<◌, if◌then◌else◌, ltb, leb, ◌&&◌, ◌≡◌, arith, Bool-cases, inl, inr,
}

-- The members of DataSplit that rows are assigned to, in the order of `_SPLIT_ORDER`
pub data DataSplit : Type 0 where
  train validation test : DataSplit

-- The target counts of the three splits.
pub record Targets : Type 0 where
  pub train_part : ℕ
  pub validation_part : ℕ
  pub test_part : ℕ

abbrev pub at : Targets → DataSplit → ℕ
at t train = t.train_part
at t validation = t.validation_part
at t test = t.test_part

abbrev pub set : Targets → DataSplit → ℕ → Targets
set t train k = record t { train_part = k }
set t validation k = record t { validation_part = k }
set t test k = record t { test_part = k }

-- `sum(target_counts.values())`
abbrev pub total_target : Targets → ℕ
total_target t = t.train_part + t.validation_part + t.test_part

-- `max(_SPLIT_ORDER, key=...)`, the first of the largest
abbrev pub largest : Targets → DataSplit
largest t =
    if leb t.validation_part t.train_part && leb t.test_part t.train_part
    then train
    else if leb t.test_part t.validation_part
    then validation
    else test

-- `min(_SPLIT_ORDER, key=...)`, the first of the least
abbrev pub least : Targets → DataSplit
least t =
    if leb t.train_part t.validation_part && leb t.train_part t.test_part
    then train
    else if leb t.validation_part t.test_part
    then validation
    else test

-- The first loop, for at most so many rounds
unfoldable pub lower : ℕ → Targets → ℕ → Targets
lower zero t total = t
lower (suc n) t total =
    let rest = lower n (set t (largest t) (at t (largest t) - 1)) total in
    if ltb total (total_target t) then rest else t

-- The second loop
unfoldable pub lift : ℕ → Targets → ℕ → Targets
lift zero t total = t
lift (suc n) t total =
    let rest = lift n (set t (least t) (suc (at t (least t)))) total in
    if ltb (total_target t) total then rest else t

-- `_rebalance_targets`: a round changes the sum by one, so the sum and the total bound the rounds.
unfoldable pub rebalance_targets : Targets → ℕ → Targets
unfolding lower lift
rebalance_targets t total = lift total (lower (total_target t) t total) total

total-lower :
    (t : Targets)
    → 0 < total_target t
    → suc (total_target (set t (largest t) (at t (largest t) - 1))) ≡ total_target t
total-lower t h = ground arith

total-lift :
    (t : Targets) → total_target (set t (least t) (suc (at t (least t)))) ≡ suc (total_target t)
total-lift t = ground arith

-- Each split is to have a row at least.
pub record IsFilled (t : Targets) : Type 0 where
  pub train_filled : 1 ≤ t.train_part
  pub validation_filled : 1 ≤ t.validation_part
  pub test_filled : 1 ≤ t.test_part

lower-IsFilled :
    (n : ℕ) (t : Targets) (total : ℕ) → 3 ≤ total → IsFilled t → IsFilled (lower n t total)
unfolding lower
lower-IsFilled zero t total h f = f
lower-IsFilled (suc n) t total h f = elim (Bool-cases (ltb total (total_target t))) [
  | inr fits ↦ rw fits f
  | inl over ↦ rw over (
      lower-IsFilled n (set t (largest t) (at t (largest t) - 1)) total h (record {
        train_filled = ground arith;
        validation_filled = ground arith;
        test_filled = ground arith;
      }))
]

lift-IsFilled : (n : ℕ) (t : Targets) (total : ℕ) → IsFilled t → IsFilled (lift n t total)
unfolding lift
lift-IsFilled zero t total f = f
lift-IsFilled (suc n) t total f = elim (Bool-cases (ltb (total_target t) total)) [
  | inr fits ↦ rw fits f
  | inl under ↦ rw under (
      lift-IsFilled n (set t (least t) (suc (at t (least t)))) total (record {
        train_filled = ground arith;
        validation_filled = ground arith;
        test_filled = ground arith;
      }))
]

lower-exact :
    (n : ℕ) (t : Targets) (total : ℕ)
    → total_target t ≤ total + n
    → total_target (lower n t total) ≤ total
unfolding lower
lower-exact zero t total h = ground arith
lower-exact (suc n) t total h =
    ground (arith, lower-exact n (set t (largest t) (at t (largest t) - 1)) total, total-lower t)

lift-exact :
    (n : ℕ) (t : Targets) (total : ℕ)
    → total_target t ≤ total
    → total ≤ total_target t + n
    → total_target (lift n t total) ≡ total
unfolding lift
lift-exact zero t total h k = ground arith
lift-exact (suc n) t total h k =
    ground (arith, lift-exact n (set t (least t) (suc (at t (least t)))) total, total-lift t)

-- The targets add up to the number of rows when the loops end, within as many rounds as the model
-- allows.
pub rebalance_targets_exact :
    (t : Targets) (total : ℕ) → total_target (rebalance_targets t total) ≡ total
unfolding rebalance_targets
rebalance_targets_exact t total =
    lift-exact total (lower (total_target t) t total) total
      (lower-exact (total_target t) t total (omega arith)) (omega arith)

-- Where there are three rows at least and each split began with one, each split keeps one.
rebalance_targets-IsFilled :
    (t : Targets) (total : ℕ) → 3 ≤ total → IsFilled t → IsFilled (rebalance_targets t total)
unfolding rebalance_targets
rebalance_targets-IsFilled t total h f =
    lift-IsFilled total _ total (lower-IsFilled (total_target t) t total h f)
