-- ===== src/Tests/Governance.antt =====
-- The governance of src/atp/governance at concrete strategies and models, with whole numbers for the floating-point
-- ones.
use aitrading.Common.{
  ℕ, zero, suc, ◌+◌, true, false, List, [], ◌∷◌, none, some, String, ◌≡◌, refl, ltb, leb,
}
use aitrading.Common.Dict.{lookup, insert}
use aitrading.Governance.Registry.{probation, suspend, is_active}
use aitrading.Governance.Registry.Switch.{
  set_probation_call, suspend_call, called_all, suspended_stays_off, status_in,
}
use aitrading.Governance.Versioning.{
  Python, ModelVersion, Models, ModelStatus, research, testing, paper, approved, live, retired,
  PromotionPolicy, transition, promote, rollback, last, lineage_of, allowed, improves, challenge,
}
use aitrading.Governance.Versioning.Lifecycle.{transition_all, asks_for, live_is_validated}
use aitrading.Governance.Versioning.Ledger.{rollback-promote}
use aitrading.Governance.Decay.{GroupStats, DecayPolicy, Breach, low_expectancy, evaluate}
use aitrading.Governance.Decay.Offline.{evaluate-verdict}

suspended_stays_off_example :
    is_active "momentum" (
      called_all
        (set_probation_call "momentum" "watch" none 4 ∷ suspend_call "carry" "risk" none 5 ∷ [])
        (suspend "momentum" "decay" none 3 []))
    ≡ false
suspended_stays_off_example =
    suspended_stays_off "momentum" "decay" none 3
      (set_probation_call "momentum" "watch" none 4 ∷ suspend_call "carry" "risk" none 5 ∷ []) []
      refl

abbrev whole : Python
whole = record {
  Float = ℕ;
  Object = Unit;
  less = ltb;
  less_or_equal = leb;
  plus = λ x y. x + y;
  zero_float = 0;
  minus_infinity = 0;
}

abbrev version_with : String → ℕ → ModelStatus → ModelVersion whole
version_with version sharpe st = record {
  strategy = "momentum";
  version = version;
  params = tt;
  metrics = ("sharpe", sharpe) ∷ [];
  created_at = 0;
  model_id = "";
  status = st;
  training_dataset = "";
  feature_set = [];
  training_date = none;
  deployment_date = none;
  validation_results = tt;
  oos_results = tt;
  paper_results = tt;
  production_results = tt;
}

abbrev shelf : ModelStatus → Models whole
shelf st = record {
  objects = λ c. elim c [ zero ↦ version_with "v0" 1 st | suc _ ↦ version_with "v1" 2 st ];
  current = [];
  lineage = [];
}

abbrev policy : PromotionPolicy whole
policy = record { primary_metric = "sharpe"; min_improvement = 1; require_positive = true }

abbrev path_to_live : List (ℕ × ModelStatus × ℕ)
path_to_live = (0, testing, 1) ∷ (0, live, 2) ∷ (0, paper, 3) ∷ (0, approved, 4) ∷ (0, live, 5) ∷ []

live_is_validated_example :
    (asks_for 0 testing path_to_live ≡ true)
    × (asks_for 0 paper path_to_live ≡ true)
    × (asks_for 0 approved path_to_live ≡ true)
unfolding transition_all transition allowed
live_is_validated_example = live_is_validated 0 path_to_live (shelf research) refl refl

abbrev promoted_once : Models whole
promoted_once = (promote policy 0 (shelf paper)).1

rollback-promote_example :
    let (back, m') = rollback "momentum" (promote policy 1 promoted_once).1 in
    (back ≡ some 0)
    × (lookup "momentum" m'.current ≡ some 0)
    × (lineage_of "momentum" m' ≡ lineage_of "momentum" promoted_once)
unfolding promote challenge aitrading.Governance.Versioning.set_baseline lookup insert last
rollback-promote_example = rollback-promote policy 1 0 promoted_once refl refl

abbrev group : String → ℕ → GroupStats whole
group label expectancy = record {
  label = label;
  n_trades = 20;
  expectancy = expectancy;
  profit_factor = 2;
  win_rate = 1;
  calibration = 1;
}

abbrev decay : DecayPolicy whole
decay = record {
  min_trades = 12;
  min_expectancy = 1;
  min_profit_factor = 1;
  min_win_rate = 0;
  min_calibration = 0;
  probation_first = true;
  auto_reactivate = false;
}

abbrev wording : List Breach → GroupStats whole → String
wording bs g = "decay"

evaluate-verdict_example :
    status_in "momentum" (evaluate wording decay 9 (group "carry" 3 ∷ group "momentum" 0 ∷ []) []).1
    ≡ some probation
unfolding lookup
evaluate-verdict_example =
    evaluate-verdict wording decay 9 (group "carry" 3 ∷ []) [] (group "momentum" 0) low_expectancy
      [] [] refl refl refl refl
