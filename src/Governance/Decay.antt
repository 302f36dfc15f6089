-- ===== src/Governance/Decay.antt =====
-- GovernanceMonitor of src/atp/governance/decay.py: the strategies whose record breaches the policy are put on
-- probation or suspended. The statistics of the journal are floating-point numbers that the monitor compares;
-- the journal's analytics hand them over, one group for each strategy.
pub mod Offline
use aitrading.Common.{
  ℕ, Bool, true, false, not, ◌&&◌, ◌||◌, List, [], ◌∷◌, ◌++◌, Option, none, some, String,
  if◌then◌else◌, ltb,
}
use aitrading.Common.Dict.{Dict, lookup}
use aitrading.Governance.Versioning.{Python}
use aitrading.Governance.Registry.{
  StrategyStatus, StrategyState, StrategyRegistry, active, probation, suspended, set_probation,
  suspend, reactivate, is_active_status, is_suspended,
}

pub record GroupStats (py : Python) : Type 0 where
  pub label : String
  pub n_trades : ℕ
  pub expectancy : py.Float
  pub profit_factor : py.Float
  pub win_rate : py.Float
  pub calibration : py.Float

pub record DecayPolicy (py : Python) : Type 0 where
  pub min_trades : ℕ
  pub min_expectancy : py.Float
  pub min_profit_factor : py.Float
  pub min_win_rate : py.Float
  pub min_calibration : py.Float
  pub probation_first : Bool
  pub auto_reactivate : Bool

-- A breach, by the statistic that it names.
pub data Breach : Type 0 where
  low_expectancy low_profit_factor low_win_rate low_calibration : Breach

pub data GovernanceAction : Type 0 where
  to_suspend to_probation to_reactivate : GovernanceAction

pub record GovernanceDecision : Type 0 where
  pub name : String
  pub action : GovernanceAction
  pub breaches : List Breach

abbrev pub when_true : Bool → Breach → List Breach
when_true true b = b ∷ []
when_true false b = []

-- `_breaches`
abbrev pub breaches_of : {py : Python} → DecayPolicy py → GroupStats py → List Breach
breaches_of {py} p g =
    when_true (py.less g.expectancy p.min_expectancy) low_expectancy
    ++ (when_true (py.less g.profit_factor p.min_profit_factor) low_profit_factor
        ++ (when_true (py.less g.win_rate p.min_win_rate) low_win_rate
            ++ when_true (py.less g.calibration p.min_calibration) low_calibration))

abbrev pub has_status : (StrategyStatus → Bool) → Option StrategyState → Bool
has_status f none = false
has_status f (some s) = f s.status

abbrev pub is_probation : StrategyStatus → Bool
is_probation probation = true
is_probation _ = false

-- `state is None or state.status is StrategyStatus.ACTIVE`
abbrev pub is_unwatched : Option StrategyState → Bool
is_unwatched none = true
is_unwatched (some s) = is_active_status s.status

-- The body of the loop for a group with enough trades, by its breaches.
unfoldable pub judged :
    {py : Python}
    → (wording : List Breach → GroupStats py → String) → DecayPolicy py
    → (now : ℕ) → GroupStats py
    → List Breach
    → StrategyRegistry
    → List GovernanceDecision × StrategyRegistry
judged wording p now g [] reg =
    if p.auto_reactivate && has_status is_suspended (lookup g.label reg)
    then (
      record { name = g.label; action = to_reactivate; breaches = [] } ∷ [],
      reactivate g.label (wording [] g) none none now reg,
    )
    else ([], reg)
judged wording p now g (b ∷ bs) reg =
    let state = lookup g.label reg in
    if p.probation_first && not (has_status is_probation state) && is_unwatched state
    then (
      record { name = g.label; action = to_probation; breaches = b ∷ bs } ∷ [],
      set_probation g.label (wording (b ∷ bs) g) none now reg,
    )
    else (
      record { name = g.label; action = to_suspend; breaches = b ∷ bs } ∷ [],
      suspend g.label (wording (b ∷ bs) g) none now reg,
    )

-- One pass of the loop.
unfoldable pub weighed :
    {py : Python}
    → (wording : List Breach → GroupStats py → String) → DecayPolicy py
    → (now : ℕ) → GroupStats py
    → StrategyRegistry
    → List GovernanceDecision × StrategyRegistry
unfolding judged
weighed wording p now g reg =
    if ltb g.n_trades p.min_trades then ([], reg) else judged wording p now g (breaches_of p g) reg

-- `evaluate`
unfoldable pub evaluate :
    {py : Python}
    → (wording : List Breach → GroupStats py → String) → DecayPolicy py
    → (now : ℕ) → List (GroupStats py)
    → StrategyRegistry
    → List GovernanceDecision × StrategyRegistry
evaluate wording p now [] reg = ([], reg)
evaluate wording p now (g ∷ groups) reg =
    let (here, reg') = weighed wording p now g reg in
    let (rest, reg'') = evaluate wording p now groups reg' in (here ++ rest, reg'')
