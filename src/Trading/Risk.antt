-- ===== src/Trading/Risk.antt =====
-- RiskEngine of src/atp/risk/engine.py.
pub mod Check
pub mod Admissible
pub mod Latch
use aitrading.Common.{
  ℕ, ◌+◌, Bool, true, false, not, ◌&&◌, ◌||◌, List, [], ◌∷◌, Option, none, some, String,
  if◌then◌else◌,
}
use text.Mathlib.Text.{◌==◌ as str_eq}
use aitrading.Common.Dict.{Dict, lookup, contains_key}
use aitrading.Common.Floats.{Floats, max_float, min_float, is_above_zero}
use aitrading.Trading.Broker.{Order, Account, Position, order_quantity, notional}

-- The limits; `max_open_positions` is a number like the others, since `update_limits` takes any.
pub record RiskLimits (fl : Floats) : Type 0 where
  pub max_daily_loss_pct : fl.Float
  pub max_drawdown_pct : fl.Float
  pub max_position_pct : fl.Float
  pub max_gross_leverage : fl.Float
  pub max_open_positions : fl.Float
  pub max_trade_risk_pct : fl.Float
  pub max_portfolio_risk_pct : fl.Float
  pub max_correlated_exposure_pct : fl.Float
  pub correlation_threshold : fl.Float
  pub max_capital : fl.Float

-- Why the engine halted: a limit with the value that reached it, or what an outside signal says.
pub data HaltReason (fl : Floats) : Type 0 where
  no_halt : HaltReason fl
  daily_loss drawdown : (value limit : fl.Float) → HaltReason fl
  signalled : String → HaltReason fl

pub record RiskState (fl : Floats) : Type 0 where
  pub day_start_equity : fl.Float
  pub peak_equity : fl.Float
  pub halted : Bool
  pub halt_reason : HaltReason fl
  pub broker_connected : Bool
  pub killed : Bool
  pub kill_reason : String

pub record RiskEngine (fl : Floats) : Type 0 where
  pub limits : RiskLimits fl
  pub state : RiskState fl

-- `start_new_day`
unfoldable pub start_new_day : {fl : Floats} → fl.Float → RiskEngine fl → RiskEngine fl
start_new_day equity e = record e {
  state = record e.state { day_start_equity = equity; halted = false; halt_reason = no_halt };
}

-- `effective_capital`, of numbers that convert to floats.
unfoldable pub effective_capital : {fl : Floats} → RiskLimits fl → fl.Float → fl.Float
effective_capital {fl} limits equity =
    if not (fl.is_finite equity) || fl.less_or_equal equity (fl.whole 0)
    then fl.whole 0
    else if fl.is_nan limits.max_capital || fl.less_or_equal limits.max_capital (fl.whole 0)
    then fl.whole 0
    else min_float fl equity limits.max_capital

-- `_halt`
unfoldable pub set_halt : {fl : Floats} → HaltReason fl → RiskState fl → RiskState fl
set_halt reason s = record s { halted = true; halt_reason = reason }

-- The loss against the day's start or the peak, by the capital of that basis, has reached the limit.
abbrev pub has_lost : {fl : Floats} → RiskLimits fl → (basis equity limit : fl.Float) → Bool
has_lost {fl} limits basis equity limit =
    let capital = effective_capital limits basis in
    is_above_zero fl capital && fl.less_or_equal limit (fl.over (fl.minus basis equity) capital)

abbrev pub halt_if_lost :
    {fl : Floats}
    → RiskLimits fl
    → (reason : (value limit : fl.Float) → HaltReason fl) → (basis equity limit : fl.Float)
    → RiskState fl
    → RiskState fl
halt_if_lost {fl} limits reason basis equity limit s =
    if has_lost limits basis equity limit
    then set_halt (reason (fl.over (fl.minus basis equity) (effective_capital limits basis)) limit)
        s
    else s

-- `mark_equity`
unfoldable pub mark_equity : {fl : Floats} → fl.Float → RiskEngine fl → RiskEngine fl
unfolding effective_capital set_halt
mark_equity {fl} equity e =
    let s = record e.state { peak_equity = max_float fl e.state.peak_equity equity } in
    let s' =
      halt_if_lost e.limits daily_loss s.day_start_equity equity e.limits.max_daily_loss_pct s in
    record e {
      state = halt_if_lost e.limits drawdown s'.peak_equity equity e.limits.max_drawdown_pct s';
    }

-- `force_halt`
unfoldable pub force_halt : {fl : Floats} → String → RiskEngine fl → RiskEngine fl
unfolding set_halt
force_halt reason e = record e { state = set_halt (signalled reason) e.state }

unfoldable pub set_broker_connected : {fl : Floats} → Bool → RiskEngine fl → RiskEngine fl
set_broker_connected connected e = record e {
  state = record e.state { broker_connected = connected };
}

unfoldable pub kill_switch : {fl : Floats} → String → RiskEngine fl → RiskEngine fl
kill_switch reason e = record e { state = record e.state { killed = true; kill_reason = reason } }

unfoldable pub release_kill : {fl : Floats} → RiskEngine fl → RiskEngine fl
release_kill e = record e { state = record e.state { killed = false; kill_reason = "" } }

-- `setattr(self._limits, name, value)`, for a name that is a field.
unfoldable pub set_limit :
    {fl : Floats} → String → fl.Float → RiskLimits fl → Option (RiskLimits fl)
set_limit name value l =
    if str_eq name "max_daily_loss_pct"
    then some (record l { max_daily_loss_pct = value })
    else if str_eq name "max_drawdown_pct"
    then some (record l { max_drawdown_pct = value })
    else if str_eq name "max_position_pct"
    then some (record l { max_position_pct = value })
    else if str_eq name "max_gross_leverage"
    then some (record l { max_gross_leverage = value })
    else if str_eq name "max_open_positions"
    then some (record l { max_open_positions = value })
    else if str_eq name "max_trade_risk_pct"
    then some (record l { max_trade_risk_pct = value })
    else if str_eq name "max_portfolio_risk_pct"
    then some (record l { max_portfolio_risk_pct = value })
    else if str_eq name "max_correlated_exposure_pct"
    then some (record l { max_correlated_exposure_pct = value })
    else if str_eq name "correlation_threshold"
    then some (record l { correlation_threshold = value })
    else if str_eq name "max_capital"
    then some (record l { max_capital = value })
    else none

-- `update_limits`: the changes before an unknown name stay made; the name is the ValueError.
unfoldable pub update_limits :
    {fl : Floats} → List (String × fl.Float) → RiskLimits fl → Option String × RiskLimits fl
unfolding set_limit
update_limits [] l = (none, l)
update_limits ((name, value) ∷ changes) l = elim (set_limit name value l) [
  | none ↦ (some name, l)
  | some l' ↦ update_limits changes l'
]

-- What `check_order` is asked about.
pub record Proposal (fl : Floats) : Type 0 where
  pub order : Order fl
  pub account : Account fl
  pub price : fl.Float
  pub current_qty : fl.Float
  pub stop_distance : fl.Float
  pub correlation_fn : Option (String → String → fl.Float)

-- What a decision says: the veto by its control, or why it is approved.
pub data Reason : Type 0 where
  killed disconnected invalid_price halted no_equity position_cap leverage_cap : Reason
  open_positions_cap trade_risk_cap daily_budget_cap correlation_cap : Reason
  reducing within_limits : Reason
  refused_by : String → Reason

pub record RiskDecision : Type 0 where
  pub approved : Bool
  pub reason : Reason

abbrev pub veto : Reason → RiskDecision
veto reason = record { approved = false; reason = reason }

abbrev pub approve : Reason → RiskDecision
approve reason = record { approved = true; reason = reason }

abbrev pub notional_or : {fl : Floats} → fl.Float → Option (Position fl) → fl.Float
notional_or d none = d
notional_or d (some p) = notional p

-- The loop over the positions that correlate with the instrument.
unfoldable pub cluster_of :
    {fl : Floats}
    → (correlation_fn : String → String → fl.Float) → (threshold : fl.Float) → (key : String)
    → Dict (Position fl)
    → (cluster : fl.Float) → fl.Float
cluster_of corr threshold key [] cluster = cluster
cluster_of {fl} corr threshold key ((k, p) ∷ positions) cluster =
    let c = fl.absolute (corr key k) in
    cluster_of corr threshold key positions (
      if str_eq k key
      then cluster
      else if fl.less_or_equal threshold c
      then fl.plus cluster (fl.times c (notional p))
      else cluster)
