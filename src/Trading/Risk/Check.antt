-- ===== src/Trading/Risk/Check.antt =====
-- `check_order` of src/atp/risk/engine.py: the veto on an order.
use aitrading.Common.{
  ℕ, ◌+◌, Bool, true, false, not, ◌&&◌, ◌||◌, [], ◌∷◌, Option, none, some, String, if◌then◌else◌,
  ◌≡◌, ◌⊎◌,
}
use aitrading.Common.Dict.{Dict, lookup, contains_key}
use aitrading.Common.Floats.{Floats, max_float, is_above_zero}
use aitrading.Trading.Broker.{order_quantity}
use aitrading.Trading.Risk.{
  RiskLimits, RiskState, RiskEngine, Proposal, RiskDecision, veto, approve, notional_or, cluster_of,
  effective_capital, killed, disconnected, invalid_price, halted, no_equity, position_cap,
  leverage_cap, open_positions_cap, trade_risk_cap, daily_budget_cap, correlation_cap, reducing,
  within_limits,
}

-- `len(d)`
abbrev pub size : {A : Type 0} → Dict A → ℕ
size [] = 0
size (_ ∷ d) = size d + 1

module _ {fl : Floats} (p : Proposal fl) where
  abbrev pub new_qty : fl.Float
  new_qty = fl.plus p.current_qty (order_quantity p.order)

  abbrev pub is_invalid_price : Bool
  is_invalid_price = not (fl.is_finite p.price) || fl.less_or_equal p.price (fl.whole 0)

  abbrev pub is_reducing : Bool
  is_reducing = fl.less (fl.absolute new_qty) (fl.absolute p.current_qty)

  -- A quantity at the price and by the multiplier of the order.
  abbrev pub at_price : fl.Float → fl.Float
  at_price q = fl.times (fl.times (fl.absolute q) p.price) p.order.instrument.multiplier

  abbrev pub inst_notional : fl.Float
  inst_notional = at_price new_qty

  abbrev pub projected_gross : fl.Float
  projected_gross =
      let existing = lookup p.order.instrument.key p.account.positions in
      fl.plus (fl.minus p.account.gross_exposure (notional_or (at_price p.current_qty) existing))
        inst_notional

  abbrev pub trade_risk : fl.Float
  trade_risk =
      let added = fl.minus (fl.absolute new_qty) (fl.absolute p.current_qty) in
      fl.times (fl.times added p.stop_distance) p.order.instrument.multiplier

  -- More than the limit by more than 1e-9, as a fraction of the capital.
  abbrev pub exceeds : (capital part limit : fl.Float) → Bool
  exceeds capital part limit = fl.less (fl.plus limit (fl.decimal_place 9)) (fl.over part capital)

  abbrev pub is_opening_new : Bool
  is_opening_new =
      fl.equal p.current_qty (fl.whole 0)
      && not (fl.equal new_qty (fl.whole 0))
      && not (contains_key p.order.instrument.key p.account.positions)

  module _ (limits : RiskLimits fl) (s : RiskState fl) where
    abbrev pub capital_of_order : fl.Float
    capital_of_order = effective_capital limits p.account.equity

    abbrev pub is_too_many : Bool
    is_too_many =
        is_opening_new
        && fl.less limits.max_open_positions (fl.whole (size p.account.positions + 1))

    abbrev pub is_too_risky : Bool
    is_too_risky =
        is_above_zero fl p.stop_distance
        && exceeds capital_of_order trade_risk limits.max_trade_risk_pct

    abbrev pub remaining_budget : fl.Float
    remaining_budget =
        let daily_capital = effective_capital limits s.day_start_equity in
        let daily_budget = fl.times limits.max_daily_loss_pct daily_capital in
        fl.minus daily_budget
          (max_float fl (fl.whole 0) (fl.minus s.day_start_equity p.account.equity))

    abbrev pub is_over_budget : Bool
    is_over_budget =
        is_above_zero fl p.stop_distance
        && is_above_zero fl s.day_start_equity
        && fl.less (fl.plus remaining_budget (fl.decimal_place 9)) trade_risk

    abbrev pub is_correlated : Option (String → String → fl.Float) → Bool
    is_correlated none = false
    is_correlated (some corr) =
        exceeds capital_of_order
          (cluster_of corr limits.correlation_threshold p.order.instrument.key p.account.positions
            inst_notional)
          limits.max_correlated_exposure_pct

    -- The caps on an order that adds risk.
    unfoldable pub check_caps : RiskDecision
    check_caps =
        if exceeds capital_of_order inst_notional limits.max_position_pct
        then veto position_cap
        else if exceeds capital_of_order projected_gross limits.max_gross_leverage
        then veto leverage_cap
        else if is_too_many
        then veto open_positions_cap
        else if is_too_risky
        then veto trade_risk_cap
        else if is_over_budget
        then veto daily_budget_cap
        else if is_correlated p.correlation_fn
        then veto correlation_cap
        else approve within_limits

-- `check_order`
unfoldable pub check_order : {fl : Floats} → Proposal fl → RiskEngine fl → RiskDecision
unfolding check_caps
check_order {fl} p e =
    if e.state.killed
    then veto killed
    else if not e.state.broker_connected
    then veto disconnected
    else if is_invalid_price p
    then veto invalid_price
    else if is_reducing p
    then approve reducing
    else if e.state.halted
    then veto halted
    else if fl.less_or_equal (capital_of_order p e.limits e.state) (fl.whole 0)
    then veto no_equity
    else check_caps p e.limits e.state

-- An order within every cap.
pub record IsWithinCaps {fl : Floats} (p : Proposal fl) (l : RiskLimits fl) (s : RiskState fl)
    : Type 0 where
  pub position : exceeds p (capital_of_order p l s) (inst_notional p) l.max_position_pct ≡ false
  pub leverage : exceeds p (capital_of_order p l s) (projected_gross p) l.max_gross_leverage ≡ false
  pub open_positions : is_too_many p l s ≡ false
  pub one_trade : is_too_risky p l s ≡ false
  pub budget : is_over_budget p l s ≡ false
  pub correlation : is_correlated p l s p.correlation_fn ≡ false

-- What the engine lets through: nothing while it is killed or disconnected or the price is invalid; then what reduces
-- the position, and of the rest what the caps admit while there is no halt.
pub record IsAdmissible {fl : Floats} (p : Proposal fl) (e : RiskEngine fl) : Type 0 where
  pub alive : e.state.killed ≡ false
  pub connected : e.state.broker_connected ≡ true
  pub priced : is_invalid_price p ≡ false
  pub risk :
      (is_reducing p ≡ true)
      ⊎ ((e.state.halted ≡ false)
          × (fl.less_or_equal (capital_of_order p e.limits e.state) (fl.whole 0) ≡ false)
          × IsWithinCaps p e.limits e.state)
