-- ===== src/Tests/Trading.antt =====
-- The risk engine at a concrete account: 100 shares at 50.00, an equity of 10,000 and the default limits but for a
-- capital of 8,000.
use aitrading.Common.{true, false, [], ◌∷◌, none, some, ◌≡◌, refl, ◌↔◌}
use aitrading.Common.Dict.{lookup}
use aitrading.Common.Int.{ℤ, pos}
use aitrading.Tests.FixedPoint.{fixed, cents}
use aitrading.Trading.Broker.{Side, buy, sell, market, Instrument, Order, Account}
use aitrading.Trading.Risk.{
  RiskLimits, RiskEngine, Proposal, no_halt, mark_equity, update_limits, effective_capital,
}
use aitrading.Trading.Risk.Check.{check_order, is_reducing}
use aitrading.Trading.Risk.Latch.{
  call, call_all, set_broker_connected_call, update_limits_call, check_order-mark_equity,
}
use aitrading.Trading.Reconciler.{
  InternalState, BrokerView, is_consistent_report, reconcile_full, run_full, IsAgreed,
}
use aitrading.Trading.Reconciler.Agreement.{reconcile_full-IsAgreed, check_order-run_full}

abbrev pub share : Instrument fixed
share = record { key = "ACME:equity"; multiplier = cents 100; terms = 0 }

abbrev pub order_of : Side → ℤ → Order fixed
order_of side quantity = record {
  object = 1;
  instrument = share;
  side = side;
  quantity = quantity;
  order_type = market;
  limit_price = none;
  stop_price = none;
  reduce_only = false;
  client_id = none;
}

abbrev pub limits : RiskLimits fixed
limits = record {
  max_daily_loss_pct = cents 3;
  max_drawdown_pct = cents 15;
  max_position_pct = cents 70;
  max_gross_leverage = cents 100;
  max_open_positions = cents 1000;
  max_trade_risk_pct = cents 1;
  max_portfolio_risk_pct = cents 6;
  max_correlated_exposure_pct = cents 35;
  correlation_threshold = cents 50;
  max_capital = cents 800_000;
}

abbrev pub engine : RiskEngine fixed
engine = record {
  limits = limits;
  state = record {
    day_start_equity = cents 1_000_000;
    peak_equity = cents 1_000_000;
    halted = false;
    halt_reason = no_halt;
    broker_connected = true;
    killed = false;
    kill_reason = "";
  };
}

abbrev pub account : Account fixed
account = record {
  cash = cents 500_000;
  equity = cents 1_000_000;
  realized_pnl = pos 0;
  unrealized_pnl = pos 0;
  gross_exposure = cents 500_000;
  net_exposure = cents 500_000;
  positions =
      (
        "ACME:equity",
        record {
          instrument = share;
          quantity = cents 10_000;
          avg_price = cents 5_000;
          market_price = cents 5_000;
        },
      )
      ∷ [];
}

abbrev proposal : Side → ℤ → Proposal fixed
proposal side quantity = record {
  order = order_of side quantity;
  account = account;
  price = cents 5_000;
  current_qty = cents 10_000;
  stop_distance = cents 100;
  correlation_fn = none;
}

buys_ten : (check_order (proposal buy (cents 1_000)) engine).approved ≡ true
unfolding check_order lookup effective_capital
buys_ten = refl

buys_fifty : (check_order (proposal buy (cents 5_000)) engine).approved ≡ false
unfolding check_order lookup effective_capital
buys_fifty = refl

-- The equity falls to 9,600, a loss of 400 on a capital of 8,000, and the limit on the loss is then raised.
abbrev after_loss : RiskEngine fixed
after_loss =
    call_all (update_limits_call (("max_daily_loss_pct", cents 50) ∷ []) ∷ [])
      (mark_equity (cents 960_000) engine)

sells_ten : (check_order (proposal sell (cents 1_000)) after_loss).approved ≡ true
unfolding check_order lookup call mark_equity update_limits effective_capital
sells_ten = refl

check_order-mark_equity_example : is_reducing (proposal sell (cents 1_000)) ≡ true
unfolding effective_capital
check_order-mark_equity_example =
    check_order-mark_equity (cents 960_000) engine
      (update_limits_call (("max_daily_loss_pct", cents 50) ∷ []) ∷ [])
      (proposal sell (cents 1_000)) refl refl sells_ten

abbrev desk : InternalState fixed
desk = record {
  positions = ("ACME:equity", cents 10_000) ∷ [];
  cash = some (cents 500_000);
  realized_pnl = none;
  open_orders = ("ACME:equity", cents 100) ∷ [];
}

-- The broker has eighty shares where the desk has a hundred.
abbrev shown : BrokerView fixed
shown = record {
  positions = ("ACME:equity", cents 8_000) ∷ [];
  cash = cents 500_000;
  realized_pnl = pos 0;
  open_orders =
      some (record { instrument_key = "ACME:equity"; quantity = cents 100; is_buy = true } ∷ []);
}

reconcile_full-IsAgreed_example :
    (is_consistent_report fixed (reconcile_full fixed (pos 1_000) (cents 100) desk shown) ≡ true)
    ↔ IsAgreed fixed (pos 1_000) (cents 100) desk shown
reconcile_full-IsAgreed_example =
    reconcile_full-IsAgreed fixed (pos 1_000) (cents 100) desk shown refl

abbrev after_break : RiskEngine fixed
after_break =
    call_all (set_broker_connected_call true ∷ [])
      (run_full fixed (λ _. "break") (pos 1_000) (cents 100) desk shown engine).1

sells_after_break : (check_order (proposal sell (cents 1_000)) after_break).approved ≡ true
unfolding check_order call run_full lookup
sells_after_break = refl

check_order-run_full_example : is_reducing (proposal sell (cents 1_000)) ≡ true
unfolding reconcile_full lookup
check_order-run_full_example =
    check_order-run_full fixed (λ _. "break") (pos 1_000) (cents 100) desk shown engine
      (set_broker_connected_call true ∷ []) (proposal sell (cents 1_000)) refl refl
      sells_after_break
