-- ===== src/Tests/Fill.antt =====
-- A BUY of the paper canary, src/atp/store/base.py, at a concrete ledger.
use text.Mathlib.Text.{◌==◌ as str_eq}
use aitrading.Common.{
  ◌||◌, ◌&&◌, true, false, none, some, [], ◌≡◌, refl, sym, Bool-cases, inl, inr, if◌then◌else◌,
}
use aitrading.Common.Int.{ℤ, pos, ◌≤ℤ◌, ◌+ℤ◌, ◌-ℤ◌, ◌*ℤ◌, +ℤ-zero}
use aitrading.Runtime.Status.{running as runtime_running}
use aitrading.Runtime.Positions.{buy}
use aitrading.Paper.Orders.{PaperOrderRow, authorized}
use aitrading.Paper.Runs.{PaperRunRow, running}
use aitrading.Paper.Money.{Result, ok, failed, one, half_even}
use aitrading.Paper.Config.{RawConfig, paper_config}
use aitrading.Paper.Tables.{
  at, PaperLedger, PaperAccountRow, PaperPositionRow, LossLock, DailyLossState,
}
use aitrading.Paper.Risk.{risk_checksum, risk_capital, max_loss_pct}
use aitrading.Paper.Fill.{Extern, Clock, commit_paper_fill_atomic}
use aitrading.Paper.Fill.Request.{FillRequest, FillTerms, FillCommitResult, checked_fill}
use aitrading.Paper.Fill.Write.{paper_fill_row}
use aitrading.Paper.Books.{IsWellKept, commit-IsWellKept}
use aitrading.Paper.Replay.{IsReplayed, sum_over, scale}
use aitrading.Paper.Refinement.{commit-IsReplayed}
use aitrading.Paper.Retry.{commit-commit}
use aitrading.Paper.Guards.{commit-Guards}
use aitrading.Paper.Limits.{commit-buy_caps}
use aitrading.Paper.Fill.Admit.{RiskBounds}
use aitrading.Paper.Fill.Project.{is_at_limit}
use aitrading.Paper.Losses.{found_lock, IsLimitOf, commit-buy_losses, commit-day_losses}

abbrev raw : RawConfig
raw = record {
  tag = "atp.paper-canary.config.v1";
  mode = "paper";
  instrument = "ACME";
  asset_class = "EQUITY";
  max_order_notional = some (pos 500_000_000_000);
  max_gross_notional = some (pos 800_000_000_000);
  max_daily_turnover = some (pos 2_000_000_000_000);
  starting_cash = some (pos 1_000_000_000_000);
  commission_per_unit = some (pos 1_000_000);
  min_commission = some (pos 100_000_000);
  slippage_bps = some (pos 1_000_000_000);
  quote_max_age_s = some (pos 3_000_000_000);
  max_orders = some 4;
}

abbrev pub outside : Extern
outside = record {
  codec = record {
    decode = λ text. some raw;
    canonical = λ raw. "{}";
    checksum = λ text. "sum";
    is_symbol = λ text. true;
  };
  is_stripped = λ text. true;
  token = λ terms. "risk";
  event_hash = λ id seq type. id;
  reason_text = λ reason day run. reason;
}

abbrev pub canary_run : PaperRunRow
canary_run = record {
  run_id = "r1";
  status = running;
  active_slot = some 1;
  version = 2;
  config_json = "{}";
  config_checksum = "sum";
  risk_config_checksum = "risk";
  commit_sha = "";
  reason = none;
  created_at = 1;
  started_at = some 1;
  heartbeat_at = some 1;
  ended_at = none;
  updated_at = 1;
}

-- BUY 10 at an ask of 100
abbrev buy_order : PaperOrderRow
buy_order = record {
  client_order_id = "o1";
  run_id = "r1";
  idempotency_key = "k1";
  decision_id = "d1";
  instrument = "ACME";
  side = buy;
  quantity = pos 1_000_000_000;
  order_type = "MARKET";
  state = authorized;
  request_checksum = "";
  risk_config_checksum = "risk";
  quote_bid = pos 9_990_000_000;
  quote_ask = pos 10_000_000_000;
  quote_ts = 1_000_000;
  broker_order_id = none;
  reason = none;
  version = 1;
  correlation_id = none;
  created_at = 1_100_000;
  authorized_at = some 1_200_000;
  terminal_at = none;
  updated_at = 1_200_000;
}

abbrev first_account : PaperAccountRow
first_account = record {
  run_id = "r1";
  starting_cash = pos 1_000_000_000_000;
  cash = pos 1_000_000_000_000;
  equity = pos 1_000_000_000_000;
  realized_pnl = pos 0;
  gross_exposure = pos 0;
  net_exposure = pos 0;
  version = 0;
  updated_at = 1;
}

abbrev no_position : PaperPositionRow
no_position = record {
  run_id = "r1";
  instrument = "ACME";
  quantity = pos 0;
  avg_price = pos 0;
  mark_price = pos 0;
  realized_pnl = pos 0;
  version = 0;
  updated_at = 1;
}

abbrev pub first_ledger : PaperLedger
first_ledger = record {
  runtime = some (record {
    status = runtime_running;
    commit_sha = none;
    config_checksum = none;
    risk_config_checksum = none;
    prepared_at = some (at 1);
    run_id = some "r1";
  });
  kill_switch = none;
  runs = λ id. if str_eq id "r1" then some canary_run else none;
  slot_holder = some "r1";
  orders = λ id. if str_eq id "o1" then some buy_order else none;
  broker_index = λ id. none;
  fills = [];
  accounts = λ id. if str_eq id "r1" then some first_account else none;
  positions = λ id instrument. none;
  risk_config = some (record {
    capital = some (pos 5_000_000_000_000);
    risk_per_trade_pct = some (pos 100_000_000);
    max_daily_loss_pct = some (pos 500_000_000);
    updated_at = 1;
  });
  risk_policy = some (record {
    risk_config_id = 1;
    currency = some "USD";
    warning_threshold_pct = some (pos 8_000_000_000);
    max_portfolio_exposure_pct = some (pos 5_000_000_000);
    max_drawdown_pct = some (pos 1_000_000_000);
    config_version = 1;
  });
  risk_state = some (record { halted = false; killed = false });
  loss_locks = λ day. none;
  daily_losses = λ day. none;
  health = λ symbol. some (record {
    symbol = symbol;
    source = "MASSIVE";
    status = "READY";
    updated_at = at 2_200_000;
    quote_ts = at 1_500_000;
  });
  events = [];
  audit_events = [];
  drawn = 0;
}

-- 10 at 100.1, with a commission of 1
abbrev buy_request : FillRequest
buy_request = record {
  run_id = "r1";
  client_order_id = "o1";
  expected_order_version = 1;
  fill_id = "f1";
  broker_order_id = "b1";
  broker_fill_id = "bf1";
  instrument = "ACME";
  side = "BUY";
  quantity = some (pos 1_000_000_000);
  price = some (pos 10_010_000_000);
  commission = some (pos 100_000_000);
  multiplier = some one;
  quote_ts = at 1_000_000;
  ts = at 2_000_000;
}

abbrev buy_terms : FillTerms
buy_terms = record {
  run_id = "r1";
  client_order_id = "o1";
  expected_order_version = 1;
  fill_id = "f1";
  broker_order_id = "b1";
  broker_fill_id = "bf1";
  instrument = "ACME";
  side = buy;
  quantity = pos 1_000_000_000;
  price = pos 10_010_000_000;
  commission = pos 100_000_000;
  multiplier = one;
  quote_ts = 1_000_000;
  ts = 2_000_000;
}

abbrev at_noon : Clock
at_noon = record { candidate = 2_500_000; commit = 3_000_000 }

abbrev much_later : Clock
much_later = record { candidate = 900_000_000_000; commit = 900_000_000_001 }

-- Where a commit fails, the tables as they were.
abbrev outcome_of :
    Result (FillCommitResult × PaperLedger) → PaperLedger → FillCommitResult × PaperLedger
outcome_of (ok p) l = p
outcome_of (failed e) l = (
  record {
    order = buy_order;
    fill = paper_fill_row buy_terms 0;
    account = first_account;
    position = no_position;
  },
  l,
)

unfoldable bought : FillCommitResult × PaperLedger
unfolding commit_paper_fill_atomic
bought = outcome_of (commit_paper_fill_atomic outside at_noon buy_request first_ledger) first_ledger

buy-checked : checked_fill buy_request ≡ ok buy_terms
unfolding checked_fill
buy-checked = refl

buy-committed :
    commit_paper_fill_atomic outside at_noon buy_request first_ledger ≡ ok (bought.0, bought.1)
unfolding commit_paper_fill_atomic bought paper_config half_even ◌*ℤ◌ ◌+ℤ◌ ◌-ℤ◌ risk_checksum
    risk_capital max_loss_pct
buy-committed = refl

bought-amounts :
    (bought.0.account.cash ≡ pos 899_800_000_000) × (bought.0.account.equity ≡ pos 999_900_000_000)
unfolding commit_paper_fill_atomic bought paper_config half_even ◌*ℤ◌ ◌+ℤ◌ ◌-ℤ◌ risk_checksum
    risk_capital max_loss_pct
bought-amounts = (refl, refl)

first_ledger-IsWellKept : IsWellKept outside.codec first_ledger
unfolding IsWellKept
first_ledger-IsWellKept run_id instrument = elim (Bool-cases (str_eq run_id "r1")) [
  | inl same ↦ rw same tt
  | inr other ↦ rw other tt
]

commit-IsWellKept_example : IsWellKept outside.codec bought.1
commit-IsWellKept_example =
    commit-IsWellKept outside at_noon buy_request first_ledger bought.0 bought.1
      first_ledger-IsWellKept buy-committed

commit-commit_example :
    commit_paper_fill_atomic outside much_later buy_request bought.1 ≡ ok (bought.0, bought.1)
commit-commit_example =
    commit-commit outside at_noon much_later buy_request first_ledger bought.0 bought.1
      buy-committed

commit-Guards_example : bought.0.order.version ≡ 2
commit-Guards_example =
    (commit-Guards outside at_noon buy_request buy_terms first_ledger bought.0 bought.1 buy-checked
      refl buy-committed).14

commit-buy_caps_example : pos 0 ≤ℤ bought.0.account.cash
commit-buy_caps_example =
    (commit-buy_caps outside at_noon buy_request buy_terms first_ledger bought.0 bought.1
      buy-checked refl refl buy-committed).12

commit-buy_losses_example : (found_lock at_noon first_ledger).engaged ≡ false
commit-buy_losses_example =
    (commit-buy_losses outside at_noon buy_request buy_terms first_ledger bought.0 bought.1
      buy-checked refl refl buy-committed).4

commit-day_losses_example :
    (risk : RiskBounds) × (account : PaperAccountRow) × (delta : ℤ) × (lock : LossLock)
    × (losses : DailyLossState) × IsLimitOf risk account delta at_noon "r1" first_ledger
    × (bought.1.daily_losses 0 ≡ some losses)
    × (losses.cumulative_equity_delta ≡ some (delta +ℤ (bought.0.account.equity -ℤ account.equity)))
    × (bought.1.loss_locks 0 ≡ some lock)
    × (lock.engaged
        ≡ (found_lock at_noon first_ledger).engaged
          || false
            && is_at_limit risk risk.capital delta account bought.0.account.equity
                (delta +ℤ (bought.0.account.equity -ℤ account.equity)))
commit-day_losses_example =
    commit-day_losses outside at_noon buy_request buy_terms first_ledger bought.0 bought.1
      buy-checked refl buy-committed

first_ledger-IsReplayed : IsReplayed first_ledger
unfolding IsReplayed sum_over
first_ledger-IsReplayed run_id instrument = elim (Bool-cases (str_eq run_id "r1")) [
  | inl same ↦ (rw same (sym (+ℤ-zero (first_account.cash *ℤ scale))), refl)
  | inr other ↦ (rw other refl, refl)
]

commit-IsReplayed_example : IsReplayed bought.1
commit-IsReplayed_example =
    commit-IsReplayed outside at_noon buy_request first_ledger bought.0 bought.1
      first_ledger-IsReplayed buy-committed
