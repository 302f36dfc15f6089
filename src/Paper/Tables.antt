-- ===== src/Paper/Tables.antt =====
-- The tables that a fill of the paper canary reads and writes, src/atp/store/base.py, each a function of its
-- key. A time is a number of microseconds, and a day the number of whole days in it.
use text.Mathlib.Text.{◌==◌ as str_eq}
use aitrading.Common.{
  ℕ, ◌/◌, Bool, true, false, List, Option, none, some, String, if◌then◌else◌, ◌==◌,
}
use aitrading.Common.Int.{ℤ}
use aitrading.Runtime.Status.{RuntimeStatus}
use aitrading.Runtime.Durable.{AuditEventRow}
use aitrading.Runtime.Positions.{Side, buy, sell}
use aitrading.Paper.Orders.{PaperOrderRow, PaperEventRow}
use aitrading.Paper.Runs.{PaperRunRow}

-- A stored timestamp, which may not be one.
pub data Stamp : Type 0 where
  at : ℕ → Stamp
  malformed : Stamp

abbrev pub day_of : ℕ → ℕ
day_of t = t / 86_400_000_000

-- The paper columns of the row `runtime_state`.
pub record RuntimeBinding : Type 0 where
  pub status : RuntimeStatus
  pub commit_sha : Option String
  pub config_checksum : Option String
  pub risk_config_checksum : Option String
  pub prepared_at : Option Stamp
  pub run_id : Option String

pub record PaperAccountRow : Type 0 where
  pub run_id : String
  pub starting_cash : ℤ
  pub cash : ℤ
  pub equity : ℤ
  pub realized_pnl : ℤ
  pub gross_exposure : ℤ
  pub net_exposure : ℤ
  pub version : ℕ
  pub updated_at : ℕ

pub record PaperPositionRow : Type 0 where
  pub run_id : String
  pub instrument : String
  pub quantity : ℤ
  pub avg_price : ℤ
  pub mark_price : ℤ
  pub realized_pnl : ℤ
  pub version : ℕ
  pub updated_at : ℕ

pub record PaperFillRow : Type 0 where
  pub fill_id : String
  pub client_order_id : String
  pub broker_fill_id : String
  pub ledger_seq : ℕ
  pub instrument : String
  pub side : Side
  pub quantity : ℤ
  pub price : ℤ
  pub commission : ℤ
  pub multiplier : ℤ
  pub quote_ts : ℕ
  pub ts : ℕ

-- An amount of the risk tables, nothing where it is missing or not exact.
pub record RiskConfig : Type 0 where
  pub capital : Option ℤ
  pub risk_per_trade_pct : Option ℤ
  pub max_daily_loss_pct : Option ℤ
  pub updated_at : ℕ

pub record RiskPolicy : Type 0 where
  pub risk_config_id : ℕ
  pub currency : Option String
  pub warning_threshold_pct : Option ℤ
  pub max_portfolio_exposure_pct : Option ℤ
  pub max_drawdown_pct : Option ℤ
  pub config_version : ℕ

pub record RiskState : Type 0 where
  pub halted : Bool
  pub killed : Bool

pub record LossLock : Type 0 where
  pub engaged : Bool
  pub reason : Option String
  pub updated_at : ℕ

-- A day's row of `paper_daily_loss_state`.
pub record DailyLossState : Type 0 where
  pub risk_capital_baseline : Option ℤ
  pub cumulative_equity_delta : Option ℤ
  pub version : ℕ
  pub updated_at : ℕ

pub record HealthRow : Type 0 where
  pub symbol : String
  pub source : String
  pub status : String
  pub updated_at : Stamp
  pub quote_ts : Stamp

pub record PaperLedger : Type 0 where
  pub runtime : Option RuntimeBinding
  pub kill_switch : Option Bool
  pub runs : String → Option PaperRunRow
  -- the unique index of `active_slot`: the run that has the slot
  pub slot_holder : Option String
  pub orders : String → Option PaperOrderRow
  -- the unique index of `broker_order_id`: the order that has an identifier
  pub broker_index : String → Option String
  -- in the order of `ledger_seq`
  pub fills : List PaperFillRow
  pub accounts : String → Option PaperAccountRow
  pub positions : String → String → Option PaperPositionRow
  pub risk_config : Option RiskConfig
  pub risk_policy : Option RiskPolicy
  pub risk_state : Option RiskState
  -- by day
  pub loss_locks : ℕ → Option LossLock
  pub daily_losses : ℕ → Option DailyLossState
  pub health : String → Option HealthRow
  pub events : List PaperEventRow
  pub audit_events : List AuditEventRow
  pub drawn : ℕ

-- A table with a row written under a key.
abbrev pub put {ℓ} : {A : Type ℓ} → String → A → (String → A) → String → A
put k a f j = if str_eq k j then a else f j

abbrev pub put_day {ℓ} : {A : Type ℓ} → ℕ → A → (ℕ → A) → ℕ → A
put_day k a f j = if k == j then a else f j

abbrev pub same_side : Side → Side → Bool
same_side buy buy = true
same_side sell sell = true
same_side _ _ = false

abbrev pub is_buy : Side → Bool
is_buy buy = true
is_buy sell = false

-- The text is the one that the column holds.
abbrev pub holds : Option String → String → Bool
holds none s = false
holds (some t) s = str_eq t s
