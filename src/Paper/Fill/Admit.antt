-- ===== src/Paper/Fill/Admit.antt =====
-- What a fill that is not committed yet is checked against within its transaction: the runtime, the run, the
-- authorized order, the configuration of the run and the risk limits, commit_paper_fill_atomic of
-- src/atp/store/base.py.
use text.Mathlib.Text.{◌==◌ as str_eq}
use aitrading.Common.{
  ℕ, ◌-◌, ◌*◌, Bool, true, false, not, ◌||◌, ◌&&◌, Option, none, some, String, ◌==◌,
}
use aitrading.Common.Int.{ℤ, pos, ◌+ℤ◌, ◌-ℤ◌, ◌*ℤ◌, ltb_ℤ, eqb_ℤ, max_ℤ}
use aitrading.Runtime.Status.{same}
use aitrading.Runtime.Status.{running as runtime_running}
use aitrading.Runtime.Positions.{Side, buy, sell}
use aitrading.Paper.Orders.{PaperOrderRow, authorized, same_state}
use aitrading.Paper.Runs.{PaperRunRow, running, same_status}
use aitrading.Paper.Money.{
  Result, ok, failed, safety_error, state_error, conflict, ◌>>=◌, ◌>>◌, raise_if, or_fail, one,
  half_even,
}
use aitrading.Paper.Config.{PaperConfig, Codec, all_basis_points, paper_config}
use aitrading.Paper.Tables.{
  Stamp, at, malformed, PaperLedger, RuntimeBinding, RiskState, PaperAccountRow, same_side, holds,
}
use aitrading.Paper.Risk.{RiskTerms, risk_checksum, risk_capital, max_loss_pct}
use aitrading.Paper.Fill.Request.{FillTerms}

abbrev pub runs_now : RuntimeBinding → Bool
runs_now b = same b.status runtime_running

-- The kill row, which is inserted disengaged where there is none.
abbrev pub kill_row : Option Bool → Bool
kill_row none = false
kill_row (some engaged) = engaged

-- The global runtime is RUNNING for this run, and the kill switch is off.
unfoldable pub admit_runtime : FillTerms → PaperLedger → Result RuntimeBinding
admit_runtime r l = do
  runtime ← or_fail l.runtime (safety_error "global runtime is not RUNNING")
  raise_if (not (runs_now runtime)) (safety_error "global runtime is not RUNNING")
  raise_if (not (holds runtime.run_id r.run_id))
      (safety_error "Paper run does not own the global runtime binding")
  raise_if (kill_row l.kill_switch) (safety_error "kill switch is engaged")
  ok runtime

-- The time at which the runtime was prepared, which only a BUY reads.
unfoldable pub prepared_time : Side → Option Stamp → Result (Option ℕ)
prepared_time sell stored = ok none
prepared_time buy none = ok none
prepared_time buy (some (at t)) = ok (some t)
prepared_time buy (some malformed) =
    failed (safety_error "Paper runtime prepared timestamp is invalid")

abbrev pub has_slot : Option ℕ → Bool
has_slot none = false
has_slot (some n) = n == 1

abbrev pub is_active_run : PaperRunRow → Bool
is_active_run run = same_status run.status running && has_slot run.active_slot

-- The broker's identifier is the one given, if the order has one.
abbrev pub fits_broker : Option String → String → Bool
fits_broker none id = true
fits_broker (some s) id = str_eq s id

-- The run is the active one, and the order is authorized for it with what the fill says.
unfoldable pub admit_order : FillTerms → PaperRunRow → PaperOrderRow → Result (Unit {0})
admit_order r run order = do
  raise_if (not (is_active_run run)) (safety_error "Paper Canary run is not active RUNNING")
  raise_if (not (str_eq order.run_id r.run_id))
      (conflict "order is not bound to the requested Paper Canary run")
  raise_if
      (not (same_state order.state authorized) || not (order.version == r.expected_order_version))
      (state_error "order is not AUTHORIZED at the expected version")
  raise_if (not (fits_broker order.broker_order_id r.broker_order_id))
      (conflict "broker_order_id does not match the authorized order")
  raise_if
      (not (str_eq order.instrument r.instrument)
        || not (same_side order.side r.side)
        || not (eqb_ℤ order.quantity r.quantity)
        || not (order.quote_ts == r.quote_ts))
      (conflict "fill does not match the full authorized order binding")
  ok tt

-- The configuration of the run, unaltered, and its instrument.
unfoldable pub bound_config : Codec → (instrument : String) → PaperRunRow → Result PaperConfig
bound_config codec instrument run = do
  parsed ← paper_config codec run.config_json
  raise_if
      (not (str_eq parsed.canonical run.config_json)
        || not (str_eq parsed.checksum run.config_checksum))
      (safety_error "Paper Canary config snapshot was altered")
  let c = parsed.config
  raise_if (not (str_eq instrument c.instrument))
      (safety_error "instrument is outside the one-instrument run config")
  ok c

-- An age of so many microseconds is above a number of seconds, which is in units of 10^-8.
abbrev pub is_older : ℕ → ℤ → Bool
is_older age_us max_age = ltb_ℤ max_age (pos (age_us * 100))

-- The price at which an order fills: the ask and the slippage, or the bid less that.
unfoldable pub expected_price : PaperConfig → Side → (bid ask : ℤ) → ℤ
expected_price c buy bid ask =
    half_even (ask *ℤ (all_basis_points +ℤ c.slippage_bps)) 1_000_000_000_000
expected_price c sell bid ask =
    half_even (bid *ℤ (all_basis_points -ℤ c.slippage_bps)) 1_000_000_000_000

unfoldable pub expected_commission : PaperConfig → (quantity : ℤ) → ℤ
expected_commission c quantity =
    half_even (max_ℤ (c.min_commission *ℤ one) (c.commission_per_unit *ℤ quantity)) 100_000_000

-- The quote is fresh at the fill, and the fill's terms are those of the configuration.
unfoldable pub admit_terms : FillTerms → PaperConfig → PaperOrderRow → Result (Unit {0})
unfolding expected_price expected_commission
admit_terms r c order = do
  raise_if (is_older (r.ts - r.quote_ts) c.quote_max_age_s)
      (safety_error "bound quote is stale at atomic fill commit")
  raise_if
      (not (eqb_ℤ r.price (expected_price c r.side order.quote_bid order.quote_ask))
        || not (eqb_ℤ r.commission (expected_commission c r.quantity))
        || not (eqb_ℤ r.multiplier one))
      (conflict "fill price/commission/multiplier does not match deterministic config terms")
  ok tt

abbrev pub is_off : RiskState → Bool
is_off s = s.halted || s.killed

-- The risk limits of a fill.
pub record RiskBounds : Type 0 where
  pub capital : ℤ
  pub loss_pct : ℤ

-- The risk configuration is the one that the run and the order are bound to.
unfoldable pub admit_risk :
    (is_stripped : String → Bool) (token : RiskTerms → String)
    → PaperRunRow
    → PaperOrderRow
    → PaperConfig
    → PaperLedger
    → Result RiskBounds
admit_risk is_stripped token run order c l = do
  state ← or_fail l.risk_state (safety_error "durable risk state is halted, killed, or missing")
  raise_if (is_off state) (safety_error "durable risk state is halted, killed, or missing")
  current ← risk_checksum is_stripped token l
  raise_if
      (not (str_eq current run.risk_config_checksum)
        || not (str_eq order.risk_config_checksum run.risk_config_checksum))
      (safety_error "risk configuration changed after authorization")
  capital ← risk_capital l
  raise_if (ltb_ℤ capital c.starting_cash)
      (safety_error "Paper Canary starting_cash exceeds canonical risk capital")
  pct ← max_loss_pct l
  ok (record { capital = capital; loss_pct = pct })

-- The account of the run, with the capital of its configuration.
unfoldable pub bound_account :
    (run_id : String) → PaperConfig → PaperLedger → Result PaperAccountRow
bound_account run_id c l = do
  account ← or_fail (l.accounts run_id) (safety_error "Paper Canary account is missing")
  raise_if (not (eqb_ℤ account.starting_cash c.starting_cash))
      (safety_error "account capital does not match the immutable run config")
  ok account
