-- ===== src/Paper/Fill/Market.antt =====
-- The rows of the day that a fill is committed on, and the attestation of the market data at the commit:
-- commit_paper_fill_atomic of src/atp/store/base.py.
use text.Mathlib.Text.{◌==◌ as str_eq}
use aitrading.Common.{ℕ, ◌-◌, Bool, false, not, ◌||◌, ◌&&◌, Option, none, some, String, ltb, ◌==◌}
use aitrading.Common.Int.{ℤ, pos, eqb_ℤ}
use aitrading.Runtime.Positions.{Side}
use aitrading.Paper.Money.{Result, ok, Fault, safety_error, ◌>>=◌, ◌>>◌, raise_if, or_fail}
use aitrading.Paper.Config.{PaperConfig}
use aitrading.Paper.Tables.{day_of, PaperLedger, LossLock, DailyLossState, HealthRow, is_buy}
use aitrading.Paper.Risk.{exact_positive}
use aitrading.Paper.Fill.Request.{FillTerms, timestamp}
use aitrading.Paper.Fill.Admit.{is_older}

-- `INSERT INTO daily_loss_lock ... ON CONFLICT(trade_date) DO NOTHING`, and the row then.
abbrev pub lock_row : (now : ℕ) → Option LossLock → LossLock
lock_row now none = record { engaged = false; reason = none; updated_at = now }
lock_row now (some row) = row

-- The same of `paper_daily_loss_state`.
abbrev pub loss_row : (capital : ℤ) (now : ℕ) → Option DailyLossState → DailyLossState
loss_row capital now none = record {
  risk_capital_baseline = some capital;
  cumulative_equity_delta = some (pos 0);
  version = 0;
  updated_at = now;
}
loss_row capital now (some row) = row

-- The day's rows as the fill reads them.
pub record TradingDay : Type 0 where
  pub date : ℕ
  pub lock : LossLock
  pub losses : DailyLossState
  pub capital : ℤ
  pub equity_delta : ℤ

-- The rows of the day of `candidate`: a BUY needs the lock open.
unfoldable pub trading_day : Side → (capital : ℤ) (candidate : ℕ) → PaperLedger → Result TradingDay
trading_day side capital candidate l = do
  let day = day_of candidate
  let lock = lock_row candidate (l.loss_locks day)
  raise_if (lock.engaged && is_buy side) (safety_error "daily loss lock is engaged")
  let losses = loss_row capital candidate (l.daily_losses day)
  baseline ←
      exact_positive losses.risk_capital_baseline "durable Paper daily-loss aggregate is invalid"
  delta ←
      or_fail losses.cumulative_equity_delta
        (safety_error "durable Paper daily-loss aggregate is invalid")
  raise_if (not (eqb_ℤ baseline capital))
      (safety_error "durable Paper daily-loss capital baseline changed during the UTC day")
  ok (record { date = day; lock = lock; losses = losses; capital = baseline; equity_delta = delta })

-- The market-data row is the one of the symbol, from the realtime source and ready.
abbrev pub is_attested : (instrument : String) → HealthRow → Bool
is_attested instrument h =
    str_eq h.symbol instrument && str_eq h.source "MASSIVE" && str_eq h.status "READY"

abbrev pub stamp_error : Fault
stamp_error =
    safety_error "market-data health updated_at/quote_ts timestamps are invalid or missing"

abbrev pub is_after : Option ℕ → ℕ → Bool
is_after none t = false
is_after (some p) t = ltb t p

abbrev pub is_other_day : Option ℕ → ℕ → Bool
is_other_day none t = false
is_other_day (some p) t = not (day_of p == day_of t)

-- The times of a fill at its commit: none is in the future, all are of one day, and the market data is not
-- older than the quote nor too old.
unfoldable pub attest_times :
    FillTerms
    → PaperConfig
    → (prepared : Option ℕ) (candidate commit health quote : ℕ) → Result (Unit {0})
attest_times r c prepared candidate commit health quote = do
  raise_if
      (ltb commit r.quote_ts
        || ltb commit r.ts
        || ltb commit health
        || ltb commit quote
        || is_after prepared commit)
      (safety_error
        "prepared/quote/fill/market-data timestamp is in the future at atomic fill commit")
  raise_if (not (day_of commit == day_of candidate) || not (day_of r.ts == day_of commit))
      (safety_error "candidate, fill evidence, and atomic commit must share one UTC trading day")
  raise_if (is_other_day prepared commit)
      (safety_error "Paper run cannot fill outside its prepared UTC trading day")
  raise_if (ltb quote r.quote_ts)
      (safety_error "durable current quote predates the bound order quote")
  raise_if (ltb health quote)
      (safety_error "market-data health predates its durable current REALTIME quote")
  raise_if (is_older (commit - health) c.quote_max_age_s)
      (safety_error "market-data health became stale before the atomic fill commit")
  raise_if (is_older (commit - quote) c.quote_max_age_s)
      (safety_error "durable current quote became stale before the atomic fill commit")
  raise_if (is_older (commit - r.quote_ts) c.quote_max_age_s)
      (safety_error "bound quote became stale while waiting to commit the atomic fill")
  ok tt

-- The attestation of the market-data row at the time of the commit.
unfoldable pub attest_market :
    FillTerms
    → PaperConfig
    → (prepared : Option ℕ) (candidate commit : ℕ) → PaperLedger
    → Result (Unit {0})
unfolding attest_times
attest_market r c prepared candidate commit l = do
  health ←
      or_fail (l.health r.instrument)
        (safety_error "market-data health is not exact MASSIVE/READY/REALTIME for the fill symbol")
  raise_if (not (is_attested r.instrument health))
      (safety_error "market-data health is not exact MASSIVE/READY/REALTIME for the fill symbol")
  health_time ← timestamp health.updated_at stamp_error
  quote_time ← timestamp health.quote_ts stamp_error
  attest_times r c prepared candidate commit health_time quote_time
