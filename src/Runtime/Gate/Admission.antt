-- ===== src/Runtime/Gate/Admission.antt =====
-- When the gate of src/atp/runtime/gate.py lets a trade pass, and what the daily loss does to it.
use aitrading.Common.{true, false, none, some, String, ◌≡◌, arith, ◌↔◌, ◌≢◌}
use aitrading.Common.Int.{pos, ◌*ℤ◌, ◌≤ℤ◌, ltb_ℤ, int_laws}
use aitrading.Common.Dict.{lookup, lookup-insert_self}
use aitrading.Runtime.Status.{running}
use aitrading.Runtime.Durable.{
  Tables, World, ok, kill_engaged, stored_status, RiskConfigRow, DailyPnlRow,
}
use aitrading.Runtime.Durable.Daily.{loss_locked, loss_of}
use aitrading.Runtime.Gate.{
  can_trade, can_reduce_risk, remaining_daily_budget, remaining_of, enforce_daily_loss, engage_once,
  percent, scale, is_spent,
}

-- The conditions under which risk may be reduced.
pub record IsHealthy (t : Tables) : Type 0 where
  pub reachable : t.reachable ≡ true
  pub not_killed : kill_engaged t ≡ false
  pub runs : stored_status t ≡ some running
  pub has_risk_state : t.risk_state ≢ none

-- A reduction of risk is allowed exactly when the database answers, the kill latch is off, the stored status is
-- RUNNING and the risk state is there.
pub can_reduce_risk_iff : (t : Tables) → ((can_reduce_risk t).allowed ≡ true) ↔ IsHealthy t
unfolding can_reduce_risk
can_reduce_risk_iff t = ground arith

-- A trade is allowed on a day exactly when a reduction of risk is, and the loss lock of the day is off.
pub can_trade_iff :
    (date : String) (t : Tables)
    → ((can_trade date t).allowed ≡ true) ↔ (IsHealthy t × (loss_locked date t ≡ false))
unfolding can_trade
can_trade_iff date t = ground arith

-- The loss of the day has reached the limit: capital times percentage over 100, at scale 10^-18.
abbrev pub LimitReached : RiskConfigRow → DailyPnlRow → Type 0
LimitReached cfg pnl = cfg.capital *ℤ cfg.max_daily_loss_pct ≤ℤ loss_of pnl *ℤ scale

-- The configuration that the budget is computed from is usable.
abbrev pub IsUsable : RiskConfigRow → Type 0
IsUsable cfg =
    (ltb_ℤ (pos 0) cfg.capital ≡ true)
    × (ltb_ℤ (pos 0) cfg.max_daily_loss_pct ≡ true)
    × (cfg.max_daily_loss_pct ≤ℤ percent)

is_spent_of_limit :
    (cfg : RiskConfigRow) (pnl : DailyPnlRow)
    → IsUsable cfg
    → LimitReached cfg pnl
    → is_spent (remaining_of (some cfg) (some pnl)) ≡ true
unfolding remaining_of
is_spent_of_limit cfg pnl u l = grind int_laws

engage_once_locks :
    (date : String) (w : World)
    → let (r, w') = engage_once date w in
      (r ≡ ok true)
      × (loss_locked date w'.db ≡ true)
      × (stored_status w'.db ≡ stored_status w.db)
      × (kill_engaged w'.db ≡ kill_engaged w.db)
unfolding engage_once
engage_once_locks date w = ground (
  arith,
  lookup-insert_self date
      (record {
        engaged = true;
        reason = some "daily loss limit reached (durable)";
        updated_at = some w.clock;
      })
      w.db.daily_loss_lock,
)

-- Enforcing a loss that has reached the limit locks the day, and keeps the status and the kill latch.
pub enforce_daily_loss-locks :
    (date : String) (cfg : RiskConfigRow) (pnl : DailyPnlRow) (w : World)
    → w.db.risk_config ≡ some cfg
    → lookup date w.db.daily_pnl ≡ some pnl
    → IsUsable cfg
    → LimitReached cfg pnl
    → let (r, w') = enforce_daily_loss date w in
      (r ≡ ok true)
      × (loss_locked date w'.db ≡ true)
      × (stored_status w'.db ≡ stored_status w.db)
      × (kill_engaged w'.db ≡ kill_engaged w.db)
unfolding enforce_daily_loss
enforce_daily_loss-locks date cfg pnl w c p u l =
    ground (arith, is_spent_of_limit cfg pnl u l, engage_once_locks date w)

-- While the day's budget is not spent, or cannot be computed, enforcing changes no row.
pub enforce_daily_loss_idle :
    (date : String) (w : World)
    → is_spent (remaining_daily_budget date w.db) ≡ false
    → enforce_daily_loss date w ≡ (ok (loss_locked date w.db), w)
unfolding enforce_daily_loss
enforce_daily_loss_idle date w h = ground arith
