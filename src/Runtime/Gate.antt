-- ===== src/Runtime/Gate.antt =====
-- TradingGate and the durable daily-loss lock of src/atp/runtime/gate.py.
pub mod Admission
pub mod Locked
use Prim.Native.String.{◌++◌ as append}
use aitrading.Common.{
  ℕ, ◌+◌, ◌*◌, Bool, true, false, not, ◌&&◌, List, [], ◌∷◌, Option, none, some, String, ◌≡◌, refl,
  arith, if◌then◌else◌, ◌↔◌,
}
use aitrading.Common.Int.{ℤ, pos, ◌+ℤ◌, ◌-ℤ◌, ◌*ℤ◌, ◌≤ℤ◌, ltb_ℤ, leb_ℤ, max_ℤ, neg_ℤ, int_laws}
use aitrading.Common.Dict.{lookup, insert, lookup-insert_self}
use aitrading.Runtime.Status.{RuntimeStatus, running, recovery_required, value, same}
use aitrading.Runtime.Durable.{
  Tables, World, Action, Result, ok, gets, pure, ◌>>=◌, ◌>>◌, kill_engaged, stored_status,
  RiskConfigRow, DailyPnlRow,
}
use aitrading.Runtime.Durable.Daily.{loss_locked, loss_of, set_daily_loss_lock}
use aitrading.Runtime.Lifecycle.{status_of}

pub record GateResult : Type 0 where
  pub allowed : Bool
  pub reason : String

abbrev pub deny : String → GateResult
deny reason = record { allowed = false; reason = reason }

abbrev pub allow : GateResult
allow = record { allowed = true; reason = "ok" }

abbrev is_none {ℓ} : {A : Type ℓ} → Option A → Bool
is_none none = true
is_none (some _) = false

-- `TradingGate._base`
pub base : Tables → GateResult
base t =
    if not t.reachable
    then deny "database unavailable → NO NEW TRADE"
    else if kill_engaged t
    then deny "kill switch engaged → HALT"
    else if same (status_of t) recovery_required
    then deny "recovery required → NO NEW TRADE"
    else if not (same (status_of t) running)
    then deny (append "not RUNNING (state " (append (value (status_of t)) ") → NO NEW TRADE"))
    else if is_none t.risk_state
    then deny "risk state unavailable → NO NEW TRADE"
    else allow

-- `can_trade`
pub can_trade : (trade_date : String) → Tables → GateResult
unfolding base
can_trade date t =
    if not (base t).allowed
    then base t
    else if loss_locked date t
    then deny "daily loss limit reached → HALT"
    else allow

-- `can_reduce_risk`
pub can_reduce_risk : Tables → GateResult
unfolding base
can_reduce_risk t = base t

-- 100 percent, in units of 10^-8.
abbrev pub percent : ℤ
percent = pos 10000000000

-- From units of 10^-8 to units of 10^-18, those of a capital times a percentage over 100.
abbrev pub scale : ℤ
scale = pos 10000000000

abbrev config_is_valid : RiskConfigRow → Bool
config_is_valid cfg =
    ltb_ℤ (pos 0) cfg.capital
    && ltb_ℤ (pos 0) cfg.max_daily_loss_pct
    && leb_ℤ cfg.max_daily_loss_pct percent

-- `remaining_daily_budget` on the rows that it reads, in units of 10^-18.
unfoldable pub remaining_of : Option RiskConfigRow → Option DailyPnlRow → Option ℤ
remaining_of none pnl = none
remaining_of (some cfg) none = none
remaining_of (some cfg) (some pnl) =
    if config_is_valid cfg
    then some (max_ℤ (pos 0) (cfg.capital *ℤ cfg.max_daily_loss_pct -ℤ loss_of pnl *ℤ scale))
    else none

unfoldable pub remaining_daily_budget : (trade_date : String) → Tables → Option ℤ
unfolding remaining_of
remaining_daily_budget date t = remaining_of t.risk_config (lookup date t.daily_pnl)

abbrev is_spent : Option ℤ → Bool
is_spent none = false
is_spent (some rem) = leb_ℤ rem (pos 0)

unfoldable pub engage_once : (date : String) → Action Bool
unfolding set_daily_loss_lock
engage_once date = do
  locked ← gets (loss_locked date)
  if locked
      then pure true
      else (set_daily_loss_lock date true (some "daily loss limit reached (durable)") "risk"
          >> pure true)

-- `enforce_daily_loss`
pub enforce_daily_loss : (trade_date : String) → Action Bool
unfolding remaining_daily_budget engage_once
enforce_daily_loss date = do
  rem ← gets (remaining_daily_budget date)
  if is_spent rem then engage_once date else gets (loss_locked date)
