-- ===== src/Runtime/Durable/Canary.antt =====
-- The two transactions of src/atp/store/base.py that move the stored status for the paper canary: `prepare_paper_runtime`
-- and `disable_paper_runtime_if_no_active`. What they read of rows that are not among the runtime rows is in the request.
use Prim.Native.String.{◌++◌ as append}
use text.Mathlib.Text.{◌==◌ as str_eq}
use aitrading.Common.{
  ℕ, Bool, true, false, not, ◌&&◌, ◌||◌, List, [], ◌∷◌, Option, none, some, String, if◌then◌else◌,
}
use aitrading.Common.Int.{pos, ltb_ℤ}
use aitrading.Common.Dict.{lookup, insert}
use aitrading.Runtime.Status.{
  RuntimeStatus, disabled, ready_for_arm, armed, running, halted, value, same, contains,
}
use aitrading.Runtime.Durable.{
  Tables, Action, ok, gets, ◌>>=◌, ◌>>◌, raise_if, new_id, stored_status, kill_engaged,
  ensured_kill_row, unbound, RiskConfigRow, RiskStateRow, DailyLossLockRow, RuntimeStateRow,
  request_is_refused, wrong_status, active_run_exists, kill_switch_is_engaged,
}
use aitrading.Runtime.Durable.Daily.{loss_locked}

pub record PrepareRequest : Type 0 where
  pub commit_sha : String
  pub config_checksum : String
  pub risk_config_checksum : String
  pub actor : String
  pub reason : String
  pub today : String
  -- `MONEY_AS_TEXT`: the database is SQLite
  pub money_as_text : Bool
  -- the arguments have their form, and the checksum of the configuration is the expected one
  pub is_well_formed : Bool
  -- a row of paper_canary_runs has the active slot
  pub has_active_run : Bool
  -- the checksum of the Risk Control row is the expected one, and the starting cash at most its capital
  pub risk_is_unchanged : Bool
  -- a timestamp is of the current UTC day
  pub is_of_today : ℕ → Bool
  -- the aggregate of the day and the row of daily_pnl agree with the baselines and leave some budget
  pub has_budget : Bool
  -- the row of market_data_health is MASSIVE and READY, and neither it nor its quote is stale
  pub has_fresh_quote : Bool

abbrev is_missing {ℓ} : {A : Type ℓ} → Option A → Bool
is_missing none = true
is_missing (some _) = false

abbrev pub has_status : RuntimeStatus → Option RuntimeStatus → Bool
has_status st none = false
has_status st (some actual) = same st actual

-- `INSERT INTO risk_state ... ON CONFLICT DO NOTHING`, with the capital as the baseline.
abbrev ensured_risk_state : ℕ → Option RiskConfigRow → Option RiskStateRow → Option RiskStateRow
ensured_risk_state now _ (some row) = some row
ensured_risk_state now none none = none
ensured_risk_state now (some cfg) none = some (record {
  day_start_equity = cfg.capital;
  peak_equity = cfg.capital;
  halted = false;
  killed = false;
  updated_at = now;
})

-- What the prepare asks of the risk state.
abbrev is_sound_risk_state : (ℕ → Bool) → Option RiskStateRow → Bool
is_sound_risk_state of_today none = false
is_sound_risk_state of_today (some row) =
    ltb_ℤ (pos 0) row.day_start_equity
    && ltb_ℤ (pos 0) row.peak_equity
    && not (row.halted || row.killed || ltb_ℤ row.peak_equity row.day_start_equity)
    && of_today row.updated_at

-- `INSERT INTO daily_loss_lock ... ON CONFLICT DO NOTHING`
abbrev ensured_loss_lock :
    (date : String) (now : ℕ) (found : Option DailyLossLockRow)
    → List (String × DailyLossLockRow)
    → List (String × DailyLossLockRow)
ensured_loss_lock date now (some _) locks = locks
ensured_loss_lock date now none locks =
    insert date
      (record {
        engaged = false;
        reason = some "Paper Canary pre-arm baseline";
        updated_at = some now;
      })
      locks

-- The reason that the audit log keeps.
abbrev audit_reason : PrepareRequest → (observed : Bool) → String
audit_reason r observed = append r.reason (
    append "; commit=" (
      append r.commit_sha (
        append "; config=" (
          append r.config_checksum (
            append "; risk=" (
              append r.risk_config_checksum
                (append "; daily_pnl=" (if observed then "observed" else "no-data"))))))))

abbrev pnl_observed : String → Tables → Bool
pnl_observed date t = not (is_missing (lookup date t.daily_pnl))

-- The rows after a prepare that went through.
abbrev pub made_ready : PrepareRequest → (now cid eid : ℕ) → Tables → Tables
made_ready r now cid eid t =
    let why = audit_reason r (pnl_observed r.today t) in
    record t {
      runtime_state = some (record {
        status = ready_for_arm;
        updated_at = now;
        correlation_id = cid;
        reason = some why;
        binding = record {
          commit_sha = some r.commit_sha;
          config_checksum = some r.config_checksum;
          risk_config_checksum = some r.risk_config_checksum;
          prepared_at = some now;
          run_id = none;
        };
      });
      kill_switch = ensured_kill_row true now t.kill_switch;
      risk_state = ensured_risk_state now t.risk_config t.risk_state;
      daily_loss_lock =
          ensured_loss_lock r.today now (lookup r.today t.daily_loss_lock) t.daily_loss_lock;
      audit_events =
          record {
            event_id = eid;
            ts = now;
            actor = r.actor;
            action = "PAPER_CANARY_READY";
            previous_state = some "DISABLED";
            new_state = some "READY_FOR_ARM";
            reason = some why;
            correlation_id = cid;
          }
          ∷ t.audit_events;
    }

-- `prepare_paper_runtime`: whether it initialized the risk state, and whether the day has a row of P&L.
unfoldable pub prepare_paper_runtime : PrepareRequest → Action (Bool × Bool)
prepare_paper_runtime r = do
  raise_if (not r.is_well_formed) request_is_refused
  unconfigured ← gets (λ t. is_missing t.risk_config)
  raise_if (r.money_as_text && unconfigured) request_is_refused
  actual ← gets stored_status
  raise_if (not (has_status disabled actual)) (wrong_status actual)
  raise_if r.has_active_run active_run_exists
  engaged ← gets kill_engaged
  raise_if engaged kill_switch_is_engaged
  raise_if (unconfigured || not r.risk_is_unchanged) request_is_refused
  sound ← λ w. (
    ok (
        is_sound_risk_state r.is_of_today
          (ensured_risk_state w.clock w.db.risk_config w.db.risk_state)),
    w,
  )
  raise_if (not sound) request_is_refused
  locked ← gets (loss_locked r.today)
  raise_if locked request_is_refused
  raise_if (not r.has_budget) request_is_refused
  raise_if (not r.has_fresh_quote) request_is_refused
  cid ← new_id
  eid ← new_id
  λ w. (
    ok (is_missing w.db.risk_state, pnl_observed r.today w.db),
    record w { db = made_ready r w.clock cid eid w.db },
  )

pub record DisableRequest : Type 0 where
  pub actor : String
  pub reason : String
  pub expected_run_id : Option String
  -- the arguments have their form
  pub is_well_formed : Bool
  -- a row of paper_canary_runs has the active slot
  pub has_active_run : Bool

-- The statuses that may be disabled.
abbrev may_disable : Option RuntimeStatus → Bool
may_disable none = false
may_disable (some st) = contains (disabled ∷ ready_for_arm ∷ armed ∷ running ∷ halted ∷ []) st

abbrev bound_run : Option RuntimeStateRow → Option String
bound_run none = none
bound_run (some row) = row.binding.run_id

-- The run that the caller expects is not the one bound, where the status is not DISABLED and unbound.
abbrev is_other_run : (is_disabled : Bool) (expected bound : Option String) → Bool
is_other_run true expected none = false
is_other_run false none none = false
is_other_run _ none (some b) = true
is_other_run false (some e) none = true
is_other_run _ (some e) (some b) = not (str_eq b e)

abbrev status_text : Option RuntimeStatus → Option String
status_text none = none
status_text (some st) = some (value st)

-- The rows after a disable that changed the status.
abbrev pub disabled_now : DisableRequest → (now cid eid : ℕ) → Tables → Tables
disabled_now r now cid eid t = record t {
  runtime_state = some (record {
    status = disabled;
    updated_at = now;
    correlation_id = cid;
    reason = some r.reason;
    binding = unbound;
  });
  kill_switch = ensured_kill_row true now t.kill_switch;
  audit_events =
      record {
        event_id = eid;
        ts = now;
        actor = r.actor;
        action = "PAPER_CANARY_DISABLE";
        previous_state = status_text (stored_status t);
        new_state = some "DISABLED";
        reason = some r.reason;
        correlation_id = cid;
      }
      ∷ t.audit_events;
}

-- The update of `disable_paper_runtime_if_no_active`, and its event.
abbrev disable_row : DisableRequest → Action Bool
disable_row r = do
  cid ← new_id
  eid ← new_id
  λ w. (ok true, record w { db = disabled_now r w.clock cid eid w.db })

-- The row of the latch alone is left, where the status was DISABLED before.
abbrev leave_disabled : Action Bool
leave_disabled w = (
  ok false,
  record w { db = record (w.db) { kill_switch = ensured_kill_row true w.clock w.db.kill_switch } },
)

-- `disable_paper_runtime_if_no_active`: whether it changed the status.
unfoldable pub disable_paper_runtime_if_no_active : DisableRequest → Action Bool
disable_paper_runtime_if_no_active r = do
  raise_if (not r.is_well_formed) request_is_refused
  actual ← gets stored_status
  raise_if (not (may_disable actual)) (wrong_status actual)
  bound ← gets (λ t. bound_run t.runtime_state)
  raise_if (is_other_run (has_status disabled actual) r.expected_run_id bound) request_is_refused
  engaged ← gets kill_engaged
  raise_if engaged kill_switch_is_engaged
  raise_if r.has_active_run active_run_exists
  if has_status disabled actual then leave_disabled else disable_row r
