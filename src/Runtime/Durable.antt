-- ===== src/Runtime/Durable.antt =====
-- The durable rows of src/atp/store/base.py that the runtime reads and writes, each method of the
-- store one transaction. A method takes the world and returns a result and the new world: what a
-- transaction wrote stays written after a later raise, and a raise inside one rolls it back.
pub mod Races
pub mod Daily
pub mod Canary
pub mod Bindings
use Prim.Native.String.{◌++◌ as append}
use aitrading.Common.{
  ℕ, ◌+◌, Bool, true, false, ◌&&◌, not, List, ◌∷◌, Option, none, some, String, if◌then◌else◌,
}
use aitrading.Common.Int.{ℤ}
use aitrading.Common.Dict.{Dict}
use aitrading.Runtime.Status.{
  RuntimeStatus, disabled, value, same, risk_increasing, forgets_binding,
}

-- The paper columns of the row `runtime_state`.
pub record PaperBinding : Type 0 where
  pub commit_sha : Option String
  pub config_checksum : Option String
  pub risk_config_checksum : Option String
  pub prepared_at : Option ℕ
  pub run_id : Option String

abbrev pub unbound : PaperBinding
unbound = record {
  commit_sha = none;
  config_checksum = none;
  risk_config_checksum = none;
  prepared_at = none;
  run_id = none;
}

pub record RuntimeStateRow : Type 0 where
  pub status : RuntimeStatus
  pub updated_at : ℕ
  pub correlation_id : ℕ
  pub reason : Option String
  pub binding : PaperBinding

pub record KillSwitchRow : Type 0 where
  pub engaged : Bool
  pub actor : Option String
  pub reason : Option String
  pub updated_at : Option ℕ

pub record AuditEventRow : Type 0 where
  pub event_id : ℕ
  pub ts : ℕ
  pub actor : String
  pub action : String
  pub previous_state : Option String
  pub new_state : Option String
  pub reason : Option String
  pub correlation_id : ℕ

-- Money is a whole number of units of 10^-8, the precision that the store keeps (`QUANT`).
pub record DailyPnlRow : Type 0 where
  pub day_start_equity : ℤ
  pub realized_pnl : ℤ
  pub unrealized_pnl : ℤ
  pub updated_at : ℕ

pub record DailyLossLockRow : Type 0 where
  pub engaged : Bool
  pub reason : Option String
  pub updated_at : Option ℕ

pub record RiskConfigRow : Type 0 where
  pub capital : ℤ
  pub risk_per_trade_pct : ℤ
  pub max_daily_loss_pct : ℤ
  pub updated_at : ℕ

pub record RiskStateRow : Type 0 where
  pub day_start_equity : ℤ
  pub peak_equity : ℤ
  pub halted : Bool
  pub killed : Bool
  pub updated_at : ℕ

pub record Tables : Type 0 where
  -- whether the connection answers, which `ping` finds out
  pub reachable : Bool
  pub runtime_state : Option RuntimeStateRow
  pub kill_switch : Option KillSwitchRow
  -- newest first
  pub audit_events : List AuditEventRow
  -- by trade date
  pub daily_pnl : Dict DailyPnlRow
  pub daily_loss_lock : Dict DailyLossLockRow
  pub risk_config : Option RiskConfigRow
  pub risk_state : Option RiskStateRow

-- The database with what surrounds it: the time that `utcnow_iso` reads, and how many identifiers
-- `new_id` has drawn. The n-th identifier drawn is the number n.
pub record World : Type 0 where
  pub db : Tables
  pub clock : ℕ
  pub drawn : ℕ

pub data Error : Type 0 where
  -- PaperCanaryStateError and PaperCanarySafetyError of the store's `transition`
  lost_compare_and_swap : (expected : RuntimeStatus) (found : Option RuntimeStatus) → Error
  kill_switch_is_engaged : Error
  -- the same of `prepare_paper_runtime` and `disable_paper_runtime_if_no_active`
  wrong_status : (found : Option RuntimeStatus) → Error
  active_run_exists : Error
  request_is_refused : Error
  -- LifecycleError, by its message
  blocked_by_kill : (what : String) → Error
  not_allowed : (what : String) (from : RuntimeStatus) → Error
  confirmation_required : Error
  recovery_requires : (found : RuntimeStatus) → Error
  reset_only_from_killed : Error

pub data Result {ℓ} (A : Type ℓ) : Type ℓ where
  ok : A → Result A
  raised : Error → Result A

abbrev pub Action : Type 0 → Type 0
Action A = World → Result A × World

module _ {A : Type 0} where
  abbrev pub pure : A → Action A
  pure a w = (ok a, w)

  abbrev pub raise : Error → Action A
  raise e w = (raised e, w)

  abbrev pub gets : (Tables → A) → Action A
  gets f w = (ok (f w.db), w)

infixl 5 ◌>>=◌ ◌>>◌
abbrev pub ◌>>=◌ : {A B : Type 0} → Action A → (A → Action B) → Action B
◌>>=◌ m f w = let (r, w') = m w in elim r [ ok a ↦ f a w' | raised e ↦ raise e w' ]

abbrev pub ◌>>◌ : {A B : Type 0} → Action A → Action B → Action B
m >> k = m >>= λ _. k

abbrev pub raise_if : Bool → Error → Action (Unit {0})
raise_if c e w = (if c then raised e else ok tt, w)

-- `new_id()`
abbrev pub new_id : Action ℕ
new_id w = (ok w.drawn, record w { drawn = w.drawn + 1 })

-- `correlation_id or new_id()`
abbrev pub or_new_id : Option ℕ → Action ℕ
or_new_id none = new_id
or_new_id (some cid) = pure cid

abbrev pub stored_status : Tables → Option RuntimeStatus
stored_status t = elim t.runtime_state [ none ↦ none | some row ↦ some row.status ]

-- `get_kill_switch().engaged`: no row reads as disengaged.
abbrev pub kill_engaged : Tables → Bool
kill_engaged t = elim t.kill_switch [ none ↦ false | some row ↦ row.engaged ]

pub record TransitionRequest : Type 0 where
  pub new_status : RuntimeStatus
  pub actor : String
  pub reason : Option String
  pub correlation_id : Option ℕ
  pub previous : Option RuntimeStatus
  pub action : Option String

-- `previous is not None and actual_previous != previous`
abbrev pub swap_lost : Option RuntimeStatus → Option RuntimeStatus → Bool
swap_lost none actual = false
swap_lost (some p) none = true
swap_lost (some p) (some a) = not (same a p)

abbrev expected_or_disabled : Option RuntimeStatus → RuntimeStatus
expected_or_disabled none = disabled
expected_or_disabled (some p) = p

-- `INSERT INTO kill_switch ... ON CONFLICT DO NOTHING`, done for the risk-increasing states only.
abbrev pub ensured_kill_row : Bool → ℕ → Option KillSwitchRow → Option KillSwitchRow
ensured_kill_row true now none =
    some (record { engaged = false; actor = none; reason = none; updated_at = some now })
ensured_kill_row _ now row = row

abbrev kept_binding : Option RuntimeStateRow → PaperBinding
kept_binding none = unbound
kept_binding (some row) = row.binding

abbrev option_value : Option RuntimeStatus → Option String
option_value none = none
option_value (some st) = some (value st)

abbrev action_text : Option String → RuntimeStatus → String
action_text none st = append "TRANSITION:" (value st)
action_text (some a) st = a

-- The event that a transition records.
abbrev pub transition_event : TransitionRequest → ℕ → ℕ → ℕ → Tables → AuditEventRow
transition_event r eid now cid t = record {
  event_id = eid;
  ts = now;
  actor = r.actor;
  action = action_text r.action r.new_status;
  previous_state = option_value (stored_status t);
  new_state = some (value r.new_status);
  reason = r.reason;
  correlation_id = cid;
}

-- The rows after a transition that went through.
abbrev pub transitioned : TransitionRequest → ℕ → ℕ → ℕ → Tables → Tables
transitioned r eid now cid t = record t {
  runtime_state = some (record {
    status = r.new_status;
    updated_at = now;
    correlation_id = cid;
    reason = r.reason;
    binding = if forgets_binding r.new_status then unbound else kept_binding t.runtime_state;
  });
  kill_switch = ensured_kill_row (risk_increasing r.new_status) now t.kill_switch;
  audit_events = transition_event r eid now cid t ∷ t.audit_events;
}

-- `SqlStore.transition`
unfoldable pub transition : TransitionRequest → Action AuditEventRow
transition r = do
  cid ← or_new_id r.correlation_id
  actual ← gets stored_status
  raise_if (swap_lost r.previous actual)
      (lost_compare_and_swap (expected_or_disabled r.previous) actual)
  engaged ← gets kill_engaged
  raise_if (risk_increasing r.new_status && engaged) kill_switch_is_engaged
  eid ← new_id
  λ w. (
    ok (transition_event r eid w.clock cid w.db),
    record w { db = transitioned r eid w.clock cid w.db },
  )

-- `SqlStore.audit`
unfoldable pub audit :
    (actor action : String) (reason previous_state new_state : Option String) → Action (Unit {0})
audit actor action reason previous new_state = do
  eid ← new_id
  cid ← new_id
  λ w. (
    ok tt,
    record w {
      db = record (w.db) {
        audit_events =
            record {
              event_id = eid;
              ts = w.clock;
              actor = actor;
              action = action;
              previous_state = previous;
              new_state = new_state;
              reason = reason;
              correlation_id = cid;
            }
            ∷ w.db.audit_events;
      };
    },
  )

-- `SqlStore.set_kill_switch`
unfoldable pub set_kill_switch :
    (engaged : Bool) (actor : String) (reason : Option String) → Action (Unit {0})
set_kill_switch engaged actor reason = do
  cid ← new_id
  eid ← new_id
  λ w. (
    ok tt,
    record w {
      db = record (w.db) {
        kill_switch = some (record {
          engaged = engaged;
          actor = some actor;
          reason = reason;
          updated_at = some w.clock;
        });
        audit_events =
            record {
              event_id = eid;
              ts = w.clock;
              actor = actor;
              action = if engaged then "KILL" else "RESET";
              previous_state = none;
              new_state = some (if engaged then "KILLED" else "RESET");
              reason = reason;
              correlation_id = cid;
            }
            ∷ w.db.audit_events;
      };
    },
  )
