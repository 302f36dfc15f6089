-- ===== src/Runtime/Lifecycle.antt =====
-- LifecycleManager of src/atp/runtime/lifecycle.py, method by method. Each read and each transition
-- is its own transaction on the store; a method that raises keeps what it had written before.
pub mod Crash
pub mod Latch
pub mod Entry
use aitrading.Common.{
  Bool, true, false, not, ◌&&◌, List, [], ◌∷◌, ◌++◌, Option, none, some, String, if◌then◌else◌,
}
use Prim.Native.String.{◌++◌ as append}
use text.Mathlib.Text.{◌==◌ as str_eq}
use aitrading.Runtime.Status.{
  RuntimeStatus, disabled, ready_for_arm, armed, running, halted, killed, recovery_required, value,
  same, contains, active_on_crash,
}
use aitrading.Runtime.Durable.{
  Tables, Action, pure, raise, gets, ◌>>=◌, ◌>>◌, raise_if, blocked_by_kill, not_allowed,
  confirmation_required, recovery_requires, reset_only_from_killed, stored_status, kill_engaged,
  transition, audit, set_kill_switch,
}

abbrev pub or_disabled : Option RuntimeStatus → RuntimeStatus
or_disabled none = disabled
or_disabled (some st) = st

-- `LifecycleManager.status` of the stored rows.
abbrev pub status_of : Tables → RuntimeStatus
status_of t = or_disabled (stored_status t)

abbrev pub status : Action RuntimeStatus
status = gets status_of

-- `LifecycleManager.killed`
abbrev pub is_killed : Action Bool
is_killed = gets kill_engaged

abbrev step_to :
    RuntimeStatus → (actor reason action : String) → Option RuntimeStatus → Action RuntimeStatus
step_to st actor reason action previous =
    transition (record {
      new_status = st;
      actor = actor;
      reason = some reason;
      correlation_id = none;
      previous = previous;
      action = some action;
    })
    >>= λ _. pure st

-- The branches of `recover` when the kill latch is off, on the stored status.
recover_unlatched : (actor : String) → Option RuntimeStatus → Action RuntimeStatus
unfolding transition
recover_unlatched actor none = step_to disabled actor "first boot" "INIT" none
recover_unlatched actor (some prev) =
    if contains active_on_crash prev
    then step_to recovery_required actor (append "unexpected restart from " (value prev))
        "RECOVERY_START" (some prev)
    else pure prev

abbrev is_not_killed : Option RuntimeStatus → Bool
is_not_killed none = true
is_not_killed (some st) = not (same st killed)

-- Its branches when the latch is on.
recover_latched : (actor : String) → Option RuntimeStatus → Action RuntimeStatus
unfolding transition
recover_latched actor stored =
    if is_not_killed stored
    then step_to killed actor "kill switch engaged (durable) on restart" "RECOVERY_START" stored
    else pure killed

-- `recover`
pub recover : (actor : String) → Action RuntimeStatus
unfolding recover_latched recover_unlatched
recover actor = do
  latched ← is_killed
  stored ← gets stored_status
  if latched then recover_latched actor stored else recover_unlatched actor stored

-- What an injected checker does: it returns a truth value or raises.
pub data CheckOutcome : Type 0 where
  returned : Bool → CheckOutcome
  raised_by_check : CheckOutcome

-- `bool(fn()) if fn is not None else False`, and False for a checker that raises.
abbrev pub check_passes : Option CheckOutcome → Bool
check_passes none = false
check_passes (some (returned b)) = b
check_passes (some raised_by_check) = false

-- `RECOVERY_STEPS`
abbrev pub recovery_steps : List String
recovery_steps =
    "load_runtime_state" ∷ "load_risk_state" ∷ "load_daily_pnl" ∷ "load_daily_loss_lock"
    ∷ "load_kill_switch" ∷ "load_positions" ∷ "load_orders" ∷ "load_fills" ∷ "query_broker"
    ∷ "reconcile" ∷ "validate_market_data" ∷ "validate_risk_service" ∷ "validate_database" ∷ []

abbrev recovery_failed : (actor step : String) → Action (Unit {0})
recovery_failed actor step =
    audit actor "RECOVERY_FAIL" (some (append "recovery check failed: " step))
      (some (value recovery_required)) (some (value recovery_required))

-- The loop of `run_recovery` over the steps, with the results so far.
unfoldable pub run_steps :
    (checks : String → Option CheckOutcome) (actor : String)
    → List String
    → List (String × Bool)
    → Action (Bool × List (String × Bool))
unfolding transition audit
run_steps checks actor [] results =
    step_to ready_for_arm actor "recovery checks passed" "RECOVERY_PASS" (some recovery_required)
    >>= λ _. pure (true, results)
run_steps checks actor (step ∷ rest) results =
    let rounds = run_steps checks actor rest (results ++ (step, true) ∷ []) in
    if check_passes (checks step)
    then rounds
    else (recovery_failed actor step >> pure (false, results ++ (step, false) ∷ []))

-- `run_recovery`
unfoldable pub run_recovery :
    (checks : String → Option CheckOutcome) (actor : String) → Action (Bool × List (String × Bool))
run_recovery checks actor = do
  st ← status
  raise_if (not (same st recovery_required)) (recovery_requires st)
  run_steps checks actor recovery_steps []

-- `_require`
abbrev pub require : List RuntimeStatus → (what : String) → Action RuntimeStatus
require allowed what = do
  latched ← is_killed
  raise_if latched (blocked_by_kill what)
  st ← status
  raise_if (not (contains allowed st)) (not_allowed what st)
  pure st

pub mark_ready : (actor reason : String) → Action RuntimeStatus
unfolding transition
mark_ready actor reason = do
  st ← require (disabled ∷ []) "mark_ready"
  step_to ready_for_arm actor reason "READY" (some st)

unfoldable pub arm : (actor : String) → Action RuntimeStatus
unfolding transition
arm actor = do st ← require (ready_for_arm ∷ []) "arm"; step_to armed actor "armed" "ARM" (some st)

-- The `confirm` argument of `start`: a Boolean, a text, or any other object.
pub data Confirmation : Type 0 where
  flag : Bool → Confirmation
  phrase : String → Confirmation
  other : Confirmation

abbrev pub confirm_phrase : String
confirm_phrase = "YES, START PAPER TRADING"

abbrev pub is_confirmed : Confirmation → Bool
is_confirmed (flag b) = b
is_confirmed (phrase text) = str_eq text confirm_phrase
is_confirmed other = false

abbrev start_rejected : (actor : String) → RuntimeStatus → Action RuntimeStatus
start_rejected actor st =
    audit actor "START_REJECTED" (some "confirmation required (two-step activation)")
      (some (value st)) (some (value st))
    >> raise confirmation_required

unfoldable pub started : Confirmation → (actor : String) → RuntimeStatus → Action RuntimeStatus
unfolding transition audit
started confirm actor st =
    if is_confirmed confirm
    then step_to running actor "explicit confirmation" "START" (some st)
    else start_rejected actor st

unfoldable pub start : Confirmation → (actor : String) → Action RuntimeStatus
unfolding started
start confirm actor = do st ← require (armed ∷ []) "start"; started confirm actor st

pub stop : (actor : String) → Action RuntimeStatus
unfolding transition
stop actor = do
  st ← require (running ∷ halted ∷ []) "stop"
  step_to armed actor "stopped" "STOP" (some st)

pub disarm : (actor : String) → Action RuntimeStatus
unfolding transition
disarm actor = do
  st ← require (armed ∷ ready_for_arm ∷ halted ∷ []) "disarm"
  step_to disabled actor "disarmed" "DISARM" (some st)

pub halt : (actor reason : String) → Action RuntimeStatus
unfolding transition
halt actor reason = do
  latched ← is_killed
  st ← status
  if latched then pure killed else step_to halted actor reason "HALT" (some st)

pub kill : (actor reason : String) → Action RuntimeStatus
unfolding transition set_kill_switch
kill actor reason = do
  set_kill_switch true actor (some reason)
  step_to killed actor reason "KILL" none

pub reset_kill : (actor reason : String) → Action RuntimeStatus
unfolding transition set_kill_switch
reset_kill actor reason = do
  st ← status
  latched ← is_killed
  raise_if (not (same st killed) && not latched) reset_only_from_killed
  set_kill_switch false actor (some reason)
  step_to disabled actor reason "RESET" (some killed)
