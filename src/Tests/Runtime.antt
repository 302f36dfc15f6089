-- ===== src/Tests/Runtime.antt =====
-- The lifecycle, the gate and the runtime rows of src/atp/runtime and src/atp/store/base.py at concrete
-- rows.
use text.Mathlib.TextEquality.{eq_iff}
use aitrading.Common.{
  Bool, true, false, List, [], ◌∷◌, Option, none, some, String, ◌≡◌, refl, ◌⊎◌, arith, ◌≢◌,
}
use aitrading.Common.Int.{◌+ℤ◌, ◌-ℤ◌, ◌*ℤ◌, ℤ, pos, negsuc, ◌≤ℤ◌, neg_ℤ}
use aitrading.Common.Dict.{lookup, insert}
use aitrading.Runtime.Status.{
  RuntimeStatus, disabled, ready_for_arm, armed, running, halted, killed, recovery_required,
}
use aitrading.Runtime.Durable.{
  World, ok, raised, DailyPnlRow, TransitionRequest, unbound, kill_engaged, stored_status,
  lost_compare_and_swap, transition,
}
use aitrading.Runtime.Durable.Canary.{PrepareRequest, prepare_paper_runtime}
use aitrading.Runtime.Durable.Bindings.{Forgets, binding_is_forgotten}
use aitrading.Runtime.Durable.Races.{
  Transaction, transition_tx, kill_tx, prepare_tx, disable_tx, commit_all, latched_never_advances,
  is_risk_increasing?, transition_once,
}
use aitrading.Runtime.Durable.Daily.{
  reserve_all, reserve_found, try_reserve_daily_risk, HasBooked, reservations_within_budget,
}
use aitrading.Runtime.Lifecycle.{
  CheckOutcome, run_recovery, kill, reset_kill, flag, start, arm, run_steps,
}
use aitrading.Runtime.Lifecycle.Latch.{
  Call, recover_call, run_recovery_call, arm_call, start_call, stop_call, halt_call, after,
  after_all, any, IsKilled, kill_latches,
}
use aitrading.Runtime.Lifecycle.Entry.{
  running_only_by_start, leaves_by_recovery, halt_bypasses_recovery, reset_kill_reopens,
  is_passed_recovery,
}
use aitrading.Runtime.Gate.{can_trade, enforce_daily_loss}
use aitrading.Runtime.Gate.Locked.{
  DayCall, enforce_call, lock_call, reserve_call, store_call, after_calls,
  enforce_daily_loss_blocks,
}

-- A store with a status, a latch and a day that has lost some money, in units of 10^-8.
abbrev store_with : RuntimeStatus → Bool → ℤ → World
store_with st latch realized = record {
  db = record {
    reachable = true;
    runtime_state = some (record {
      status = st;
      updated_at = 1;
      correlation_id = 0;
      reason = none;
      binding = unbound;
    });
    kill_switch =
        some
          (record { engaged = latch; actor = some "operator"; reason = none; updated_at = some 1 });
    audit_events = [];
    daily_pnl =
        (
          "2024-05-02",
          record {
            day_start_equity = pos 10000000000000;
            realized_pnl = realized;
            unrealized_pnl = pos 0;
            updated_at = 1;
          },
        )
        ∷ [];
    daily_loss_lock = [];
    risk_config = some (record {
      capital = pos 10000000000000;
      risk_per_trade_pct = pos 100000000;
      max_daily_loss_pct = pos 300000000;
      updated_at = 1;
    });
    risk_state = some (record {
      day_start_equity = pos 10000000000000;
      peak_equity = pos 10000000000000;
      halted = false;
      killed = false;
      updated_at = 1;
    });
  };
  clock = 7;
  drawn = 3;
}

abbrev request : RuntimeStatus → Option RuntimeStatus → TransitionRequest
request new previous = record {
  new_status = new;
  actor = "operator";
  reason = some "test";
  correlation_id = none;
  previous = previous;
  action = none;
}

abbrev passing : String → Option CheckOutcome
passing _ = some (CheckOutcome.returned true)

-- A prepare that passes every check but the one of the latch.
abbrev sound_prepare : PrepareRequest
sound_prepare = record {
  commit_sha = "0123";
  config_checksum = "sha256:0";
  risk_config_checksum = "00";
  actor = "operator";
  reason = "canary";
  today = "2024-05-02";
  money_as_text = true;
  is_well_formed = true;
  has_active_run = false;
  risk_is_unchanged = true;
  is_of_today = λ _. true;
  has_budget = true;
  has_fresh_quote = true;
}

-- With the latch off it moves DISABLED to READY_FOR_ARM.
prepare_advances :
    stored_status (prepare_paper_runtime sound_prepare (store_with disabled false (pos 0))).1.db
    ≡ some ready_for_arm
unfolding prepare_paper_runtime lookup
prepare_advances = refl

abbrev racing : List Transaction
racing =
    transition_tx (request halted none)
    ∷ transition_tx (request running (some halted))
    ∷ kill_tx true "operator" none
    ∷ prepare_tx sound_prepare
    ∷ []

latched_never_advances_example :
    let w' = commit_all racing (store_with disabled true (pos 0)) in
    (kill_engaged w'.db ≡ true)
    × ((stored_status w'.db ≡ some disabled) ⊎ (is_risk_increasing? (stored_status w'.db) ≡ false))
latched_never_advances_example =
    latched_never_advances racing (store_with disabled true (pos 0)) (refl, tt) refl

-- A prepare, and a kill that takes the status away from it.
abbrev prepared_then_killed : List Transaction
prepared_then_killed =
    prepare_tx sound_prepare
    ∷ transition_tx (request killed (some ready_for_arm))
    ∷ disable_tx (record {
      actor = "operator";
      reason = "end";
      expected_run_id = none;
      is_well_formed = true;
      has_active_run = false;
    })
    ∷ []

binding_is_forgotten_example :
    Forgets (commit_all prepared_then_killed (store_with disabled false (pos 0))).db.runtime_state
binding_is_forgotten_example =
    binding_is_forgotten prepared_then_killed (store_with disabled false (pos 0))
      (λ _. (refl, refl, refl, refl))

abbrev attempts : List Call
attempts =
    recover_call "system"
    ∷ run_recovery_call passing "system"
    ∷ arm_call "operator"
    ∷ start_call (flag true) "operator"
    ∷ []

kill_latches_example :
    IsKilled (after_all attempts (kill "operator" "test" (store_with running false (pos 0))).1)
kill_latches_example =
    kill_latches "operator" "test" attempts (store_with running false (pos 0)) refl

running_only_by_start_example :
    (some armed ≡ some running) ⊎ ((true ≡ true) × (some armed ≡ some armed) × (false ≡ false))
unfolding after start
running_only_by_start_example =
    running_only_by_start (start_call (flag true) "operator") (store_with armed false (pos 0)) refl

abbrev recovering : List Call
recovering = run_recovery_call passing "system" ∷ arm_call "operator" ∷ []

recovering_arms :
    stored_status (after_all recovering (store_with recovery_required false (pos 0))).db
    ≡ some armed
unfolding after_all after run_recovery run_steps arm
recovering_arms = refl

not_waiting : (x : Option RuntimeStatus) → x ≡ some armed → x ≢ some recovery_required
not_waiting x e w = ground arith

leaves_by_recovery_example : any is_passed_recovery recovering ≡ true
leaves_by_recovery_example =
    leaves_by_recovery recovering (store_with recovery_required false (pos 0)) refl refl refl
      (not_waiting _ recovering_arms)

-- A day that has lost 3000 of a capital of 100000, its limit.
abbrev lost_day : World
lost_day = store_with running false (negsuc 299999999999)

-- What follows on the day: another day is unlocked, the latch is reset, and the status moves.
abbrev rest_of_day : List DayCall
rest_of_day =
    lock_call "2024-05-03" false none "operator"
    ∷ enforce_call "2024-05-02"
    ∷ reserve_call "2024-05-02" (pos 100000000) (pos 300000000000)
    ∷ store_call (kill_tx false "operator" none)
    ∷ store_call (transition_tx (request running none))
    ∷ []

other_day : ◌≡◌ {A = String} "2024-05-03" "2024-05-02" → false ≡ true
other_day e = ground (arith, eq_iff "2024-05-03" "2024-05-02")

enforce_daily_loss_blocks_example :
    let (r, w') = enforce_daily_loss "2024-05-02" lost_day in
    (r ≡ ok true)
    × (stored_status w'.db ≡ some running)
    × (kill_engaged w'.db ≡ false)
    × ((can_trade "2024-05-02" (after_calls rest_of_day w').db).allowed ≡ false)
unfolding lookup ◌+ℤ◌ ◌*ℤ◌
enforce_daily_loss_blocks_example =
    enforce_daily_loss_blocks "2024-05-02" _ _ rest_of_day lost_day refl refl
      (refl, refl, ground arith) (ground arith) (other_day, tt)

transition_once_example :
    let w = store_with armed false (pos 0) in
    (transition (request running (some armed)) (transition (request running (some armed)) w).1).0
    ≡ raised (lost_compare_and_swap armed (some running))
unfolding transition
transition_once_example =
    transition_once (request running (some armed)) (request running (some armed)) armed
      (store_with armed false (pos 0)) refl refl refl _ refl

halt_bypasses_recovery_example :
    let calls =
      halt_call "operator" "stop" ∷ stop_call "operator" ∷ start_call (flag true) "operator" ∷ [] in
    (stored_status (after_all calls (store_with recovery_required false (pos 0))).db ≡ some running)
    × (any is_passed_recovery calls ≡ false)
halt_bypasses_recovery_example =
    halt_bypasses_recovery "operator" "stop" (store_with recovery_required false (pos 0)) refl refl

reset_kill_reopens_example :
    let (r, w') = reset_kill "operator" "reset" (store_with running true (pos 0)) in
    (r ≡ raised (lost_compare_and_swap killed (some running)))
    × (stored_status w'.db ≡ some running)
    × (kill_engaged w'.db ≡ false)
reset_kill_reopens_example =
    reset_kill_reopens "operator" "reset" (store_with running true (pos 0)) refl refl

-- Three reservations of 2000 each against a limit of 3000: one fits.
abbrev wanted : List ℤ
wanted = pos 200000000000 ∷ pos 200000000000 ∷ pos 200000000000 ∷ []

-- The row of that day, with no profit and no loss.
abbrev quiet_day : DailyPnlRow
quiet_day = record {
  day_start_equity = pos 10000000000000;
  realized_pnl = pos 0;
  unrealized_pnl = pos 0;
  updated_at = 1;
}

reserves_once :
    (reserve_all "2024-05-02" (pos 300000000000) wanted (store_with running false (pos 0))).0
    ≡ pos 200000000000
unfolding lookup reserve_all try_reserve_daily_risk reserve_found insert ◌+ℤ◌ ◌-ℤ◌
reserves_once = refl

reservations_within_budget_example :
    let w = store_with running false (pos 0) in
    let (granted, w') = reserve_all "2024-05-02" (pos 300000000000) wanted w in
    (neg_ℤ (quiet_day.realized_pnl +ℤ quiet_day.unrealized_pnl) +ℤ granted ≤ℤ pos 300000000000)
    × ((after : DailyPnlRow) × (lookup "2024-05-02" w'.db.daily_pnl ≡ some after)
        × HasBooked quiet_day granted (pos 300000000000) after)
unfolding lookup ◌+ℤ◌
reservations_within_budget_example =
    reservations_within_budget "2024-05-02" (pos 300000000000) (pos 300000000000) wanted quiet_day
      (store_with running false (pos 0)) (ground arith) (ground arith) refl (ground arith)
