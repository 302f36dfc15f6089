-- ===== src/Runtime/Lifecycle/Entry.antt =====
-- The ways into RUNNING and out of RECOVERY_REQUIRED, over single calls and over histories.
use aitrading.Common.{
  Bool, true, false, List, [], ◌∷◌, some, String, ◌≡◌, ◌≢◌, arith, ◌⊎◌, inl, inr, Bool-cases,
}
use aitrading.Runtime.Status.{armed, running, killed, recovery_required}
use aitrading.Runtime.Durable.{World, raised, kill_engaged, stored_status, lost_compare_and_swap}
use aitrading.Runtime.Lifecycle.{
  recover, mark_ready, arm, start, stop, disarm, halt, kill, reset_kill, flag, is_confirmed,
  recovery_steps,
}
use aitrading.Runtime.Lifecycle.Crash.{
  all_pass, run_recovery_outcome, run_recovery_status, run_recovery_unlatched,
}
use aitrading.Runtime.Lifecycle.Latch.{
  Call, recover_call, run_recovery_call, mark_ready_call, arm_call, start_call, stop_call,
  disarm_call, halt_call, kill_call, reset_kill_call, after, after_all, any,
}

abbrev pub is_confirmed_start : Call → Bool
is_confirmed_start (start_call confirm _) = is_confirmed confirm
is_confirmed_start _ = false

-- A call that leaves the runtime RUNNING found it RUNNING, or is a confirmed start of an ARMED
-- runtime whose kill latch is off.
pub running_only_by_start :
    (c : Call) (w : World)
    → stored_status (after c w).db ≡ some running
    → (stored_status w.db ≡ some running)
      ⊎ ((is_confirmed_start c ≡ true)
          × (stored_status w.db ≡ some armed)
          × (kill_engaged w.db ≡ false))
unfolding after recover mark_ready arm start stop disarm halt kill reset_kill
running_only_by_start (recover_call actor) w h = ground arith
running_only_by_start (run_recovery_call checks actor) w h =
    ground (arith, run_recovery_status checks actor w)
running_only_by_start (mark_ready_call actor reason) w h = ground arith
running_only_by_start (arm_call actor) w h = ground arith
running_only_by_start (start_call confirm actor) w h = ground arith
running_only_by_start (stop_call actor) w h = ground arith
running_only_by_start (disarm_call actor) w h = ground arith
running_only_by_start (halt_call actor reason) w h = ground arith
running_only_by_start (kill_call actor reason) w h = ground arith
running_only_by_start (reset_kill_call actor reason) w h = ground arith

-- The call is a recovery all of whose checks pass.
abbrev pub is_passed_recovery : Call → Bool
is_passed_recovery (run_recovery_call checks _) = all_pass checks recovery_steps
is_passed_recovery _ = false

-- A halt or a kill.
abbrev pub is_emergency : Call → Bool
is_emergency (halt_call _ _) = true
is_emergency (kill_call _ _) = true
is_emergency _ = false

-- The runtime waits for recovery, its latch off.
abbrev NeedsRecovery : World → Type 0
NeedsRecovery w = (stored_status w.db ≡ some recovery_required) × (kill_engaged w.db ≡ false)

after-NeedsRecovery :
    (c : Call) (w : World)
    → is_emergency c ≡ false
    → NeedsRecovery w
    → (is_passed_recovery c ≡ true) ⊎ NeedsRecovery (after c w)
unfolding after recover mark_ready arm start stop disarm reset_kill
after-NeedsRecovery (recover_call actor) w e n = ground arith
after-NeedsRecovery (run_recovery_call checks actor) w e n = ground (
  arith,
  run_recovery_outcome checks actor w n.0 n.1,
  run_recovery_unlatched checks actor w n.0 n.1,
)
after-NeedsRecovery (mark_ready_call actor reason) w e n = ground arith
after-NeedsRecovery (arm_call actor) w e n = ground arith
after-NeedsRecovery (start_call confirm actor) w e n = ground arith
after-NeedsRecovery (stop_call actor) w e n = ground arith
after-NeedsRecovery (disarm_call actor) w e n = ground arith
after-NeedsRecovery (halt_call actor reason) w e n = cc
after-NeedsRecovery (kill_call actor reason) w e n = cc
after-NeedsRecovery (reset_kill_call actor reason) w e n = ground arith

-- A runtime that waits for recovery with its latch off leaves RECOVERY_REQUIRED only by a recovery
-- all of whose checks pass, in every history that holds no halt and no kill.
pub leaves_by_recovery :
    (calls : List Call) (w : World)
    → any is_emergency calls ≡ false
    → stored_status w.db ≡ some recovery_required
    → kill_engaged w.db ≡ false
    → stored_status (after_all calls w).db ≢ some recovery_required
    → any is_passed_recovery calls ≡ true
unfolding after_all
leaves_by_recovery [] w e s k left = absurd (left s)
leaves_by_recovery (c ∷ calls) w e s k left = elim (Bool-cases (is_emergency c)) [
  | inl stop' ↦ ground arith
  | inr calm ↦ elim (after-NeedsRecovery c w calm (s, k)) [
    | inl passed ↦ ground arith
    | inr n ↦ ground (arith, leaves_by_recovery calls (after c w) (ground arith) n.0 n.1 left)
  ]
]

-- A halt makes the recovery unnecessary: from RECOVERY_REQUIRED with the latch off, with no checker
-- run and no arming, a halt, a stop and a confirmed start reach RUNNING.
pub halt_bypasses_recovery :
    (actor reason : String) (w : World)
    → stored_status w.db ≡ some recovery_required
    → kill_engaged w.db ≡ false
    → let calls = halt_call actor reason ∷ stop_call actor ∷ start_call (flag true) actor ∷ [] in
      (stored_status (after_all calls w).db ≡ some running) × (any is_passed_recovery calls ≡ false)
unfolding after_all after halt stop start
halt_bypasses_recovery actor reason w s k = ground arith

-- The reset takes the latch off before it swaps the status: where the latch is on but the status is
-- still RUNNING, as between the two writes of a kill, it raises and leaves RUNNING with the latch off.
pub reset_kill_reopens :
    (actor reason : String) (w : World)
    → stored_status w.db ≡ some running
    → kill_engaged w.db ≡ true
    → let (r, w') = reset_kill actor reason w in
      (r ≡ raised (lost_compare_and_swap killed (some running)))
      × (stored_status w'.db ≡ some running)
      × (kill_engaged w'.db ≡ false)
unfolding reset_kill
reset_kill_reopens actor reason w s k = ground arith
