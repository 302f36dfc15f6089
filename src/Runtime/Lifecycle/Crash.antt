-- ===== src/Runtime/Lifecycle/Crash.antt =====
-- What a restart does: `recover` and `run_recovery`.
use aitrading.Common.{
  Bool, true, false, ◌&&◌, List, [], ◌∷◌, ◌++◌, Option, none, some, String, ◌≡◌, arith,
  if◌then◌else◌, ◌⊎◌,
}
use mathlib.Core.List.{append-nil, append_assoc}
use aitrading.Runtime.Status.{RuntimeStatus, disabled, ready_for_arm, killed, recovery_required}
use aitrading.Runtime.Durable.{World, ok, kill_engaged, stored_status}
use aitrading.Runtime.Lifecycle.{
  recover, run_steps, run_recovery, CheckOutcome, check_passes, recovery_steps,
}

-- What `recover` answers, from the stored status and the kill latch alone.
abbrev pub restart_status : Bool → Option RuntimeStatus → RuntimeStatus
restart_status true stored = killed
restart_status false none = disabled
restart_status false (some disabled) = disabled
restart_status false (some ready_for_arm) = ready_for_arm
restart_status false (some _) = recovery_required

-- On every store `recover` succeeds, the status it answers is the one then stored, and the kill latch is as it was.
pub recover-restart_status :
    (actor : String) (w : World)
    → let (r, w') = recover actor w in
      let st = restart_status (kill_engaged w.db) (stored_status w.db) in
      (r ≡ ok st) × (stored_status w'.db ≡ some st) × (kill_engaged w'.db ≡ kill_engaged w.db)
unfolding recover
recover-restart_status actor w = ground arith

module _ (checks : String → Option CheckOutcome) where
  -- Every checker of these steps passes.
  unfoldable pub all_pass : List String → Bool
  all_pass [] = true
  all_pass (step ∷ rest) = check_passes (checks step) && all_pass rest

  -- The steps through the first one that fails, each with its outcome.
  pub report : List String → List (String × Bool)
  report [] = []
  report (step ∷ rest) =
      if check_passes (checks step) then (step, true) ∷ report rest else (step, false) ∷ []

  -- The loop, from any results so far.
  run_steps_outcome :
      (actor : String) (steps : List String) (results : List (String × Bool)) (w : World)
      → stored_status w.db ≡ some recovery_required
      → kill_engaged w.db ≡ false
      → let (r, w') = run_steps checks actor steps results w in
        (r ≡ ok (all_pass steps, results ++ report steps))
        × (stored_status w'.db ≡ some (if all_pass steps then ready_for_arm else recovery_required))
        × (kill_engaged w'.db ≡ false)
  unfolding run_steps all_pass report
  run_steps_outcome actor [] results w s k = ground (arith, append-nil results)
  run_steps_outcome actor (step ∷ rest) results w s k = ground (
    arith,
    run_steps_outcome actor rest (results ++ (step, true) ∷ []) w s k,
    append_assoc results ((step, true) ∷ []) (report rest),
  )

  -- Recovery from RECOVERY_REQUIRED with the latch off: it answers whether all thirteen checks pass,
  -- with the checks through the first that fails, and it moves the status to READY_FOR_ARM exactly
  -- if all pass, and leaves it otherwise.
  pub run_recovery_outcome :
      (actor : String) (w : World)
      → stored_status w.db ≡ some recovery_required
      → kill_engaged w.db ≡ false
      → let (r, w') = run_recovery checks actor w in
        (r ≡ ok (all_pass recovery_steps, report recovery_steps))
        × (stored_status w'.db
            ≡ some (if all_pass recovery_steps then ready_for_arm else recovery_required))
  unfolding run_recovery
  run_recovery_outcome actor w s k = ground (arith, run_steps_outcome actor recovery_steps [] w s k)

  run_steps_status :
      (actor : String) (steps : List String) (results : List (String × Bool)) (w : World)
      → let w' = (run_steps checks actor steps results w).1 in
        (stored_status w'.db ≡ stored_status w.db) ⊎ (stored_status w'.db ≡ some ready_for_arm)
  unfolding run_steps
  run_steps_status actor [] results w = ground arith
  run_steps_status actor (step ∷ rest) results w =
      ground (arith, run_steps_status actor rest (results ++ (step, true) ∷ []) w)

  -- A recovery leaves the stored status alone or makes it READY_FOR_ARM.
  pub run_recovery_status :
      (actor : String) (w : World)
      → let w' = (run_recovery checks actor w).1 in
        (stored_status w'.db ≡ stored_status w.db) ⊎ (stored_status w'.db ≡ some ready_for_arm)
  unfolding run_recovery
  run_recovery_status actor w = ground (arith, run_steps_status actor recovery_steps [] w)

  -- With the latch off a recovery leaves it off.
  pub run_recovery_unlatched :
      (actor : String) (w : World)
      → stored_status w.db ≡ some recovery_required
      → kill_engaged w.db ≡ false
      → kill_engaged (run_recovery checks actor w).1.db ≡ false
  unfolding run_recovery
  run_recovery_unlatched actor w s k =
      ground (arith, run_steps_outcome actor recovery_steps [] w s k)
