-- ===== src/Runtime/Lifecycle/Latch.antt =====
-- The operations as events, and what every history of them keeps: the kill latch, the way into
-- RUNNING and the way out of RECOVERY_REQUIRED.
use aitrading.Common.{
  Bool, true, false, ◌||◌, List, [], ◌∷◌, Option, some, String, ◌≡◌, arith, inl, inr, Bool-cases,
}
use aitrading.Runtime.Status.{killed}
use aitrading.Runtime.Durable.{World, kill_engaged, stored_status}
use aitrading.Runtime.Lifecycle.{
  recover, run_recovery, mark_ready, arm, start, stop, disarm, halt, kill, reset_kill, Confirmation,
  CheckOutcome,
}

-- One call of a method of LifecycleManager.
pub data Call : Type 0 where
  recover_call : (actor : String) → Call
  run_recovery_call : (checks : String → Option CheckOutcome) (actor : String) → Call
  mark_ready_call : (actor reason : String) → Call
  arm_call : (actor : String) → Call
  start_call : Confirmation → (actor : String) → Call
  stop_call : (actor : String) → Call
  disarm_call : (actor : String) → Call
  halt_call : (actor reason : String) → Call
  kill_call : (actor reason : String) → Call
  reset_kill_call : (actor reason : String) → Call

-- The world after a call, whether it returns or raises.
unfoldable pub after : Call → World → World
after (recover_call actor) w = (recover actor w).1
after (run_recovery_call checks actor) w = (run_recovery checks actor w).1
after (mark_ready_call actor reason) w = (mark_ready actor reason w).1
after (arm_call actor) w = (arm actor w).1
after (start_call confirm actor) w = (start confirm actor w).1
after (stop_call actor) w = (stop actor w).1
after (disarm_call actor) w = (disarm actor w).1
after (halt_call actor reason) w = (halt actor reason w).1
after (kill_call actor reason) w = (kill actor reason w).1
after (reset_kill_call actor reason) w = (reset_kill actor reason w).1

unfoldable pub after_all : List Call → World → World
after_all [] w = w
after_all (c ∷ calls) w = after_all calls (after c w)

abbrev pub is_reset : Call → Bool
is_reset (reset_kill_call _ _) = true
is_reset _ = false

abbrev pub any : (Call → Bool) → List Call → Bool
any p [] = false
any p (c ∷ calls) = p c || any p calls

-- The latch is on and the stored status says so.
abbrev pub IsKilled : World → Type 0
IsKilled w = (kill_engaged w.db ≡ true) × (stored_status w.db ≡ some killed)

-- A kill engages the latch and stores KILLED from any state, whatever was there.
kill-IsKilled : (actor reason : String) (w : World) → IsKilled (kill actor reason w).1
unfolding kill
kill-IsKilled actor reason w = ground arith

after-IsKilled : (c : Call) (w : World) → is_reset c ≡ false → IsKilled w → IsKilled (after c w)
unfolding after recover run_recovery mark_ready arm start stop disarm halt
after-IsKilled (recover_call actor) w h k = ground arith
after-IsKilled (run_recovery_call checks actor) w h k = ground arith
after-IsKilled (mark_ready_call actor reason) w h k = ground arith
after-IsKilled (arm_call actor) w h k = ground arith
after-IsKilled (start_call confirm actor) w h k = ground arith
after-IsKilled (stop_call actor) w h k = ground arith
after-IsKilled (disarm_call actor) w h k = ground arith
after-IsKilled (halt_call actor reason) w h k = ground arith
after-IsKilled (kill_call actor reason) w h k = kill-IsKilled actor reason w
after-IsKilled (reset_kill_call actor reason) w h k = ground arith

after_all-IsKilled :
    (calls : List Call) (w : World)
    → any is_reset calls ≡ false
    → IsKilled w
    → IsKilled (after_all calls w)
unfolding after_all
after_all-IsKilled [] w h k = k
after_all-IsKilled (c ∷ calls) w h k = elim (Bool-cases (is_reset c)) [
  | inl yes' ↦ ground arith
  | inr no' ↦ after_all-IsKilled calls (after c w) (ground arith) (after-IsKilled c w no' k)
]

-- After a kill in any state, every history of calls with no reset leaves the latch on and the status
-- KILLED: no restart, recovery, arming, start, stop, disarming or halt leads out.
pub kill_latches :
    (actor reason : String) (calls : List Call) (w : World)
    → any is_reset calls ≡ false
    → IsKilled (after_all calls (kill actor reason w).1)
kill_latches actor reason calls w h =
    after_all-IsKilled calls (kill actor reason w).1 h (kill-IsKilled actor reason w)
