-- ===== src/Runtime/Status.antt =====
-- RuntimeStatus of src/atp/runtime/lifecycle.py, and the membership tests that the code makes on it.
use aitrading.Common.{Bool, true, false, ◌||◌, List, [], ◌∷◌, String, ◌≡◌, arith}

pub data RuntimeStatus : Type 0 where
  disabled ready_for_arm armed running halted killed recovery_required : RuntimeStatus

-- `status.value`, the text that the store and the audit log hold.
abbrev pub value : RuntimeStatus → String
value disabled = "DISABLED"
value ready_for_arm = "READY_FOR_ARM"
value armed = "ARMED"
value running = "RUNNING"
value halted = "HALTED"
value killed = "KILLED"
value recovery_required = "RECOVERY_REQUIRED"

-- `a is b`.
abbrev pub same : RuntimeStatus → RuntimeStatus → Bool
same disabled disabled = true
same ready_for_arm ready_for_arm = true
same armed armed = true
same running running = true
same halted halted = true
same killed killed = true
same recovery_required recovery_required = true
same _ _ = false

-- `st in allowed`.
abbrev pub contains : List RuntimeStatus → RuntimeStatus → Bool
contains [] st = false
contains (a ∷ rest) st = same a st || contains rest st

pub same_eq : (a b : RuntimeStatus) → same a b ≡ true → a ≡ b
same_eq a b h = ground arith

pub same_self : (a : RuntimeStatus) → same a a ≡ true
same_self a = ground arith

-- `_ACTIVE_ON_CRASH`: the states that mean "was in the middle of an operation".
abbrev pub active_on_crash : List RuntimeStatus
active_on_crash = armed ∷ running ∷ halted ∷ killed ∷ []

-- The states in whose transitions the store checks the kill latch once more.
abbrev pub risk_increasing : RuntimeStatus → Bool
risk_increasing st = contains (ready_for_arm ∷ armed ∷ running ∷ []) st

-- The states in which the store forgets which paper run was prepared.
abbrev pub forgets_binding : RuntimeStatus → Bool
forgets_binding st = contains (disabled ∷ killed ∷ recovery_required ∷ []) st
