-- ===== src/Paper/Runs.antt =====
-- The runs of the paper canary, of src/atp/store/base.py: the compare-and-swap of a run's status.
pub mod Slot
use aitrading.Common.{
  ℕ, ◌+◌, Bool, true, false, ◌&&◌, not, Option, none, some, String, if◌then◌else◌, ◌==◌,
}
use aitrading.Common.Dict.{Dict, lookup, insert}

pub data RunStatus : Type 0 where
  created ready_for_arm running recovery_required stopped failed completed : RunStatus

pub record PaperRunRow : Type 0 where
  pub run_id : String
  pub status : RunStatus
  pub active_slot : Option ℕ
  pub version : ℕ
  pub config_json : String
  pub config_checksum : String
  pub risk_config_checksum : String
  pub commit_sha : String
  pub reason : Option String
  pub created_at : ℕ
  pub started_at : Option ℕ
  pub heartbeat_at : Option ℕ
  pub ended_at : Option ℕ
  pub updated_at : ℕ

-- `_PAPER_RUN_TRANSITIONS`
unfoldable pub allowed : RunStatus → RunStatus → Bool
allowed created ready_for_arm = true
allowed created stopped = true
allowed created failed = true
allowed ready_for_arm running = true
allowed ready_for_arm stopped = true
allowed ready_for_arm failed = true
allowed running recovery_required = true
allowed running stopped = true
allowed running failed = true
allowed running completed = true
allowed recovery_required ready_for_arm = true
allowed recovery_required stopped = true
allowed recovery_required failed = true
allowed _ _ = false

-- `_PAPER_TERMINAL_RUN_STATES`
abbrev pub is_terminal : RunStatus → Bool
is_terminal stopped = true
is_terminal failed = true
is_terminal completed = true
is_terminal _ = false

-- `1 if new_status in _PAPER_ACTIVE_RUN_STATES else None`
abbrev pub slot_of : RunStatus → Option ℕ
slot_of created = some 1
slot_of ready_for_arm = some 1
slot_of running = some 1
slot_of recovery_required = some 1
slot_of _ = none

abbrev pub same_status : RunStatus → RunStatus → Bool
same_status created created = true
same_status ready_for_arm ready_for_arm = true
same_status running running = true
same_status recovery_required recovery_required = true
same_status stopped stopped = true
same_status failed failed = true
same_status completed completed = true
same_status _ _ = false

pub record RunRequest : Type 0 where
  pub run_id : String
  pub expected_status : RunStatus
  pub expected_version : ℕ
  pub new_status : RunStatus
  pub reason : Option String

pub data RunResult : Type 0 where
  moved : PaperRunRow → RunResult
  invalid_transition : (expected new : RunStatus) → RunResult
  compare_and_swap_failed : RunResult

-- `COALESCE(started_at,?)`
abbrev pub first_start : Option ℕ → ℕ → Option ℕ
first_start none now = some now
first_start (some t) now = some t

-- The row after the UPDATE.
abbrev pub updated_run : RunRequest → ℕ → PaperRunRow → PaperRunRow
updated_run r now row = record row {
  status = r.new_status;
  active_slot = slot_of r.new_status;
  version = row.version + 1;
  reason = r.reason;
  started_at =
      if same_status r.new_status running then first_start row.started_at now else row.started_at;
  heartbeat_at = if same_status r.new_status running then some now else row.heartbeat_at;
  ended_at = if is_terminal r.new_status then some now else row.ended_at;
  updated_at = now;
}

-- The UPDATE: one row where identifier, status and version are the expected ones, or none.
unfoldable pub swapped_run :
    RunRequest → (now : ℕ) → Option PaperRunRow → Dict PaperRunRow → RunResult × Dict PaperRunRow
swapped_run r now none runs = (compare_and_swap_failed, runs)
swapped_run r now (some row) runs =
    if same_status row.status r.expected_status && (row.version == r.expected_version)
    then (moved (updated_run r now row), insert r.run_id (updated_run r now row) runs)
    else (compare_and_swap_failed, runs)

-- `transition_paper_run`
unfoldable pub transition_paper_run :
    RunRequest → (now : ℕ) → Dict PaperRunRow → RunResult × Dict PaperRunRow
unfolding swapped_run
transition_paper_run r now runs =
    if not (allowed r.expected_status r.new_status)
    then (invalid_transition r.expected_status r.new_status, runs)
    else swapped_run r now (lookup r.run_id runs) runs
