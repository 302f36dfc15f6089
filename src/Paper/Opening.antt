-- ===== src/Paper/Opening.antt =====
-- The creation of a run with its account: create_paper_run of src/atp/store/base.py.
pub mod Fresh
use text.Mathlib.Text.{◌==◌ as str_eq}
use aitrading.Common.{
  ℕ, Bool, true, false, not, ◌||◌, ◌&&◌, Option, none, some, String, List, [], ◌∷◌, if◌then◌else◌,
  ◌==◌,
}
use aitrading.Common.Int.{ℤ, pos, ltb_ℤ, eqb_ℤ}
use aitrading.Runtime.Status.{same}
use aitrading.Runtime.Status.{running as runtime_running}
use aitrading.Paper.Runs.{RunStatus, PaperRunRow, created, ready_for_arm, same_status}
use aitrading.Paper.Money.{
  Result, ok, failed, Fault, value_error, state_error, safety_error, conflict, ◌>>=◌, ◌>>◌,
  raise_if, or_fail, positive_amount,
}
use aitrading.Paper.Config.{Codec, ParsedConfig, paper_config}
use aitrading.Paper.Tables.{
  Stamp, at, malformed, day_of, RuntimeBinding, PaperAccountRow, PaperLedger, put, holds,
}
use aitrading.Paper.Risk.{RiskTerms, risk_checksum, risk_capital}
use aitrading.Paper.Fill.Request.{any_empty}
use aitrading.Paper.Fill.Admit.{runs_now, kill_row, fits_broker}

pub record RunCreation : Type 0 where
  pub run_id : String
  pub config_json : String
  pub risk_config_checksum : String
  pub commit_sha : String
  pub starting_cash : Option ℤ
  pub status : RunStatus
  pub reason : Option String
  pub require_prepared : Bool

-- What the checks of the arguments yield.
pub record OpeningTerms : Type 0 where
  pub cash : ℤ
  pub parsed : ParsedConfig

unfoldable pub checked_opening : Codec → RunCreation → Result OpeningTerms
unfolding paper_config
checked_opening codec q = do
  raise_if (any_empty (q.run_id ∷ q.risk_config_checksum ∷ q.commit_sha ∷ []))
      (value_error "run_id, risk_config_checksum, and commit_sha must be non-empty strings")
  raise_if (not (same_status q.status created || same_status q.status ready_for_arm))
      (state_error "new run must start CREATED or READY_FOR_ARM")
  cash ← positive_amount q.starting_cash
  first ← paper_config codec q.config_json
  again ← paper_config codec first.canonical
  raise_if (not (eqb_ℤ again.config.starting_cash cash))
      (conflict "starting_cash does not match the immutable config snapshot")
  ok (record { cash = cash; parsed = first })

-- The day of a stamp is the one of a time. A time in another zone than UTC, which the code takes here and
-- refuses in a fill, is not told apart.
abbrev pub is_of_day : Option Stamp → ℕ → Result Bool
is_of_day none now =
    failed (safety_error "global runtime is not RUNNING with the exact prepared Paper binding")
is_of_day (some malformed) now = failed (safety_error "prepared Paper binding timestamp is invalid")
is_of_day (some (at t)) now = ok (day_of t == day_of now)

abbrev pub is_set {ℓ} : {A : Type ℓ} → Option A → Bool
is_set none = false
is_set (some _) = true

-- The prepared binding is the exact one of today, or there is none.
unfoldable pub check_binding :
    (require_prepared : Bool)
    → RunCreation
    → (config_checksum : String) (now : ℕ) → RuntimeBinding
    → Result (Unit {0})
check_binding true q checksum now b = do
  raise_if
      (not (holds b.commit_sha q.commit_sha)
        || not (holds b.config_checksum checksum)
        || not (holds b.risk_config_checksum q.risk_config_checksum))
      (safety_error "global runtime is not RUNNING with the exact prepared Paper binding")
  today ← is_of_day b.prepared_at now
  raise_if (not today) (safety_error "prepared Paper binding is from another UTC trading day")
check_binding false q checksum now b =
    raise_if
      (is_set b.commit_sha
        || is_set b.config_checksum
        || is_set b.risk_config_checksum
        || is_set b.prepared_at)
      (safety_error "a prepared Paper runtime requires the exact prepared creation path")

-- The runtime is RUNNING with the kill switch off, and its binding is free for the run.
unfoldable pub admit_opening :
    RunCreation → (config_checksum : String) (now : ℕ) → PaperLedger → Result RuntimeBinding
unfolding check_binding
admit_opening q checksum now l = do
  b ← or_fail l.runtime (safety_error "global runtime is not RUNNING")
  raise_if (not (runs_now b)) (safety_error "global runtime is not RUNNING")
  raise_if (kill_row l.kill_switch) (safety_error "kill switch is engaged")
  check_binding q.require_prepared q checksum now b
  raise_if (not (fits_broker b.run_id q.run_id))
      (safety_error "Paper runtime binding was consumed by another run")
  ok b

-- The risk configuration is the one given, with the capital for the run.
unfoldable pub admit_capital :
    (is_stripped : String → Bool) (token : RiskTerms → String)
    → RunCreation
    → (cash : ℤ) → PaperLedger
    → Result (Unit {0})
admit_capital is_stripped token q cash l = do
  current ← risk_checksum is_stripped token l
  raise_if (not (str_eq current q.risk_config_checksum))
      (safety_error "risk configuration changed before run creation")
  capital ← risk_capital l
  raise_if (ltb_ℤ capital cash)
      (safety_error "Paper Canary starting_cash exceeds canonical risk capital")

abbrev pub new_run : RunCreation → ParsedConfig → (now : ℕ) → PaperRunRow
new_run q p now = record {
  run_id = q.run_id;
  status = q.status;
  active_slot = some 1;
  version = 0;
  config_json = p.canonical;
  config_checksum = p.checksum;
  risk_config_checksum = q.risk_config_checksum;
  commit_sha = q.commit_sha;
  reason = q.reason;
  created_at = now;
  started_at = none;
  heartbeat_at = none;
  ended_at = none;
  updated_at = now;
}

abbrev pub new_account : (run_id : String) (cash : ℤ) (now : ℕ) → PaperAccountRow
new_account run_id cash now = record {
  run_id = run_id;
  starting_cash = cash;
  cash = cash;
  equity = cash;
  realized_pnl = pos 0;
  gross_exposure = pos 0;
  net_exposure = pos 0;
  version = 0;
  updated_at = now;
}

-- The tables with the binding written, and the kill row.
abbrev pub bound : RunCreation → RuntimeBinding → PaperLedger → PaperLedger
bound q b l = record l {
  runtime = some (record b { run_id = some q.run_id });
  kill_switch = some false;
}

-- The INSERT of a run that is missing, if no run has the slot, and of its account: the account has no row
-- before, since it refers to the run.
unfoldable pub open_run :
    RunCreation
    → OpeningTerms
    → (now : ℕ) → Option PaperRunRow
    → (slot_holder : Option String) → PaperLedger
    → Result (PaperRunRow × PaperLedger)
open_run q t now (some run) slot l = ok (run, l)
open_run q t now none (some other) l =
    failed (conflict "another active Paper Canary run already owns the slot")
open_run q t now none none l = ok (
  new_run q t.parsed now,
  record l {
    runs = put q.run_id (some (new_run q t.parsed now)) l.runs;
    slot_holder = some q.run_id;
    accounts = put q.run_id (some (new_account q.run_id t.cash now)) l.accounts;
  },
)

abbrev pub same_reason : Option String → Option String → Bool
same_reason none none = true
same_reason (some a) (some b) = str_eq a b
same_reason _ _ = false

abbrev pub has_cash : Option PaperAccountRow → ℤ → Bool
has_cash none cash = false
has_cash (some a) cash = eqb_ℤ a.starting_cash cash

-- The run that is stored is not the one that is created.
abbrev pub differs_run : RunCreation → OpeningTerms → PaperRunRow → Option PaperAccountRow → Bool
differs_run q t run account =
    not (same_status run.status q.status)
    || not (str_eq run.config_json t.parsed.canonical)
    || not (str_eq run.config_checksum t.parsed.checksum)
    || not (str_eq run.risk_config_checksum q.risk_config_checksum)
    || not (str_eq run.commit_sha q.commit_sha)
    || not (same_reason run.reason q.reason)
    || not (has_cash account t.cash)

-- `create_paper_run`
unfoldable pub create_paper_run :
    Codec
    → (is_stripped : String → Bool) (token : RiskTerms → String) → RunCreation
    → (now : ℕ) → PaperLedger
    → Result (PaperRunRow × PaperLedger)
unfolding checked_opening admit_opening admit_capital open_run
create_paper_run codec is_stripped token q now l = do
  t ← checked_opening codec q
  b ← admit_opening q t.parsed.checksum now l
  admit_capital is_stripped token q t.cash l
  (run, after) ← open_run q t now (l.runs q.run_id) l.slot_holder (bound q b l)
  raise_if (differs_run q t run (after.accounts q.run_id))
      (conflict "run_id already exists with different immutable content")
  ok (run, after)
