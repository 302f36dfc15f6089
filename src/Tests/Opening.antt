-- ===== src/Tests/Opening.antt =====
-- A run of the paper canary is created, src/atp/store/base.py, on empty tables.
use aitrading.Common.{false, none, some, ◌≡◌, refl}
use aitrading.Common.Int.{pos}
use aitrading.Paper.Runs.{PaperRunRow, ready_for_arm}
use aitrading.Runtime.Status.{running as runtime_running}
use aitrading.Paper.Money.{ok}
use aitrading.Paper.Config.{paper_config}
use aitrading.Paper.Tables.{PaperLedger, put}
use aitrading.Paper.Risk.{risk_checksum, risk_capital}
use aitrading.Paper.Books.{IsWellKept}
use aitrading.Paper.Replay.{IsReplayed, sum_over}
use aitrading.Paper.Opening.{RunCreation, new_account, bound, create_paper_run}
use aitrading.Paper.Opening.Fresh.{IsSound, create_paper_run-IsSound}
use aitrading.Tests.Fill.{outside, first_ledger}

-- The runtime is RUNNING, and nothing is stored.
abbrev empty_ledger : PaperLedger
empty_ledger = record first_ledger {
  runtime = some (record {
    status = runtime_running;
    commit_sha = none;
    config_checksum = none;
    risk_config_checksum = none;
    prepared_at = none;
    run_id = none;
  });
  runs = λ id. none;
  slot_holder = none;
  orders = λ id. none;
  accounts = λ id. none;
}

abbrev creation : RunCreation
creation = record {
  run_id = "r2";
  config_json = "{}";
  risk_config_checksum = "risk";
  commit_sha = "c0ffee";
  starting_cash = some (pos 1_000_000_000_000);
  status = ready_for_arm;
  reason = none;
  require_prepared = false;
}

abbrev created_run : PaperRunRow
created_run = record {
  run_id = "r2";
  status = ready_for_arm;
  active_slot = some 1;
  version = 0;
  config_json = "{}";
  config_checksum = "sum";
  risk_config_checksum = "risk";
  commit_sha = "c0ffee";
  reason = none;
  created_at = 7;
  started_at = none;
  heartbeat_at = none;
  ended_at = none;
  updated_at = 7;
}

-- The tables with the run, its account and the binding.
abbrev opened_ledger : PaperLedger
opened_ledger =
    let b =
      bound creation
        (record {
          status = runtime_running;
          commit_sha = none;
          config_checksum = none;
          risk_config_checksum = none;
          prepared_at = none;
          run_id = none;
        })
        empty_ledger in
    record b {
      runs = put "r2" (some created_run) b.runs;
      slot_holder = some "r2";
      accounts = put "r2" (some (new_account "r2" (pos 1_000_000_000_000) 7)) b.accounts;
    }

run-created :
    create_paper_run outside.codec outside.is_stripped outside.token creation 7 empty_ledger
    ≡ ok (created_run, opened_ledger)
unfolding create_paper_run paper_config risk_checksum risk_capital
run-created = refl

empty-IsSound : IsSound outside.codec empty_ledger
unfolding IsWellKept IsReplayed sum_over
empty-IsSound = (λ run_id instrument. tt, λ run_id instrument. (refl, refl))

create_paper_run-IsSound_example : IsSound outside.codec opened_ledger
create_paper_run-IsSound_example =
    create_paper_run-IsSound outside.codec outside.is_stripped outside.token creation 7 empty_ledger
      created_run opened_ledger empty-IsSound run-created
