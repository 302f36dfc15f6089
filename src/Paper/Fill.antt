-- ===== src/Paper/Fill.antt =====
-- One fill of the paper canary, committed with every projection of it in one transaction:
-- commit_paper_fill_atomic of src/atp/store/base.py. A transaction that raises leaves the tables as they were, so
-- that a failure has none.
pub mod Request
pub mod Admit
pub mod Market
pub mod Project
pub mod Write
use aitrading.Common.{ℕ, Bool, Option, none, some, String}
use aitrading.Common.Int.{ℤ}
use aitrading.Paper.Orders.{PaperOrderRow, EventHash}
use aitrading.Paper.Runs.{PaperRunRow}
use aitrading.Paper.Money.{Result, ok, failed, Fault, state_error, ◌>>=◌, ◌>>◌, or_fail}
use aitrading.Paper.Config.{Codec, PaperConfig}
use aitrading.Paper.Tables.{PaperLedger, PaperFillRow, PaperAccountRow}
use aitrading.Paper.Risk.{RiskTerms}
use aitrading.Paper.Fill.Request.{
  FillRequest, FillTerms, FillCommitResult, checked_fill, fill_of, existing_fill_result,
}
use aitrading.Paper.Fill.Admit.{
  RiskBounds, admit_runtime, prepared_time, admit_order, bound_config, admit_terms, admit_risk,
  bound_account, kill_row,
}
use aitrading.Paper.Fill.Market.{TradingDay, trading_day, attest_market}
use aitrading.Paper.Fill.Project.{
  holding_of, check_books, exposure, day_fills, check_activity, books_after, day_after,
}
use aitrading.Paper.Fill.Write.{Decided, write_fill}

-- What the code takes from elsewhere: the codec of the configuration, `str.strip`, the hash of the risk
-- configuration, the one of an event, and the text of the audit row.
pub record Extern : Type 0 where
  pub codec : Codec
  pub is_stripped : String → Bool
  pub token : RiskTerms → String
  pub event_hash : EventHash
  pub reason_text : String → ℕ → String → String

-- The two clock readings of a fill: `candidate_now` and `now`.
pub record Clock : Type 0 where
  pub candidate : ℕ
  pub commit : ℕ

-- What the admission yields.
pub record Admitted : Type 0 where
  pub config : PaperConfig
  pub risk : RiskBounds
  pub account : PaperAccountRow
  pub day : TradingDay

-- What the checks of the order yield.
pub record Gate : Type 0 where
  pub config : PaperConfig
  pub prepared : Option ℕ

-- The checks of the runtime, the run and the order.
unfoldable pub gate_fill :
    Codec → FillTerms → PaperRunRow → PaperOrderRow → PaperLedger → Result Gate
unfolding admit_runtime prepared_time admit_order bound_config admit_terms
gate_fill codec r run order l = do
  runtime ← admit_runtime r l
  prepared ← prepared_time r.side runtime.prepared_at
  admit_order r run order
  config ← bound_config codec r.instrument run
  admit_terms r config order
  ok (record { config = config; prepared = prepared })

-- The checks up to the attestation of the market data.
unfoldable pub admit_fill :
    Extern → Clock → FillTerms → PaperRunRow → PaperOrderRow → PaperLedger → Result Admitted
unfolding gate_fill admit_risk bound_account trading_day attest_market
admit_fill x clock r run order l = do
  g ← gate_fill x.codec r run order l
  risk ← admit_risk x.is_stripped x.token run order g.config l
  account ← bound_account r.run_id g.config l
  day ← trading_day r.side risk.capital clock.candidate l
  attest_market r g.config g.prepared clock.candidate clock.commit l
  ok (record { config = g.config; risk = risk; account = account; day = day })

-- The projections of an admitted fill.
unfoldable pub project_fill : FillTerms → PaperOrderRow → Admitted → PaperLedger → Result Decided
unfolding check_books exposure day_fills check_activity books_after day_after
project_fill r order a l = do
  let position = l.positions r.run_id r.instrument
  let holding = holding_of position
  check_books r a.account holding
  e ← exposure r a.config holding
  check_activity r a.config e.notional (day_fills r.run_id a.day.date l.orders l.fills)
  books ← books_after r a.account holding e
  outcome ← day_after r a.risk a.day a.account books
  ok (record {
    order = order;
    account = a.account;
    position = position;
    day = a.day;
    books = books;
    outcome = outcome;
  })

-- A fill that is not stored yet.
unfoldable pub fresh_fill :
    Extern
    → Clock
    → FillTerms
    → PaperRunRow
    → PaperOrderRow
    → PaperLedger
    → Result (FillCommitResult × PaperLedger)
unfolding admit_fill project_fill write_fill
fresh_fill x clock r run order l = do
  a ← admit_fill x clock r run order l
  d ← project_fill r order a l
  write_fill x.event_hash x.reason_text r clock.commit d l

-- The transaction on the order's fill, if it has one: then the kill row is all that is written.
unfoldable pub settle_fill :
    Extern
    → Clock
    → FillTerms
    → PaperRunRow
    → PaperOrderRow
    → Option PaperFillRow
    → PaperLedger
    → Result (FillCommitResult × PaperLedger)
unfolding fresh_fill existing_fill_result
settle_fill x clock r run order none l = fresh_fill x clock r run order l
settle_fill x clock r run order (some existing) l = do
  rows ← existing_fill_result r order existing l
  ok (rows, record l { kill_switch = some (kill_row l.kill_switch) })

-- `commit_paper_fill_atomic`
unfoldable pub commit_paper_fill_atomic :
    Extern → Clock → FillRequest → PaperLedger → Result (FillCommitResult × PaperLedger)
unfolding checked_fill settle_fill
commit_paper_fill_atomic x clock request l = do
  r ← checked_fill request
  run ← or_fail (l.runs r.run_id) (state_error "Paper Canary run does not exist")
  order ← or_fail (l.orders r.client_order_id) (state_error "paper order does not exist")
  settle_fill x clock r run order (fill_of r.client_order_id l.fills) l
