-- ===== src/Paper/Fill/Write.antt =====
-- The rows that a fill writes: commit_paper_fill_atomic of src/atp/store/base.py. The account, the position and
-- the day's aggregate are the rows read before under the transaction's locks, so that their
-- compare-and-swaps find the version.
use text.Mathlib.Text.{◌==◌ as str_eq}
use aitrading.Common.{
  ℕ, ◌+◌, Bool, true, false, ◌||◌, ◌&&◌, not, Option, none, some, String, List, [], ◌∷◌, ◌++◌,
  if◌then◌else◌, ltb,
}
use aitrading.Runtime.Durable.{AuditEventRow}
use aitrading.Paper.Orders.{
  PaperOrderRow, EventHash, authorized, filled, append_order_event, is_event_taken,
}
use aitrading.Paper.Money.{Result, ok, integrity_error, ◌>>◌, raise_if}
use aitrading.Paper.Tables.{
  PaperLedger, PaperFillRow, PaperAccountRow, PaperPositionRow, LossLock, DailyLossState, put,
  put_day,
}
use aitrading.Paper.Fill.Request.{FillTerms, FillCommitResult}
use aitrading.Paper.Fill.Market.{TradingDay}
use aitrading.Paper.Fill.Project.{Books, DayOutcome}

-- `COALESCE(MAX(ledger_seq),0)`, from a value
abbrev pub max_ledger_seq : ℕ → List PaperFillRow → ℕ
max_ledger_seq n [] = n
max_ledger_seq n (f ∷ fills) = max_ledger_seq (if ltb n f.ledger_seq then f.ledger_seq else n) fills

abbrev pub filled_order : FillTerms → (now : ℕ) → PaperOrderRow → PaperOrderRow
filled_order r now o = record o {
  state = filled;
  broker_order_id = some r.broker_order_id;
  reason = none;
  version = o.version + 1;
  terminal_at = some r.ts;
  updated_at = now;
}

abbrev pub paper_fill_row : FillTerms → (ledger_seq : ℕ) → PaperFillRow
paper_fill_row r seq = record {
  fill_id = r.fill_id;
  client_order_id = r.client_order_id;
  broker_fill_id = r.broker_fill_id;
  ledger_seq = seq;
  instrument = r.instrument;
  side = r.side;
  quantity = r.quantity;
  price = r.price;
  commission = r.commission;
  multiplier = r.multiplier;
  quote_ts = r.quote_ts;
  ts = r.ts;
}

-- The primary key and the unique identifier of the broker, which the INSERT asks for.
abbrev pub is_taken : FillTerms → List PaperFillRow → Bool
is_taken r [] = false
is_taken r (f ∷ fills) =
    str_eq f.fill_id r.fill_id || str_eq f.broker_fill_id r.broker_fill_id || is_taken r fills

abbrev pub is_other : Option String → String → Bool
is_other none id = false
is_other (some s) id = not (str_eq s id)

-- The UPDATE of the order or the INSERT of the fill breaks a unique index.
abbrev pub is_refused : FillTerms → PaperLedger → Bool
is_refused r l = is_other (l.broker_index r.broker_order_id) r.client_order_id || is_taken r l.fills

abbrev pub next_version : Option PaperPositionRow → ℕ
next_version none = 0
next_version (some p) = p.version + 1

-- The INSERT of a position, or its UPDATE.
abbrev pub filled_position :
    FillTerms → (now : ℕ) → Books → Option PaperPositionRow → PaperPositionRow
filled_position r now b old = record {
  run_id = r.run_id;
  instrument = r.instrument;
  quantity = b.quantity;
  avg_price = b.average;
  mark_price = b.mark;
  realized_pnl = b.realized;
  version = next_version old;
  updated_at = now;
}

abbrev pub filled_account : (now : ℕ) → Books → PaperAccountRow → PaperAccountRow
filled_account now b a = record a {
  cash = b.cash;
  equity = b.equity;
  realized_pnl = b.realized;
  gross_exposure = b.net;
  net_exposure = b.net;
  version = a.version + 1;
  updated_at = now;
}

abbrev pub filled_day : (now : ℕ) → DayOutcome → DailyLossState → DailyLossState
filled_day now outcome row = record row {
  cumulative_equity_delta = some outcome.equity_delta;
  version = row.version + 1;
  updated_at = now;
}

abbrev pub loss_reason : String
loss_reason = "Paper Canary daily loss limit reached"

-- The lock of the day, engaged where the outcome asks for it and it is open.
abbrev pub latched : (engages : Bool) (now : ℕ) → LossLock → LossLock
latched engages now lock =
    if engages && not lock.engaged
    then record { engaged = true; reason = some loss_reason; updated_at = now }
    else lock

-- The audit row of that, whose text is built from the reason, the day and the run.
abbrev pub latch_event :
    (reason_text : String → ℕ → String → String) (day : ℕ) (run_id : String) (now drawn : ℕ)
    → AuditEventRow
latch_event reason_text day run_id now drawn = record {
  event_id = drawn;
  ts = now;
  actor = "paper-canary";
  action = "DAILY_LOSS_LOCK";
  previous_state = none;
  new_state = some "HALTED";
  reason = some (reason_text loss_reason day run_id);
  correlation_id = drawn + 1;
}

abbrev pub put_at {ℓ} :
    {A : Type ℓ} → String → String → A → (String → String → A) → String → String → A
put_at k j a f x y = if str_eq k x && str_eq j y then a else f x y

-- What a commit knows when it begins to write.
pub record Decided : Type 0 where
  pub order : PaperOrderRow
  pub account : PaperAccountRow
  pub position : Option PaperPositionRow
  pub day : TradingDay
  pub books : Books
  pub outcome : DayOutcome

-- The rows as they are read back.
unfoldable pub committed_rows : FillTerms → (now : ℕ) → Decided → PaperLedger → FillCommitResult
committed_rows r now d l = record {
  order = filled_order r now d.order;
  fill = paper_fill_row r (max_ledger_seq 0 l.fills + 1);
  account = filled_account now d.books d.account;
  position = filled_position r now d.books d.position;
}

abbrev pub latches : Decided → Bool
latches d = d.outcome.engages && not d.day.lock.engaged

-- The tables after the writes.
unfoldable pub written :
    EventHash
    → (reason_text : String → ℕ → String → String) → FillTerms
    → (now : ℕ) → Decided
    → PaperLedger
    → PaperLedger
unfolding committed_rows append_order_event
written hash reason_text r now d l =
    let rows = committed_rows r now d l in
    record l {
      kill_switch = some false;
      orders = put r.client_order_id (some rows.order) l.orders;
      broker_index = put r.broker_order_id (some r.client_order_id) l.broker_index;
      fills = l.fills ++ rows.fill ∷ [];
      accounts = put r.run_id (some rows.account) l.accounts;
      positions = put_at r.run_id r.instrument (some rows.position) l.positions;
      loss_locks =
          put_day d.day.date (some (latched d.outcome.engages now d.day.lock)) l.loss_locks;
      daily_losses =
          put_day d.day.date (some (filled_day now d.outcome d.day.losses)) l.daily_losses;
      events =
          append_order_event hash r.client_order_id filled (some authorized) (some filled) none r.ts
            l.events;
      audit_events =
          if latches d
          then l.audit_events ++ latch_event reason_text d.day.date r.run_id now l.drawn ∷ []
          else l.audit_events;
      drawn = if latches d then l.drawn + 2 else l.drawn;
    }

-- The writes, refused where an identifier of the fill or of its event is taken.
unfoldable pub write_fill :
    EventHash
    → (reason_text : String → ℕ → String → String) → FillTerms
    → (now : ℕ) → Decided
    → PaperLedger
    → Result (FillCommitResult × PaperLedger)
unfolding written committed_rows
write_fill hash reason_text r now d l = do
  raise_if (is_refused r l) integrity_error
  raise_if (is_event_taken hash r.client_order_id filled l.events) integrity_error
  ok (committed_rows r now d l, written hash reason_text r now d l)
