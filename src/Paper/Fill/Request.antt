-- ===== src/Paper/Fill/Request.antt =====
-- A fill that a caller commits, and the answer to one that is committed already:
-- `commit_paper_fill_atomic` and `_paper_existing_fill_result` of src/atp/store/base.py.
use text.Mathlib.Text.{◌==◌ as str_eq}
use aitrading.Common.{
  ℕ, Bool, false, not, ◌||◌, Option, none, some, String, List, [], ◌∷◌, if◌then◌else◌, ltb, ◌==◌,
}
use aitrading.Common.Int.{ℤ, eqb_ℤ}
use aitrading.Runtime.Positions.{Side, buy, sell}
use aitrading.Paper.Orders.{PaperOrderRow, filled, same_state}
use aitrading.Paper.Money.{
  Result, ok, failed, Fault, value_error, safety_error, conflict, ◌>>=◌, ◌>>◌, raise_if, or_fail,
  is_empty, positive_amount, nonnegative_amount,
}
use aitrading.Paper.Tables.{
  Stamp, at, malformed, PaperLedger, PaperFillRow, PaperAccountRow, PaperPositionRow, same_side,
  holds,
}

-- The arguments. An amount is nothing where it has more than eight decimals.
pub record FillRequest : Type 0 where
  pub run_id : String
  pub client_order_id : String
  pub expected_order_version : ℕ
  pub fill_id : String
  pub broker_order_id : String
  pub broker_fill_id : String
  pub instrument : String
  pub side : String
  pub quantity : Option ℤ
  pub price : Option ℤ
  pub commission : Option ℤ
  pub multiplier : Option ℤ
  pub quote_ts : Stamp
  pub ts : Stamp

-- The arguments, checked.
pub record FillTerms : Type 0 where
  pub run_id : String
  pub client_order_id : String
  pub expected_order_version : ℕ
  pub fill_id : String
  pub broker_order_id : String
  pub broker_fill_id : String
  pub instrument : String
  pub side : Side
  pub quantity : ℤ
  pub price : ℤ
  pub commission : ℤ
  pub multiplier : ℤ
  pub quote_ts : ℕ
  pub ts : ℕ

pub record FillCommitResult : Type 0 where
  pub order : PaperOrderRow
  pub fill : PaperFillRow
  pub account : PaperAccountRow
  pub position : PaperPositionRow

abbrev pub any_empty : List String → Bool
any_empty [] = false
any_empty (s ∷ rest) = is_empty s || any_empty rest

abbrev pub side_of : String → Result Side
side_of s =
    if str_eq s "BUY"
    then ok buy
    else if str_eq s "SELL"
    then ok sell
    else failed (value_error "side must be BUY or SELL")

-- `_paper_timestamp`
abbrev pub timestamp : Stamp → Fault → Result ℕ
timestamp (at t) e = ok t
timestamp malformed e = failed e

-- The checks before the transaction.
unfoldable pub checked_fill : FillRequest → Result FillTerms
checked_fill r = do
  raise_if
      (any_empty (
        r.run_id ∷ r.client_order_id ∷ r.fill_id ∷ r.broker_order_id ∷ r.broker_fill_id
        ∷ r.instrument ∷ r.side ∷ []))
      (value_error "fill identity fields must be non-empty strings")
  side ← side_of r.side
  qty ← positive_amount r.quantity
  px ← positive_amount r.price
  fee ← nonnegative_amount r.commission
  mult ← positive_amount r.multiplier
  quote_time ← timestamp r.quote_ts (value_error "quote_ts must be a UTC ISO-8601 timestamp")
  fill_time ← timestamp r.ts (value_error "ts must be a UTC ISO-8601 timestamp")
  raise_if (ltb fill_time quote_time) (value_error "fill timestamp cannot precede the bound quote")
  ok (record {
    run_id = r.run_id;
    client_order_id = r.client_order_id;
    expected_order_version = r.expected_order_version;
    fill_id = r.fill_id;
    broker_order_id = r.broker_order_id;
    broker_fill_id = r.broker_fill_id;
    instrument = r.instrument;
    side = side;
    quantity = qty;
    price = px;
    commission = fee;
    multiplier = mult;
    quote_ts = quote_time;
    ts = fill_time;
  })

-- `SELECT ... FROM paper_fills WHERE client_order_id=?`: the column is unique.
abbrev pub fill_of : (client_order_id : String) → List PaperFillRow → Option PaperFillRow
fill_of id [] = none
fill_of id (f ∷ fills) = if str_eq f.client_order_id id then some f else fill_of id fills

-- The fill that is stored is not the one that the caller commits.
abbrev pub differs : FillTerms → PaperOrderRow → PaperFillRow → Bool
differs r order existing =
    not (str_eq order.run_id r.run_id)
    || not (same_state order.state filled)
    || not (holds order.broker_order_id r.broker_order_id)
    || not (str_eq existing.fill_id r.fill_id)
    || not (str_eq existing.broker_fill_id r.broker_fill_id)
    || not (str_eq existing.instrument r.instrument)
    || not (same_side existing.side r.side)
    || not (eqb_ℤ existing.quantity r.quantity)
    || not (eqb_ℤ existing.price r.price)
    || not (eqb_ℤ existing.commission r.commission)
    || not (eqb_ℤ existing.multiplier r.multiplier)
    || not (existing.quote_ts == r.quote_ts)
    || not (existing.ts == r.ts)

-- `_paper_existing_fill_result`, for a run that was found under its identifier
unfoldable pub existing_fill_result :
    FillTerms → PaperOrderRow → PaperFillRow → PaperLedger → Result FillCommitResult
existing_fill_result r order existing l = do
  raise_if (differs r order existing)
      (conflict "fill retry does not exactly match the immutable committed fill")
  account ←
      or_fail (l.accounts r.run_id)
        (safety_error "committed fill is missing its account or position projection")
  position ←
      or_fail (l.positions r.run_id r.instrument)
        (safety_error "committed fill is missing its account or position projection")
  ok (record { order = order; fill = existing; account = account; position = position })
