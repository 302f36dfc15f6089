-- ===== src/Paper/Fill/Project.antt =====
-- The account and the position after a fill, with the caps and the loss limits that bind a BUY:
-- commit_paper_fill_atomic of src/atp/store/base.py.
use text.Mathlib.Text.{◌==◌ as str_eq}
use aitrading.Common.{
  ℕ, ◌+◌, Bool, true, false, not, ◌||◌, ◌&&◌, Option, none, some, String, List, [], ◌∷◌,
  if◌then◌else◌, ltb, ◌==◌,
}
use aitrading.Common.Int.{ℤ, pos, ◌+ℤ◌, ◌-ℤ◌, ◌*ℤ◌, ltb_ℤ, leb_ℤ, eqb_ℤ, neg_ℤ, abs_ℤ, max_ℤ, min_ℤ}
use aitrading.Runtime.Positions.{Side, buy, sell}
use aitrading.Paper.Orders.{PaperOrderRow}
use aitrading.Paper.Money.{
  Result, ok, safety_error, ◌>>=◌, ◌>>◌, raise_if, exact_ratio, exact_quotient, ledger_money,
}
use aitrading.Paper.Config.{PaperConfig}
use aitrading.Paper.Tables.{PaperFillRow, PaperAccountRow, PaperPositionRow, day_of, is_buy}
use aitrading.Paper.Fill.Request.{FillTerms}
use aitrading.Paper.Fill.Admit.{RiskBounds}
use aitrading.Paper.Fill.Market.{TradingDay}

-- A product of three amounts, in units of 10^-24, and that as an amount.
abbrev pub value_of : (quantity price multiplier : ℤ) → ℤ
value_of q p m = q *ℤ p *ℤ m

unfoldable pub amount_of : (quantity price multiplier : ℤ) → Option ℤ
unfolding exact_ratio
amount_of q p m = exact_ratio (value_of q p m) 10_000_000_000_000_000

-- What the position is before the fill.
pub record Holding : Type 0 where
  pub quantity : ℤ
  pub average : ℤ
  pub mark : ℤ
  pub realized : ℤ

abbrev pub holding_of : Option PaperPositionRow → Holding
holding_of none = record { quantity = pos 0; average = pos 0; mark = pos 0; realized = pos 0 }
holding_of (some p) = record {
  quantity = p.quantity;
  average = p.avg_price;
  mark = p.mark_price;
  realized = p.realized_pnl;
}

-- The account is what the position says.
abbrev pub is_consistent : PaperAccountRow → Holding → (net : ℤ) → Bool
is_consistent a h net =
    leb_ℤ (pos 0) h.quantity
    && eqb_ℤ a.realized_pnl h.realized
    && eqb_ℤ a.gross_exposure (abs_ℤ net)
    && eqb_ℤ a.net_exposure net
    && eqb_ℤ a.equity (a.cash +ℤ net)

unfoldable pub check_books : FillTerms → PaperAccountRow → Holding → Result (Unit {0})
unfolding amount_of
check_books r account h = do
  net ← ledger_money true (amount_of h.quantity h.mark r.multiplier)
  raise_if (not (is_consistent account h net))
      (safety_error "account and position projections are inconsistent")
  raise_if (not (is_buy r.side) && ltb_ℤ h.quantity r.quantity)
      (safety_error "Paper Canary is long-only; SELL exceeds the long position")
  ok tt

abbrev pub signed : Side → ℤ → ℤ → ℤ
signed buy old q = old +ℤ q
signed sell old q = old -ℤ q

-- The fill's value, and the exposure after it.
pub record Exposure : Type 0 where
  pub notional : ℤ
  pub quantity : ℤ
  pub gross : ℤ

-- A SELL reduces the exposure at the price of the fill.
unfoldable pub check_reduction : Side → (quantity price multiplier gross : ℤ) → Result (Unit {0})
unfolding amount_of
check_reduction buy q p m gross = ok tt
check_reduction sell q p m gross = do
  before ← ledger_money true (amount_of q p m)
  raise_if (leb_ℤ before gross) (safety_error "SELL must strictly reduce the locked long exposure")

unfoldable pub exposure : FillTerms → PaperConfig → Holding → Result Exposure
unfolding amount_of check_reduction
exposure r c h = do
  notional ← ledger_money true (amount_of r.quantity r.price r.multiplier)
  raise_if (is_buy r.side && ltb_ℤ c.max_order_notional notional)
      (safety_error "max_order_notional exceeded")
  let quantity = signed r.side h.quantity r.quantity
  gross ← ledger_money true (amount_of (abs_ℤ quantity) r.price r.multiplier)
  raise_if (is_buy r.side && ltb_ℤ c.max_gross_notional gross)
      (safety_error "max_gross_notional exceeded")
  check_reduction r.side h.quantity r.price r.multiplier gross
  ok (record { notional = notional; quantity = quantity; gross = gross })

-- The order of a fill is one of the run.
abbrev pub is_of_run : (run_id : String) → Option PaperOrderRow → Bool
is_of_run run_id none = false
is_of_run run_id (some o) = str_eq o.run_id run_id

-- The fills of the run on the day: `FROM paper_fills f JOIN paper_orders o ... WHERE o.run_id=?`, and of
-- these the ones with the date.
unfoldable pub day_fills :
    (run_id : String) (day : ℕ)
    → (String → Option PaperOrderRow)
    → List PaperFillRow
    → List PaperFillRow
day_fills run_id day orders [] = []
day_fills run_id day orders (f ∷ fills) =
    let rest = day_fills run_id day orders fills in
    if is_of_run run_id (orders f.client_order_id) && (day_of f.ts == day) then f ∷ rest else rest

-- Their value, in units of 10^-24, and their number.
abbrev pub traded : List PaperFillRow → ℤ
traded [] = pos 0
traded (f ∷ fills) = value_of f.quantity f.price f.multiplier +ℤ traded fills

abbrev pub count : List PaperFillRow → ℕ
count [] = 0
count (_ ∷ fills) = count fills + 1

-- The turnover and the number of orders of the day, the fill with them.
unfoldable pub check_activity :
    FillTerms → PaperConfig → (notional : ℤ) → List PaperFillRow → Result (Unit {0})
unfolding exact_ratio
check_activity r c notional prior = do
  turnover ←
      ledger_money true (
        exact_ratio (traded prior +ℤ notional *ℤ pos 10_000_000_000_000_000) 10_000_000_000_000_000)
  raise_if (is_buy r.side && ltb_ℤ c.max_daily_turnover turnover)
      (safety_error "max_daily_turnover exceeded")
  raise_if (is_buy r.side && ltb c.max_orders (count prior + 1))
      (safety_error "max_orders exceeded")
  ok tt

-- The books after the fill.
pub record Books : Type 0 where
  pub cash : ℤ
  pub quantity : ℤ
  pub average : ℤ
  pub mark : ℤ
  pub realized : ℤ
  pub net : ℤ
  pub equity : ℤ

abbrev pub cash_after : Side → (cash notional fee : ℤ) → ℤ
cash_after buy cash notional fee = cash -ℤ notional -ℤ fee
cash_after sell cash notional fee = cash +ℤ notional -ℤ fee

-- `weighted_cost / new_quantity` of a BUY; a SELL keeps the average, until it closes the position.
abbrev pub average_after : FillTerms → Side → Holding → (quantity : ℤ) → Option ℤ
average_after r buy h quantity =
    exact_quotient (h.quantity *ℤ h.average +ℤ r.quantity *ℤ r.price) quantity
average_after r sell h quantity = if eqb_ℤ quantity (pos 0) then some (pos 0) else some h.average

abbrev pub plus : ℤ → Option ℤ → Option ℤ
plus x none = none
plus x (some y) = some (x +ℤ y)

-- The realized P&L, to which a BUY adds nothing, not its commission either.
abbrev pub realized_after : FillTerms → Side → Holding → Option ℤ
realized_after r buy h = some h.realized
realized_after r sell h =
    plus (h.realized -ℤ r.commission) (amount_of (r.price -ℤ h.average) r.quantity r.multiplier)

unfoldable pub books_after : FillTerms → PaperAccountRow → Holding → Exposure → Result Books
unfolding exact_quotient amount_of
books_after r account h e = do
  cash ←
      ledger_money (is_buy r.side) (some (cash_after r.side account.cash e.notional r.commission))
  average ← ledger_money true (average_after r r.side h e.quantity)
  realized ← ledger_money false (realized_after r r.side h)
  ok (record {
    cash = cash;
    quantity = e.quantity;
    average = average;
    mark = r.price;
    realized = realized;
    net = e.gross;
    equity = cash +ℤ e.gross;
  })

-- A loss, not below zero, reaches a limit: a percentage of a capital.
abbrev pub reaches : (loss capital pct : ℤ) → Bool
reaches loss capital pct = leb_ℤ (capital *ℤ pct) (max_ℤ (pos 0) loss *ℤ pos 10_000_000_000)

-- The day's loss or the run's is at its limit, before the fill or after it.
unfoldable pub is_at_limit :
    RiskBounds → (day_capital before : ℤ) → PaperAccountRow → (equity after : ℤ) → Bool
is_at_limit risk day_capital before account equity after =
    let run_capital = min_ℤ risk.capital account.starting_cash in
    reaches (neg_ℤ before) day_capital risk.loss_pct
    || reaches (neg_ℤ after) day_capital risk.loss_pct
    || reaches (account.starting_cash -ℤ account.equity) run_capital risk.loss_pct
    || reaches (account.starting_cash -ℤ equity) run_capital risk.loss_pct

-- The day's aggregate after the fill, and whether the lock is to be engaged: a BUY does not come to the limit.
pub record DayOutcome : Type 0 where
  pub equity_delta : ℤ
  pub engages : Bool

unfoldable pub day_after :
    FillTerms → RiskBounds → TradingDay → PaperAccountRow → Books → Result DayOutcome
unfolding is_at_limit
day_after r risk day account b = do
  let delta = day.equity_delta +ℤ (b.equity -ℤ account.equity)
  let limit = is_at_limit risk day.capital day.equity_delta account b.equity delta
  raise_if (is_buy r.side && limit) (safety_error "durable Paper daily loss limit would be reached")
  ok (record { equity_delta = delta; engages = not (is_buy r.side) && limit })
