-- ===== src/Paper/Stages.antt =====
-- What holds after each stage of a fill that went through.
use aitrading.Common.{Bool, true, false, Option, none, some, ◌≡◌, refl, subst, ap, arith}
use aitrading.Common.Int.{ℤ, pos, ◌≤ℤ◌, ◌<ℤ◌, ltb_ℤ, abs_ℤ, ◌+ℤ◌}
use aitrading.Runtime.Positions.{buy, sell}
use aitrading.Paper.Orders.{PaperOrderRow}
use aitrading.Paper.Money.{
  ok, >>=-ok, raise_if-ok, ok-injective, ledger_money, positive_amount, nonnegative_amount,
}
use aitrading.Paper.Config.{PaperConfig}
use aitrading.Paper.Tables.{PaperLedger, PaperAccountRow}
use aitrading.Paper.Fill.{Admitted, project_fill}
use aitrading.Paper.Fill.Request.{FillRequest, FillTerms, checked_fill, side_of, timestamp}
use aitrading.Paper.Fill.Project.{
  Holding, holding_of, Exposure, Books, DayOutcome, amount_of, check_books, exposure, day_fills,
  check_activity, books_after, day_after, signed, cash_after, average_after, realized_after,
  check_reduction,
}
use aitrading.Paper.Fill.Write.{Decided}

-- The decision of a fill, from its stages.
abbrev pub decided :
    FillTerms → PaperOrderRow → Admitted → PaperLedger → Books → DayOutcome → Decided
decided r order a l b o = record {
  order = order;
  account = a.account;
  position = l.positions r.run_id r.instrument;
  day = a.day;
  books = b;
  outcome = o;
}

pub project-stages :
    (r : FillTerms) (order : PaperOrderRow) (a : Admitted) (l : PaperLedger) (d : Decided)
    → project_fill r order a l ≡ ok d
    → (e : Exposure) × (b : Books) × (o : DayOutcome) × (check_books r a.account
          (holding_of (l.positions r.run_id r.instrument))
        ≡ ok tt)
      × (exposure r a.config (holding_of (l.positions r.run_id r.instrument)) ≡ ok e)
      × (check_activity r a.config e.notional (day_fills r.run_id a.day.date l.orders l.fills)
          ≡ ok tt)
      × (books_after r a.account (holding_of (l.positions r.run_id r.instrument)) e ≡ ok b)
      × (day_after r a.risk a.day a.account b ≡ ok o)
      × (d ≡ decided r order a l b o)
unfolding project_fill
project-stages r order a l d h =
    let holding = holding_of (l.positions r.run_id r.instrument) in
    let (_, books, h1) = >>=-ok (check_books r a.account holding) _ d h in
    let (e, exposed, h2) = >>=-ok (exposure r a.config holding) _ d h1 in
    let (_, active, h3) =
      >>=-ok (check_activity r a.config e.notional (day_fills r.run_id a.day.date l.orders l.fills))
        _ d h2 in
    let (b, after, h4) = >>=-ok (books_after r a.account holding e) _ d h3 in
    let (o, outcome, h5) = >>=-ok (day_after r a.risk a.day a.account b) _ d h4 in
    (e, b, o, books, exposed, active, after, outcome, ground (arith, h5))

pub ledger_money-ok :
    (flag : Bool) (m : Option ℤ) (x : ℤ)
    → ledger_money flag m ≡ ok x
    → (m ≡ some x) × (flag ≡ true → pos 0 ≤ℤ x)
ledger_money-ok flag none x h = ground arith
ledger_money-ok true (some y) x h = (ground arith, λ _. ground arith)
ledger_money-ok false (some y) x h = (ground arith, λ e. ground arith)

pub ltb_ℤ-false : (a b : ℤ) → ltb_ℤ a b ≡ false → b ≤ℤ a
ltb_ℤ-false a b h = ground arith

positive_amount-ok : (m : Option ℤ) (x : ℤ) → positive_amount m ≡ ok x → pos 0 <ℤ x
positive_amount-ok none x h = ground arith
positive_amount-ok (some y) x h = ground arith

-- A fill's quantity and price are positive.
pub checked_fill-positive :
    (q : FillRequest) (r : FillTerms)
    → checked_fill q ≡ ok r
    → (pos 0 <ℤ r.quantity) × (pos 0 <ℤ r.price)
unfolding checked_fill
checked_fill-positive q r h =
    let (_, named) = raise_if-ok _ _ _ r h in
    let (side, _, h1) = >>=-ok (side_of q.side) _ r named in
    let (qty, quantity, h2) = >>=-ok (positive_amount q.quantity) _ r h1 in
    let (px, price, h3) = >>=-ok (positive_amount q.price) _ r h2 in
    let (fee, _, h4) = >>=-ok (nonnegative_amount q.commission) _ r h3 in
    let (mult, _, h5) = >>=-ok (positive_amount q.multiplier) _ r h4 in
    let (quoted, _, h6) = >>=-ok (timestamp q.quote_ts _) _ r h5 in
    let (at, _, h7) = >>=-ok (timestamp q.ts _) _ r h6 in
    let (_, e) = raise_if-ok _ _ _ r h7 in
    (
      subst (λ x. pos 0 <ℤ x) (ap (λ t. t.quantity) (ok-injective e))
          (positive_amount-ok q.quantity qty quantity),
      subst (λ x. pos 0 <ℤ x) (ap (λ t. t.price) (ok-injective e))
          (positive_amount-ok q.price px price),
    )

pub check_books-ok :
    (r : FillTerms) (a : PaperAccountRow) (h : Holding)
    → check_books r a h ≡ ok tt
    → (pos 0 ≤ℤ h.quantity) × (r.side ≡ sell → r.quantity ≤ℤ h.quantity)
unfolding check_books
check_books-ok r a h e = ground arith

-- The exposure of a fill: its value, the quantity then, and the value of that.
pub exposure-ok :
    (r : FillTerms) (c : PaperConfig) (h : Holding) (e : Exposure)
    → exposure r c h ≡ ok e
    → (amount_of r.quantity r.price r.multiplier ≡ some e.notional)
      × (e.quantity ≡ signed r.side h.quantity r.quantity)
      × (amount_of (abs_ℤ e.quantity) r.price r.multiplier ≡ some e.gross)
      × (pos 0 ≤ℤ e.notional)
      × (pos 0 ≤ℤ e.gross)
unfolding exposure
exposure-ok r c h e x =
    let (notional, m, h1) =
      >>=-ok (ledger_money true (amount_of r.quantity r.price r.multiplier)) _ e x in
    let (_, h2) = raise_if-ok _ _ _ e h1 in
    let q = signed r.side h.quantity r.quantity in
    let (gross, g, h3) =
      >>=-ok (ledger_money true (amount_of (abs_ℤ q) r.price r.multiplier)) _ e h2 in
    let (_, h4) = raise_if-ok _ _ _ e h3 in
    let (_, _, h5) = >>=-ok (check_reduction r.side h.quantity r.price r.multiplier gross) _ e h4 in
    let (valued, nonneg) = ledger_money-ok true _ notional m in
    let (exposed, positive) = ledger_money-ok true _ gross g in
    exposure-of e h5 valued exposed (nonneg refl) (positive refl)
  where
    exposure-of :
        {n q g : ℤ} (e : Exposure)
        → ok (record { notional = n; quantity = q; gross = g }) ≡ ok e
        → amount_of r.quantity r.price r.multiplier ≡ some n
        → amount_of (abs_ℤ q) r.price r.multiplier ≡ some g
        → pos 0 ≤ℤ n
        → pos 0 ≤ℤ g
        → (amount_of r.quantity r.price r.multiplier ≡ some e.notional)
          × (e.quantity ≡ q)
          × (amount_of (abs_ℤ e.quantity) r.price r.multiplier ≡ some e.gross)
          × (pos 0 ≤ℤ e.notional)
          × (pos 0 ≤ℤ e.gross)
    exposure-of e h v x nn ng = ground arith

-- A BUY stays within the caps.
pub exposure-caps :
    (r : FillTerms) (c : PaperConfig) (h : Holding) (e : Exposure)
    → exposure r c h ≡ ok e
    → r.side ≡ buy
    → (e.notional ≤ℤ c.max_order_notional) × (e.gross ≤ℤ c.max_gross_notional)
unfolding exposure
exposure-caps r c h e x b = ground arith

pub books_after-ok :
    (r : FillTerms) (a : PaperAccountRow) (h : Holding) (e : Exposure) (b : Books)
    → books_after r a h e ≡ ok b
    → (b.cash ≡ cash_after r.side a.cash e.notional r.commission)
      × (average_after r r.side h e.quantity ≡ some b.average)
      × (realized_after r r.side h ≡ some b.realized)
      × (r.side ≡ buy → pos 0 ≤ℤ b.cash)
      × (b.quantity ≡ e.quantity)
      × (b.mark ≡ r.price)
      × (b.net ≡ e.gross)
      × (b.equity ≡ b.cash +ℤ e.gross)
unfolding books_after
books_after-ok r a h e b x = ground arith
