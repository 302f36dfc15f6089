-- ===== src/Paper/Limits.antt =====
-- The caps on a BUY of the paper canary.
use aitrading.Common.{
  ℕ, ◌+◌, ◌≤◌, true, false, ◌&&◌, Option, none, some, List, ◌≡◌, sym, subst, arith, ltb,
}
use aitrading.Common.Int.{ℤ, pos, ◌≤ℤ◌, ◌+ℤ◌, ◌*ℤ◌, ltb_ℤ}
use aitrading.Runtime.Positions.{buy}
use aitrading.Paper.Runs.{PaperRunRow}
use aitrading.Paper.Money.{ok, >>=-ok, raise_if-ok, ledger_money, exact_ratio, safety_error}
use aitrading.Paper.Config.{PaperConfig, ParsedConfig, paper_config}
use aitrading.Paper.Tables.{PaperLedger, PaperFillRow, is_buy, day_of}
use aitrading.Paper.Fill.{Extern, Clock, commit_paper_fill_atomic}
use aitrading.Paper.Fill.Request.{FillRequest, FillTerms, FillCommitResult, checked_fill, fill_of}
use aitrading.Paper.Fill.Project.{amount_of, holding_of, day_fills, count, traded, check_activity}
use aitrading.Paper.Fill.Write.{committed_rows}
use aitrading.Paper.Course.{first_commit}
use aitrading.Paper.Stages.{ledger_money-ok, exposure-ok, exposure-caps, books_after-ok}
use aitrading.Paper.Admission.{trading_day-ok}

ltb-false : (a b : ℕ) → (true && ltb a b) ≡ false → b ≤ a
ltb-false a b h = ground arith

-- The day's turnover, a fill of this value with it.
abbrev pub turnover_with : (notional : ℤ) → List PaperFillRow → Option ℤ
turnover_with notional prior =
    exact_ratio (traded prior +ℤ notional *ℤ pos 10_000_000_000_000_000) 10_000_000_000_000_000

below_cap : (a b : ℤ) → (true && ltb_ℤ b a) ≡ false → a ≤ℤ b
below_cap a b h = ground arith

-- The caps of a BUY: the turnover and the number of the day's orders, this one with them.
check_activity-caps :
    (r : FillTerms) (c : PaperConfig) (notional : ℤ) (prior : List PaperFillRow)
    → check_activity r c notional prior ≡ ok tt
    → r.side ≡ buy
    → (turnover : ℤ) × (turnover_with notional prior ≡ some turnover)
      × (turnover ≤ℤ c.max_daily_turnover)
      × (count prior + 1 ≤ c.max_orders)
unfolding check_activity
check_activity-caps r c notional prior h b =
    let (turnover, summed, h1) = >>=-ok (ledger_money true (turnover_with notional prior)) _ tt h in
    let (capped, h2) =
      raise_if-ok (is_buy r.side && ltb_ℤ c.max_daily_turnover turnover)
        (safety_error "max_daily_turnover exceeded") _ tt h1 in
    let (within, _) =
      raise_if-ok (is_buy r.side && ltb c.max_orders (count prior + 1))
        (safety_error "max_orders exceeded") (ok tt) tt h2 in
    (
      turnover,
      (ledger_money-ok true _ turnover summed).0,
      below_cap turnover c.max_daily_turnover
          (subst (λ s. (is_buy s && ltb_ℤ c.max_daily_turnover turnover) ≡ false) b capped),
      ltb-false c.max_orders (count prior + 1)
          (subst (λ s. (is_buy s && ltb c.max_orders (count prior + 1)) ≡ false) b within),
    )

-- A BUY that is committed for the first time is within the caps of its run's configuration: its value, the
-- exposure after it, and the turnover and the number of orders of the day with it. Its account's cash is not
-- negative.
pub commit-buy_caps :
    (x : Extern) (clock : Clock) (q : FillRequest) (r : FillTerms) (l : PaperLedger)
    (rows : FillCommitResult) (l' : PaperLedger)
    → checked_fill q ≡ ok r
    → fill_of r.client_order_id l.fills ≡ none
    → r.side ≡ buy
    → commit_paper_fill_atomic x clock q l ≡ ok (rows, l')
    → (run : PaperRunRow) × (p : ParsedConfig) × (value turnover : ℤ) × (l.runs r.run_id ≡ some run)
      × (paper_config x.codec run.config_json ≡ ok p)
      × (amount_of r.quantity r.price r.multiplier ≡ some value)
      × (value ≤ℤ p.config.max_order_notional)
      × (rows.account.gross_exposure ≤ℤ p.config.max_gross_notional)
      × (turnover_with value (day_fills r.run_id (day_of clock.candidate) l.orders l.fills)
          ≡ some turnover)
      × (turnover ≤ℤ p.config.max_daily_turnover)
      × (count (day_fills r.run_id (day_of clock.candidate) l.orders l.fills) + 1
          ≤ p.config.max_orders)
      × (pos 0 ≤ℤ rows.account.cash)
unfolding committed_rows
commit-buy_caps x clock q r l rows l' checked fresh b h =
    let k = first_commit x clock q r l rows l' checked fresh h in
    let a = k.admitted in
    let e = k.exposed in
    let p = k.parsed in
    let holding = holding_of (l.positions r.run_id r.instrument) in
    let (valued, _, _, _, _) = exposure-ok r a.config holding e k.exposure_eq in
    let (order_cap, gross_cap) = exposure-caps r a.config holding e k.exposure_eq b in
    let date = (trading_day-ok r.side a.risk.capital clock.candidate l a.day k.day).0 in
    let prior = day_fills r.run_id a.day.date l.orders l.fills in
    let (turnover, summed, turnover_cap, number) =
      check_activity-caps r a.config e.notional prior k.active b in
    let (_, _, _, cash, _, _, net, _) = books_after-ok r a.account holding e k.books k.books_eq in
    (
      k.run,
      p,
      e.notional,
      turnover,
      k.found,
      k.config,
      valued,
      subst (λ (c : PaperConfig). e.notional ≤ℤ c.max_order_notional) k.same_config order_cap,
      rw (k.rows_eq, net, sym k.same_config) gross_cap,
      subst
          (λ day.
            turnover_with e.notional (day_fills r.run_id day l.orders l.fills) ≡ some turnover)
          date summed,
      subst (λ (c : PaperConfig). turnover ≤ℤ c.max_daily_turnover) k.same_config turnover_cap,
      rw (sym date, sym k.same_config) number,
      rw k.rows_eq (cash b),
    )
