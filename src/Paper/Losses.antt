-- ===== src/Paper/Losses.antt =====
-- The daily loss of the paper canary: the limit on a BUY, the lock that a SELL engages, and the day's aggregate.
use aitrading.Common.{
  ℕ, Bool, true, false, not, ◌||◌, ◌&&◌, Option, none, some, String, ◌≡◌, refl, sym, ap, ◌∙◌, subst,
  arith,
}
use aitrading.Common.Int.{ℤ, ◌+ℤ◌, ◌-ℤ◌}
use aitrading.Runtime.Positions.{buy}
use aitrading.Paper.Money.{ok, raise_if-ok, ok-injective}
use aitrading.Paper.Tables.{
  PaperLedger, PaperAccountRow, LossLock, DailyLossState, is_buy, day_of, put_day,
}
use aitrading.Paper.Risk.{risk_capital, max_loss_pct}
use aitrading.Paper.Fill.{Extern, Clock, commit_paper_fill_atomic}
use aitrading.Paper.Fill.Request.{FillRequest, FillTerms, FillCommitResult, checked_fill, fill_of}
use aitrading.Paper.Fill.Admit.{RiskBounds}
use aitrading.Paper.Fill.Market.{TradingDay, lock_row, loss_row}
use aitrading.Paper.Fill.Project.{Books, DayOutcome, day_after, is_at_limit}
use aitrading.Paper.Fill.Write.{written, committed_rows, latched, filled_day}
use aitrading.Paper.Course.{Course, first_commit}
use aitrading.Paper.Admission.{bound_account-ok, trading_day-ok, admit_risk-ok}

-- The day's aggregate moves by the account's equity, and a BUY does not come to a limit.
day_after-ok :
    (r : FillTerms) (risk : RiskBounds) (day : TradingDay) (a : PaperAccountRow) (b : Books)
    (o : DayOutcome)
    → day_after r risk day a b ≡ ok o
    → (o.equity_delta ≡ day.equity_delta +ℤ (b.equity -ℤ a.equity))
      × (o.engages
          ≡ not (is_buy r.side)
            && is_at_limit risk day.capital day.equity_delta a b.equity o.equity_delta)
      × ((is_buy r.side && is_at_limit risk day.capital day.equity_delta a b.equity o.equity_delta)
          ≡ false)
unfolding day_after
day_after-ok r risk day a b o h =
    let delta = day.equity_delta +ℤ (b.equity -ℤ a.equity) in
    let (within, h1) =
      raise_if-ok (is_buy r.side && is_at_limit risk day.capital day.equity_delta a b.equity delta)
        _
        (ok (record {
          equity_delta = delta;
          engages =
              not (is_buy r.side) && is_at_limit risk day.capital day.equity_delta a b.equity delta;
        }))
        o h in
    subst
      (λ (o : DayOutcome).
        (o.equity_delta ≡ day.equity_delta +ℤ (b.equity -ℤ a.equity))
        × (o.engages
            ≡ not (is_buy r.side)
              && is_at_limit risk day.capital day.equity_delta a b.equity o.equity_delta)
        × ((is_buy r.side
              && is_at_limit risk day.capital day.equity_delta a b.equity o.equity_delta)
            ≡ false))
      (ok-injective h1) (refl, refl, within)

both_false : (a b : Bool) → a ≡ true → (a && b) ≡ false → b ≡ false
both_false a b e h = ground arith

swap_and : (a b : Bool) → (a && b) ≡ false → (b && a) ≡ false
swap_and a b h = ground arith

-- The lock of the day as a fill finds it, and the day's aggregate.
abbrev pub found_lock : Clock → PaperLedger → LossLock
found_lock clock l = lock_row clock.candidate (l.loss_locks (day_of clock.candidate))

abbrev pub found_delta : Clock → (capital : ℤ) → PaperLedger → Option ℤ
found_delta clock capital l =
    (loss_row capital clock.candidate
      (l.daily_losses (day_of clock.candidate))).cumulative_equity_delta

-- What the day's limit is computed from: the risk configuration, the account, and the day's aggregate.
pub record IsLimitOf (risk : RiskBounds) (account : PaperAccountRow) (delta : ℤ) (clock : Clock)
    (run_id : String) (l : PaperLedger) : Type 0 where
  pub capital_eq : risk_capital l ≡ ok risk.capital
  pub pct_eq : max_loss_pct l ≡ ok risk.loss_pct
  pub account_eq : l.accounts run_id ≡ some account
  pub delta_eq : found_delta clock risk.capital l ≡ some delta

limit_of :
    {x : Extern} {clock : Clock} {r : FillTerms} {l : PaperLedger} {rows : FillCommitResult}
    {l' : PaperLedger} (k : Course x clock r l rows l')
    → IsLimitOf k.admitted.risk k.admitted.account k.admitted.day.equity_delta clock r.run_id l
limit_of {x = x} {clock = clock} {r = r} {l = l} k =
    let (capital, pct) =
      admit_risk-ok x.is_stripped x.token k.run k.order k.gate.config l k.admitted.risk k.risk in
    let (_, _, losses, summed, _, _) =
      trading_day-ok r.side k.admitted.risk.capital clock.candidate l k.admitted.day k.day in
    record {
      capital_eq = capital;
      pct_eq = pct;
      account_eq = (bound_account-ok r.run_id k.gate.config l k.admitted.account k.account).0;
      delta_eq =
          subst
            (λ (d : DailyLossState). d.cumulative_equity_delta ≡ some k.admitted.day.equity_delta)
            losses summed;
    }

-- A BUY that is committed for the first time finds the day's lock open, and neither the loss of the day, which
-- all runs share, nor the loss of the run is at its limit, before the fill or after it.
pub commit-buy_losses :
    (x : Extern) (clock : Clock) (q : FillRequest) (r : FillTerms) (l : PaperLedger)
    (rows : FillCommitResult) (l' : PaperLedger)
    → checked_fill q ≡ ok r
    → fill_of r.client_order_id l.fills ≡ none
    → r.side ≡ buy
    → commit_paper_fill_atomic x clock q l ≡ ok (rows, l')
    → (risk : RiskBounds) × (account : PaperAccountRow) × (delta : ℤ) × IsLimitOf risk account delta
        clock r.run_id l
      × ((found_lock clock l).engaged ≡ false)
      × (is_at_limit risk risk.capital delta account rows.account.equity
            (delta +ℤ (rows.account.equity -ℤ account.equity))
          ≡ false)
unfolding committed_rows
commit-buy_losses x clock q r l rows l' checked fresh b h =
    let k = first_commit x clock q r l rows l' checked fresh h in
    let a = k.admitted in
    let (_, lock, _, _, capital, open_lock) =
      trading_day-ok r.side a.risk.capital clock.candidate l a.day k.day in
    let (moved, _, limit) = day_after-ok r a.risk a.day a.account k.books k.outcome k.outcome_eq in
    (
      a.risk,
      a.account,
      a.day.equity_delta,
      limit_of k,
      both_false (is_buy r.side) _ (ap is_buy b) (
          subst (λ (k : LossLock). (is_buy r.side && k.engaged) ≡ false) lock
            (swap_and a.day.lock.engaged (is_buy r.side) open_lock)),
      rw (k.rows_eq, sym moved, sym capital) (both_false (is_buy r.side) _ (ap is_buy b) limit),
    )

put_day_same : {A : Type 0} (d : ℕ) (a : A) (f : ℕ → A) → put_day d a f d ≡ a
put_day_same d a f = ground arith

latched-engaged :
    (engages : Bool) (now : ℕ) (lock : LossLock)
    → (latched engages now lock).engaged ≡ lock.engaged || engages
latched-engaged engages now lock = ground arith

-- After a first commit of a fill, the day's aggregate has moved by the change of the account's equity, and the
-- day's lock is engaged where it was before, or where the fill is a SELL and a loss is at its limit.
pub commit-day_losses :
    (x : Extern) (clock : Clock) (q : FillRequest) (r : FillTerms) (l : PaperLedger)
    (rows : FillCommitResult) (l' : PaperLedger)
    → checked_fill q ≡ ok r
    → fill_of r.client_order_id l.fills ≡ none
    → commit_paper_fill_atomic x clock q l ≡ ok (rows, l')
    → (risk : RiskBounds) × (account : PaperAccountRow) × (delta : ℤ) × (lock : LossLock)
      × (losses : DailyLossState) × IsLimitOf risk account delta clock r.run_id l
      × (l'.daily_losses (day_of clock.candidate) ≡ some losses)
      × (losses.cumulative_equity_delta ≡ some (delta +ℤ (rows.account.equity -ℤ account.equity)))
      × (l'.loss_locks (day_of clock.candidate) ≡ some lock)
      × (lock.engaged
          ≡ (found_lock clock l).engaged
            || not (is_buy r.side)
              && is_at_limit risk risk.capital delta account rows.account.equity
                  (delta +ℤ (rows.account.equity -ℤ account.equity)))
unfolding committed_rows written
commit-day_losses x clock q r l rows l' checked fresh h =
    let k = first_commit x clock q r l rows l' checked fresh h in
    let a = k.admitted in
    let (date, lock, _, _, capital, _) =
      trading_day-ok r.side a.risk.capital clock.candidate l a.day k.day in
    let (moved, engages, _) =
      day_after-ok r a.risk a.day a.account k.books k.outcome k.outcome_eq in
    (
      a.risk,
      a.account,
      a.day.equity_delta,
      latched k.outcome.engages clock.commit a.day.lock,
      filled_day clock.commit k.outcome a.day.losses,
      limit_of k,
      rw (k.written_eq, sym date) (put_day_same a.day.date _ l.daily_losses),
      rw k.rows_eq (ap some moved),
      rw (k.written_eq, sym date) (put_day_same a.day.date _ l.loss_locks),
      latched-engaged k.outcome.engages clock.commit a.day.lock
          ∙ rw (k.rows_eq, sym moved, sym capital, sym lock)
              (ap (λ b. a.day.lock.engaged || b) engages),
    )
