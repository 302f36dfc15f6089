-- ===== src/Paper/Refinement.antt =====
-- A commit of a fill keeps the account and the positions what the fills add up to.
use text.Mathlib.Text.{◌==◌ as str_eq}
use aitrading.Common.{
  ℕ, false, Option, none, some, String, List, ◌≡◌, refl, sym, ap, ◌∙◌, subst, Bool-cases, inl, inr,
  [], ◌∷◌, ◌++◌,
}
use aitrading.Common.Int.{ℤ, ◌+ℤ◌, +ℤ-zero}
use aitrading.Paper.Orders.{PaperOrderRow}
use aitrading.Paper.Money.{ok}
use aitrading.Paper.Tables.{PaperLedger, PaperPositionRow, PaperFillRow, put}
use aitrading.Paper.Fill.{Extern, Clock, commit_paper_fill_atomic}
use aitrading.Paper.Fill.Request.{FillRequest, FillTerms, FillCommitResult}
use aitrading.Paper.Fill.Project.{signed, holding_of}
use aitrading.Paper.Fill.Write.{
  written, committed_rows, paper_fill_row, filled_order, filled_account, filled_position, put_at,
}
use aitrading.Paper.Keys.{
  str_self, str_same, put_same, put_other, put_at_run, put_at_same, put_at_other,
}
use aitrading.Paper.Stages.{exposure-ok, books_after-ok}
use aitrading.Paper.Admission.{gate-stages, admit_order-ok, bound_account-ok}
use aitrading.Paper.Course.{Course, commit-cases}
use aitrading.Paper.Replay.{
  CashOf, held, cash_flow, quantity_flow, sum_over, IsReplayed, amount_of-ok, cash_step,
  quantity_step, sum_over-filled,
}

holding-held : (p : Option PaperPositionRow) → (holding_of p).quantity ≡ held p
holding-held none = refl
holding-held (some p) = refl

-- The run of the fill's order is the one of the fill.
order_run :
    {x : Extern} {clock : Clock} {r : FillTerms} {l : PaperLedger} {rows : FillCommitResult}
    {l' : PaperLedger} (k : Course x clock r l rows l')
    → k.order.run_id ≡ r.run_id
order_run {x = x} {r = r} {l = l} k =
    let (_, _, _, ordered, _, _) = gate-stages x.codec r k.run k.order l k.gate k.gated in
    let (_, owned, _, _) = admit_order-ok r k.run k.order ordered in
    str_same k.order.run_id r.run_id owned

-- The account of the run after the fill.
cash_after_fill :
    {x : Extern} {clock : Clock} {r : FillTerms} {l : PaperLedger} {rows : FillCommitResult}
    {l' : PaperLedger} (k : Course x clock r l rows l') (seq : ℕ) (flows : ℤ)
    → CashOf (l.accounts r.run_id) flows
    → CashOf
        (some (filled_account clock.commit k.books k.admitted.account))
        (flows +ℤ cash_flow (paper_fill_row r seq))
cash_after_fill {x = x} {r = r} {l = l} k seq flows kept =
    let a = k.admitted in
    let holding = holding_of (l.positions r.run_id r.instrument) in
    let (valued, _, _, _, _) = exposure-ok r a.config holding k.exposed k.exposure_eq in
    let (cash, _, _, _, _, _, _, _) =
      books_after-ok r a.account holding k.exposed k.books k.books_eq in
    let owned = (bound_account-ok r.run_id k.gate.config l a.account k.account).0 in
    rw cash (
      cash_step r.side a.account.cash k.exposed.notional r.commission _ a.account.starting_cash
        flows (amount_of-ok r.quantity r.price r.multiplier k.exposed.notional valued)
        (subst (λ o. CashOf o flows) owned kept))

-- The quantity of the position after the fill.
quantity_after_fill :
    {x : Extern} {clock : Clock} {r : FillTerms} {l : PaperLedger} {rows : FillCommitResult}
    {l' : PaperLedger} (k : Course x clock r l rows l') (seq : ℕ) (flows : ℤ)
    → held (l.positions r.run_id r.instrument) ≡ flows
    → k.books.quantity ≡ flows +ℤ quantity_flow r.instrument (paper_fill_row r seq)
quantity_after_fill {x = x} {r = r} {l = l} k seq flows kept =
    let a = k.admitted in
    let holding = holding_of (l.positions r.run_id r.instrument) in
    let (_, signed_eq, _, _, _) = exposure-ok r a.config holding k.exposed k.exposure_eq in
    let (_, _, _, _, quantity, _, _, _) =
      books_after-ok r a.account holding k.exposed k.books k.books_eq in
    quantity
    ∙ signed_eq
    ∙ ap (λ q. signed r.side q r.quantity) (holding-held (l.positions r.run_id r.instrument) ∙ kept)
    ∙ quantity_step r.side flows r.quantity
    ∙ rw (str_self r.instrument) refl

-- The sums after the fill, of its run and of another.
sum-same :
    (flow : PaperFillRow → ℤ) (run_id : String) (orders : String → Option PaperOrderRow)
    (fills : List PaperFillRow) (f : PaperFillRow) (o p : PaperOrderRow)
    → orders f.client_order_id ≡ some o
    → p.run_id ≡ o.run_id
    → o.run_id ≡ run_id
    → sum_over flow run_id (put f.client_order_id (some p) orders) (fills ++ f ∷ [])
      ≡ sum_over flow run_id orders fills +ℤ flow f
sum-same flow run_id orders fills f o p stored same owned =
    sum_over-filled flow run_id orders fills f o p stored same ∙ rw (owned, str_self run_id) refl

sum-other :
    (flow : PaperFillRow → ℤ) (run_id : String) (orders : String → Option PaperOrderRow)
    (fills : List PaperFillRow) (f : PaperFillRow) (o p : PaperOrderRow)
    → orders f.client_order_id ≡ some o
    → p.run_id ≡ o.run_id
    → str_eq o.run_id run_id ≡ false
    → sum_over flow run_id (put f.client_order_id (some p) orders) (fills ++ f ∷ [])
      ≡ sum_over flow run_id orders fills
sum-other flow run_id orders fills f o p stored same apart =
    sum_over-filled flow run_id orders fills f o p stored same
    ∙ rw apart (+ℤ-zero (sum_over flow run_id orders fills))

module _ {x : Extern} {clock : Clock} {r : FillTerms} {l : PaperLedger} {rows : FillCommitResult}
    {l' : PaperLedger} (k : Course x clock r l rows l') (seq : ℕ) (kept : IsReplayed l) where
  step-cash :
      (j : String)
      → CashOf
          (put r.run_id
            (some (filled_account clock.commit k.books k.admitted.account))
            l.accounts
            j)
          (sum_over cash_flow j
            (put r.client_order_id (some (filled_order r clock.commit k.order)) l.orders)
            (l.fills ++ paper_fill_row r seq ∷ []))
  unfolding IsReplayed
  step-cash j =
      let f = paper_fill_row r seq in
      let o = filled_order r clock.commit k.order in
      let a = filled_account clock.commit k.books k.admitted.account in
      elim (Bool-cases (str_eq r.run_id j)) [
        | inl same ↦
            subst
              (λ j. CashOf (put r.run_id (some a) l.accounts j) (
                sum_over cash_flow j (put r.client_order_id (some o) l.orders) (l.fills ++ f ∷ [])))
              (str_same r.run_id j same)
              (rw
                (
                  put_same r.run_id (some a) l.accounts,
                  sum-same cash_flow r.run_id l.orders l.fills f k.order o k.stored refl
                      (order_run k),
                )
                (cash_after_fill k seq (sum_over cash_flow r.run_id l.orders l.fills)
                  (kept r.run_id r.instrument).0))
        | inr other ↦
            rw
              (
                put_other r.run_id j (some a) l.accounts other,
                sum-other cash_flow j l.orders l.fills f k.order o k.stored refl
                    (subst (λ i. str_eq i j ≡ false) (sym (order_run k)) other),
              )
              (kept j r.instrument).0
      ]

  -- A position on the run's instrument and on another one.
  step-quantity :
      (j m : String)
      → held (
          put_at r.run_id r.instrument
            (some (filled_position r clock.commit k.books (l.positions r.run_id r.instrument)))
            l.positions
            j
            m)
        ≡ sum_over
            (quantity_flow m)
            j
            (put r.client_order_id (some (filled_order r clock.commit k.order)) l.orders)
            (l.fills ++ paper_fill_row r seq ∷ [])
  unfolding IsReplayed
  step-quantity j m =
      let f = paper_fill_row r seq in
      let o = filled_order r clock.commit k.order in
      let p = filled_position r clock.commit k.books (l.positions r.run_id r.instrument) in
      elim (Bool-cases (str_eq r.run_id j)) [
        | inl same ↦
            subst
              (λ j.
                held (put_at r.run_id r.instrument (some p) l.positions j m)
                ≡ sum_over (quantity_flow m) j (put r.client_order_id (some o) l.orders)
                    (l.fills ++ f ∷ []))
              (str_same r.run_id j same)
              (elim (Bool-cases (str_eq r.instrument m)) [
                | inl this ↦
                    subst
                      (λ m.
                        held (put_at r.run_id r.instrument (some p) l.positions r.run_id m)
                        ≡ sum_over (quantity_flow m) r.run_id
                            (put r.client_order_id (some o) l.orders) (l.fills ++ f ∷ []))
                      (str_same r.instrument m this)
                      (ap held (put_at_same r.run_id r.instrument (some p) l.positions)
                        ∙ quantity_after_fill k seq _ (kept r.run_id r.instrument).1
                        ∙ sym (run_sum (quantity_flow r.instrument)))
                | inr that ↦
                    ap held (put_at_other r.run_id r.instrument m (some p) l.positions that)
                    ∙ (kept r.run_id m).1
                    ∙ sym (+ℤ-zero (sum_over (quantity_flow m) r.run_id l.orders l.fills))
                    ∙ sym (run_sum (quantity_flow m) ∙ rw that refl)
              ])
        | inr other ↦
            ap held (put_at_run r.run_id r.instrument j m (some p) l.positions other)
            ∙ (kept j m).1
            ∙ sym (
                sum-other (quantity_flow m) j l.orders l.fills f k.order o k.stored refl
                  (subst (λ i. str_eq i j ≡ false) (sym (order_run k)) other))
      ]
    where
      run_sum :
          (flow : PaperFillRow → ℤ)
          → sum_over flow r.run_id
              (put r.client_order_id (some (filled_order r clock.commit k.order)) l.orders)
              (l.fills ++ paper_fill_row r seq ∷ [])
            ≡ sum_over flow r.run_id l.orders l.fills +ℤ flow (paper_fill_row r seq)
      run_sum flow =
          sum-same flow r.run_id l.orders l.fills (paper_fill_row r seq) k.order
            (filled_order r clock.commit k.order) k.stored refl (order_run k)

-- If every account's cash is its starting cash with the cash flows of its run's fills (less the value of a BUY, plus
-- that of a SELL, less each commission), and every position is the sum of its run's BUYs less its SELLs on
-- the instrument, and a run without an account has no flows, before a commit of a fill that succeeds, so it
-- is after it.
pub commit-IsReplayed :
    (x : Extern) (clock : Clock) (q : FillRequest) (l : PaperLedger) (rows : FillCommitResult)
    (l' : PaperLedger)
    → IsReplayed l
    → commit_paper_fill_atomic x clock q l ≡ ok (rows, l')
    → IsReplayed l'
unfolding IsReplayed written committed_rows
commit-IsReplayed x clock q l rows l' kept h =
    let (r, _, cases) = commit-cases x clock q l rows l' h in
    elim cases [
      | inl k ↦
          subst (λ l. IsReplayed l) (sym k.written_eq)
            (λ j m. (step-cash k _ kept j, step-quantity k _ kept j m))
      | inr e ↦ subst (λ l. IsReplayed l) (sym e) kept
    ]
