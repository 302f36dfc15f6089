-- ===== src/Paper/Retry.antt =====
-- A commit of a fill that is repeated.
use text.Mathlib.Text.{◌==◌ as str_eq}
use text.Mathlib.TextEquality.{eq_iff}
use aitrading.Common.{
  ℕ, Bool, true, false, Option, none, some, String, List, [], ◌∷◌, ◌++◌, ◌≡◌, refl, sym, ap, ◌∙◌,
  subst, arith, ◌==◌,
}
use aitrading.Common.Int.{ℤ, eqb_ℤ}
use aitrading.Runtime.Positions.{Side, buy, sell}
use aitrading.Paper.Orders.{PaperOrderRow}
use aitrading.Paper.Runs.{PaperRunRow}
use aitrading.Paper.Money.{ok, >>=-ok, ok-injective}
use aitrading.Paper.Tables.{PaperLedger, PaperFillRow, PaperAccountRow, PaperPositionRow, same_side}
use aitrading.Paper.Fill.{Extern, Clock, settle_fill, commit_paper_fill_atomic}
use aitrading.Paper.Fill.Request.{
  FillRequest, FillTerms, FillCommitResult, checked_fill, fill_of, existing_fill_result, differs,
}
use aitrading.Paper.Fill.Admit.{kill_row}
use aitrading.Paper.Fill.Write.{paper_fill_row, filled_order, written, committed_rows, Decided}
use aitrading.Paper.Commit.{commit-stages, fresh-stages}
use aitrading.Paper.Stages.{project-stages}
use aitrading.Paper.Admission.{admit-stages, gate-stages, admit_order-ok}
use aitrading.Paper.Keys.{str_self, put_same, put_at_same}

fill_of-++ :
    (id : String) (fills : List PaperFillRow) (f : PaperFillRow)
    → f.client_order_id ≡ id
    → fill_of id fills ≡ none
    → fill_of id (fills ++ f ∷ []) ≡ some f
fill_of-++ id [] f h n = ground (arith, eq_iff f.client_order_id id)
fill_of-++ id (g ∷ fills) f h n = ground (arith, fill_of-++ id fills f h)

same_amounts : (a : ℤ) → eqb_ℤ a a ≡ true
same_amounts a = ground arith

same_side_self : (s : Side) → same_side s s ≡ true
same_side_self buy = refl
same_side_self sell = refl

same_time : (n : ℕ) → (n == n) ≡ true
same_time n = ground arith

-- The rows that a fill writes are those that it compares with.
written-differs :
    (r : FillTerms) (now seq : ℕ) (order : PaperOrderRow)
    → str_eq order.run_id r.run_id ≡ true
    → differs r (filled_order r now order) (paper_fill_row r seq) ≡ false
written-differs r now seq order h =
    rw
      (
        h,
        str_self r.broker_order_id,
        str_self r.fill_id,
        str_self r.broker_fill_id,
        str_self r.instrument,
        same_side_self r.side,
        same_amounts r.quantity,
        same_amounts r.price,
        same_amounts r.commission,
        same_amounts r.multiplier,
        same_time r.quote_ts,
        same_time r.ts,
      )
      refl

-- What a repeated commit finds.
existing-found :
    (r : FillTerms) (order : PaperOrderRow) (f : PaperFillRow) (account : PaperAccountRow)
    (position : PaperPositionRow) (l : PaperLedger)
    → differs r order f ≡ false
    → l.accounts r.run_id ≡ some account
    → l.positions r.run_id r.instrument ≡ some position
    → existing_fill_result r order f l
      ≡ ok (record { order = order; fill = f; account = account; position = position })
unfolding existing_fill_result
existing-found r order f account position l same a p = rw (same, a, p) refl

-- A commit on the tables that a stored fill's commit leaves.
settle-found :
    (x : Extern) (clock : Clock) (r : FillTerms) (run : PaperRunRow) (order : PaperOrderRow)
    (f : PaperFillRow) (l : PaperLedger) (rows : FillCommitResult) (b : Bool)
    → l.kill_switch ≡ some b
    → existing_fill_result r order f l ≡ ok rows
    → settle_fill x clock r run order (some f) l ≡ ok (rows, l)
unfolding settle_fill
settle-found x clock r run order f l rows b killed h =
    rw h (ap (λ k. ok (rows, record l { kill_switch = k })) (rw killed refl))

commit-found :
    (x : Extern) (clock : Clock) (q : FillRequest) (r : FillTerms) (run : PaperRunRow)
    (order : PaperOrderRow) (old : Option PaperFillRow) (l : PaperLedger) (rows : FillCommitResult)
    → checked_fill q ≡ ok r
    → l.runs r.run_id ≡ some run
    → l.orders r.client_order_id ≡ some order
    → fill_of r.client_order_id l.fills ≡ old
    → settle_fill x clock r run order old l ≡ ok (rows, l)
    → commit_paper_fill_atomic x clock q l ≡ ok (rows, l)
unfolding commit_paper_fill_atomic
commit-found x clock q r run order old l rows checked found stored settled h =
    rw (checked, found, stored, settled) h

-- A fill committed for the first time, committed again.
fresh-again :
    (x : Extern) (clock later : Clock) (q : FillRequest) (r : FillTerms) (run : PaperRunRow)
    (order : PaperOrderRow) (l : PaperLedger) (d : Decided)
    → checked_fill q ≡ ok r
    → l.runs r.run_id ≡ some run
    → fill_of r.client_order_id l.fills ≡ none
    → str_eq d.order.run_id r.run_id ≡ true
    → commit_paper_fill_atomic x later q (written x.event_hash x.reason_text r clock.commit d l)
      ≡ ok
          (committed_rows r clock.commit d l, written x.event_hash x.reason_text r clock.commit d l)
unfolding written committed_rows
fresh-again x clock later q r run order l d checked found fresh owned =
    let l' = written x.event_hash x.reason_text r clock.commit d l in
    let rows = committed_rows r clock.commit d l in
    commit-found x later q r run rows.order (some rows.fill) l' rows checked found
      (put_same r.client_order_id (some rows.order) l.orders)
      (fill_of-++ r.client_order_id l.fills rows.fill refl fresh)
      (settle-found x later r run rows.order rows.fill l' rows false refl (
        existing-found r rows.order rows.fill rows.account rows.position l'
          (written-differs r clock.commit rows.fill.ledger_seq d.order owned)
          (put_same r.run_id (some rows.account) l.accounts)
          (put_at_same r.run_id r.instrument (some rows.position) l.positions)))

-- The same of either kind of fill.
settled-again :
    (x : Extern) (clock later : Clock) (q : FillRequest) (r : FillTerms) (run : PaperRunRow)
    (order : PaperOrderRow) (old : Option PaperFillRow) (l : PaperLedger) (rows : FillCommitResult)
    (l' : PaperLedger)
    → checked_fill q ≡ ok r
    → l.runs r.run_id ≡ some run
    → l.orders r.client_order_id ≡ some order
    → fill_of r.client_order_id l.fills ≡ old
    → settle_fill x clock r run order old l ≡ ok (rows, l')
    → commit_paper_fill_atomic x later q l' ≡ ok (rows, l')
unfolding settle_fill existing_fill_result
settled-again x clock later q r run order none l rows l' checked found stored fresh h =
    let (a, d, admitted, projected, _, rows_eq, written_eq) =
      fresh-stages x clock r run order l rows l' h in
    let (_, b, o, _, _, _, _, _, decided_eq) = project-stages r order a l d projected in
    let (g, gated, _, _, _, _, _) = admit-stages x clock r run order l a admitted in
    let (_, _, _, ordered, _, _) = gate-stages x.codec r run order l g gated in
    let (_, owned, _, _) = admit_order-ok r run order ordered in
    subst (λ p. commit_paper_fill_atomic x later q p.1 ≡ ok p)
      (ap (λ rows. (rows, written x.event_hash x.reason_text r clock.commit d l)) (sym rows_eq)
        ∙ ap (λ l. (rows, l)) (sym written_eq))
      (fresh-again x clock later q r run order l d checked found fresh
        (subst (λ (d : Decided). str_eq d.order.run_id r.run_id ≡ true) (sym decided_eq) owned))
settled-again x clock later q r run order (some f) l rows l' checked found stored kept h =
    let (again, found_rows, e) = >>=-ok (existing_fill_result r order f l) _ (rows, l') h in
    subst (λ p. commit_paper_fill_atomic x later q p.1 ≡ ok p) (ok-injective e)
      (commit-found x later q r run order (some f)
        (record l { kill_switch = some (kill_row l.kill_switch) }) again checked found stored kept
        (settle-found x later r run order f
          (record l { kill_switch = some (kill_row l.kill_switch) }) again (kill_row l.kill_switch)
          refl found_rows))

-- A commit of a fill that succeeded gives, when it is repeated at any later times on the tables that it left, the
-- same rows, and changes nothing.
pub commit-commit :
    (x : Extern) (clock later : Clock) (q : FillRequest) (l : PaperLedger) (rows : FillCommitResult)
    (l' : PaperLedger)
    → commit_paper_fill_atomic x clock q l ≡ ok (rows, l')
    → commit_paper_fill_atomic x later q l' ≡ ok (rows, l')
commit-commit x clock later q l rows l' h =
    let (r, run, order, checked, found, stored, settled) = commit-stages x clock q l rows l' h in
    settled-again x clock later q r run order (fill_of r.client_order_id l.fills) l rows l' checked
      found stored refl settled
