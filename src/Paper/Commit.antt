-- ===== src/Paper/Commit.antt =====
-- The stages that a commit of a fill went through, if it succeeded.
use aitrading.Common.{false, Option, none, some, ◌≡◌, sym, ◌∙◌, subst, arith}
use aitrading.Paper.Orders.{PaperOrderRow, filled, is_event_taken}
use aitrading.Paper.Runs.{PaperRunRow}
use aitrading.Paper.Money.{
  ok, ok-injective, integrity_error, >>=-ok, raise_if-ok, or_fail-ok, or_fail,
}
use aitrading.Paper.Tables.{PaperLedger, PaperFillRow}
use aitrading.Paper.Fill.{
  Extern, Clock, Admitted, admit_fill, project_fill, fresh_fill, settle_fill,
  commit_paper_fill_atomic,
}
use aitrading.Paper.Fill.Request.{FillRequest, FillTerms, FillCommitResult, checked_fill, fill_of}
use aitrading.Paper.Fill.Write.{Decided, is_refused, committed_rows, written, write_fill}

pub commit-stages :
    (x : Extern) (clock : Clock) (q : FillRequest) (l : PaperLedger) (rows : FillCommitResult)
    (l' : PaperLedger)
    → commit_paper_fill_atomic x clock q l ≡ ok (rows, l')
    → (r : FillTerms) × (run : PaperRunRow) × (order : PaperOrderRow) × (checked_fill q ≡ ok r)
      × (l.runs r.run_id ≡ some run)
      × (l.orders r.client_order_id ≡ some order)
      × (settle_fill x clock r run order (fill_of r.client_order_id l.fills) l ≡ ok (rows, l'))
unfolding commit_paper_fill_atomic
commit-stages x clock q l rows l' h =
    let (r, checked, h1) = >>=-ok (checked_fill q) _ (rows, l') h in
    let (run, found, h2) = >>=-ok (or_fail (l.runs r.run_id) _) _ (rows, l') h1 in
    let (order, stored, h3) = >>=-ok (or_fail (l.orders r.client_order_id) _) _ (rows, l') h2 in
    (r, run, order, checked, or_fail-ok _ _ run found, or_fail-ok _ _ order stored, h3)

pub fresh-stages :
    (x : Extern) (clock : Clock) (r : FillTerms) (run : PaperRunRow) (order : PaperOrderRow)
    (l : PaperLedger) (rows : FillCommitResult) (l' : PaperLedger)
    → fresh_fill x clock r run order l ≡ ok (rows, l')
    → (a : Admitted) × (d : Decided) × (admit_fill x clock r run order l ≡ ok a)
      × (project_fill r order a l ≡ ok d)
      × (is_refused r l ≡ false)
      × (rows ≡ committed_rows r clock.commit d l)
      × (l' ≡ written x.event_hash x.reason_text r clock.commit d l)
unfolding fresh_fill write_fill
fresh-stages x clock r run order l rows l' h =
    let (a, admitted, h1) = >>=-ok (admit_fill x clock r run order l) _ (rows, l') h in
    let (d, projected, h2) = >>=-ok (project_fill r order a l) _ (rows, l') h1 in
    let (free, h2') = raise_if-ok (is_refused r l) integrity_error _ (rows, l') h2 in
    let (_, h3) =
      raise_if-ok (is_event_taken x.event_hash r.client_order_id filled l.events) integrity_error _
        (rows, l') h2' in
    (a, d, admitted, projected, free, ground (arith, h3), ground (arith, h3))

-- A commit of a fill that is not stored goes through the stages of one.
settle-fresh :
    (x : Extern) (clock : Clock) (r : FillTerms) (run : PaperRunRow) (order : PaperOrderRow)
    (old : Option PaperFillRow) (l : PaperLedger) (p : FillCommitResult × PaperLedger)
    → old ≡ none
    → settle_fill x clock r run order old l ≡ ok p
    → fresh_fill x clock r run order l ≡ ok p
unfolding settle_fill
settle-fresh x clock r run order none l p e h = h
settle-fresh x clock r run order (some f) l p e h = ground arith

-- The arguments of a commit are the checked ones.
pub fresh_commit-stages :
    (x : Extern) (clock : Clock) (q : FillRequest) (r : FillTerms) (l : PaperLedger)
    (rows : FillCommitResult) (l' : PaperLedger)
    → checked_fill q ≡ ok r
    → fill_of r.client_order_id l.fills ≡ none
    → commit_paper_fill_atomic x clock q l ≡ ok (rows, l')
    → (run : PaperRunRow) × (order : PaperOrderRow) × (l.runs r.run_id ≡ some run)
      × (l.orders r.client_order_id ≡ some order)
      × (fresh_fill x clock r run order l ≡ ok (rows, l'))
fresh_commit-stages x clock q r l rows l' checked fresh h =
    let (s, run, order, again, found, stored, settled) = commit-stages x clock q l rows l' h in
    let e = ok-injective (sym again ∙ checked) in
    (
      run,
      order,
      subst (λ (r : FillTerms). l.runs r.run_id ≡ some run) e found,
      subst (λ (r : FillTerms). l.orders r.client_order_id ≡ some order) e stored,
      settle-fresh x clock r run order (fill_of r.client_order_id l.fills) l (rows, l') fresh
          (subst
            (λ (r : FillTerms).
              settle_fill x clock r run order (fill_of r.client_order_id l.fills) l ≡ ok (rows, l'))
            e settled),
    )
